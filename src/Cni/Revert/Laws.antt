-- ===== src/Cni/Revert/Laws.antt =====
-- Injection and its undoing, on decoded configurations.
use linkerd2_proxy_init.Base.{
  Bytes, All-append, false, same, arith, append-nil, List, [], ◌∷◌, ◌++◌, none, some, ok, ◌≡◌, refl,
  All, ap, ◌∙◌, sym,
}
use linkerd2_proxy_init.Cni.Json.{Json, Fields, obj, arr, from_list, get, put, delete, fields}
use linkerd2_proxy_init.Cni.Json.Laws.{put-put, get-put, get-delete}
use linkerd2_proxy_init.Cni.Inject.{
  cni_key_plugins, cni_key_type, cni_key_version, find_linkerd, inject_value, plugin_list,
  is_linkerd, is_linkerd_type,
}
use linkerd2_proxy_init.Cni.Inject.Laws.{
  IsForeign, IsLinkerd, IsRest, IsPluginList, IsPluginList-put, IsPluginList-plugin_list,
  with_plugins, remove-linkerd, find-foreign, inject_value-list, inject_value-single,
}
use linkerd2_proxy_init.Cni.Revert.{taken_out, revert_value}

pub revert_value-foreign :
    (v : Json) (xs : List Json) → All IsForeign xs → IsPluginList v xs → revert_value v ≡ ok none
unfolding revert_value taken_out
revert_value-foreign v xs hx (_, listed) = rw (listed, find-foreign xs 0 hx) refl

pub revert_value-last :
    (v l : Json) (xs : List Json)
    → All IsForeign xs
    → IsLinkerd l
    → IsPluginList v (xs ++ l ∷ [])
    → revert_value v ≡ ok (some (with_plugins v xs))
unfolding revert_value taken_out
revert_value-last v l xs hx hl (_, listed) =
    let (at, found, removed) = remove-linkerd xs l [] 0 hx hl in
    let here : find_linkerd (xs ++ l ∷ []) 0 ≡ ok (some at) =
      found ∙ ap (λ n. ok (some n)) (omega arith) in
    rw (listed, here, removed, append-nil xs) refl

injected :
    (v l w : Json) (xs rest after : List Json)
    → All IsForeign xs
    → IsRest rest after
    → IsPluginList v (xs ++ rest)
    → inject_value v l ≡ ok w
    → w ≡ with_plugins v ((xs ++ after) ++ l ∷ [])
injected v l w xs rest after hx hr hv h =
    let result = inject_value-list v l xs rest after hx hr hv in cc

with_plugins-with_plugins :
    (v : Json) (xs ys : List Json) → with_plugins (with_plugins v xs) ys ≡ with_plugins v ys
unfolding fields
with_plugins-with_plugins v xs ys =
    ap obj (put-put cni_key_plugins (arr (from_list xs)) (arr (from_list ys)) (fields v))

get-with_plugins :
    (v : Json) (xs : List Json) (key : Bytes)
    → same cni_key_plugins key ≡ false
    → get key (fields (with_plugins v xs)) ≡ get key (fields v)
unfolding fields
get-with_plugins v xs key other =
    get-put key cni_key_plugins (arr (from_list xs)) (fields v) ∙ rw other refl

-- Reverting an injection of linkerd's plugin into a list that holds it at most once leaves the
-- configuration with the other plugins, in their order, and with every other field as it was before
-- the injection; reverting that finds nothing to take out.
pub revert_value-inject_value :
    (v l w : Json) (xs rest after : List Json)
    → All IsForeign xs
    → All IsForeign after
    → IsRest rest after
    → IsLinkerd l
    → IsPluginList v (xs ++ rest)
    → inject_value v l ≡ ok w
    → (u : Json) × (revert_value w ≡ ok (some u))
      × IsPluginList u (xs ++ after)
      × ((key : Bytes) → same cni_key_plugins key ≡ false → get key (fields u) ≡ get key (fields v))
      × (u ≡ with_plugins v (xs ++ after))
      × (revert_value u ≡ ok none)
revert_value-inject_value v l w xs rest after hx ha hr hl hv h =
    let others = All-append IsForeign xs after hx ha in
    let e = injected v l w xs rest after hx hr hv h in
    let listed = IsPluginList-put v ((xs ++ after) ++ l ∷ []) (hv.0) in
    let back = IsPluginList-put v (xs ++ after) (hv.0) in
    (
      with_plugins v (xs ++ after),
      ap revert_value e
          ∙ revert_value-last (with_plugins v ((xs ++ after) ++ l ∷ [])) l (xs ++ after) others hl
              listed
          ∙ ap (λ u. ok (some u))
              (with_plugins-with_plugins v ((xs ++ after) ++ l ∷ []) (xs ++ after)),
      back,
      λ key other. get-with_plugins v (xs ++ after) key other,
      refl,
      revert_value-foreign (with_plugins v (xs ++ after)) (xs ++ after) others back,
    )

-- The last of two injections of linkerd's plugin has the effect of that one alone, for a list of
-- plugins that holds linkerd's at most once.
pub inject_value_again :
    (v l m w : Json) (xs rest after : List Json)
    → All IsForeign xs
    → All IsForeign after
    → IsRest rest after
    → IsLinkerd l
    → IsPluginList v (xs ++ rest)
    → inject_value v l ≡ ok w
    → inject_value w m ≡ inject_value v m
inject_value_again v l m w xs rest after hx ha hr hl hv h =
    let others = All-append IsForeign xs after hx ha in
    let e = injected v l w xs rest after hx hr hv h in
    let listed = IsPluginList-put v ((xs ++ after) ++ l ∷ []) (hv.0) in
    let again =
      inject_value-list (with_plugins v ((xs ++ after) ++ l ∷ [])) m (xs ++ after) (l ∷ []) []
        others (hl, refl) listed in
    ap (λ u. inject_value u m) e
    ∙ again
    ∙ ap ok
        (with_plugins-with_plugins v ((xs ++ after) ++ l ∷ []) (((xs ++ after) ++ []) ++ m ∷ []))
    ∙ ap (λ t. ok (with_plugins v (t ++ m ∷ []))) (append-nil (xs ++ after))
    ∙ sym (inject_value-list v m xs rest after hx hr hv)

IsForeign-delete : (p : Fields) → is_linkerd p ≡ false → IsForeign (obj (delete cni_key_version p))
unfolding is_linkerd same
IsForeign-delete p h = ap is_linkerd_type (get-delete cni_key_type cni_key_version p) ∙ h

-- A configuration of a single plugin that is not linkerd's, when linkerd's is injected, becomes the
-- list of that plugin without its version and linkerd's, and a second injection replaces the first
-- one there.
pub inject_value-single_again :
    (p : Fields) (l m t w : Json)
    → get cni_key_type p ≡ some t
    → is_linkerd p ≡ false
    → IsLinkerd l
    → inject_value (obj p) l ≡ ok w
    → IsPluginList w (obj (delete cni_key_version p) ∷ l ∷ [])
      × (inject_value w m ≡ inject_value (obj p) m)
unfolding fields plugin_list put same from_list
inject_value-single_again p l m t w ht hp hl h =
    let u = obj (delete cni_key_version p) in
    let first = inject_value-single (obj p) l t ht in
    let listed = IsPluginList-plugin_list u l in
    let e : plugin_list u l ≡ w = cc in
    let again =
      inject_value-list (plugin_list u l) m (u ∷ []) (l ∷ []) [] (IsForeign-delete p hp, tt)
        (hl, refl) listed in
    (
      rw (sym e) listed,
      ap (λ x. inject_value x m) (sym e) ∙ again ∙ sym (inject_value-single (obj p) m t ht),
    )
