-- ===== src/Cni/Inject/Laws.antt =====
-- What injection does to the list of plugins.
use linkerd2_proxy_init.Base.{
  ℕ, suc, ◌+◌, true, false, same, Option, none, some, List, [], ◌∷◌, ◌++◌, ok, ◌≡◌, refl, ap, ◌∙◌,
  sym, arith, append-nil, All,
}
use linkerd2_proxy_init.Cni.Json.{
  Json, null, bool, num, str, arr, obj, to_list, from_list, get, put, delete, fields,
}
use linkerd2_proxy_init.Cni.Json.Laws.{to_list-from_list, get-put}
use linkerd2_proxy_init.Cni.Inject.{
  cni_key_plugins, cni_key_type, cni_key_version, is_linkerd, find_linkerd, remove_at, remove_found,
  as_plugins, plugin_list, replace_plugin, merge, inject_value,
}

-- A plugin's configuration that is an object and not linkerd's, and one that is linkerd's.
abbrev pub IsForeign : Json → Type 0
IsForeign (obj plugin) = is_linkerd plugin ≡ false
IsForeign _ = ⊥

abbrev pub IsLinkerd : Json → Type 0
IsLinkerd (obj plugin) = is_linkerd plugin ≡ true
IsLinkerd _ = ⊥

-- The configuration with another list of plugins, and that it is one with a list of plugins.
abbrev pub with_plugins : Json → List Json → Json
with_plugins v plugins = obj (put cni_key_plugins (arr (from_list plugins)) (fields v))

abbrev pub IsPluginList : Json → List Json → Type 0
IsPluginList v plugins =
    (get cni_key_type (fields v) ≡ none)
    × (as_plugins (get cni_key_plugins (fields v)) ≡ ok plugins)

pub find-foreign : (xs : List Json) (i : ℕ) → All IsForeign xs → find_linkerd xs i ≡ ok none
unfolding find_linkerd
find-foreign [] i h = refl
find-foreign (obj p ∷ xs) i (h, hs) = rw h (find-foreign xs (i + 1) hs)
find-foreign (null ∷ xs) i (h, hs) = absurd h
find-foreign (bool _ ∷ xs) i (h, hs) = absurd h
find-foreign (num _ ∷ xs) i (h, hs) = absurd h
find-foreign (str _ ∷ xs) i (h, hs) = absurd h
find-foreign (arr _ ∷ xs) i (h, hs) = absurd h

-- The plugin is found behind foreign ones, and taken out there.
pub remove-linkerd :
    (xs : List Json) (l : Json) (ys : List Json) (i : ℕ)
    → All IsForeign xs
    → IsLinkerd l
    → (at : ℕ) × (find_linkerd (xs ++ l ∷ ys) i ≡ ok (some (i + at)))
      × (remove_at at (xs ++ l ∷ ys) ≡ xs ++ ys)
unfolding find_linkerd remove_at
remove-linkerd [] (obj l) ys i h hl = (0, rw hl (ap (λ n. ok (some n)) (omega arith)), refl)
remove-linkerd [] null ys i h hl = absurd hl
remove-linkerd [] (bool _) ys i h hl = absurd hl
remove-linkerd [] (num _) ys i h hl = absurd hl
remove-linkerd [] (str _) ys i h hl = absurd hl
remove-linkerd [] (arr _) ys i h hl = absurd hl
remove-linkerd (obj p ∷ xs) l ys i (h, hs) hl =
    let (at, found, removed) = remove-linkerd xs l ys (i + 1) hs hl in
    (suc at, rw (h, found) (ap (λ n. ok (some n)) (omega arith)), ap (λ t. obj p ∷ t) removed)
remove-linkerd (null ∷ xs) l ys i (h, hs) hl = absurd h
remove-linkerd (bool _ ∷ xs) l ys i (h, hs) hl = absurd h
remove-linkerd (num _ ∷ xs) l ys i (h, hs) hl = absurd h
remove-linkerd (str _ ∷ xs) l ys i (h, hs) hl = absurd h
remove-linkerd (arr _ ∷ xs) l ys i (h, hs) hl = absurd h

-- What is left of a list of plugins from the first one of linkerd on: nothing, or that one and
-- `after`.
abbrev pub IsRest : List Json → List Json → Type 0
IsRest [] after = after ≡ []
IsRest (k ∷ ks) after = IsLinkerd k × (ks ≡ after)

pub find-rest :
    (xs rest after : List Json)
    → All IsForeign xs
    → IsRest rest after
    → (at : Option ℕ) × (find_linkerd (xs ++ rest) 0 ≡ ok at)
      × (remove_found (xs ++ rest) at ≡ xs ++ after)
unfolding remove_found
find-rest xs [] after h hr =
    (none, rw (append-nil xs) (find-foreign xs 0 h), ap (λ t. xs ++ t) (sym hr))
find-rest xs (k ∷ ks) after h (hk, hr) =
    let (at, found, removed) = remove-linkerd xs k ks 0 h hk in
    (some at, found ∙ ap (λ n. ok (some n)) (omega arith), removed ∙ ap (λ t. xs ++ t) hr)

-- The plugin in the list is replaced by the new one, which stands last.
pub inject_value-list :
    (v : Json) (l : Json) (xs rest after : List Json)
    → All IsForeign xs
    → IsRest rest after
    → IsPluginList v (xs ++ rest)
    → inject_value v l ≡ ok (with_plugins v ((xs ++ after) ++ l ∷ []))
unfolding inject_value merge replace_plugin
inject_value-list v l xs rest after h hr (no_type, listed) =
    let (at, found, removed) = find-rest xs rest after h hr in
    rw (no_type, listed, found, removed) refl

-- A configuration that says of itself that it is a plugin becomes the first of two in a list.
pub inject_value-single :
    (v l : Json) (t : Json)
    → get cni_key_type (fields v) ≡ some t
    → inject_value v l ≡ ok (plugin_list (obj (delete cni_key_version (fields v))) l)
unfolding inject_value merge
inject_value-single v l t h = rw h refl

-- What an injection leaves is a list of plugins, linkerd's the last.
pub IsPluginList-put :
    (v : Json) (plugins : List Json)
    → get cni_key_type (fields v) ≡ none
    → IsPluginList (with_plugins v plugins) plugins
unfolding fields as_plugins same
IsPluginList-put v plugins h = (
  get-put cni_key_type cni_key_plugins (arr (from_list plugins)) (fields v) ∙ h,
  rw
      (
        get-put cni_key_plugins cni_key_plugins (arr (from_list plugins)) (fields v),
        to_list-from_list plugins,
      )
      refl,
)

pub IsPluginList-plugin_list : (u l : Json) → IsPluginList (plugin_list u l) (u ∷ l ∷ [])
unfolding plugin_list fields get as_plugins same to_list from_list
IsPluginList-plugin_list u l = (refl, refl)
