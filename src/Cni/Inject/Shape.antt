-- ===== src/Cni/Inject/Shape.antt =====
-- What `inject` writes.
use linkerd2_proxy_init.Base.{
  Bytes, Option, none, some, List, [], ◌∷◌, ◌++◌, Result, ok, bind_success, ◌≡◌, ap, Option-cases,
  inl, inr, arith,
}
use mathlib.Core.Path.{subst}
use linkerd2_proxy_init.Cni.Json.{Json, obj, get, delete, fields}
use linkerd2_proxy_init.Cni.Inject.{
  cni_key_type, cni_key_version, cni_key_plugins, as_map, encoded, as_plugins, find_linkerd,
  remove_found, replace_plugin, merge, inject_value, inject,
}
use linkerd2_proxy_init.Cni.Inject.Laws.{IsPluginList, IsPluginList-put, IsPluginList-plugin_list}

-- A list of plugins with this one the last.
abbrev pub EndsWith : Json → Json → Type 0
EndsWith l w = (plugins : List Json) × IsPluginList w (plugins ++ l ∷ [])

ok_eq : {E A : Type 0} {a b : A} → ◌≡◌ {A = Result E A} (ok a) (ok b) → a ≡ b
ok_eq h = cc

replace_plugin-EndsWith :
    (v l w : Json)
    → get cni_key_type (fields v) ≡ none
    → replace_plugin (fields v) l ≡ ok w
    → EndsWith l w
unfolding replace_plugin
replace_plugin-EndsWith v l w no_type h =
    let (plugins, h₁, listed) = bind_success _ (as_plugins (get cni_key_plugins (fields v))) h in
    let (at, h₂, found) = bind_success _ (find_linkerd plugins 0) h₁ in
    (
      remove_found plugins at,
      subst (λ u. IsPluginList u (remove_found plugins at ++ l ∷ [])) (ok_eq h₂)
          (IsPluginList-put v (remove_found plugins at ++ l ∷ []) no_type),
    )

inject_value-EndsWith : (v l w : Json) → inject_value v l ≡ ok w → EndsWith l w
unfolding inject_value merge
inject_value-EndsWith v l w h = elim (Option-cases (get cni_key_type (fields v))) [
  | inl no_type ↦ replace_plugin-EndsWith v l w no_type (rw no_type at h)
  | inr (t, typed) ↦ (
    obj (delete cni_key_version (fields v)) ∷ [],
    subst (λ u. IsPluginList u (obj (delete cni_key_version (fields v)) ∷ l ∷ []))
        (ok_eq (rw typed at h)) (IsPluginList-plugin_list _ l),
  )
]

module _ (unmarshal : Bytes → Option Json) (marshal_indent : Json → Option Bytes) where
  -- When `inject` succeeds, the text that it returns is what is written for a network configuration
  -- list, without a type at its root and with a list of plugins, whatever kind of configuration it
  -- was given; the last of the plugins is linkerd's, as it was given.
  pub inject-EndsWith :
      (existing linkerd text : Bytes)
      → inject unmarshal marshal_indent existing linkerd ≡ ok text
      → (l w : Json) × (as_map (unmarshal linkerd) ≡ ok l)
        × (marshal_indent w ≡ some text)
        × EndsWith l w
  unfolding inject encoded
  inject-EndsWith existing linkerd text h =
      let (v, h₁, decoded) = bind_success _ (as_map (unmarshal existing)) h in
      let (l, h₂, given) = bind_success _ (as_map (unmarshal linkerd)) h₁ in
      let (w, h₃, injected) = bind_success _ (inject_value v l) h₂ in
      (l, w, given, encoded_ok (marshal_indent w) h₃, inject_value-EndsWith v l w injected)
    where
      encoded_ok : (o : Option Bytes) → encoded o ≡ ok text → o ≡ some text
      encoded_ok none e = absurd (ground (arith, e))
      encoded_ok (some t) e = ap some (ok_eq e)
