-- ===== src/Tests/Cni.antt =====
-- Tests of internal/cni.
use linkerd2_proxy_init.Base.{
  Bytes, false, any, map, true, ◌⊎◌, ◌++◌, codes, same, [], ◌∷◌, none, some, ok, err, ◌≡◌, refl,
}
use linkerd2_proxy_init.Cni.Log.{cni_file, k8s_file, filename, Log, append_entry, is_indexed}
use linkerd2_proxy_init.Cni.Log.Laws.{IsConsistent, append_entry-IsConsistent}
use linkerd2_proxy_init.Cni.Json.{
  Json, Fields, str, obj, arr, field, end, from_list, fields, get, put, to_list, delete,
}
use linkerd2_proxy_init.Cni.Inject.{
  cni_key_name, cni_key_plugins, cni_key_type, cni_key_version, inject_value, plugin_list, merge,
  replace_plugin, as_plugins, find_linkerd, remove_found, remove_at, no_cni_plugins,
  invalid_cni_plugin, is_linkerd, is_linkerd_type,
}
use linkerd2_proxy_init.Cni.Inject.Laws.{IsPluginList, with_plugins}
use linkerd2_proxy_init.Cni.Revert.{revert_value}
use linkerd2_proxy_init.Cni.Revert.Laws.{
  revert_value-inject_value, inject_value_again, inject_value-single_again,
}

abbrev plugin : Fields → Json
plugin rest = obj (field cni_key_type (str (codes "bridge")) rest)

abbrev bridge : Json
bridge = plugin (field cni_key_version (str (codes "0.2.0")) end)

abbrev portmap : Json
portmap = obj (field cni_key_type (str (codes "portmap")) end)

abbrev linkerd : Json
linkerd = obj (field cni_key_type (str (codes "linkerd-cni")) end)

abbrev linkerd_new : Json
linkerd_new = obj (field cni_key_name (str (codes "linkerd-cni")) (fields linkerd))

abbrev conflist : Json
conflist = obj (
    field cni_key_version (str (codes "0.3.1")) (
      field cni_key_name (str (codes "cbr0"))
        (field cni_key_plugins (arr (from_list (bridge ∷ linkerd ∷ portmap ∷ []))) end)))

revert_value-inject_value_example :
    (u : Json) × (revert_value (with_plugins conflist (bridge ∷ portmap ∷ linkerd ∷ []))
      ≡ ok (some u))
    × IsPluginList u (bridge ∷ portmap ∷ [])
    × ((key : Bytes)
        → same cni_key_plugins key ≡ false
        → get key (fields u) ≡ get key (fields conflist))
    × (u ≡ with_plugins conflist (bridge ∷ portmap ∷ []))
    × (revert_value u ≡ ok none)
unfolding is_linkerd get same fields as_plugins to_list from_list inject_value merge replace_plugin
    find_linkerd remove_found remove_at
revert_value-inject_value_example =
    revert_value-inject_value conflist linkerd
      (with_plugins conflist (bridge ∷ portmap ∷ linkerd ∷ [])) (bridge ∷ [])
      (linkerd ∷ portmap ∷ []) (portmap ∷ []) (refl, tt) (refl, tt) (refl, refl) refl (refl, refl)
      refl

inject_value_again_example :
    inject_value (with_plugins conflist (bridge ∷ portmap ∷ linkerd ∷ [])) linkerd_new
    ≡ inject_value conflist linkerd_new
unfolding is_linkerd get same fields as_plugins to_list from_list inject_value merge replace_plugin
    find_linkerd remove_found remove_at
inject_value_again_example =
    inject_value_again conflist linkerd linkerd_new
      (with_plugins conflist (bridge ∷ portmap ∷ linkerd ∷ [])) (bridge ∷ [])
      (linkerd ∷ portmap ∷ []) (portmap ∷ []) (refl, tt) (refl, tt) (refl, refl) refl (refl, refl)
      refl

inject_value-single_again_example :
    IsPluginList (plugin_list (plugin end) linkerd) (plugin end ∷ linkerd ∷ [])
    × (inject_value (plugin_list (plugin end) linkerd) linkerd_new
        ≡ inject_value bridge linkerd_new)
unfolding get fields same is_linkerd inject_value merge delete
inject_value-single_again_example =
    inject_value-single_again (fields bridge) linkerd linkerd_new (str (codes "bridge"))
      (plugin_list (plugin end) linkerd) refl refl refl refl

injection_errors :
    (inject_value (obj end) linkerd ≡ err no_cni_plugins)
    × (inject_value (with_plugins conflist (bridge ∷ str (codes "x") ∷ [])) linkerd
        ≡ err invalid_cni_plugin)
unfolding inject_value merge replace_plugin as_plugins find_linkerd to_list get put fields from_list
    is_linkerd is_linkerd_type same
injection_errors = (refl, refl)

abbrev one_entry : Log
one_entry = record { log = k8s_file (codes "kubeconfig") ∷ []; log_idx = codes "kubeconfig" ∷ [] }

append_entry-IsConsistent_example :
    IsConsistent (append_entry (cni_file (codes "10.conflist")) one_entry)
    × (any
          (same (codes "10.conflist"))
          (map filename (append_entry (cni_file (codes "10.conflist")) one_entry).log)
        ≡ true)
    × (((append_entry (cni_file (codes "10.conflist")) one_entry).log ≡ one_entry.log)
        ⊎ ((append_entry (cni_file (codes "10.conflist")) one_entry).log
            ≡ one_entry.log ++ cni_file (codes "10.conflist") ∷ []))
unfolding filename any is_indexed
append_entry-IsConsistent_example =
    append_entry-IsConsistent (cni_file (codes "10.conflist")) one_entry
      (record { indexed = λ name. refl; distinct = (refl, tt) })
