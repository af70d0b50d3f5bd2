-- ===== src/Cni/Inject.antt =====
-- `inject` of internal/cni/conf.go: the configuration of the linkerd plugin is put into an existing
-- CNI configuration. Reading and writing JSON is the library's: `unmarshal` is `json.Unmarshal` into
-- an `any`, `marshal_indent` is `json.MarshalIndent` with two spaces; `none` is their error.
pub mod Laws
pub mod Shape
use linkerd2_proxy_init.Base.{
  ℕ, zero, suc, ◌+◌, Bytes, codes, Bool, true, false, same, Option, none, some, List, [], ◌∷◌, ◌++◌,
  Result, ok, err, ◌>>=◌, if◌then◌else◌,
}
use linkerd2_proxy_init.Cni.Json.{
  Json, Fields, null, str, arr, obj, field, end, to_list, from_list, get, put, delete, fields,
}

abbrev pub cni_key_name : Bytes
cni_key_name = codes "name"

abbrev pub cni_key_plugins : Bytes
cni_key_plugins = codes "plugins"

abbrev pub cni_key_type : Bytes
cni_key_type = codes "type"

abbrev pub cni_key_version : Bytes
cni_key_version = codes "cniVersion"

abbrev pub cni_val_type_linkerd : Bytes
cni_val_type_linkerd = codes "linkerd-cni"

pub data JsonError : Type 0 where
  not_decoded not_encoded invalid_cni_plugin no_cni_plugins : JsonError

-- `json.Unmarshal(data, &val)` for a `val` of type `map[string]any`; JSON's null makes a nil map.
unfoldable pub as_map : Option Json → Result JsonError Json
as_map (some (obj fs)) = ok (obj fs)
as_map (some null) = ok null
as_map _ = err not_decoded

unfoldable pub encoded : Option Bytes → Result JsonError Bytes
encoded none = err not_encoded
encoded (some text) = ok text

-- `plugin[cniKeyType]` is there, and is the text "linkerd-cni".
unfoldable pub is_linkerd_type : Option Json → Bool
is_linkerd_type (some (str t)) = same t cni_val_type_linkerd
is_linkerd_type _ = false

unfoldable pub is_linkerd : Fields → Bool
unfolding is_linkerd_type
is_linkerd plugin = is_linkerd_type (get cni_key_type plugin)

-- The loop that looks for the plugin's index. It stops at the first one found, and fails at an entry
-- before it that is no object.
unfoldable pub find_linkerd : List Json → ℕ → Result JsonError (Option ℕ)
find_linkerd [] i = ok none
find_linkerd (obj plugin ∷ plugins) i =
    let further = find_linkerd plugins (i + 1) in if is_linkerd plugin then ok (some i) else further
find_linkerd (_ ∷ plugins) i = err invalid_cni_plugin

-- `append(plugins[:at], plugins[at+1:]...)`
unfoldable pub remove_at : ℕ → List Json → List Json
remove_at i [] = []
remove_at zero (p ∷ plugins) = plugins
remove_at (suc i) (p ∷ plugins) = p ∷ remove_at i plugins

unfoldable pub remove_found : List Json → Option ℕ → List Json
remove_found plugins none = plugins
remove_found plugins (some at) = remove_at at plugins

-- `val[cniKeyPlugins].([]any)`
unfoldable pub as_plugins : Option Json → Result JsonError (List Json)
as_plugins (some (arr items)) = ok (to_list items)
as_plugins _ = err no_cni_plugins

unfoldable pub plugin_list : Json → Json → Json
plugin_list existing linkerd = obj (
    field cni_key_name (str (codes "k8s-pod-network")) (
      field cni_key_version (str (codes "0.3.1"))
        (field cni_key_plugins (arr (from_list (existing ∷ linkerd ∷ []))) end)))

unfoldable pub replace_plugin : Fields → Json → Result JsonError Json
replace_plugin existing linkerd = do
  plugins ← as_plugins (get cni_key_plugins existing)
  at ← find_linkerd plugins 0
  let plugins' = remove_found plugins at ++ linkerd ∷ []
  ok (obj (put cni_key_plugins (arr (from_list plugins')) existing))

-- A `type` at the root says that the configuration is that of a single plugin.
unfoldable pub merge : Option Json → Fields → Json → Result JsonError Json
merge (some type_at_root) existing linkerd =
    ok (plugin_list (obj (delete cni_key_version existing)) linkerd)
merge none existing linkerd = replace_plugin existing linkerd

-- What `inject` does to the decoded values.
unfoldable pub inject_value : Json → Json → Result JsonError Json
inject_value existing linkerd = merge (get cni_key_type (fields existing)) (fields existing) linkerd

module _ (unmarshal : Bytes → Option Json) (marshal_indent : Json → Option Bytes) where
  unfoldable pub inject : Bytes → Bytes → Result JsonError Bytes
  inject existing linkerd = do
    existing_val ← as_map (unmarshal existing)
    linkerd_val ← as_map (unmarshal linkerd)
    result_val ← inject_value existing_val linkerd_val
    encoded (marshal_indent result_val)
