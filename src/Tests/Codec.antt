-- ===== src/Tests/Codec.antt =====
-- An injection with a printer of values that writes no white space and escapes nothing.
use linkerd2_proxy_init.Base.{
  Bytes, codes, same, Option, some, [], ◌∷◌, ◌++◌, ok, ◌≡◌, refl, if◌then◌else◌,
}
use linkerd2_proxy_init.Cni.Json.{
  Json, Items, Fields, null, bool, num, str, arr, obj, nil, cons, field, end, get, put, fields,
  to_list, from_list,
}
use linkerd2_proxy_init.Cni.Inject.{
  cni_key_type, cni_key_plugins, as_map, encoded, as_plugins, find_linkerd, remove_found, remove_at,
  is_linkerd, is_linkerd_type, replace_plugin, merge, inject_value, inject,
}
use linkerd2_proxy_init.Cni.Inject.Shape.{EndsWith, inject-EndsWith}

abbrev quoted : Bytes → Bytes
quoted s = codes "\"" ++ (s ++ codes "\"")

mutual
  print : Json → Bytes
  print null = codes "null"
  print (bool b) = if b then codes "true" else codes "false"
  print (num n) = n
  print (str s) = quoted s
  print (arr vs) = codes "[" ++ (print_items vs ++ codes "]")
  print (obj fs) = codes "{" ++ (print_fields fs ++ codes "}")

  print_items : Items → Bytes
  print_items nil = []
  print_items (cons v nil) = print v
  print_items (cons v (cons u vs)) = print v ++ (codes "," ++ print_items (cons u vs))

  print_fields : Fields → Bytes
  print_fields end = []
  print_fields (field k v end) = quoted k ++ (codes ":" ++ print v)
  print_fields (field k v (field k' v' fs)) =
      quoted k ++ (codes ":" ++ (print v ++ (codes "," ++ print_fields (field k' v' fs))))

abbrev plugin : Bytes → Json
plugin type = obj (field cni_key_type (str type) end)

-- An old plugin of linkerd's stands before another one.
abbrev before : Json
before = obj (
    field cni_key_plugins
      (arr (from_list (plugin (codes "linkerd-cni") ∷ plugin (codes "bridge") ∷ []))) end)

abbrev linkerd : Json
linkerd = obj (
    field (codes "log_level") (str (codes "info"))
      (field cni_key_type (str (codes "linkerd-cni")) end))

abbrev before_text : Bytes
before_text = codes "{\"plugins\":[{\"type\":\"linkerd-cni\"},{\"type\":\"bridge\"}]}"

abbrev linkerd_text : Bytes
linkerd_text = codes "{\"log_level\":\"info\",\"type\":\"linkerd-cni\"}"

abbrev after_text : Bytes
after_text =
    codes "{\"plugins\":[{\"type\":\"bridge\"},{\"log_level\":\"info\",\"type\":\"linkerd-cni\"}]}"

abbrev unmarshal : Bytes → Option Json
unmarshal text = if same text before_text then some before else some linkerd

abbrev marshal : Json → Option Bytes
marshal v = some (print v)

injects : inject unmarshal marshal before_text linkerd_text ≡ ok after_text
unfolding inject inject_value merge replace_plugin find_linkerd remove_found remove_at is_linkerd
    is_linkerd_type as_plugins as_map encoded get put fields same to_list from_list print
    print_items print_fields
injects = refl

inject-EndsWith_example :
    (l w : Json) × (as_map (unmarshal linkerd_text) ≡ ok l)
    × (marshal w ≡ some after_text)
    × EndsWith l w
inject-EndsWith_example =
    inject-EndsWith unmarshal marshal before_text linkerd_text after_text injects
