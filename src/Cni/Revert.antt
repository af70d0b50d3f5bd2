-- ===== src/Cni/Revert.antt =====
-- The part of `cniFile.revert` in internal/cni/remove.go that works on the decoded configuration.
pub mod Laws
use linkerd2_proxy_init.Base.{ℕ, Option, none, some, List, Result, ok, ◌>>=◌}
use linkerd2_proxy_init.Cni.Json.{Json, obj, arr, from_list, get, put, fields}
use linkerd2_proxy_init.Cni.Inject.{JsonError, cni_key_plugins, as_plugins, find_linkerd, remove_at}

-- The configuration to be written back, where linkerd's plugin has been found at an index.
unfoldable pub taken_out : Json → List Json → Option ℕ → Option Json
taken_out v plugins none = none
taken_out v plugins (some at) =
    some (obj (put cni_key_plugins (arr (from_list (remove_at at plugins))) (fields v)))

unfoldable pub revert_value : Json → Result JsonError (Option Json)
revert_value v = do
  plugins ← as_plugins (get cni_key_plugins (fields v))
  at ← find_linkerd plugins 0
  ok (taken_out v plugins at)
