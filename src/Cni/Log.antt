-- ===== src/Cni/Log.antt =====
-- The log of internal/cni/installer.go, from which `Remove` undoes what has been installed.
pub mod Laws
use linkerd2_proxy_init.Base.{Bytes, Bool, same, any, List, [], ◌∷◌, ◌++◌, if◌then◌else◌}

-- The kinds of entries, each of a file.
pub data Entry : Type 0 where
  cni_file installed_file k8s_file : Bytes → Entry

unfoldable pub filename : Entry → Bytes
filename (cni_file name) = name
filename (installed_file name) = name
filename (k8s_file name) = name

-- The fields `log` and `logIdx` of the installer; the map is the list of its keys.
pub record Log : Type 0 where
  pub log : List Entry
  pub log_idx : List Bytes

abbrev pub no_entries : Log
no_entries = record { log = []; log_idx = [] }

unfoldable pub is_indexed : Bytes → Log → Bool
is_indexed name l = any (same name) l.log_idx

unfoldable pub append_entry : Entry → Log → Log
append_entry e l =
    if is_indexed (filename e) l
    then l
    else record { log = l.log ++ e ∷ []; log_idx = filename e ∷ l.log_idx }
