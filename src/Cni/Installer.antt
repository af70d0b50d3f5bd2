-- ===== src/Cni/Installer.antt =====
-- The state of the installer of internal/cni/installer.go, and its steps: on the world and that
-- state, with an error of the operating system or of the installer's own.
pub mod Laws
pub mod Entries
use linkerd2_proxy_init.Base.{
  Bytes, codes, Bool, same, Option, none, some, List, [], ◌∷◌, Result, ok, err, if◌then◌else◌,
}
use linkerd2_proxy_init.Task.{Task, Done, done, return, fail}
use linkerd2_proxy_init.Cni.Inject.{JsonError}
use linkerd2_proxy_init.Cni.Log.{Entry, Log, append_entry, no_entries}
use linkerd2_proxy_init.Cni.Paths.{get_var, cni_network_config_file}

pub data Source : Type 0 where
  environment_source file_source : Bytes → Source

-- The hashes by the names of files; a missing one reads as the empty text.
unfoldable pub hash_of : Bytes → List (Bytes × Bytes) → Bytes
hash_of name [] = []
hash_of name ((k, hash) ∷ rest) = if same k name then hash else hash_of name rest

pub record Installer : Type 0 where
  pub file_hash_set : List (Bytes × Bytes)
  pub entries : Log
  pub service_account_token_filename : Bytes
  pub sources : List Source

abbrev pub token_filename : Bytes
token_filename = codes "/var/run/secrets/kubernetes.io/serviceaccount/token"

unfoldable pub new_installer : (Bytes → Bytes) → Installer
new_installer getenv = record {
  file_hash_set = [];
  entries = no_entries;
  service_account_token_filename = token_filename;
  sources =
      environment_source (codes "CNI_NETWORK_CONFIG")
      ∷ file_source (get_var getenv cni_network_config_file)
      ∷ [];
}

pub record Machine (W : Type 0) : Type 0 where
  pub world : W
  pub installer : Installer

pub data InstallError (E : Type 0) : Type 0 where
  os_error : E → InstallError E
  json_error : JsonError → InstallError E
  not_a_directory no_configuration_source empty_token empty_certificate : InstallError E
  empty_host empty_port : InstallError E

abbrev pub Act : Type 0 → Type 0 → Type 0 → Type 0
Act W E A = Task (Machine W) (InstallError E) A

abbrev pub answered :
    {W E A : Type 0} → Result E A → Machine W → Result (InstallError E) A × Machine W
answered (ok a) m = (ok a, m)
answered (err e) m = (err (os_error e), m)

abbrev pub outcome : {E : Type 0} → Option E → Result E Done
outcome none = ok done
outcome (some e) = err e

-- A call that reads the world.
abbrev pub asking : {W E A : Type 0} → (W → Result E A) → Act W E A
asking request = λ m. answered (request m.world) m

-- One that changes it and returns an error only, and one that returns a value too.
abbrev pub doing : {W E : Type 0} → (W → Option E × W) → Act W E Done
doing call = λ m. let (e, w) = call m.world in answered (outcome e) (record m { world = w })

abbrev pub opening : {W E A : Type 0} → (W → Result E A × W) → Act W E A
opening call = λ m. let (r, w) = call m.world in answered r (record m { world = w })

-- `_ = file.Close()` behind an error.
abbrev pub ignoring : {W E : Type 0} → (W → Option E × W) → Machine W → Machine W
ignoring call m = record m { world = (call m.world).1 }

abbrev pub cleaned_up : {X M A : Type 0} → (M → M) → Result X A × M → Result X A × M
cleaned_up cleanup (ok a, m) = (ok a, m)
cleaned_up cleanup (err e, m) = (err e, cleanup m)

abbrev pub or_cleanup : {W E A : Type 0} → Act W E A → (Machine W → Machine W) → Act W E A
or_cleanup act cleanup = λ m. cleaned_up cleanup (act m)

unfoldable pub add_entry : {W E : Type 0} → Entry → Act W E Done
add_entry e = λ m. (
  ok done,
  record m { installer = record m.installer { entries = append_entry e m.installer.entries } },
)

-- `if !test { return err }`
abbrev pub require : {W E : Type 0} → Bool → InstallError E → Act W E Done
require test e = if test then return done else fail e
