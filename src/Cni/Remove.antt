-- ===== src/Cni/Remove.antt =====
-- internal/cni/remove.go: undoing what the log says has been done.
pub mod Laws
use linkerd2_proxy_init.Base.{
  Bytes, Bool, Option, none, some, List, [], ◌∷◌, Result, ok, err, if◌then◌else◌,
}
use linkerd2_proxy_init.Cni.Json.{Json}
use linkerd2_proxy_init.Cni.Os.{Os, FileInfo}
use linkerd2_proxy_init.Cni.Log.{Entry, cni_file, installed_file, k8s_file}
use linkerd2_proxy_init.Cni.Inject.{JsonError, as_map, encoded}
use linkerd2_proxy_init.Cni.Revert.{revert_value}
use linkerd2_proxy_init.Cni.Installer.{InstallError, os_error, json_error}

-- An error, or none, and the world then.
abbrev pub Reverted : Type 0 → Type 0 → Type 0
Reverted W E = Option (InstallError E) × W

abbrev pub as_error : {W E : Type 0} → Option E × W → Reverted W E
as_error (none, w) = (none, w)
as_error (some e, w) = (some (os_error e), w)

module _ {W E : Type 0} (os : Os W E) where
  unless_missing : E → W → Reverted W E
  unless_missing e w = (if os.is_not_exist e then none else some (os_error e), w)

  write_back : Bytes → Bytes → Result E FileInfo → W → Reverted W E
  unfolding unless_missing
  write_back name text (err e) w = unless_missing e w
  write_back name text (ok info) w = as_error (os.write_file name text info.mode w)

  write_encoded : Bytes → Result JsonError Bytes → W → Reverted W E
  unfolding write_back
  write_encoded name (err e) w = (some (json_error e), w)
  write_encoded name (ok text) w = write_back name text (os.stat name w) w

  remove_found : Bytes → Result E FileInfo → W → Reverted W E
  remove_found name (err e) w = (none, w)
  remove_found name (ok info) w = as_error (os.remove name w)

  module _ (unmarshal : Bytes → Option Json) (marshal_indent : Json → Option Bytes) where
    revert_to : Bytes → Result JsonError (Option Json) → W → Reverted W E
    unfolding write_encoded
    revert_to name (err e) w = (some (json_error e), w)
    revert_to name (ok none) w = (none, w)
    revert_to name (ok (some v)) w = write_encoded name (encoded (marshal_indent v)) w

    decoded : Bytes → Result JsonError Json → W → Reverted W E
    unfolding revert_to
    decoded name (err e) w = (some (json_error e), w)
    decoded name (ok v) w = revert_to name (revert_value v) w

    revert_read : Bytes → Result E Bytes → W → Reverted W E
    unfolding unless_missing decoded
    revert_read name (err e) w = unless_missing e w
    revert_read name (ok text) w = decoded name (as_map (unmarshal text)) w

    unfoldable pub revert : Entry → W → Reverted W E
    unfolding revert_read remove_found
    revert (cni_file name) w = revert_read name (os.read_file name w) w
    revert (installed_file name) w = remove_found name (os.stat name w) w
    revert (k8s_file name) w = remove_found name (os.stat name w) w

    abbrev collected : Option (InstallError E) → List (InstallError E) → List (InstallError E)
    collected none errs = errs
    collected (some e) errs = e ∷ errs

    -- The errors in order, and the world when all entries have been gone through.
    unfoldable pub remove_all : List Entry → W → List (InstallError E) × W
    remove_all [] w = ([], w)
    remove_all (entry ∷ entries) w =
        let (e, w₁) = revert entry w in
        let (errs, w₂) = remove_all entries w₁ in (collected e errs, w₂)
