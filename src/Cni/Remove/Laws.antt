-- ===== src/Cni/Remove/Laws.antt =====
-- `Remove` and the files of the log.
use linkerd2_proxy_init.Base.{
  Bytes, ℕ, true, false, Option, none, some, List, [], ◌∷◌, Result, ok, err, ◌≡◌, refl, arith, All,
  ap,
}
use linkerd2_proxy_init.Cni.Json.{Json}
use linkerd2_proxy_init.Cni.Os.{Os, FileInfo, is_found}
use linkerd2_proxy_init.Cni.Log.{Entry, cni_file, installed_file, k8s_file}
use linkerd2_proxy_init.Cni.Inject.{JsonError, as_map, encoded}
use linkerd2_proxy_init.Cni.Revert.{revert_value}
use linkerd2_proxy_init.Cni.Installer.{InstallError}
use linkerd2_proxy_init.Cni.Remove.{
  as_error, write_back, write_encoded, remove_found, revert_to, decoded, revert_read, revert,
  collected, remove_all,
}

-- What removing and rewriting files does to a file system: a file that is removed is gone, and
-- neither makes a file appear.
pub record Shrinks {W E : Type 0} (os : Os W E) : Type 0 where
  pub removed :
      (f : Bytes) (w w' : W) → os.remove f w ≡ (none, w') → is_found (os.stat f w') ≡ false
  pub remove_shrinks :
      (f g : Bytes) (w : W)
      → is_found (os.stat g w) ≡ false
      → is_found (os.stat g (os.remove f w).1) ≡ false
  pub write_shrinks :
      (f g text : Bytes) (mode : ℕ) (w : W)
      → is_found (os.stat f w) ≡ true
      → is_found (os.stat g w) ≡ false
      → is_found (os.stat g (os.write_file f text mode w).1) ≡ false

module _ {W E : Type 0} (os : Os W E) (shrinks : Shrinks os) where
  abbrev IsMissing : Bytes → W → Type 0
  IsMissing g w = is_found (os.stat g w) ≡ false

  as_error_world : (x : Option E × W) → (as_error x).1 ≡ x.1
  as_error_world (none, w) = refl
  as_error_world (some e, w) = refl

  write_back-IsMissing :
      (f g text : Bytes) (r : Result E FileInfo) (w : W)
      → os.stat f w ≡ r
      → IsMissing g w
      → IsMissing g (write_back os f text r w).1
  unfolding write_back
  write_back-IsMissing f g text (err e) w is h = h
  write_back-IsMissing f g text (ok info) w is h =
      rw (as_error_world (os.write_file f text info.mode w))
        (shrinks.write_shrinks f g text info.mode w (ap is_found is) h)

  write_encoded-IsMissing :
      (f g : Bytes) (r : Result JsonError Bytes) (w : W)
      → IsMissing g w
      → IsMissing g (write_encoded os f r w).1
  unfolding write_encoded
  write_encoded-IsMissing f g (err e) w h = h
  write_encoded-IsMissing f g (ok text) w h = write_back-IsMissing f g text (os.stat f w) w refl h

  remove_found-IsMissing :
      (f g : Bytes) (r : Result E FileInfo) (w : W)
      → IsMissing g w
      → IsMissing g (remove_found os f r w).1
  unfolding remove_found
  remove_found-IsMissing f g (err e) w h = h
  remove_found-IsMissing f g (ok info) w h =
      rw (as_error_world (os.remove f w)) (shrinks.remove_shrinks f g w h)

  -- An entry's file that was there is gone, unless there is an error.
  remove_found_gone :
      (f : Bytes) (r : Result E FileInfo) (w : W)
      → os.stat f w ≡ r
      → (remove_found os f r w).0 ≡ none
      → IsMissing f (remove_found os f r w).1
  unfolding remove_found
  remove_found_gone f (err e) w is h = ap is_found is
  remove_found_gone f (ok info) w is h = succeeded (os.remove f w) refl h
    where
      succeeded :
          (x : Option E × W)
          → os.remove f w ≡ x
          → (as_error x).0 ≡ none
          → IsMissing f (as_error x).1
      succeeded (none, w') is _ = shrinks.removed f w w' is
      succeeded (some e, w') is h = absurd (ground arith)

  module _ (unmarshal : Bytes → Option Json) (marshal_indent : Json → Option Bytes) where
    revert_to-IsMissing :
        (f g : Bytes) (r : Result JsonError (Option Json)) (w : W)
        → IsMissing g w
        → IsMissing g (revert_to os unmarshal marshal_indent f r w).1
    unfolding revert_to
    revert_to-IsMissing f g (err e) w h = h
    revert_to-IsMissing f g (ok none) w h = h
    revert_to-IsMissing f g (ok (some v)) w h =
        write_encoded-IsMissing f g (encoded (marshal_indent v)) w h

    decoded-IsMissing :
        (f g : Bytes) (r : Result JsonError Json) (w : W)
        → IsMissing g w
        → IsMissing g (decoded os unmarshal marshal_indent f r w).1
    unfolding decoded
    decoded-IsMissing f g (err e) w h = h
    decoded-IsMissing f g (ok v) w h = revert_to-IsMissing f g (revert_value v) w h

    revert_read-IsMissing :
        (f g : Bytes) (r : Result E Bytes) (w : W)
        → IsMissing g w
        → IsMissing g (revert_read os unmarshal marshal_indent f r w).1
    unfolding revert_read
    revert_read-IsMissing f g (err e) w h = h
    revert_read-IsMissing f g (ok text) w h = decoded-IsMissing f g (as_map (unmarshal text)) w h

    revert-IsMissing :
        (entry : Entry) (g : Bytes) (w : W)
        → IsMissing g w
        → IsMissing g (revert os unmarshal marshal_indent entry w).1
    unfolding revert
    revert-IsMissing (cni_file f) g w h = revert_read-IsMissing f g (os.read_file f w) w h
    revert-IsMissing (installed_file f) g w h = remove_found-IsMissing f g (os.stat f w) w h
    revert-IsMissing (k8s_file f) g w h = remove_found-IsMissing f g (os.stat f w) w h

    remove_all-IsMissing :
        (entries : List Entry) (g : Bytes) (w : W)
        → IsMissing g w
        → IsMissing g (remove_all os unmarshal marshal_indent entries w).1
    unfolding remove_all
    remove_all-IsMissing [] g w h = h
    remove_all-IsMissing (entry ∷ entries) g w h =
        remove_all-IsMissing entries g (revert os unmarshal marshal_indent entry w).1
          (revert-IsMissing entry g w h)

    -- The entry's file was the installer's own, and is not there.
    abbrev pub IsGone : W → Entry → Type 0
    IsGone w (cni_file f) = Unit
    IsGone w (installed_file f) = IsMissing f w
    IsGone w (k8s_file f) = IsMissing f w

    revert-IsGone :
        (entry : Entry) (w : W)
        → (revert os unmarshal marshal_indent entry w).0 ≡ none
        → IsGone (revert os unmarshal marshal_indent entry w).1 entry
    unfolding revert
    revert-IsGone (cni_file f) w h = tt
    revert-IsGone (installed_file f) w h = remove_found_gone f (os.stat f w) w refl h
    revert-IsGone (k8s_file f) w h = remove_found_gone f (os.stat f w) w refl h

    IsGone-remove_all :
        (entry : Entry) (entries : List Entry) (w : W)
        → IsGone w entry
        → IsGone (remove_all os unmarshal marshal_indent entries w).1 entry
    IsGone-remove_all (cni_file f) entries w h = tt
    IsGone-remove_all (installed_file f) entries w h = remove_all-IsMissing entries f w h
    IsGone-remove_all (k8s_file f) entries w h = remove_all-IsMissing entries f w h

    no_errors :
        (e : Option (InstallError E)) (errs : List (InstallError E))
        → collected os unmarshal marshal_indent e errs ≡ []
        → (e ≡ none) × (errs ≡ [])
    no_errors none errs h = (refl, h)
    no_errors (some e) errs h = absurd (ground arith)

    -- If a file that is removed is gone, and neither that nor a rewrite makes a file appear, then,
    -- where Remove returns no error, every binary and every kubeconfig file of the log is gone.
    pub remove_all-IsGone :
        (entries : List Entry) (w : W)
        → (remove_all os unmarshal marshal_indent entries w).0 ≡ []
        → All (IsGone (remove_all os unmarshal marshal_indent entries w).1) entries
    unfolding remove_all
    remove_all-IsGone [] w h = tt
    remove_all-IsGone (entry ∷ entries) w h =
        let (now, later) = no_errors _ _ h in
        (
          IsGone-remove_all entry entries _ (revert-IsGone entry w now),
          remove_all-IsGone entries (revert os unmarshal marshal_indent entry w).1 later,
        )
