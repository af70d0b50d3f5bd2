-- ===== src/Cni/Main.antt =====
-- `main` of cni-install/main.go. `is_level` says which texts logrus.ParseLevel reads, and
-- `is_canceled` which errors are context.Canceled; `sum256` is crypto/sha256.
use linkerd2_proxy_init.Base.{Bytes, Bool, true, false, Option, List, ok, ◌≡◌, refl, All}
use linkerd2_proxy_init.Go.Hex.{encode_to_string}
use linkerd2_proxy_init.Cni.Json.{Json}
use linkerd2_proxy_init.Cni.Os.{Os, is_found}
use linkerd2_proxy_init.Cni.Paths.{host_cni_bin, get_var, container_cni_bin_dir}
use linkerd2_proxy_init.Cni.Installer.{Machine, InstallError, new_installer}
use linkerd2_proxy_init.Cni.Install.{install_regular_files}
use linkerd2_proxy_init.Cni.Remove.Laws.{Shrinks}
use linkerd2_proxy_init.Cni.Run.{Runs, exit_main}
use linkerd2_proxy_init.Cni.Run.Removal.{run_removed}

unfoldable pub hash_encode : (Bytes → Bytes) → Bytes → Bytes
hash_encode sum256 text = encode_to_string (sum256 text)

module _ {W E Op : Type 0} (os : Os W E) (create rename write : Op)
    (unmarshal : Bytes → Option Json) (marshal_indent : Json → Option Bytes)
    (sum256 : Bytes → Bytes) (has : Op → Op → Bool) (new_watcher : W → Option E × W)
    (add : Bytes → W → Option E × W) (is_level : Bytes → Bool)
    (is_canceled : InstallError E → Bool) where
  abbrev pub fresh : W → Machine W
  fresh w = record { world = w; installer = new_installer os.getenv }

  -- Whether the process exits with 0, and the world then, for a level of logging and the world at
  -- the beginning.
  pub data Exits (log_level : Bytes) (w : W) : Bool → W → Type 0 where
    bad_level : is_level log_level ≡ false → Exits log_level w false w
    ended :
        (result : Option (InstallError E)) (m : Machine W) (success : Bool) (w' : W)
        → is_level log_level ≡ true
        → Runs os create rename write unmarshal marshal_indent
            (hash_encode sum256)
            has
            new_watcher
            add
            (fresh w)
            result
            m
        → exit_main os create rename write unmarshal marshal_indent
            (hash_encode sum256)
            has
            new_watcher
            add
            is_canceled
            result
            m
          ≡ (success, w')
        → Exits log_level w success w'

  -- If a file that is removed is gone, and neither that nor a rewrite makes a file appear: when
  -- cni-install exits with 0, however its run has gone, and the run's first step is to copy the
  -- binaries to these paths, then its log level is known and none of the paths is there.
  pub main_removed :
      (shrinks : Shrinks os) (log_level : Bytes) (w w' : W) (paths : List Bytes) (m₁ : Machine W)
      → Exits log_level w true w'
      → install_regular_files os
          (host_cni_bin os.getenv)
          (get_var os.getenv container_cni_bin_dir)
          (fresh w)
        ≡ (ok paths, m₁)
      → (is_level log_level ≡ true) × All (λ path. is_found (os.stat path w') ≡ false) paths
  unfolding new_installer
  main_removed shrinks log_level w w' paths m₁ (ended result m success w'' known runs exits)
        installed =
      (
        known,
        run_removed os shrinks unmarshal marshal_indent create rename write (hash_encode sum256) has
            new_watcher add is_canceled (fresh w) m₁ m w' paths result refl installed runs exits,
      )
