-- ===== src/Cni/Run.antt =====
-- `Run` of internal/cni/run.go, and what cni-install/main.go does behind it. `create`, `rename`
-- and `write` are the operations of package `fsnotify`, `has` is their `Has`, `new_watcher` is
-- `fsnotify.NewWatcher` and `add` its watcher's `Add`.
pub mod Steps
pub mod Watches
pub mod Laws
pub mod Removal
use linkerd2_proxy_init.Base.{
  Bytes, codes, Bool, true, false, same, ◌≡◌, Option, none, some, List, [], ◌∷◌, ◌||◌, Result, ok,
  err, map, if◌then◌else◌,
}
use linkerd2_proxy_init.Task.{Done, done, Task, then_task, ◌>>=◌, return}
use linkerd2_proxy_init.Go.Pathname.{join_path, dir, ext}
use linkerd2_proxy_init.Go.Strings.{has_suffix}
use linkerd2_proxy_init.Cni.Json.{Json}
use linkerd2_proxy_init.Cni.Os.{Os, DirEntry}
use linkerd2_proxy_init.Cni.Paths.{
  get_var, container_cni_bin_dir, host_cni_bin, host_cni_config, kube_config_filename,
}
use linkerd2_proxy_init.Cni.Installer.{
  Machine, InstallError, os_error, Act, answered, doing, token_filename,
}
use linkerd2_proxy_init.Cni.Install.{install_regular_files}
use linkerd2_proxy_init.Cni.Configure.{reconfigure_cni}
use linkerd2_proxy_init.Cni.Kubeconfig.{reconfigure_k8s}
use linkerd2_proxy_init.Cni.Remove.{remove_all}
use linkerd2_proxy_init.Cni.Watch.{
  Event, Watch, register_watches, handle_event, Main, announcing, waiting, returned, System, Reach,
}

unfoldable pub is_cni_file : Bytes → Bool
is_cni_file filename =
    same (ext filename) (codes ".conflist") || same (ext filename) (codes ".conf")

module _ {W E Op : Type 0} (os : Os W E) (create rename write : Op) where
  abbrev pub watch_operations : List Op
  watch_operations = create ∷ rename ∷ write ∷ []

  -- The event for the token, `token` being its file's name.
  abbrev pub token_event : Bytes → Event Op
  token_event token = record { name = join_path (dir token ∷ codes "..data" ∷ []); op = create }

  abbrev pub entry_event : DirEntry → Event Op
  entry_event entry = record {
    name = join_path (host_cni_config os.getenv ∷ entry.name ∷ []);
    op = write;
  }

  abbrev pub entry_events : Result E (List DirEntry) → Result (InstallError E) (List (Event Op))
  entry_events (ok entries) = ok (map entry_event entries)
  entry_events (err e) = err (os_error e)

  unfoldable pub initial_events : Machine W → Result (InstallError E) (List (Event Op))
  initial_events m = entry_events (os.read_dir (host_cni_config os.getenv) m.world)

  module _ (unmarshal : Bytes → Option Json) (marshal_indent : Json → Option Bytes)
      (hash_encode : Bytes → Bytes) where
    unfoldable pub on_token : Bytes → Event Op → Act W E Done
    on_token token event =
        if has_suffix event.name (codes "..data")
        then reconfigure_k8s os (kube_config_filename os.getenv) token
        else return done

    unfoldable pub on_config : Event Op → Act W E Done
    on_config event =
        if is_cni_file event.name
        then reconfigure_cni os unmarshal marshal_indent hash_encode event.name
        else return done

    unfoldable pub watches : Bytes → List (Watch Op W E)
    watches token =
        record { path = dir token; operations = watch_operations; event_fn = on_token token }
        ∷ record {
          path = host_cni_config os.getenv;
          operations = watch_operations;
          event_fn = on_config;
        }
        ∷ []

    module _ (has : Op → Op → Bool) (new_watcher : W → Option E × W)
        (add : Bytes → W → Option E × W) where
      -- Up to the point where the goroutine of `watchFS` begins: the index it works with.
      unfoldable pub start : Act W E (List (Bytes × Watch Op W E))
      start = do
        installed ←
            install_regular_files os (host_cni_bin os.getenv)
              (get_var os.getenv container_cni_bin_dir)
        created ← doing new_watcher
        λ m. register_watches os add (watches m.installer.service_account_token_filename) [] m

      abbrev pub begun : Machine W → System Op (InstallError E) (Machine W)
      begun m = record {
        machine = m;
        main = announcing (token_event m.installer.service_account_token_filename);
        pc = waiting;
        errs = none;
        cancelled = false;
      }

      -- What `Run` may return, and the machine then.
      pub data Runs (m : Machine W) : Option (InstallError E) → Machine W → Type 0 where
        not_started :
            (x : InstallError E) (m' : Machine W) → start m ≡ (err x, m') → Runs m (some x) m'
        ran :
            (index : List (Bytes × Watch Op W E)) (m₁ : Machine W)
            (s : System Op (InstallError E) (Machine W)) (result : Option (InstallError E))
            → start m ≡ (ok index, m₁)
            → Reach (handle_event has index) initial_events (begun m₁) s
            → s.main ≡ returned result
            → Runs m result s.machine

      abbrev pub removed : List (InstallError E) × W → Bool × W
      removed ([], w) = (true, w)
      removed (e ∷ errors, w) = (false, w)

      -- What `main` does behind `Run`: an error that is not of a cancelled context ends the process,
      -- else all is removed. Whether the process exits with 0, and the world then.
      unfoldable pub exit_main :
          (InstallError E → Bool) → Option (InstallError E) → Machine W → Bool × W
      exit_main is_canceled none m =
          removed (remove_all os unmarshal marshal_indent m.installer.entries.log m.world)
      exit_main is_canceled (some e) m =
          if is_canceled e
          then removed (remove_all os unmarshal marshal_indent m.installer.entries.log m.world)
          else (false, m.world)
