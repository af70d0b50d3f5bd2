-- ===== src/Cni/Run/Laws.antt =====
-- What a run of the installer does with the log.
use linkerd2_proxy_init.Base.{Bytes, codes, Bool, Option, List, [], ok, All, ◌≡◌, ap}
use mathlib.Core.Path.{subst}
use linkerd2_proxy_init.Base.{err, Result}
use linkerd2_proxy_init.Task.{then_task, ◌>>=◌, done, return}
use linkerd2_proxy_init.Go.Strings.{has_suffix}
use linkerd2_proxy_init.Cni.Json.{Json}
use linkerd2_proxy_init.Cni.Os.{Os}
use linkerd2_proxy_init.Cni.Installer.{Machine, InstallError, doing}
use linkerd2_proxy_init.Cni.Installer.Entries.{
  Grows, Grows-refl, Grows-trans, KeepsLog, >>=-KeepsLog, if-KeepsLog,
}
use linkerd2_proxy_init.Cni.Install.{install_regular_files}
use linkerd2_proxy_init.Cni.Configure.{reconfigure_cni}
use linkerd2_proxy_init.Cni.Kubeconfig.{reconfigure_k8s}
use linkerd2_proxy_init.Cni.Watch.{Event, Watch, register_watches}
use linkerd2_proxy_init.Cni.Watch.Laws.{Reach-machine}
use linkerd2_proxy_init.Cni.Run.{
  is_cni_file, on_token, on_config, watches, start, Runs, not_started, ran,
}
use linkerd2_proxy_init.Cni.Run.Steps.{
  doing-KeepsLog, return-KeepsLog, install_regular_files-KeepsLog, reconfigure_k8s-KeepsLog,
  reconfigure_cni-KeepsLog,
}
use linkerd2_proxy_init.Task.{then_task_success}
use linkerd2_proxy_init.Cni.Paths.{kube_config_filename}
use linkerd2_proxy_init.Cni.Run.Watches.{
  WatchKeeps, IndexKeeps, handle_event-KeepsLog, register_watches-KeepsLog,
  register_watches-IndexKeeps,
}
use linkerd2_proxy_init.Cni.Log.{Log}
use linkerd2_proxy_init.Cni.Paths.{host_cni_bin, get_var, container_cni_bin_dir}

module _ {W E Op : Type 0} (os : Os W E) (create rename write : Op)
    (unmarshal : Bytes → Option Json) (marshal_indent : Json → Option Bytes)
    (hash_encode : Bytes → Bytes) where
  on_token-KeepsLog :
      (token : Bytes) (event : Event Op)
      → KeepsLog (on_token os create rename write unmarshal marshal_indent hash_encode token event)
  unfolding on_token
  on_token-KeepsLog token event =
      if-KeepsLog (has_suffix event.name (codes "..data"))
        (reconfigure_k8s os (kube_config_filename os.getenv) token) (return done)
        (reconfigure_k8s-KeepsLog os (kube_config_filename os.getenv) token)
        (return-KeepsLog os done)

  on_config-KeepsLog :
      (event : Event Op)
      → KeepsLog (on_config os create rename write unmarshal marshal_indent hash_encode event)
  unfolding on_config
  on_config-KeepsLog event =
      if-KeepsLog (is_cni_file event.name)
        (reconfigure_cni os unmarshal marshal_indent hash_encode event.name) (return done)
        (reconfigure_cni-KeepsLog os unmarshal marshal_indent hash_encode event.name)
        (return-KeepsLog os done)

  watches-WatchKeeps :
      (has : Op → Op → Bool) (token : Bytes)
      → All
          (WatchKeeps os has)
          (watches os create rename write unmarshal marshal_indent hash_encode token)
  unfolding watches
  watches-WatchKeeps has token = (on_token-KeepsLog token, (on_config-KeepsLog, tt))

  module _ (has : Op → Op → Bool) (new_watcher : W → Option E × W)
      (add : Bytes → W → Option E × W) where
    start-IndexKeeps :
        (index : List (Bytes × Watch Op W E)) (m m' : Machine W)
        → start os create rename write unmarshal marshal_indent hash_encode has new_watcher add m
          ≡ (ok index, m')
        → IndexKeeps os has index
    unfolding start
    start-IndexKeeps index m m' e =
        let (installed, m₁, _, e₁) = then_task_success (install_regular_files os _ _ m) _ e in
        let (created, m₂, _, e₂) = then_task_success (doing new_watcher m₁) _ e₁ in
        register_watches-IndexKeeps os has add _ [] index m₂ m' (watches-WatchKeeps has _) tt e₂

    -- The rest of `start`, behind the binaries.
    watching-KeepsLog :
        (x : Result (InstallError E) (List Bytes) × Machine W)
        → Grows x.1.installer.entries
            (then_task x (λ installed. doing new_watcher >>= λ created m.
              register_watches os add
                (watches os create rename write unmarshal marshal_indent hash_encode
                  m.installer.service_account_token_filename)
                []
                m)).1.installer.entries
    watching-KeepsLog (err e, m) = Grows-refl m.installer.entries
    watching-KeepsLog (ok installed, m) =
        (>>=-KeepsLog _ _ (doing-KeepsLog os new_watcher) λ created. record {
          kept = λ n.
              (register_watches-KeepsLog os has add
                  (watches os create rename write unmarshal marshal_indent hash_encode
                    n.installer.service_account_token_filename)
                  []).kept
                n;
        }).kept
          m

    pub start-Grows :
        (m : Machine W)
        → Grows
            (install_regular_files os
              (host_cni_bin os.getenv)
              (get_var os.getenv container_cni_bin_dir)
              m).1.installer.entries
            (start os create rename write unmarshal marshal_indent hash_encode has new_watcher add
              m).1.installer.entries
    unfolding start
    start-Grows m = watching-KeepsLog (
        install_regular_files os (host_cni_bin os.getenv) (get_var os.getenv container_cni_bin_dir)
          m)

    -- What the log has when the loop begins, or before, it has when `Run` returns.
    pub Runs-Grows :
        (l : Log) (m m' : Machine W) (result : Option (InstallError E))
        → Grows l
            (start os create rename write unmarshal marshal_indent hash_encode has new_watcher add
              m).1.installer.entries
        → Runs os create rename write unmarshal marshal_indent hash_encode has new_watcher add m
            result m'
        → Grows l m'.installer.entries
    Runs-Grows l m m' result g (not_started x m'' e) =
        subst (λ n. Grows l n.installer.entries) (ap (λ r. r.1) e) g
    Runs-Grows l m m' result g (ran index m₁ s r e reached k) =
        Grows-trans (subst (λ n. Grows l n.installer.entries) (ap (λ r. r.1) e) g) (
          Reach-machine _ _ (λ n. Grows m₁.installer.entries n.installer.entries)
            (λ event n h.
              Grows-trans h
                ((handle_event-KeepsLog os has index event (start-IndexKeeps index m m₁ e)).kept n))
            reached (Grows-refl m₁.installer.entries))

    -- However a run ends, and whatever events and errors come while it goes on, the log is what it
    -- was before, with entries added behind it, and consistent if it was: its index holds the names
    -- of its entries, no two of which have one name.
    pub run-Grows :
        (m m' : Machine W) (result : Option (InstallError E))
        → Runs os create rename write unmarshal marshal_indent hash_encode has new_watcher add m
            result m'
        → Grows m.installer.entries m'.installer.entries
    run-Grows m m' result r =
        Runs-Grows m.installer.entries m m' result
          (Grows-trans ((install_regular_files-KeepsLog os _ _).kept m) (start-Grows m)) r
