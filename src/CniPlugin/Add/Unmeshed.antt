-- ===== src/CniPlugin/Add/Unmeshed.antt =====
-- What `cmdAdd` does for pods whose rules it has not to set up.
use linkerd2_proxy_init.Base.{
  Bytes, Bool, false, Option, ok, ◌≡◌, refl, ap, ◌∙◌, sym, Bool-cases, inl, inr,
}
use linkerd2_proxy_init.Iptables.Commands.{Cmd}
use linkerd2_proxy_init.Iptables.Run.{Output}
use linkerd2_proxy_init.Task.{Done, done, then_task, ◌>>=◌, then_task-agree}
use linkerd2_proxy_init.CniPlugin.Config.{
  PluginConf, ProxyInit, PluginTask, print_failed, parse_config,
}
use linkerd2_proxy_init.CniPlugin.Cluster.{Client, Pod}
use linkerd2_proxy_init.CniPlugin.Add.{
  checked, CmdArgs, k8s_args, loaded, result_to_print, configure_pod, set_up, cmd_add,
}
use linkerd2_proxy_init.CniPlugin.Add.Laws.{
  IsMeshed, is_meshed, is_meshed-iff-IsMeshed, is_named, tag_answer_success,
}

unmeshed_guard : (pod : Pod) → ¬ IsMeshed pod → is_meshed pod ≡ false
unmeshed_guard pod h = elim (Bool-cases (is_meshed pod)) [
  | inl meshed ↦ absurd (h ((is_meshed-iff-IsMeshed pod).0 meshed))
  | inr other ↦ other
]

module _ {W E : Type 0} (run : Cmd → W → Output E × W) (has is_cidr : Bytes → Bool)
    (client : Client W E) where
  configure_pod_unmeshed :
      (net_ns : Bytes) (conf : ProxyInit) (pod : Pod) (w : W)
      → ¬ IsMeshed pod
      → configure_pod run has is_cidr client net_ns conf pod w ≡ (ok done, w)
  unfolding configure_pod
  configure_pod_unmeshed net_ns conf pod w h = simp (unmeshed_guard pod h) refl

module _ {W E : Type 0} (run run' : Cmd → W → Output E × W) (has is_cidr : Bytes → Bool)
    (client : Client W E)
    (unmeshed : (namespace name : Bytes) (pod : Pod) (w w' : W)
      → client.get_pod namespace name w ≡ (ok pod, w')
      → ¬ IsMeshed pod) where
  set_up-agree :
      {Raw R : Type 0} (args : CmdArgs) (conf : PluginConf Raw R) (names : Bytes × Bytes) (w : W)
      → set_up run has is_cidr client args conf names w
        ≡ set_up run' has is_cidr client args conf names w
  unfolding set_up
  set_up-agree args conf names w = elim (Bool-cases (is_named names)) [
    | inl named ↦ simp named (
        then_task-agree _ _ _ (λ d w₁ _. then_task-agree _ _ _ (λ pod w₂ got.
          let h = unmeshed names.0 names.1 pod w₁ w₂ (tag_answer_success _ got) in
          configure_pod_unmeshed run has is_cidr client args.net_ns conf.proxy_init pod w₂ h
          ∙ sym (
              configure_pod_unmeshed run' has is_cidr client args.net_ns conf.proxy_init pod w₂
                h))))
    | inr other ↦ simp other
  ]

  module _ {Raw R : Type 0} (unmarshal : Bytes → Option (PluginConf Raw R))
      (result_of : Bytes → Raw → Option R) (load_args : Bytes → Option (Bytes × Bytes))
      (print_result : R → Bytes → W → Option E × W) (empty_result : R) where
    -- Where each pod that the cluster returns has the proxy neither among its containers nor among
    -- its init containers, or has an init container linkerd-init, which sets up the rules, a request
    -- has the same outcome whatever the commands that could be run do: it runs none of them, errors
    -- included.
    pub cmd_add_unmeshed :
        (args : CmdArgs) (w : W)
        → cmd_add run has is_cidr client unmarshal result_of load_args print_result empty_result
            args w
          ≡ cmd_add run' has is_cidr client unmarshal result_of load_args print_result empty_result
              args w
    unfolding cmd_add
    cmd_add_unmeshed args w =
        ap
          (λ (step : PluginConf Raw R → Bytes × Bytes → PluginTask W E Done).
            then_task (parse_config unmarshal result_of args.stdin_data, w)
              (λ conf. loaded (load_args (k8s_args args.args)) >>= λ names.
                step conf names >>= λ ready w₁.
                checked print_failed (
                  print_result (result_to_print empty_result conf.prev_result) conf.cni_version
                    w₁)))
          (λ i conf names w₁. set_up-agree args conf names w₁ i)
