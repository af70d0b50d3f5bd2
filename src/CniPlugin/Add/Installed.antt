-- ===== src/CniPlugin/Add/Installed.antt =====
-- What `cmdAdd` leaves in the tables when it sets up a pod.
use linkerd2_proxy_init.Base.{Bytes, Bool, true, false, Option, none, some, ok, ◌≡◌, refl}
use linkerd2_proxy_init.Iptables.Config.{FirewallConfiguration}
use linkerd2_proxy_init.Iptables.Commands.{Cmd}
use linkerd2_proxy_init.Iptables.Run.{Output, configure_firewall}
use linkerd2_proxy_init.Iptables.Install.{installed}
use linkerd2_proxy_init.Iptables.Families.{DualHost}
use linkerd2_proxy_init.ProxyInit.Options.{RootOptions}
use linkerd2_proxy_init.ProxyInit.Build.{build_firewall_configuration}
use linkerd2_proxy_init.ProxyInit.Run.DualStack.{IsReady, both_installed}
use linkerd2_proxy_init.Task.{done}
use linkerd2_proxy_init.CniPlugin.Config.{PluginConf, parse_config, print_failed}
use linkerd2_proxy_init.CniPlugin.Cluster.{Client, Pod}
use linkerd2_proxy_init.CniPlugin.Options.{root_options, override_options}
use linkerd2_proxy_init.CniPlugin.Add.{
  checked, CmdArgs, k8s_args, loaded, result_to_print, configure_built, build_and_configure,
  configure_families, configure_pod, set_up, cmd_add,
}
use linkerd2_proxy_init.CniPlugin.Add.Laws.{IsMeshed, is_meshed-iff-IsMeshed, is_named}

module _ {W E : Type 0} (has is_cidr : Bytes → Bool) (client : Client W E) where
  module _ (run : Cmd → W → Output E × W) where
    family_configured :
        (o : RootOptions) (c : FirewallConfiguration) (w w' : W)
        → (build_firewall_configuration is_cidr o).0 ≡ ok c
        → configure_firewall run has c w ≡ (none, w')
        → build_and_configure run has is_cidr client o w ≡ (ok done, w')
    unfolding build_and_configure configure_built
    family_configured o c w w' built applied = rw (built, applied) refl

    families_configured :
        (o : RootOptions) (w w₁ w₂ : W)
        → o.ipv6 ≡ true
        → build_and_configure run has is_cidr client (record o { ipv6 = false }) w ≡ (ok done, w₁)
        → build_and_configure run has is_cidr client o w₁ ≡ (ok done, w₂)
        → configure_families run has is_cidr client o w ≡ (ok done, w₂)
    unfolding configure_families
    families_configured o w w₁ w₂ dual first second = rw first (simp dual second)

  module _ {Raw R : Type 0} (unmarshal : Bytes → Option (PluginConf Raw R))
      (result_of : Bytes → Raw → Option R) (load_args : Bytes → Option (Bytes × Bytes))
      (print_result : R → Bytes → W → Option E × W) (empty_result : R) where
    -- A request for a pod with the proxy that does not set up its own rules: its configuration and
    -- its arguments are read, the cluster answers, and the options are made, in the world `w'`.
    pub record Prepared (args : CmdArgs) (conf : PluginConf Raw R) (o : RootOptions) (w w' : W)
        : Type 0 where
      pub names : Bytes × Bytes
      pub pod : Pod
      pub connected : W
      pub answered : W
      pub configuration : parse_config unmarshal result_of {E = E} args.stdin_data ≡ ok conf
      pub arguments : load_args (k8s_args args.args) ≡ some names
      pub named : is_named names ≡ true
      pub connects : client.connect conf.kubeconfig w ≡ (none, connected)
      pub answers : client.get_pod names.0 names.1 connected ≡ (ok pod, answered)
      pub meshed : IsMeshed pod
      pub made :
          override_options client pod (root_options conf.proxy_init args.net_ns) answered
          ≡ (ok o, w')

    cmd_add-Prepared :
        (run : Cmd → W → Output E × W) (args : CmdArgs) (conf : PluginConf Raw R) (o : RootOptions)
        (w w' w'' : W)
        → Prepared args conf o w w'
        → configure_families run has is_cidr client o w' ≡ (ok done, w'')
        → cmd_add run has is_cidr client unmarshal result_of load_args print_result empty_result
            args w
          ≡ checked print_failed
              (print_result (result_to_print empty_result conf.prev_result) conf.cni_version w'')
    unfolding cmd_add loaded set_up configure_pod
    cmd_add-Prepared run args conf o w w' w'' p h =
        rw
          (
            p.configuration,
            p.arguments,
            p.named,
            p.connects,
            p.answers,
            (is_meshed-iff-IsMeshed p.pod).1 p.meshed,
            p.made,
            h,
          )
          refl

    -- A request that is prepared, for options that ask for IPv6, has the rules of either family
    -- installed in that family's table, and ends as the printing of the previous result, or of an
    -- empty one, ends. It is assumed that the options build a configuration for both families,
    -- that these are no simulations, and that both tables have the chains PREROUTING and OUTPUT
    -- and take the rules, and that no rule of these has `-j` and the name of the proxy's chain in its
    -- listing but those that lead to that chain.
    pub cmd_add-installed :
        (args : CmdArgs) (conf : PluginConf Raw R) (o : RootOptions)
        (fc₄ fc₆ : FirewallConfiguration) (host : DualHost fc₄ fc₆ W E) (w w' : W)
        → Prepared args conf o w w'
        → o.ipv6 ≡ true
        → IsReady has is_cidr (record o { ipv6 = false }) fc₄ host.ipv4 w'
        → IsReady has is_cidr o fc₆ host.ipv6 w'
        → (w'' : W) × (host.ipv4.chains w'' ≡ installed fc₄ (host.ipv4.chains w'))
          × (host.ipv6.chains w'' ≡ installed fc₆ (host.ipv6.chains w'))
          × (cmd_add host.ipv4.run has is_cidr client unmarshal result_of load_args print_result
                empty_result args w
              ≡ checked print_failed (
                  print_result
                    (result_to_print empty_result conf.prev_result)
                    conf.cni_version
                    w''))
    cmd_add-installed args conf o fc₄ fc₆ host w w' prepared dual ready₄ ready₆ =
        let b = both_installed has is_cidr _ o fc₄ fc₆ host w' ready₄ ready₆ in
        let run = host.ipv4.run in
        let first = family_configured run _ _ w' b.w₁ ready₄.built b.first in
        let second = family_configured run _ _ b.w₁ b.w₂ ready₆.built b.second in
        (
          b.w₂,
          b.ipv4_table,
          b.ipv6_table,
          cmd_add-Prepared run args conf o w w' b.w₂ prepared
              (families_configured run o w' b.w₁ b.w₂ dual first second),
        )
