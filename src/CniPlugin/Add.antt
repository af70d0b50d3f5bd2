-- ===== src/CniPlugin/Add.antt =====
-- `cmdAdd` of cni-plugin/main.go, with `buildAndConfigure`. `run` and `has` are those of
-- pkg/iptables, `is_cidr` stands for `net.ParseCIDR`, and `load_args` for `types.LoadArgs` into
-- `K8sArgs`, which gives the namespace and the name of the pod. `print_result` and `empty_result`
-- are those of the CNI library.
pub mod Laws
pub mod Unmeshed
pub mod Installed
use linkerd2_proxy_init.Base.{
  Bytes, codes, Bool, true, false, not, Option, none, some, List, [], Result, ok, err, is_empty,
  ◌&&◌, if◌then◌else◌,
}
use linkerd2_proxy_init.Go.Strings.{replace_first}
use linkerd2_proxy_init.Iptables.Config.{FirewallConfiguration}
use linkerd2_proxy_init.Iptables.Commands.{Cmd}
use linkerd2_proxy_init.Iptables.Run.{Output, configure_firewall}
use linkerd2_proxy_init.ProxyInit.Options.{RootOptions}
use linkerd2_proxy_init.ProxyInit.Build.{OptionsError, build_firewall_configuration}
use linkerd2_proxy_init.Task.{Done, done, then_task, ◌>>=◌, return, fail}
use linkerd2_proxy_init.CniPlugin.Config.{
  PluginConf, ProxyInit, PluginError, bad_args, cluster_failed, firewall_failed, print_failed,
  bad_options, PluginTask, parse_config,
}
use linkerd2_proxy_init.CniPlugin.Cluster.{
  Client, Pod, contains_init_container, contains_linkerd_proxy, from_cluster,
}
use linkerd2_proxy_init.CniPlugin.Options.{root_options, override_options}

-- A call that returns an error or nothing.
abbrev pub checked :
    {W E : Type 0} → (E → PluginError E) → Option E × W → Result (PluginError E) Done × W
checked tag (none, w) = (ok done, w)
checked tag (some e, w) = (err (tag e), w)

pub record CmdArgs : Type 0 where
  pub net_ns : Bytes
  pub args : Bytes
  pub stdin_data : Bytes

-- The names in the arguments as `K8sArgs` spells its fields.
unfoldable pub k8s_args : Bytes → Bytes
k8s_args args =
    replace_first (replace_first args (codes "K8S_POD_NAMESPACE") (codes "K8sPodNamespace"))
      (codes "K8S_POD_NAME") (codes "K8sPodName")

unfoldable pub loaded : {W E : Type 0} → Option (Bytes × Bytes) → PluginTask W E (Bytes × Bytes)
loaded none = fail bad_args
loaded (some names) = return names

-- The result of the plugins before this one is passed on.
unfoldable pub result_to_print : {R : Type 0} → R → Option R → R
result_to_print empty_result none = empty_result
result_to_print empty_result (some r) = r

module _ {W E : Type 0} (run : Cmd → W → Output E × W) (has is_cidr : Bytes → Bool)
    (client : Client W E) where
  unfoldable pub configure_built : Result OptionsError FirewallConfiguration → PluginTask W E Done
  configure_built (err e) = fail (bad_options e)
  configure_built (ok config) = λ w. checked firewall_failed (configure_firewall run has config w)

  unfoldable pub build_and_configure : RootOptions → PluginTask W E Done
  build_and_configure options = configure_built (build_firewall_configuration is_cidr options).0

  -- The rules of IPv4 always, those of IPv6 behind them if they are asked for.
  unfoldable pub configure_families : RootOptions → PluginTask W E Done
  configure_families options = do
    first ← build_and_configure (record options { ipv6 = false })
    if options.ipv6 then build_and_configure options else return done

  unfoldable pub configure_pod : Bytes → ProxyInit → Pod → PluginTask W E Done
  configure_pod net_ns conf pod =
      if not (contains_init_container pod) && contains_linkerd_proxy pod
      then (do
        options ← override_options client pod (root_options conf net_ns)
        configure_families options)
      else return done

  unfoldable pub set_up :
      {Raw R : Type 0} → CmdArgs → PluginConf Raw R → Bytes × Bytes → PluginTask W E Done
  set_up args conf (namespace, pod_name) =
      if not (is_empty namespace) && not (is_empty pod_name)
      then (do
        connected ← (λ w. checked cluster_failed (client.connect conf.kubeconfig w))
        pod ← from_cluster (client.get_pod namespace pod_name)
        configure_pod args.net_ns conf.proxy_init pod)
      else return done

  module _ {Raw R : Type 0} (unmarshal : Bytes → Option (PluginConf Raw R))
      (result_of : Bytes → Raw → Option R) (load_args : Bytes → Option (Bytes × Bytes))
      (print_result : R → Bytes → W → Option E × W) (empty_result : R) where
    unfoldable pub cmd_add : CmdArgs → PluginTask W E Done
    cmd_add args = do
      conf ← (λ w. (parse_config unmarshal result_of args.stdin_data, w))
      names ← loaded (load_args (k8s_args args.args))
      ready ← set_up args conf names
      λ w.
          checked print_failed
            (print_result (result_to_print empty_result conf.prev_result) conf.cni_version w)
