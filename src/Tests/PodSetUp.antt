-- ===== src/Tests/PodSetUp.antt =====
-- The plugin sets up a pod on a machine with a table for either family of addresses.
use linkerd2_proxy_init.Base.{
  Bytes, codes, Bool, true, false, same, any, pos, negsuc, Option, none, some, [], ◌∷◌, ok, ◌≡◌,
  refl,
}
use linkerd2_proxy_init.Go.Strings.{trim_space}
use linkerd2_proxy_init.Ports.{is_valid_port}
use linkerd2_proxy_init.Iptables.Install.{installed}
use linkerd2_proxy_init.ProxyInit.Options.{RootOptions}
use linkerd2_proxy_init.ProxyInit.Build.{
  resolve_mode, get_commands, sanitize_subnets, with_subnets, build_in_mode, build_with_mode,
  build_firewall_configuration,
}
use linkerd2_proxy_init.CniPlugin.Config.{
  PluginConf, parse_config, parsed, convert_prev_result, print_failed,
}
use linkerd2_proxy_init.CniPlugin.Cluster.{
  Client, Pod, value_of, contains_init_container, contains_linkerd_proxy,
}
use linkerd2_proxy_init.CniPlugin.Options.{root_options, override_options}
use linkerd2_proxy_init.CniPlugin.Options.Laws.{override_options_lem}
use linkerd2_proxy_init.CniPlugin.Add.{checked, CmdArgs, result_to_print, cmd_add}
use linkerd2_proxy_init.CniPlugin.Add.Laws.{is_meshed-iff-IsMeshed}
use linkerd2_proxy_init.CniPlugin.Add.Installed.{Prepared, cmd_add-installed}
use linkerd2_proxy_init.Tests.Configs.{everywhere, one_cidr}
use linkerd2_proxy_init.Tests.Tables.{table}
use linkerd2_proxy_init.Tests.DualStack.{Tables, family, both, ready₄, ready₆}

abbrev conf : PluginConf Bytes Bytes
conf = record {
  cni_version = codes "1.0.0";
  raw_prev_result = none;
  prev_result = none;
  proxy_init = record {
    incoming_proxy_port = pos 4143;
    outgoing_proxy_port = pos 4140;
    proxy_uid = pos 2102;
    proxy_gid = negsuc 0;
    ports_to_redirect = [];
    inbound_ports_to_ignore = codes "4190,4191" ∷ [];
    outbound_ports_to_ignore = [];
    subnets_to_ignore = codes " 10.0.0.0/8" ∷ [];
    simulate = false;
    use_wait_flag = false;
    iptables_mode = codes "nft";
    ipv6 = true;
  };
  kubeconfig = [];
}

abbrev pod : Pod
pod = record {
  namespace = codes "emojivoto";
  annotations = [];
  labels = [];
  init_containers = [];
  containers = codes "web" ∷ codes "linkerd-proxy" ∷ [];
}

abbrev client : Client Tables (Unit {0})
client = record {
  connect = λ kubeconfig w. (none, w);
  get_pod = λ namespace name w. (ok pod, w);
  get_namespace = λ name w. (ok [], w);
  get_kubernetes_service = λ w. (ok [], w);
}

abbrev unmarshal : Bytes → Option (PluginConf Bytes Bytes)
unmarshal text = some conf

abbrev result_of : Bytes → Bytes → Option Bytes
result_of version raw = some raw

abbrev load_args : Bytes → Option (Bytes × Bytes)
load_args args = some (codes "emojivoto", codes "web")

abbrev print : Bytes → Bytes → Tables → Option (Unit {0}) × Tables
print result version w = (none, w)

abbrev add_args : CmdArgs
add_args = record { net_ns = []; args = []; stdin_data = [] }

abbrev made : RootOptions
made = root_options conf.proxy_init []

options_made :
    override_options client pod (root_options conf.proxy_init []) (table, table)
    ≡ (ok made, (table, table))
unfolding value_of root_options
options_made =
    override_options_lem client pod [] (ok []) (λ w. refl) (λ w. refl)
      (root_options conf.proxy_init []) (table, table)

builds :
    (ipv6 : Bool)
    → (build_firewall_configuration one_cidr (record made { ipv6 = ipv6 })).0 ≡ ok (family ipv6)
unfolding build_firewall_configuration build_with_mode build_in_mode resolve_mode sanitize_subnets
    trim_space is_valid_port same root_options with_subnets get_commands
builds ipv6 = refl

prepared :
    Prepared everywhere one_cidr client unmarshal result_of load_args print [] add_args conf made
      (table, table)
      (table, table)
unfolding parse_config parsed convert_prev_result contains_init_container contains_linkerd_proxy any
    same
prepared = record {
  names = (codes "emojivoto", codes "web");
  pod = pod;
  connected = (table, table);
  answered = (table, table);
  configuration = refl;
  arguments = refl;
  named = refl;
  connects = refl;
  answers = refl;
  meshed = (is_meshed-iff-IsMeshed pod).0 refl;
  made = options_made;
}

cmd_add-installed_example :
    (w : Tables) × (both.ipv4.chains w ≡ installed (family false) (both.ipv4.chains (table, table)))
    × (both.ipv6.chains w ≡ installed (family true) (both.ipv6.chains (table, table)))
    × (cmd_add both.ipv4.run everywhere one_cidr client unmarshal result_of load_args print []
          add_args
          (table, table)
        ≡ checked print_failed (print (result_to_print [] conf.prev_result) conf.cni_version w))
unfolding root_options
cmd_add-installed_example =
    cmd_add-installed everywhere one_cidr client unmarshal result_of load_args print [] add_args
      conf made (family false) (family true) both (table, table) (table, table) prepared refl
      (ready₄ _ (builds false)) (ready₆ _ (builds true))
