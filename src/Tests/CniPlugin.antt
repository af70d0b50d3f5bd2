-- ===== src/Tests/CniPlugin.antt =====
-- Tests of cni-plugin/main.go.
use linkerd2_proxy_init.Base.{
  err, ◌+◌, same, any, ℕ, Bytes, codes, Bool, true, false, pos, Option, none, some, List, [], ◌∷◌,
  Result, ok, ◌≡◌, refl, ap, sym,
}
use linkerd2_proxy_init.Go.Strconv.{atoi, itoa, format_nat, digits}
use linkerd2_proxy_init.Go.Strings.{split, replace_first, trim_space}
use linkerd2_proxy_init.Ports.{is_valid_port}
use linkerd2_proxy_init.Iptables.Config.{FirewallConfiguration}
use linkerd2_proxy_init.Iptables.Commands.{Cmd}
use linkerd2_proxy_init.Iptables.Run.{Output}
use linkerd2_proxy_init.Iptables.Run.Outcomes.{simulate_only_runs_nothing}
use linkerd2_proxy_init.ProxyInit.Options.{RootOptions}
use linkerd2_proxy_init.ProxyInit.Build.{
  build_firewall_configuration, with_subnets, build_with_mode, build_in_mode, resolve_mode,
  sanitize_subnets,
}
use linkerd2_proxy_init.Task.{done}
use linkerd2_proxy_init.CniPlugin.Config.{
  PluginConf, ProxyInit, parse_config, parsed, convert_prev_result,
}
use linkerd2_proxy_init.CniPlugin.Cluster.{
  Client, Pod, ServicePort, Annotations, value_of, ports_of, service_port_texts,
  contains_init_container, contains_linkerd_proxy,
}
use linkerd2_proxy_init.CniPlugin.Options.{root_options, override_options}
use linkerd2_proxy_init.CniPlugin.Options.Laws.{overridden, override_options_lem}
use linkerd2_proxy_init.CniPlugin.Add.{
  CmdArgs, cmd_add, k8s_args, result_to_print, loaded, set_up, configure_pod, configure_built,
  configure_families, build_and_configure,
}
use linkerd2_proxy_init.CniPlugin.Add.Laws.{Ready, is_meshed, not-IsMeshed, cmd_add_success}
use linkerd2_proxy_init.CniPlugin.Add.Unmeshed.{cmd_add_unmeshed}
use linkerd2_proxy_init.Tests.Configs.{everywhere, one_cidr, counting}

abbrev plugin_options : ProxyInit
plugin_options = record {
  incoming_proxy_port = pos 4143;
  outgoing_proxy_port = pos 4140;
  proxy_uid = pos 2102;
  proxy_gid = pos 2102;
  ports_to_redirect = [];
  inbound_ports_to_ignore = codes "4190" ∷ [];
  outbound_ports_to_ignore = codes "443" ∷ [];
  subnets_to_ignore = codes "10.0.0.0/8" ∷ [];
  simulate = true;
  use_wait_flag = false;
  iptables_mode = [];
  ipv6 = true;
}

abbrev conf : PluginConf ℕ ℕ
conf = record {
  cni_version = codes "1.0.0";
  raw_prev_result = none;
  prev_result = none;
  proxy_init = plugin_options;
  kubeconfig = [];
}

abbrev pod : Pod
pod = record {
  namespace = codes "linkerd";
  annotations = (codes "config.linkerd.io/skip-outbound-ports", codes "25,587") ∷ [];
  labels = (codes "linkerd.io/control-plane-component", codes "destination") ∷ [];
  init_containers = codes "linkerd-network-validator" ∷ [];
  containers = codes "linkerd-proxy" ∷ [];
}

abbrev annotations : Annotations
annotations =
    (codes "config.linkerd.io/skip-outbound-ports", codes "3306")
    ∷ (codes "config.linkerd.io/skip-inbound-ports", codes "9090")
    ∷ (codes "config.linkerd.io/proxy-uid", codes "1000")
    ∷ []

abbrev service : Result (Unit {0}) (List ServicePort)
service = ok (record { port = pos 443; target_port = some (pos 6443) } ∷ [])

abbrev client : Client ℕ (Unit {0})
client = record {
  connect = λ kubeconfig n. (none, n);
  get_pod = λ namespace name n. (ok pod, n);
  get_namespace = λ name n. (ok annotations, n);
  get_kubernetes_service = λ n. (service, n);
}

abbrev made : RootOptions
made = overridden pod annotations service (root_options plugin_options []) (pos 1000) (pos 2102)

made_lists :
    (made.outbound_ports_to_ignore ≡ codes "25" ∷ codes "587" ∷ codes "443" ∷ codes "6443" ∷ [])
    × (made.inbound_ports_to_ignore ≡ codes "4190" ∷ codes "9090" ∷ [])
unfolding value_of ports_of service_port_texts split itoa format_nat digits root_options same
made_lists = (refl, refl)

override_options_lem_example :
    override_options client pod (root_options plugin_options []) 7 ≡ (ok made, 7)
unfolding value_of atoi root_options same
override_options_lem_example =
    override_options_lem client pod annotations service (λ n. refl) (λ n. refl)
      (root_options plugin_options []) 7

options_made : override_options client pod (root_options plugin_options []) 7 ≡ (ok made, 7)
unfolding value_of atoi root_options same
options_made =
    override_options_lem client pod annotations service (λ n. refl) (λ n. refl)
      (root_options plugin_options []) 7

abbrev family : Bool → FirewallConfiguration
family ipv6 = with_subnets (record made { ipv6 = ipv6 }) (codes "10.0.0.0/8" ∷ [])

family_built :
    (ipv6 : Bool)
    → (build_firewall_configuration one_cidr (record made { ipv6 = ipv6 })).0 ≡ ok (family ipv6)
unfolding build_firewall_configuration build_with_mode build_in_mode resolve_mode sanitize_subnets
    trim_space is_valid_port same root_options value_of
family_built ipv6 = refl

family_configured :
    (ipv6 : Bool)
    → build_and_configure counting everywhere one_cidr client (record made { ipv6 = ipv6 }) 7
      ≡ (ok done, 7)
unfolding build_and_configure configure_built with_subnets root_options
family_configured ipv6 =
    rw (family_built ipv6)
      (rw (simulate_only_runs_nothing counting everywhere (family ipv6) 7 refl).0 refl)

abbrev add_args : CmdArgs
add_args = record {
  net_ns = [];
  args = codes "K8S_POD_NAMESPACE=linkerd;K8S_POD_NAME=destination";
  stdin_data = [];
}

abbrev print_counting : ℕ → Bytes → ℕ → Option (Unit {0}) × ℕ
print_counting result version n = (none, n + 1)

args_spelled : k8s_args add_args.args ≡ codes "K8sPodNamespace=linkerd;K8sPodName=destination"
unfolding k8s_args replace_first
args_spelled = refl

added :
    cmd_add counting everywhere one_cidr client
      (λ text. some conf)
      (λ version raw. some raw)
      (λ args. some (codes "linkerd", codes "destination"))
      print_counting
      0
      add_args
      7
    ≡ (ok done, 8)
unfolding cmd_add parse_config parsed convert_prev_result loaded set_up configure_pod
    configure_families contains_init_container contains_linkerd_proxy same any root_options
added = rw options_made (rw (family_configured false) (rw (family_configured true) refl))

cmd_add_success_example :
    (c : PluginConf ℕ ℕ) × (names : Bytes × Bytes) × (n : ℕ) × (parse_config
        (λ text. some conf)
        (λ version raw. some raw)
        {E = Unit {0}}
        []
      ≡ ok c)
    × (some (codes "linkerd", codes "destination") ≡ some names)
    × Ready counting everywhere one_cidr client add_args c names 7 n
    × (print_counting (result_to_print 0 c.prev_result) c.cni_version n ≡ (none, 8))
cmd_add_success_example =
    cmd_add_success counting everywhere one_cidr client (λ text. some conf)
      (λ version raw. some raw) (λ args. some (codes "linkerd", codes "destination")) print_counting
      0 add_args 7 8 added

-- The pod has an init container of its own that sets up the rules.
abbrev own_rules : Pod
own_rules = record pod { init_containers = codes "linkerd-init" ∷ [] }

abbrev client_own_rules : Client ℕ (Unit {0})
client_own_rules = record client { get_pod = λ namespace name n. (ok own_rules, n) }

abbrev is_meshed_answer : Result (Unit {0}) Pod → Bool
is_meshed_answer (ok p) = is_meshed p
is_meshed_answer (err e) = false

abbrev doing_nothing : Cmd → ℕ → Output (Unit {0}) × ℕ
doing_nothing cmd n = (record { out = []; error = none }, n)

cmd_add_unmeshed_example :
    cmd_add counting everywhere one_cidr client_own_rules
      (λ text. some conf)
      (λ version raw. some raw)
      (λ args. some (codes "linkerd", codes "destination"))
      print_counting
      0
      add_args
      7
    ≡ cmd_add doing_nothing everywhere one_cidr client_own_rules
        (λ text. some conf)
        (λ version raw. some raw)
        (λ args. some (codes "linkerd", codes "destination"))
        print_counting
        0
        add_args
        7
unfolding contains_init_container contains_linkerd_proxy any same
cmd_add_unmeshed_example =
    cmd_add_unmeshed counting doing_nothing everywhere one_cidr client_own_rules
      (λ namespace name p n n' e.
        not-IsMeshed p (ap (λ (x : Result (Unit {0}) Pod × ℕ). is_meshed_answer x.0) (sym e)))
      (λ text. some conf) (λ version raw. some raw)
      (λ args. some (codes "linkerd", codes "destination")) print_counting 0 add_args 7
