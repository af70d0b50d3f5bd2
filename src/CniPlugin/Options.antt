-- ===== src/CniPlugin/Options.antt =====
-- The options that `cmdAdd` makes for proxy-init: those of the configuration, what the annotations
-- override, and the ports of the API server for a component of the control plane.
pub mod Laws
use linkerd2_proxy_init.Base.{
  Bytes, codes, Bool, ℤ, pos, Option, none, some, List, [], ◌∷◌, ◌++◌, ok, err, is_empty,
  if◌then◌else◌, Result,
}
use linkerd2_proxy_init.Go.Strconv.{atoi}
use linkerd2_proxy_init.Go.Strings.{split}
use linkerd2_proxy_init.ProxyInit.Options.{RootOptions, iptables_mode_legacy}
use linkerd2_proxy_init.Task.{then_task, ◌>>=◌, return, fail}
use linkerd2_proxy_init.CniPlugin.Config.{ProxyInit, PluginError, not_an_integer, PluginTask}
use linkerd2_proxy_init.CniPlugin.Cluster.{
  Client, Pod, value_of, get_annotation_override, get_api_server_ports,
}

-- The fields that are not named in the source are zero.
unfoldable pub root_options : ProxyInit → Bytes → RootOptions
root_options conf net_ns = record {
  incoming_proxy_port = conf.incoming_proxy_port;
  outgoing_proxy_port = conf.outgoing_proxy_port;
  proxy_user_id = conf.proxy_uid;
  proxy_group_id = conf.proxy_gid;
  ports_to_redirect = conf.ports_to_redirect;
  inbound_ports_to_ignore = conf.inbound_ports_to_ignore;
  outbound_ports_to_ignore = conf.outbound_ports_to_ignore;
  subnets_to_ignore = conf.subnets_to_ignore;
  simulate_only = conf.simulate;
  net_ns = net_ns;
  use_wait_flag = conf.use_wait_flag;
  timeout_close_wait_secs = pos 0;
  log_format = [];
  log_level = [];
  firewall_bin_path = [];
  firewall_save_bin_path = [];
  iptables_mode = conf.iptables_mode;
  ipv6 = conf.ipv6;
}

unfoldable pub override_outbound : Bytes → RootOptions → RootOptions
override_outbound text options =
    if is_empty text then options else record options { outbound_ports_to_ignore = split text b',' }

unfoldable pub override_inbound : Bytes → RootOptions → RootOptions
override_inbound text options = if is_empty text then options else record options {
  inbound_ports_to_ignore = options.inbound_ports_to_ignore ++ split text b',';
}

unfoldable pub override_subnets : Bytes → RootOptions → RootOptions
override_subnets text options =
    if is_empty text then options else record options { subnets_to_ignore = split text b',' }

-- An override that is a number, for a value that stands if there is none.
unfoldable pub parsed_or_fail : {W E : Type 0} → Option ℤ → PluginTask W E ℤ
parsed_or_fail none = fail not_an_integer
parsed_or_fail (some i) = return i

unfoldable pub override_id : {W E : Type 0} → Bytes → ℤ → PluginTask W E ℤ
override_id text old = if is_empty text then return old else parsed_or_fail (atoi text)

-- An error of the service is logged, and the default ports are taken.
abbrev pub or_default_ports :
    {W E : Type 0}
    → Result (PluginError E) (List Bytes) × W
    → Result (PluginError E) (List Bytes) × W
or_default_ports (ok ports, w) = (ok ports, w)
or_default_ports (err e, w) = (ok (codes "443" ∷ codes "6443" ∷ []), w)

unfoldable pub default_mode : RootOptions → RootOptions
default_mode options =
    if is_empty options.iptables_mode
    then record options { iptables_mode = iptables_mode_legacy }
    else options

module _ {W E : Type 0} (client : Client W E) (pod : Pod) where
  unfoldable pub skip_api_server_ports : RootOptions → PluginTask W E RootOptions
  skip_api_server_ports options =
      if is_empty (value_of (codes "linkerd.io/control-plane-component") pod.labels)
      then return options
      else (do
        ports ← (λ w. or_default_ports (get_api_server_ports client w))
        return (record options {
          outbound_ports_to_ignore = options.outbound_ports_to_ignore ++ ports;
        }))

  unfoldable pub override_options : RootOptions → PluginTask W E RootOptions
  override_options options₀ = do
    outbound ← get_annotation_override client pod (codes "config.linkerd.io/skip-outbound-ports")
    let options₁ = override_outbound outbound options₀
    inbound ← get_annotation_override client pod (codes "config.linkerd.io/skip-inbound-ports")
    let options₂ = override_inbound inbound options₁
    subnets ← get_annotation_override client pod (codes "config.linkerd.io/skip-subnets")
    let options₃ = override_subnets subnets options₂
    user_text ← get_annotation_override client pod (codes "config.linkerd.io/proxy-uid")
    user ← override_id user_text options₃.proxy_user_id
    let options₄ = record options₃ { proxy_user_id = user }
    group_text ← get_annotation_override client pod (codes "config.linkerd.io/proxy-gid")
    group ← override_id group_text options₄.proxy_group_id
    let options₅ = record options₄ { proxy_group_id = group }
    options₆ ← skip_api_server_ports options₅
    return (default_mode options₆)
