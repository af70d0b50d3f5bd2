-- ===== src/Tests/Configs.antt =====
-- Configurations and options that the tests share.
use linkerd2_proxy_init.Base.{
  ℕ, ◌+◌, same, none, Bytes, codes, Bool, true, false, pos, negsuc, [], ◌∷◌,
}
use linkerd2_proxy_init.Iptables.Commands.{Cmd}
use linkerd2_proxy_init.Iptables.Run.{Output}
use linkerd2_proxy_init.ProxyInit.Options.{RootOptions}
use linkerd2_proxy_init.Iptables.Config.{FirewallConfiguration, redirect_all_mode}

abbrev pub config : FirewallConfiguration
config = record {
  mode = redirect_all_mode;
  ports_to_redirect_inbound = [];
  inbound_ports_to_ignore = codes "4190" ∷ codes "bogus" ∷ codes "20-22" ∷ [];
  outbound_ports_to_ignore = [];
  subnets_to_ignore = codes "10.0.0.0/8" ∷ [];
  proxy_inbound_port = pos 4143;
  proxy_outgoing_port = pos 4140;
  proxy_uid = pos 2102;
  proxy_gid = pos 0;
  simulate_only = false;
  net_ns = [];
  use_wait_flag = false;
  bin_path = codes "iptables";
  save_bin_path = codes "iptables-save";
  continue_on_error = false;
}

-- Every program is on PATH.
abbrev pub everywhere : Bytes → Bool
everywhere name = true

-- The options of an injected init container.
abbrev pub options : RootOptions
options = record {
  incoming_proxy_port = pos 4143;
  outgoing_proxy_port = pos 4140;
  proxy_user_id = pos 2102;
  proxy_group_id = negsuc 0;
  ports_to_redirect = [];
  inbound_ports_to_ignore = codes "4190,4191" ∷ [];
  outbound_ports_to_ignore = [];
  subnets_to_ignore = codes " 10.0.0.0/8" ∷ [];
  simulate_only = true;
  net_ns = [];
  use_wait_flag = false;
  timeout_close_wait_secs = pos 0;
  log_format = codes "plain";
  log_level = codes "info";
  firewall_bin_path = [];
  firewall_save_bin_path = [];
  iptables_mode = codes "nft";
  ipv6 = true;
}

-- One address is known.
abbrev pub one_cidr : Bytes → Bool
one_cidr = same (codes "10.0.0.0/8")

-- A machine that counts the commands.
abbrev pub counting : Cmd → ℕ → Output (Unit {0}) × ℕ
counting cmd n = (record { out = []; error = none }, n + 1)
