-- ===== src/ProxyInit/Options.antt =====
-- The constants and the `RootOptions` of proxy-init/cmd/root.go.
use linkerd2_proxy_init.Base.{Bytes, codes, Bool, true, false, ℤ, pos, negsuc, List, []}

abbrev pub iptables_mode_legacy : Bytes
iptables_mode_legacy = codes "legacy"

abbrev pub iptables_mode_nft : Bytes
iptables_mode_nft = codes "nft"

abbrev pub iptables_mode_plain : Bytes
iptables_mode_plain = codes "plain"

abbrev pub cmd_legacy : Bytes
cmd_legacy = codes "iptables-legacy"

abbrev pub cmd_legacy_save : Bytes
cmd_legacy_save = codes "iptables-legacy-save"

abbrev pub cmd_legacy_ipv6 : Bytes
cmd_legacy_ipv6 = codes "ip6tables-legacy"

abbrev pub cmd_legacy_ipv6_save : Bytes
cmd_legacy_ipv6_save = codes "ip6tables-legacy-save"

abbrev pub cmd_nft : Bytes
cmd_nft = codes "iptables-nft"

abbrev pub cmd_nft_save : Bytes
cmd_nft_save = codes "iptables-nft-save"

abbrev pub cmd_nft_ipv6 : Bytes
cmd_nft_ipv6 = codes "ip6tables-nft"

abbrev pub cmd_nft_ipv6_save : Bytes
cmd_nft_ipv6_save = codes "ip6tables-nft-save"

abbrev pub cmd_plain : Bytes
cmd_plain = codes "iptables"

abbrev pub cmd_plain_save : Bytes
cmd_plain_save = codes "iptables-save"

abbrev pub cmd_plain_ipv6 : Bytes
cmd_plain_ipv6 = codes "ip6tables"

abbrev pub cmd_plain_ipv6_save : Bytes
cmd_plain_ipv6_save = codes "ip6tables-save"

pub record RootOptions : Type 0 where
  pub incoming_proxy_port : ℤ
  pub outgoing_proxy_port : ℤ
  pub proxy_user_id : ℤ
  pub proxy_group_id : ℤ
  pub ports_to_redirect : List ℤ
  pub inbound_ports_to_ignore : List Bytes
  pub outbound_ports_to_ignore : List Bytes
  pub subnets_to_ignore : List Bytes
  pub simulate_only : Bool
  pub net_ns : Bytes
  pub use_wait_flag : Bool
  pub timeout_close_wait_secs : ℤ
  pub log_format : Bytes
  pub log_level : Bytes
  pub firewall_bin_path : Bytes
  pub firewall_save_bin_path : Bytes
  pub iptables_mode : Bytes
  pub ipv6 : Bool

-- The defaults. `negsuc 0` is -1.
unfoldable pub new_root_options : RootOptions
new_root_options = record {
  incoming_proxy_port = negsuc 0;
  outgoing_proxy_port = negsuc 0;
  proxy_user_id = negsuc 0;
  proxy_group_id = negsuc 0;
  ports_to_redirect = [];
  inbound_ports_to_ignore = [];
  outbound_ports_to_ignore = [];
  subnets_to_ignore = [];
  simulate_only = false;
  net_ns = [];
  use_wait_flag = false;
  timeout_close_wait_secs = pos 0;
  log_format = codes "plain";
  log_level = codes "info";
  firewall_bin_path = [];
  firewall_save_bin_path = [];
  iptables_mode = [];
  ipv6 = true;
}
