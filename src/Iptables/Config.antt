-- ===== src/Iptables/Config.antt =====
-- The constants and the `FirewallConfiguration` of pkg/iptables/iptables.go.
use linkerd2_proxy_init.Base.{Bytes, codes, Bool, ℤ, List, ℕ}

abbrev pub redirect_all_mode : Bytes
redirect_all_mode = codes "redirect-all"

abbrev pub redirect_listed_mode : Bytes
redirect_listed_mode = codes "redirect-listed"

abbrev pub prerouting_chain_name : Bytes
prerouting_chain_name = codes "PREROUTING"

abbrev pub iptables_output_chain_name : Bytes
iptables_output_chain_name = codes "OUTPUT"

-- The most port references in one command.
abbrev pub multiport_limit : ℕ
multiport_limit = 15

abbrev pub output_chain_name : Bytes
output_chain_name = codes "PROXY_INIT_OUTPUT"

abbrev pub redirect_chain_name : Bytes
redirect_chain_name = codes "PROXY_INIT_REDIRECT"

pub record FirewallConfiguration : Type 0 where
  pub mode : Bytes
  pub ports_to_redirect_inbound : List ℤ
  pub inbound_ports_to_ignore : List Bytes
  pub outbound_ports_to_ignore : List Bytes
  pub subnets_to_ignore : List Bytes
  pub proxy_inbound_port : ℤ
  pub proxy_outgoing_port : ℤ
  pub proxy_uid : ℤ
  pub proxy_gid : ℤ
  pub simulate_only : Bool
  pub net_ns : Bytes
  pub use_wait_flag : Bool
  pub bin_path : Bytes
  pub save_bin_path : Bytes
  pub continue_on_error : Bool
