-- ===== src/Iptables/Ops.antt =====
-- The command lists of pkg/iptables/iptables.go, read as operations on chains, and the rules that
-- the two chains of the proxy are meant to hold.
pub mod Lists
use linkerd2_proxy_init.Base.{
  Bytes, codes, Bool, true, false, not, ℤ, pos, lt_int, same, List, [], ◌∷◌, ◌++◌, ◌≡◌, refl, arith,
  map, append_assoc, append-nil, if◌then◌else◌, Bool-cases, inl, inr, ◌∙◌, ap, sym,
}
use linkerd2_proxy_init.Go.Strconv.{itoa}
use linkerd2_proxy_init.Go.Strings.{join}
use linkerd2_proxy_init.Iptables.Config.{
  FirewallConfiguration, redirect_all_mode, redirect_listed_mode, prerouting_chain_name,
  iptables_output_chain_name, output_chain_name, redirect_chain_name,
}
use linkerd2_proxy_init.Iptables.Commands.{
  Cmd, command, nat, commented, make_ignore_user_id, make_ignore_group_id, make_flush_chain,
  make_delete_chain, make_create_new_chain, make_redirect_chain_to_port, make_ignore_ports,
  make_ignore_subnet, make_ignore_loopback, make_redirect_chain_to_port_based_on_destination_port,
  make_jump_from_chain_to_another_for_all_protocols,
}
use linkerd2_proxy_init.Iptables.Multiport.{make_multiport_destinations}
use linkerd2_proxy_init.Iptables.Rules.{
  has_prerouting_rule, has_output_rule, has_redirect_chain, has_output_chain, add_rules_for_groups,
  add_rules_for_subnets, add_rules_for_listed_ports, add_rules_for_ignored_ports,
  add_rules_for_ignored_subnets, add_rules_for_inbound_port_redirect, add_incoming_traffic_rules,
  add_outgoing_traffic_rules, cleanup_rules, fresh_chain, jump_to_redirect, jump_to_output,
  redirect_port_comment,
}
use linkerd2_proxy_init.Iptables.Chains.{Rule, Op, create, flush, delete, append, remove}

-- The command line that asks for an operation.
unfoldable pub op_command : FirewallConfiguration → Op → Cmd
op_command fc (create c) = command fc.bin_path (nat (codes "-N") c [])
op_command fc (flush c) = command fc.bin_path (nat (codes "-F") c [])
op_command fc (delete c) = command fc.bin_path (nat (codes "-X") c [])
op_command fc (append c r) = command fc.bin_path (nat (codes "-A") c r)
op_command fc (remove c r) = command fc.bin_path (nat (codes "-D") c r)

-- The target of a rule.
abbrev pub jump : Bytes → List Bytes
jump target = codes "-j" ∷ target ∷ []

unfoldable pub ports_rule : List Bytes → Rule
ports_rule destinations =
    let ports = join destinations (codes ",") in
    codes "-p"
    ∷ codes "tcp"
    ∷ codes "--match"
    ∷ codes "multiport"
    ∷ codes "--dports"
    ∷ ports
    ∷ codes "-j"
    ∷ codes "RETURN"
    ∷ commented (codes "ignore-port-" ++ ports)

unfoldable pub subnet_rule : Bytes → Rule
subnet_rule subnet =
    codes "-p"
    ∷ codes "all"
    ∷ codes "-j"
    ∷ codes "RETURN"
    ∷ codes "-s"
    ∷ subnet
    ∷ commented (codes "ignore-subnet-" ++ subnet)

unfoldable pub redirect_rule : ℤ → Bytes → Rule
redirect_rule port comment =
    codes "-p"
    ∷ codes "tcp"
    ∷ codes "-j"
    ∷ codes "REDIRECT"
    ∷ codes "--to-port"
    ∷ itoa port
    ∷ commented comment

unfoldable pub redirect_listed_rule : ℤ → ℤ → Rule
redirect_listed_rule proxy_port port =
    codes "-p"
    ∷ codes "tcp"
    ∷ codes "--destination-port"
    ∷ itoa port
    ∷ codes "-j"
    ∷ codes "REDIRECT"
    ∷ codes "--to-port"
    ∷ itoa proxy_port
    ∷ commented (redirect_port_comment port)

unfoldable pub owner_rule : Bytes → ℤ → Bytes → Rule
owner_rule flag id comment =
    codes "-m" ∷ codes "owner" ∷ flag ∷ itoa id ∷ codes "-j" ∷ codes "RETURN" ∷ commented comment

unfoldable pub loopback_rule : Rule
loopback_rule =
    codes "-o" ∷ codes "lo" ∷ codes "-j" ∷ codes "RETURN" ∷ commented (codes "ignore-loopback")

unfoldable pub jump_rule : Bytes → Bytes → Rule
jump_rule target comment = codes "-j" ∷ target ∷ commented comment

abbrev pub redirect_jump : Rule
redirect_jump = jump_rule redirect_chain_name (codes "install-proxy-init-prerouting")

abbrev pub output_jump : Rule
output_jump = jump_rule output_chain_name (codes "install-proxy-init-output")

module _ (fc : FirewallConfiguration) where
  -- Which inbound ports go to the proxy.
  unfoldable pub inbound_rules : List Rule
  inbound_rules =
      if same fc.mode redirect_all_mode
      then redirect_rule fc.proxy_inbound_port (codes "redirect-all-incoming-to-proxy-port") ∷ []
      else if same fc.mode redirect_listed_mode
      then map (redirect_listed_rule fc.proxy_inbound_port) fc.ports_to_redirect_inbound
      else []

  -- The chain PROXY_INIT_REDIRECT: the ignored ports and subnets return before the redirection.
  unfoldable pub redirect_chain_rules : List Rule
  redirect_chain_rules =
      map ports_rule (make_multiport_destinations fc.inbound_ports_to_ignore)
      ++ (map subnet_rule fc.subnets_to_ignore ++ inbound_rules)

  unfoldable pub owner_rules : List Rule
  owner_rules =
      (if lt_int (pos 0) fc.proxy_uid
        then owner_rule (codes "--uid-owner") fc.proxy_uid (codes "ignore-proxy-user-id") ∷ []
        else [])
      ++ (if lt_int (pos 0) fc.proxy_gid
          then owner_rule (codes "--gid-owner") fc.proxy_gid (codes "ignore-proxy-group-id") ∷ []
          else [])

  -- The chain PROXY_INIT_OUTPUT: the proxy's own traffic, the loopback and the ignored ports
  -- return before the redirection.
  unfoldable pub output_chain_rules : List Rule
  output_chain_rules =
      owner_rules
      ++ (loopback_rule ∷ map ports_rule (make_multiport_destinations fc.outbound_ports_to_ignore)
          ++ redirect_rule fc.proxy_outgoing_port (codes "redirect-all-outgoing-to-proxy-port")
            ∷ [])

-- A chain, given whether it is there, with its rules, and the jump to it, given whether it is there.
unfoldable pub chain_ops : Bool → Bool → Bytes → List Rule → Bytes → Rule → List Op
chain_ops present linked chain rules parent jump_to =
    (if present then flush chain else create chain) ∷ map (append chain) rules
    ++ (if not linked then append parent jump_to ∷ [] else [])

unfoldable pub incoming_ops : FirewallConfiguration → Bytes → List Op
incoming_ops fc existing =
    chain_ops (has_redirect_chain existing) (has_prerouting_rule existing) redirect_chain_name
      (redirect_chain_rules fc) prerouting_chain_name redirect_jump

unfoldable pub outgoing_ops : FirewallConfiguration → Bytes → List Op
outgoing_ops fc existing =
    chain_ops (has_output_chain existing) (has_output_rule existing) output_chain_name
      (output_chain_rules fc) iptables_output_chain_name output_jump

abbrev pub cleanup_ops : List Op
cleanup_ops =
    remove prerouting_chain_name redirect_jump
    ∷ remove iptables_output_chain_name output_jump
    ∷ flush output_chain_name
    ∷ flush redirect_chain_name
    ∷ delete output_chain_name
    ∷ delete redirect_chain_name
    ∷ []
