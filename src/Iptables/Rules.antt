-- ===== src/Iptables/Rules.antt =====
-- The lists of commands of pkg/iptables/iptables.go: `addIncomingTrafficRules`,
-- `addOutgoingTrafficRules`, `cleanupRules` and what they call. Each appends to `commands`.
use linkerd2_proxy_init.Base.{
  Bytes, codes, Bool, true, false, not, ℤ, pos, lt_int, same, List, [], ◌∷◌, ◌++◌, if◌then◌else◌,
}
use linkerd2_proxy_init.Go.Strconv.{itoa}
use linkerd2_proxy_init.Go.Strings.{join}
use linkerd2_proxy_init.Go.Lines.{find_rule, find_line}
use linkerd2_proxy_init.Iptables.Config.{
  FirewallConfiguration, redirect_all_mode, redirect_listed_mode, prerouting_chain_name,
  iptables_output_chain_name, output_chain_name, redirect_chain_name,
}
use linkerd2_proxy_init.Iptables.Commands.{
  Cmd, make_ignore_user_id, make_ignore_group_id, make_flush_chain, make_delete_chain,
  make_create_new_chain, make_redirect_chain_to_port, make_ignore_ports, make_ignore_subnet,
  make_ignore_loopback, make_redirect_chain_to_port_based_on_destination_port,
  make_jump_from_chain_to_another_for_all_protocols,
}
use linkerd2_proxy_init.Iptables.Multiport.{make_multiport_destinations}

-- The four regular expressions, as tests on the output of iptables-save.
unfoldable pub has_prerouting_rule : Bytes → Bool
has_prerouting_rule = find_rule (codes "-A PREROUTING ") (codes "-j PROXY_INIT_REDIRECT")

unfoldable pub has_output_rule : Bytes → Bool
has_output_rule = find_rule (codes "-A OUTPUT ") (codes "-j PROXY_INIT_OUTPUT")

unfoldable pub has_redirect_chain : Bytes → Bool
has_redirect_chain = find_line (codes ":PROXY_INIT_REDIRECT ")

unfoldable pub has_output_chain : Bytes → Bool
has_output_chain = find_line (codes ":PROXY_INIT_OUTPUT ")

-- A command that is appended under a test.
unfoldable pub add_when : Bool → Cmd → List Cmd → List Cmd
add_when test cmd commands = if test then commands ++ cmd ∷ [] else commands

unfoldable pub redirect_port_comment : ℤ → Bytes
redirect_port_comment port = codes "redirect-port-" ++ (itoa port ++ codes "-to-proxy-port")

module _ (fc : FirewallConfiguration) where
  unfoldable pub jump_to_redirect : Bool → Cmd
  jump_to_redirect =
      make_jump_from_chain_to_another_for_all_protocols fc prerouting_chain_name redirect_chain_name
        (codes "install-proxy-init-prerouting")

  unfoldable pub jump_to_output : Bool → Cmd
  jump_to_output =
      make_jump_from_chain_to_another_for_all_protocols fc iptables_output_chain_name
        output_chain_name (codes "install-proxy-init-output")

  unfoldable pub cleanup_rules : List Cmd → List Cmd
  unfolding jump_to_redirect jump_to_output
  cleanup_rules commands =
      commands
      ++ jump_to_redirect true
        ∷ jump_to_output true
        ∷ make_flush_chain fc output_chain_name
        ∷ make_flush_chain fc redirect_chain_name
        ∷ make_delete_chain fc output_chain_name
        ∷ make_delete_chain fc redirect_chain_name
        ∷ []

  -- The loop of `addRulesForIgnoredPorts` over the groups of destinations.
  unfoldable pub add_rules_for_groups : List (List Bytes) → Bytes → List Cmd → List Cmd
  add_rules_for_groups [] chain_name commands = commands
  add_rules_for_groups (destinations ∷ groups) chain_name commands =
      add_rules_for_groups groups chain_name (
        commands
        ++ make_ignore_ports fc chain_name destinations
            (codes "ignore-port-" ++ join destinations (codes ","))
          ∷ [])

  unfoldable pub add_rules_for_ignored_ports : List Bytes → Bytes → List Cmd → List Cmd
  add_rules_for_ignored_ports ports_to_ignore =
      add_rules_for_groups (make_multiport_destinations ports_to_ignore)

  -- The loop of `addRulesForIgnoredSubnets`.
  unfoldable pub add_rules_for_subnets : List Bytes → Bytes → List Cmd → List Cmd
  add_rules_for_subnets [] chain_name commands = commands
  add_rules_for_subnets (subnet ∷ subnets) chain_name commands =
      add_rules_for_subnets subnets chain_name (
        commands ++ make_ignore_subnet fc chain_name subnet (codes "ignore-subnet-" ++ subnet) ∷ [])

  unfoldable pub add_rules_for_ignored_subnets : Bytes → List Cmd → List Cmd
  add_rules_for_ignored_subnets = add_rules_for_subnets fc.subnets_to_ignore

  -- The loop of `addRulesForInboundPortRedirect` over the listed ports.
  unfoldable pub add_rules_for_listed_ports : List ℤ → Bytes → List Cmd → List Cmd
  add_rules_for_listed_ports [] chain_name commands = commands
  add_rules_for_listed_ports (port ∷ ports) chain_name commands =
      add_rules_for_listed_ports ports chain_name (
        commands
        ++ make_redirect_chain_to_port_based_on_destination_port fc chain_name port
            fc.proxy_inbound_port (redirect_port_comment port)
          ∷ [])

  unfoldable pub add_rules_for_inbound_port_redirect : Bytes → List Cmd → List Cmd
  add_rules_for_inbound_port_redirect chain_name commands =
      if same fc.mode redirect_all_mode
      then commands
        ++ make_redirect_chain_to_port fc chain_name fc.proxy_inbound_port
            (codes "redirect-all-incoming-to-proxy-port")
          ∷ []
      else if same fc.mode redirect_listed_mode
      then add_rules_for_listed_ports fc.ports_to_redirect_inbound chain_name commands
      else commands

  -- A chain that is there is emptied, and one that is not is created.
  unfoldable pub fresh_chain : Bool → Bytes → Cmd
  fresh_chain present name =
      if present then make_flush_chain fc name else make_create_new_chain fc name

  unfoldable pub add_incoming_traffic_rules : Bytes → List Cmd → List Cmd
  unfolding jump_to_redirect
  add_incoming_traffic_rules existing_rules commands =
      let c₁ =
        commands ++ fresh_chain (has_redirect_chain existing_rules) redirect_chain_name ∷ [] in
      let c₂ = add_rules_for_ignored_ports fc.inbound_ports_to_ignore redirect_chain_name c₁ in
      let c₃ = add_rules_for_ignored_subnets redirect_chain_name c₂ in
      let c₄ = add_rules_for_inbound_port_redirect redirect_chain_name c₃ in
      add_when (not (has_prerouting_rule existing_rules)) (jump_to_redirect false) c₄

  unfoldable pub add_outgoing_traffic_rules : Bytes → List Cmd → List Cmd
  unfolding jump_to_output
  add_outgoing_traffic_rules existing_rules commands =
      let c₁ = commands ++ fresh_chain (has_output_chain existing_rules) output_chain_name ∷ [] in
      let c₂ =
        add_when (lt_int (pos 0) fc.proxy_uid)
          (make_ignore_user_id fc output_chain_name fc.proxy_uid (codes "ignore-proxy-user-id"))
          c₁ in
      let c₃ =
        add_when (lt_int (pos 0) fc.proxy_gid)
          (make_ignore_group_id fc output_chain_name fc.proxy_gid (codes "ignore-proxy-group-id"))
          c₂ in
      let c₄ = c₃ ++ make_ignore_loopback fc output_chain_name (codes "ignore-loopback") ∷ [] in
      let c₅ = add_rules_for_ignored_ports fc.outbound_ports_to_ignore output_chain_name c₄ in
      let c₆ =
        c₅
        ++ make_redirect_chain_to_port fc output_chain_name fc.proxy_outgoing_port
            (codes "redirect-all-outgoing-to-proxy-port")
          ∷ [] in
      add_when (not (has_output_rule existing_rules)) (jump_to_output false) c₆
