-- ===== src/Iptables/Ops/Lists.antt =====
-- Each list of commands asks for the list of operations that is its specification.
use linkerd2_proxy_init.Base.{
  Bytes, Bool, true, false, ℤ, same, List, [], ◌∷◌, ◌++◌, ◌≡◌, refl, map, append_assoc, append-nil,
  if◌then◌else◌, Bool-cases, inl, inr, sym,
}
use mathlib.Core.List.{map-append}
use linkerd2_proxy_init.Iptables.Config.{
  FirewallConfiguration, redirect_all_mode, redirect_listed_mode, prerouting_chain_name,
  iptables_output_chain_name,
}
use linkerd2_proxy_init.Iptables.Commands.{
  Cmd, make_ignore_user_id, make_ignore_group_id, make_flush_chain, make_delete_chain,
  make_create_new_chain, make_redirect_chain_to_port, make_ignore_ports, make_ignore_subnet,
  make_ignore_loopback, make_redirect_chain_to_port_based_on_destination_port,
  make_jump_from_chain_to_another_for_all_protocols,
}
use linkerd2_proxy_init.Iptables.Rules.{
  add_rules_for_groups, add_rules_for_subnets, add_rules_for_listed_ports,
  add_rules_for_ignored_ports, add_rules_for_ignored_subnets, add_rules_for_inbound_port_redirect,
  add_incoming_traffic_rules, add_outgoing_traffic_rules, cleanup_rules, add_when, fresh_chain,
  jump_to_redirect, jump_to_output,
}
use linkerd2_proxy_init.Iptables.Chains.{Rule, create, flush, append}
use linkerd2_proxy_init.Iptables.Ops.{
  op_command, ports_rule, subnet_rule, redirect_rule, redirect_listed_rule, owner_rule,
  loopback_rule, jump_rule, redirect_jump, output_jump, inbound_rules, redirect_chain_rules,
  owner_rules, output_chain_rules, chain_ops, incoming_ops, outgoing_ops, cleanup_ops,
}

map-if {ℓ κ} :
    {A : Type ℓ} {B : Type κ} (f : A → B) (b : Bool) (x y : List A)
    → map f (if b then x else y) ≡ (if b then map f x else map f y)
map-if f true x y = refl
map-if f false x y = refl

add_when-append :
    (b : Bool) (c : Cmd) (cmds : List Cmd) → add_when b c cmds ≡ cmds ++ (if b then c ∷ [] else [])
unfolding add_when
add_when-append true c cmds = refl
add_when-append false c cmds = sym (append-nil cmds)

module _ (fc : FirewallConfiguration) where
  abbrev appends : Bytes → List Rule → List Cmd
  appends c rules = map (op_command fc) (map (append c) rules)

  fresh_chain-op :
      (b : Bool) (c : Bytes) → fresh_chain fc b c ≡ op_command fc (if b then flush c else create c)
  unfolding fresh_chain make_flush_chain make_create_new_chain op_command
  fresh_chain-op true c = refl
  fresh_chain-op false c = refl

  jump_to_redirect-op :
      jump_to_redirect fc false ≡ op_command fc (append prerouting_chain_name redirect_jump)
  unfolding jump_to_redirect make_jump_from_chain_to_another_for_all_protocols op_command jump_rule
  jump_to_redirect-op = refl

  jump_to_output-op :
      jump_to_output fc false ≡ op_command fc (append iptables_output_chain_name output_jump)
  unfolding jump_to_output make_jump_from_chain_to_another_for_all_protocols op_command jump_rule
  jump_to_output-op = refl

  groups-appends :
      (gs : List (List Bytes)) (c : Bytes) (cmds : List Cmd)
      → add_rules_for_groups fc gs c cmds ≡ cmds ++ appends c (map ports_rule gs)
  unfolding add_rules_for_groups make_ignore_ports op_command ports_rule
  groups-appends [] c cmds = sym (append-nil cmds)
  groups-appends (g ∷ gs) c cmds = rw (groups-appends gs, append_assoc)

  subnets-appends :
      (ss : List Bytes) (c : Bytes) (cmds : List Cmd)
      → add_rules_for_subnets fc ss c cmds ≡ cmds ++ appends c (map subnet_rule ss)
  unfolding add_rules_for_subnets make_ignore_subnet op_command subnet_rule
  subnets-appends [] c cmds = sym (append-nil cmds)
  subnets-appends (s ∷ ss) c cmds = rw (subnets-appends ss, append_assoc)

  listed-appends :
      (ps : List ℤ) (c : Bytes) (cmds : List Cmd)
      → add_rules_for_listed_ports fc ps c cmds
        ≡ cmds ++ appends c (map (redirect_listed_rule fc.proxy_inbound_port) ps)
  unfolding add_rules_for_listed_ports make_redirect_chain_to_port_based_on_destination_port
      op_command redirect_listed_rule
  listed-appends [] c cmds = sym (append-nil cmds)
  listed-appends (p ∷ ps) c cmds = rw (listed-appends ps, append_assoc)

  inbound-appends :
      (c : Bytes) (cmds : List Cmd)
      → add_rules_for_inbound_port_redirect fc c cmds ≡ cmds ++ appends c (inbound_rules fc)
  unfolding add_rules_for_inbound_port_redirect inbound_rules op_command make_redirect_chain_to_port
      redirect_rule
  inbound-appends c cmds = elim (Bool-cases (same fc.mode redirect_all_mode)) [
    | inl all_ports ↦ rw all_ports
    | inr e ↦ elim (Bool-cases (same fc.mode redirect_listed_mode)) [
      | inl listed ↦ rw (e, listed) (listed-appends fc.ports_to_redirect_inbound c cmds)
      | inr other ↦ rw (e, other) (sym (append-nil cmds))
    ]
  ]

  -- The commands for the inbound chain are those that create it or flush it, fill it with its
  -- rules in order, and link it where no link was listed.
  pub add_incoming_traffic_rules-ops :
      (existing : Bytes) (cmds : List Cmd)
      → add_incoming_traffic_rules fc existing cmds
        ≡ cmds ++ map (op_command fc) (incoming_ops fc existing)
  unfolding add_incoming_traffic_rules add_rules_for_ignored_ports add_rules_for_ignored_subnets
      incoming_ops chain_ops redirect_chain_rules
  add_incoming_traffic_rules-ops existing cmds = simp (
    groups-appends, subnets-appends, inbound-appends, add_when-append, map-if, map-append,
    append_assoc, fresh_chain-op, jump_to_redirect-op,
  )

  -- So are the commands for the outbound chain.
  pub add_outgoing_traffic_rules-ops :
      (existing : Bytes) (cmds : List Cmd)
      → add_outgoing_traffic_rules fc existing cmds
        ≡ cmds ++ map (op_command fc) (outgoing_ops fc existing)
  unfolding add_outgoing_traffic_rules add_rules_for_ignored_ports outgoing_ops chain_ops
      output_chain_rules owner_rules make_ignore_user_id make_ignore_group_id make_ignore_loopback
      owner_rule make_redirect_chain_to_port op_command loopback_rule redirect_rule
  add_outgoing_traffic_rules-ops existing cmds = simp (
    groups-appends, add_when-append, map-if, map-append, append_assoc, fresh_chain-op,
    jump_to_output-op,
  )

  pub cleanup_rules-ops : cleanup_rules fc [] ≡ map (op_command fc) cleanup_ops
  unfolding cleanup_rules op_command jump_to_redirect jump_to_output make_flush_chain
      make_delete_chain jump_rule make_jump_from_chain_to_another_for_all_protocols
  cleanup_rules-ops = refl
