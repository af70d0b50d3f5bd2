-- ===== src/Tests/Iptables.antt =====
-- Tests of pkg/iptables/iptables.go.
use linkerd2_proxy_init.Base.{
  ℕ, ◌+◌, Bytes, codes, Bool, true, same, none, some, List, [], ◌∷◌, ◌≡◌, ◌≢◌, refl, All, any,
  flatten, map,
}
use linkerd2_proxy_init.Go.Strconv.{itoa, atoi, format_nat, digits}
use linkerd2_proxy_init.Go.Strings.{split}
use linkerd2_proxy_init.Ports.{parse_port_range, choose_bounds, parse_bounds, checked_port}
use linkerd2_proxy_init.Iptables.Config.{
  FirewallConfiguration, prerouting_chain_name, redirect_chain_name,
}
use linkerd2_proxy_init.Iptables.Commands.{Cmd}
use linkerd2_proxy_init.Iptables.Multiport.{
  make_multiport_destinations, as_destination, add_ports, add_if_range, add_range,
}
use linkerd2_proxy_init.Iptables.Multiport.Groups.{valid_ranges, Fits, IsTight}
use linkerd2_proxy_init.Iptables.Multiport.Loop.{
  flatten-make_multiport_destinations, make_multiport_destinations_groups,
  make_multiport_destinations_empty,
}
use linkerd2_proxy_init.Iptables.Run.{
  Output, configure_firewall, cleanup_firewall_config, run_commands,
}
use linkerd2_proxy_init.Iptables.Run.Outcomes.{
  Outcome, run_commands-Outcome, simulate_only_runs_nothing,
}
use linkerd2_proxy_init.Iptables.Rules.{cleanup_rules, has_prerouting_rule}
use linkerd2_proxy_init.Iptables.Chains.{Chains, jumps_to}
use linkerd2_proxy_init.Go.Lines.{find_rule}
use linkerd2_proxy_init.Iptables.Listing.{render, rules_of}
use linkerd2_proxy_init.Iptables.Listing.Found.{has_prerouting_rule-Saves}
use linkerd2_proxy_init.Tests.Listing.{print, prints_jump, lines_of, saved}
use linkerd2_proxy_init.Tests.Configs.{config, everywhere}
use linkerd2_proxy_init.Tests.Machine.{machine}
use linkerd2_proxy_init.Tests.Tables.{table, foreign-IsLegible}

-- Sixteen references, in two groups.
abbrev many : List Bytes
many =
    codes "1-2"
    ∷ codes "3-4"
    ∷ codes "5-6"
    ∷ codes "7-8"
    ∷ codes "9-10"
    ∷ codes "11-12"
    ∷ codes "13-14"
    ∷ codes "x"
    ∷ codes "15-16"
    ∷ []

two_groups :
    make_multiport_destinations many
    ≡ (codes "1:2"
        ∷ codes "3:4"
        ∷ codes "5:6"
        ∷ codes "7:8"
        ∷ codes "9:10"
        ∷ codes "11:12"
        ∷ codes "13:14"
        ∷ [])
      ∷ (codes "15:16" ∷ [])
      ∷ []
unfolding make_multiport_destinations add_ports add_if_range add_range as_destination
    parse_port_range choose_bounds parse_bounds checked_port split atoi itoa format_nat digits
two_groups = refl

flatten-make_multiport_destinations_example :
    flatten (make_multiport_destinations many) ≡ map as_destination (valid_ranges many)
flatten-make_multiport_destinations_example = flatten-make_multiport_destinations many

make_multiport_destinations_groups_example :
    All Fits (make_multiport_destinations many) × IsTight (make_multiport_destinations many)
make_multiport_destinations_groups_example = make_multiport_destinations_groups many

make_multiport_destinations_empty_example :
    (valid_ranges (codes "x" ∷ []) ≢ []
      → All (λ g. g ≢ []) (make_multiport_destinations (codes "x" ∷ [])))
    × (codes "x" ∷ [] ≢ []
        → valid_ranges (codes "x" ∷ []) ≡ []
        → make_multiport_destinations (codes "x" ∷ []) ≡ [] ∷ [])
make_multiport_destinations_empty_example = make_multiport_destinations_empty (codes "x" ∷ [])

abbrev legacy6 : FirewallConfiguration
legacy6 = record config {
  bin_path = codes "ip6tables-legacy";
  save_bin_path = codes "ip6tables-legacy-save";
}

-- Only the plain binaries are on PATH.
abbrev plain_only : Bytes → Bool
plain_only name = any (same name) (codes "ip6tables" ∷ codes "ip6tables-save" ∷ [])

-- A machine on which every command fails, and is counted.
abbrev failing : Cmd → ℕ → Output ℕ × ℕ
failing cmd n = (record { out = []; error = some n }, n + 1)

run_commands-Outcome_example :
    Outcome failing config
      (cleanup_rules config [])
      0
      (run_commands failing config (cleanup_rules config []) 0)
run_commands-Outcome_example = run_commands-Outcome failing config (cleanup_rules config []) 0 refl

abbrev dry : FirewallConfiguration
dry = record config { simulate_only = true }

simulate_only_runs_nothing_example :
    (configure_firewall failing everywhere dry 7 ≡ (none, 7))
    × (cleanup_firewall_config failing everywhere dry 7 ≡ (none, 7))
simulate_only_runs_nothing_example = simulate_only_runs_nothing failing everywhere dry 7 refl

has_prerouting_rule-Saves_example :
    has_prerouting_rule (render (lines_of table))
    ≡ any (jumps_to redirect_chain_name) (rules_of (table prerouting_chain_name))
unfolding machine same
has_prerouting_rule-Saves_example =
    has_prerouting_rule-Saves print table (render (lines_of table)) (saved table) prints_jump
      foreign-IsLegible

-- Neither of these rules leads to the chain.
taken_for_links :
    (has_prerouting_rule (codes "-A PREROUTING -j PROXY_INIT_REDIRECT_OLD\n") ≡ true)
    × (has_prerouting_rule
          (codes "-A PREROUTING -m comment --comment \"not -j PROXY_INIT_REDIRECT\" -j ACCEPT\n")
        ≡ true)
unfolding has_prerouting_rule find_rule
taken_for_links = (refl, refl)

abbrev configured : Chains
configured = (configure_firewall machine.run everywhere config table).1
