-- ===== src/Iptables/Families.antt =====
-- A machine with a table for each family of addresses, and what a run on one leaves of the other.
use linkerd2_proxy_init.Base.{
  Bytes, Bool, false, Option, List, [], ◌∷◌, ◌≡◌, refl, map, ◌∙◌, Option-cases, inl, inr,
  Bool-cases,
}
use mathlib.Core.List.{map-append}
use linkerd2_proxy_init.Iptables.Config.{FirewallConfiguration}
use linkerd2_proxy_init.Iptables.Run.{
  Output, or_stop, run_commands, configure_with, configure_firewall,
}
use linkerd2_proxy_init.Iptables.Fallback.{resolve_bin_fallback}
use linkerd2_proxy_init.Iptables.Chains.{Op}
use linkerd2_proxy_init.Iptables.Ops.{op_command}
use linkerd2_proxy_init.Iptables.Ops.Lists.{
  add_incoming_traffic_rules-ops, add_outgoing_traffic_rules-ops,
}
use linkerd2_proxy_init.Iptables.Host.{Host, request, listing}
use linkerd2_proxy_init.Iptables.Install.{execute_command-run}

-- The commands of either family run on one machine, and touch nothing of the other's table.
pub record DualHost (fc₄ fc₆ : FirewallConfiguration) (W E : Type 0) : Type 1 where
  pub ipv4 : Host fc₄ W E
  pub ipv6 : Host fc₆ W E
  pub shared : ipv6.run ≡ ipv4.run
  pub ipv4_applies : (w : W) (op : Op) → ipv6.chains (ipv4.run (request fc₄ op) w).1 ≡ ipv6.chains w
  pub ipv4_lists : (w : W) → ipv6.chains (ipv4.run (listing fc₄) w).1 ≡ ipv6.chains w
  pub ipv6_applies : (w : W) (op : Op) → ipv4.chains (ipv6.run (request fc₆ op) w).1 ≡ ipv4.chains w
  pub ipv6_lists : (w : W) → ipv4.chains (ipv6.run (listing fc₆) w).1 ≡ ipv4.chains w

or_stop-keeps :
    {W E K : Type 0} (f : W → K) (fc : FirewallConfiguration) (r : Output E × W)
    (rest : W → Option E × W)
    → ((w : W) → f (rest w).1 ≡ f w)
    → f (or_stop fc r rest).1 ≡ f r.1
unfolding or_stop
or_stop-keeps f fc (o, w) rest h = elim (Option-cases o.error) [
  | inl quiet ↦ rw quiet (h w)
  | inr (e, failed) ↦ elim (Bool-cases fc.continue_on_error) [
    | inl lenient ↦ rw (failed, lenient) (h w)
    | inr strict ↦ rw (failed, strict) refl
  ]
]

-- What the requests and the listing of a configuration keep, `ConfigureFirewall` keeps.
module _ {W E K : Type 0} (f : W → K) (fc : FirewallConfiguration) (host : Host fc W E)
    (real : fc.simulate_only ≡ false)
    (applies : (w : W) (op : Op) → f (host.run (request fc op) w).1 ≡ f w)
    (lists : (w : W) → f (host.run (listing fc) w).1 ≡ f w) where
  run_commands-keeps :
      (ops : List Op) (w : W) → f (run_commands host.run fc (map (op_command fc) ops) w).1 ≡ f w
  unfolding run_commands
  run_commands-keeps [] w = rw (execute_command-run fc host real) (lists w)
  run_commands-keeps (op ∷ ops) w =
      rw (execute_command-run fc host real)
        (or_stop-keeps f fc _ _ (run_commands-keeps ops) ∙ applies w op)

  pub configure_firewall-keeps :
      (has : Bytes → Bool) (fc₀ : FirewallConfiguration) (w : W)
      → resolve_bin_fallback has fc₀ ≡ fc
      → f (configure_firewall host.run has fc₀ w).1 ≡ f w
  unfolding configure_firewall configure_with
  configure_firewall-keeps has fc₀ w resolved =
      rw
        (
          resolved,
          execute_command-run fc host real,
          (host.lists w).0,
          add_incoming_traffic_rules-ops,
          add_outgoing_traffic_rules-ops,
          ← map-append,
        )
        (run_commands-keeps _ _ ∙ lists w)
