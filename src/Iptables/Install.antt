-- ===== src/Iptables/Install.antt =====
-- What `ConfigureFirewall` leaves in the table, on a host that keeps its interface.
use linkerd2_proxy_init.Base.{
  Bytes, codes, Bool, false, not, same, Option, none, some, List, [], ◌∷◌, ◌++◌, ◌≡◌, refl, All,
  any, map, if◌then◌else◌, Bool-cases, Option-cases, inl, inr, ◌∙◌, ap,
}
use mathlib.Core.Option
use mathlib.Core.List.{map-append}
use linkerd2_proxy_init.Iptables.Config.{
  FirewallConfiguration, prerouting_chain_name, iptables_output_chain_name, output_chain_name,
  redirect_chain_name,
}
use linkerd2_proxy_init.Iptables.Commands.{Cmd}
use linkerd2_proxy_init.Iptables.Run.{
  Output, in_namespace, execute_command, or_stop, run_commands, configure_with, configure_firewall,
}
use linkerd2_proxy_init.Iptables.Rules.{has_prerouting_rule, has_output_rule}
use linkerd2_proxy_init.Iptables.Fallback.{resolve_bin_fallback}
use linkerd2_proxy_init.Iptables.Chains.{
  Rule, Chains, Op, create, flush, append, Step, created, flushed, appended, Steps, done, next,
  Steps-append, Steps-appends, jumps_to, update, update_at, update-update, update_self,
}
use linkerd2_proxy_init.Iptables.Ops.{
  op_command, jump_rule, redirect_jump, output_jump, redirect_chain_rules, output_chain_rules,
  chain_ops, incoming_ops, outgoing_ops,
}
use linkerd2_proxy_init.Iptables.Ops.Lists.{
  add_incoming_traffic_rules-ops, add_outgoing_traffic_rules-ops,
}
use linkerd2_proxy_init.Iptables.Listing.{is_defined, rules_of, IsLegible}
use linkerd2_proxy_init.Iptables.Listing.Found.{
  has_redirect_chain-Saves, has_output_chain-Saves, has_prerouting_rule-Saves,
  has_output_rule-Saves,
}
use linkerd2_proxy_init.Iptables.Host.{Host, links_to, listing, request}

-- A chain whose first rules stay, with the jump behind them unless one is there.
unfoldable pub link : Bytes → Rule → List Rule → List Rule
link chain jump_to rs = if not (any (jumps_to chain) rs) then rs ++ jump_to ∷ [] else rs

-- The table with the chain holding just `rules`, and linked from its parent.
unfoldable pub install : Bytes → List Rule → Bytes → Rule → Chains → Chains
install chain rules parent jump_to k =
    update (update k chain (some rules)) parent (Option.map (link chain jump_to) (k parent))

unfoldable pub installed : FirewallConfiguration → Chains → Chains
installed fc k =
    install output_chain_name (output_chain_rules fc) iptables_output_chain_name output_jump
      (install redirect_chain_name (redirect_chain_rules fc) prerouting_chain_name redirect_jump k)

or_stop-none :
    {W E : Type 0} (fc : FirewallConfiguration) (r : Output E × W) (rest : W → Option E × W)
    → r.0.error ≡ none
    → or_stop fc r rest ≡ rest r.1
unfolding or_stop
or_stop-none fc (o, w) rest h = rw h

-- The steps that a list of operations asks for are the effect of running its commands.
module _ {W E : Type 0} (fc : FirewallConfiguration) (host : Host fc W E)
    (real : fc.simulate_only ≡ false) where
  pub execute_command-run :
      (cmd : Cmd) (w : W) → execute_command host.run fc cmd w ≡ host.run (in_namespace fc cmd) w
  unfolding execute_command
  execute_command-run cmd w = simp real

  pub run_commands-Steps :
      (ops : List Op) (w : W) {k k' : Chains}
      → host.chains w ≡ k
      → Steps host.accepts k ops k'
      → ((run_commands host.run fc (map (op_command fc) ops) w).0 ≡ none)
        × (host.chains (run_commands host.run fc (map (op_command fc) ops) w).1 ≡ k')
  unfolding run_commands
  run_commands-Steps [] w e done = (refl, rw execute_command-run ((host.lists w).1 ∙ e))
  run_commands-Steps (op ∷ ops) w e (next {k' = k₁} s more) =
      let (quiet, now) = host.applies w op k₁ (rw e s) in
      rw (execute_command-run, or_stop-none fc (host.run (request fc op) w) _ quiet)
        (run_commands-Steps ops (host.run (request fc op) w).1 now more)

update_ne :
    (k : Chains) (c d : Bytes) (v : Option (List Rule)) → same c d ≡ false → update k c v d ≡ k d
unfolding update
update_ne k c d v h = rw h

fresh-Step :
    (accepts : Chains → Rule → Type 0) (k : Chains) (chain : Bytes)
    → Step accepts k
        (if is_defined (k chain) then flush chain else create chain)
        (update k chain (some []))
fresh-Step accepts k chain = elim (Option-cases (k chain)) [
  | inl e ↦ rw e (created e)
  | inr (rs, e) ↦ rw e (flushed e)
]

link-Steps :
    (accepts : Chains → Rule → Type 0) (k : Chains) (chain parent : Bytes) (jump_to : Rule)
    (ps : List Rule)
    → k parent ≡ some ps
    → accepts k jump_to
    → Steps accepts k
        (if not (any (jumps_to chain) ps) then append parent jump_to ∷ [] else [])
        (update k parent (some (link chain jump_to ps)))
unfolding link
link-Steps accepts k chain parent jump_to ps h fine = elim (Bool-cases (any (jumps_to chain) ps)) [
  | inl linked ↦ rw (linked, update_self k parent h) done
  | inr unlinked ↦ rw unlinked (next (appended h fine) done)
]

-- The operations on one chain and on its link take the table to the one that is meant.
chain_ops-Steps :
    (accepts : Chains → Rule → Type 0) (k : Chains) (chain parent : Bytes) (rules ps : List Rule)
    (comment : Bytes)
    → k parent ≡ some ps
    → same chain parent ≡ false
    → All (λ r. (k' : Chains) → accepts k' r) rules
    → ((k' : Chains) (target comment' : Bytes) (rs : List Rule)
        → k' target ≡ some rs
        → accepts k' (jump_rule target comment'))
    → Steps accepts k
        (chain_ops
          (is_defined (k chain))
          (links_to chain (k parent))
          chain
          rules
          parent
          (jump_rule chain comment))
        (install chain rules parent (jump_rule chain comment) k)
unfolding chain_ops install
chain_ops-Steps accepts k chain parent rules ps comment is_parent ne fine fine_jump =
    let k₁ = update k chain (some rules) in
    let kept : k₁ parent ≡ some ps = update_ne k chain parent _ ne ∙ is_parent in
    let filled =
      Steps-appends accepts (update k chain (some [])) chain [] rules (update_at k chain _) fine in
    rw is_parent (
      next (fresh-Step accepts k chain) (
        Steps-append accepts (rw update-update at filled) (
          link-Steps accepts k₁ chain parent (jump_rule chain comment) ps kept
            (fine_jump k₁ chain comment rules (update_at k chain _)))))

-- How `ConfigureFirewall` is run: by the binaries that were found, not as a simulation, on a host
-- that takes the rules which the configuration asks for.
module _ {W E : Type 0} (has : Bytes → Bool) (fc₀ fc : FirewallConfiguration)
    (resolved : resolve_bin_fallback has fc₀ ≡ fc) (host : Host fc W E)
    (real : fc.simulate_only ≡ false)
    (redirect_fine : All (λ r. (k : Chains) → host.accepts k r) (redirect_chain_rules fc))
    (output_fine : All (λ r. (k : Chains) → host.accepts k r) (output_chain_rules fc)) where
  found-prerouting :
      (w : W) {ps : List Rule}
      → host.chains w prerouting_chain_name ≡ some ps
      → All (IsLegible host.print redirect_chain_name) ps
      → has_prerouting_rule (host.run (listing fc) w).0.out
        ≡ links_to redirect_chain_name (host.chains w prerouting_chain_name)
  found-prerouting w h legible =
      let rules = ap rules_of h in
      rw h (
        has_prerouting_rule-Saves host.print _ _ (host.saves w) host.prints_jump (rw rules legible)
        ∙ ap (any (jumps_to redirect_chain_name)) rules)

  found-output :
      (w : W) {os : List Rule}
      → host.chains w iptables_output_chain_name ≡ some os
      → All (IsLegible host.print output_chain_name) os
      → has_output_rule (host.run (listing fc) w).0.out
        ≡ links_to output_chain_name (host.chains w iptables_output_chain_name)
  found-output w h legible =
      let rules = ap rules_of h in
      rw h (
        has_output_rule-Saves host.print _ _ (host.saves w) host.prints_jump (rw rules legible)
        ∙ ap (any (jumps_to output_chain_name)) rules)

  incoming-Steps :
      (w : W) {ps : List Rule}
      → host.chains w prerouting_chain_name ≡ some ps
      → All (IsLegible host.print redirect_chain_name) ps
      → Steps host.accepts (host.chains w) (incoming_ops fc (host.run (listing fc) w).0.out) (
          install redirect_chain_name
            (redirect_chain_rules fc)
            prerouting_chain_name
            redirect_jump
            (host.chains w))
  unfolding incoming_ops same
  incoming-Steps w h legible =
      rw (has_redirect_chain-Saves host.print _ _ (host.saves w), found-prerouting w h legible)
        (chain_ops-Steps host.accepts (host.chains w) redirect_chain_name prerouting_chain_name
          (redirect_chain_rules fc) _ (codes "install-proxy-init-prerouting") h refl redirect_fine
          host.accepts_jump)

  outgoing-Steps :
      (w : W) (k : Chains) {os : List Rule}
      → k output_chain_name ≡ host.chains w output_chain_name
      → k iptables_output_chain_name ≡ host.chains w iptables_output_chain_name
      → host.chains w iptables_output_chain_name ≡ some os
      → All (IsLegible host.print output_chain_name) os
      → Steps host.accepts k (outgoing_ops fc (host.run (listing fc) w).0.out) (
          install output_chain_name
            (output_chain_rules fc)
            iptables_output_chain_name
            output_jump
            k)
  unfolding outgoing_ops same
  outgoing-Steps w k here parent h legible =
      rw
        (
          has_output_chain-Saves host.print _ _ (host.saves w),
          found-output w h legible,
          ← here,
          ← parent,
        )
        (chain_ops-Steps host.accepts k output_chain_name iptables_output_chain_name
          (output_chain_rules fc) _ (codes "install-proxy-init-output") (parent ∙ h) refl
          output_fine host.accepts_jump)

  pub configure_firewall-installed :
      (w : W) {ps os : List Rule}
      → host.chains w prerouting_chain_name ≡ some ps
      → host.chains w iptables_output_chain_name ≡ some os
      → All (IsLegible host.print redirect_chain_name) ps
      → All (IsLegible host.print output_chain_name) os
      → ((configure_firewall host.run has fc₀ w).0 ≡ none)
        × (host.chains (configure_firewall host.run has fc₀ w).1 ≡ installed fc (host.chains w))
  unfolding configure_firewall configure_with installed install same update
  configure_firewall-installed w hp ho lp lo =
      let (quiet, same_chains) = host.lists w in
      let steps =
        Steps-append host.accepts (incoming-Steps w hp lp) (outgoing-Steps w _ refl refl ho lo) in
      rw
        (
          resolved,
          execute_command-run fc host real,
          quiet,
          add_incoming_traffic_rules-ops,
          add_outgoing_traffic_rules-ops,
          ← map-append,
        )
        (run_commands-Steps fc host real _ _ same_chains steps)
