-- ===== src/Iptables/Cleanup.antt =====
-- `ConfigureFirewall` again, and `CleanupFirewallConfig` behind it.
pub mod Links
pub mod Again
pub mod Tables
use linkerd2_proxy_init.Base.{
  Bytes, Bool, false, same_iff, Option, some, List, [], ◌∷◌, ◌++◌, ◌≡◌, ◌≢◌, refl, arith, All,
  if◌then◌else◌, ◌||◌, append-nil,
}
use mathlib.Core.Option
use mathlib.Core.Path.{fun_ext, subst}
use linkerd2_proxy_init.Iptables.Config.{
  FirewallConfiguration, prerouting_chain_name, iptables_output_chain_name, output_chain_name,
  redirect_chain_name,
}
use linkerd2_proxy_init.Iptables.Run.{configure_firewall}
use linkerd2_proxy_init.Iptables.Fallback.{resolve_bin_fallback}
use linkerd2_proxy_init.Iptables.Chains.{
  Rule, Chains, Op, Step, flushed, removed, deleted, Steps, done, next, update-update, update_comm,
}
use linkerd2_proxy_init.Iptables.Ops.{jump_rule, redirect_chain_rules, output_chain_rules}
use linkerd2_proxy_init.Iptables.Listing.{IsLegible}
use linkerd2_proxy_init.Iptables.Host.{Host}

module _ {W E : Type 0} (has : Bytes → Bool) (fc₀ fc : FirewallConfiguration)
    (resolved : resolve_bin_fallback has fc₀ ≡ fc) (host : Host fc W E)
    (real : fc.simulate_only ≡ false)
    (redirect_fine : All (λ r. (k : Chains) → host.accepts k r) (redirect_chain_rules fc))
    (output_fine : All (λ r. (k : Chains) → host.accepts k r) (output_chain_rules fc)) (w : W)
    {ps os : List Rule} (hp : host.chains w prerouting_chain_name ≡ some ps)
    (ho : host.chains w iptables_output_chain_name ≡ some os)
    (lp : All (IsLegible host.print redirect_chain_name) ps)
    (lo : All (IsLegible host.print output_chain_name) os) where
  abbrev configured : W
  configured = (configure_firewall host.run has fc₀ w).1
