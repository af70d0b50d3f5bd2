-- ===== src/ProxyInit/Run/DualStack.antt =====
-- A run of proxy-init for both families of addresses.
use linkerd2_proxy_init.Base.{
  Bytes, Bool, true, false, pos, eq_int_iff, Option, none, some, List, ok, ◌≡◌, refl, sym, All, ◌∙◌,
  ap,
}
use linkerd2_proxy_init.Iptables.Config.{
  FirewallConfiguration, prerouting_chain_name, iptables_output_chain_name, output_chain_name,
  redirect_chain_name,
}
use linkerd2_proxy_init.Iptables.Fallback.{resolve_bin_fallback}
use linkerd2_proxy_init.Iptables.Run.{Output, configure_firewall}
use linkerd2_proxy_init.Iptables.Commands.{Cmd}
use linkerd2_proxy_init.Iptables.Chains.{Rule, Chains}
use linkerd2_proxy_init.Iptables.Ops.{redirect_chain_rules, output_chain_rules}
use linkerd2_proxy_init.Iptables.Listing.{IsLegible}
use linkerd2_proxy_init.Iptables.Host.{Host}
use linkerd2_proxy_init.Iptables.Install.{installed, configure_firewall-installed}
use linkerd2_proxy_init.Iptables.Families.{DualHost, configure_firewall-keeps}
use linkerd2_proxy_init.ProxyInit.Options.{RootOptions}
use linkerd2_proxy_init.ProxyInit.Build.{build_firewall_configuration}
use linkerd2_proxy_init.ProxyInit.Run.{
  then_run, tag_error, set_timeout, set_log_level, configure_built, configure_family, run_e,
}

-- What is asked for one family: the options build a configuration, whose rules the host of the
-- family takes and whose binaries, where they are found, are those of the host. In the listings of
-- PREROUTING and OUTPUT the links to the proxy's chains can be told from the other rules.
pub record IsReady {W E : Type 0} (has is_cidr : Bytes → Bool) (o : RootOptions)
    (fc : FirewallConfiguration) (host : Host fc W E) (w : W) : Type 0 where
  pub config : FirewallConfiguration
  pub built : (build_firewall_configuration is_cidr o).0 ≡ ok config
  pub resolved : resolve_bin_fallback has config ≡ fc
  pub real : fc.simulate_only ≡ false
  pub redirect_fine : All (λ r. (k : Chains) → host.accepts k r) (redirect_chain_rules fc)
  pub output_fine : All (λ r. (k : Chains) → host.accepts k r) (output_chain_rules fc)
  pub inbound_parent : List Rule
  pub has_prerouting : host.chains w prerouting_chain_name ≡ some inbound_parent
  pub inbound_legible : All (IsLegible host.print redirect_chain_name) inbound_parent
  pub outbound_parent : List Rule
  pub has_output : host.chains w iptables_output_chain_name ≡ some outbound_parent
  pub outbound_legible : All (IsLegible host.print output_chain_name) outbound_parent

-- Both families have been configured, one behind the other, each with success, and the rules stand in
-- their tables.
pub record BothInstalled {W E : Type 0} (has : Bytes → Bool) (c₄ c₆ fc₄ fc₆ : FirewallConfiguration)
    (host : DualHost fc₄ fc₆ W E) (w : W) : Type 0 where
  pub w₁ : W
  pub w₂ : W
  pub first : configure_firewall host.ipv4.run has c₄ w ≡ (none, w₁)
  pub second : configure_firewall host.ipv4.run has c₆ w₁ ≡ (none, w₂)
  pub ipv4_table : host.ipv4.chains w₂ ≡ installed fc₄ (host.ipv4.chains w)
  pub ipv6_table : host.ipv6.chains w₂ ≡ installed fc₆ (host.ipv6.chains w)

module _ {W E : Type 0} (has is_cidr : Bytes → Bool) where
  succeeded : (r : Option E × W) → r.0 ≡ none → r ≡ (none, r.1)
  succeeded (o, w) h = rw h refl

  -- The table need not be the one of the world in which the host is ready, but equal to it.
  firewall-installed :
      (o : RootOptions) (fc : FirewallConfiguration) (host : Host fc W E) (w w' : W)
      (r : IsReady has is_cidr o fc host w)
      → host.chains w' ≡ host.chains w
      → (configure_firewall host.run has r.config w'
          ≡ (none, (configure_firewall host.run has r.config w').1))
        × (host.chains (configure_firewall host.run has r.config w').1
            ≡ installed fc (host.chains w))
  firewall-installed o fc host w w' r kept =
      let (quiet, now) =
        configure_firewall-installed has r.config fc r.resolved host r.real r.redirect_fine
          r.output_fine w' (ap (λ k. k prerouting_chain_name) kept ∙ r.has_prerouting)
          (ap (λ k. k iptables_output_chain_name) kept ∙ r.has_output) r.inbound_legible
          r.outbound_legible in
      (succeeded _ quiet, now ∙ ap (installed fc) kept)

  pub both_installed :
      (o₄ o₆ : RootOptions) (fc₄ fc₆ : FirewallConfiguration) (host : DualHost fc₄ fc₆ W E) (w : W)
      (r₄ : IsReady has is_cidr o₄ fc₄ host.ipv4 w) (r₆ : IsReady has is_cidr o₆ fc₆ host.ipv6 w)
      → BothInstalled has r₄.config r₆.config fc₄ fc₆ host w
  both_installed o₄ o₆ fc₄ fc₆ host w r₄ r₆ =
      let w₁ = (configure_firewall host.ipv4.run has r₄.config w).1 in
      let w₂ = (configure_firewall host.ipv6.run has r₆.config w₁).1 in
      let kept₆ : host.ipv6.chains w₁ ≡ host.ipv6.chains w =
        configure_firewall-keeps host.ipv6.chains fc₄ host.ipv4 r₄.real host.ipv4_applies
          host.ipv4_lists has r₄.config w r₄.resolved in
      let kept₄ : host.ipv4.chains w₂ ≡ host.ipv4.chains w₁ =
        configure_firewall-keeps host.ipv4.chains fc₆ host.ipv6 r₆.real host.ipv6_applies
          host.ipv6_lists has r₆.config w₁ r₆.resolved in
      let (first, now₄) = firewall-installed o₄ fc₄ host.ipv4 w w r₄ refl in
      let (second, now₆) = firewall-installed o₆ fc₆ host.ipv6 w w₁ r₆ kept₆ in
      record {
        w₁ = w₁;
        w₂ = w₂;
        first = first;
        second = ap (λ run. configure_firewall run has r₆.config w₁) (sym host.shared) ∙ second;
        ipv4_table = kept₄ ∙ now₄;
        ipv6_table = now₆;
      }

  module _ (is_level : Bytes → Bool) (run : Cmd → W → Output E × W) where
    family_configured :
        (o : RootOptions) (c : FirewallConfiguration) (w w' : W)
        → (build_firewall_configuration is_cidr o).0 ≡ ok c
        → configure_firewall run has c w ≡ (none, w')
        → configure_family run has is_cidr is_level o w ≡ (none, w')
    unfolding configure_family configure_built tag_error
    family_configured o c w w' built applied = rw (built, applied) refl

    untimed_lem :
        (o : RootOptions) (w : W)
        → o.timeout_close_wait_secs ≡ pos 0
        → set_timeout run has is_cidr is_level o w ≡ (none, w)
    unfolding set_timeout
    untimed_lem o w h = rw ((eq_int_iff o.timeout_close_wait_secs (pos 0)).1 h) refl

    run_e_lem :
        (o : RootOptions) (w w₁ w₂ : W)
        → o.ipv6 ≡ true
        → o.timeout_close_wait_secs ≡ pos 0
        → is_level o.log_level ≡ true
        → configure_family run has is_cidr is_level (record o { ipv6 = false }) w ≡ (none, w₁)
        → configure_family run has is_cidr is_level o w₁ ≡ (none, w₂)
        → run_e run has is_cidr is_level o w ≡ (none, w₂)
    unfolding run_e set_log_level then_run
    run_e_lem o w w₁ w₂ dual untimed known first second =
        rw (untimed_lem o w untimed, known, first) (simp dual second)

  -- With IPv6 switched on, no timeout and a log level that is known, a run of proxy-init succeeds
  -- and installs the rules of either family in that family's table. It is assumed that the options
  -- build a configuration for both, that these are no simulations, and that both tables have the
  -- chains PREROUTING and OUTPUT and take the rules, and that no rule of these has `-j` and the name
  -- of the proxy's chain in its listing but those that lead to that chain.
  pub run_e-installed :
      (is_level : Bytes → Bool) (o : RootOptions) (fc₄ fc₆ : FirewallConfiguration)
      (host : DualHost fc₄ fc₆ W E) (w : W)
      → o.ipv6 ≡ true
      → o.timeout_close_wait_secs ≡ pos 0
      → is_level o.log_level ≡ true
      → IsReady has is_cidr (record o { ipv6 = false }) fc₄ host.ipv4 w
      → IsReady has is_cidr o fc₆ host.ipv6 w
      → ((run_e host.ipv4.run has is_cidr is_level o w).0 ≡ none)
        × (host.ipv4.chains (run_e host.ipv4.run has is_cidr is_level o w).1
            ≡ installed fc₄ (host.ipv4.chains w))
        × (host.ipv6.chains (run_e host.ipv4.run has is_cidr is_level o w).1
            ≡ installed fc₆ (host.ipv6.chains w))
  run_e-installed is_level o fc₄ fc₆ host w dual untimed known ready₄ ready₆ =
      let b = both_installed _ o fc₄ fc₆ host w ready₄ ready₆ in
      let run = host.ipv4.run in
      let first = family_configured is_level run _ _ w b.w₁ ready₄.built b.first in
      let second = family_configured is_level run _ _ b.w₁ b.w₂ ready₆.built b.second in
      rw (run_e_lem is_level run o w b.w₁ b.w₂ dual untimed known first second)
        (refl, b.ipv4_table, b.ipv6_table)
