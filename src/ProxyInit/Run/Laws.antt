-- ===== src/ProxyInit/Run/Laws.antt =====
-- What a run of the command comes to.
use linkerd2_proxy_init.Base.{
  Bytes, Bool, true, false, pos, eq_int, Option, none, some, Result, ok, err, ◌≡◌, ◌⊎◌, refl, arith,
  if◌then◌else◌, ap, ◌∙◌, Bool-cases, inl, inr,
}
use linkerd2_proxy_init.Iptables.Config.{FirewallConfiguration}
use linkerd2_proxy_init.Iptables.Commands.{Cmd}
use linkerd2_proxy_init.Iptables.Run.{Output, configure_firewall}
use linkerd2_proxy_init.Iptables.Run.Outcomes.{simulate_only_runs_nothing}
use linkerd2_proxy_init.ProxyInit.Options.{RootOptions}
use linkerd2_proxy_init.ProxyInit.Build.{OptionsError, build_firewall_configuration, with_subnets}
use linkerd2_proxy_init.ProxyInit.Build.Laws.{build_firewall_configuration-iff-Builds}
use linkerd2_proxy_init.ProxyInit.Run.{
  firewall_failed, sysctl, Outcome, then_run, tag_error, set_timeout, set_log_level,
  configure_built, configure_family, run_e,
}

module _ {W E : Type 0} (run : Cmd → W → Output E × W) (has is_cidr is_level : Bytes → Bool) where
  -- A family is configured: its configuration is built, and applied with success.
  pub record Configured (o : RootOptions) (w w' : W) : Type 0 where
    pub config : FirewallConfiguration
    pub built : (build_firewall_configuration is_cidr o).0 ≡ ok config
    pub applied : configure_firewall run has config w ≡ (none, w')

  configure_family_success :
      (o : RootOptions) (w w' : W)
      → configure_family run has is_cidr is_level o w ≡ (none, w')
      → Configured o w w'
  unfolding configure_family configure_built tag_error
  configure_family_success o w w' h = inspect (build_firewall_configuration is_cidr o).0 refl h
    where
      tagged :
          (x : Option E × W) → tag_error {W = W} firewall_failed x ≡ (none, w') → x ≡ (none, w')
      tagged (none, w₁) h = ground arith
      tagged (some e, w₁) h = absurd (ground arith)

      inspect :
          (r : Result OptionsError FirewallConfiguration)
          → (build_firewall_configuration is_cidr o).0 ≡ r
          → configure_built run has is_cidr is_level r w ≡ (none, w')
          → Configured o w w'
      inspect (err e) is_r h = absurd (ground arith)
      inspect (ok config) is_r h = record {
        config = config;
        built = is_r;
        applied = tagged (configure_firewall run has config w) h;
      }

  then_run_success :
      (x : Outcome W E) (rest : W → Outcome W E) {w' : W}
      → then_run x rest ≡ (none, w')
      → (w₁ : W) × (x ≡ (none, w₁)) × (rest w₁ ≡ (none, w'))
  unfolding then_run
  then_run_success (none, w₁) rest h = (w₁, refl, h)
  then_run_success (some e, w₁) rest h = absurd (ground arith)

  -- How the IPv6 rules follow the IPv4 rules.
  abbrev pub Ipv6Step : RootOptions → W → W → Type 0
  Ipv6Step o w w' = (o.ipv6 ≡ false) × (w ≡ w') ⊎ (o.ipv6 ≡ true) × Configured o w w'

  set_log_level_success :
      (level : Bytes) (w w' : W)
      → set_log_level run has is_cidr is_level level w ≡ (none, w')
      → (is_level level ≡ true) × (w ≡ w')
  unfolding set_log_level
  set_log_level_success level w w' h = ground arith

  ipv6_step :
      (o : RootOptions) (w w' : W)
      → (if o.ipv6 then configure_family run has is_cidr is_level o w else (none, w)) ≡ (none, w')
      → Ipv6Step o w w'
  ipv6_step o w w' h = elim (Bool-cases o.ipv6) [
    | inl dual ↦ inr (dual, configure_family_success o w w' (simp dual at h))
    | inr single ↦ inl (single, ap (λ (x : Outcome W E). x.1) (simp single at h))
  ]

  -- A run that succeeds has set the timeout, if one is asked for, has been given a log level, and
  -- has configured IPv4 and then, unless it is switched off, IPv6, each with success.
  pub run_e_success :
      (o : RootOptions) (w w' : W)
      → run_e run has is_cidr is_level o w ≡ (none, w')
      → (w₁ : W) × (w₂ : W) × (set_timeout run has is_cidr is_level o w ≡ (none, w₁))
        × (is_level o.log_level ≡ true)
        × Configured (record o { ipv6 = false }) w₁ w₂
        × Ipv6Step o w₂ w'
  unfolding run_e
  run_e_success o w w' h =
      let (w₁, timed, h₁) = then_run_success (set_timeout run has is_cidr is_level o w) _ h in
      let (w₁', levelled, h₂) = then_run_success _ _ h₁ in
      let (known, still) = set_log_level_success o.log_level w₁ w₁' levelled in
      let (w₂, configured, h₃) = then_run_success _ _ h₂ in
      (
        w₁',
        w₂,
        timed ∙ ap (λ (x : W). (none, x)) still,
        known,
        configure_family_success _ _ _ configured,
        ipv6_step o w₂ w' h₃,
      )

  unmoved :
      (x : Outcome W E) (rest : W → Outcome W E)
      → ((w : W) → (rest w).1 ≡ w)
      → (then_run x rest).1 ≡ x.1
  unfolding then_run
  unmoved (none, w) rest h = h w
  unmoved (some e, w) rest h = refl

  configure_built_simulated :
      (r : Result OptionsError FirewallConfiguration) (w : W)
      → ((fc : FirewallConfiguration) → r ≡ ok fc → fc.simulate_only ≡ true)
      → (configure_built run has is_cidr is_level r w).1 ≡ w
  unfolding configure_built tag_error
  configure_built_simulated (err e) w h = refl
  configure_built_simulated (ok fc) w h = rw (simulate_only_runs_nothing run has fc w (h fc refl)).0

  configure_family_simulated :
      (o : RootOptions) (w : W)
      → o.simulate_only ≡ true
      → (configure_family run has is_cidr is_level o w).1 ≡ w
  unfolding configure_family with_subnets
  configure_family_simulated o w h = configure_built_simulated _ w (λ fc e.
      ap (λ (f : FirewallConfiguration). f.simulate_only)
        ((build_firewall_configuration-iff-Builds is_cidr o fc).0 e).result
      ∙ h)

  -- Under `--simulate` no iptables command is run, whatever the options; but where a timeout is
  -- given, sysctl is run all the same, and nothing else is.
  pub run_e_simulated :
      (o : RootOptions) (w : W)
      → o.simulate_only ≡ true
      → (run_e run has is_cidr is_level o w).1
        ≡ (if eq_int o.timeout_close_wait_secs (pos 0) then w else (run (sysctl o) w).1)
  unfolding run_e set_log_level set_timeout tag_error
  run_e_simulated o w h =
      unmoved (set_timeout run has is_cidr is_level o w) _ (λ w₁.
        unmoved (set_log_level run has is_cidr is_level o.log_level w₁) _ (λ w₂.
          unmoved (configure_family run has is_cidr is_level _ w₂) _ (λ w₃. last w₃)
          ∙ configure_family_simulated _ w₂ h)
        ∙ refl)
      ∙ timeout_world
    where
      last :
          (w₃ : W)
          → (if o.ipv6 then configure_family run has is_cidr is_level o w₃ else (none, w₃)).1 ≡ w₃
      last w₃ = elim (Bool-cases o.ipv6) [
        | inl dual ↦ simp dual (configure_family_simulated o w₃ h)
        | inr single ↦ simp single
      ]

      timeout_world :
          (set_timeout run has is_cidr is_level o w).1
          ≡ (if eq_int o.timeout_close_wait_secs (pos 0) then w else (run (sysctl o) w).1)
      timeout_world = ground arith
