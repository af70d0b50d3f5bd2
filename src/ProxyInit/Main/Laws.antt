-- ===== src/ProxyInit/Main/Laws.antt =====
-- When proxy-init exits with 0.
use linkerd2_proxy_init.Base.{
  Bytes, Bool, true, false, none, some, List, ◌≡◌, ◌⊎◌, inl, inr, refl, arith,
}
use linkerd2_proxy_init.Iptables.Commands.{Cmd}
use linkerd2_proxy_init.Iptables.Run.{Output}
use linkerd2_proxy_init.ProxyInit.Options.{RootOptions, new_root_options}
use linkerd2_proxy_init.ProxyInit.Flags.{Flag, persistent_flags}
use linkerd2_proxy_init.ProxyInit.Run.{Outcome, set_timeout}
use linkerd2_proxy_init.ProxyInit.Run.Laws.{Configured, Ipv6Step, run_e_success}
use linkerd2_proxy_init.ProxyInit.Main.{Parsed, assigned, help, refused, exit_code, execute, main}

module _ {W E : Type 0} (run : Cmd → W → Output E × W) (has is_cidr is_level : Bytes → Bool)
    (parse : List Flag → RootOptions → List Bytes → Parsed) where
  -- What a run has done that succeeds.
  pub record Succeeds (o : RootOptions) (w w' : W) : Type 0 where
    pub timed : W
    pub ipv4_done : W
    pub timeout_set : set_timeout run has is_cidr is_level o w ≡ (none, timed)
    pub level_known : is_level o.log_level ≡ true
    pub ipv4 : Configured run has is_cidr is_level (record o { ipv6 = false }) timed ipv4_done
    pub ipv6 : Ipv6Step run has is_cidr is_level o ipv4_done w'

  exit_code_success :
      (r : Outcome W E) (w' : W) → exit_code {W = W} {E = E} r ≡ (0, w') → r ≡ (none, w')
  unfolding exit_code
  exit_code_success (none, w) w' h = ground arith
  exit_code_success (some e, w) w' h = absurd (ground arith)

  execute_success :
      (p : Parsed) (w w' : W)
      → execute run has is_cidr is_level parse p w ≡ (0, w')
      → (p ≡ help) × (w ≡ w') ⊎ (o : RootOptions) × (p ≡ assigned o) × Succeeds o w w'
  unfolding execute
  execute_success (assigned o) w w' h =
      let (w₁, w₂, timed, known, first, second) =
        run_e_success run has is_cidr is_level o w w' (exit_code_success _ w' h) in
      inr (
        o,
        refl,
        record {
          timed = w₁;
          ipv4_done = w₂;
          timeout_set = timed;
          level_known = known;
          ipv4 = first;
          ipv6 = second;
        },
      )
  execute_success help w w' h = inl (refl, ground arith)
  execute_success refused w w' h = absurd (ground arith)

  -- If proxy-init exits with 0, then either it was asked for its help text and has done nothing, or
  -- its arguments were taken, and the run with the options that they gave has set the timeout where
  -- one is given, has a known log level, and has configured IPv4 and then, unless it is switched
  -- off, IPv6, each with success.
  pub main_success :
      (args : List Bytes) (w w' : W)
      → main run has is_cidr is_level parse args w ≡ (0, w')
      → (parse persistent_flags new_root_options args ≡ help) × (w ≡ w')
        ⊎ (o : RootOptions) × (parse persistent_flags new_root_options args ≡ assigned o)
          × Succeeds o w w'
  unfolding main
  main_success args w w' h = execute_success _ w w' h
