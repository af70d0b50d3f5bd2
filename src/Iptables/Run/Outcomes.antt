-- ===== src/Iptables/Run/Outcomes.antt =====
-- How the runs of `ConfigureFirewall` and `CleanupFirewallConfig` end, whatever the commands do.
use linkerd2_proxy_init.Base.{
  Bytes, Bool, true, false, Option, none, some, List, [], ◌∷◌, ◌++◌, ◌≡◌, refl, arith, Option-cases,
  inl, inr, ap, ◌∙◌,
}
use mathlib.Core.List.{foldl}
use linkerd2_proxy_init.Iptables.Config.{FirewallConfiguration}
use linkerd2_proxy_init.Iptables.Commands.{Cmd, make_show_all_rules}
use linkerd2_proxy_init.Iptables.Fallback.{resolve_bin_fallback, use_first, candidates}
use linkerd2_proxy_init.Iptables.Run.{
  Output, with_wait_flag, execute_command, or_stop, run_commands, configure_with,
  configure_firewall, cleanup_firewall_config,
}

module _ {W E : Type 0} (run : Cmd → W → Output E × W) (fc : FirewallConfiguration) where
  -- One round of the loop.
  abbrev pub attempt : Cmd → W → Output E × W
  attempt cmd w = execute_command run fc (with_wait_flag fc cmd) w

  -- The listing at the end.
  abbrev pub list_rules : W → W
  list_rules w = (execute_command run fc (make_show_all_rules fc) w).1

  -- Every command succeeds, in order.
  pub data Quiet : List Cmd → W → W → Type 0 where
    idle : {w : W} → Quiet [] w w
    then_quiet :
        {cmd : Cmd} {cmds : List Cmd} {w w' : W}
        → (attempt cmd w).0.error ≡ none
        → Quiet cmds (attempt cmd w).1 w'
        → Quiet (cmd ∷ cmds) w w'

  pub data Outcome (cmds : List Cmd) (w : W) (r : Option E × W) : Type 0 where
    finished : {w' : W} → Quiet cmds w w' → r ≡ (none, list_rules w') → Outcome cmds w r
    stopped :
        (before rest : List Cmd) (cmd : Cmd) (w' : W) (e : E)
        → cmds ≡ before ++ cmd ∷ rest
        → Quiet before w w'
        → (attempt cmd w').0.error ≡ some e
        → r ≡ (some e, (attempt cmd w').1)
        → Outcome cmds w r

  or_stop_quiet :
      (x : Output E × W) (rest : W → Option E × W) → x.0.error ≡ none → or_stop fc x rest ≡ rest x.1
  unfolding or_stop
  or_stop_quiet (o, w) rest h = rw h

  or_stop_error :
      (x : Output E × W) (rest : W → Option E × W) {e : E}
      → fc.continue_on_error ≡ false
      → x.0.error ≡ some e
      → or_stop fc x rest ≡ (some e, x.1)
  unfolding or_stop
  or_stop_error (o, w) rest strict h = ground (arith)

  Outcome-cons :
      {cmd : Cmd} {cmds : List Cmd} {w : W} {r : Option E × W}
      → (attempt cmd w).0.error ≡ none
      → Outcome cmds (attempt cmd w).1 r
      → Outcome (cmd ∷ cmds) w r
  Outcome-cons h (finished q e) = finished (then_quiet h q) e
  Outcome-cons {cmd} h (stopped before rest failed w' error split q err_e e) =
      stopped (cmd ∷ before) rest failed w' error (ap (λ t. cmd ∷ t) split) (then_quiet h q) err_e e

  -- Unless errors are to be passed over, either every command succeeds in order and the result is
  -- success behind a last listing, or the commands before some command succeed and that one
  -- fails: then its error is the result and nothing is run behind it.
  pub run_commands-Outcome :
      (cmds : List Cmd) (w : W)
      → fc.continue_on_error ≡ false
      → Outcome cmds w (run_commands run fc cmds w)
  unfolding run_commands
  run_commands-Outcome [] w strict = finished idle refl
  run_commands-Outcome (cmd ∷ cmds) w strict = elim (Option-cases (attempt cmd w).0.error) [
    | inl quiet ↦
        rw (or_stop_quiet (attempt cmd w) _ quiet)
          (Outcome-cons quiet (run_commands-Outcome cmds (attempt cmd w).1 strict))
    | inr (e, failed) ↦
        stopped [] cmds cmd w e refl idle failed (or_stop_error (attempt cmd w) _ strict failed)
  ]

  or_stop_lenient :
      (x : Output E × W) (rest : W → Option E × W)
      → fc.continue_on_error ≡ true
      → or_stop fc x rest ≡ rest x.1
  unfolding or_stop
  or_stop_lenient (o, w) rest lenient = ground arith

  -- If errors are to be passed over, every command is run, in order, and the result is success.
  run_commands_lenient :
      (cmds : List Cmd) (w : W)
      → fc.continue_on_error ≡ true
      → run_commands run fc cmds w
        ≡ (none, list_rules (foldl (λ w' cmd. (attempt cmd w').1) w cmds))
  unfolding run_commands
  run_commands_lenient [] w lenient = refl
  run_commands_lenient (cmd ∷ cmds) w lenient =
      or_stop_lenient (attempt cmd w) _ lenient
      ∙ run_commands_lenient cmds (attempt cmd w).1 lenient

use_first_simulate :
    (has : Bytes → Bool) (pairs : List (Bytes × Bytes)) (fc : FirewallConfiguration)
    → (use_first has pairs fc).simulate_only ≡ fc.simulate_only
unfolding use_first
use_first_simulate has [] fc = refl
use_first_simulate has ((bin, save) ∷ pairs) fc = ground (arith, use_first_simulate has pairs fc)

resolve_simulate :
    (has : Bytes → Bool) (fc : FirewallConfiguration)
    → (resolve_bin_fallback has fc).simulate_only ≡ fc.simulate_only
unfolding resolve_bin_fallback
resolve_simulate has fc = ground (arith, use_first_simulate has (candidates fc) fc)

module _ {W E : Type 0} (run : Cmd → W → Output E × W) where
  simulated :
      (fc : FirewallConfiguration) (cmd : Cmd) (w : W)
      → fc.simulate_only ≡ true
      → execute_command run fc cmd w ≡ (record { out = []; error = none }, w)
  unfolding execute_command
  simulated fc cmd w h = ground arith

  run_simulated :
      (fc : FirewallConfiguration) (cmds : List Cmd) (w : W)
      → fc.simulate_only ≡ true
      → run_commands run fc cmds w ≡ (none, w)
  unfolding run_commands or_stop
  run_simulated fc [] w h = rw (simulated fc _ w h)
  run_simulated fc (cmd ∷ cmds) w h = rw (simulated fc _ w h) (run_simulated fc cmds w h)

  -- A simulation succeeds and runs nothing: the machine is as it was.
  pub simulate_only_runs_nothing :
      (has : Bytes → Bool) (fc : FirewallConfiguration) (w : W)
      → fc.simulate_only ≡ true
      → (configure_firewall run has fc w ≡ (none, w))
        × (cleanup_firewall_config run has fc w ≡ (none, w))
  unfolding configure_firewall configure_with cleanup_firewall_config
  simulate_only_runs_nothing has fc w h =
      let still = resolve_simulate has fc ∙ h in
      (
        rw (simulated (resolve_bin_fallback has fc) _ w still)
            (run_simulated (resolve_bin_fallback has fc) _ w still),
        run_simulated (resolve_bin_fallback has fc) _ w still,
      )
