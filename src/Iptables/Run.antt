-- ===== src/Iptables/Run.antt =====
-- `executeCommand`, `ConfigureFirewall` and `CleanupFirewallConfig`. What a command does when it is
-- run is not in the repository: `run` takes the world before it to the world after it, the output
-- and the error, and `has` stands for `exec.LookPath`.
pub mod Outcomes
use linkerd2_proxy_init.Base.{
  Bytes, codes, Bool, true, false, Option, none, some, List, [], ◌∷◌, ◌++◌, is_empty, if◌then◌else◌,
}
use linkerd2_proxy_init.Iptables.Config.{FirewallConfiguration}
use linkerd2_proxy_init.Iptables.Commands.{Cmd, command, make_show_all_rules}
use linkerd2_proxy_init.Iptables.Rules.{
  add_incoming_traffic_rules, add_outgoing_traffic_rules, cleanup_rules,
}
use linkerd2_proxy_init.Iptables.Fallback.{resolve_bin_fallback}

-- What `CombinedOutput` returns: the output, and the error if there is one.
pub record Output {ℓ} (E : Type ℓ) : Type ℓ where
  pub out : Bytes
  pub error : Option E

-- A network namespace is entered by another program.
unfoldable pub in_namespace : FirewallConfiguration → Cmd → Cmd
in_namespace fc cmd =
    if is_empty fc.net_ns
    then cmd
    else command (codes "nsenter") ((codes "--net=" ++ fc.net_ns) ∷ codes "--" ∷ cmd.args)

unfoldable pub with_wait_flag : FirewallConfiguration → Cmd → Cmd
with_wait_flag fc cmd =
    if fc.use_wait_flag then record { args = cmd.args ++ codes "-w" ∷ [] } else cmd

-- What the loop does with the error of one command.
unfoldable pub or_stop :
    {W E : Type 0} → FirewallConfiguration → Output E × W → (W → Option E × W) → Option E × W
or_stop fc (o, w) rest = elim o.error [
  | none ↦ rest w
  | some e ↦ elim fc.continue_on_error [ true ↦ rest w | false ↦ (some e, w) ]
]

module _ {W E : Type 0} (run : Cmd → W → Output E × W) where
  unfoldable pub execute_command : FirewallConfiguration → Cmd → W → Output E × W
  execute_command fc cmd w =
      if fc.simulate_only
      then (record { out = []; error = none }, w)
      else run (in_namespace fc cmd) w

  -- The loop over the commands, and the listing of the rules behind it, whose result is dropped.
  unfoldable pub run_commands : FirewallConfiguration → List Cmd → W → Option E × W
  run_commands fc [] w = (none, (execute_command fc (make_show_all_rules fc) w).1)
  run_commands fc (cmd ∷ commands) w =
      or_stop fc (execute_command fc (with_wait_flag fc cmd) w) (run_commands fc commands)

  unfoldable pub configure_with : FirewallConfiguration → Output E × W → Option E × W
  configure_with fc (o, w) = elim o.error [
    | some e ↦ (some e, w)
    | none ↦
        run_commands fc
          (add_outgoing_traffic_rules fc o.out (add_incoming_traffic_rules fc o.out [])) w
  ]

  unfoldable pub configure_firewall : (Bytes → Bool) → FirewallConfiguration → W → Option E × W
  configure_firewall has firewall_configuration w =
      let fc = resolve_bin_fallback has firewall_configuration in
      configure_with fc (execute_command fc (make_show_all_rules fc) w)

  unfoldable pub cleanup_firewall_config : (Bytes → Bool) → FirewallConfiguration → W → Option E × W
  cleanup_firewall_config has firewall_configuration w =
      let fc = resolve_bin_fallback has firewall_configuration in
      run_commands fc (cleanup_rules fc []) w
