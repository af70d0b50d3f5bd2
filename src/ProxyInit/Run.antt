-- ===== src/ProxyInit/Run.antt =====
-- The run of the `proxy-init` command: the `RunE` function of `NewRootCmd`.
pub mod Laws
pub mod DualStack
use linkerd2_proxy_init.Base.{
  Bytes, codes, Bool, true, false, ℤ, pos, eq_int, Option, none, some, List, [], ◌∷◌, ◌++◌, Result,
  ok, err, if◌then◌else◌,
}
use linkerd2_proxy_init.Go.Strconv.{itoa}
use linkerd2_proxy_init.Iptables.Config.{FirewallConfiguration}
use linkerd2_proxy_init.Iptables.Commands.{Cmd, command}
use linkerd2_proxy_init.Iptables.Run.{Output, configure_firewall}
use linkerd2_proxy_init.ProxyInit.Options.{RootOptions}
use linkerd2_proxy_init.ProxyInit.Build.{OptionsError, build_firewall_configuration}

-- Where an error of the command comes from.
pub data RootError (E : Type 0) : Type 0 where
  sysctl_failed firewall_failed : E → RootError E
  bad_log_level : RootError E
  bad_options : OptionsError → RootError E

unfoldable pub sysctl : RootOptions → Cmd
sysctl options = command (codes "sysctl") (
    codes "-w"
    ∷ (codes "net.netfilter.nf_conntrack_tcp_timeout_close_wait="
        ++ itoa options.timeout_close_wait_secs)
    ∷ [])

abbrev pub Outcome : Type 0 → Type 0 → Type 0
Outcome W E = Option (RootError E) × W

-- `if err != nil { return err }`
unfoldable pub then_run : {W E : Type 0} → Outcome W E → (W → Outcome W E) → Outcome W E
then_run (none, w) rest = rest w
then_run (some e, w) rest = (some e, w)

unfoldable pub tag_error : {W E : Type 0} → (E → RootError E) → Option E × W → Outcome W E
tag_error tag (none, w) = (none, w)
tag_error tag (some e, w) = (some (tag e), w)

-- `run` and `has` are those of pkg/iptables, `is_cidr` stands for `net.ParseCIDR` and `is_level` for
-- `logrus.ParseLevel`.
module _ {W E : Type 0} (run : Cmd → W → Output E × W) (has is_cidr is_level : Bytes → Bool) where
  unfoldable pub set_timeout : RootOptions → W → Outcome W E
  set_timeout options w =
      if eq_int options.timeout_close_wait_secs (pos 0)
      then (none, w)
      else (let (o, w') = run (sysctl options) w in tag_error sysctl_failed (o.error, w'))

  unfoldable pub set_log_level : Bytes → W → Outcome W E
  set_log_level log_level w = (if is_level log_level then none else some bad_log_level, w)

  unfoldable pub configure_built : Result OptionsError FirewallConfiguration → W → Outcome W E
  configure_built (err e) w = (some (bad_options e), w)
  configure_built (ok config) w = tag_error firewall_failed (configure_firewall run has config w)

  -- One family: build the configuration, then apply it.
  unfoldable pub configure_family : RootOptions → W → Outcome W E
  configure_family options = configure_built (build_firewall_configuration is_cidr options).0

  unfoldable pub run_e : RootOptions → W → Outcome W E
  run_e options w = then_run (set_timeout options w) λ w₁.
      then_run (set_log_level options.log_level w₁) λ w₂.
        then_run (configure_family (record options { ipv6 = false }) w₂)
          λ w₃. if options.ipv6 then configure_family options w₃ else (none, w₃)
