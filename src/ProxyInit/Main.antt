-- ===== src/ProxyInit/Main.antt =====
-- proxy-init/main.go: from the arguments to the exit code.
pub mod Laws
use linkerd2_proxy_init.Base.{ℕ, Bytes, Bool, none, some, List}
use linkerd2_proxy_init.Iptables.Commands.{Cmd}
use linkerd2_proxy_init.Iptables.Run.{Output}
use linkerd2_proxy_init.ProxyInit.Options.{RootOptions, new_root_options}
use linkerd2_proxy_init.ProxyInit.Flags.{Flag, persistent_flags}
use linkerd2_proxy_init.ProxyInit.Run.{Outcome, run_e}

-- What cobra makes of arguments: the options that the flags have been written into, a request for
-- the help text, which is printed instead of a run, or an error.
pub data Parsed : Type 0 where
  assigned : RootOptions → Parsed
  help : Parsed
  refused : Parsed

unfoldable pub exit_code : {W E : Type 0} → Outcome W E → ℕ × W
exit_code (none, w) = (0, w)
exit_code (some e, w) = (1, w)

-- `parse` stands for cobra, which is given the flags and the default values of their variables.
module _ {W E : Type 0} (run : Cmd → W → Output E × W) (has is_cidr is_level : Bytes → Bool)
    (parse : List Flag → RootOptions → List Bytes → Parsed) where
  unfoldable pub execute : Parsed → W → ℕ × W
  unfolding exit_code
  execute (assigned options) w = exit_code (run_e run has is_cidr is_level options w)
  execute help w = (0, w)
  execute refused w = (1, w)

  unfoldable pub main : List Bytes → W → ℕ × W
  main args w = execute (parse persistent_flags new_root_options args) w
