-- ===== src/Iptables/Host.antt =====
-- What pkg/iptables/iptables.go relies on in the machine that it runs on: an interface, since
-- neither iptables nor the kernel stands in the repository.
use linkerd2_proxy_init.Base.{Bytes, Bool, true, false, Option, none, some, List, ◌≡◌, any}
use linkerd2_proxy_init.Iptables.Config.{FirewallConfiguration}
use linkerd2_proxy_init.Iptables.Commands.{Cmd, make_show_all_rules}
use linkerd2_proxy_init.Iptables.Run.{Output, in_namespace, with_wait_flag}
use linkerd2_proxy_init.Iptables.Chains.{Rule, Chains, Op, Step, jumps_to}
use linkerd2_proxy_init.Iptables.Ops.{op_command, jump_rule}
use linkerd2_proxy_init.Iptables.Listing.{Lacks, PrintsJump, Saves}

-- Whether a rule of the chain leads to the target.
abbrev pub links_to : Bytes → Option (List Rule) → Bool
links_to target none = false
links_to target (some rs) = any (jumps_to target) rs

-- The commands as the configuration has them run: with the wait flag, in the namespace.
abbrev pub listing : FirewallConfiguration → Cmd
listing fc = in_namespace fc (make_show_all_rules fc)

abbrev pub request : FirewallConfiguration → Op → Cmd
request fc op = in_namespace fc (with_wait_flag fc (op_command fc op))

pub record Host (fc : FirewallConfiguration) (W E : Type 0) : Type 1 where
  pub run : Cmd → W → Output E × W
  pub chains : W → Chains
  -- The rules that iptables takes, given the chains that a rule may have for its target.
  pub accepts : Chains → Rule → Type 0
  pub accepts_jump :
      (k : Chains) (target comment : Bytes) (rs : List Rule)
      → k target ≡ some rs
      → accepts k (jump_rule target comment)
  -- A request that is possible succeeds, and has its documented effect.
  pub applies :
      (w : W) (op : Op) (k : Chains)
      → Step accepts (chains w) op k
      → ((run (request fc op) w).0.error ≡ none) × (chains (run (request fc op) w).1 ≡ k)
  -- iptables-save succeeds, changes nothing, and prints the chains and the rules that there are: a
  -- rule that leads to a chain with `-j` and the chain's name, which holds no newline.
  pub print : Rule → Bytes
  pub prints_jump :
      (target : Bytes) (r : Rule)
      → Lacks b'\n' target
      → jumps_to target r ≡ true
      → PrintsJump target (print r)
  pub lists :
      (w : W) → ((run (listing fc) w).0.error ≡ none) × (chains (run (listing fc) w).1 ≡ chains w)
  pub saves : (w : W) → Saves print (chains w) (run (listing fc) w).0.out
