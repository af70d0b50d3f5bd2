-- ===== src/Iptables/Cleanup/Again.antt =====
-- The table of a second `ConfigureFirewall`.
use linkerd2_proxy_init.Base.{
  any-append, Bytes, Bool, true, false, same, Option, none, some, List, [], ◌∷◌, ◌≡◌, refl, arith,
  any, if◌then◌else◌, ap,
}
use mathlib.Core.Option
use mathlib.Core.Path.{fun_ext}
use linkerd2_proxy_init.Iptables.Config.{
  FirewallConfiguration, prerouting_chain_name, iptables_output_chain_name, output_chain_name,
  redirect_chain_name,
}
use linkerd2_proxy_init.Iptables.Chains.{Rule, Chains, jumps_to, update}
use linkerd2_proxy_init.Iptables.Ops.{redirect_jump, output_jump}
use linkerd2_proxy_init.Iptables.Install.{link, install, installed}
use linkerd2_proxy_init.Iptables.Cleanup.Links.{redirect_jump-jumps, output_jump-jumps}

-- A linked chain is linked once.
link-link :
    (chain : Bytes) (j : Rule) (rs : List Rule)
    → jumps_to chain j ≡ true
    → link chain j (link chain j rs) ≡ link chain j rs
unfolding link any
link-link chain j rs h = ground (arith, any-append (jumps_to chain) rs (j ∷ []))

map-link :
    (chain : Bytes) (j : Rule) (o : Option (List Rule))
    → jumps_to chain j ≡ true
    → Option.map (link chain j) (Option.map (link chain j) o) ≡ Option.map (link chain j) o
map-link chain j none h = refl
map-link chain j (some rs) h = ap some (link-link chain j rs h)

-- A ladder of tests whose last branch is the ladder.
four_tests {ℓ} :
    {A : Type ℓ} (a b c d : Bool) (x y z u v : A)
    → (if a
        then x
        else if b
        then y
        else if c
        then z
        else if d
        then u
        else if a
        then x
        else if b
        then y
        else if c
        then z
        else if d
        then u
        else v)
      ≡ (if a then x else if b then y else if c then z else if d then u else v)
four_tests true b c d x y z u v = refl
four_tests false true c d x y z u v = refl
four_tests false false true d x y z u v = refl
four_tests false false false true x y z u v = refl
four_tests false false false false x y z u v = refl

pub installed-installed :
    (fc : FirewallConfiguration) (k : Chains) → installed fc (installed fc k) ≡ installed fc k
unfolding installed install update same
installed-installed fc k = fun_ext λ d.
    rw
      (
        map-link redirect_chain_name redirect_jump (k prerouting_chain_name) redirect_jump-jumps,
        map-link output_chain_name output_jump (k iptables_output_chain_name) output_jump-jumps,
      )
      (four_tests (same iptables_output_chain_name d) (same output_chain_name d)
        (same prerouting_chain_name d) (same redirect_chain_name d) _ _ _ _ _)
