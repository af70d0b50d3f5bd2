-- ===== src/Tests/Tables.antt =====
-- A host before its first `ConfigureFirewall`.
use linkerd2_proxy_init.Base.{
  Bytes, codes, ◌++◌, false, inr, same, none, some, List, [], ◌∷◌, ◌≡◌, refl, All, if◌then◌else◌,
}
use linkerd2_proxy_init.Iptables.Config.{
  prerouting_chain_name, iptables_output_chain_name, redirect_chain_name,
}
use linkerd2_proxy_init.Iptables.Fallback.{resolve_bin_fallback}
use linkerd2_proxy_init.Iptables.Chains.{Rule, Chains}
use linkerd2_proxy_init.Go.Strings.{contains, has_prefix, cut_prefix}
use linkerd2_proxy_init.Iptables.Listing.{IsLegible}
use linkerd2_proxy_init.Tests.Listing.{print, show, in_line}
use linkerd2_proxy_init.Tests.Configs.{config, everywhere}
use linkerd2_proxy_init.Tests.Machine.{machine}

-- A table with one foreign rule.
abbrev pub foreign : Rule
foreign = codes "-s" ∷ codes "172.17.0.0/16" ∷ codes "-j" ∷ codes "KUBE-SERVICES" ∷ []

abbrev pub table : Chains
table c =
    if same prerouting_chain_name c
    then some (foreign ∷ [])
    else if same iptables_output_chain_name c
    then some []
    else none

pub anything_goes : (rs : List Rule) → All (λ r. (k : Chains) → machine.accepts k r) rs
unfolding machine
anything_goes [] = tt
anything_goes (r ∷ rs) = (λ k. tt, anything_goes rs)

pub found : resolve_bin_fallback everywhere config ≡ config
unfolding resolve_bin_fallback
found = refl

pub here :
    (machine.chains table prerouting_chain_name ≡ some (foreign ∷ []))
    × (machine.chains table iptables_output_chain_name ≡ some [])
unfolding machine same
here = (refl, refl)

print-IsLegible :
    (target : Bytes)
    → contains (print foreign) (codes "-j " ++ target) ≡ false
    → All (IsLegible print target) (foreign ∷ [])
print-IsLegible target h = (inr h, tt)

pub foreign-IsLegible : All (IsLegible machine.print redirect_chain_name) (foreign ∷ [])
unfolding machine print show in_line contains has_prefix cut_prefix
foreign-IsLegible = print-IsLegible redirect_chain_name refl
