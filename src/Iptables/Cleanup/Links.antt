-- ===== src/Iptables/Cleanup/Links.antt =====
-- Chains to which no rule leads.
use linkerd2_proxy_init.Base.{
  some_eq, Bytes, true, false, same, none, some, List, [], ◌∷◌, ◌≡◌, ◌≢◌, refl, All, any,
  Bool-cases, inl, inr, ap,
}
use mathlib.Core.Path.{subst}
use linkerd2_proxy_init.Iptables.Config.{output_chain_name, redirect_chain_name}
use linkerd2_proxy_init.Iptables.Chains.{Rule, Chains, jumps_to, update}
use linkerd2_proxy_init.Iptables.Ops.{jump_rule, redirect_jump, output_jump}

pub redirect_jump-jumps : jumps_to redirect_chain_name redirect_jump ≡ true
unfolding jumps_to same jump_rule
redirect_jump-jumps = refl

pub output_jump-jumps : jumps_to output_chain_name output_jump ≡ true
unfolding jumps_to same jump_rule
output_jump-jumps = refl

-- No rule leads to the chain.
abbrev pub Unlinked : Bytes → Chains → Type 0
Unlinked chain k =
    (d : Bytes) (rs : List Rule) → k d ≡ some rs → All (λ r. jumps_to chain r ≡ false) rs

pub any-Unlinked :
    (chain : Bytes) (rs : List Rule)
    → All (λ r. jumps_to chain r ≡ false) rs
    → any (jumps_to chain) rs ≡ false
unfolding any
any-Unlinked chain [] h = refl
any-Unlinked chain (r ∷ rs) (h, hs) = rw h (any-Unlinked chain rs hs)

pub Unlinked-update :
    (chain c : Bytes) (k : Chains) (new : List Rule)
    → Unlinked chain k
    → All (λ r. jumps_to chain r ≡ false) new
    → Unlinked chain (update k c (some new))
unfolding update
Unlinked-update chain c k new free fine d rs h = elim (Bool-cases (same c d)) [
  | inl here ↦
      let e : some new ≡ some rs = (rw here at h) in
      subst (All (λ r. jumps_to chain r ≡ false)) (some_eq e) fine
  | inr elsewhere ↦ free d rs (rw elsewhere at h)
]

pub Unlinked-none :
    (chain c : Bytes) (k : Chains) → Unlinked chain k → Unlinked chain (update k c none)
unfolding update
Unlinked-none chain c k free d rs h = elim (Bool-cases (same c d)) [
  | inl here ↦ let e : none ≡ some rs = (rw here at h) in cc
  | inr elsewhere ↦ free d rs (rw elsewhere at h)
]

-- Nor is it the rule that does.
pub All-ne :
    (chain : Bytes) (j : Rule) (rs : List Rule)
    → jumps_to chain j ≡ true
    → All (λ r. jumps_to chain r ≡ false) rs
    → All (λ r. r ≢ j) rs
All-ne chain j [] hj h = tt
All-ne chain j (r ∷ rs) hj (h, hs) = (λ e. cc (ap (jumps_to chain) e), All-ne chain j rs hj hs)
