-- ===== src/Iptables/Cleanup/Tables.antt =====
-- The tables that `cleanupRules` passes through.
use linkerd2_proxy_init.Base.{
  Bytes, false, same, same_iff, Option, none, some, List, [], ◌∷◌, ◌++◌, ◌≡◌, refl, arith, sym, ap,
  ◌∙◌, append-nil,
}
use mathlib.Core.Path.{fun_ext, subst}
use linkerd2_proxy_init.Iptables.Config.{
  FirewallConfiguration, prerouting_chain_name, iptables_output_chain_name, output_chain_name,
  redirect_chain_name,
}
use linkerd2_proxy_init.Iptables.Chains.{
  Rule, Chains, Op, Step, flushed, removed, deleted, Steps, done, next, update, update-update,
  update_comm,
}
use linkerd2_proxy_init.Iptables.Ops.{
  redirect_jump, output_jump, redirect_chain_rules, output_chain_rules, cleanup_ops,
}
use linkerd2_proxy_init.Iptables.Install.{link, install, installed}
use linkerd2_proxy_init.Iptables.Cleanup.Links.{
  redirect_jump-jumps, output_jump-jumps, Unlinked, any-Unlinked, Unlinked-update, Unlinked-none,
  All-ne,
}

-- The tables that the operations pass through: `k` but for four chains.
abbrev bare : Chains → List Rule → List Rule → Option (List Rule) → Option (List Rule) → Chains
bare k ps os r o =
    update
      (update (update (update k redirect_chain_name r) prerouting_chain_name (some ps))
        output_chain_name o)
      iptables_output_chain_name (some os)

module _ (k : Chains) (ps os : List Rule) (r o : Option (List Rule)) where
  set_os :
      (os' : List Rule)
      → update (bare k ps os r o) iptables_output_chain_name (some os') ≡ bare k ps os' r o
  set_os os' = update-update _ _ _ _

  below_os :
      (c : Bytes) (v : Option (List Rule)) {k' : Chains}
      → same iptables_output_chain_name c ≡ false
      → update
          (update
            (update (update k redirect_chain_name r) prerouting_chain_name (some ps))
            output_chain_name
            o)
          c
          v
        ≡ k'
      → update (bare k ps os r o) c v ≡ update k' iptables_output_chain_name (some os)
  below_os c v ne e =
      update_comm _ _ c _ v ne ∙ ap (λ t. update t iptables_output_chain_name (some os)) e

  set_o :
      (o' : Option (List Rule)) → update (bare k ps os r o) output_chain_name o' ≡ bare k ps os r o'
  unfolding same
  set_o o' = below_os _ _ refl (update-update _ _ _ _)

  set_ps :
      (ps' : List Rule)
      → update (bare k ps os r o) prerouting_chain_name (some ps') ≡ bare k ps' os r o
  unfolding same
  set_ps ps' =
      below_os _ _ refl (
        update_comm _ _ _ _ _ refl ∙ ap (λ t. update t output_chain_name o) (update-update _ _ _ _))

  set_r :
      (r' : Option (List Rule))
      → update (bare k ps os r o) redirect_chain_name r' ≡ bare k ps os r' o
  unfolding same
  set_r r' = below_os _ _ refl (
      update_comm _ _ _ _ _ refl
      ∙ ap (λ t. update t output_chain_name o)
          (update_comm _ _ _ _ _ refl
            ∙ ap (λ t. update t prerouting_chain_name (some ps)) (update-update _ _ _ _)))

module _ (fc : FirewallConfiguration) (accepts : Chains → Rule → Type 0) (k : Chains)
    {ps os : List Rule} (hp : k prerouting_chain_name ≡ some ps)
    (ho : k iptables_output_chain_name ≡ some os) (no_redirect : k redirect_chain_name ≡ none)
    (no_output : k output_chain_name ≡ none) (free_redirect : Unlinked redirect_chain_name k)
    (free_output : Unlinked output_chain_name k) where
  installed-bare :
      installed fc k
      ≡ bare k
          (ps ++ redirect_jump ∷ [])
          (os ++ output_jump ∷ [])
          (some (redirect_chain_rules fc))
          (some (output_chain_rules fc))
  unfolding installed install link update same
  installed-bare = fun_ext λ d. ground (
    arith,
    hp,
    ho,
    any-Unlinked redirect_chain_name ps (free_redirect _ ps hp),
    any-Unlinked output_chain_name os (free_output _ os ho),
  )

  bare-Unlinked :
      (chain : Bytes) → Unlinked chain k → Unlinked chain (bare k ps os (some []) (some []))
  bare-Unlinked chain free =
      Unlinked-update chain _ _ os
        (Unlinked-update chain _ _ []
          (Unlinked-update chain _ _ ps (Unlinked-update chain _ _ [] free tt) (free _ ps hp)) tt)
        (free _ os ho)

  bare-none : bare k ps os none none ≡ k
  unfolding update
  bare-none = fun_ext λ d. ground (
    arith,
    hp,
    ho,
    no_redirect,
    no_output,
    same_iff redirect_chain_name d,
    same_iff prerouting_chain_name d,
    same_iff output_chain_name d,
    same_iff iptables_output_chain_name d,
  )

  next_at :
      {op : Op} {ops : List Op} {k₀ k₁ k₂ k₃ : Chains}
      → Step accepts k₀ op k₁
      → k₁ ≡ k₂
      → Steps accepts k₂ ops k₃
      → Steps accepts k₀ (op ∷ ops) k₃
  next_at {ops = ops} {k₃ = k₃} s e more = next s (subst (λ t. Steps accepts t ops k₃) (sym e) more)

  pub cleanup-Steps : Steps accepts (installed fc k) cleanup_ops k
  unfolding update same
  cleanup-Steps =
      let rs = redirect_chain_rules fc in
      let outs = output_chain_rules fc in
      let free = bare-Unlinked output_chain_name free_output in
      let free' =
        Unlinked-none redirect_chain_name output_chain_name _
          (bare-Unlinked redirect_chain_name free_redirect) in
      subst (λ t. Steps accepts t cleanup_ops k) (sym installed-bare)
        (next_at
          (removed ps [] refl (
            All-ne redirect_chain_name redirect_jump ps redirect_jump-jumps
              (free_redirect _ ps hp)))
          (set_ps k (ps ++ redirect_jump ∷ []) (os ++ output_jump ∷ []) (some rs) (some outs)
              (ps ++ [])
            ∙ ap (λ t. bare k t (os ++ output_jump ∷ []) (some rs) (some outs)) (append-nil ps))
          (next_at
            (removed os [] refl
              (All-ne output_chain_name output_jump os output_jump-jumps (free_output _ os ho)))
            (set_os k ps (os ++ output_jump ∷ []) (some rs) (some outs) (os ++ [])
              ∙ ap (λ t. bare k ps t (some rs) (some outs)) (append-nil os))
            (next_at (flushed {rs = outs} refl) (set_o k ps os (some rs) (some outs) (some [])) (
              next_at (flushed {rs = rs} refl) (set_r k ps os (some rs) (some []) (some [])) (
                next_at (deleted refl free) (set_o k ps os (some []) (some []) none) (
                  next_at
                    (deleted refl (
                      subst (Unlinked redirect_chain_name) (set_o k ps os (some []) (some []) none)
                        free'))
                    (set_r k ps os (some []) none none ∙ bare-none) done))))))
