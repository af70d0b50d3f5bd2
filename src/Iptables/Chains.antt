-- ===== src/Iptables/Chains.antt =====
-- The chains of the table of address translation as iptables(8) documents them: what each of the
-- five operations that pkg/iptables/iptables.go asks for does to a table in which it succeeds.
use linkerd2_proxy_init.Base.{
  Bytes, codes, Bool, false, same, same_iff, same_refl, Option, none, some, List, [], ◌∷◌, ◌++◌,
  ◌||◌, ◌&&◌, ◌≡◌, ◌≢◌, arith, All, map, append_assoc, append-nil, if◌then◌else◌,
}
use mathlib.Core.Path.{fun_ext}

-- A rule is what follows the chain's name on the command line that appends it.
abbrev pub Rule : Type 0
Rule = List Bytes

-- The rules of each chain; `none` if there is no such chain.
abbrev pub Chains : Type 0
Chains = Bytes → Option (List Rule)

unfoldable pub update : Chains → Bytes → Option (List Rule) → Chains
update k c v d = if same c d then v else k d

pub data Op : Type 0 where
  create flush delete : Bytes → Op
  append remove : Bytes → Rule → Op

-- Whether the rule has the chain for its target.
unfoldable pub jumps_to : Bytes → Rule → Bool
jumps_to target [] = false
jumps_to target (a ∷ []) = false
jumps_to target (a ∷ b ∷ rest) =
    (same a (codes "-j") && same b target) || jumps_to target (b ∷ rest)

module _ (accepts : Chains → Rule → Type 0) where
  pub data Step (k : Chains) : Op → Chains → Type 0 where
    created : {c : Bytes} → k c ≡ none → Step k (create c) (update k c (some []))
    flushed : {c : Bytes} {rs : List Rule} → k c ≡ some rs → Step k (flush c) (update k c (some []))
    -- A chain is deleted if it is empty and no rule has it for its target.
    deleted :
        {c : Bytes}
        → k c ≡ some []
        → ((d : Bytes) (rs : List Rule) → k d ≡ some rs → All (λ r. jumps_to c r ≡ false) rs)
        → Step k (delete c) (update k c none)
    appended :
        {c : Bytes} {rs : List Rule} {r : Rule}
        → k c ≡ some rs
        → accepts k r
        → Step k (append c r) (update k c (some (rs ++ r ∷ [])))
    -- The first rule that is equal goes.
    removed :
        {c : Bytes} {r : Rule} (xs ys : List Rule)
        → k c ≡ some (xs ++ r ∷ ys)
        → All (λ x. x ≢ r) xs
        → Step k (remove c r) (update k c (some (xs ++ ys)))

  -- The operations, in order, each of which succeeds.
  pub data Steps : Chains → List Op → Chains → Type 0 where
    done : {k : Chains} → Steps k [] k
    next :
        {op : Op} {ops : List Op} {k k' k'' : Chains}
        → Step k op k'
        → Steps k' ops k''
        → Steps k (op ∷ ops) k''

  pub Steps-append :
      {k k' k'' : Chains} {os ps : List Op}
      → Steps k os k'
      → Steps k' ps k''
      → Steps k (os ++ ps) k''
  Steps-append done q = q
  Steps-append (next s p) q = next s (Steps-append p q)

pub update_at : (k : Chains) (c : Bytes) (v : Option (List Rule)) → update k c v c ≡ v
unfolding update
update_at k c v = rw same_refl

pub update-update :
    (k : Chains) (c : Bytes) (u v : Option (List Rule)) → update (update k c u) c v ≡ update k c v
unfolding update
update-update k c u v = fun_ext (λ d. ground (arith))

pub update_self : (k : Chains) (c : Bytes) {v : Option (List Rule)} → k c ≡ v → update k c v ≡ k
unfolding update
update_self k c h = fun_ext (λ d. ground (arith, same_iff c d))

-- Rules that are accepted whatever the chains hold are appended one after the other.
pub Steps-appends :
    (accepts : Chains → Rule → Type 0) (k : Chains) (c : Bytes) (rs new : List Rule)
    → k c ≡ some rs
    → All (λ r. (k' : Chains) → accepts k' r) new
    → Steps accepts k (map (append c) new) (update k c (some (rs ++ new)))
Steps-appends accepts k c rs [] h fine = rw (append-nil, update_self k c h) done
Steps-appends accepts k c rs (r ∷ new) h (fine_r, fine) =
    let k' = update k c (some (rs ++ r ∷ [])) in
    let rest = Steps-appends accepts k' c (rs ++ r ∷ []) new (update_at k c _) fine in
    next (appended h (fine_r k)) (rw (update-update, append_assoc) at rest)

pub update_comm :
    (k : Chains) (c d : Bytes) (u v : Option (List Rule))
    → same c d ≡ false
    → update (update k c u) d v ≡ update (update k d v) c u
unfolding update
update_comm k c d u v h = fun_ext (λ e. ground (arith, same_iff c e, same_iff d e, same_iff c d))
