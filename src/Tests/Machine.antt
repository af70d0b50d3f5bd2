-- ===== src/Tests/Machine.antt =====
-- A machine that keeps the interface of `Host`: it reads the commands and keeps the chains.
use linkerd2_proxy_init.Base.{
  Bytes, codes, Bool, true, false, same, same_iff, same_refl, none, some, List, [], ◌∷◌, ◌++◌, ◌≡◌,
  ◌≢◌, refl, arith, All, ◌&&◌, ◌||◌, if◌then◌else◌,
}
use linkerd2_proxy_init.Iptables.Commands.{Cmd, make_show_all_rules}
use linkerd2_proxy_init.Iptables.Run.{Output, in_namespace, with_wait_flag}
use linkerd2_proxy_init.Iptables.Chains.{
  Rule, Chains, Op, Step, created, flushed, deleted, appended, removed, update,
}
use linkerd2_proxy_init.Iptables.Ops.{op_command}
use linkerd2_proxy_init.Iptables.Host.{Host, request, listing}
use linkerd2_proxy_init.Iptables.Listing.{render, rules_of, Saves}
use linkerd2_proxy_init.Tests.Listing.{print, prints_jump, lines_of, saved}
use linkerd2_proxy_init.Tests.Configs.{config}

same_rule : Rule → Rule → Bool
same_rule [] [] = true
same_rule (a ∷ r) (b ∷ s) = same a b && same_rule r s
same_rule _ _ = false

same_rule_eq : (r s : Rule) → same_rule r s ≡ true → r ≡ s
unfolding same_rule
same_rule_eq [] [] h = refl
same_rule_eq [] (b ∷ s) h = absurd (ground arith)
same_rule_eq (a ∷ r) [] h = absurd (ground arith)
same_rule_eq (a ∷ r) (b ∷ s) h = ground (arith, same_rule_eq r s, same_iff a b)

same_rule_refl : (r : Rule) → same_rule r r ≡ true
unfolding same_rule
same_rule_refl [] = refl
same_rule_refl (a ∷ r) = rw (same_refl a) (same_rule_refl r)

pub remove_first : Rule → List Rule → List Rule
remove_first r [] = []
remove_first r (x ∷ xs) = if same_rule x r then xs else x ∷ remove_first r xs

remove_first_lem :
    (r : Rule) (xs ys : List Rule) → All (λ x. x ≢ r) xs → remove_first r (xs ++ r ∷ ys) ≡ xs ++ ys
unfolding remove_first
remove_first_lem r [] ys h = rw same_rule_refl
remove_first_lem r (x ∷ xs) ys (hx, h) =
    ground (arith, same_rule_eq x r, remove_first_lem r xs ys h)

abbrev pub quiet : Output (Unit {0})
quiet = record { out = []; error = none }

unfoldable pub act : List Bytes → Chains → Output (Unit {0}) × Chains
act (program ∷ t ∷ n ∷ action ∷ c ∷ rest) k =
    if same action (codes "-N") || same action (codes "-F")
    then (quiet, update k c (some []))
    else if same action (codes "-X")
    then (quiet, update k c none)
    else if same action (codes "-A")
    then (quiet, update k c (some (rules_of (k c) ++ rest ∷ [])))
    else (quiet, update k c (some (remove_first rest (rules_of (k c)))))
act _ k = (record { out = render (lines_of k); error = none }, k)

unfoldable pub machine_run : Cmd → Chains → Output (Unit {0}) × Chains
machine_run cmd k = act cmd.args k

pub applied :
    (w : Chains) (op : Op) (k : Chains)
    → Step (λ k r. Unit {0}) w op k
    → ((machine_run (request config op) w).0.error ≡ none)
      × ((machine_run (request config op) w).1 ≡ k)
unfolding machine_run act op_command in_namespace with_wait_flag same
applied w op k (created {c = c} h) = (refl, refl)
applied w op k (flushed {c = c} h) = (refl, refl)
applied w op k (deleted {c = c} h free) = (refl, refl)
applied w op k (appended {c = c} h fine) = (refl, rw h)
applied w op k (removed {c = c} {r = r} xs ys h first) =
    (refl, rw (h, remove_first_lem r xs ys first))

module _ (k : Chains) where
  pub listed :
      ((machine_run (listing config) k).0.error ≡ none) × ((machine_run (listing config) k).1 ≡ k)
  unfolding machine_run act in_namespace make_show_all_rules
  listed = (refl, refl)

  pub listed-Saves : Saves print k (machine_run (listing config) k).0.out
  unfolding machine_run act in_namespace make_show_all_rules
  listed-Saves = saved k

unfoldable pub machine : Host config Chains (Unit {0})
machine = record {
  run = machine_run;
  chains = λ k. k;
  accepts = λ k r. Unit;
  accepts_jump = λ k target comment rs h. tt;
  applies = applied;
  print = print;
  prints_jump = prints_jump;
  lists = listed;
  saves = listed-Saves;
}
