-- ===== src/Iptables/Listing/Detect.antt =====
-- What the regular expressions find in a listing.
use linkerd2_proxy_init.Base.{
  All-append, Bool-cases, ℕ, Bytes, codes, Bool, true, false, same, any, any-append, none, some,
  List, [], ◌∷◌, ◌++◌, map, All, ◌≡◌, ◌≢◌, inl, inr, refl, arith, if◌then◌else◌, ◌||◌, ◌∙◌, ap, sym,
  append_assoc,
}
use linkerd2_proxy_init.Go.Strings.{split, cut_prefix, has_prefix, contains}
use linkerd2_proxy_init.Go.Strings.Laws.{split_at}
use linkerd2_proxy_init.Go.Lines.{find_rule, find_line, after_head}
use linkerd2_proxy_init.Iptables.Chains.{Rule, jumps_to}
use linkerd2_proxy_init.Iptables.Listing.{
  Line, declares, rule, other, text_of, render, Lacks, IsLine, declares_chain, specs_of, PrintsJump,
  IsLegible,
}

cut_prefix-append : (p s : Bytes) → cut_prefix p (p ++ s) ≡ some s
unfolding cut_prefix
cut_prefix-append [] s = refl
cut_prefix-append (c ∷ p) s = rw (cut_prefix-append p s) (ground arith)

has_prefix-append : (p s : Bytes) → has_prefix (p ++ s) p ≡ true
unfolding has_prefix
has_prefix-append p s = rw (has_prefix, cut_prefix-append p s) refl

contains_prefix : (s t : Bytes) → has_prefix s t ≡ true → contains s t ≡ true
unfolding contains
contains_prefix [] t h = h
contains_prefix (c ∷ s) t h = rw h refl

contains-append : (p q s : Bytes) → contains (p ++ (q ++ s)) q ≡ true
unfolding contains
contains-append [] q s = contains_prefix (q ++ s) q (has_prefix-append q s)
contains-append (c ∷ p) q s = ground (arith, contains-append p q s)

has_prefix_tail :
    (c d : ℕ) (s t : Bytes) → has_prefix (d ∷ s) (c ∷ t) ≡ true → has_prefix s t ≡ true
unfolding has_prefix cut_prefix
has_prefix_tail c d s t h = ground (arith, h)

contains_tail : (c : ℕ) (s t : Bytes) → contains s (c ∷ t) ≡ true → contains s t ≡ true
unfolding contains
contains_tail c [] t h = absurd (unfold has_prefix cut_prefix in ground (arith, h))
contains_tail c (d ∷ s) t h =
    ground (arith, h, has_prefix_tail c d s t, contains_prefix s t, contains_tail c s t)

-- A name and a space in front.
cut_name :
    (n c s : Bytes)
    → Lacks b' ' n
    → Lacks b' ' c
    → cut_prefix (n ++ b' ' ∷ []) (c ++ b' ' ∷ s) ≡ (if same n c then some s else none)
unfolding cut_prefix same
cut_name [] [] s hn hc = refl
cut_name [] (d ∷ c) s hn (hd, hc) = ground arith
cut_name (a ∷ n) [] s (ha, hn) hc = ground arith
cut_name (a ∷ n) (d ∷ c) s (ha, hn) (hd, hc) = ground (arith, cut_name n c s hn hc)

text_of-Lacks : (l : Line) → IsLine l → Lacks b'\n' (text_of l)
unfolding text_of
text_of-Lacks (declares c rest) (_, hc, hr) =
    (λ e. omega arith, All-append (λ d. d ≢ b'\n') c _ hc (λ e. omega arith, hr))
text_of-Lacks (rule c spec) (_, hc, hs) = (
  λ e. omega arith,
  (λ e. omega arith, (λ e. omega arith, All-append (λ d. d ≢ b'\n') c _ hc (λ e. omega arith, hs))),
)
text_of-Lacks (other s) (hs, _) = hs

-- A line is a part of the text.
split-render :
    (ls : List Line) → All IsLine ls → split (render ls) b'\n' ≡ map text_of ls ++ [] ∷ []
unfolding render split
split-render [] h = refl
split-render (l ∷ ls) (hl, h) =
    split_at (text_of l) (render ls) b'\n' (text_of-Lacks l hl)
    ∙ ap (λ parts. text_of l ∷ parts) (split-render ls h)

-- The lines of a chain.
module _ (n tail : Bytes) (hn : Lacks b' ' n) where
  abbrev rule_test : Bytes → Bool
  rule_test line = after_head tail (cut_prefix (codes "-A " ++ (n ++ b' ' ∷ [])) line)

  rule_test-line :
      (l : Line)
      → IsLine l
      → rule_test (text_of l) ≡ any (λ s. after_head tail (some s)) (specs_of n (l ∷ []))
  unfolding text_of specs_of any after_head
  rule_test-line (declares c rest) h = unfold cut_prefix in refl
  rule_test-line (rule c spec) (hc, h, h') =
      unfold cut_prefix in rw (cut_name n c spec hn hc) (ground arith)
  rule_test-line (other []) h = unfold cut_prefix in refl
  rule_test-line (other (c ∷ s)) (_, (hd, hc)) = unfold cut_prefix in ground arith

  specs_of-cons :
      (l : Line) (ls : List Line) → specs_of n (l ∷ ls) ≡ specs_of n (l ∷ []) ++ specs_of n ls
  unfolding specs_of
  specs_of-cons (declares c rest) ls = refl
  specs_of-cons (rule c spec) ls = ground arith
  specs_of-cons (other s) ls = refl

  any-rule_test :
      (ls : List Line)
      → All IsLine ls
      → any rule_test (map text_of ls ++ [] ∷ [])
        ≡ any (λ s. after_head tail (some s)) (specs_of n ls)
  unfolding any specs_of
  any-rule_test [] h = unfold after_head cut_prefix in refl
  any-rule_test (l ∷ ls) (hl, h) =
      let specs_any =
        any-append (λ s. after_head tail (some s)) (specs_of n (l ∷ [])) (specs_of n ls) in
      ap (λ b. b || any rule_test (map text_of ls ++ [] ∷ [])) (rule_test-line l hl)
      ∙ ap (λ b. any (λ s. after_head tail (some s)) (specs_of n (l ∷ [])) || b)
          (any-rule_test ls h)
      ∙ sym specs_any
      ∙ ap (any (λ s. after_head tail (some s))) (sym (specs_of-cons l ls))

  pub find_rule-specs :
      (ls : List Line)
      → All IsLine ls
      → find_rule (codes "-A " ++ (n ++ b' ' ∷ [])) tail (render ls)
        ≡ any (λ s. after_head tail (some s)) (specs_of n ls)
  unfolding find_rule
  find_rule-specs ls h = rw (split-render ls h) (any-rule_test ls h)

-- What the program finds of a rule.
after_head-PrintsJump :
    (target spec : Bytes)
    → PrintsJump target spec
    → after_head (codes "-j " ++ target) (some spec) ≡ true
unfolding after_head
after_head-PrintsJump target spec (lead, rest, inl first, is) =
    rw (is, first, has_prefix-append (codes "-j " ++ target) rest) refl
after_head-PrintsJump target spec (lead, rest, inr (c, m, behind), is) =
    let within = contains-append m (b' ' ∷ codes "-j " ++ target) rest in
    rw (is, behind, append_assoc m) (ground (arith, within))

after_head-legible :
    (tail spec : Bytes) → contains spec tail ≡ false → after_head tail (some spec) ≡ false
unfolding after_head contains
after_head-legible tail [] h = h
after_head-legible tail (c ∷ s) h = ground (arith, h, contains_tail b' ' s tail)

module _ (print : Rule → Bytes) (target : Bytes)
    (prints : (r : Rule) → jumps_to target r ≡ true → PrintsJump target (print r)) where
  after_head-jumps_to :
      (r : Rule)
      → IsLegible print target r
      → after_head (codes "-j " ++ target) (some (print r)) ≡ jumps_to target r
  after_head-jumps_to r (inl jumps) =
      after_head-PrintsJump target (print r) (prints r jumps) ∙ sym jumps
  after_head-jumps_to r (inr legible) = elim (Bool-cases (jumps_to target r)) [
    | inl jumps ↦ after_head-PrintsJump target (print r) (prints r jumps) ∙ sym jumps
    | inr not_jumping ↦ after_head-legible _ (print r) legible ∙ sym not_jumping
  ]

  pub any-jumps_to :
      (rs : List Rule)
      → All (IsLegible print target) rs
      → any (λ s. after_head (codes "-j " ++ target) (some s)) (map print rs)
        ≡ any (jumps_to target) rs
  unfolding any
  any-jumps_to [] h = refl
  any-jumps_to (r ∷ rs) (hr, h) = rw (after_head-jumps_to r hr, any-jumps_to rs h) refl

-- The lines that declare a chain.
has_prefix-declared :
    (n : Bytes) (l : Line)
    → Lacks b' ' n
    → IsLine l
    → has_prefix (text_of l) (b':' ∷ (n ++ b' ' ∷ [])) ≡ declares_chain n l
unfolding has_prefix text_of declares_chain
has_prefix-declared n (declares c rest) hn (hc, h, h') =
    unfold cut_prefix in rw (has_prefix, cut_name n c rest hn hc) (ground arith)
has_prefix-declared n (rule c spec) hn h = unfold cut_prefix in refl
has_prefix-declared n (other []) hn h = unfold cut_prefix in refl
has_prefix-declared n (other (c ∷ s)) hn (_, (hd, hc)) = unfold cut_prefix in ground arith

pub find_line-declared :
    (n : Bytes) (ls : List Line)
    → Lacks b' ' n
    → All IsLine ls
    → find_line (b':' ∷ (n ++ b' ' ∷ [])) (render ls) ≡ any (declares_chain n) ls
unfolding find_line
find_line-declared n ls hn h = rw (split-render ls h) (go ls h)
  where
    go :
        (ls : List Line)
        → All IsLine ls
        → any (λ line. has_prefix line (b':' ∷ (n ++ b' ' ∷ []))) (map text_of ls ++ [] ∷ [])
          ≡ any (declares_chain n) ls
    go [] h = unfold any has_prefix cut_prefix in refl
    go (l ∷ ls) (hl, h) = unfold any in rw (has_prefix-declared n l hn hl, go ls h) refl
