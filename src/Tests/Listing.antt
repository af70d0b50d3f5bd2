-- ===== src/Tests/Listing.antt =====
-- An iptables-save for the tests: it prints the arguments of a rule with spaces between them.
use linkerd2_proxy_init.Base.{
  ℕ, Bytes, codes, Bool, true, false, same, same_iff, List, [], ◌∷◌, ◌++◌, ◌≡◌, ◌≢◌, refl, arith,
  All, All-append, any, map, if◌then◌else◌, ◌&&◌, ◌||◌, ◌==◌, inl, inr, ◌∙◌, append_assoc,
  append-nil, sym, ap, Bool-cases,
}
use linkerd2_proxy_init.Iptables.Config.{
  prerouting_chain_name, iptables_output_chain_name, output_chain_name, redirect_chain_name,
}
use linkerd2_proxy_init.Iptables.Chains.{Rule, Chains, jumps_to}
use linkerd2_proxy_init.Iptables.Listing.{
  Line, declares, rule, other, Lacks, IsLine, render, declares_chain, specs_of, is_defined,
  rules_of, Saves, IsLead, PrintsJump,
}
use linkerd2_proxy_init.Iptables.Listing.Found.{Lacks-any, no_space, no_newline}

unfoldable pub in_line : ℕ → ℕ
in_line c = if c == b'\n' then b' ' else c

unfoldable pub show : Bytes → Bytes
show [] = codes "\"\""
show (c ∷ s) = in_line c ∷ map in_line s

unfoldable pub print : Rule → Bytes
print [] = []
print (a ∷ r) = show a ++ b' ' ∷ print r

map-in_line : (s : Bytes) → Lacks b'\n' s → map in_line s ≡ s
unfolding in_line
map-in_line [] h = refl
map-in_line (c ∷ s) (hc, h) = rw (map-in_line s h) (ground arith)

show_named : (s : Bytes) → Lacks b'\n' s → (q : Bytes) × (show s ≡ s ++ q)
unfolding show
show_named [] h = (codes "\"\"", refl)
show_named (c ∷ s) h = ([], rw (map-in_line (c ∷ s) h) (sym (append-nil _)))

show_cons : (s : Bytes) → (c : ℕ) × (m : Bytes) × (show s ≡ c ∷ m)
unfolding show
show_cons [] = (b'"', codes "\"", refl)
show_cons (c ∷ s) = (in_line c, map in_line s, refl)

IsLead-append : (s lead : Bytes) → IsLead lead → IsLead (show s ++ b' ' ∷ lead)
IsLead-append s lead (inl first) = let (c, m, is) = show_cons s in inr (c, m, rw (is, first) refl)
IsLead-append s lead (inr (c', m', behind)) =
    let (c, m, is) = show_cons s in
    inr (c, m ++ b' ' ∷ (c' ∷ m'), rw (is, behind, append_assoc m) refl)

pub prints_jump :
    (target : Bytes) (r : Rule)
    → Lacks b'\n' target
    → jumps_to target r ≡ true
    → PrintsJump target (print r)
unfolding print jumps_to
prints_jump target [] h jumps = absurd (ground arith)
prints_jump target (a ∷ []) h jumps = absurd (ground arith)
prints_jump target (a ∷ b ∷ r) h jumps = elim (Bool-cases (same a (codes "-j") && same b target)) [
  | inl here ↦
      let (q, is) = show_named target h in
      let (first, second) : (same a (codes "-j") ≡ true) × (same b target ≡ true) =
        (ground (arith, here), ground (arith, here)) in
      (
        [],
        q ++ b' ' ∷ print r,
        inl refl,
        rw ((same_iff a (codes "-j")).0 first, (same_iff b target).0 second, is)
            (unfold show in_line in rw append_assoc refl),
      )
  | inr elsewhere ↦
      let (lead, rest, il, is) = prints_jump target (b ∷ r) h (ground (arith, jumps, elsewhere)) in
      (show a ++ b' ' ∷ lead, rest, IsLead-append a lead il, rw (is, append_assoc) refl)
]

-- The lines for a chain, and those for its rules.
unfoldable pub declared : Bytes → Bool → List Line
declared c present = if present then declares c (codes "- [0:0]") ∷ [] else []

unfoldable pub ruled : Bytes → List Rule → List Line
ruled c rs = map (λ r. rule c (print r)) rs

unfoldable pub lines_of : Chains → List Line
lines_of k =
    other (codes "*nat") ∷ declared redirect_chain_name (is_defined (k redirect_chain_name))
    ++ (declared output_chain_name (is_defined (k output_chain_name))
        ++ (ruled prerouting_chain_name (rules_of (k prerouting_chain_name))
            ++ (ruled iptables_output_chain_name (rules_of (k iptables_output_chain_name))
                ++ other (codes "COMMIT") ∷ [])))

Lacks-in_line : (s : Bytes) → Lacks b'\n' (map in_line s)
unfolding in_line
Lacks-in_line [] = tt
Lacks-in_line (c ∷ s) = (ground arith, Lacks-in_line s)

Lacks-print : (r : Rule) → Lacks b'\n' (print r)
unfolding print show
Lacks-print [] = tt
Lacks-print ([] ∷ r) = (ground arith, (ground arith, (ground arith, Lacks-print r)))
Lacks-print ((c ∷ s) ∷ r) =
    All-append (λ d. d ≢ b'\n') (map in_line (c ∷ s)) _ (Lacks-in_line (c ∷ s))
      (ground arith, Lacks-print r)

declared-IsLine :
    (c : Bytes) (present : Bool) → Lacks b' ' c → Lacks b'\n' c → All IsLine (declared c present)
unfolding declared any
declared-IsLine c false h h' = tt
declared-IsLine c true h h' = ((h, h', Lacks-any b'\n' (codes "- [0:0]") refl), tt)

ruled-IsLine : (c : Bytes) (rs : List Rule) → Lacks b' ' c → Lacks b'\n' c → All IsLine (ruled c rs)
unfolding ruled
ruled-IsLine c [] h h' = tt
ruled-IsLine c (r ∷ rs) h h' = ((h, h', Lacks-print r), ruled-IsLine c rs h h')

any-declared :
    (d c : Bytes) (present : Bool) (ls : List Line)
    → any (declares_chain d) (declared c present ++ ls)
      ≡ (present && same d c) || any (declares_chain d) ls
unfolding any declared declares_chain
any-declared d c true ls = refl
any-declared d c false ls = refl

any-ruled :
    (d c : Bytes) (rs : List Rule) (ls : List Line)
    → any (declares_chain d) (ruled c rs ++ ls) ≡ any (declares_chain d) ls
unfolding any ruled declares_chain
any-ruled d c [] ls = refl
any-ruled d c (r ∷ rs) ls = any-ruled d c rs ls

specs_of-declared :
    (d c : Bytes) (present : Bool) (ls : List Line)
    → specs_of d (declared c present ++ ls) ≡ specs_of d ls
unfolding specs_of declared
specs_of-declared d c true ls = refl
specs_of-declared d c false ls = refl

specs_of-ruled :
    (d c : Bytes) (rs : List Rule) (ls : List Line)
    → specs_of d (ruled c rs ++ ls) ≡ (if same d c then map print rs else []) ++ specs_of d ls
unfolding specs_of ruled
specs_of-ruled d c [] ls = ground arith
specs_of-ruled d c (r ∷ rs) ls = rw (specs_of-ruled d c rs ls) (ground arith)

module _ (d : Bytes) (k : Chains) where
  any-lines_of :
      any (declares_chain d) (lines_of k)
      ≡ (is_defined (k redirect_chain_name) && same d redirect_chain_name)
        || ((is_defined (k output_chain_name) && same d output_chain_name) || false)
  unfolding lines_of any declares_chain
  any-lines_of =
      any-declared d redirect_chain_name (is_defined (k redirect_chain_name)) _
      ∙ ap (λ b. (is_defined (k redirect_chain_name) && same d redirect_chain_name) || b)
          (any-declared d output_chain_name (is_defined (k output_chain_name)) _
            ∙ ap (λ b. (is_defined (k output_chain_name) && same d output_chain_name) || b)
                (any-ruled d prerouting_chain_name (rules_of (k prerouting_chain_name)) _
                  ∙ any-ruled d iptables_output_chain_name (rules_of (k iptables_output_chain_name))
                      _))

  specs_of-lines_of :
      specs_of d (lines_of k)
      ≡ (if same d prerouting_chain_name
          then map print (rules_of (k prerouting_chain_name))
          else [])
        ++ ((if same d iptables_output_chain_name
              then map print (rules_of (k iptables_output_chain_name))
              else [])
            ++ [])
  unfolding lines_of specs_of
  specs_of-lines_of =
      specs_of-declared d redirect_chain_name (is_defined (k redirect_chain_name)) _
      ∙ specs_of-declared d output_chain_name (is_defined (k output_chain_name)) _
      ∙ specs_of-ruled d prerouting_chain_name (rules_of (k prerouting_chain_name)) _
      ∙ ap
          (λ specs.
            (if same d prerouting_chain_name
              then map print (rules_of (k prerouting_chain_name))
              else [])
            ++ specs)
          (specs_of-ruled d iptables_output_chain_name (rules_of (k iptables_output_chain_name)) _)

around-IsLine : IsLine (other (codes "*nat")) × IsLine (other (codes "COMMIT"))
unfolding any
around-IsLine = (
  (Lacks-any b'\n' (codes "*nat") refl, (λ e. omega arith, λ e. omega arith)),
  (Lacks-any b'\n' (codes "COMMIT") refl, (λ e. omega arith, λ e. omega arith)),
)

declared_alone :
    (b c : Bool)
    → ((b && true) || ((c && false) || false) ≡ b) × ((b && false) || ((c && true) || false) ≡ c)
declared_alone true true = (refl, refl)
declared_alone true false = (refl, refl)
declared_alone false true = (refl, refl)
declared_alone false false = (refl, refl)

pub saved : (k : Chains) → Saves print k (render (lines_of k))
unfolding lines_of same
saved k = record {
  lines = lines_of k;
  rendered = refl;
  formed = (
    around-IsLine.0,
    All-append IsLine (declared redirect_chain_name (is_defined (k redirect_chain_name))) _
        (declared-IsLine redirect_chain_name _ no_space.2 no_newline.2)
        (All-append IsLine (declared output_chain_name (is_defined (k output_chain_name))) _
          (declared-IsLine output_chain_name _ no_space.3 no_newline.3)
          (All-append IsLine (ruled prerouting_chain_name (rules_of (k prerouting_chain_name))) _
            (ruled-IsLine prerouting_chain_name _ no_space.0 no_newline.0)
            (All-append IsLine
              (ruled iptables_output_chain_name (rules_of (k iptables_output_chain_name))) _
              (ruled-IsLine iptables_output_chain_name _ no_space.1 no_newline.1)
              (around-IsLine.1, tt)))),
  );
  declared = (
    any-lines_of redirect_chain_name k ∙ (declared_alone _ _).0,
    (any-lines_of output_chain_name k ∙ (declared_alone _ _).1, tt),
  );
  listed = (
    specs_of-lines_of prerouting_chain_name k ∙ append-nil _,
    (specs_of-lines_of iptables_output_chain_name k ∙ append-nil _, tt),
  );
}
