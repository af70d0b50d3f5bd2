-- ===== src/Ports/Range.antt =====
-- What `ParsePortRange` accepts, and what it returns.
use linkerd2_proxy_init.Base.{
  ℕ, ◌≤◌, Bytes, ℤ, pos, negsuc, Option, none, some, List, [], ◌∷◌, ◌++◌, ok, ◌≡◌, ◌≢◌, ◌↔◌, refl,
  ap, ◌∙◌, ◌<◌, arith, All, bind_success,
}
use linkerd2_proxy_init.Go.Strconv.{atoi, itoa}
use linkerd2_proxy_init.Go.Strconv.RoundTrip.{atoi-itoa, format_nat-IsDigit, IsDigit}
use linkerd2_proxy_init.Go.Strings.{split}
use linkerd2_proxy_init.Go.Strings.Laws.{split_at, split_lacking}
use linkerd2_proxy_init.Ports.{
  PortRange, PortError, bad_lower, bad_upper, parse_port, parse_port_range, choose_bounds,
  parse_bounds, checked_port,
}

-- A text that spells a number of at most 16 bits.
abbrev pub Spells : Bytes → ℕ → Type 0
Spells s n = (atoi s ≡ some (pos n)) × (n ≤ 65535)

abbrev pub range : ℕ → ℕ → PortRange
range l u = record { lower_bound = pos l; upper_bound = pos u }

-- One bound, or two in order, with a dash between them.
pub data Denotes (s : Bytes) : PortRange → Type 0 where
  single : {a : Bytes} {n : ℕ} → split s b'-' ≡ a ∷ [] → Spells a n → Denotes s (range n n)
  double :
      {a b : Bytes} {l u : ℕ}
      → split s b'-' ≡ a ∷ b ∷ []
      → Spells a l
      → Spells b u
      → l ≤ u
      → Denotes s (range l u)

checked_port_lem :
    (e : PortError) (o : Option ℤ) (i : ℤ)
    → checked_port e o ≡ ok i
    → (n : ℕ) × (i ≡ pos n) × (o ≡ some (pos n)) × (n ≤ 65535)
unfolding checked_port
checked_port_lem e none i h = cc
checked_port_lem e (some (pos n)) i h = (n, ground arith, refl, ground arith)
checked_port_lem e (some (negsuc n)) i h = ground arith

pub Spells-checked :
    (e : PortError) (s : Bytes) (n : ℕ) → Spells s n → checked_port e (atoi s) ≡ ok (pos n)
unfolding checked_port
Spells-checked e s n (h, fits) = rw h (ground arith)

parse_bounds_sound :
    (s a b : Bytes) (r : PortRange)
    → parse_bounds s a b ≡ ok r
    → (l : ℕ) × (u : ℕ) × (r ≡ range l u) × Spells a l × Spells b u × (l ≤ u)
unfolding parse_bounds
parse_bounds_sound s a b r h =
    let (lower, h₁, lower_ok) = bind_success _ (checked_port (bad_lower a) (atoi a)) h in
    let (upper, h₂, upper_ok) = bind_success _ (checked_port (bad_upper b) (atoi b)) h₁ in
    let (l, lower_is, l_spelt, l_fits) = checked_port_lem _ _ lower lower_ok in
    let (u, upper_is, u_spelt, u_fits) = checked_port_lem _ _ upper upper_ok in
    (l, u, ground arith, (l_spelt, l_fits), (u_spelt, u_fits), ground arith)

parse_bounds_complete :
    (s a b : Bytes) (l u : ℕ)
    → Spells a l
    → Spells b u
    → l ≤ u
    → parse_bounds s a b ≡ ok (range l u)
unfolding parse_bounds
parse_bounds_complete s a b l u ha hb le =
    rw (Spells-checked _ a l ha, Spells-checked _ b u hb) (ground arith)

choose_bounds_sound :
    (s : Bytes) (bounds : List Bytes) (r : PortRange)
    → split s b'-' ≡ bounds
    → choose_bounds s bounds ≡ ok r
    → Denotes s r
unfolding choose_bounds
choose_bounds_sound s [] r e h = cc
choose_bounds_sound s (a ∷ []) r e h =
    let (l, u, r_is, ha, hb, le) = parse_bounds_sound s a a r h in
    let same_bound : l ≡ u = ground arith in rw (r_is, ← same_bound) (single e ha)
choose_bounds_sound s (a ∷ b ∷ []) r e h =
    let (l, u, r_is, ha, hb, le) = parse_bounds_sound s a b r h in rw r_is (double e ha hb le)
choose_bounds_sound s (a ∷ b ∷ c ∷ more) r e h = cc

choose_bounds_complete :
    {s : Bytes} {r : PortRange} → Denotes s r → choose_bounds s (split s b'-') ≡ ok r
unfolding choose_bounds
choose_bounds_complete {s} (single {a = a} {n = n} e h) =
    rw e (parse_bounds_complete s a a n n h h (omega arith))
choose_bounds_complete {s} (double {a = a} {b = b} {l = l} {u = u} e ha hb le) =
    rw e (parse_bounds_complete s a b l u ha hb le)

-- `ParsePortRange` accepts a text exactly when it holds one bound, or two bounds in order with a
-- dash between them, each spelling a number of at most 65535; and it returns those bounds.
pub parse_port_range-iff-Denotes :
    (s : Bytes) (r : PortRange) → (parse_port_range s ≡ ok r) ↔ Denotes s r
unfolding parse_port_range
parse_port_range-iff-Denotes s r =
    (choose_bounds_sound s (split s b'-') r refl, choose_bounds_complete)

itoa-lacks : (n d : ℕ) → d < b'0' → All (λ c. c ≢ d) (itoa (pos n))
unfolding itoa
itoa-lacks n d h = lacks _ (format_nat-IsDigit n)
  where
    lacks : (s : Bytes) → All IsDigit s → All (λ c. c ≢ d) s
    lacks [] t = tt
    lacks (c ∷ s) (hc, t) = (omega arith, lacks s t)

-- A range that is printed as its two bounds with a dash between them is read back, and so is a
-- single port printed alone, for bounds in order and of at most 16 bits.
pub parse_port_range-print :
    (l u : ℕ)
    → l ≤ u
    → u ≤ 65535
    → (parse_port_range (itoa (pos l) ++ b'-' ∷ itoa (pos u)) ≡ ok (range l u))
      × (parse_port_range (itoa (pos u)) ≡ ok (range u u))
parse_port_range-print l u le fits =
    let spelt = λ (n : ℕ) (h : n ≤ 65535). atoi-itoa n (omega arith) in
    (
      (parse_port_range-iff-Denotes _ _).1 (
          double
            (split_at (itoa (pos l)) (itoa (pos u)) b'-' (itoa-lacks l b'-' (omega arith))
              ∙ ap (λ t. itoa (pos l) ∷ t)
                  (split_lacking (itoa (pos u)) b'-' (itoa-lacks u b'-' (omega arith))))
            (spelt l (omega arith), omega arith) (spelt u fits, fits) le),
      (parse_port_range-iff-Denotes _ _).1
          (single (split_lacking _ b'-' (itoa-lacks u b'-' (omega arith))) (spelt u fits, fits)),
    )

-- `ParsePort` accepts exactly the texts that spell a number of at most 65535, and returns it.
parse_port_lem : (s : Bytes) (i : ℤ) → (parse_port s ≡ ok i) ↔ ((n : ℕ) × (i ≡ pos n) × Spells s n)
unfolding parse_port
parse_port_lem s i = (
  λ h. let (n, i_is, spelt, fits) = checked_port_lem _ _ i h in (n, i_is, (spelt, fits)),
  λ (n, i_is, h). rw i_is (Spells-checked _ s n h),
)
