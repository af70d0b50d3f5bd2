-- ===== src/Iptables/Multiport/Groups.antt =====
-- What the groups of destinations hold: every range that parses, in order, and no group more port
-- references than one command can take.
use linkerd2_proxy_init.Base.{
  ℕ, suc, ◌+◌, ◌≤◌, ◌<◌, Bytes, ◌==◌, ℤ, pos, negsuc, List, [], ◌∷◌, ◌++◌, Result, ok, err, ◌≡◌,
  refl, arith, All, if◌then◌else◌,
}
use linkerd2_proxy_init.Go.Strconv.{itoa}
use linkerd2_proxy_init.Go.Strconv.RoundTrip.{IsDigit, format_nat-IsDigit}
use linkerd2_proxy_init.Ports.{PortRange, PortError, parse_port_range}
use linkerd2_proxy_init.Iptables.Config.{multiport_limit}
use linkerd2_proxy_init.Iptables.Multiport.{as_destination, port_count}

-- The ranges among the texts.
abbrev pub keep_range : Result PortError PortRange → List PortRange → List PortRange
keep_range (ok r) rs = r ∷ rs
keep_range (err e) rs = rs

unfoldable pub valid_ranges : List Bytes → List PortRange
valid_ranges [] = []
valid_ranges (p ∷ ps) = keep_range (parse_port_range p) (valid_ranges ps)

-- The port references that iptables reads in a destination: two around each colon.
unfoldable pub colons : Bytes → ℕ
colons [] = 0
colons (c ∷ s) = (if c == b':' then 1 else 0) + colons s

unfoldable pub references : List Bytes → ℕ
references [] = 0
references (d ∷ ds) = 1 + colons d + references ds

pub references-one : (d : Bytes) → references (d ∷ []) ≡ 1 + colons d
unfolding references
references-one d = omega arith

pub references-append : (ds es : List Bytes) → references (ds ++ es) ≡ references ds + references es
unfolding references
references-append [] es = omega arith
references-append (d ∷ ds) es = omega (arith, references-append ds es)

pub colons-append : (s t : Bytes) → colons (s ++ t) ≡ colons s + colons t
unfolding colons
colons-append [] t = omega arith
colons-append (c ∷ s) t = omega (arith, colons-append s t)

colons_digits : (s : Bytes) → All IsDigit s → colons s ≡ 0
unfolding colons
colons_digits [] h = refl
colons_digits (c ∷ s) (hc, hs) = ground (arith, colons_digits s hs)

colons-itoa : (i : ℤ) → colons (itoa i) ≡ 0
unfolding itoa colons
colons-itoa (pos n) = colons_digits _ (format_nat-IsDigit n)
colons-itoa (negsuc n) = ground (arith, colons_digits _ (format_nat-IsDigit (suc n)))

colons-colon : (s : Bytes) → colons (b':' ∷ s) ≡ 1 + colons s
unfolding colons
colons-colon s = refl

-- The count that the loop keeps is the count of references in what it writes.
pub references-as_destination : (r : PortRange) → 1 + colons (as_destination r) ≡ port_count r
unfolding as_destination port_count
references-as_destination r = ground (
  arith,
  colons-append (itoa r.lower_bound) (b':' ∷ itoa r.upper_bound),
  colons-colon (itoa r.upper_bound),
  colons-itoa r.lower_bound,
  colons-itoa r.upper_bound,
)

abbrev pub Fits : List Bytes → Type 0
Fits group = references group ≤ multiport_limit

-- No group could have taken the first destination of the next one.
abbrev pub Overflows : List Bytes → List Bytes → Type 0
Overflows group [] = ⊥
Overflows group (d ∷ ds) = multiport_limit < references group + (1 + colons d)

abbrev pub IsTight : List (List Bytes) → Type 0
IsTight [] = Unit
IsTight (g ∷ []) = Unit
IsTight (g ∷ h ∷ gs) = Overflows g h × IsTight (h ∷ gs)

pub IsTight-extend :
    (gs : List (List Bytes)) (d : Bytes) (ds : List Bytes) (e : Bytes)
    → IsTight (gs ++ (d ∷ ds) ∷ [])
    → IsTight (gs ++ (d ∷ ds ++ e ∷ []) ∷ [])
IsTight-extend [] d ds e h = tt
IsTight-extend (g ∷ []) d ds e h = h
IsTight-extend (g ∷ g' ∷ gs) d ds e (over, h) = (over, IsTight-extend (g' ∷ gs) d ds e h)

pub IsTight-close :
    (gs : List (List Bytes)) (g : List Bytes) (e : Bytes)
    → multiport_limit < references g + (1 + colons e)
    → IsTight (gs ++ g ∷ [])
    → IsTight ((gs ++ g ∷ []) ++ (e ∷ []) ∷ [])
IsTight-close [] g e over h = (over, tt)
IsTight-close (g' ∷ []) g e over (o, h) = (o, IsTight-close [] g e over h)
IsTight-close (g' ∷ g'' ∷ gs) g e over (o, h) = (o, IsTight-close (g'' ∷ gs) g e over h)
