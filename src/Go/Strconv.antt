-- ===== src/Go/Strconv.antt =====
-- `strconv.Itoa` and `strconv.Atoi` on a 64-bit platform.
pub mod RoundTrip
use linkerd2_proxy_init.Base.{
  ℕ, zero, suc, ◌+◌, ◌-◌, ◌*◌, ◌/◌, ◌%◌, ◌^◌, Bytes, ℤ, pos, negsuc, Option, none, some, List, [],
  ◌∷◌, ltb, leb, ◌==◌, ◌||◌, if◌then◌else◌,
}

-- The decimal digits of `n` before `out`. A number has at most as many digits as its successor,
-- so that is enough fuel.
unfoldable pub digits : ℕ → ℕ → Bytes → Bytes
digits zero n out = out
digits (suc fuel) n out =
    let more = digits fuel (n / 10) ((b'0' + n % 10) ∷ out) in
    if ltb n 10 then (b'0' + n) ∷ out else more

unfoldable pub format_nat : ℕ → Bytes
format_nat n = digits (suc n) n []

unfoldable pub itoa : ℤ → Bytes
itoa (pos n) = format_nat n
itoa (negsuc n) = b'-' ∷ format_nat (suc n)

-- The value of decimal digits read behind `n`; `none` at a byte that is no digit.
pub scan : Bytes → ℕ → Option ℕ
scan [] n = some n
scan (c ∷ s) n = if ltb c b'0' || ltb b'9' c then none else scan s (n * 10 + (c - b'0'))

-- One digit at least.
pub magnitude : Bytes → Option ℕ
magnitude [] = none
magnitude (c ∷ s) = scan (c ∷ s) 0

abbrev pub max_int : ℕ
max_int = 2 ^ 63 - 1

pub positive : Option ℕ → Option ℤ
positive none = none
positive (some n) = if leb n max_int then some (pos n) else none

pub negative : Option ℕ → Option ℤ
negative none = none
negative (some zero) = some (pos 0)
negative (some (suc n)) = if leb n max_int then some (negsuc n) else none

-- `none` stands for either error, of syntax or of range.
unfoldable pub atoi : Bytes → Option ℤ
unfolding positive negative magnitude scan
atoi [] = none
atoi (c ∷ s) =
    if c == b'-'
    then negative (magnitude s)
    else if c == b'+'
    then positive (magnitude s)
    else positive (magnitude (c ∷ s))
