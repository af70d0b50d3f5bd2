-- ===== src/Go/Strconv/RoundTrip.antt =====
-- What `Atoi` makes of the output of `Itoa`, and which bytes that output holds.
use linkerd2_proxy_init.Base.{
  ℕ, zero, suc, ◌+◌, ◌*◌, ◌/◌, ◌%◌, ◌≤◌, ◌<◌, Bytes, pos, some, [], ◌∷◌, ◌≡◌, ◌≢◌, refl, arith, All,
}
use linkerd2_proxy_init.Go.Strconv.{
  digits, format_nat, itoa, scan, magnitude, max_int, positive, atoi,
}

abbrev pub IsDigit : ℕ → Type 0
IsDigit c = (b'0' ≤ c) × (c ≤ b'9')

digits-IsDigit : (fuel n : ℕ) (out : Bytes) → All IsDigit out → All IsDigit (digits fuel n out)
unfolding digits
digits-IsDigit zero n out h = h
digits-IsDigit (suc fuel) n out h =
    ground (arith, digits-IsDigit fuel (n / 10) ((b'0' + n % 10) ∷ out))

pub format_nat-IsDigit : (n : ℕ) → All IsDigit (format_nat n)
unfolding format_nat
format_nat-IsDigit n = digits-IsDigit (suc n) n [] tt

scan_digit : (d n : ℕ) (s : Bytes) → d < 10 → scan ((b'0' + d) ∷ s) n ≡ scan s (n * 10 + d)
unfolding scan
scan_digit d n s h = ground arith

scan-digits : (fuel n : ℕ) (out : Bytes) → n < fuel → scan (digits fuel n out) 0 ≡ scan out n
unfolding digits
scan-digits zero n out h = absurd (omega arith)
scan-digits (suc fuel) n out h = ground (
  arith,
  scan-digits fuel (n / 10) ((b'0' + n % 10) ∷ out),
  scan_digit n 0 out,
  scan_digit (n % 10) (n / 10) out,
)

digits-ne-nil : (fuel n : ℕ) (out : Bytes) → out ≢ [] → digits fuel n out ≢ []
unfolding digits
digits-ne-nil zero n out h = h
digits-ne-nil (suc fuel) n out h =
    ground (arith, digits-ne-nil fuel (n / 10) ((b'0' + n % 10) ∷ out))

format_nat-ne-nil : (n : ℕ) → format_nat n ≢ []
unfolding format_nat digits
format_nat-ne-nil n = ground (arith, digits-ne-nil n (n / 10) ((b'0' + n % 10) ∷ []))

-- A text of digits has no sign, and is read as a whole.
atoi-positive : (s : Bytes) → All IsDigit s → s ≢ [] → atoi s ≡ positive (scan s 0)
unfolding atoi magnitude
atoi-positive [] h ne = absurd (ne refl)
atoi-positive (c ∷ s) h ne = ground arith

-- A number in range is read back from its decimal print.
pub atoi-itoa : (n : ℕ) → n ≤ max_int → atoi (itoa (pos n)) ≡ some (pos n)
unfolding itoa
atoi-itoa n h =
    rw (atoi-positive (format_nat n) (format_nat-IsDigit n) (format_nat-ne-nil n)) (
      unfold format_nat positive scan in rw (scan-digits (suc n) n [] (omega arith)) (ground arith))
