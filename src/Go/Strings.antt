-- ===== src/Go/Strings.antt =====
-- `strings.Split`, `Join`, `HasSuffix`, `Contains`, `Replace` with a count of one,
-- `ReplaceAll`, and `TrimSpace`
-- on ASCII text.
pub mod Laws
use linkerd2_proxy_init.Base.{
  ℕ, zero, suc, ◌-◌, length, Bytes, Bool, true, false, Option, none, some, List, [], ◌∷◌, ◌++◌,
  same, leb, ◌==◌, ◌&&◌, ◌||◌, if◌then◌else◌,
}
use mathlib.Core.List.{reverse}

-- `Split(s, sep)` at a separator of one byte: at least one part.
unfoldable pub split : Bytes → ℕ → List Bytes
split [] sep = [] ∷ []
split (c ∷ s) sep = elim (split s sep) [
  | [] ↦ []
  | part ∷ parts ↦ if c == sep then [] ∷ part ∷ parts else (c ∷ part) ∷ parts
]

unfoldable pub join : List Bytes → Bytes → Bytes
join [] sep = []
join (p ∷ []) sep = p
join (p ∷ q ∷ ps) sep = p ++ (sep ++ join (q ∷ ps) sep)

-- What follows the prefix.
unfoldable pub cut_prefix : Bytes → Bytes → Option Bytes
cut_prefix [] s = some s
cut_prefix (a ∷ p) [] = none
cut_prefix (a ∷ p) (c ∷ s) = if a == c then cut_prefix p s else none

unfoldable pub has_prefix : Bytes → Bytes → Bool
unfolding cut_prefix
has_prefix s p = elim (cut_prefix p s) [ none ↦ false | some _ ↦ true ]

unfoldable pub has_suffix : Bytes → Bytes → Bool
has_suffix [] suffix = same [] suffix
has_suffix (c ∷ s) suffix = same (c ∷ s) suffix || has_suffix s suffix

unfoldable pub contains : Bytes → Bytes → Bool
unfolding has_prefix
contains [] sub = has_prefix [] sub
contains (c ∷ s) sub = has_prefix (c ∷ s) sub || contains s sub

-- `Replace(s, old, new, 1)` for an `old` that is not empty.
unfoldable pub replace_first : Bytes → Bytes → Bytes → Bytes
unfolding cut_prefix
replace_first [] old new = []
replace_first (c ∷ s) old new =
    let rest = replace_first s old new in
    elim (cut_prefix old (c ∷ s)) [ none ↦ c ∷ rest | some t ↦ new ++ t ]

-- `ReplaceAll` for an `old` that is not empty; the first argument counts the bytes that a match has
-- taken already.
replace_from : ℕ → Bytes → Bytes → Bytes → Bytes
unfolding has_prefix
replace_from skip [] old new = []
replace_from (suc skip) (c ∷ s) old new = replace_from skip s old new
replace_from zero (c ∷ s) old new =
    let replaced = new ++ replace_from (length old - 1) s old new in
    let kept = c ∷ replace_from zero s old new in if has_prefix (c ∷ s) old then replaced else kept

unfoldable pub replace_all : Bytes → Bytes → Bytes → Bytes
unfolding replace_from
replace_all s old new = replace_from zero s old new

is_space : ℕ → Bool
is_space c = c == 0x20 || (leb 0x09 c && leb c 0x0d)

trim_left : Bytes → Bytes
trim_left [] = []
trim_left (c ∷ s) = if is_space c then trim_left s else c ∷ s

unfoldable pub trim_space : Bytes → Bytes
unfolding trim_left is_space
trim_space s = reverse (trim_left (reverse (trim_left s)))
