-- ===== src/Base.antt =====
-- The names that every module shares: the libraries', passed on, the Boolean tests, results that
-- carry an error, and the children's lists, byte strings and signed integers.
mod Tests
mod Lists
mod Text
mod Int
pub use Tests.*
unfoldable pub use Lists.*
unfoldable pub use Text.*
pub use Int.*
pub use Prim.Native.Nat.{ℕ, zero, suc, ◌+◌, ◌-◌, ◌*◌, ◌/◌, ◌%◌, ◌^◌, ◌≤◌, ◌<◌}
pub use mathlib.Core.Path.{◌≡◌, refl, sym, ap, ◌∙◌}
pub use mathlib.Core.Logic.{◌≢◌, ◌↔◌, ◌⊎◌, inl, inr}
pub use mathlib.Core.Bool.{Bool, true, false, not, ◌&&◌, ◌||◌}
pub use mathlib.Core.Option.{Option, none, some}
pub use mathlib.Core.List.{List, [], ◌∷◌, ◌++◌, append_assoc, append-nil}
unfoldable pub use mathlib.Core.List.{map, flatten}
pub use native.Mathlib.Omega.{arith}

-- A Go pair `(value, error)` of which one is meant.
pub data Result {ℓ κ} (E : Type ℓ) (A : Type κ) : Type (ℓ ⊔ κ) where
  ok : A → Result E A
  err : E → Result E A

infixl 5 ◌>>=◌
abbrev pub ◌>>=◌ {ℓ κ μ} :
    {E : Type ℓ} {A : Type κ} {B : Type μ} → Result E A → (A → Result E B) → Result E B
err problem >>= rest = err problem
ok value >>= rest = rest value

-- A chain that succeeds: what its first step returned, and how it went on from there.
pub bind_success {ℓ κ μ} :
    {E : Type ℓ} {B : Type κ} {A : Type μ} (rest : A → Result E B) (first : Result E A) {result : B}
    → (first >>= rest) ≡ ok result
    → (value : A) × (rest value ≡ ok result) × (first ≡ ok value)
bind_success rest (err e) h = cc
bind_success rest (ok value) h = (value, h, refl)

pub some_eq {ℓ} : {A : Type ℓ} {a b : A} → ◌≡◌ {A = Option A} (some a) (some b) → a ≡ b
some_eq e = ground (arith, e)
