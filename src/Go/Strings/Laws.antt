-- ===== src/Go/Strings/Laws.antt =====
-- Splitting and joining.
use linkerd2_proxy_init.Base.{ℕ, Bytes, [], ◌∷◌, ◌++◌, ◌≡◌, ◌≢◌, refl, arith, All}
use linkerd2_proxy_init.Go.Strings.{split}

-- A text without the separator is one part.
pub split_lacking : (s : Bytes) (sep : ℕ) → All (λ c. c ≢ sep) s → split s sep ≡ s ∷ []
unfolding split
split_lacking [] sep h = refl
split_lacking (c ∷ s) sep (hc, hs) = rw (split_lacking s sep hs) (ground arith)

split-ne-nil : (s : Bytes) (sep : ℕ) → split s sep ≢ []
unfolding split
split-ne-nil [] sep = ground arith
split-ne-nil (c ∷ s) sep = ground (arith, split-ne-nil s sep)

-- A part without the separator, then the separator.
pub split_at :
    (p s : Bytes) (sep : ℕ) → All (λ c. c ≢ sep) p → split (p ++ sep ∷ s) sep ≡ p ∷ split s sep
unfolding split
split_at [] s sep h = ground (arith, split-ne-nil s sep)
split_at (c ∷ p) s sep (hc, hp) = rw (split_at p s sep hp) (ground arith)
