-- ===== src/Task.antt =====
-- Steps that work on a world, and may fail: a Go function with side effects that returns
-- `(value, error)`.
use linkerd2_proxy_init.Base.{Result, ok, err, ◌≡◌, refl, arith}

-- The value of a function that returns an error only.
pub data Done : Type 0 where
  done : Done

abbrev pub Task : Type 0 → Type 0 → Type 0 → Type 0
Task W X A = W → Result X A × W

abbrev pub then_task : {W X A B : Type 0} → Result X A × W → (A → Task W X B) → Result X B × W
then_task (ok value, w) rest = rest value w
then_task (err e, w) rest = (err e, w)

infixl 5 ◌>>=◌
abbrev pub ◌>>=◌ : {W X A B : Type 0} → Task W X A → (A → Task W X B) → Task W X B
first >>= rest = λ w. then_task (first w) rest

abbrev pub return : {W X A : Type 0} → A → Task W X A
return value = λ w. (ok value, w)

abbrev pub fail : {W X A : Type 0} → X → Task W X A
fail e = λ w. (err e, w)

pub then_task_success :
    {W X A B : Type 0} (x : Result X A × W) (rest : A → Task W X B) {b : B} {w' : W}
    → then_task x rest ≡ (ok b, w')
    → (a : A) × (w₁ : W) × (x ≡ (ok a, w₁)) × (rest a w₁ ≡ (ok b, w'))
then_task_success (ok a, w₁) rest h = (a, w₁, refl, h)
then_task_success (err e, w₁) rest h = absurd (ground arith)

pub then_task-agree :
    {W X A B : Type 0} (x : Result X A × W) (f g : A → Task W X B)
    → ((a : A) (w : W) → x ≡ (ok a, w) → f a w ≡ g a w)
    → then_task x f ≡ then_task x g
then_task-agree (ok a, w) f g h = h a w refl
then_task-agree (err e, w) f g h = refl

pub returned :
    {W X A : Type 0} {a b : A} {w w' : W}
    → ◌≡◌ {A = Result X A × W} (ok a, w) (ok b, w')
    → (a ≡ b) × (w ≡ w')
returned h = ground arith
