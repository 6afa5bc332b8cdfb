-- ===== src/Common/Errors.antt =====
-- Calls that may throw: a value or an error of the component's own type.
use mathlib.Core.Path.{◌≡◌, refl}
use mathlib.Core.Logic.{◌⊎◌, inl, inr}
use native.Mathlib.Omega.{arith}

pub data Result (E A : Type 0) : Type 0 where
  throw : E → Result E A
  ok : A → Result E A

infixl 5 ◌>>=◌
abbrev pub ◌>>=◌ : {E A B : Type 0} → Result E A → (A → Result E B) → Result E B
◌>>=◌ (throw error) rest = throw error
◌>>=◌ (ok value) rest = rest value

-- A chain that returns got through its first step.
pub inv-bind :
    {E A B : Type 0} {b : B} (first : Result E A) (rest : A → Result E B)
    (h : (first >>= rest) ≡ ok b)
    → (value : A) × (first ≡ ok value) × (rest value ≡ ok b)
inv-bind (throw error) rest h = absurd (ground arith)
inv-bind (ok value) rest h = (value, refl, h)

pub Result-cases :
    {E A : Type 0} (r : Result E A)
    → ((error : E) × (r ≡ throw error)) ⊎ ((value : A) × (r ≡ ok value))
Result-cases (throw error) = inl (error, refl)
Result-cases (ok value) = inr (value, refl)
