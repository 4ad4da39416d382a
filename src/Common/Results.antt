-- ===== src/Common/Results.antt =====
-- Code that throws: a value or the error thrown.
use mathlib.Core.Path.{◌≡◌, refl}
use mathlib.Core.Logic.{◌≢◌, ◌⊎◌, inl, inr}
use mathlib.Core.Bool.{Bool, true, false}
use native.Mathlib.Omega.{arith}

pub data Result {ℓ} (E A : Type ℓ) : Type ℓ where
  ok : A → Result E A
  throw : E → Result E A

infixl 5 ◌>>=◌ ◌>>◌
abbrev pub ◌>>=◌ {ℓ} : {E A B : Type ℓ} → Result E A → (A → Result E B) → Result E B
ok a >>= f = f a
throw e >>= f = throw e

abbrev pub ◌>>◌ : {E B : Type 0} → Result E (Unit {0}) → Result E B → Result E B
m >> k = m >>= λ _. k

-- `if (test) throw e`
abbrev pub throw_if : {E : Type 0} → Bool → E → Result E (Unit {0})
throw_if true e = throw e
throw_if false e = ok tt

-- A bind that succeeds, with what follows as an argument: one call for each step of a `do` block.
pub with_ok {ℓ κ} :
    {E A B : Type ℓ} {C : Type κ} (m : Result E A) (f : A → Result E B) {b : B}
    → (m >>= f) ≡ ok b
    → ((a : A) → m ≡ ok a → f a ≡ ok b → C)
    → C
with_ok (ok a) f h k = k a refl h
with_ok (throw e) f h k = absurd (ground arith)

-- To split on a computed result and keep the equation.
pub Result-cases {ℓ} :
    {E A : Type ℓ} (r : Result E A) → ((a : A) × (r ≡ ok a)) ⊎ ((e : E) × (r ≡ throw e))
Result-cases (ok a) = inl (a, refl)
Result-cases (throw e) = inr (e, refl)

-- A step that cannot have failed has a value.
pub succeeds {ℓ} : {E A : Type ℓ} (r : Result E A) → ((e : E) → r ≢ throw e) → (a : A) × (r ≡ ok a)
succeeds (ok a) h = (a, refl)
succeeds (throw e) h = absurd (h e refl)
