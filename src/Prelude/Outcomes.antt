-- ===== src/Prelude/Outcomes.antt =====
-- Python exceptions as values: a call returns, or raises an exception of the component's own type.
use mathlib.Core.Path.{◌≡◌, refl}
use mathlib.Core.Logic.{◌⊎◌, inl, inr}
use mathlib.Core.Bool.{Bool, true, false}
use mathlib.Core.Option.{Option, none, some}

pub data Outcome {ℓ} (E A : Type ℓ) : Type ℓ where
  returned : A → Outcome E A
  raised : E → Outcome E A

infixl 5 ◌>>=◌ ◌>>◌
abbrev pub ◌>>=◌ {ℓ} : {E A B : Type ℓ} → Outcome E A → (A → Outcome E B) → Outcome E B
returned a >>= f = f a
raised e >>= f = raised e

abbrev pub ◌>>◌ {ℓ} : {E A B : Type ℓ} → Outcome E A → Outcome E B → Outcome E B
m >> k = m >>= λ _. k

-- `if test: raise e`
abbrev pub raise_if : {E : Type 0} → Bool → E → Outcome E Unit
raise_if true e = raised e
raise_if false e = returned tt

abbrev pub or_raise {ℓ} : {E A : Type ℓ} → Option A → E → Outcome E A
or_raise none e = raised e
or_raise (some a) e = returned a

pub Outcome-cases {ℓ} :
    {E A : Type ℓ} (o : Outcome E A) → ((e : E) × (o ≡ raised e)) ⊎ ((a : A) × (o ≡ returned a))
Outcome-cases (returned a) = inr (a, refl)
Outcome-cases (raised e) = inl (e, refl)
