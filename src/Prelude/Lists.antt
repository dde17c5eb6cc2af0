-- ===== src/Prelude/Lists.antt =====
-- Lists measured by native numbers, under the library's names, and the Python idioms on lists.
use Prim.Native.Nat.{ℕ, zero, suc, ◌+◌, ◌≤◌, min}
use mathlib.Core.Path.{◌≡◌, refl, ap, subst}
use mathlib.Core.Logic.{◌⊎◌, inl, inr}
use mathlib.Core.Bool.{Bool, true, false, ◌||◌}
use mathlib.Core.List.{List, [], ◌∷◌, ◌++◌, append_assoc}
use mathlib.Core.Option.{Option, none, some}
use native.Mathlib.Omega.{arith}
use sahucodex.Prelude.Tests.{if◌then◌else◌}

module _ {ℓ} {A : Type ℓ} where
  abbrev pub length : List A → ℕ
  length [] = 0
  length (x ∷ xs) = suc (length xs)

  abbrev pub get_elem? : List A → ℕ → Option A
  get_elem? [] i = none
  get_elem? (x ∷ xs) zero = some x
  get_elem? (x ∷ xs) (suc i) = get_elem? xs i

  abbrev pub take : ℕ → List A → List A
  take zero xs = []
  take (suc n) [] = []
  take (suc n) (x ∷ xs) = x ∷ take n xs

  abbrev pub drop : ℕ → List A → List A
  drop zero xs = xs
  drop (suc n) [] = []
  drop (suc n) (x ∷ xs) = drop n xs

  -- `[x for x in xs if keep(x)]`
  abbrev pub keep_if : (A → Bool) → List A → List A
  keep_if p [] = []
  keep_if p (x ∷ xs) = let rest = keep_if p xs in if p x then x ∷ rest else rest

  abbrev pub any_of : (A → Bool) → List A → Bool
  any_of p [] = false
  any_of p (x ∷ xs) = p x || any_of p xs

  -- The first element that passes the test.
  abbrev pub first_of? : (A → Bool) → List A → Option A
  first_of? p [] = none
  first_of? p (x ∷ xs) = if p x then some x else first_of? p xs

  -- A predicate on every element.
  abbrev pub All {κ} : (A → Type κ) → List A → Type κ
  All P [] = Unit
  All P (x ∷ xs) = P x × All P xs

module _ {ℓ} {A : Type ℓ} where
  pub List-cases : (xs : List A) → (xs ≡ []) ⊎ ((x : A) × (rest : List A) × (xs ≡ x ∷ rest))
  List-cases [] = inl refl
  List-cases (x ∷ xs) = inr (x, xs, refl)

  pub length-append : (xs ys : List A) → length (xs ++ ys) ≡ length xs + length ys
  length-append [] ys = omega arith
  length-append (x ∷ xs) ys = omega (arith, length-append xs ys)

  pub length-take : (n : ℕ) (xs : List A) → length (take n xs) ≡ min n (length xs)
  length-take zero xs = omega arith
  length-take (suc n) [] = omega arith
  length-take (suc n) (x ∷ xs) = omega (arith, length-take n xs)

  pub take-append : (xs ys : List A) → take (length xs) (xs ++ ys) ≡ xs
  take-append [] ys = refl
  take-append (x ∷ xs) ys = ap (◌∷◌ x) (take-append xs ys)

  pub drop-append : (xs ys : List A) → drop (length xs) (xs ++ ys) ≡ ys
  drop-append [] ys = refl
  drop-append (x ∷ xs) ys = drop-append xs ys

  pub length-keep_if : (p : A → Bool) (xs : List A) → length (keep_if p xs) ≤ length xs
  length-keep_if p [] = omega arith
  length-keep_if p (x ∷ xs) = ground (arith, length-keep_if p xs)

  pub All-append {κ} : (P : A → Type κ) (xs ys : List A) → All P xs → All P ys → All P (xs ++ ys)
  All-append P [] ys hx hy = hy
  All-append P (x ∷ xs) ys hx hy = (hx.0, All-append P xs ys hx.1 hy)

module _ {ℓ} {A : Type ℓ} where
  pub any_of-append :
      (p : A → Bool) (xs ys : List A) → any_of p (xs ++ ys) ≡ (any_of p xs || any_of p ys)
  any_of-append p [] ys = refl
  any_of-append p (x ∷ xs) ys = ground (arith, any_of-append p xs ys)

  any_of_related :
      (same : A → A → Bool)
      → ((x : A) → same x x ≡ true)
      → (before xs : List A) → All (λ x. any_of (λ y. same y x) (before ++ xs) ≡ true) xs
  any_of_related same same_refl before [] = tt
  any_of_related same same_refl before (x ∷ xs) = (
    rw (any_of-append (λ y. same y x) before (x ∷ xs)) (ground (arith, same_refl x)),
    subst (λ all. All (λ z. any_of (λ y. same y z) all ≡ true) xs) (append_assoc before (x ∷ []) xs)
        (any_of_related same same_refl (before ++ x ∷ []) xs),
  )

  -- Every element is related to one of the list.
  pub any_of_self :
      (same : A → A → Bool)
      → ((x : A) → same x x ≡ true)
      → (xs : List A) → All (λ x. any_of (λ y. same y x) xs ≡ true) xs
  any_of_self same same_refl xs = any_of_related same same_refl [] xs

-- Elements of which no two are the same by a test.
module _ {ℓ} {A : Type ℓ} (same : A → A → Bool) where
  abbrev pub AreApart : List A → Type 0
  AreApart [] = Unit
  AreApart (x ∷ xs) = (any_of (same x) xs ≡ false) × AreApart xs

  module _ (same_refl : (x : A) → same x x ≡ true)
      (same_sym : (x y : A) → same x y ≡ same y x) where
    found_later :
        (x : A) (all xs : List A)
        → any_of (same x) xs ≡ false
        → All (λ y. first_of? (same y) all ≡ some y) xs
        → All (λ y. first_of? (same y) (x ∷ all) ≡ some y) xs
    found_later x all [] apart h = tt
    found_later x all (y ∷ xs) apart h =
        let differs : same y x ≡ false = ground (arith, apart, same_sym x y) in
        (rw differs h.0, found_later x all xs (ground (arith, apart)) h.1)

    -- The search for one of them finds it.
    pub found_apart : (xs : List A) → AreApart xs → All (λ y. first_of? (same y) xs ≡ some y) xs
    found_apart [] h = tt
    found_apart (x ∷ xs) h = (rw (same_refl x) refl, found_later x xs xs h.0 (found_apart xs h.1))
