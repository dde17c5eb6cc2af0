-- ===== src/Prelude/Sorting.antt =====
-- Python's `sorted`: stable, by a test that says whether the first of two elements may stand first.
use mathlib.Core.Path.{◌≡◌, refl}
use mathlib.Core.Logic.{inl, inr}
use mathlib.Core.Bool.{Bool, true, false}
use mathlib.Core.List.{List, [], ◌∷◌, Perm}
use mathlib.Core.List.Perm
use native.Mathlib.Omega.{arith}
use sahucodex.Prelude.Tests.{if◌then◌else◌, Bool-cases}
use sahucodex.Prelude.Lists.{keep_if, All}

module _ {ℓ} {A : Type ℓ} (first : A → A → Bool) where
  unfoldable pub insert : A → List A → List A
  insert x [] = x ∷ []
  insert x (y ∷ ys) = if first x y then x ∷ y ∷ ys else y ∷ insert x ys

  unfoldable pub sorted_by : List A → List A
  unfolding insert
  sorted_by [] = []
  sorted_by (x ∷ xs) = insert x (sorted_by xs)

  insert-perm : (x : A) (ys : List A) → Perm (insert x ys) (x ∷ ys)
  unfolding insert
  insert-perm x [] = Perm.rfl
  insert-perm x (y ∷ ys) = elim (Bool-cases (first x y)) [
    | inl before ↦ rw before Perm.rfl
    | inr behind ↦ rw behind (Perm.trans (Perm.cons y (insert-perm x ys)) (Perm.swap x y ys))
  ]

  -- Sorting loses and invents nothing.
  pub sorted_by-perm : (xs : List A) → Perm (sorted_by xs) xs
  unfolding sorted_by
  sorted_by-perm [] = Perm.rfl
  sorted_by-perm (x ∷ xs) =
      Perm.trans (insert-perm x (sorted_by xs)) (Perm.cons x (sorted_by-perm xs))

  -- Every element may stand before all that follow it.
  abbrev pub IsSorted : List A → Type 0
  IsSorted [] = Unit
  IsSorted (x ∷ xs) = All (λ y. first x y ≡ true) xs × IsSorted xs

  All-insert : (P : A → Type 0) (x : A) (ys : List A) → P x → All P ys → All P (insert x ys)
  unfolding insert
  All-insert P x [] px h = (px, tt)
  All-insert P x (y ∷ ys) px h = elim (Bool-cases (first x y)) [
    | inl before ↦ rw before (px, h)
    | inr behind ↦ rw behind (h.0, All-insert P x ys px h.1)
  ]

  module _ (total : (x y : A) → first x y ≡ false → first y x ≡ true)
      (trans : (x y z : A) → first x y ≡ true → first y z ≡ true → first x z ≡ true) where
    All-first :
        (x y : A) (ys : List A)
        → first x y ≡ true
        → All (λ z. first y z ≡ true) ys
        → All (λ z. first x z ≡ true) ys
    All-first x y [] e h = tt
    All-first x y (z ∷ zs) e h = (trans x y z e h.0, All-first x y zs e h.1)

    insert-IsSorted : (x : A) (ys : List A) → IsSorted ys → IsSorted (insert x ys)
    unfolding insert
    insert-IsSorted x [] h = (tt, tt)
    insert-IsSorted x (y ∷ ys) h = elim (Bool-cases (first x y)) [
      | inl before ↦ rw before ((before, All-first x y ys before h.0), h)
      | inr behind ↦
          rw behind (
            All-insert (λ z. first y z ≡ true) x ys (total x y behind) h.0,
            insert-IsSorted x ys h.1,
          )
    ]

    -- The result is in order.
    pub sorted_by-IsSorted : (xs : List A) → IsSorted (sorted_by xs)
    unfolding sorted_by
    sorted_by-IsSorted [] = tt
    sorted_by-IsSorted (x ∷ xs) = insert-IsSorted x (sorted_by xs) (sorted_by-IsSorted xs)

  module _ (p : A → Bool) (ties : (x y : A) → p x ≡ true → p y ≡ true → first x y ≡ true) where
    keep_if-insert : (x : A) (ys : List A) → keep_if p (insert x ys) ≡ keep_if p (x ∷ ys)
    unfolding insert
    keep_if-insert x [] = refl
    keep_if-insert x (y ∷ ys) = ground (arith, ties x y, keep_if-insert x ys)

    -- Elements that tie keep the order they had.
    pub keep_if-sorted_by : (xs : List A) → keep_if p (sorted_by xs) ≡ keep_if p xs
    unfolding sorted_by
    keep_if-sorted_by [] = refl
    keep_if-sorted_by (x ∷ xs) =
        ground (arith, keep_if-insert x (sorted_by xs), keep_if-sorted_by xs)
