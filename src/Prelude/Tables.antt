-- ===== src/Prelude/Tables.antt =====
-- A database table as a list of rows, with what the SQL statements of the program do to it.
use Prim.Native.Nat.{◌+◌, ℕ, suc, ◌≤◌, ◌<◌}
use mathlib.Core.Path.{◌≡◌, refl, ap}
use mathlib.Core.Logic.{inl, inr}
use mathlib.Core.Bool.{Bool, true, false, not}
use mathlib.Core.List.{List, [], ◌∷◌, ◌++◌}
use mathlib.Core.Option
use mathlib.Core.Option.{Option, none, some}
use native.Mathlib.Omega.{arith}
use sahucodex.Prelude.Tests.{if◌then◌else◌, Bool-cases}
use sahucodex.Prelude.Lists.{keep_if, first_of?}

module _ {ℓ} {A : Type ℓ} where
  -- `SELECT count(*) … WHERE`, also the row count of an UPDATE.
  abbrev pub count_where : (A → Bool) → List A → ℕ
  count_where p [] = 0
  count_where p (x ∷ xs) = let rest = count_where p xs in if p x then suc rest else rest

  -- `UPDATE … SET … WHERE`
  abbrev pub update_where : (A → Bool) → (A → A) → List A → List A
  update_where p f [] = []
  update_where p f (x ∷ xs) = let rest = update_where p f xs in (if p x then f x else x) ∷ rest

  -- `DELETE … WHERE`
  abbrev pub delete_where : (A → Bool) → List A → List A
  delete_where p = keep_if (λ x. not (p x))

  -- The list without the first element that passes the test.
  abbrev pub drop_first : (A → Bool) → List A → List A
  drop_first p [] = []
  drop_first p (x ∷ xs) = let rest = drop_first p xs in if p x then xs else x ∷ rest

  pub count_where-drop_first_le :
      (p q : A → Bool) (xs : List A) → count_where q (drop_first p xs) ≤ count_where q xs
  count_where-drop_first_le p q [] = omega arith
  count_where-drop_first_le p q (x ∷ xs) = ground (arith, count_where-drop_first_le p q xs)

  pub count_where-drop_first :
      (p : A → Bool) (xs : List A) (x : A)
      → first_of? p xs ≡ some x
      → count_where p xs ≡ suc (count_where p (drop_first p xs))
  count_where-drop_first p [] y h = absurd (ground arith)
  count_where-drop_first p (x ∷ xs) y h = ground (arith, count_where-drop_first p xs y)

  pub count_where-update_where :
      (q p : A → Bool) (f : A → A) (xs : List A)
      → ((x : A) → p x ≡ true → q (f x) ≡ q x)
      → count_where q (update_where p f xs) ≡ count_where q xs
  count_where-update_where q p f [] same = refl
  count_where-update_where q p f (x ∷ xs) same =
      ground (arith, count_where-update_where q p f xs same, same x)

  pub update_where_none :
      (p : A → Bool) (f : A → A) (xs : List A) → count_where p xs ≡ 0 → update_where p f xs ≡ xs
  update_where_none p f [] h = refl
  update_where_none p f (x ∷ xs) h = elim (Bool-cases (p x)) [
    | inl holds ↦ absurd (ground arith)
    | inr fails ↦ rw fails (ap (◌∷◌ x) (update_where_none p f xs (ground arith)))
  ]

  pub first_of?-update_where :
      (p : A → Bool) (f : A → A) (xs : List A)
      → ((x : A) → p (f x) ≡ p x)
      → first_of? p (update_where p f xs) ≡ Option.map f (first_of? p xs)
  first_of?-update_where p f [] same = refl
  first_of?-update_where p f (x ∷ xs) same = elim (Bool-cases (p x)) [
    | inl holds ↦ rw holds (rw (same x) (rw holds refl))
    | inr fails ↦ rw fails (rw fails (first_of?-update_where p f xs same))
  ]

  pub first_of?-none : (p : A → Bool) (xs : List A) → first_of? p xs ≡ none → count_where p xs ≡ 0
  first_of?-none p [] h = refl
  first_of?-none p (x ∷ xs) h = elim (Bool-cases (p x)) [
    | inl holds ↦ absurd (ground arith)
    | inr fails ↦ rw fails (first_of?-none p xs (ground arith))
  ]

  pub first_of?-some :
      (p : A → Bool) (xs : List A) (x : A)
      → first_of? p xs ≡ some x
      → (p x ≡ true) × (1 ≤ count_where p xs)
  first_of?-some p [] y h = absurd (ground arith)
  first_of?-some p (x ∷ xs) y h = elim (Bool-cases (p x)) [
    | inl holds ↦ ground arith
    | inr fails ↦ ground (arith, first_of?-some p xs y)
  ]

  pub first_of?-append_none :
      (p : A → Bool) (xs ys : List A)
      → first_of? p xs ≡ none
      → first_of? p (xs ++ ys) ≡ first_of? p ys
  first_of?-append_none p [] ys h = refl
  first_of?-append_none p (x ∷ xs) ys h = elim (Bool-cases (p x)) [
    | inl holds ↦ absurd (ground arith)
    | inr fails ↦ rw fails (first_of?-append_none p xs ys (ground arith))
  ]

  pub count_where-append :
      (p : A → Bool) (xs ys : List A)
      → count_where p (xs ++ ys) ≡ count_where p xs + count_where p ys
  count_where-append p [] ys = omega arith
  count_where-append p (x ∷ xs) ys = ground (arith, count_where-append p xs ys)

  pub update_where-append :
      (p : A → Bool) (f : A → A) (xs ys : List A)
      → update_where p f (xs ++ ys) ≡ update_where p f xs ++ update_where p f ys
  update_where-append p f [] ys = refl
  update_where-append p f (x ∷ xs) ys =
      ap (◌∷◌ (if p x then f x else x)) (update_where-append p f xs ys)

  -- An UPDATE after which no row is selected again.
  pub count_where_updated :
      (p : A → Bool) (f : A → A) (xs : List A)
      → ((x : A) → p (f x) ≡ false)
      → count_where p (update_where p f xs) ≡ 0
  count_where_updated p f [] h = refl
  count_where_updated p f (x ∷ xs) h = ground (arith, count_where_updated p f xs h, h x)

  pub first_of?-update_where_if :
      (p q : A → Bool) (f : A → A) (xs : List A)
      → ((x : A) → p (f x) ≡ p x)
      → first_of? p (update_where q f xs)
        ≡ Option.map (λ x. if q x then f x else x) (first_of? p xs)
  first_of?-update_where_if p q f [] same = refl
  first_of?-update_where_if p q f (x ∷ xs) same =
      let later = first_of?-update_where_if p q f xs same in
      elim (Bool-cases (q x)) [
        | inl hit ↦ rw hit (
            rw (same x) (elim (Bool-cases (p x)) [
              | inl found ↦ rw found (rw hit refl)
              | inr other ↦ rw other later
            ]))
        | inr miss ↦ rw miss (elim (Bool-cases (p x)) [
          | inl found ↦ rw found (rw miss refl)
          | inr other ↦ rw other later
        ])
      ]

  pub count_where-le :
      (p q : A → Bool) (xs : List A)
      → ((x : A) → p x ≡ true → q x ≡ true)
      → count_where p xs ≤ count_where q xs
  count_where-le p q [] h = omega arith
  count_where-le p q (x ∷ xs) h = ground (arith, count_where-le p q xs h, h x)

  -- A row that a search finds and that passes another test is counted by that test.
  pub first_of?-count_where :
      (p q : A → Bool) (xs : List A) (x : A)
      → first_of? p xs ≡ some x
      → q x ≡ true
      → 1 ≤ count_where q xs
  first_of?-count_where p q [] y h k = absurd (ground arith)
  first_of?-count_where p q (x ∷ xs) y h k = elim (Bool-cases (p x)) [
    | inl here ↦ ground arith
    | inr there ↦ ground (arith, first_of?-count_where p q xs y)
  ]

  pub first_of?-append_some :
      (p : A → Bool) (xs ys : List A) (x : A)
      → first_of? p xs ≡ some x
      → first_of? p (xs ++ ys) ≡ some x
  first_of?-append_some p [] ys y h = absurd (ground arith)
  first_of?-append_some p (x ∷ xs) ys y h = elim (Bool-cases (p x)) [
    | inl holds ↦ rw holds (rw holds at h)
    | inr fails ↦ rw fails (first_of?-append_some p xs ys y (rw fails at h))
  ]

  -- An UPDATE that never makes a row pass the test.
  pub count_where-update_le :
      (q r : A → Bool) (f : A → A) (xs : List A)
      → ((x : A) → q (f x) ≡ true → q x ≡ true)
      → count_where q (update_where r f xs) ≤ count_where q xs
  count_where-update_le q r f [] h = omega arith
  count_where-update_le q r f (x ∷ xs) h = ground (arith, count_where-update_le q r f xs h, h x)

  -- It takes a row that a search finds out of the count.
  pub count_where-update_found :
      (p q r : A → Bool) (f : A → A) (xs : List A) (x : A)
      → first_of? p xs ≡ some x
      → q x ≡ true
      → r x ≡ true
      → ((y : A) → q (f y) ≡ false)
      → count_where q (update_where r f xs) < count_where q xs
  count_where-update_found p q r f [] y found hq hr h = absurd (ground arith)
  count_where-update_found p q r f (x ∷ xs) y found hq hr h = elim (Bool-cases (p x)) [
    | inl here ↦
        let same : x ≡ y = ground (arith, found, here) in
        let passes : q x ≡ true = rw same hq in
        let selected : r x ≡ true = rw same hr in
        let rest = count_where-update_le q r f xs (λ z e. absurd (ground (arith, h z, e))) in
        rw (selected, passes, h x) (ground (arith, rest))
    | inr there ↦
        let later = count_where-update_found p q r f xs y (rw there at found) hq hr h in
        ground (arith, later, h x)
  ]
