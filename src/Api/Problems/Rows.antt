-- ===== src/Api/Problems/Rows.antt =====
-- What one UPDATE does to slugs and ids (apps/api/app/modules/problems/admin_service.py).
use sahucodex.Prelude.{
  ℕ, ◌+◌, ◌≤◌, ◌≡◌, sym, ap, subst, ◌∙◌, ◌⊎◌, inl, inr, Bool, true, false, List, [], ◌∷◌, none,
  some, ◌==◌, ==_iff, arith, Bool-cases, first_of?,
}
use sahucodex.Prelude.Texts.{Text, eq_text, eq_of_eq_text}
use sahucodex.Prelude.Tables.{
  count_where, update_where, count_where-update_le, count_where-update_where, first_of?-none,
  first_of?-count_where, update_where_none,
}
use sahucodex.Api.Problems.{EditedProblem}
use sahucodex.Api.Problems.Editing.{has_slug, has_id}

-- Every slug and every id stands for at most one problem.
abbrev pub AreUnique : List EditedProblem → Type 0
AreUnique problems =
    ((slug : Text) → count_where (has_slug slug) problems ≤ 1)
    × ((id : ℕ) → count_where (has_id id) problems ≤ 1)

module _ {ℓ} {A : Type ℓ} (q r : A → Bool) (y : A) where
  -- An UPDATE of at most one row.
  count_where-update_one :
      (xs : List A)
      → count_where r xs ≤ 1
      → count_where q (update_where r (λ x. y) xs) ≤ count_where q xs + 1
  count_where-update_one [] h = omega arith
  count_where-update_one (x ∷ xs) h = elim (Bool-cases (r x)) [
    | inl hit ↦
        let none_left : count_where r xs ≡ 0 = ground (arith, h, hit) in
        rw hit (rw (update_where_none r (λ x. y) xs none_left) (ground arith))
    | inr miss ↦ ground (arith, count_where-update_one xs, miss, h)
  ]

  -- The row that it changes is the first that passes the test already.
  count_where-update_same :
      (xs : List A) (x : A)
      → count_where r xs ≤ 1
      → first_of? q xs ≡ some x
      → r x ≡ true
      → count_where q (update_where r (λ x. y) xs) ≤ count_where q xs
  count_where-update_same [] x h found own = absurd (ground (arith, found))
  count_where-update_same (z ∷ xs) x h found own = elim (Bool-cases (q z)) [
    | inl here ↦
        let same : z ≡ x = ground (arith, found, here) in
        let hit : r z ≡ true = rw same own in
        let none_left : count_where r xs ≡ 0 = ground (arith, h, hit) in
        rw hit (rw (update_where_none r (λ x. y) xs none_left) (ground (arith, here)))
    | inr there ↦
        let later : first_of? q xs ≡ some x = rw there at found in
        let some_later = first_of?-count_where q r xs x later own in
        let miss : r z ≡ false = ground (arith, h, some_later) in
        ground (arith, count_where-update_same xs x, later, own, h, miss, there)
  ]

pub first_of?-other :
    (q r : EditedProblem → Bool) (problems : List EditedProblem) (x : EditedProblem)
    → first_of? r problems ≡ some x
    → q x ≡ true
    → count_where q problems ≤ 1
    → first_of? q problems ≡ some x
first_of?-other q r [] x found passes h = absurd (ground (arith, found))
first_of?-other q r (y ∷ problems) x found passes h = elim (Bool-cases (r y)) [
  | inl here ↦
      let same : y ≡ x = ground (arith, found, here) in
      let hit : q y ≡ true = rw same passes in rw hit (ap some same)
  | inr there ↦
      let later : first_of? r problems ≡ some x = rw there at found in
      let some_later = first_of?-count_where r q problems x later passes in
      let miss : q y ≡ false = ground (arith, h, some_later) in
      rw miss (first_of?-other q r problems x later passes (ground (arith, h)))
]

-- The slug is free, or in the hands of the problem that has the id.
abbrev pub IsFree : Text → ℕ → List EditedProblem → Type 0
IsFree slug id problems =
    (first_of? (has_slug slug) problems ≡ none)
    ⊎ ((x : EditedProblem) × (first_of? (has_slug slug) problems ≡ some x) × (has_id id x ≡ true))

pub replaced-AreUnique :
    (id : ℕ) (problem : EditedProblem) (problems : List EditedProblem)
    → problem.id ≡ id
    → IsFree problem.slug id problems
    → AreUnique problems
    → AreUnique (update_where (has_id id) (λ old. problem) problems)
replaced-AreUnique id problem problems own free (slugs, ids) = (
  λ slug. elim (Bool-cases (eq_text problem.slug slug)) [
    | inl same ↦
        let is = eq_of_eq_text problem.slug slug same in
        subst
          (λ t. count_where (has_slug t) (update_where (has_id id) (λ old. problem) problems) ≤ 1)
          is
          (elim free [
            | inl unused ↦ omega (
              arith,
              first_of?-none (has_slug problem.slug) problems unused,
              count_where-update_one (has_slug problem.slug) (has_id id) problem problems (ids id),
            )
            | inr (x, used, its) ↦ omega (
              arith,
              slugs problem.slug,
              count_where-update_same (has_slug problem.slug) (has_id id) problem problems x
                  (ids id) used its,
            )
          ])
    | inr differs ↦ omega (
      arith,
      slugs slug,
      count_where-update_le (has_slug slug) (has_id id) (λ old. problem) problems
          (λ x h. absurd (ground (arith, h, differs))),
    )
  ],
  λ other.
      rw
        (count_where-update_where (has_id other) (has_id id) (λ old. problem) problems
          (λ x h. ap (λ n. n == other) (own ∙ sym ((==_iff x.id id).0 h))))
        (ids other),
)
