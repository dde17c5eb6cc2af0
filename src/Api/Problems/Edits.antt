-- ===== src/Api/Problems/Edits.antt =====
-- What a request of an admin does to one problem
-- (apps/api/app/modules/problems/admin_service.py).
use sahucodex.Prelude.{
  ℕ, ◌≡◌, refl, sym, ap, ◌∙◌, ◌⊎◌, inl, inr, true, not, List, [], map, Option, none, some, arith,
  Bool-cases, Option-cases, Outcome-cases, first_of?, keep_if, any_of, Outcome, returned, raised,
}
use sahucodex.Prelude.Texts.{Text, sorted_set, eq_text}
use sahucodex.Api.Problems.{
  ProblemStarterCode, EditedProblem, ProblemError, Action, change_state, publish, unpublish,
  archive, restore, validate_problem, is_archived, is_empty,
}
use sahucodex.Api.Problems.Saving.{ProblemInput, apply, cases_of}
use sahucodex.Api.Problems.Editing.{
  Desk, has_slug, has_id, load_problem, resolve_tags, check_slug, is_own, enabled_language_keys,
  edited,
}

abbrev pub slug_or : Text → Outcome ProblemError EditedProblem → Text
slug_or none_such (returned problem) = problem.slug
slug_or none_such (raised e) = none_such

abbrev pub id_or : ℕ → Outcome ProblemError EditedProblem → ℕ
id_or none_such (returned problem) = problem.id
id_or none_such (raised e) = none_such

-- A problem that is saved has the slug that was sent, and its id.
apply-slug :
    (new_id : ℕ → ℕ) (enabled : List Text) (now : ℕ) (input : ProblemInput)
    (problem : EditedProblem)
    → (slug_or input.slug (apply new_id enabled now input problem) ≡ input.slug)
      × (id_or problem.id (apply new_id enabled now input problem) ≡ problem.id)
unfolding apply
apply-slug new_id enabled now input problem =
    let unknown = sorted_set (
      keep_if (λ key. not (any_of (eq_text key) enabled))
        (map (λ (item : ProblemStarterCode). item.language_key) input.starter_code)) in
    elim (Bool-cases (is_empty unknown)) [
      | inl known ↦ rw known (elim (Outcome-cases (cases_of new_id problem 0 [] input.test_cases)) [
        | inl (e, refused) ↦ rw refused (refl, refl)
        | inr (pairs, made) ↦ rw made (refl, refl)
      ])
      | inr other ↦ rw other (refl, refl)
    ]

-- A request that is not refused found the slug free, or in the hands of the problem itself.
pub edited_returned :
    (new_id : ℕ → ℕ) (own_id : Option ℕ) (now : ℕ) (input : ProblemInput)
    (problem after : EditedProblem) (desk : Desk)
    → edited new_id own_id now input problem desk ≡ returned after
    → (after.slug ≡ input.slug)
      × (after.id ≡ problem.id)
      × (check_slug input.slug own_id desk ≡ returned tt)
unfolding edited
edited_returned new_id own_id now input problem after desk h =
    elim (Outcome-cases (check_slug input.slug own_id desk)) [
      | inl (e, taken) ↦ absurd (let refused = rw (taken, edited) at h in ground (arith, refused))
      | inr (u, free) ↦ elim (Outcome-cases (resolve_tags input.tags desk)) [
        | inl (e, missing) ↦ absurd (
            let refused = rw (free, edited) at h in
            let refused' = rw (missing, edited) at refused in ground (arith, refused'))
        | inr (v, resolved) ↦
            let saved : apply new_id (enabled_language_keys desk) now input problem
                ≡ returned after =
              rw (resolved, edited) at (rw (free, edited) at h) in
            let (slug, id) = apply-slug new_id (enabled_language_keys desk) now input problem in
            (
              sym (ap (slug_or input.slug) saved) ∙ slug,
              sym (ap (id_or problem.id) saved) ∙ id,
              free,
            )
      ]
    ]

pub check_slug_free :
    (slug : Text) (own_id : Option ℕ) (desk : Desk)
    → check_slug slug own_id desk ≡ returned tt
    → (first_of? (has_slug slug) desk.problems ≡ none)
      ⊎ ((x : EditedProblem) × (first_of? (has_slug slug) desk.problems ≡ some x)
          × (is_own own_id x.id ≡ true))
unfolding check_slug
check_slug_free slug own_id desk h = elim (Option-cases (first_of? (has_slug slug) desk.problems)) [
  | inl unused ↦ inl unused
  | inr (x, used) ↦ elim (Bool-cases (is_own own_id x.id)) [
    | inl own ↦ inr (x, used, own)
    | inr others ↦ absurd (
        let refused = rw (others, check_slug) at (rw (used, check_slug) at h) in
        ground (arith, refused))
  ]
]

pub load_problem_found :
    (id : ℕ) (desk : Desk) (problem : EditedProblem)
    → load_problem id desk ≡ returned problem
    → first_of? (has_id id) desk.problems ≡ some problem
unfolding load_problem
load_problem_found id desk problem h = ground (arith, h)

pub change_state-slug :
    (action : Action) (enabled : List Text) (now : ℕ) (problem : EditedProblem)
    → (slug_or problem.slug (change_state action enabled now problem) ≡ problem.slug)
      × (id_or problem.id (change_state action enabled now problem) ≡ problem.id)
unfolding change_state
change_state-slug publish enabled now problem =
    elim (Bool-cases (is_archived problem.archived_at)) [
      | inl away ↦ rw away (refl, refl)
      | inr here ↦ rw here (elim (Bool-cases (is_empty (validate_problem problem enabled))) [
        | inl ready ↦ rw ready (refl, refl)
        | inr unready ↦ rw unready (refl, refl)
      ])
    ]
change_state-slug unpublish enabled now problem = (refl, refl)
change_state-slug archive enabled now problem = (refl, refl)
change_state-slug restore enabled now problem = (refl, refl)
