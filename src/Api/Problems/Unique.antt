-- ===== src/Api/Problems/Unique.antt =====
-- No two problems have one slug (apps/api/app/modules/problems/admin_service.py).
use sahucodex.Prelude.{
  ℕ, ◌≡◌, sym, ap, subst, ◌∙◌, inl, inr, true, false, [], ◌∷◌, none, some, ◌==◌, ==_iff, arith,
  Bool-cases, Outcome-cases,
}
use sahucodex.Prelude.Texts.{Text, eq_text, eq_text_refl, eq_of_eq_text}
use sahucodex.Prelude.Tables.{count_where, count_where-append, first_of?-some, first_of?-none}
use sahucodex.Api.Problems.{Action, change_state}
use sahucodex.Api.Problems.Saving.{ProblemInput}
use sahucodex.Api.Problems.Editing.{
  Desk, has_slug, has_id, load_problem, enabled_language_keys, blank, edited, create_problem,
  update_problem, change_problem_state, create_tag,
}
use sahucodex.Api.Problems.Rows.{AreUnique, IsFree, replaced-AreUnique, first_of?-other}
use sahucodex.Api.Problems.Edits.{
  slug_or, id_or, edited_returned, check_slug_free, load_problem_found, change_state-slug,
}

create_problem-AreUnique :
    (new_id : ℕ → ℕ) (id now admin_id : ℕ) (input : ProblemInput) (desk : Desk)
    → count_where (has_id id) desk.problems ≡ 0
    → AreUnique desk.problems
    → AreUnique (create_problem new_id id now admin_id input desk).1.problems
unfolding create_problem
create_problem-AreUnique new_id id now admin_id input desk new (slugs, ids) =
    elim (Outcome-cases (edited new_id none now input (blank id) desk)) [
      | inl (e, refused) ↦ rw (refused, create_problem) (slugs, ids)
      | inr (problem, made) ↦
          let (slug, own, free) =
            edited_returned new_id none now input (blank id) problem desk made in
          let unused : count_where (has_slug problem.slug) desk.problems ≡ 0 =
            rw slug (elim (check_slug_free input.slug none desk free) [
              | inl unused ↦ first_of?-none (has_slug input.slug) desk.problems unused
              | inr (x, used, its) ↦ absurd (ground (arith, its))
            ]) in
          rw (made, create_problem)
            (
              λ other. elim (Bool-cases (eq_text problem.slug other)) [
                | inl same ↦
                    let here : count_where (has_slug other) desk.problems ≡ 0 =
                      subst (λ t. count_where (has_slug t) desk.problems ≡ 0)
                        (eq_of_eq_text problem.slug other same) unused in
                    ground (
                      arith,
                      here,
                      count_where-append (has_slug other) desk.problems (problem ∷ []),
                    )
                | inr differs ↦ ground (
                  arith,
                  slugs other,
                  differs,
                  count_where-append (has_slug other) desk.problems (problem ∷ []),
                )
              ],
              λ other. elim (Bool-cases (id == other)) [
                | inl same ↦
                    let here : count_where (has_id other) desk.problems ≡ 0 =
                      subst (λ n. count_where (has_id n) desk.problems ≡ 0)
                        ((==_iff id other).0 same) new in
                    ground
                      (arith, here, count_where-append (has_id other) desk.problems (problem ∷ []))
                | inr differs ↦
                    let away : has_id other problem ≡ false = rw own differs in
                    ground (
                      arith,
                      ids other,
                      away,
                      count_where-append (has_id other) desk.problems (problem ∷ []),
                    )
              ],
            )
    ]

update_problem-AreUnique :
    (new_id : ℕ → ℕ) (id now admin_id : ℕ) (input : ProblemInput) (desk : Desk)
    → AreUnique desk.problems
    → AreUnique (update_problem new_id id now admin_id input desk).1.problems
unfolding update_problem
update_problem-AreUnique new_id id now admin_id input desk h =
    elim (Outcome-cases (load_problem id desk)) [
      | inl (e, missing) ↦ rw (missing, update_problem) h
      | inr (old, loaded) ↦
          let found = load_problem_found id desk old loaded in
          let its_id =
            (==_iff old.id id).0 (first_of?-some (has_id id) desk.problems old found).0 in
          elim (Outcome-cases (edited new_id (some old.id) now input old desk)) [
            | inl (e, refused) ↦ rw (loaded, update_problem) (rw (refused, update_problem) h)
            | inr (problem, made) ↦
                let (slug, own, free) =
                  edited_returned new_id (some old.id) now input old problem desk made in
                let ready : IsFree problem.slug id desk.problems =
                  rw slug (elim (check_slug_free input.slug (some old.id) desk free) [
                    | inl unused ↦ inl unused
                    | inr (x, used, its) ↦ inr (x, used, subst (λ n. (x.id == n) ≡ true) its_id its)
                  ]) in
                rw (loaded, update_problem)
                  (rw (made, update_problem)
                    (replaced-AreUnique id problem desk.problems (own ∙ its_id) ready h))
          ]
    ]

change_problem_state-AreUnique :
    (action : Action) (id now admin_id : ℕ) (desk : Desk)
    → AreUnique desk.problems
    → AreUnique (change_problem_state action id now admin_id desk).1.problems
unfolding change_problem_state
change_problem_state-AreUnique action id now admin_id desk h =
    elim (Outcome-cases (load_problem id desk)) [
      | inl (e, missing) ↦ rw (missing, change_problem_state) h
      | inr (old, loaded) ↦
          let found = load_problem_found id desk old loaded in
          let its = (first_of?-some (has_id id) desk.problems old found).0 in
          elim (Outcome-cases (change_state action (enabled_language_keys desk) now old)) [
            | inl (e, refused) ↦
                rw (loaded, change_problem_state) (rw (refused, change_problem_state) h)
            | inr (problem, made) ↦
                let (slug, own) = change_state-slug action (enabled_language_keys desk) now old in
                let same : problem.slug ≡ old.slug = sym (ap (slug_or old.slug) made) ∙ slug in
                let is : problem.id ≡ id =
                  sym (ap (id_or old.id) made) ∙ own ∙ (==_iff old.id id).0 its in
                let first =
                  first_of?-other (has_slug old.slug) (has_id id) desk.problems old found
                    (eq_text_refl old.slug) (h.0 old.slug) in
                let free : IsFree problem.slug id desk.problems = rw same (inr (old, first, its)) in
                rw (loaded, change_problem_state)
                  (rw (made, change_problem_state)
                    (replaced-AreUnique id problem desk.problems is free h))
          ]
    ]

create_tag-problems :
    (lower : Text → Text) (name : Text) (desk : Desk)
    → (create_tag lower name desk).1.problems ≡ desk.problems
unfolding create_tag
create_tag-problems lower name desk = ground arith

-- `Reaches a b`: the requests of admins lead from `a` to `b`; a new problem draws a new id.
pub data Reaches (a : Desk) : Desk → Type 0 where
  nothing : Reaches a a
  creates :
      {b : Desk} (new_id : ℕ → ℕ) (id now admin_id : ℕ) (input : ProblemInput)
      → Reaches a b
      → count_where (has_id id) b.problems ≡ 0
      → Reaches a (create_problem new_id id now admin_id input b).1
  updates :
      {b : Desk} (new_id : ℕ → ℕ) (id now admin_id : ℕ) (input : ProblemInput)
      → Reaches a b
      → Reaches a (update_problem new_id id now admin_id input b).1
  changes :
      {b : Desk} (action : Action) (id now admin_id : ℕ)
      → Reaches a b
      → Reaches a (change_problem_state action id now admin_id b).1
  tags :
      {b : Desk} (lower : Text → Text) (name : Text)
      → Reaches a b
      → Reaches a (create_tag lower name b).1

-- Where every slug and every id stands for at most one problem, it still does after any sequence of
-- problems created, saved, published, withdrawn, archived and restored, and of tags created, whether
-- they succeed or are refused; requests come one at a time.
pub Reaches-AreUnique : {a b : Desk} → Reaches a b → AreUnique a.problems → AreUnique b.problems
Reaches-AreUnique nothing h = h
Reaches-AreUnique (creates {b} new_id id now admin_id input r new) h =
    create_problem-AreUnique new_id id now admin_id input b new (Reaches-AreUnique r h)
Reaches-AreUnique (updates {b} new_id id now admin_id input r) h =
    update_problem-AreUnique new_id id now admin_id input b (Reaches-AreUnique r h)
Reaches-AreUnique (changes {b} action id now admin_id r) h =
    change_problem_state-AreUnique action id now admin_id b (Reaches-AreUnique r h)
Reaches-AreUnique (tags {b} lower name r) h =
    subst AreUnique (sym (create_tag-problems lower name b)) (Reaches-AreUnique r h)
