-- ===== src/Api/Problems/Ready.antt =====
-- When a problem may be published (apps/api/app/modules/problems/admin_service.py).
use sahucodex.Prelude.{
  ◌≤◌, ◌≡◌, ◌≢◌, ◌↔◌, refl, Bool, false, List, [], ◌∷◌, ◌++◌, arith, All, map, length, keep_if, ltb,
}
use sahucodex.Prelude.Texts.{Text, codes}
use sahucodex.Prelude.Tables.{count_where}
use sahucodex.Strings.{strip}
use sahucodex.Api.Tables.{ProblemTestCase}
use sahucodex.Api.Problems.{
  EditedProblem, ValidationIssue, is_empty, add_if, is_hidden_case, case_issues, starter_issues,
  validate_problem, min_hidden_tests, description_too_short, required, no_tags, no_example,
  too_few_hidden, no_starter_code,
}
use sahucodex.Api.Problems.Issues.{
  HasInk, AreDistinct, key_of, IsFilled, is_empty-strip, case_issues_none, starter_issues_none,
  add_if_none, unseen_nothing,
}

-- What learners need before they can see a problem.
pub record IsReady (problem : EditedProblem) (enabled : List Text) : Type 0 where
  pub described : 20 ≤ length (strip problem.description)
  pub states_input : HasInk problem.input_format
  pub states_output : HasInk problem.output_format
  pub states_constraints : HasInk problem.constraints
  pub tagged : problem.tags ≢ []
  pub exemplified : problem.examples ≢ []
  pub tested : min_hidden_tests ≤ count_where is_hidden_case problem.test_cases
  pub answered : All (λ row. HasInk row.expected_output) problem.test_cases
  pub distinct : AreDistinct (map key_of problem.test_cases)
  pub started : problem.starter_codes ≢ []
  pub filled : All (IsFilled enabled) problem.starter_codes

is_empty_none {ℓ} : {A : Type ℓ} (xs : List A) → (is_empty xs ≡ false) ↔ (xs ≢ [])
is_empty_none [] = (λ h. absurd (ground (arith, h)), λ h. absurd (h refl))
is_empty_none (x ∷ xs) = (λ h e. absurd (ground (arith, e)), λ h. refl)

length-keep_if_hidden :
    (rows : List ProblemTestCase)
    → length (keep_if is_hidden_case rows) ≡ count_where is_hidden_case rows
length-keep_if_hidden [] = refl
length-keep_if_hidden (row ∷ rows) = ground (arith, length-keep_if_hidden rows)

append_none : (xs ys : List ValidationIssue) → (xs ++ ys ≡ []) ↔ ((xs ≡ []) × (ys ≡ []))
append_none [] ys = (λ h. (refl, h), λ h. h.1)
append_none (x ∷ xs) ys = (λ h. absurd (ground (arith, h)), λ h. absurd (ground (arith, h.0)))

-- The issues with the rows that belong to the problem.
abbrev row_issues : EditedProblem → List Text → List ValidationIssue
row_issues problem enabled =
    case_issues 1 [] problem.test_cases
    ++ (add_if (is_empty problem.starter_codes) no_starter_code
        ++ starter_issues enabled problem.starter_codes)

row_issues_none :
    (problem : EditedProblem) (enabled : List Text)
    → (row_issues problem enabled ≡ []) ↔ (
        All (λ row. HasInk row.expected_output) problem.test_cases
        × AreDistinct (map key_of problem.test_cases)
        × (problem.starter_codes ≢ [])
        × All (IsFilled enabled) problem.starter_codes)
row_issues_none problem enabled =
    let items = problem.starter_codes in
    let cases = case_issues_none 1 [] problem.test_cases in
    let outer =
      append_none (case_issues 1 [] problem.test_cases)
        (add_if (is_empty items) no_starter_code ++ starter_issues enabled items) in
    let inner = add_if_none (is_empty items) no_starter_code (starter_issues enabled items) in
    let starters = starter_issues_none enabled items in
    let some_items = is_empty_none items in
    (
      λ h.
          let (sound, rest) = outer.0 h in
          let (started, others) = inner.0 rest in
          let (inks, distinct, unseen) = cases.0 sound in
          (inks, distinct, some_items.0 started, starters.0 others),
      λ h. outer.1 (
        cases.1 (h.0, h.1, unseen_nothing problem.test_cases),
        inner.1 (some_items.1 h.2, starters.1 h.3),
      ),
    )

-- The issues that come first, one for each test that holds.
abbrev add_ifs : List (Bool × ValidationIssue) → List ValidationIssue → List ValidationIssue
add_ifs [] rest = rest
add_ifs ((test, issue) ∷ tests) rest = add_if test issue ++ add_ifs tests rest

add_ifs_none :
    (tests : List (Bool × ValidationIssue)) (rest : List ValidationIssue)
    → (add_ifs tests rest ≡ []) ↔ (All (λ t. t.0 ≡ false) tests × (rest ≡ []))
add_ifs_none [] rest = (λ h. (tt, h), λ h. h.1)
add_ifs_none ((test, issue) ∷ tests) rest =
    let one = add_if_none test issue (add_ifs tests rest) in
    let later = add_ifs_none tests rest in
    (
      λ h. let (passed, others) = one.0 h in ((passed, (later.0 others).0), (later.0 others).1),
      λ h. one.1 (h.0.0, later.1 (h.0.1, h.1)),
    )

abbrev first_tests : EditedProblem → List (Bool × ValidationIssue)
first_tests problem =
    let hidden = length (keep_if is_hidden_case problem.test_cases) in
    (ltb (length (strip problem.description)) 20, description_too_short)
    ∷ (is_empty (strip problem.input_format), required (codes "input_format"))
    ∷ (is_empty (strip problem.output_format), required (codes "output_format"))
    ∷ (is_empty (strip problem.constraints), required (codes "constraints"))
    ∷ (is_empty problem.tags, no_tags)
    ∷ (is_empty problem.examples, no_example)
    ∷ (ltb hidden min_hidden_tests, too_few_hidden hidden)
    ∷ []

-- A problem has no issues exactly when it is ready: the texts are there, it has a tag, an example
-- and enough hidden test cases, every test case has an answer, no two have the same input up to
-- white space at its end, and every starter code is some code in a language that is enabled.
pub validate_problem_iff :
    (problem : EditedProblem) (enabled : List Text)
    → (validate_problem problem enabled ≡ []) ↔ IsReady problem enabled
unfolding validate_problem
validate_problem_iff problem enabled =
    let firsts = add_ifs_none (first_tests problem) (row_issues problem enabled) in
    let rows = row_issues_none problem enabled in
    let counted = length-keep_if_hidden problem.test_cases in
    (
      λ h.
          let (a, others) = firsts.0 h in
          let (inks, distinct, started, filled) = rows.0 others in
          record {
            described = ground (arith, a.0);
            states_input = (is_empty-strip problem.input_format).0 a.1.0;
            states_output = (is_empty-strip problem.output_format).0 a.1.1.0;
            states_constraints = (is_empty-strip problem.constraints).0 a.1.1.1.0;
            tagged = (is_empty_none problem.tags).0 a.1.1.1.1.0;
            exemplified = (is_empty_none problem.examples).0 a.1.1.1.1.1.0;
            tested = ground (arith, a.1.1.1.1.1.1.0, counted);
            answered = inks;
            distinct = distinct;
            started = started;
            filled = filled;
          },
      λ h.
          let tests : All (λ t. t.0 ≡ false) (first_tests problem) = (
            ground (arith, h.described),
            (
              (is_empty-strip problem.input_format).1 h.states_input,
              (
                (is_empty-strip problem.output_format).1 h.states_output,
                (
                  (is_empty-strip problem.constraints).1 h.states_constraints,
                  (
                    (is_empty_none problem.tags).1 h.tagged,
                    (
                      (is_empty_none problem.examples).1 h.exemplified,
                      (ground (arith, h.tested, counted), tt),
                    ),
                  ),
                ),
              ),
            ),
          ) in
          firsts.1 (tests, rows.1 (h.answered, h.distinct, h.started, h.filled)),
    )
