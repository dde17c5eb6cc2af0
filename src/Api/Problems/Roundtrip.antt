-- ===== src/Api/Problems/Roundtrip.antt =====
-- An admin opens a problem and saves it as it is: `to_admin_out` and then `_apply` of
-- apps/api/app/modules/problems/admin_service.py.
use sahucodex.Prelude.{
  ℕ, ◌+◌, ◌≡◌, refl, ap, inl, inr, Bool, true, false, List, [], ◌∷◌, map, Option, none, some, ◌==◌,
  ==_iff, arith, Option-cases, AreApart, found_apart, keep_if, any_of, first_of?, All, returned,
}
use sahucodex.Prelude.Texts.{Text}
use sahucodex.Strings.{strip}
use sahucodex.Api.Tables.{ProblemTestCase}
use sahucodex.Api.Problems.{ProblemExample, EditedProblem}
use sahucodex.Api.Problems.Starters.{same_language, AreKnown, starters_of_self, known_none}
use sahucodex.Api.Problems.Saving.{
  CaseInput, ProblemInput, is_case, cases_of, case_of, or_none, is_example_of, examples_of, apply,
}

abbrev pub is_some {ℓ} : {A : Type ℓ} → Option A → Bool
is_some none = false
is_some (some x) = true

abbrev pub explanation_of : Option ProblemExample → Option Text
explanation_of none = none
explanation_of (some example) = example.explanation

-- A test case as `to_admin_out` shows it, sent back.
abbrev pub case_input_of : List ProblemExample → ProblemTestCase → CaseInput
case_input_of examples row = record {
  id = some row.id;
  kind = row.kind;
  input = row.input_data;
  expected_output = row.expected_output;
  show_as_example = is_some (first_of? (is_example_of row) examples);
  example_explanation = explanation_of (first_of? (is_example_of row) examples);
}

abbrev pub input_of : EditedProblem → ProblemInput
input_of problem = record {
  title = problem.title;
  slug = problem.slug;
  description = problem.description;
  difficulty = problem.difficulty;
  constraints = problem.constraints;
  input_format = problem.input_format;
  output_format = problem.output_format;
  time_limit_ms = problem.time_limit_ms;
  memory_limit_mb = problem.memory_limit_mb;
  checker = problem.checker;
  tags = problem.tags;
  hints = problem.hints;
  editorial = problem.editorial;
  function_signature = problem.function_signature;
  expected_time_complexity = problem.expected_time_complexity;
  expected_space_complexity = problem.expected_space_complexity;
  starter_code = problem.starter_codes;
  test_cases = map (case_input_of problem.examples) problem.test_cases;
}

-- The test cases with their positions counted up.
abbrev pub placed : ℕ → List ProblemTestCase → List ProblemTestCase
placed position [] = []
placed position (row ∷ rows) = record row { position = position } ∷ placed (position + 1) rows

abbrev pub same_case : ProblemTestCase → ProblemTestCase → Bool
same_case row other = other.id == row.id

-- The pairs that `_apply` makes of test cases that are sent back.
abbrev pairs_of :
    List ProblemExample → ℕ → List ProblemTestCase → List (ProblemTestCase × CaseInput)
pairs_of examples position [] = []
pairs_of examples position (row ∷ rows) =
    (record row { position = position }, case_input_of examples row)
    ∷ pairs_of examples (position + 1) rows

abbrev AreNew : List ℕ → List ProblemTestCase → Type 0
AreNew seen rows = All (λ row. any_of (λ other. other == row.id) seen ≡ false) rows

abbrev AreFound : List ProblemTestCase → List ProblemTestCase → Type 0
AreFound all rows = All (λ row. first_of? (same_case row) all ≡ some row) rows

new_one_more :
    (id : ℕ) (seen : List ℕ) (rows : List ProblemTestCase)
    → any_of (is_case id) rows ≡ false
    → AreNew seen rows
    → AreNew (id ∷ seen) rows
new_one_more id seen [] apart h = tt
new_one_more id seen (row ∷ rows) apart h = (
  ground (arith, apart, h.0, ==_iff id row.id, ==_iff row.id id),
  new_one_more id seen rows (ground (arith, apart)) h.1,
)

new_nothing : (rows : List ProblemTestCase) → AreNew [] rows
new_nothing [] = tt
new_nothing (row ∷ rows) = (refl, new_nothing rows)

cases_of-case_input :
    (new_id : ℕ → ℕ) (problem : EditedProblem) (examples : List ProblemExample) (position : ℕ)
    (seen : List ℕ) (rows : List ProblemTestCase)
    → AreFound problem.test_cases rows
    → AreApart same_case rows
    → AreNew seen rows
    → cases_of new_id problem position seen (map (case_input_of examples) rows)
      ≡ returned (pairs_of examples position rows)
unfolding cases_of
cases_of-case_input new_id problem examples position seen [] found apart new = refl
cases_of-case_input new_id problem examples position seen (row ∷ rows) found apart new =
    let later =
      cases_of-case_input new_id problem examples (position + 1) (row.id ∷ seen) rows found.1
        apart.1 (new_one_more row.id seen rows apart.0 new.1) in
    rw (found.0, case_of) (rw (new.0, case_of) (rw later refl))

-- The examples, in the order of the test cases that they show.
abbrev pub shown_examples : List ProblemExample → ℕ → List ProblemTestCase → List ProblemExample
shown_examples examples index [] = []
shown_examples examples index (row ∷ rows) = elim (first_of? (is_example_of row) examples) [
  | none ↦ shown_examples examples index rows
  | some example ↦
      record example { position = index; explanation = or_none example.explanation }
      ∷ shown_examples examples (index + 1) rows
]

examples_of-pairs_of :
    (examples : List ProblemExample) (index position : ℕ) (rows : List ProblemTestCase)
    → examples_of examples index (
        keep_if
          (λ (pair : ProblemTestCase × CaseInput). pair.1.show_as_example)
          (pairs_of examples position rows))
      ≡ shown_examples examples index rows
unfolding examples_of
examples_of-pairs_of examples index position [] = refl
examples_of-pairs_of examples index position (row ∷ rows) =
    elim (Option-cases (first_of? (is_example_of row) examples)) [
      | inl hidden ↦
          rw (hidden, shown_examples) (examples_of-pairs_of examples index (position + 1) rows)
      | inr (example, shown) ↦
          rw (shown, shown_examples)
            (rw shown (
              ap
                (◌∷◌
                  (record example { position = index; explanation = or_none example.explanation }))
                (examples_of-pairs_of examples (index + 1) (position + 1) rows)))
    ]

map-pairs_of :
    (examples : List ProblemExample) (position : ℕ) (rows : List ProblemTestCase)
    → map (λ (pair : ProblemTestCase × CaseInput). pair.0) (pairs_of examples position rows)
      ≡ placed position rows
map-pairs_of examples position [] = refl
map-pairs_of examples position (row ∷ rows) =
    ap (◌∷◌ (record row { position = position })) (map-pairs_of examples (position + 1) rows)

-- A problem that is saved as it was opened, with its languages enabled, one test case to an id and
-- one starter code to a language, is what it was, but that its title loses white space at its ends,
-- texts that may be missing and are empty become missing, and test cases and examples are numbered
-- anew from 0 in the order of the test cases.
pub apply-input_of :
    (new_id : ℕ → ℕ) (enabled : List Text) (now : ℕ) (problem : EditedProblem)
    → AreKnown enabled problem.starter_codes
    → AreApart same_case problem.test_cases
    → AreApart same_language problem.starter_codes
    → apply new_id enabled now (input_of problem) problem
      ≡ returned (record problem {
        title = strip problem.title;
        editorial = or_none problem.editorial;
        function_signature = or_none problem.function_signature;
        expected_time_complexity = or_none problem.expected_time_complexity;
        expected_space_complexity = or_none problem.expected_space_complexity;
        test_cases = placed 0 problem.test_cases;
        examples = shown_examples problem.examples 0 problem.test_cases;
        updated_at = now;
      })
unfolding apply
apply-input_of new_id enabled now problem known apart separate =
    let found =
      found_apart same_case (λ row. (==_iff row.id row.id).1 refl)
        (λ row other. ground (arith, ==_iff other.id row.id, ==_iff row.id other.id))
        problem.test_cases apart in
    let cases =
      cases_of-case_input new_id problem problem.examples 0 [] problem.test_cases found apart
        (new_nothing problem.test_cases) in
    rw (known_none enabled problem.starter_codes known) (
      rw cases (
        rw (map-pairs_of problem.examples 0 problem.test_cases) (
          rw (examples_of-pairs_of problem.examples 0 0 problem.test_cases)
            (rw (starters_of_self problem.starter_codes separate) refl))))
