-- ===== src/Api/Problems/Saving.antt =====
-- `_apply`, update_problem, create_problem and create_tag of
-- apps/api/app/modules/problems/admin_service.py. The commit succeeds; `new_id` gives the id of a
-- test case that is new at a position.
use sahucodex.Prelude.{
  ℕ, ◌+◌, Bool, not, List, [], ◌∷◌, ◌++◌, map, Option, none, some, ◌==◌, if◌then◌else◌, keep_if,
  any_of, first_of?, Outcome, returned, raised, raise_if, ◌>>=◌, ◌>>◌,
}
use sahucodex.Prelude.Texts.{Text, eq_text, sorted_set}
use sahucodex.Strings.{strip}
use sahucodex.Api.Tables.{ProblemTestCase, Difficulty, CaseKind}
use sahucodex.Api.Problems.{
  ProblemExample, ProblemStarterCode, EditedProblem, ProblemError, unknown_languages,
  unknown_test_case, is_empty,
}

pub record CaseInput : Type 0 where
  pub id : Option ℕ
  pub kind : CaseKind
  pub input : Text
  pub expected_output : Text
  pub show_as_example : Bool
  pub example_explanation : Option Text

pub record ProblemInput : Type 0 where
  pub title : Text
  pub slug : Text
  pub description : Text
  pub difficulty : Difficulty
  pub constraints : Text
  pub input_format : Text
  pub output_format : Text
  pub time_limit_ms : ℕ
  pub memory_limit_mb : ℕ
  pub checker : Text
  pub tags : List Text
  pub hints : List Text
  pub editorial : Option Text
  pub function_signature : Option Text
  pub expected_time_complexity : Option Text
  pub expected_space_complexity : Option Text
  pub starter_code : List ProblemStarterCode
  pub test_cases : List CaseInput

-- `text or None`
abbrev pub or_none : Option Text → Option Text
or_none (some (c ∷ text)) = some (c ∷ text)
or_none _ = none

abbrev pub is_case : ℕ → ProblemTestCase → Bool
is_case id row = row.id == id

abbrev pub with_input : CaseInput → ℕ → ProblemTestCase → ProblemTestCase
with_input item position row = record row {
  kind = item.kind;
  position = position;
  input_data = item.input;
  expected_output = item.expected_output;
}

abbrev pub new_case : ℕ → ℕ → CaseInput → ProblemTestCase
new_case id problem_id item = record {
  id = id;
  problem_id = problem_id;
  kind = item.kind;
  position = 0;
  input_data = item.input;
  expected_output = item.expected_output;
}

-- The row of a test case that is sent, and the ids seen with it.
unfoldable pub case_of :
    (ℕ → ℕ)
    → EditedProblem
    → ℕ
    → List ℕ
    → CaseInput
    → Outcome ProblemError (ProblemTestCase × List ℕ)
case_of new_id problem position seen item = elim item.id [
  | none ↦ returned (with_input item position (new_case (new_id position) problem.id item), seen)
  | some id ↦ elim (first_of? (is_case id) problem.test_cases) [
    | none ↦ raised unknown_test_case
    | some row ↦
        if any_of (λ other. other == id) seen
        then raised unknown_test_case
        else returned (with_input item position row, id ∷ seen)
  ]
]

unfoldable pub cases_of :
    (ℕ → ℕ)
    → EditedProblem
    → ℕ
    → List ℕ
    → List CaseInput
    → Outcome ProblemError (List (ProblemTestCase × CaseInput))
unfolding case_of
cases_of new_id problem position seen [] = returned []
cases_of new_id problem position seen (item ∷ items) =
    case_of new_id problem position seen item >>= (λ one.
      cases_of new_id problem (position + 1) one.1 items
      >>= (λ rest. returned ((one.0, item) ∷ rest)))

abbrev pub is_example_of : ProblemTestCase → ProblemExample → Bool
is_example_of row example = example.test_case_id == row.id

abbrev pub or_new_example : Option ProblemExample → ProblemTestCase → ProblemExample
or_new_example (some example) row = example
or_new_example none row = record { test_case_id = row.id; position = 0; explanation = none }

-- The loop over the pairs that are shown.
unfoldable pub examples_of :
    List ProblemExample → ℕ → List (ProblemTestCase × CaseInput) → List ProblemExample
examples_of old index [] = []
examples_of old index ((row, item) ∷ pairs) =
    record (or_new_example (first_of? (is_example_of row) old) row) {
      position = index;
      explanation = or_none item.example_explanation;
    }
    ∷ examples_of old (index + 1) pairs

abbrev pub is_starter : Text → ProblemStarterCode → Bool
is_starter key item = eq_text item.language_key key

abbrev pub with_code : List ProblemStarterCode → ProblemStarterCode → ProblemStarterCode
with_code sent item = elim (first_of? (is_starter item.language_key) sent) [
  | none ↦ item
  | some other ↦ record item { code = other.code }
]

-- Rows of languages that are sent again are kept, the others are new.
unfoldable pub starters_of :
    List ProblemStarterCode → List ProblemStarterCode → List ProblemStarterCode
starters_of old sent =
    map (with_code sent) (keep_if (λ item. any_of (is_starter item.language_key) sent) old)
    ++ keep_if (λ item. not (any_of (is_starter item.language_key) old)) sent

unfoldable pub apply :
    (ℕ → ℕ) → List Text → ℕ → ProblemInput → EditedProblem → Outcome ProblemError EditedProblem
unfolding cases_of examples_of starters_of sorted_set
apply new_id enabled now input problem =
    let unknown = sorted_set (
      keep_if (λ key. not (any_of (eq_text key) enabled))
        (map (λ (item : ProblemStarterCode). item.language_key) input.starter_code)) in
    raise_if (not (is_empty unknown)) (unknown_languages unknown)
    >> (cases_of new_id problem 0 [] input.test_cases >>= (λ pairs. returned (record problem {
      slug = input.slug;
      title = strip input.title;
      description = input.description;
      difficulty = input.difficulty;
      constraints = input.constraints;
      input_format = input.input_format;
      output_format = input.output_format;
      time_limit_ms = input.time_limit_ms;
      memory_limit_mb = input.memory_limit_mb;
      checker = input.checker;
      editorial = or_none input.editorial;
      hints = input.hints;
      function_signature = or_none input.function_signature;
      expected_time_complexity = or_none input.expected_time_complexity;
      expected_space_complexity = or_none input.expected_space_complexity;
      tags = input.tags;
      starter_codes = starters_of problem.starter_codes input.starter_code;
      test_cases = map (λ (pair : ProblemTestCase × CaseInput). pair.0) pairs;
      examples =
          examples_of problem.examples 0
            (keep_if (λ (pair : ProblemTestCase × CaseInput). pair.1.show_as_example) pairs);
      updated_at = now;
    })))
