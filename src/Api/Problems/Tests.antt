-- ===== src/Api/Problems/Tests.antt =====
-- A small problem, and instances of the theorems on
-- apps/api/app/modules/problems/admin_service.py.
use sahucodex.Prelude.{
  ℕ, ◌+◌, ◌≡◌, ◌⊎◌, ◌↔◌, refl, ap₂, inl, inr, Bool, true, false, ◌&&◌, [], ◌∷◌, map, none, some,
  leb, arith, returned, raised, if◌then◌else◌, Bool-cases,
}
use sahucodex.Prelude.Texts.{Text, codes}
use sahucodex.Strings.{strip, is_space}
use sahucodex.Api.Tables.{ProblemTestCase, CaseKind, public_case, hidden_case, easy}
use sahucodex.Api.Problems.{
  EditedProblem, validate_problem, duplicate_test, too_few_hidden, Action, change_state,
  problem_archived, slug_taken,
}
use sahucodex.Api.Problems.Ready.{IsReady, validate_problem_iff}
use sahucodex.Api.Problems.Roundtrip.{input_of, placed, shown_examples, apply-input_of}
use sahucodex.Api.Problems.Saving.{apply, or_none}
use sahucodex.Api.Problems.Editing.{Desk, create_problem, update_problem}
use sahucodex.Api.Problems.Rows.{AreUnique}
use sahucodex.Api.Problems.Unique.{nothing, creates, updates, Reaches-AreUnique}
use sahucodex.Api.Problems.Slugs.{is_slug_char, slugify, matches_from, matches_slug, slugify_lem}

abbrev a_case : ℕ → CaseKind → Text → ProblemTestCase
a_case id kind input = record {
  id = id;
  problem_id = 2;
  kind = kind;
  position = 7;
  input_data = input;
  expected_output = codes "9";
}

abbrev squares : EditedProblem
squares = record {
  id = 2;
  slug = codes "squares";
  title = codes " Squares";
  description = codes "Print the square of a number.";
  difficulty = easy;
  constraints = codes "n < 10";
  input_format = codes "n";
  output_format = codes "n * n";
  time_limit_ms = 1000;
  memory_limit_mb = 64;
  checker = codes "lines";
  editorial = some [];
  hints = [];
  function_signature = none;
  expected_time_complexity = none;
  expected_space_complexity = none;
  tags = codes "math" ∷ [];
  starter_codes = record { language_key = codes "python"; code = codes "n = 0" } ∷ [];
  test_cases =
      a_case 11 public_case (codes "3")
      ∷ a_case 12 hidden_case (codes "4")
      ∷ a_case 13 hidden_case (codes "5")
      ∷ a_case 14 hidden_case (codes "6")
      ∷ [];
  examples = record { test_case_id = 11; position = 4; explanation = some (codes "3 * 3") } ∷ [];
  published = false;
  published_at = none;
  archived_at = none;
  updated_at = 0;
}

abbrev repeated : EditedProblem
repeated = record squares {
  test_cases = a_case 11 public_case (codes "3") ∷ a_case 12 hidden_case (codes "3 ") ∷ [];
}

issues_of_repeated :
    validate_problem repeated (codes "python" ∷ []) ≡ too_few_hidden 1 ∷ duplicate_test 2 ∷ []
unfolding validate_problem strip is_space
issues_of_repeated = refl

publishing_archived :
    change_state Action.publish [] 5 (record squares { archived_at = some 3 })
    ≡ raised problem_archived
unfolding change_state
publishing_archived = refl

validate_problem_iff_example :
    (validate_problem squares (codes "python" ∷ []) ≡ []) ↔ IsReady squares (codes "python" ∷ [])
validate_problem_iff_example = validate_problem_iff squares (codes "python" ∷ [])

-- `str.lower` on ASCII.
ascii_lower : Text → Text
ascii_lower = map (λ c. if leb 65 c && leb c 90 then c + 32 else c)

slug_of_a_name : slugify ascii_lower (codes "Two  Sum -- II!") ≡ codes "two-sum-ii"
unfolding slugify ascii_lower
slug_of_a_name = refl

ascii_lower-matches : (dash : Bool) (s : Text) → matches_from dash s ≡ true → ascii_lower s ≡ s
unfolding matches_from ascii_lower
ascii_lower-matches dash [] h = refl
ascii_lower-matches dash (c ∷ s) h = elim (Bool-cases (is_slug_char c)) [
  | inl kept ↦
      ap₂ (◌∷◌) (ground (arith, kept)) (ascii_lower-matches true s (ground (arith, h, kept)))
  | inr other ↦
      ap₂ (◌∷◌) (ground (arith, h, other)) (ascii_lower-matches false s (ground (arith, h, other)))
]

ascii_lower_keeps : (s : Text) → matches_slug s ≡ true → ascii_lower s ≡ s
unfolding matches_slug
ascii_lower_keeps = ascii_lower-matches false

slugify_lem_example :
    ((slugify ascii_lower (codes "Two  Sum") ≡ [])
      ⊎ (matches_slug (slugify ascii_lower (codes "Two  Sum")) ≡ true))
    × (slugify ascii_lower (slugify ascii_lower (codes "Two  Sum"))
        ≡ slugify ascii_lower (codes "Two  Sum"))
unfolding ascii_lower
slugify_lem_example = slugify_lem ascii_lower (codes "Two  Sum") refl ascii_lower_keeps

apply-input_of_example :
    apply (λ position. 20 + position) (codes "python" ∷ []) 9 (input_of squares) squares
    ≡ returned (record squares {
      title = strip squares.title;
      editorial = or_none squares.editorial;
      function_signature = or_none squares.function_signature;
      expected_time_complexity = or_none squares.expected_time_complexity;
      expected_space_complexity = or_none squares.expected_space_complexity;
      test_cases = placed 0 squares.test_cases;
      examples = shown_examples squares.examples 0 squares.test_cases;
      updated_at = 9;
    })
apply-input_of_example =
    apply-input_of (λ position. 20 + position) (codes "python" ∷ []) 9 squares (refl, tt)
      (refl, (refl, (refl, (refl, tt)))) (refl, tt)

abbrev desk : Desk
desk = record {
  problems = squares ∷ [];
  tags = record { name = codes "Math"; slug = codes "math" } ∷ [];
  programming_languages = record { key = codes "python"; is_enabled = true } ∷ [];
  audit = [];
  cached = [];
}

abbrev new_id : ℕ → ℕ
new_id position = 20 + position

slug_is_taken : (create_problem new_id 3 9 1 (input_of squares) desk).0 ≡ raised slug_taken
unfolding create_problem
slug_is_taken = refl

desk-AreUnique : AreUnique desk.problems
desk-AreUnique = (λ slug. ground arith, λ id. ground arith)

Reaches-AreUnique_example :
    AreUnique
      (update_problem new_id 2 10 1
        (input_of squares)
        (create_problem new_id 3 9 1 (input_of squares) desk).1).1.problems
Reaches-AreUnique_example =
    Reaches-AreUnique
      (updates new_id 2 10 1 (input_of squares)
        (creates new_id 3 9 1 (input_of squares) nothing refl))
      desk-AreUnique
