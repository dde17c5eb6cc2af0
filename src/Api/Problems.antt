-- ===== src/Api/Problems.antt =====
-- apps/api/app/modules/problems/admin_service.py: what an admin writes, and when it may be published.
-- A tag is its slug; the ids of new rows and the time are arguments; the texts of a problem that are
-- only copied are kept, its counts and creation date are left out.
pub mod Issues
pub mod Saving
pub mod Ready
pub mod Slugs
pub mod Starters
pub mod Roundtrip
pub mod Editing
pub mod Rows
pub mod Edits
pub mod Unique
mod Tests
use sahucodex.Prelude.{
  ℕ, ◌+◌, Bool, true, false, not, List, [], ◌∷◌, ◌++◌, Option, none, some, ltb, if◌then◌else◌,
  keep_if, any_of, length, Outcome, returned, raised,
}
use sahucodex.Prelude.Texts.{Text, codes, eq_text}
use sahucodex.Strings.{strip, rstrip}
use sahucodex.Api.Tables.{ProblemTestCase, Difficulty, CaseKind, is_public_case}

pub record ProblemExample : Type 0 where
  pub test_case_id : ℕ
  pub position : ℕ
  pub explanation : Option Text

pub record ProblemStarterCode : Type 0 where
  pub language_key : Text
  pub code : Text

-- A row of `problems` with the rows that its relationships hold.
pub record EditedProblem : Type 0 where
  pub id : ℕ
  pub slug : Text
  pub title : Text
  pub description : Text
  pub difficulty : Difficulty
  pub constraints : Text
  pub input_format : Text
  pub output_format : Text
  pub time_limit_ms : ℕ
  pub memory_limit_mb : ℕ
  pub checker : Text
  pub editorial : Option Text
  pub hints : List Text
  pub function_signature : Option Text
  pub expected_time_complexity : Option Text
  pub expected_space_complexity : Option Text
  pub tags : List Text
  pub starter_codes : List ProblemStarterCode
  pub test_cases : List ProblemTestCase
  pub examples : List ProblemExample
  pub published : Bool
  pub published_at : Option ℕ
  pub archived_at : Option ℕ
  pub updated_at : ℕ

pub data ValidationIssue : Type 0 where
  description_too_short no_tags no_example no_starter_code : ValidationIssue
  too_few_hidden : (found : ℕ) → ValidationIssue
  required : (field : Text) → ValidationIssue
  empty_output duplicate_test : (index : ℕ) → ValidationIssue
  unknown_language empty_starter : (language_key : Text) → ValidationIssue

pub data ProblemError : Type 0 where
  -- 404
  problem_not_found : ProblemError
  -- 409
  slug_taken problem_archived tag_exists : ProblemError
  -- 422
  problem_not_ready : List ValidationIssue → ProblemError
  unknown_tags unknown_languages : List Text → ProblemError
  unknown_test_case invalid_tag : ProblemError

abbrev pub min_hidden_tests : ℕ
min_hidden_tests = 3

abbrev pub is_empty {ℓ} : {A : Type ℓ} → List A → Bool
is_empty [] = true
is_empty (x ∷ xs) = false

-- `if test: add(…)`
abbrev pub add_if : Bool → ValidationIssue → List ValidationIssue
add_if test issue = if test then issue ∷ [] else []

abbrev pub is_hidden_case : ProblemTestCase → Bool
is_hidden_case row = not (is_public_case row.kind)

-- The loop over the test cases; `seen` are the inputs so far.
unfoldable pub case_issues : ℕ → List Text → List ProblemTestCase → List ValidationIssue
case_issues index seen [] = []
case_issues index seen (row ∷ rows) =
    let key = rstrip row.input_data in
    add_if (is_empty (strip row.expected_output)) (empty_output index)
    ++ (add_if (any_of (eq_text key) seen) (duplicate_test index)
        ++ case_issues (index + 1) (key ∷ seen) rows)

unfoldable pub starter_issues : List Text → List ProblemStarterCode → List ValidationIssue
starter_issues enabled [] = []
starter_issues enabled (item ∷ items) =
    add_if (not (any_of (eq_text item.language_key) enabled)) (unknown_language item.language_key)
    ++ (add_if (is_empty (strip item.code)) (empty_starter item.language_key)
        ++ starter_issues enabled items)

unfoldable pub validate_problem : EditedProblem → List Text → List ValidationIssue
unfolding case_issues starter_issues
validate_problem problem enabled_languages =
    let hidden = length (keep_if is_hidden_case problem.test_cases) in
    add_if (ltb (length (strip problem.description)) 20) description_too_short
    ++ (add_if (is_empty (strip problem.input_format)) (required (codes "input_format"))
        ++ (add_if (is_empty (strip problem.output_format)) (required (codes "output_format"))
            ++ (add_if (is_empty (strip problem.constraints)) (required (codes "constraints"))
                ++ (add_if (is_empty problem.tags) no_tags
                    ++ (add_if (is_empty problem.examples) no_example
                        ++ (add_if (ltb hidden min_hidden_tests) (too_few_hidden hidden)
                            ++ (case_issues 1 [] problem.test_cases
                                ++ (add_if (is_empty problem.starter_codes) no_starter_code
                                    ++ starter_issues enabled_languages
                                        problem.starter_codes))))))))

pub data Action : Type 0 where
  publish unpublish archive restore : Action

pub data Status : Type 0 where
  draft published archived : Status

abbrev pub is_archived : Option ℕ → Bool
is_archived none = false
is_archived (some at) = true

unfoldable pub status_of : EditedProblem → Status
status_of problem =
    if is_archived problem.archived_at
    then archived
    else if problem.published
    then published
    else draft

-- `problem.published_at or utcnow()`
abbrev pub or_now : Option ℕ → ℕ → Option ℕ
or_now none now = some now
or_now (some at) now = some at

-- The change of a problem that was found. The audit entry, the commit and the cache follow.
unfoldable pub change_state :
    Action → List Text → ℕ → EditedProblem → Outcome ProblemError EditedProblem
change_state publish enabled_languages now problem =
    let issues = validate_problem problem enabled_languages in
    if is_archived problem.archived_at
    then raised problem_archived
    else if is_empty issues
    then returned (record problem {
      published = true;
      published_at = or_now problem.published_at now;
      updated_at = now;
    })
    else raised (problem_not_ready issues)
change_state unpublish enabled_languages now problem =
    returned (record problem { published = false; updated_at = now })
change_state archive enabled_languages now problem =
    returned (record problem { archived_at = some now; updated_at = now })
change_state restore enabled_languages now problem =
    returned (record problem { archived_at = none; updated_at = now })
