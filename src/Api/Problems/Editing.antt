-- ===== src/Api/Problems/Editing.antt =====
-- The writes of apps/api/app/modules/problems/admin_service.py, a transaction each. The id of a new
-- problem and the time are arguments; the address and the browser of an admin are left out.
use sahucodex.Prelude.{
  ℕ, Bool, true, false, ◌||◌, not, List, [], ◌∷◌, ◌++◌, map, Option, none, some, ltb, ◌==◌,
  if◌then◌else◌, keep_if, any_of, first_of?, length, Outcome, returned, raised, raise_if, or_raise,
  ◌>>◌,
}
use sahucodex.Prelude.Texts.{Text, eq_text, sorted_set}
use sahucodex.Prelude.Tables.{update_where, delete_where}
use sahucodex.Strings.{strip}
use sahucodex.Api.Tables.{Difficulty}
use sahucodex.Api.Contests.Entering.{ProgrammingLanguage}
use sahucodex.Api.Problems.{
  EditedProblem, ProblemError, problem_not_found, slug_taken, unknown_tags, is_empty, Action,
  change_state, invalid_tag, tag_exists,
}
use sahucodex.Api.Problems.Saving.{ProblemInput, apply}
use sahucodex.Api.Problems.Slugs.{slugify}

pub record Tag : Type 0 where
  pub name : Text
  pub slug : Text

pub data AuditAction : Type 0 where
  create update : AuditAction
  changes : Action → AuditAction

pub record AuditRow : Type 0 where
  pub action : AuditAction
  pub actor_id : ℕ
  pub target_id : ℕ
  pub slug : Text

pub data CacheKey : Type 0 where
  tags_key languages_key : CacheKey
  detail_cache_key : Text → CacheKey

-- The tables that an admin works on, and what is in the cache.
pub record Desk : Type 0 where
  pub problems : List EditedProblem
  pub tags : List Tag
  pub programming_languages : List ProgrammingLanguage
  pub audit : List AuditRow
  pub cached : List CacheKey

abbrev pub has_slug : Text → EditedProblem → Bool
has_slug slug problem = eq_text problem.slug slug

abbrev pub has_id : ℕ → EditedProblem → Bool
has_id id problem = problem.id == id

unfoldable pub load_problem : ℕ → Desk → Outcome ProblemError EditedProblem
load_problem id desk = or_raise (first_of? (has_id id) desk.problems) problem_not_found

abbrev pub enabled_language_keys : Desk → List Text
enabled_language_keys desk =
    map (λ (l : ProgrammingLanguage). l.key)
      (keep_if (λ (l : ProgrammingLanguage). l.is_enabled) desk.programming_languages)

-- The tags that are missing are reported once each, in order.
unfoldable pub resolve_tags : List Text → Desk → Outcome ProblemError Unit
unfolding sorted_set
resolve_tags slugs desk =
    let missing =
      sorted_set
        (keep_if (λ slug. not (any_of (λ (t : Tag). eq_text t.slug slug) desk.tags)) slugs) in
    raise_if (not (is_empty missing)) (unknown_tags missing)

abbrev pub is_own : Option ℕ → ℕ → Bool
is_own none id = false
is_own (some own) id = id == own

unfoldable pub check_slug : Text → Option ℕ → Desk → Outcome ProblemError Unit
check_slug slug own_id desk = elim (first_of? (has_slug slug) desk.problems) [
  | none ↦ returned tt
  | some taken ↦ raise_if (not (is_own own_id taken.id)) slug_taken
]

abbrev pub is_stale_key : List Text → CacheKey → Bool
is_stale_key slugs (detail_cache_key slug) = any_of (eq_text slug) slugs
is_stale_key slugs _ = true

abbrev pub invalidate : List Text → Desk → Desk
invalidate slugs desk = record desk { cached = delete_where (is_stale_key slugs) desk.cached }

abbrev pub record_audit : AuditAction → ℕ → EditedProblem → Desk → Desk
record_audit action actor_id problem desk =
    let row : AuditRow = record {
      action = action;
      actor_id = actor_id;
      target_id = problem.id;
      slug = problem.slug;
    } in
    record desk { audit = desk.audit ++ row ∷ [] }

-- `Problem(id=…, published=False)`, before `_apply` fills it in.
abbrev pub blank : ℕ → EditedProblem
blank id = record {
  id = id;
  slug = [];
  title = [];
  description = [];
  difficulty = Difficulty.easy;
  constraints = [];
  input_format = [];
  output_format = [];
  time_limit_ms = 0;
  memory_limit_mb = 0;
  checker = [];
  editorial = none;
  hints = [];
  function_signature = none;
  expected_time_complexity = none;
  expected_space_complexity = none;
  tags = [];
  starter_codes = [];
  test_cases = [];
  examples = [];
  published = false;
  published_at = none;
  archived_at = none;
  updated_at = 0;
}

-- What a request makes of a problem that it was sent.
unfoldable pub edited :
    (ℕ → ℕ)
    → Option ℕ
    → ℕ
    → ProblemInput
    → EditedProblem
    → Desk
    → Outcome ProblemError EditedProblem
unfolding check_slug resolve_tags
edited new_id own_id now input problem desk =
    check_slug input.slug own_id desk
    >> (resolve_tags input.tags desk >> apply new_id (enabled_language_keys desk) now input problem)

unfoldable pub create_problem :
    (ℕ → ℕ) → ℕ → ℕ → ℕ → ProblemInput → Desk → Outcome ProblemError EditedProblem × Desk
unfolding edited
create_problem new_id id now admin_id input desk =
    elim (edited new_id none now input (blank id) desk) [
      | raised e ↦ (raised e, desk)
      | returned problem ↦ (
        returned problem,
        invalidate (input.slug ∷ []) (
            record_audit create admin_id problem
              (record desk { problems = desk.problems ++ problem ∷ [] })),
      )
    ]

abbrev pub with_problem : ℕ → EditedProblem → Desk → Desk
with_problem id problem desk = record desk {
  problems = update_where (has_id id) (λ old. problem) desk.problems;
}

unfoldable pub update_problem :
    (ℕ → ℕ) → ℕ → ℕ → ℕ → ProblemInput → Desk → Outcome ProblemError EditedProblem × Desk
unfolding load_problem edited
update_problem new_id id now admin_id input desk = elim (load_problem id desk) [
  | raised e ↦ (raised e, desk)
  | returned old ↦ elim (edited new_id (some old.id) now input old desk) [
    | raised e ↦ (raised e, desk)
    | returned problem ↦ (
      returned problem,
      invalidate (old.slug ∷ input.slug ∷ [])
          (record_audit update admin_id problem (with_problem id problem desk)),
    )
  ]
]

unfoldable pub change_problem_state :
    Action → ℕ → ℕ → ℕ → Desk → Outcome ProblemError EditedProblem × Desk
unfolding load_problem change_state
change_problem_state action id now admin_id desk = elim (load_problem id desk) [
  | raised e ↦ (raised e, desk)
  | returned old ↦ elim (change_state action (enabled_language_keys desk) now old) [
    | raised e ↦ (raised e, desk)
    | returned problem ↦ (
      returned problem,
      invalidate (problem.slug ∷ [])
          (record_audit (changes action) admin_id problem (with_problem id problem desk)),
    )
  ]
]

abbrev pub is_tags_key : CacheKey → Bool
is_tags_key tags_key = true
is_tags_key _ = false

-- `lower` is str.lower, and what PostgreSQL's lower does to the names of tags.
unfoldable pub create_tag : (Text → Text) → Text → Desk → Outcome ProblemError Tag × Desk
unfolding slugify
create_tag lower name desk =
    let trimmed = strip name in
    let slug = slugify lower trimmed in
    let tag : Tag = record { name = trimmed; slug = slug } in
    if ltb (length slug) 2
    then (raised invalid_tag, desk)
    else if any_of (λ (t : Tag). eq_text t.slug slug || eq_text (lower t.name) (lower trimmed))
        desk.tags
    then (raised tag_exists, desk)
    else (
      returned tag,
      record desk { tags = desk.tags ++ tag ∷ []; cached = delete_where is_tags_key desk.cached },
    )
