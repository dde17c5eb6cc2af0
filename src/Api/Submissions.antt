-- ===== src/Api/Submissions.antt =====
-- apps/api/app/modules/submissions/service.py: what is checked before a submission is accepted, and
-- how its row and its job come to be.
pub mod Accepting
mod Tests
use sahucodex.Prelude.{
  ℕ, ◌+◌, ◌/◌, Bool, true, false, ◌&&◌, not, List, [], ◌∷◌, ◌++◌, Option, none, some, ltb, leb,
  ◌==◌, if◌then◌else◌, any_of, Outcome, returned, raised, raise_if, ◌>>◌,
}
use sahucodex.Prelude.Texts.{Text, codes}
use sahucodex.Prelude.Tables.{count_where, update_where}
use sahucodex.Strings.{strip}
use sahucodex.Judge.Engine.{system_error}
use sahucodex.Judge.Pipeline.{World, Event, submission_queued, is_submission}
use sahucodex.Judge.Pipeline.Closing.{publish, closed_as_failed}
use sahucodex.Api.Tables.{Database, Submission, queued, is_open}

pub record SubmitSettings : Type 0 where
  pub submission_max_source_bytes : ℕ
  pub max_inflight_submissions : ℕ
  pub judge_stale_after : ℕ

pub record ProblemRef : Type 0 where
  pub id : ℕ
  pub slug : Text

pub data SubmitError : Type 0 where
  -- 422, with the limit in KiB, and the two invalid sources
  source_too_large : ℕ → SubmitError
  source_has_nul source_is_empty : SubmitError
  -- 429, 409 and 503
  too_many_pending problem_not_judgeable judge_unavailable : SubmitError

-- How many bytes UTF-8 takes for a code point.
abbrev pub utf8_bytes : ℕ → ℕ
utf8_bytes c = if ltb c 128 then 1 else if ltb c 2048 then 2 else if ltb c 65536 then 3 else 4

abbrev pub utf8_size : Text → ℕ
utf8_size [] = 0
utf8_size (c ∷ text) = utf8_bytes c + utf8_size text

-- `limit or settings.submission_max_source_bytes`
abbrev pub limit_or : Option ℕ → ℕ → ℕ
limit_or none default = default
limit_or (some limit) default = if limit == 0 then default else limit

abbrev pub is_empty : Text → Bool
is_empty [] = true
is_empty (c ∷ text) = false

unfoldable pub validate_source : SubmitSettings → Text → Option ℕ → Outcome SubmitError Unit
unfolding strip
validate_source settings source limit =
    let allowed = limit_or limit settings.submission_max_source_bytes in
    raise_if (ltb allowed (utf8_size source)) (source_too_large (allowed / 1024))
    >> raise_if (any_of (λ c. c == 0) source) source_has_nul
    >> raise_if (is_empty (strip source)) source_is_empty

abbrev pub is_in_flight : SubmitSettings → ℕ → ℕ → Submission → Bool
is_in_flight settings user_id now row =
    row.user_id == user_id
    && is_open row.status
    && ltb now (row.created_at + settings.judge_stale_after)

unfoldable pub has_too_many_pending : Database → SubmitSettings → ℕ → ℕ → Bool
has_too_many_pending db settings user_id now =
    leb settings.max_inflight_submissions
      (count_where (is_in_flight settings user_id now) db.submissions)

unfoldable pub count_tests : Database → ℕ → ℕ
count_tests db problem_id = count_where (λ t. t.problem_id == problem_id) db.problem_test_cases

abbrev pub new_submission : ℕ → ℕ → ℕ → Text → Text → Option ℕ → ℕ → ℕ → Submission
new_submission id user_id problem_id language_key source_code contest_id total now = record {
  id = id;
  user_id = user_id;
  problem_id = problem_id;
  language_key = language_key;
  source_code = source_code;
  contest_id = contest_id;
  status = queued;
  verdict = none;
  runtime_ms = none;
  memory_kb = none;
  passed_count = 0;
  total_count = total;
  created_at = now;
  started_at = none;
  finished_at = none;
}

-- `enqueue` is the queue that the API was given: it may fail, and it may judge before it returns.
-- `id` is the id that the row is given.
module _ {S : Type 0} (enqueue : ℕ → World S → Outcome Text Unit × World S)
    (settings : SubmitSettings) where
  abbrev pub with_row : Submission → World S → World S
  with_row row w = record w { db = record w.db { submissions = w.db.submissions ++ row ∷ [] } }

  abbrev pub with_failed : ℕ → ℕ → World S → World S
  with_failed id now w = record w {
    db = record w.db {
      submissions = update_where (is_submission id) (closed_as_failed now) w.db.submissions;
    };
  }

  unfoldable pub create_and_enqueue :
      ℕ
      → ℕ
      → ProblemRef
      → Text
      → Text
      → Option ℕ
      → ℕ
      → World S
      → Outcome SubmitError Submission × World S
  unfolding has_too_many_pending count_tests
  create_and_enqueue id user_id problem language_key source_code contest_id now w =
      let total = count_tests w.db problem.id in
      let row =
        new_submission id user_id problem.id language_key source_code contest_id total now in
      if has_too_many_pending w.db settings user_id now
      then (raised too_many_pending, w)
      else if total == 0
      then (raised problem_not_judgeable, w)
      else (let (sent, w') = enqueue id (with_row row w) in
          elim sent [
            | raised e ↦ (raised judge_unavailable, with_failed id now w')
            | returned _ ↦ (returned row, publish (submission_queued user_id id problem.slug) w')
          ])
