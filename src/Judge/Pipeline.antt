-- ===== src/Judge/Pipeline.antt =====
-- apps/judge/sahujudge/pipeline.py: a queued submission is claimed, judged and closed.
-- `S` is the state of the sandbox; the database answers every statement, and Redis is up or down.
pub mod Progress
pub mod Claiming
pub mod Closing
pub mod Trial
pub mod Outcomes
pub mod Judged
pub mod Redelivery
mod Tests
use sahucodex.Prelude.{
  ℕ, ◌+◌, ◌*◌, Bool, true, false, ◌&&◌, ◌||◌, not, List, [], ◌∷◌, ◌++◌, map, Option, none, some,
  ltb, ◌==◌, if◌then◌else◌, keep_if, any_of, first_of?, take, returned, raised, or_raise, ◌>>=◌,
}
use mathlib.Core.Option
use sahucodex.Prelude.Texts.{Text, codes, eq_text}
use sahucodex.Prelude.Int.{ℤ}
use sahucodex.Prelude.Tables.{count_where, update_where}
use sahucodex.Prelude.Sorting.{sorted_by}
use sahucodex.Judge.Failures.{Failure, Fallible, backend_error}
use sahucodex.Judge.Checkers.{Checker, Registry, get_checker}
use sahucodex.Judge.Languages.{LanguageSpec, get_language}
use sahucodex.Judge.Sandbox.{Sandbox}
use sahucodex.Judge.Engine.{
  Verdict, system_error, JudgeTest, JudgeConfig, JudgeReport, CaseOutcome, is_accepted,
  effective_time_limit_ms,
}
use sahucodex.Judge.Engine.Running.{judge_tests}
use sahucodex.Api.Tables.{
  Database, Submission, SubmissionStatus, queued, running, completed, failed, SubmissionResult,
  SubmissionTestResult, Problem, ProblemTestCase, CaseKind, ProgressStatus, attempted, solved,
  UserProblemProgress, UserStreak, Achievement, is_queued, is_open, is_public_case,
}
use sahucodex.Api.Profiles.{record_streak, evaluate_achievements}

pub record JudgeSettings : Type 0 where
  pub config : JudgeConfig
  pub max_compile_output_bytes : ℕ
  pub stale_after : ℕ
  -- the calendar day, in UTC, of a time
  pub day_of : ℕ → ℕ
  pub checkers : Registry

pub record ProblemSpec : Type 0 where
  pub id : ℕ
  pub slug : Text
  pub time_limit_ms : ℕ
  pub memory_limit_mb : ℕ
  pub checker : Text

-- The payloads of `publish_event`, by the kind of the event.
pub data Event : Type 0 where
  submission_queued : (user_id submission_id : ℕ) → Text → Event
  submission_running : (user_id submission_id : ℕ) → Event
  submission_completed : (user_id submission_id : ℕ) → JudgeReport → Event
  submission_failed : (user_id submission_id : ℕ) → Text → Event
  achievement_earned : (user_id : ℕ) → Achievement → Event

-- What a worker reads and writes: the database, the events on Redis, and the sandbox.
-- `cached` are the slugs whose statement is in the cache.
pub record World (S : Type 0) : Type 0 where
  pub db : Database
  pub redis_up : Bool
  pub events : List Event
  pub cached : List Text
  pub sandbox : S

abbrev pub message_max : ℕ
message_max = 300

abbrev pub spec_of : Problem → ProblemSpec
spec_of row = record {
  id = row.id;
  slug = row.slug;
  time_limit_ms = row.time_limit_ms;
  memory_limit_mb = row.memory_limit_mb;
  checker = row.checker;
}

-- `.one()` raises when there is no row.
unfoldable pub load_problem : Database → ℕ → Fallible ProblemSpec
load_problem db problem_id =
    or_raise (Option.map spec_of (first_of? (λ row. row.id == problem_id) db.problems))
      (backend_error (codes "NoResultFound"))

-- `ORDER BY position, id`
abbrev pub case_before : ProblemTestCase → ProblemTestCase → Bool
case_before a b = ltb a.position b.position || a.position == b.position && not (ltb b.id a.id)

abbrev pub judge_test_of : ProblemTestCase → JudgeTest
judge_test_of row = record {
  input = row.input_data;
  expected = row.expected_output;
  public = is_public_case row.kind;
  id = some row.id;
}

unfoldable pub load_tests : Database → ℕ → Bool → List JudgeTest
load_tests db problem_id public_only = map judge_test_of (
    sorted_by case_before (
      keep_if (λ row. row.problem_id == problem_id && (not public_only || is_public_case row.kind))
        db.problem_test_cases))

abbrev pub is_submission : ℕ → Submission → Bool
is_submission submission_id row = row.id == submission_id

abbrev pub is_claimable : ℕ → Submission → Bool
is_claimable submission_id row = row.id == submission_id && is_queued row.status

abbrev pub started : ℕ → Submission → Submission
started now row = record row { status = running; started_at = some now }

-- The UPDATE is one statement, so two workers cannot both see a count of 1.
unfoldable pub claim : ℕ → ℕ → Database → Bool × Database
claim submission_id now db = (
  count_where (is_claimable submission_id) db.submissions == 1,
  record db {
    submissions = update_where (is_claimable submission_id) (started now) db.submissions;
  },
)

abbrev pub is_progress_of : ℕ → ℕ → UserProblemProgress → Bool
is_progress_of user_id problem_id row = row.user_id == user_id && row.problem_id == problem_id

-- `func.coalesce(first_solved_at, now)`
abbrev pub coalesce : Option ℕ → ℕ → Option ℕ
coalesce none now = some now
coalesce (some t) now = some t

-- The SET of the UPDATE.
unfoldable pub attempted_once_more : Bool → ℕ → UserProblemProgress → UserProblemProgress
attempted_once_more false now row = record row {
  attempts = row.attempts + 1;
  last_attempt_at = now;
}
attempted_once_more true now row = record row {
  attempts = row.attempts + 1;
  last_attempt_at = now;
  status = solved;
  first_solved_at = coalesce row.first_solved_at now;
}

unfoldable pub first_attempt : ℕ → ℕ → Bool → ℕ → UserProblemProgress
first_attempt user_id problem_id accepted now = record {
  user_id = user_id;
  problem_id = problem_id;
  status = if accepted then solved else attempted;
  attempts = 1;
  first_solved_at = if accepted then some now else none;
  last_attempt_at = now;
}

-- `meanwhile` is what other workers commit between the UPDATE and the INSERT; the INSERT is
-- refused when the key is there by then, and the UPDATE is made again.
unfoldable pub record_progress :
    (List UserProblemProgress → List UserProblemProgress)
    → ℕ
    → ℕ
    → Bool
    → ℕ
    → List UserProblemProgress
    → List UserProblemProgress
unfolding attempted_once_more first_attempt
record_progress meanwhile user_id problem_id accepted now progress =
    let key = is_progress_of user_id problem_id in
    if ltb 0 (count_where key progress)
    then update_where key (attempted_once_more accepted now) progress
    else let progress' = meanwhile progress in
      if ltb 0 (count_where key progress')
      then update_where key (attempted_once_more accepted now) progress'
      else progress' ++ first_attempt user_id problem_id accepted now ∷ []

abbrev pub clip : Option Text → ℕ → Option Text
clip text limit = Option.map (take limit) text

abbrev pub result_row : JudgeSettings → ℕ → ProblemSpec → ℕ → JudgeReport → SubmissionResult
result_row settings submission_id problem effective_limit_ms report = record {
  submission_id = submission_id;
  compile_output = clip report.compile_output settings.max_compile_output_bytes;
  message = clip report.message message_max;
  checker = problem.checker;
  judge_version = codes "1";
  time_limit_ms = effective_limit_ms;
  memory_limit_mb = problem.memory_limit_mb;
}

abbrev pub test_result_row : ℕ → CaseOutcome → SubmissionTestResult
test_result_row submission_id o = record {
  submission_id = submission_id;
  test_case_id = o.test_id;
  position = o.position;
  is_public = o.public;
  verdict = o.verdict;
  runtime_ms = some o.time_ms;
  memory_kb = some o.memory_kb;
}

abbrev pub judged : JudgeReport → ℕ → Submission → Submission
judged report now row = record row {
  status = completed;
  verdict = some report.verdict;
  runtime_ms = report.runtime_ms;
  memory_kb = report.memory_kb;
  passed_count = report.passed;
  total_count = report.total;
  finished_at = some now;
}

abbrev pub counted : Verdict → Problem → Problem
counted verdict row = record row {
  total_submissions = row.total_submissions + 1;
  accepted_submissions = row.accepted_submissions + (if is_accepted verdict then 1 else 0);
}
