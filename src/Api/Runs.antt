-- ===== src/Api/Runs.antt =====
-- The API's side of runs: `run_for` and `get_run` of apps/api/app/modules/submissions/service.py.
use sahucodex.Prelude.{
  ℕ, ◌/◌, ◌&&◌, Option, none, some, ltb, ◌==◌, if◌then◌else◌, any_of, Outcome, returned, raised,
  raise_if, ◌>>◌,
}
use sahucodex.Prelude.Texts.{Text, eq_text}
use sahucodex.Prelude.Tables.{count_where, delete_where}
use sahucodex.Judge.Runs.{
  RunMode, samples, custom, RunRequest, RunReport, queued, running, completed, failed_with,
  RunRecord, RunWorld, run_key, load_run_record, store_run_record, or_empty,
}
use sahucodex.Api.Tables.{Database, is_public_case}
use sahucodex.Api.Submissions.{SubmitSettings, SubmitError, ProblemRef, validate_source, utf8_size}

pub data RunError : Type 0 where
  invalid_source : SubmitError → RunError
  -- 422, with the limit in KiB
  input_too_large : ℕ → RunError
  invalid_input no_samples judge_unavailable run_not_found : RunError

unfoldable pub count_public_tests : Database → ℕ → ℕ
count_public_tests db problem_id =
    count_where (λ t. t.problem_id == problem_id && is_public_case t.kind) db.problem_test_cases

-- What the mode asks of the request: an input within its limit, or public examples.
unfoldable pub check_run : ℕ → Database → ProblemRef → RunMode → Option Text → Outcome RunError Unit
unfolding count_public_tests
check_run run_max_input_bytes db problem custom stdin =
    let text = or_empty stdin in
    raise_if (ltb run_max_input_bytes (utf8_size text))
      (input_too_large (run_max_input_bytes / 1024))
    >> raise_if (any_of (λ c. c == 0) text) invalid_input
check_run run_max_input_bytes db problem samples stdin =
    raise_if (count_public_tests db problem.id == 0) no_samples

abbrev pub request_of : ProblemRef → Text → Text → RunMode → Option Text → RunRequest
request_of problem language_key source_code mode stdin = record {
  problem_slug = problem.slug;
  language = language_key;
  source_code = source_code;
  input = elim mode [ samples ↦ none | custom ↦ some (or_empty stdin) ];
}

abbrev pub source_error : Outcome SubmitError Unit → Outcome RunError Unit
source_error (returned u) = returned u
source_error (raised e) = raised (invalid_source e)

-- `run_id` is drawn at random; `enqueue` is the queue that the API was given.
module _ {S : Type 0} (enqueue : Text → RunWorld S → Outcome Text Unit × RunWorld S)
    (settings : SubmitSettings) (run_max_input_bytes run_result_ttl : ℕ) where
  unfoldable pub queue_run : Text → RunRecord → ℕ → RunWorld S → Outcome RunError Text × RunWorld S
  unfolding store_run_record
  queue_run run_id value now w =
      let (sent, w') = enqueue run_id (store_run_record run_id value run_result_ttl now w) in
      elim sent [
        | returned _ ↦ (returned run_id, w')
        | raised e ↦ (
          raised judge_unavailable,
          record w' { runs = delete_where (λ e. eq_text e.key (run_key run_id)) w'.runs },
        )
      ]

  unfoldable pub run_for :
      Text
      → ℕ
      → ProblemRef
      → Text
      → Text
      → RunMode
      → Option Text
      → ℕ
      → RunWorld S
      → Outcome RunError Text × RunWorld S
  unfolding validate_source check_run queue_run
  run_for run_id user_id problem language_key source_code mode stdin now w =
      let checked =
        source_error (validate_source settings source_code none)
        >> check_run run_max_input_bytes w.db problem mode stdin in
      let value : RunRecord = record {
        user_id = user_id;
        mode = mode;
        state = queued (request_of problem language_key source_code mode stdin);
      } in
      elim checked [ raised e ↦ (raised e, w) | returned _ ↦ queue_run run_id value now w ]

pub data RunStatus : Type 0 where
  is_queued is_running is_completed is_failed : RunStatus

-- What a user is shown of a run.
pub record RunOut : Type 0 where
  pub id : Text
  pub status : RunStatus
  pub mode : RunMode
  pub result : Option RunReport
  pub error : Option Text

unfoldable pub run_out : Text → RunRecord → RunOut
run_out run_id value =
    let out : RunOut = record {
      id = run_id;
      status = is_queued;
      mode = value.mode;
      result = none;
      error = none;
    } in
    elim value.state [
      | queued request ↦ out
      | running request ↦ record out { status = is_running }
      | completed report ↦ record out { status = is_completed; result = some report }
      | failed_with message ↦ record out { status = is_failed; error = some message }
    ]

-- Another user's run is not found.
unfoldable pub get_run : {S : Type 0} → ℕ → Text → ℕ → RunWorld S → Outcome RunError RunOut
unfolding load_run_record run_out
get_run user_id run_id now w = elim (load_run_record run_id now w) [
  | none ↦ raised run_not_found
  | some value ↦
      if value.user_id == user_id then returned (run_out run_id value) else raised run_not_found
]
