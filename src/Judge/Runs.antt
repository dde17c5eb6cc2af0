-- ===== src/Judge/Runs.antt =====
-- `run_code` of apps/judge/sahujudge/pipeline.py, and the records of runs that it shares with the API
-- (apps/api/app/modules/submissions/runs.py). Redis answers; a World holds what a run touches.
pub mod Stored
pub mod Once
mod Tests
use sahucodex.Prelude.{
  ℕ, ◌+◌, ◌*◌, Bool, true, false, ◌&&◌, ◌||◌, not, List, [], ◌∷◌, ◌++◌, map, Option, none, some,
  ltb, leb, ◌==◌, if◌then◌else◌, first_of?, length, take, Outcome, raised, returned, or_raise,
  ◌>>=◌,
}
use mathlib.Core.Option
use sahucodex.Prelude.Texts.{Text, codes, eq_text}
use sahucodex.Prelude.Int.{ℤ}
use sahucodex.Prelude.Tables.{delete_where}
use sahucodex.Judge.Failures.{Fallible, backend_error}
use sahucodex.Judge.Checkers.{get_checker}
use sahucodex.Judge.Languages.{get_language}
use sahucodex.Judge.Sandbox.{Sandbox}
use sahucodex.Judge.Engine.{Verdict, JudgeReport, CaseOutcome}
use sahucodex.Judge.Engine.Running.{judge_tests}
use sahucodex.Judge.Engine.Custom.{CustomStatus, fine, failed, CustomRunReport, run_custom}
use sahucodex.Judge.Pipeline.{JudgeSettings, ProblemSpec, spec_of, load_tests}
use sahucodex.Api.Tables.{Database}

pub data RunMode : Type 0 where
  samples custom : RunMode

pub record RunRequest : Type 0 where
  pub problem_slug : Text
  pub language : Text
  pub source_code : Text
  pub input : Option Text

-- "OK", or a verdict.
pub data RunVerdict : Type 0 where
  fine_run : RunVerdict
  verdict_of : Verdict → RunVerdict

pub record CaseOut : Type 0 where
  pub position : ℕ
  pub verdict : Verdict
  pub input : Text
  pub expected_output : Text
  pub stdout : Text
  pub stderr : Text
  pub message : Option Text
  pub runtime_ms : ℤ
  pub memory_kb : ℤ

-- A run on samples has cases, a custom run two streams; the others are left empty.
pub record RunReport : Type 0 where
  pub outcome : RunVerdict
  pub compile_output : Option Text
  pub message : Option Text
  pub runtime_ms : Option ℤ
  pub memory_kb : Option ℤ
  pub cases : List CaseOut
  pub stdout : Option Text
  pub stderr : Option Text

-- The status with what the record holds besides: the request, and afterwards only the result.
pub data RunState : Type 0 where
  queued running : RunRequest → RunState
  completed : RunReport → RunState
  failed_with : Text → RunState

pub record RunRecord : Type 0 where
  pub user_id : ℕ
  pub mode : RunMode
  pub state : RunState

pub record RunEntry : Type 0 where
  pub key : Text
  pub value : RunRecord
  pub expires_at : ℕ

pub data RunEvent : Type 0 where
  run_running : (user_id : ℕ) → Text → RunEvent
  run_failed : (user_id : ℕ) → Text → RunEvent
  run_completed : (user_id : ℕ) → Text → RunVerdict → RunEvent

pub record RunWorld (S : Type 0) : Type 0 where
  pub db : Database
  pub runs : List RunEntry
  pub events : List RunEvent
  pub sandbox : S

-- What others do to the world while a run awaits: after its record is loaded, after that is marked as
-- running, and after the code was judged.
pub record Between (S : Type 0) : Type 0 where
  pub after_load : RunWorld S → RunWorld S
  pub after_mark : RunWorld S → RunWorld S
  pub after_judging : RunWorld S → RunWorld S

pub data RunEnd : Type 0 where
  skipped failed_run : RunEnd
  ended : RunVerdict → RunEnd

-- `[A-Za-z0-9_-]`
abbrev pub is_id_char : ℕ → Bool
is_id_char c =
    leb 65 c && leb c 90 || leb 97 c && leb c 122 || leb 48 c && leb c 57 || c == 95 || c == 45

abbrev pub are_id_chars : Text → Bool
are_id_chars [] = true
are_id_chars (c ∷ s) = is_id_char c && are_id_chars s

-- The `$` of the pattern lets one line end stand at the end.
abbrev pub without_line_end : Text → Text
without_line_end [] = []
without_line_end (c ∷ []) = if c == 10 then [] else c ∷ []
without_line_end (c ∷ d ∷ s) = c ∷ without_line_end (d ∷ s)

abbrev pub is_run_id : Text → Bool
is_run_id run_id =
    let core = without_line_end run_id in
    are_id_chars core && leb 16 (length core) && leb (length core) 40

abbrev pub run_key : Text → Text
run_key run_id = codes "run:" ++ run_id

abbrev pub is_entry : Text → ℕ → RunEntry → Bool
is_entry key now entry = eq_text entry.key key && ltb now entry.expires_at

abbrev pub record_of : RunEntry → RunRecord
record_of entry = entry.value

module _ {S : Type 0} where
  unfoldable pub load_run_record : Text → ℕ → RunWorld S → Option RunRecord
  load_run_record run_id now w =
      if is_run_id run_id
      then Option.map record_of (first_of? (is_entry (run_key run_id) now) w.runs)
      else none

  -- A SET with an expiry; `create_run_record` is the same with a queued record.
  unfoldable pub store_run_record : Text → RunRecord → ℕ → ℕ → RunWorld S → RunWorld S
  store_run_record run_id value ttl_seconds now w =
      let entry : RunEntry = record {
        key = run_key run_id;
        value = value;
        expires_at = now + ttl_seconds;
      } in
      record w { runs = entry ∷ delete_where (λ e. eq_text e.key (run_key run_id)) w.runs }

  abbrev pub publish_run : RunEvent → RunWorld S → RunWorld S
  publish_run event w = record w { events = w.events ++ event ∷ [] }

abbrev pub run_display_chars : ℕ
run_display_chars = 8192

unfoldable pub shown : Option Text → Option Text
shown none = none
shown (some text) =
    if leb (length text) run_display_chars
    then some text
    else some (take run_display_chars text ++ (10 ∷ codes "… (truncated)"))

-- `value or ""`
abbrev pub or_empty : Option Text → Text
or_empty none = []
or_empty (some text) = text

unfoldable pub case_out : CaseOutcome → CaseOut
unfolding shown
case_out o = record {
  position = o.position;
  verdict = o.verdict;
  input = or_empty (shown o.input);
  expected_output = or_empty (shown o.expected);
  stdout = or_empty (shown o.stdout);
  stderr = or_empty (shown o.stderr);
  message = o.message;
  runtime_ms = o.time_ms;
  memory_kb = o.memory_kb;
}

unfoldable pub samples_report : JudgeReport → RunReport
unfolding shown case_out
samples_report report = record {
  outcome = verdict_of report.verdict;
  compile_output = shown report.compile_output;
  message = report.message;
  runtime_ms = report.runtime_ms;
  memory_kb = report.memory_kb;
  cases = map case_out report.outcomes;
  stdout = none;
  stderr = none;
}

abbrev pub run_verdict : CustomStatus → RunVerdict
run_verdict fine = fine_run
run_verdict (failed verdict) = verdict_of verdict

unfoldable pub custom_run_report : CustomRunReport → RunReport
unfolding shown
custom_run_report report = record {
  outcome = run_verdict report.status;
  compile_output = shown report.compile_output;
  message = report.message;
  runtime_ms = report.time_ms;
  memory_kb = report.memory_kb;
  cases = [];
  stdout = shown (some report.stdout);
  stderr = shown (some report.stderr);
}

-- `_load_problem` by slug.
unfoldable pub load_problem_slug : Database → Text → Fallible ProblemSpec
load_problem_slug db slug =
    or_raise (Option.map spec_of (first_of? (λ row. eq_text row.slug slug) db.problems))
      (backend_error (codes "NoResultFound"))

module _ {S : Type 0} (sandbox : Sandbox S) (settings : JudgeSettings) (run_result_ttl : ℕ) where
  unfoldable pub run_samples : Database → ProblemSpec → RunRequest → S → Fallible RunReport × S
  unfolding judge_tests samples_report load_tests
  run_samples db problem request s = elim (get_language request.language) [
    | raised e ↦ (raised e, s)
    | returned language ↦ elim (get_checker settings.checkers problem.checker) [
      | raised e ↦ (raised e, s)
      | returned checker ↦
          let (outcome, s') =
            judge_tests sandbox language request.source_code (load_tests db problem.id true)
              problem.time_limit_ms problem.memory_limit_mb checker settings.config false true s in
          (outcome >>= λ report. returned (samples_report report), s')
    ]
  ]

  unfoldable pub run_on_input : ProblemSpec → RunRequest → S → Fallible RunReport × S
  unfolding run_custom custom_run_report
  run_on_input problem request s = elim (get_language request.language) [
    | raised e ↦ (raised e, s)
    | returned language ↦
        let (outcome, s') =
          run_custom sandbox language request.source_code (or_empty request.input)
            problem.time_limit_ms problem.memory_limit_mb settings.config s in
        (outcome >>= λ report. returned (custom_run_report report), s')
  ]

  -- The body of the `try`.
  unfoldable pub run_request : Database → RunMode → RunRequest → S → Fallible RunReport × S
  unfolding load_problem_slug run_samples run_on_input
  run_request db mode request s = elim (load_problem_slug db request.problem_slug) [
    | raised e ↦ (raised e, s)
    | returned problem ↦ elim mode [
      | samples ↦ run_samples db problem request s
      | custom ↦ run_on_input problem request s
    ]
  ]

  abbrev pub run_error : Text
  run_error = codes "The judge could not run this code."

  -- What follows the `try`: the record loses the request and holds how the run ended.
  unfoldable pub finish_run :
      Text → RunRecord → Fallible RunReport → ℕ → RunWorld S → RunEnd × RunWorld S
  unfolding store_run_record
  finish_run run_id value (raised e) now w = (
    failed_run,
    publish_run (run_failed value.user_id run_id) (
        store_run_record run_id (record value { state = failed_with run_error }) run_result_ttl now
          w),
  )
  finish_run run_id value (returned report) now w = (
    ended report.outcome,
    publish_run (run_completed value.user_id run_id report.outcome)
        (store_run_record run_id (record value { state = completed report }) run_result_ttl now w),
  )

  -- The record says that the run is running; the source stays in it.
  unfoldable pub mark_running : Text → RunRecord → RunRequest → ℕ → RunWorld S → RunWorld S
  unfolding store_run_record
  mark_running run_id value request now w =
      publish_run (run_running value.user_id run_id)
        (store_run_record run_id (record value { state = running request }) run_result_ttl now w)

  -- What follows the load of a queued record, which is marked at `marked_at` and closed at `later`.
  unfoldable pub start_run :
      Between S → Text → RunRecord → RunRequest → ℕ → ℕ → RunWorld S → RunEnd × RunWorld S
  unfolding mark_running run_request finish_run
  start_run others run_id value request marked_at later w =
      let w1 =
        others.after_mark (mark_running run_id value request marked_at (others.after_load w)) in
      let (outcome, s') = run_request w1.db value.mode request w1.sandbox in
      finish_run run_id value outcome later (others.after_judging (record w1 { sandbox = s' }))

  -- A record that is not there, or not queued, is left alone.
  unfoldable pub run_code : Between S → Text → ℕ → ℕ → ℕ → RunWorld S → RunEnd × RunWorld S
  unfolding load_run_record start_run
  run_code others run_id now marked_at later w = elim (load_run_record run_id now w) [
    | none ↦ (skipped, w)
    | some value ↦ elim value.state [
      | queued request ↦ start_run others run_id value request marked_at later w
      | _ ↦ (skipped, w)
    ]
  ]
