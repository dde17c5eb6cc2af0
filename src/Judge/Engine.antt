-- ===== src/Judge/Engine.antt =====
-- apps/judge/sahujudge/engine.py: executions of a sandbox become verdicts.
pub mod Signals
pub mod Running
pub mod Loop
pub mod Reports
pub mod Progress
pub mod Executions
pub mod Judging
pub mod Verdicts
pub mod Order
pub mod Brackets
pub mod Resources
pub mod Custom
mod Tests
use sahucodex.Prelude.{
  ℕ, ◌+◌, ◌*◌, ◌/◌, Bool, true, false, ◌&&◌, ◌||◌, not, List, [], ◌∷◌, ◌++◌, Option, none, some,
  length, ltb, ◌==◌, if◌then◌else◌, returned, raised,
}
use sahucodex.Prelude.Int.{ℤ, pos, negsuc, ltb_ℤ}
use sahucodex.Prelude.Texts.{Text, codes}
use sahucodex.Prelude.Decimals.{decimal_ℤ, decimal?}
use sahucodex.Prelude.Sorting.{sorted_by}
use sahucodex.Judge.Failures.{Fallible, too_many_tests}
use sahucodex.Judge.Checkers.{Checker}
use sahucodex.Judge.Languages.{LanguageSpec}
use sahucodex.Judge.Sandbox.{
  RunStatus, exited, timeout, memory, output_limit, RunLimits, RunResult, CompileResult, Sandbox,
}
use Signals.{signal_name}

pub data Verdict : Type 0 where
  accepted wrong_answer time_limit_exceeded memory_limit_exceeded runtime_error : Verdict
  compilation_error system_error : Verdict

pub record JudgeTest : Type 0 where
  pub input : Text
  pub expected : Text
  pub public : Bool
  pub id : Option ℕ

pub record JudgeConfig : Type 0 where
  pub max_output_bytes : ℕ
  pub max_stderr_bytes : ℕ
  pub max_tests : ℕ
  pub stack_mb : ℕ

pub record CaseOutcome : Type 0 where
  pub position : ℕ
  pub test_id : Option ℕ
  pub public : Bool
  pub verdict : Verdict
  pub time_ms : ℤ
  pub memory_kb : ℤ
  pub message : Option Text
  pub input : Option Text
  pub expected : Option Text
  pub stdout : Option Text
  pub stderr : Option Text

pub record JudgeReport : Type 0 where
  pub verdict : Verdict
  pub total : ℕ
  pub passed : ℕ
  pub compile_output : Option Text
  pub message : Option Text
  pub runtime_ms : Option ℤ
  pub memory_kb : Option ℤ
  pub outcomes : List CaseOutcome

abbrev pub is_accepted : Verdict → Bool
is_accepted accepted = true
is_accepted _ = false

-- `int(problem_limit_ms * language.time_multiplier)`, the multiplier in halves.
unfoldable pub effective_time_limit_ms : ℕ → LanguageSpec → ℕ
effective_time_limit_ms problem_limit_ms language = problem_limit_ms * language.time_halves / 2

unfoldable pub limits_for : ℕ → ℕ → JudgeConfig → LanguageSpec → RunLimits
limits_for time_limit_ms memory_limit_mb config language = record {
  time_ms = time_limit_ms;
  wall_ms = time_limit_ms * 2 + 1000;
  memory_mb = memory_limit_mb;
  max_output_bytes = config.max_output_bytes;
  max_stderr_bytes = config.max_stderr_bytes;
  stack_mb = config.stack_mb;
  nofile = language.run_nofile_limit;
}

describe_signal : ℤ → Option Text → Text
describe_signal n (some name) = codes "Terminated by " ++ name
describe_signal n none = codes "Terminated by signal " ++ decimal_ℤ n

describe_end : Option ℤ → Option ℤ → Text
unfolding describe_signal
describe_end (some n) exit_code = describe_signal n (signal_name n)
describe_end none exit_code = codes "Exited with code " ++ decimal? exit_code

unfoldable pub describe_termination : RunResult → Text
unfolding describe_end
describe_termination result = elim result.status [
  | output_limit ↦ codes "Output limit exceeded"
  | _ ↦ describe_end result.signal result.exit_code
]

-- `result.exit_code != 0`
abbrev pub is_zero : Option ℤ → Bool
is_zero (some (pos n)) = n == 0
is_zero _ = false

unfoldable pub verdict_for : RunResult → Text → Checker → Verdict × Option Text
verdict_for result expected checker = elim result.status [
  | timeout ↦ (time_limit_exceeded, none)
  | memory ↦ (memory_limit_exceeded, none)
  | exited ↦
      if not (is_zero result.exit_code)
      then (runtime_error, some (describe_termination result))
      else if checker.check expected result.stdout
      then (accepted, none)
      else (wrong_answer, none)
  | _ ↦ (runtime_error, some (describe_termination result))
]

-- `sorted` by the key `not test.public`: the first may stay first unless its key is greater.
abbrev pub public_first : JudgeTest → JudgeTest → Bool
public_first a b = a.public || not b.public

unfoldable pub order_tests : List JudgeTest → List JudgeTest
unfolding sorted_by
order_tests = sorted_by public_first

-- Python's `max(report.runtime_ms or 0, value)`.
abbrev pub max_or_zero : Option ℤ → ℤ → ℤ
max_or_zero none value = if ltb_ℤ (pos 0) value then value else pos 0
max_or_zero (some old) value = if ltb_ℤ old value then value else old

-- The outcome of one test: a hidden test keeps only verdict, time and memory.
unfoldable pub case_outcome : Bool → ℕ → JudgeTest → RunResult → Verdict → Option Text → CaseOutcome
case_outcome capture_public position test result verdict message =
    let shown = test.public && capture_public in
    record {
      position = position;
      test_id = test.id;
      public = test.public;
      verdict = verdict;
      time_ms = result.time_ms;
      memory_kb = result.memory_kb;
      message = if test.public then message else none;
      input = if shown then some test.input else none;
      expected = if shown then some test.expected else none;
      stdout = if shown then some result.stdout else none;
      stderr = if shown then some result.stderr else none;
    }

-- The report with one more outcome and its maxima brought up to date.
unfoldable pub append_outcome : JudgeReport → CaseOutcome → RunResult → JudgeReport
append_outcome report outcome result = record report {
  outcomes = report.outcomes ++ outcome ∷ [];
  runtime_ms = some (max_or_zero report.runtime_ms result.time_ms);
  memory_kb = some (max_or_zero report.memory_kb result.memory_kb);
}

-- The end of the loop's body: a pass counts, the first failure decides the verdict.
unfoldable pub settle : JudgeReport → Verdict → Option Text → JudgeReport
settle report verdict message =
    if is_accepted verdict
    then record report { passed = report.passed + 1 }
    else if is_accepted report.verdict
    then record report { verdict = verdict; message = message }
    else report

unfoldable pub judge_case : Checker → Bool → ℕ → JudgeTest → RunResult → JudgeReport → JudgeReport
unfolding case_outcome append_outcome settle
judge_case checker capture_public position test result report =
    let (verdict, message) = verdict_for result test.expected checker in
    settle
      (append_outcome report (case_outcome capture_public position test result verdict message)
        result)
      verdict message

unfoldable pub new_report : ℕ → JudgeReport
new_report total = record {
  verdict = accepted;
  total = total;
  passed = 0;
  compile_output = none;
  message = none;
  runtime_ms = none;
  memory_kb = none;
  outcomes = [];
}
