-- ===== src/Judge/Engine/Custom.antt =====
-- `run_custom` of apps/judge/sahujudge/engine.py: the program on input that the user supplied.
use sahucodex.Prelude.{
  ℕ, ◌≡◌, true, false, not, [], Option, none, some, if◌then◌else◌, returned, raised, arith, ◌⊎◌,
}
use sahucodex.Prelude.Int.{ℤ}
use sahucodex.Prelude.Texts.{Text}
use sahucodex.Judge.Failures.{Fallible}
use sahucodex.Judge.Checkers.{Checker}
use sahucodex.Judge.Languages.{LanguageSpec}
use sahucodex.Judge.Sandbox.{exited, timeout, memory, RunLimits, RunResult, Sandbox}
use sahucodex.Judge.Engine.{
  Verdict, accepted, wrong_answer, time_limit_exceeded, memory_limit_exceeded, runtime_error,
  compilation_error, JudgeConfig, is_zero, describe_termination, verdict_for,
  effective_time_limit_ms, limits_for,
}
use sahucodex.Judge.Engine.Running.{with_session}

-- `status` is "OK" or a verdict.
pub data CustomStatus : Type 0 where
  fine : CustomStatus
  failed : Verdict → CustomStatus

pub record CustomRunReport : Type 0 where
  pub status : CustomStatus
  pub compile_output : Option Text
  pub stdout : Text
  pub stderr : Text
  pub message : Option Text
  pub time_ms : Option ℤ
  pub memory_kb : Option ℤ

-- The report of a program that did not compile.
unfoldable pub uncompiled_report : Text → CustomRunReport
uncompiled_report output = record {
  status = failed compilation_error;
  compile_output = some output;
  stdout = [];
  stderr = [];
  message = none;
  time_ms = none;
  memory_kb = none;
}

-- What follows the session: the report of one run.
unfoldable pub custom_report : RunResult → CustomRunReport
custom_report result =
    let report : CustomRunReport = record {
      status = fine;
      compile_output = none;
      stdout = result.stdout;
      stderr = result.stderr;
      message = none;
      time_ms = some result.time_ms;
      memory_kb = some result.memory_kb;
    } in
    let crashed : CustomRunReport = record report {
      status = failed runtime_error;
      message = some (describe_termination result);
    } in
    elim result.status [
      | timeout ↦ record report { status = failed time_limit_exceeded }
      | memory ↦ record report { status = failed memory_limit_exceeded }
      | exited ↦ if not (is_zero result.exit_code) then crashed else report
      | _ ↦ crashed
    ]

module _ {S : Type 0} (sandbox : Sandbox S) where
  unfoldable pub custom_session : Text → RunLimits → S → Fallible CustomRunReport × S
  unfolding uncompiled_report custom_report
  custom_session stdin limits s =
      let (compiled, s') = sandbox.compile s in
      elim compiled [
        | raised e ↦ (raised e, s')
        | returned result ↦ elim result.is_ok [
          | false ↦ (returned (uncompiled_report result.output), s')
          | true ↦
              let (outcome, s'') = sandbox.run stdin limits s' in
              elim outcome [
                | raised e ↦ (raised e, s'')
                | returned ran ↦ (returned (custom_report ran), s'')
              ]
        ]
      ]

  unfoldable pub run_custom :
      LanguageSpec → Text → Text → ℕ → ℕ → JudgeConfig → S → Fallible CustomRunReport × S
  unfolding limits_for effective_time_limit_ms with_session custom_session
  run_custom language source stdin time_limit_ms memory_limit_mb config =
      let limits =
        limits_for (effective_time_limit_ms time_limit_ms language) memory_limit_mb config
          language in
      with_session sandbox language source memory_limit_mb (custom_session stdin limits)

-- A custom run and a judged test see the same faults: the status is the verdict of the same
-- execution, with the same message, and "OK" where judging goes on to compare the output.
pub custom_report-verdict_for :
    (result : RunResult) (expected : Text) (checker : Checker)
    → let (verdict, message) = verdict_for result expected checker in
      let report = custom_report result in
      (report.message ≡ message)
      × (((report.status ≡ fine) × ((verdict ≡ accepted) ⊎ (verdict ≡ wrong_answer)))
          ⊎ (report.status ≡ failed verdict))
unfolding custom_report verdict_for
custom_report-verdict_for result expected checker = ground arith
