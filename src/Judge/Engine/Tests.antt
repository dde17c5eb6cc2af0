-- ===== src/Judge/Engine/Tests.antt =====
-- Runs of apps/judge/sahujudge/engine.py in a scripted sandbox, and instances of its theorems.
use sahucodex.Prelude.{
  ℕ, ◌+◌, ◌-◌, ◌<◌, ◌≤◌, ◌≡◌, refl, ◌⊎◌, ◌↔◌, true, false, List, [], ◌∷◌, ◌++◌, Option, none, some,
  arith, returned, raised, length, All, keep_if,
}
use Prim.Native.String.{String}
use sahucodex.Prelude.Int.{ℤ, pos}
use sahucodex.Prelude.Decimals.{decimal_ℤ, decimal?}
use sahucodex.Prelude.Texts.{codes}
use sahucodex.Judge.Failures.{Fallible, sandbox_error}
use sahucodex.Judge.Checkers.{exact_checker}
use sahucodex.Judge.Languages.{python}
use sahucodex.Judge.Sandbox.{exited, signaled, RunStatus, RunResult, CompileResult, Sandbox}
use sahucodex.Judge.Engine.{
  JudgeTest, JudgeReport, JudgeConfig, accepted, wrong_answer, runtime_error, is_accepted,
  judge_case, order_tests, new_report, verdict_for, describe_termination, effective_time_limit_ms,
}
use sahucodex.Judge.Engine.Running.{judge_tests}
use sahucodex.Judge.Engine.Signals.{signal_name}
use sahucodex.Judge.Engine.Reports.{IsPrivate, IsAboutRun}
use sahucodex.Judge.Engine.Executions.{PassButLast}
use sahucodex.Judge.Engine.Verdicts.{
  Says, Passes, judge_tests_report, judge_tests_accepted, judge_tests_stops, judge_tests_secret,
}
use sahucodex.Judge.Engine.Order.{order_tests-eq_public_hidden, is_public, is_hidden}
use sahucodex.Judge.Engine.Resources.{IsCounted, judge_tests_leaks_nothing}
use sahucodex.Judge.Engine.Custom.{custom_report, custom_report-verdict_for, fine, failed}

-- A sandbox that answers from a script and counts its open sessions.
record World : Type 0 where
  script : List RunResult
  live : ℕ

abbrev answer : List RunResult → World → Fallible RunResult × World
answer [] w = (raised (sandbox_error (codes "gone")), w)
answer (result ∷ rest) w = (returned result, record w { script = rest })

abbrev scripted : Sandbox World
scripted = record {
  open_session = λ language source memory_limit_mb w. (returned tt, record w { live = w.live + 1 });
  compile = λ w. (returned (record { is_ok = true; output = [] }), w);
  run = λ stdin limits w. answer w.script w;
  close_session = λ w. record w { live = w.live - 1 };
}

abbrev ran : RunStatus → Option ℤ → Option ℤ → String → RunResult
ran status exit_code signal out = record {
  status = status;
  exit_code = exit_code;
  signal = signal;
  time_ms = pos 12;
  wall_ms = pos 20;
  memory_kb = pos 900;
  stdout = codes out;
  stderr = [];
}

abbrev hidden_test : JudgeTest
hidden_test = record { input = codes "7"; expected = codes "49"; public = false; id = some 2 }

abbrev public_test : JudgeTest
public_test = record { input = codes "3"; expected = codes "9"; public = true; id = some 1 }

abbrev tests : List JudgeTest
tests = hidden_test ∷ public_test ∷ []

abbrev config : JudgeConfig
config = record {
  max_output_bytes = 1_048_576;
  max_stderr_bytes = 8_192;
  max_tests = 200;
  stack_mb = 64;
}

abbrev passing : World
passing = record {
  script = ran exited (some (pos 0)) none "9" ∷ ran exited (some (pos 0)) none "49" ∷ [];
  live = 0;
}

-- The hidden test, which runs second, ends with exit code 7.
abbrev crashing : World
crashing = record {
  script = ran exited (some (pos 0)) none "9" ∷ ran exited (some (pos 7)) none "" ∷ [];
  live = 0;
}

abbrev run_in : World → Fallible JudgeReport × World
run_in = judge_tests scripted python [] tests 1000 64 exact_checker config true false

abbrev report_of : Fallible JudgeReport → JudgeReport
report_of (returned r) = r
report_of (raised e) = new_report 0

abbrev good : JudgeReport
good = report_of (run_in passing).0

abbrev bad : JudgeReport
bad = report_of (run_in crashing).0

both_pass : (good.verdict ≡ accepted) × (good.passed ≡ 2) × ((run_in passing).1.live ≡ 0)
unfolding judge_tests verdict_for new_report judge_case
both_pass = (refl, refl, refl)

-- The message of a hidden test's end is in the report, though not in its outcome.
hidden_crash :
    (bad.verdict ≡ runtime_error)
    × (bad.message ≡ some (codes "Exited with code 7"))
    × (bad.passed ≡ 1)
unfolding judge_tests verdict_for new_report describe_termination decimal_ℤ judge_case decimal?
hidden_crash = (refl, refl, refl)

python_time : effective_time_limit_ms 1000 python ≡ 3000
unfolding effective_time_limit_ms
python_time = refl

killed_message :
    describe_termination (ran signaled none (some (pos 11)) "") ≡ codes "Terminated by SIGSEGV"
unfolding describe_termination signal_name
killed_message = refl

good_run : run_in passing ≡ (returned good, (run_in passing).1)
unfolding judge_tests verdict_for new_report judge_case
good_run = refl

bad_run : run_in crashing ≡ (returned bad, (run_in crashing).1)
unfolding judge_tests verdict_for new_report judge_case
bad_run = refl

judge_tests_report_example :
    Says scripted python [] tests 1000 64 exact_checker config true false crashing bad
judge_tests_report_example =
    judge_tests_report scripted python [] tests 1000 64 exact_checker config true false crashing
      bad_run

judge_tests_accepted_example :
    ((good.verdict ≡ accepted)
      ↔ Passes scripted python [] tests 1000 64 exact_checker config true false passing)
    × (good.verdict ≡ accepted → (good.passed ≡ 2) × (length good.outcomes ≡ 2))
    × (0 < 2 → good.passed ≡ 2 → good.verdict ≡ accepted)
judge_tests_accepted_example =
    judge_tests_accepted scripted python [] tests 1000 64 exact_checker config true false passing
      good_run

judge_tests_stops_example :
    (compiled : CompileResult) × ((scripted.compile
        (scripted.open_session python [] 64 crashing).1).0
      ≡ returned compiled)
    × (((compiled.is_ok ≡ false) × (bad.outcomes ≡ []))
        ⊎ ((compiled.is_ok ≡ true)
            × (true ≡ true)
            × PassButLast bad.outcomes
            × (length bad.outcomes ≤ bad.passed + 1)
            × ((length bad.outcomes ≡ 2) ⊎ (is_accepted bad.verdict ≡ false)))
        ⊎ ((compiled.is_ok ≡ true) × (true ≡ false) × (length bad.outcomes ≡ 2)))
judge_tests_stops_example =
    judge_tests_stops scripted python [] tests 1000 64 exact_checker config true false crashing
      bad_run

judge_tests_secret_example :
    All (IsPrivate false) bad.outcomes × All (λ o. IsAboutRun o.verdict) bad.outcomes
judge_tests_secret_example =
    judge_tests_secret scripted python [] tests 1000 64 exact_checker config true false crashing
      bad_run

order_tests-eq_public_hidden_example :
    order_tests tests ≡ keep_if is_public tests ++ keep_if is_hidden tests
order_tests-eq_public_hidden_example = order_tests-eq_public_hidden tests

abbrev exit_seven : RunResult
exit_seven = ran exited (some (pos 7)) none ""

abbrev live_sessions : World → ℕ
live_sessions w = w.live

answer-live : (script : List RunResult) (w : World) → (answer script w).1.live ≡ w.live
answer-live [] w = refl
answer-live (result ∷ rest) w = refl

scripted-IsCounted : IsCounted scripted live_sessions
scripted-IsCounted = record {
  opens = λ language source memory_limit_mb w h. refl;
  refuses = λ language source memory_limit_mb w e h. absurd (cc h);
  compiles = λ w. refl;
  runs = λ stdin limits w. answer-live w.script w;
  closes = λ w n h. omega arith;
}

judge_tests_leaks_nothing_example : live_sessions (run_in crashing).1 ≡ live_sessions crashing
judge_tests_leaks_nothing_example =
    judge_tests_leaks_nothing scripted live_sessions scripted-IsCounted python [] tests 1000 64
      exact_checker config true false crashing

custom_report-verdict_for_example :
    let (verdict, message) = verdict_for exit_seven (codes "49") exact_checker in
    let report = custom_report exit_seven in
    (report.message ≡ message)
    × (((report.status ≡ fine) × ((verdict ≡ accepted) ⊎ (verdict ≡ wrong_answer)))
        ⊎ (report.status ≡ failed verdict))
custom_report-verdict_for_example = custom_report-verdict_for exit_seven (codes "49") exact_checker
