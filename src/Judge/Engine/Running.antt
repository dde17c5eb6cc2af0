-- ===== src/Judge/Engine/Running.antt =====
-- `judge_tests` of apps/judge/sahujudge/engine.py: a session of the sandbox around the loop.
use sahucodex.Prelude.{
  ℕ, ◌+◌, Bool, true, false, ◌&&◌, not, List, [], ◌∷◌, some, length, ltb, if◌then◌else◌, returned,
  raised,
}
use sahucodex.Prelude.Texts.{Text}
use sahucodex.Judge.Failures.{Fallible, too_many_tests}
use sahucodex.Judge.Checkers.{Checker}
use sahucodex.Judge.Languages.{LanguageSpec}
use sahucodex.Judge.Sandbox.{RunLimits, Sandbox}
use sahucodex.Judge.Engine.{
  JudgeTest, JudgeReport, JudgeConfig, compilation_error, is_accepted, verdict_for, judge_case,
  new_report, order_tests, limits_for, effective_time_limit_ms,
}

module _ {S : Type 0} (sandbox : Sandbox S) where
  -- The `for` loop from `position` on, in an open session.
  unfoldable pub judge_loop :
      Checker
      → RunLimits
      → Bool
      → Bool
      → ℕ
      → List JudgeTest
      → JudgeReport
      → S
      → Fallible JudgeReport × S
  judge_loop checker limits stop_on_failure capture_public position [] report s =
      (returned report, s)
  judge_loop checker limits stop_on_failure capture_public position (test ∷ tests) report s =
      let (outcome, s') = sandbox.run test.input limits s in
      elim outcome [
        | raised e ↦ (raised e, s')
        | returned result ↦
            let report' = judge_case checker capture_public position test result report in
            let verdict = (verdict_for result test.expected checker).0 in
            elim (stop_on_failure && not (is_accepted verdict)) [
              | true ↦ (returned report', s')
              | false ↦
                  judge_loop checker limits stop_on_failure capture_public (position + 1) tests
                    report' s'
            ]
      ]

  -- `async with sandbox.session(…)`: an opened session is closed however its body ends.
  unfoldable pub with_session :
      {A : Type 0} → LanguageSpec → Text → ℕ → (S → Fallible A × S) → S → Fallible A × S
  with_session language source memory_limit_mb body s =
      let (opened, s') = sandbox.open_session language source memory_limit_mb s in
      elim opened [
        | raised e ↦ (raised e, s')
        | returned _ ↦ let (outcome, s'') = body s' in (outcome, sandbox.close_session s'')
      ]

  -- The body of the session: compile once, then the loop.
  unfoldable pub judge_session :
      Checker → RunLimits → Bool → Bool → List JudgeTest → S → Fallible JudgeReport × S
  unfolding judge_loop new_report
  judge_session checker limits stop_on_failure capture_public ordered s =
      let report = new_report (length ordered) in
      let (compiled, s') = sandbox.compile s in
      elim compiled [
        | raised e ↦ (raised e, s')
        | returned result ↦ elim result.is_ok [
          | false ↦ (
            returned (record report {
              verdict = compilation_error;
              compile_output = some result.output;
            }),
            s',
          )
          | true ↦ judge_loop checker limits stop_on_failure capture_public 1 ordered report s'
        ]
      ]

  unfoldable pub judge_tests :
      LanguageSpec
      → Text
      → List JudgeTest
      → ℕ
      → ℕ
      → Checker
      → JudgeConfig
      → Bool
      → Bool
      → S
      → Fallible JudgeReport × S
  unfolding order_tests limits_for effective_time_limit_ms with_session judge_session
  judge_tests language source tests time_limit_ms memory_limit_mb checker config stop_on_failure
        capture_public s =
      let ordered = order_tests tests in
      let limits =
        limits_for (effective_time_limit_ms time_limit_ms language) memory_limit_mb config
          language in
      if ltb config.max_tests (length ordered)
      then (raised (too_many_tests (length ordered) config.max_tests), s)
      else with_session language source memory_limit_mb
          (judge_session checker limits stop_on_failure capture_public ordered) s
