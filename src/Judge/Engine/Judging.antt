-- ===== src/Judge/Engine/Judging.antt =====
-- `judge_tests` (apps/judge/sahujudge/engine.py) from end to end.
use sahucodex.Prelude.{
  ℕ, ◌≡◌, refl, ap, sym, subst, ◌∙◌, ◌⊎◌, inl, inr, Bool, true, false, List, [], returned, raised,
  none, some, length, Bool-cases, Outcome, Outcome-cases, ltb,
}
use sahucodex.Prelude.Texts.{Text}
use sahucodex.Judge.Failures.{Failure, too_many_tests}
use sahucodex.Judge.Checkers.{Checker}
use sahucodex.Judge.Languages.{LanguageSpec}
use sahucodex.Judge.Sandbox.{RunLimits, Sandbox, CompileResult}
use sahucodex.Judge.Engine.{
  JudgeTest, JudgeReport, JudgeConfig, compilation_error, order_tests, new_report, limits_for,
  effective_time_limit_ms,
}
use sahucodex.Judge.Engine.Running.{judge_loop, judge_session, judge_tests, with_session}
use sahucodex.Judge.Engine.Executions.{AreExecuted, PassButLast, judge_loop-Appends}
use sahucodex.Judge.Engine.Progress.{IsJudged, judge_loop-IsJudged}

-- The report when the program does not compile.
pub record IsUncompiled (total : ℕ) (output : Text) (r : JudgeReport) : Type 0 where
  pub verdict : r.verdict ≡ compilation_error
  pub passed : r.passed ≡ 0
  pub size : r.total ≡ total
  pub compile_output : r.compile_output ≡ some output
  pub outcomes : r.outcomes ≡ []
  pub message : r.message ≡ none

rejected_report : List JudgeTest → Text → JudgeReport
rejected_report ordered output = record (new_report (length ordered)) {
  verdict = compilation_error;
  compile_output = some output;
}

rejected_report-IsUncompiled :
    (ordered : List JudgeTest) (output : Text)
    → IsUncompiled (length ordered) output (rejected_report ordered output)
unfolding rejected_report new_report
rejected_report-IsUncompiled ordered output = record {
  verdict = refl;
  passed = refl;
  size = refl;
  compile_output = refl;
  outcomes = refl;
  message = refl;
}

module _ {S : Type 0} (sandbox : Sandbox S) where
  session_uncompilable :
      (checker : Checker) (limits : RunLimits) (stop capture : Bool) (ordered : List JudgeTest)
      (s : S) (e : Failure)
      → (sandbox.compile s).0 ≡ raised e
      → judge_session sandbox checker limits stop capture ordered s
        ≡ (raised e, (sandbox.compile s).1)
  unfolding judge_session
  session_uncompilable checker limits stop capture ordered s e h = rw (h, judge_session)

  session_compiled :
      (checker : Checker) (limits : RunLimits) (stop capture : Bool) (ordered : List JudgeTest)
      (s : S) (compiled : CompileResult)
      → (sandbox.compile s).0 ≡ returned compiled
      → compiled.is_ok ≡ true
      → judge_session sandbox checker limits stop capture ordered s
        ≡ judge_loop sandbox checker limits stop capture 1 ordered
            (new_report (length ordered))
            (sandbox.compile s).1
  unfolding judge_session
  session_compiled checker limits stop capture ordered s compiled h k =
      rw (h, judge_session) (rw (k, judge_session))

  session_rejected :
      (checker : Checker) (limits : RunLimits) (stop capture : Bool) (ordered : List JudgeTest)
      (s : S) (compiled : CompileResult)
      → (sandbox.compile s).0 ≡ returned compiled
      → compiled.is_ok ≡ false
      → judge_session sandbox checker limits stop capture ordered s
        ≡ (returned (rejected_report ordered compiled.output), (sandbox.compile s).1)
  unfolding judge_session rejected_report
  session_rejected checker limits stop capture ordered s compiled h k =
      rw (h, judge_session) (rw (k, judge_session))

  -- What a session reports from a state on: that the program does not compile, with the compiler's
  -- output, or what became of its executions, which start where the compiler has left off.
  abbrev pub IsReported :
      Checker → RunLimits → Bool → Bool → List JudgeTest → S → JudgeReport → Type 0
  IsReported checker limits stop capture ordered s r =
      (compiled : CompileResult) × ((sandbox.compile s).0 ≡ returned compiled)
      × (((compiled.is_ok ≡ false) × IsUncompiled (length ordered) compiled.output r)
          ⊎ ((compiled.is_ok ≡ true)
              × IsJudged stop capture ordered r
              × AreExecuted sandbox checker limits 1 ordered r.outcomes (sandbox.compile s).1
              × (stop ≡ true → PassButLast r.outcomes)))

  session_cases :
      (checker : Checker) (limits : RunLimits) (stop capture : Bool) (ordered : List JudgeTest)
      (s : S) {r : JudgeReport} {s' : S}
      → judge_session sandbox checker limits stop capture ordered s ≡ (returned r, s')
      → IsReported checker limits stop capture ordered s r
  session_cases checker limits stop capture ordered s {r} e =
      elim (Outcome-cases (sandbox.compile s).0) [
        | inl (failure, h) ↦
            let raises = session_uncompilable checker limits stop capture ordered s failure h in
            absurd (cc (raises, e))
        | inr (compiled, h) ↦ elim (Bool-cases compiled.is_ok) [
          | inl fine ↦
              let looped =
                sym (session_compiled checker limits stop capture ordered s compiled h fine) ∙ e in
              let (more, added, xs, only) =
                judge_loop-Appends sandbox checker limits stop capture 1 ordered
                  (new_report (length ordered)) (sandbox.compile s).1 looped in
              let same : r.outcomes ≡ more = unfold new_report in added in
              let judged =
                judge_loop-IsJudged stop capture ordered sandbox checker limits
                  (sandbox.compile s).1 looped in
              (compiled, h, inr (fine, judged, rw same xs, rw same only))
          | inr broken ↦
              let rejected =
                session_rejected checker limits stop capture ordered s compiled h broken in
              (
                compiled,
                h,
                inl (
                  broken,
                  subst (IsUncompiled (length ordered) compiled.output) (cc (rejected, e))
                      (rejected_report-IsUncompiled ordered compiled.output),
                ),
              )
        ]
      ]

  with_session_opened :
      {A : Type 0} (language : LanguageSpec) (source : Text) (memory_limit_mb : ℕ)
      (body : S → Outcome Failure A × S) (s : S)
      → (sandbox.open_session language source memory_limit_mb s).0 ≡ returned tt
      → with_session sandbox language source memory_limit_mb body s ≡ (
        (body (sandbox.open_session language source memory_limit_mb s).1).0,
        sandbox.close_session (body (sandbox.open_session language source memory_limit_mb s).1).1,
      )
  unfolding with_session
  with_session_opened language source memory_limit_mb body s h = rw (h, with_session)

  with_session_refused :
      {A : Type 0} (language : LanguageSpec) (source : Text) (memory_limit_mb : ℕ)
      (body : S → Outcome Failure A × S) (s : S) (e : Failure)
      → (sandbox.open_session language source memory_limit_mb s).0 ≡ raised e
      → with_session sandbox language source memory_limit_mb body s
        ≡ (raised e, (sandbox.open_session language source memory_limit_mb s).1)
  unfolding with_session
  with_session_refused language source memory_limit_mb body s e h = rw (h, with_session)

  module _ (language : LanguageSpec) (source : Text) (tests : List JudgeTest)
      (time_limit_ms memory_limit_mb : ℕ) (checker : Checker) (config : JudgeConfig)
      (stop capture : Bool) where
    abbrev limits : RunLimits
    limits =
        limits_for (effective_time_limit_ms time_limit_ms language) memory_limit_mb config language

    abbrev judging : S → Outcome Failure JudgeReport × S
    judging =
        judge_tests sandbox language source tests time_limit_ms memory_limit_mb checker config stop
          capture

    abbrev body : S → Outcome Failure JudgeReport × S
    body = judge_session sandbox checker limits stop capture (order_tests tests)

    judging_too_many :
        (s : S)
        → ltb config.max_tests (length (order_tests tests)) ≡ true
        → judging s ≡ (raised (too_many_tests (length (order_tests tests)) config.max_tests), s)
    unfolding judge_tests
    judging_too_many s h = rw (h, judge_tests)

    judging_in_session :
        (s : S)
        → ltb config.max_tests (length (order_tests tests)) ≡ false
        → judging s ≡ with_session sandbox language source memory_limit_mb body s
    unfolding judge_tests
    judging_in_session s h = rw (h, judge_tests)

    pub judging_cases :
        (s : S) {r : JudgeReport} {s' : S}
        → judging s ≡ (returned r, s')
        → IsReported checker limits stop capture
            (order_tests tests)
            (sandbox.open_session language source memory_limit_mb s).1
            r
    judging_cases s {r} e = elim (Bool-cases (ltb config.max_tests (length (order_tests tests)))) [
      | inl over ↦ absurd (cc (judging_too_many s over, e))
      | inr within ↦
          elim (Outcome-cases (sandbox.open_session language source memory_limit_mb s).0) [
            | inl (failure, h) ↦
                let refused =
                  with_session_refused language source memory_limit_mb body s failure h in
                absurd (cc (judging_in_session s within, refused, e))
            | inr (u, h) ↦
                let opened = (sandbox.open_session language source memory_limit_mb s).1 in
                let closed = with_session_opened language source memory_limit_mb body s h in
                let first : (body opened).0 ≡ returned r =
                  cc (judging_in_session s within, closed, e) in
                session_cases checker limits stop capture (order_tests tests) opened
                  (ap (λ o. (o, (body opened).1)) first)
          ]
    ]
