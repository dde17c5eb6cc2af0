-- ===== src/Judge/Engine/Brackets.antt =====
-- `judge_tests` (apps/judge/sahujudge/engine.py) closes what it opens, however it ends.
use sahucodex.Prelude.{
  ℕ, ◌+◌, inl, inr, Bool, ◌&&◌, not, List, [], ◌∷◌, Bool-cases, Outcome-cases, ◌≡◌, returned,
  raised, length, ltb,
}
use sahucodex.Prelude.Texts.{Text}
use sahucodex.Judge.Failures.{Failure, Fallible}
use sahucodex.Judge.Checkers.{Checker}
use sahucodex.Judge.Languages.{LanguageSpec}
use sahucodex.Judge.Sandbox.{RunLimits, Sandbox}
use sahucodex.Judge.Engine.{
  JudgeTest, JudgeReport, JudgeConfig, is_accepted, verdict_for, judge_case, new_report,
  order_tests, limits_for, effective_time_limit_ms,
}
use sahucodex.Judge.Engine.Running.{judge_loop, judge_session, with_session, judge_tests}

module _ {S : Type 0} (sandbox : Sandbox S) (IsOpen IsSame : S → S → Type 0) where
  -- `IsOpen s t`: from `s` one session was opened and is open in `t`. `IsSame s t`: none is.
  pub record IsBracketed : Type 0 where
    pub idles : (s : S) → IsSame s s
    pub opens :
        (language : LanguageSpec) (source : Text) (memory_limit_mb : ℕ) (s : S)
        → (sandbox.open_session language source memory_limit_mb s).0 ≡ returned tt
        → IsOpen s (sandbox.open_session language source memory_limit_mb s).1
    pub refuses :
        (language : LanguageSpec) (source : Text) (memory_limit_mb : ℕ) (s : S) (e : Failure)
        → (sandbox.open_session language source memory_limit_mb s).0 ≡ raised e
        → IsSame s (sandbox.open_session language source memory_limit_mb s).1
    pub compiles : (s t : S) → IsOpen s t → IsOpen s (sandbox.compile t).1
    pub runs :
        (stdin : Text) (limits : RunLimits) (s t : S)
        → IsOpen s t
        → IsOpen s (sandbox.run stdin limits t).1
    pub closes : (s t : S) → IsOpen s t → IsSame s (sandbox.close_session t)

  module _ (bracketed : IsBracketed) where
    judge_loop-IsOpen :
        (checker : Checker) (limits : RunLimits) (stop capture : Bool) (position : ℕ)
        (tests : List JudgeTest) (report : JudgeReport) (s t : S)
        → IsOpen s t
        → IsOpen s (judge_loop sandbox checker limits stop capture position tests report t).1
    unfolding judge_loop
    judge_loop-IsOpen checker limits stop capture position [] report s t h = h
    judge_loop-IsOpen checker limits stop capture position (test ∷ tests) report s t h =
        let ran = bracketed.runs test.input limits s t h in
        elim (Outcome-cases (sandbox.run test.input limits t).0) [
          | inl (e, failed) ↦ rw (failed, judge_loop) ran
          | inr (result, fine) ↦
              elim (Bool-cases
                (stop && not (is_accepted (verdict_for result test.expected checker).0))) [
                  | inl stops ↦ rw (fine, judge_loop) (rw (stops, judge_loop) ran)
                  | inr goes_on ↦
                      rw (fine, judge_loop)
                        (rw (goes_on, judge_loop)
                          (judge_loop-IsOpen checker limits stop capture (position + 1) tests
                            (judge_case checker capture position test result report) s
                            (sandbox.run test.input limits t).1 ran))
                ]
        ]

    judge_session-IsOpen :
        (checker : Checker) (limits : RunLimits) (stop capture : Bool) (tests : List JudgeTest)
        (s t : S)
        → IsOpen s t
        → IsOpen s (judge_session sandbox checker limits stop capture tests t).1
    unfolding judge_session
    judge_session-IsOpen checker limits stop capture tests s t h =
        let compiled = bracketed.compiles s t h in
        elim (Outcome-cases (sandbox.compile t).0) [
          | inl (e, failed) ↦ rw (failed, judge_session) compiled
          | inr (result, done) ↦ elim (Bool-cases result.is_ok) [
            | inl fine ↦
                rw (done, judge_session)
                  (rw (fine, judge_session)
                    (judge_loop-IsOpen checker limits stop capture 1 tests
                      (new_report (length tests)) s (sandbox.compile t).1 compiled))
            | inr broken ↦ rw (done, judge_session) (rw (broken, judge_session) compiled)
          ]
        ]

    with_session-IsSame :
        {A : Type 0} (language : LanguageSpec) (source : Text) (memory_limit_mb : ℕ)
        (body : S → Fallible A × S) (s : S)
        → ((t : S) → IsOpen s t → IsOpen s (body t).1)
        → IsSame s (with_session sandbox language source memory_limit_mb body s).1
    unfolding with_session
    with_session-IsSame language source memory_limit_mb body s keeps =
        let opened = (sandbox.open_session language source memory_limit_mb s).1 in
        elim (Outcome-cases (sandbox.open_session language source memory_limit_mb s).0) [
          | inl (e, h) ↦
              rw (h, with_session) (bracketed.refuses language source memory_limit_mb s e h)
          | inr (u, h) ↦
              rw (h, with_session)
                (bracketed.closes s (body opened).1
                  (keeps opened (bracketed.opens language source memory_limit_mb s h)))
        ]

    pub judge_tests-IsSame :
        (language : LanguageSpec) (source : Text) (tests : List JudgeTest)
        (time_limit_ms memory_limit_mb : ℕ) (checker : Checker) (config : JudgeConfig)
        (stop capture : Bool) (s : S)
        → IsSame s
            (judge_tests sandbox language source tests time_limit_ms memory_limit_mb checker config
              stop capture s).1
    unfolding judge_tests
    judge_tests-IsSame language source tests time_limit_ms memory_limit_mb checker config stop
          capture s =
        let ordered = order_tests tests in
        let limits =
          limits_for (effective_time_limit_ms time_limit_ms language) memory_limit_mb config
            language in
        elim (Bool-cases (ltb config.max_tests (length ordered))) [
          | inl over ↦ rw over (bracketed.idles s)
          | inr within ↦ rw within (
              with_session-IsSame language source memory_limit_mb
                (judge_session sandbox checker limits stop capture ordered) s
                (judge_session-IsOpen checker limits stop capture ordered s))
        ]
