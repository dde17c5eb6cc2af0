-- ===== src/Judge/Engine/Loop.antt =====
-- The rule for the loop of `judge_tests` (apps/judge/sahujudge/engine.py): what every round keeps
-- holds of the report that the loop returns.
use sahucodex.Prelude.{
  ℕ, ◌+◌, ◌≡◌, refl, sym, subst, ◌∙◌, ◌⊎◌, inl, inr, Bool, true, false, ◌&&◌, not, List, [], ◌∷◌,
  arith, Bool-cases, Outcome-cases, returned, raised,
}
use sahucodex.Judge.Failures.{Failure}
use sahucodex.Judge.Checkers.{Checker}
use sahucodex.Judge.Sandbox.{RunLimits, RunResult, Sandbox}
use sahucodex.Judge.Engine.{JudgeTest, JudgeReport, is_accepted, verdict_for, judge_case}
use sahucodex.Judge.Engine.Running.{judge_loop}

-- A body whose verdict is no pass leaves a report whose verdict is none.
judge_case_failed :
    (checker : Checker) (capture : Bool) (position : ℕ) (test : JudgeTest) (result : RunResult)
    (report : JudgeReport)
    → is_accepted (verdict_for result test.expected checker).0 ≡ false
    → is_accepted (judge_case checker capture position test result report).verdict ≡ false
unfolding judge_case
judge_case_failed checker capture position test result report failed =
    rw failed (elim (Bool-cases (is_accepted report.verdict)) [
      | inl first ↦ rw first failed
      | inr later ↦ rw later later
    ])

-- A round after which the loop goes on under `stop_on_failure` has failed nothing.
judge_case_passed :
    (checker : Checker) (capture : Bool) (position : ℕ) (test : JudgeTest) (result : RunResult)
    (report : JudgeReport) (stop : Bool)
    → (stop && not (is_accepted (verdict_for result test.expected checker).0)) ≡ false
    → (stop ≡ true → is_accepted report.verdict ≡ true)
    → stop ≡ true
    → is_accepted (judge_case checker capture position test result report).verdict ≡ true
unfolding judge_case
judge_case_passed checker capture position test result report stop goes_on u h =
    let passed : is_accepted (verdict_for result test.expected checker).0 ≡ true = ground arith in
    rw passed (u h)

module _ {S : Type 0} (sandbox : Sandbox S) (checker : Checker) (limits : RunLimits)
    (stop capture : Bool) where
  -- What the loop has done when it returns: it has run every test, or it has stopped at a failure.
  abbrev pub HasEnded : List JudgeTest → JudgeReport → Type 0
  HasEnded tests report = (tests ≡ []) ⊎ ((stop ≡ true) × (is_accepted report.verdict ≡ false))

  pub judge_loop_raised :
      (position : ℕ) (test : JudgeTest) (tests : List JudgeTest) (report : JudgeReport) (s : S)
      (e : Failure)
      → (sandbox.run test.input limits s).0 ≡ raised e
      → judge_loop sandbox checker limits stop capture position (test ∷ tests) report s
        ≡ (raised e, (sandbox.run test.input limits s).1)
  unfolding judge_loop
  judge_loop_raised position test tests report s e h = rw (h, judge_loop)

  pub judge_loop_stopped :
      (position : ℕ) (test : JudgeTest) (tests : List JudgeTest) (report : JudgeReport) (s : S)
      (result : RunResult)
      → (sandbox.run test.input limits s).0 ≡ returned result
      → (stop && not (is_accepted (verdict_for result test.expected checker).0)) ≡ true
      → judge_loop sandbox checker limits stop capture position (test ∷ tests) report s ≡ (
        returned (judge_case checker capture position test result report),
        (sandbox.run test.input limits s).1,
      )
  unfolding judge_loop
  judge_loop_stopped position test tests report s result h k =
      rw (h, judge_loop) (rw (k, judge_loop))

  pub judge_loop_continued :
      (position : ℕ) (test : JudgeTest) (tests : List JudgeTest) (report : JudgeReport) (s : S)
      (result : RunResult)
      → (sandbox.run test.input limits s).0 ≡ returned result
      → (stop && not (is_accepted (verdict_for result test.expected checker).0)) ≡ false
      → judge_loop sandbox checker limits stop capture position (test ∷ tests) report s
        ≡ judge_loop sandbox checker limits stop capture
            (position + 1)
            tests
            (judge_case checker capture position test result report)
            (sandbox.run test.input limits s).1
  unfolding judge_loop
  judge_loop_continued position test tests report s result h k =
      rw (h, judge_loop) (rw (k, judge_loop))

  -- Where the loop goes on under `stop_on_failure`, nothing has failed so far.
  abbrev pub Unfailed : JudgeReport → Type 0
  Unfailed report = stop ≡ true → is_accepted report.verdict ≡ true

  module _ (P : ℕ → List JudgeTest → JudgeReport → Type 0)
      (keep : (position : ℕ) (test : JudgeTest) (tests : List JudgeTest) (result : RunResult)
          (report : JudgeReport)
        → Unfailed report
        → P position (test ∷ tests) report
        → P (position + 1) tests (judge_case checker capture position test result report)) where
    abbrev Ends : JudgeReport → Type 0
    Ends report =
        (position : ℕ) × (tests : List JudgeTest) × P position tests report × HasEnded tests report

    pub judge_loop_rule :
        (position : ℕ) (tests : List JudgeTest) (report : JudgeReport) (s : S) {r : JudgeReport}
        {s' : S}
        → Unfailed report
        → P position tests report
        → judge_loop sandbox checker limits stop capture position tests report s ≡ (returned r, s')
        → Ends r
    judge_loop_rule position [] report s {r} u p e =
        let same : report ≡ r = unfold judge_loop in cc e in
        (position, [], subst (P position []) same p, inl refl)
    judge_loop_rule position (test ∷ tests) report s {r} u p e =
        elim (Outcome-cases (sandbox.run test.input limits s).0) [
          | inl (failure, er) ↦
              let h = judge_loop_raised position test tests report s failure er in
              absurd (cc (h, e))
          | inr (result, er) ↦
              elim (Bool-cases
                (stop && not (is_accepted (verdict_for result test.expected checker).0))) [
                  | inl stops ↦
                      let same : judge_case checker capture position test result report ≡ r =
                        cc (judge_loop_stopped position test tests report s result er stops, e) in
                      (
                        position + 1,
                        tests,
                        subst (P (position + 1) tests) same
                            (keep position test tests result report u p),
                        inr (
                          ground arith,
                          rw (← same) (
                              judge_case_failed checker capture position test result report
                                (ground arith)),
                        ),
                      )
                  | inr goes_on ↦
                      judge_loop_rule (position + 1) tests
                        (judge_case checker capture position test result report)
                        (sandbox.run test.input limits s).1
                        (judge_case_passed checker capture position test result report stop goes_on
                          u)
                        (keep position test tests result report u p)
                        (sym (judge_loop_continued position test tests report s result er goes_on)
                          ∙ e)
                ]
        ]
