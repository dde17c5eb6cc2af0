-- ===== src/Judge/Engine/Executions.antt =====
-- The executions in a sandbox that the outcomes of `judge_tests`
-- (apps/judge/sahujudge/engine.py) stand for.

use sahucodex.Prelude.{
  ℕ, zero, suc, ◌+◌, ◌≡◌, ◌≢◌, refl, sym, ap, subst, Option, none, ◌∙◌, ◌⊎◌, inl, inr, Bool, true,
  false, ◌&&◌, not, List, [], ◌∷◌, ◌++◌, append_assoc, append-nil, arith, some, Bool-cases,
  Outcome-cases, returned, length,
}
use sahucodex.Prelude.Int.{ℤ, pos, negsuc}
use sahucodex.Judge.Checkers.{Checker}
use sahucodex.Judge.Sandbox.{
  RunLimits, RunResult, Sandbox, exited, timeout, memory, output_limit, signaled,
}
use sahucodex.Judge.Engine.{
  JudgeTest, JudgeReport, CaseOutcome, Verdict, accepted, wrong_answer, time_limit_exceeded,
  memory_limit_exceeded, runtime_error, compilation_error, system_error, is_accepted, is_zero,
  verdict_for, judge_case,
}
use sahucodex.Judge.Engine.Running.{judge_loop}
use sahucodex.Judge.Engine.Loop.{judge_loop_raised, judge_loop_stopped, judge_loop_continued}
use sahucodex.Judge.Engine.Reports.{first_failure, judge_case-outcomes, outcome_of}

-- Every outcome but the last is a pass.
abbrev pub PassButLast : List CaseOutcome → Type 0
PassButLast [] = Unit
PassButLast (o ∷ os) = ((is_accepted o.verdict ≡ true) ⊎ (os ≡ [])) × PassButLast os

-- The program has ended by itself with code 0.
pub record IsClean (result : RunResult) : Type 0 where
  pub ended : result.status ≡ exited
  pub code : result.exit_code ≡ some (pos 0)

-- What a verdict says of an execution.
abbrev pub IsDeserved : Checker → JudgeTest → RunResult → Verdict → Type 0
IsDeserved checker test result accepted =
    IsClean result × (checker.check test.expected result.stdout ≡ true)
IsDeserved checker test result wrong_answer =
    IsClean result × (checker.check test.expected result.stdout ≡ false)
IsDeserved checker test result time_limit_exceeded = result.status ≡ timeout
IsDeserved checker test result memory_limit_exceeded = result.status ≡ memory
IsDeserved checker test result runtime_error =
    (result.status ≡ output_limit)
    ⊎ ((result.status ≡ signaled) ⊎ ((result.status ≡ exited) × (result.exit_code ≢ some (pos 0))))
IsDeserved checker test result compilation_error = ⊥
IsDeserved checker test result system_error = ⊥

pub accepted_only : (v : Verdict) → is_accepted v ≡ true → v ≡ accepted
accepted_only v h = ground (arith, h)

is_zero-some :
    (code : Option ℤ)
    → ((is_zero code ≡ true) × (code ≡ some (pos 0)))
      ⊎ ((is_zero code ≡ false) × (code ≢ some (pos 0)))
is_zero-some none = inr (refl, λ h. cc h)
is_zero-some (some (negsuc n)) = inr (refl, λ h. cc h)
is_zero-some (some (pos zero)) = inl (refl, refl)
is_zero-some (some (pos (suc n))) = inr (ground arith, λ h. cc h)

verdict_for-IsDeserved :
    (checker : Checker) (test : JudgeTest) (result : RunResult)
    → IsDeserved checker test result (verdict_for result test.expected checker).0
unfolding verdict_for
verdict_for-IsDeserved checker test result = ground (arith, is_zero-some result.exit_code)

module _ {S : Type 0} (sandbox : Sandbox S) (checker : Checker) (limits : RunLimits) where
  -- An outcome is of this execution of this test.
  pub record IsOutcome (place : ℕ) (test : JudgeTest) (result : RunResult) (o : CaseOutcome)
      : Type 0 where
    pub position : o.position ≡ place
    pub test_id : o.test_id ≡ test.id
    pub public : o.public ≡ test.public
    pub time_ms : o.time_ms ≡ result.time_ms
    pub memory_kb : o.memory_kb ≡ result.memory_kb
    pub verdict : IsDeserved checker test result o.verdict

  -- An outcome is of the execution of the test from a state on.
  abbrev pub IsExecuted : ℕ → JudgeTest → CaseOutcome → S → Type 0
  IsExecuted position test o s =
      (result : RunResult) × ((sandbox.run test.input limits s).0 ≡ returned result)
      × IsOutcome position test result o

  -- The outcomes are those of executions of the first tests, one after the other, the first in the
  -- state `s` and each later one in the state that the one before it leaves.
  abbrev pub AreExecuted : ℕ → List JudgeTest → List CaseOutcome → S → Type 0
  AreExecuted position tests [] s = Unit
  AreExecuted position [] (o ∷ os) s = ⊥
  AreExecuted position (t ∷ ts) (o ∷ os) s =
      IsExecuted position t o s × AreExecuted (position + 1) ts os (sandbox.run t.input limits s).1

  -- Run one after the other from the state `s` on, all the tests pass.
  abbrev pub AllPass : List JudgeTest → S → Type 0
  AllPass [] s = Unit
  AllPass (t ∷ ts) s =
      ((result : RunResult) × ((sandbox.run t.input limits s).0 ≡ returned result)
        × IsDeserved checker t result accepted)
      × AllPass ts (sandbox.run t.input limits s).1

  outcome_of-IsOutcome :
      (capture : Bool) (position : ℕ) (test : JudgeTest) (result : RunResult)
      → IsOutcome position test result (outcome_of checker capture position test result)
  unfolding outcome_of
  outcome_of-IsOutcome capture position test result = record {
    position = refl;
    test_id = refl;
    public = refl;
    time_ms = refl;
    memory_kb = refl;
    verdict = verdict_for-IsDeserved checker test result;
  }

  -- An acceptance is of executions that all pass.
  pub AreExecuted-AllPass :
      (position : ℕ) (tests : List JudgeTest) (os : List CaseOutcome) (s : S)
      → AreExecuted position tests os s
      → length os ≡ length tests
      → is_accepted (first_failure os) ≡ true
      → AllPass tests s
  AreExecuted-AllPass position [] os s x n a = tt
  AreExecuted-AllPass position (t ∷ ts) [] s x n a = absurd (omega (arith, n))
  AreExecuted-AllPass position (t ∷ ts) (o ∷ os) s ((result, ran, x), xs) n a =
      elim (Bool-cases (is_accepted o.verdict)) [
        | inl passed ↦ (
          (
            result,
            ran,
            subst (IsDeserved checker t result) (accepted_only o.verdict passed) x.verdict,
          ),
          AreExecuted-AllPass (position + 1) ts os (sandbox.run t.input limits s).1 xs
              (omega (arith, n)) (ground (arith, a, passed)),
        )
        | inr failed ↦ absurd (ground (arith, a, failed))
      ]

  deserved_once :
      (test : JudgeTest) (result : RunResult) (v : Verdict)
      → IsDeserved checker test result v
      → IsDeserved checker test result accepted
      → v ≡ accepted
  deserved_once test result accepted x p = refl
  deserved_once test result wrong_answer x p = absurd (cc (x.1, p.1))
  deserved_once test result time_limit_exceeded x p = absurd (cc (x, p.0.ended))
  deserved_once test result memory_limit_exceeded x p = absurd (cc (x, p.0.ended))
  deserved_once test result runtime_error (inl x) p = absurd (cc (x, p.0.ended))
  deserved_once test result runtime_error (inr (inl x)) p = absurd (cc (x, p.0.ended))
  deserved_once test result runtime_error (inr (inr (x, y))) p = absurd (y p.0.code)
  deserved_once test result compilation_error x p = absurd x
  deserved_once test result system_error x p = absurd x

  -- Where all the tests pass, no outcome is a failure.
  pub AllPass-first_failure :
      (position : ℕ) (tests : List JudgeTest) (os : List CaseOutcome) (s : S)
      → AreExecuted position tests os s
      → AllPass tests s
      → first_failure os ≡ accepted
  AllPass-first_failure position tests [] s x p = refl
  AllPass-first_failure position [] (o ∷ os) s x p = absurd x
  AllPass-first_failure position (t ∷ ts) (o ∷ os) s ((result, ran, x), xs) ((again, ran', p), ps) =
      let same : again ≡ result = cc (ran, ran') in
      let passed : o.verdict ≡ accepted =
        deserved_once t result o.verdict x.verdict
          (subst (λ r. IsDeserved checker t r accepted) same p) in
      rw passed (AllPass-first_failure (position + 1) ts os (sandbox.run t.input limits s).1 xs ps)

module _ {S : Type 0} (sandbox : Sandbox S) (checker : Checker) (limits : RunLimits)
    (stop capture : Bool) where
  -- What the loop has appended from a state on.
  abbrev pub Appends : ℕ → List JudgeTest → JudgeReport → S → JudgeReport → Type 0
  Appends position tests report s r =
      (more : List CaseOutcome) × (r.outcomes ≡ report.outcomes ++ more)
      × AreExecuted sandbox checker limits position tests more s
      × (stop ≡ true → PassButLast more)

  pub judge_loop-Appends :
      (position : ℕ) (tests : List JudgeTest) (report : JudgeReport) (s : S) {r : JudgeReport}
      {s' : S}
      → judge_loop sandbox checker limits stop capture position tests report s ≡ (returned r, s')
      → Appends position tests report s r
  unfolding outcome_of
  judge_loop-Appends position [] report s {r} e =
      let same : report ≡ r = unfold judge_loop in cc e in
      ([], rw (← same) (sym (append-nil report.outcomes)), tt, λ h. tt)
  judge_loop-Appends position (test ∷ tests) report s {r} e =
      let s1 = (sandbox.run test.input limits s).1 in
      elim (Outcome-cases (sandbox.run test.input limits s).0) [
        | inl (failure, er) ↦
            let h =
              judge_loop_raised sandbox checker limits stop capture position test tests report s
                failure er in
            absurd (cc (h, e))
        | inr (result, er) ↦
            let o = outcome_of checker capture position test result in
            let next = judge_case checker capture position test result report in
            let grown = judge_case-outcomes checker capture position test result report in
            let ran : IsExecuted sandbox checker limits position test o s = (
              result,
              er,
              outcome_of-IsOutcome sandbox checker limits capture position test result,
            ) in
            elim (Bool-cases
              (stop && not (is_accepted (verdict_for result test.expected checker).0))) [
                | inl stops ↦
                    let same : next ≡ r = cc (
                      judge_loop_stopped sandbox checker limits stop capture position test tests
                          report s result er stops,
                      e,
                    ) in
                    (o ∷ [], rw (← same) grown, (ran, tt), λ h. (inr refl, tt))
                | inr goes_on ↦
                    let (more, added, xs, only) = judge_loop-Appends (position + 1) tests next s1 (
                      sym (
                        judge_loop_continued sandbox checker limits stop capture position test tests
                          report s result er goes_on)
                      ∙ e) in
                    (
                      o ∷ more,
                      added
                          ∙ ap (λ os. os ++ more) grown
                          ∙ append_assoc report.outcomes (o ∷ []) more,
                      (ran, xs),
                      λ h. (inl (ground (arith, h, goes_on)), only h),
                    )
              ]
      ]
