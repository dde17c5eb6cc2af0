-- ===== src/Judge/Engine/Verdicts.antt =====
-- What a report of `judge_tests` (apps/judge/sahujudge/engine.py) promises.

use sahucodex.Prelude.{
  ℕ, ◌+◌, ◌≤◌, ◌<◌, ◌≡◌, refl, ap, ◌∙◌, ◌⊎◌, inl, inr, Bool, true, false, List, arith, returned,
  length, ◌↔◌, subst, [], ◌++◌, keep_if, Bool-cases, All,
}
use sahucodex.Prelude.Texts.{Text}
use sahucodex.Judge.Failures.{Fallible}
use sahucodex.Judge.Checkers.{Checker}
use sahucodex.Judge.Languages.{LanguageSpec}
use sahucodex.Judge.Sandbox.{Sandbox, RunLimits, CompileResult}
use sahucodex.Judge.Engine.{
  JudgeTest, JudgeReport, JudgeConfig, accepted, is_accepted, order_tests, limits_for,
  effective_time_limit_ms,
}
use sahucodex.Judge.Engine.Running.{judge_tests}
use sahucodex.Judge.Engine.Reports.{count_accepted, first_failure, IsPrivate, IsAboutRun}
use sahucodex.Judge.Engine.Executions.{
  PassButLast, AreExecuted, AllPass, AreExecuted-AllPass, AllPass-first_failure, accepted_only,
}
use sahucodex.Judge.Engine.Order.{
  is_public, is_hidden, order_tests-eq_public_hidden, length-order_tests,
}
use sahucodex.Judge.Engine.Judging.{IsUncompiled, judging_cases}
use sahucodex.Judge.Engine.Progress.{
  IsJudged, count_accepted_all, first_failure_all, count_accepted-le_length, Follows-length,
}

module _ {S : Type 0} (sandbox : Sandbox S) (language : LanguageSpec) (source : Text)
    (tests : List JudgeTest) (time_limit_ms memory_limit_mb : ℕ) (checker : Checker)
    (config : JudgeConfig) (stop capture : Bool) where
  abbrev limits : RunLimits
  limits =
      limits_for (effective_time_limit_ms time_limit_ms language) memory_limit_mb config language

  -- The public tests as the caller listed them, then the hidden ones.
  abbrev in_order : List JudgeTest
  in_order = keep_if is_public tests ++ keep_if is_hidden tests

  -- What the compiler says in the session that is opened in `s`, and the state it leaves.
  abbrev compiling : S → Fallible CompileResult × S
  compiling s = sandbox.compile (sandbox.open_session language source memory_limit_mb s).1

  -- The program compiles, and each test, run after the one before it, passes.
  abbrev pub Passes : S → Type 0
  Passes s =
      ((compiled : CompileResult) × ((compiling s).0 ≡ returned compiled) × (compiled.is_ok ≡ true))
      × AllPass sandbox checker limits in_order (compiling s).1

  -- What a report has to say.
  abbrev pub Says : S → JudgeReport → Type 0
  Says s r =
      (compiled : CompileResult) × ((compiling s).0 ≡ returned compiled)
      × (((compiled.is_ok ≡ false) × IsUncompiled (length tests) compiled.output r)
          ⊎ ((compiled.is_ok ≡ true)
              × (r.total ≡ length tests)
              × AreExecuted sandbox checker limits 1 in_order r.outcomes (compiling s).1
              × (r.passed ≡ count_accepted r.outcomes)
              × (r.verdict ≡ first_failure r.outcomes)))

  -- A returned report is right. When the sandbox could not compile the program, it says so with the
  -- compiler's output and holds no outcome. When it could, the outcomes are those of executions of
  -- the first tests, public ones before hidden ones, each with the time, the memory and the verdict
  -- that the execution and the checker give it; the count is that of the passes among them and the
  -- verdict that of the first failure. The total is that of the tests.
  pub judge_tests_report :
      (s : S) {r : JudgeReport} {s' : S}
      → judge_tests sandbox language source tests time_limit_ms memory_limit_mb checker config stop
          capture s
        ≡ (returned r, s')
      → Says s r
  judge_tests_report s {r} e =
      let (compiled, h, cases) =
        judging_cases sandbox language source tests time_limit_ms memory_limit_mb checker config
          stop capture s e in
      let size = length-order_tests tests in
      elim cases [
        | inl (broken, u) ↦
            (compiled, h, inl (broken, subst (λ n. IsUncompiled n compiled.output r) size u))
        | inr (fine, j, xs, only) ↦ (
          compiled,
          h,
          inr (
            fine,
            j.size ∙ size,
            subst (λ ts. AreExecuted sandbox checker limits 1 ts r.outcomes (compiling s).1)
                (order_tests-eq_public_hidden tests) xs,
            j.consistent.counted,
            j.consistent.decided,
          ),
        )
      ]

  -- The loop stops before the end at a failure only.
  all_run :
      {r : JudgeReport}
      → IsJudged stop capture (order_tests tests) r
      → r.verdict ≡ accepted
      → length r.outcomes ≡ length (order_tests tests)
  all_run j a = elim j.ended [ inl done ↦ done | inr (stopped, failed) ↦ absurd (cc (failed, a)) ]

  -- A submission is accepted just when the program compiles and every one of the tests, run one
  -- after the other, ends cleanly with an output that the checker takes. The number of passes is
  -- then that of the tests; and where all of one or more tests have passed, the report is an
  -- acceptance.
  pub judge_tests_accepted :
      (s : S) {r : JudgeReport} {s' : S}
      → judge_tests sandbox language source tests time_limit_ms memory_limit_mb checker config stop
          capture s
        ≡ (returned r, s')
      → ((r.verdict ≡ accepted) ↔ Passes s)
        × (r.verdict ≡ accepted → (r.passed ≡ length tests) × (length r.outcomes ≡ length tests))
        × (0 < length tests → r.passed ≡ length tests → r.verdict ≡ accepted)
  judge_tests_accepted s {r} e =
      let (compiled, h, cases) =
        judging_cases sandbox language source tests time_limit_ms memory_limit_mb checker config
          stop capture s e in
      let size = length-order_tests tests in
      elim cases [
        | inl (broken, u) ↦ (
          (
            λ a. absurd (cc (a, u.verdict)),
            λ p. let same : p.0.0 ≡ compiled = cc (h, p.0.1) in absurd (cc (p.0.2, same, broken)),
          ),
          λ a. absurd (cc (a, u.verdict)),
          λ some_test all_passed. absurd (omega (arith, u.passed, some_test, all_passed)),
        )
        | inr (fine, j, xs, only) ↦
            let executed =
              subst (λ ts. AreExecuted sandbox checker limits 1 ts r.outcomes (compiling s).1)
                (order_tests-eq_public_hidden tests) xs in
            (
              (
                λ a. (
                  (compiled, h, fine),
                  AreExecuted-AllPass sandbox checker limits 1 in_order r.outcomes (compiling s).1
                      executed (all_run j a ∙ ap length (order_tests-eq_public_hidden tests))
                      (rw (← j.consistent.decided, a) refl),
                ),
                λ p.
                    j.consistent.decided
                    ∙ AllPass-first_failure sandbox checker limits 1 in_order r.outcomes
                        (compiling s).1 executed p.1,
              ),
              λ a.
                  let passes =
                    count_accepted_all r.outcomes (rw (← j.consistent.decided, a) refl) in
                  (j.consistent.counted ∙ passes ∙ all_run j a ∙ size, all_run j a ∙ size),
              λ some_test all_passed. accepted_only r.verdict (
                  rw j.consistent.decided (
                    first_failure_all r.outcomes (
                      omega (
                        arith,
                        count_accepted-le_length r.outcomes,
                        Follows-length 1 (order_tests tests) r.outcomes j.follows,
                        j.consistent.counted,
                        all_passed,
                        size,
                      )))),
            )
      ]

  -- With `stop_on_failure` every outcome but the last is a pass, and all the tests are run unless
  -- one fails; without it every test is run. Of a program that does not compile none is.
  pub judge_tests_stops :
      (s : S) {r : JudgeReport} {s' : S}
      → judge_tests sandbox language source tests time_limit_ms memory_limit_mb checker config stop
          capture s
        ≡ (returned r, s')
      → (compiled : CompileResult) × ((compiling s).0 ≡ returned compiled)
        × (((compiled.is_ok ≡ false) × (r.outcomes ≡ []))
            ⊎ ((compiled.is_ok ≡ true)
                × (stop ≡ true)
                × PassButLast r.outcomes
                × (length r.outcomes ≤ r.passed + 1)
                × ((length r.outcomes ≡ length tests) ⊎ (is_accepted r.verdict ≡ false)))
            ⊎ ((compiled.is_ok ≡ true) × (stop ≡ false) × (length r.outcomes ≡ length tests)))
  judge_tests_stops s {r} e =
      let (compiled, h, cases) =
        judging_cases sandbox language source tests time_limit_ms memory_limit_mb checker config
          stop capture s e in
      let size = length-order_tests tests in
      elim cases [
        | inl (broken, u) ↦ (compiled, h, inl (broken, u.outcomes))
        | inr (fine, j, xs, only) ↦ elim (Bool-cases stop) [
          | inl stopping ↦ (
            compiled,
            h,
            inr (
                inl (
                  fine,
                  stopping,
                  only stopping,
                  j.one_failure stopping,
                  elim j.ended [
                    | inl done ↦ inl (done ∙ size)
                    | inr (stopped, failed) ↦ inr failed
                  ],
                )),
          )
          | inr going_on ↦ (
            compiled,
            h,
            inr (
                inr (
                  fine,
                  going_on,
                  elim j.ended [
                    | inl done ↦ done ∙ size
                    | inr (stopped, failed) ↦ absurd (cc (stopped, going_on))
                  ],
                )),
          )
        ]
      ]

  -- Nothing of a hidden test but its verdict, time and memory is in its outcome, nor the data of
  -- a public test unless it was asked for; and no outcome blames the program for the judge.
  pub judge_tests_secret :
      (s : S) {r : JudgeReport} {s' : S}
      → judge_tests sandbox language source tests time_limit_ms memory_limit_mb checker config stop
          capture s
        ≡ (returned r, s')
      → All (IsPrivate capture) r.outcomes × All (λ o. IsAboutRun o.verdict) r.outcomes
  judge_tests_secret s {r} e =
      let (compiled, h, cases) =
        judging_cases sandbox language source tests time_limit_ms memory_limit_mb checker config
          stop capture s e in
      elim cases [
        | inl (broken, u) ↦ rw u.outcomes (tt, tt)
        | inr (fine, j, xs, only) ↦ (j.secret, j.about)
      ]
