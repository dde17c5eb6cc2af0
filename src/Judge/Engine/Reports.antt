-- ===== src/Judge/Engine/Reports.antt =====
-- What a report of `judge_tests` (apps/judge/sahujudge/engine.py) says of the tests that were run.
use sahucodex.Prelude.{
  ℕ, suc, ◌+◌, ◌≤◌, ◌≡◌, refl, ap, sym, ◌∙◌, Bool, false, ◌&&◌, List, [], ◌∷◌, ◌++◌, arith, none,
  length, drop, if◌then◌else◌,
}
use sahucodex.Prelude.Texts.{Text}
use sahucodex.Judge.Checkers.{Checker}
use sahucodex.Judge.Sandbox.{RunResult}
use sahucodex.Judge.Engine.{
  JudgeTest, JudgeReport, CaseOutcome, Verdict, accepted, compilation_error, system_error,
  is_accepted, verdict_for, case_outcome, judge_case,
}

abbrev pub count_accepted : List CaseOutcome → ℕ
count_accepted [] = 0
count_accepted (o ∷ os) =
    if is_accepted o.verdict then suc (count_accepted os) else count_accepted os

-- The verdict of the first outcome that is no pass, or a pass.
abbrev pub first_failure : List CaseOutcome → Verdict
first_failure [] = accepted
first_failure (o ∷ os) = if is_accepted o.verdict then first_failure os else o.verdict

-- The outcomes are those of the first tests, in order, with positions counted from `position`.
abbrev pub Follows : ℕ → List JudgeTest → List CaseOutcome → Type 0
Follows position tests [] = Unit
Follows position [] (o ∷ os) = ⊥
Follows position (t ∷ ts) (o ∷ os) =
    (o.position ≡ position)
    × (o.test_id ≡ t.id)
    × (o.public ≡ t.public)
    × Follows (position + 1) ts os

-- What is kept of a hidden test, and of a public one unless its data was asked for.
abbrev pub IsPrivate : Bool → CaseOutcome → Type 0
IsPrivate capture o =
    (o.public ≡ false → o.message ≡ none)
    × ((o.public && capture) ≡ false
        → (o.input ≡ none) × (o.expected ≡ none) × (o.stdout ≡ none) × (o.stderr ≡ none))

pub record IsConsistent (r : JudgeReport) : Type 0 where
  pub counted : r.passed ≡ count_accepted r.outcomes
  pub decided : r.verdict ≡ first_failure r.outcomes

count_accepted-append :
    (os : List CaseOutcome) (o : CaseOutcome)
    → count_accepted (os ++ o ∷ [])
      ≡ (if is_accepted o.verdict then count_accepted os + 1 else count_accepted os)
count_accepted-append [] o = ground arith
count_accepted-append (p ∷ os) o = ground (arith, count_accepted-append os o)

first_failure-append :
    (os : List CaseOutcome) (o : CaseOutcome)
    → first_failure (os ++ o ∷ [])
      ≡ (if is_accepted (first_failure os) then o.verdict else first_failure os)
first_failure-append [] o = ground arith
first_failure-append (p ∷ os) o = ground (arith, first_failure-append os o)

pub Follows-append :
    (position : ℕ) (tests : List JudgeTest) (os : List CaseOutcome) (t : JudgeTest)
    (rest : List JudgeTest) (o : CaseOutcome)
    → Follows position tests os
    → drop (length os) tests ≡ t ∷ rest
    → o.position ≡ position + length os
    → o.test_id ≡ t.id
    → o.public ≡ t.public
    → Follows position tests (os ++ o ∷ []) × (drop (length (os ++ o ∷ [])) tests ≡ rest)
Follows-append position [] [] t rest o f e p i b = cc e
Follows-append position (u ∷ tests) [] t rest o f e p i b =
    let same : u ≡ t = cc e in
    let tail : tests ≡ rest = cc e in
    ((omega arith, i ∙ ap (λ x. x.id) (sym same), b ∙ ap (λ x. x.public) (sym same), tt), tail)
Follows-append position [] (q ∷ os) t rest o f e p i b = absurd f
Follows-append position (u ∷ tests) (q ∷ os) t rest o f e p i b =
    let (more, left) = Follows-append (position + 1) tests os t rest o f.3 e (omega arith) i b in
    ((f.0, f.1, f.2, more), left)

-- What the body of the loop appends.
unfoldable pub outcome_of : Checker → Bool → ℕ → JudgeTest → RunResult → CaseOutcome
unfolding case_outcome
outcome_of checker capture position test result =
    let (verdict, message) = verdict_for result test.expected checker in
    case_outcome capture position test result verdict message

-- One round keeps the counts and the verdict in step with the outcomes.
pub judge_case-IsConsistent :
    (checker : Checker) (capture : Bool) (position : ℕ) (test : JudgeTest) (result : RunResult)
    (report : JudgeReport)
    → IsConsistent report
    → IsConsistent (judge_case checker capture position test result report)
unfolding judge_case outcome_of
judge_case-IsConsistent checker capture position test result report h =
    let outcome = outcome_of checker capture position test result in
    ground (
      arith,
      count_accepted-append report.outcomes outcome,
      first_failure-append report.outcomes outcome,
    )

pub judge_case-outcomes :
    (checker : Checker) (capture : Bool) (position : ℕ) (test : JudgeTest) (result : RunResult)
    (report : JudgeReport)
    → (judge_case checker capture position test result report).outcomes
      ≡ report.outcomes ++ outcome_of checker capture position test result ∷ []
unfolding judge_case outcome_of
judge_case-outcomes checker capture position test result report = ground arith

pub judge_case-total :
    (checker : Checker) (capture : Bool) (position : ℕ) (test : JudgeTest) (result : RunResult)
    (report : JudgeReport)
    → ((judge_case checker capture position test result report).total ≡ report.total)
      × ((judge_case checker capture position test result report).compile_output
          ≡ report.compile_output)
unfolding judge_case
judge_case-total checker capture position test result report = ground arith

pub outcome_of-IsPrivate :
    (checker : Checker) (capture : Bool) (position : ℕ) (test : JudgeTest) (result : RunResult)
    → IsPrivate capture (outcome_of checker capture position test result)
unfolding outcome_of
outcome_of-IsPrivate checker capture position test result = ground arith

-- The verdict about an execution says nothing of compilation or of the judge itself.
abbrev pub IsAboutRun : Verdict → Type 0
IsAboutRun compilation_error = ⊥
IsAboutRun system_error = ⊥
IsAboutRun _ = Unit

pub verdict_for-IsAboutRun :
    (result : RunResult) (expected : Text) (checker : Checker)
    → IsAboutRun (verdict_for result expected checker).0
unfolding verdict_for
verdict_for-IsAboutRun result expected checker = ground arith

pub outcome_of-fields :
    (checker : Checker) (capture : Bool) (position : ℕ) (test : JudgeTest) (result : RunResult)
    → ((outcome_of checker capture position test result).position ≡ position)
      × ((outcome_of checker capture position test result).test_id ≡ test.id)
      × ((outcome_of checker capture position test result).public ≡ test.public)
      × IsAboutRun (outcome_of checker capture position test result).verdict
unfolding outcome_of
outcome_of-fields checker capture position test result =
    (refl, refl, refl, verdict_for-IsAboutRun result test.expected checker)

pub judge_case-passed :
    (checker : Checker) (capture : Bool) (position : ℕ) (test : JudgeTest) (result : RunResult)
    (report : JudgeReport)
    → report.passed ≤ (judge_case checker capture position test result report).passed
unfolding judge_case
judge_case-passed checker capture position test result report = ground arith
