-- ===== src/Judge/Engine/Progress.antt =====
-- The invariant of the loop of `judge_tests` (apps/judge/sahujudge/engine.py), and what it leaves.
use sahucodex.Prelude.{
  ℕ, zero, suc, ◌+◌, ◌≤◌, ◌≡◌, refl, subst, ◌∙◌, ◌⊎◌, inl, inr, Bool, true, false, List, [], ◌∷◌,
  arith, returned, none, length, length-append, drop, All, All-append,
}
use sahucodex.Judge.Checkers.{Checker}
use sahucodex.Judge.Sandbox.{RunLimits, RunResult, Sandbox}
use sahucodex.Judge.Engine.{
  JudgeTest, JudgeReport, CaseOutcome, is_accepted, judge_case, new_report,
}
use sahucodex.Judge.Engine.Running.{judge_loop}
use sahucodex.Judge.Engine.Loop.{judge_loop_rule, HasEnded}
use sahucodex.Judge.Engine.Reports.{
  count_accepted, first_failure, Follows, Follows-append, IsPrivate, IsAboutRun, IsConsistent,
  outcome_of, judge_case-IsConsistent, judge_case-outcomes, judge_case-total, judge_case-passed,
  outcome_of-IsPrivate, outcome_of-fields,
}

-- Where nothing has failed, every outcome is a pass.
pub count_accepted_all :
    (os : List CaseOutcome) → is_accepted (first_failure os) ≡ true → count_accepted os ≡ length os
count_accepted_all [] h = refl
count_accepted_all (o ∷ os) h = ground (arith, count_accepted_all os)

pub count_accepted-le_length : (os : List CaseOutcome) → count_accepted os ≤ length os
count_accepted-le_length [] = omega arith
count_accepted-le_length (o ∷ os) = ground (arith, count_accepted-le_length os)

pub first_failure_all :
    (os : List CaseOutcome) → count_accepted os ≡ length os → is_accepted (first_failure os) ≡ true
first_failure_all [] h = refl
first_failure_all (o ∷ os) h = ground (arith, first_failure_all os, count_accepted-le_length os)

drop-eq_nil {ℓ} : {A : Type ℓ} (n : ℕ) (xs : List A) → drop n xs ≡ [] → length xs ≤ n
drop-eq_nil zero [] h = omega arith
drop-eq_nil zero (x ∷ xs) h = cc h
drop-eq_nil (suc n) [] h = omega arith
drop-eq_nil (suc n) (x ∷ xs) h = omega (arith, drop-eq_nil n xs h)

pub Follows-length :
    (position : ℕ) (tests : List JudgeTest) (os : List CaseOutcome)
    → Follows position tests os
    → length os ≤ length tests
Follows-length position tests [] f = omega arith
Follows-length position [] (o ∷ os) f = absurd f
Follows-length position (t ∷ ts) (o ∷ os) f = omega (arith, Follows-length (position + 1) ts os f.3)

module _ (stop capture : Bool) (ordered : List JudgeTest) where
  -- The state of the loop before a round.
  pub record Progress (position : ℕ) (tests : List JudgeTest) (r : JudgeReport) : Type 0 where
    pub consistent : IsConsistent r
    pub follows : Follows 1 ordered r.outcomes
    pub left : drop (length r.outcomes) ordered ≡ tests
    pub at_position : position ≡ 1 + length r.outcomes
    pub secret : All (IsPrivate capture) r.outcomes
    pub about : All (λ o. IsAboutRun o.verdict) r.outcomes
    pub size : r.total ≡ length ordered
    pub no_compile_output : r.compile_output ≡ none
    pub one_failure : stop ≡ true → length r.outcomes ≤ r.passed + 1

  -- What the loop returns.
  pub record IsJudged (r : JudgeReport) : Type 0 where
    pub consistent : IsConsistent r
    pub follows : Follows 1 ordered r.outcomes
    pub secret : All (IsPrivate capture) r.outcomes
    pub about : All (λ o. IsAboutRun o.verdict) r.outcomes
    pub size : r.total ≡ length ordered
    pub no_compile_output : r.compile_output ≡ none
    pub one_failure : stop ≡ true → length r.outcomes ≤ r.passed + 1
    pub ended :
        (length r.outcomes ≡ length ordered) ⊎ ((stop ≡ true) × (is_accepted r.verdict ≡ false))

  new_report-Progress : Progress 1 ordered (new_report (length ordered))
  unfolding new_report
  new_report-Progress = record {
    consistent = record { counted = refl; decided = refl };
    follows = tt;
    left = refl;
    at_position = omega arith;
    secret = tt;
    about = tt;
    size = refl;
    no_compile_output = refl;
    one_failure = λ _. omega arith;
  }

  module _ (checker : Checker) where
    judge_case-Progress :
        (position : ℕ) (test : JudgeTest) (tests : List JudgeTest) (result : RunResult)
        (report : JudgeReport)
        → (stop ≡ true → is_accepted report.verdict ≡ true)
        → Progress position (test ∷ tests) report
        → Progress (position + 1) tests (judge_case checker capture position test result report)
    judge_case-Progress position test tests result report unfailed p =
        let o = outcome_of checker capture position test result in
        let next = judge_case checker capture position test result report in
        let grown = judge_case-outcomes checker capture position test result report in
        let consistent =
          judge_case-IsConsistent checker capture position test result report p.consistent in
        let fields = outcome_of-fields checker capture position test result in
        let (follows, left) =
          Follows-append 1 ordered report.outcomes test tests o p.follows p.left
            (fields.0 ∙ p.at_position) fields.1 fields.2 in
        let totals = judge_case-total checker capture position test result report in
        record {
          consistent = consistent;
          follows = rw grown follows;
          left = rw grown left;
          at_position =
              rw grown (omega (arith, length-append report.outcomes (o ∷ []), p.at_position));
          secret = rw grown (
              All-append (IsPrivate capture) report.outcomes (o ∷ []) p.secret
                (outcome_of-IsPrivate checker capture position test result, tt));
          about = rw grown (
              All-append (λ x. IsAboutRun x.verdict) report.outcomes (o ∷ []) p.about
                (fields.3, tt));
          size = totals.0 ∙ p.size;
          no_compile_output = totals.1 ∙ p.no_compile_output;
          one_failure = λ h.
              let all_passed =
                count_accepted_all report.outcomes
                  (subst (λ v. is_accepted v ≡ true) p.consistent.decided (unfailed h)) in
              rw grown (
                omega (
                  arith,
                  length-append report.outcomes (o ∷ []),
                  all_passed,
                  p.consistent.counted,
                  judge_case-passed checker capture position test result report,
                ));
        }

  module _ {S : Type 0} (sandbox : Sandbox S) (checker : Checker) (limits : RunLimits) where
    Progress-IsJudged :
        (position : ℕ) (tests : List JudgeTest) (r : JudgeReport)
        → Progress position tests r
        → HasEnded sandbox checker limits stop capture tests r
        → IsJudged r
    Progress-IsJudged position tests r p ended = record {
      consistent = p.consistent;
      follows = p.follows;
      secret = p.secret;
      about = p.about;
      size = p.size;
      no_compile_output = p.no_compile_output;
      one_failure = p.one_failure;
      ended = elim ended [
        | inl done ↦ inl (
            omega (
              arith,
              drop-eq_nil (length r.outcomes) ordered (p.left ∙ done),
              Follows-length 1 ordered r.outcomes p.follows,
            ))
        | inr failed ↦ inr failed
      ];
    }

    -- The loop, from a new report on, returns a judged one.
    pub judge_loop-IsJudged :
        (s : S) {r : JudgeReport} {s' : S}
        → judge_loop sandbox checker limits stop capture 1 ordered (new_report (length ordered)) s
          ≡ (returned r, s')
        → IsJudged r
    judge_loop-IsJudged s {r} e =
        let (position, tests, p, ended) =
          judge_loop_rule sandbox checker limits stop capture Progress (judge_case-Progress checker)
            1 ordered (new_report (length ordered)) s (λ _. unfold new_report in refl)
            new_report-Progress e in
        Progress-IsJudged position tests r p ended
