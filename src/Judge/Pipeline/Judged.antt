-- ===== src/Judge/Pipeline/Judged.antt =====
-- `judge_submission` (apps/judge/sahujudge/pipeline.py): every delivery of a job is accounted for.
use mathlib.Core.Option
use sahucodex.Prelude.{
  ℕ, ◌≤◌, ◌≡◌, refl, ap, subst, ◌∙◌, ◌⊎◌, inl, inr, true, List, ◌++◌, map, some, ◌==◌, ==_iff,
  arith, first_of?, returned,
}
use sahucodex.Prelude.Texts.{Text, codes}
use sahucodex.Prelude.Tables.{count_where, update_where, first_of?-update_where}
use sahucodex.Judge.Failures.{Fallible}
use sahucodex.Judge.Sandbox.{Sandbox}
use sahucodex.Judge.Engine.{JudgeReport, is_accepted}
use sahucodex.Api.Tables.{Submission, queued, Database, Achievement, UserAchievement}
use sahucodex.Judge.Pipeline.{
  JudgeSettings, World, claim, started, judged, counted, is_submission, is_claimable, ProblemSpec,
  record_progress, test_result_row, Event,
}
use sahucodex.Judge.Pipeline.Trial.{
  IsUnjudgeable, IsVerdictOf, claim-IsUnjudgeable, claim-IsVerdictOf,
}
use sahucodex.Judge.Pipeline.Closing.{
  Meanwhile, judge_submission, judge_and_persist, written, publish, publish_earned, fail, Handled,
  judge_failed, judged_as, closed_as_failed,
}
use sahucodex.Judge.Pipeline.Claiming.{publish-db, publish-sandbox, publish_earned-db, fail-db}
use sahucodex.Judge.Pipeline.Outcomes.{
  with_earned, judge_and_persist_cases, first_of?-claim, claim_succeeds,
}

-- The judge could not judge the submission in the world `w0`: it is closed as a failure of the
-- system, and nothing else changed.
pub record IsFailed {S : Type 0} (sandbox : Sandbox S) (settings : JudgeSettings) (row : Submission)
    (now later : ℕ) (w0 : World S) (outcome : Fallible Handled) (w : World S) : Type 0 where
  pub unjudgeable : IsUnjudgeable settings sandbox row w0.db w0.sandbox
  pub returns : outcome ≡ returned judge_failed
  pub closes :
      first_of? (is_submission row.id) w.db.submissions
      ≡ some (closed_as_failed later (started now row))
  pub counts_nothing :
      (w.db.problems ≡ w0.db.problems)
      × (w.db.progress ≡ w0.db.progress)
      × (w.db.streaks ≡ w0.db.streaks)
  pub earns_nothing : w.db.user_achievements ≡ w0.db.user_achievements
  pub records_nothing :
      (w.db.submission_results ≡ w0.db.submission_results)
      × (w.db.submission_test_results ≡ w0.db.submission_test_results)

-- The program was judged on its problem in the world `w0`: the submission holds the report, and the
-- attempt is counted once for the problem and once for its owner.
pub record IsJudged {S : Type 0} (sandbox : Sandbox S) (settings : JudgeSettings)
    (meanwhile : Meanwhile) (row : Submission) (now later : ℕ) (w0 : World S)
    (outcome : Fallible Handled) (w : World S) : Type 0 where
  pub report : JudgeReport
  pub problem : ProblemSpec
  pub judged_by : IsVerdictOf settings sandbox row w0.db w0.sandbox problem report
  pub returns : outcome ≡ returned (judged_as report.verdict)
  pub closes :
      first_of? (is_submission row.id) w.db.submissions
      ≡ some (judged report later (started now row))
  pub counts :
      w.db.problems
      ≡ update_where (λ p. p.id == row.problem_id) (counted report.verdict) w0.db.problems
  pub progresses :
      w.db.progress
      ≡ record_progress meanwhile.progress row.user_id row.problem_id
          (is_accepted report.verdict)
          later
          w0.db.progress
  pub records :
      w.db.submission_test_results
      ≡ w0.db.submission_test_results ++ map (test_result_row row.id) report.outcomes

module _ {S : Type 0} (sandbox : Sandbox S) (settings : JudgeSettings) (meanwhile : Meanwhile) where
  fails :
      (row : Submission) (now later : ℕ) (reason : Text) (w w' : World S)
      → first_of? (is_submission row.id) (claim row.id now w.db).1.submissions
        ≡ some (started now row)
      → w'.db ≡ (claim row.id now w.db).1
      → IsUnjudgeable settings sandbox row w.db w.sandbox
      → IsFailed sandbox settings row now later w
          (returned judge_failed)
          (fail row.id row.user_id reason later w')
  unfolding claim
  fails row now later reason w w' there same why =
      let d =
        fail-db row.id row.user_id reason later w'
        ∙ ap {A = Database} {B = Database}
            (λ db. record db {
              submissions =
                  update_where (is_submission row.id) (closed_as_failed later) db.submissions;
            })
            same in
      record {
        unjudgeable = why;
        returns = refl;
        closes =
            ap (λ db. first_of? (is_submission row.id) db.submissions) d
            ∙ first_of?-update_where (is_submission row.id) (closed_as_failed later)
                (claim row.id now w.db).1.submissions (λ x. refl)
            ∙ ap (Option.map (closed_as_failed later)) there;
        counts_nothing =
            (ap (λ db. db.problems) d, ap (λ db. db.progress) d, ap (λ db. db.streaks) d);
        earns_nothing = ap (λ db. db.user_achievements) d;
        records_nothing =
            (ap (λ db. db.submission_results) d, ap (λ db. db.submission_test_results) d);
      }

  succeeds :
      (row : Submission) (now later : ℕ) (report : JudgeReport) (earned : List Achievement)
      (problem : ProblemSpec) (limit : ℕ) (rows : List UserAchievement) (w w' : World S)
      → first_of? (is_submission row.id) (claim row.id now w.db).1.submissions
        ≡ some (started now row)
      → w'.db
        ≡ with_earned
            (written settings meanwhile row.id row.user_id problem limit report later
              (claim row.id now w.db).1)
            rows
      → IsVerdictOf settings sandbox row w.db w.sandbox problem report
      → IsJudged sandbox settings meanwhile row now later w (returned (judged_as report.verdict)) (
          publish_earned row.user_id earned
            (publish (Event.submission_completed row.user_id row.id report) w'))
  unfolding claim written
  succeeds row now later report earned problem limit rows w w' there same verdict =
      let told = publish (Event.submission_completed row.user_id row.id report) w' in
      let d =
        publish_earned-db row.user_id earned told
        ∙ publish-db (Event.submission_completed row.user_id row.id report) w'
        ∙ same in
      let (language, checker, prepared, ran) = verdict in
      let its_id = prepared.its_id in
      record {
        report = report;
        problem = problem;
        judged_by = verdict;
        returns = refl;
        closes =
            ap (λ db. first_of? (is_submission row.id) db.submissions) d
            ∙ first_of?-update_where (is_submission row.id) (judged report later)
                (claim row.id now w.db).1.submissions (λ x. refl)
            ∙ ap (Option.map (judged report later)) there;
        counts = rw (← its_id) (ap (λ db. db.problems) d);
        progresses = rw (← its_id) (ap (λ db. db.progress) d);
        records = ap (λ db. db.submission_test_results) d;
      }

  -- The first delivery of a queued submission, whose id no other row has, never raises and never
  -- leaves it running. Where its problem, language or checker is missing or judging raises, it is
  -- closed as SYSTEM_ERROR and nothing is counted. Otherwise it is completed with the report of
  -- judging its source on all the tests of its own problem, with the problem's checker and limits,
  -- and counted once for that problem and its owner.
  pub judge_submission_closes :
      (row : Submission) (now later : ℕ) (w : World S)
      → first_of? (is_submission row.id) w.db.submissions ≡ some row
      → count_where (is_submission row.id) w.db.submissions ≤ 1
      → row.status ≡ queued
      → let (outcome, w') = judge_submission sandbox settings meanwhile row.id now later w in
        IsFailed sandbox settings row now later w outcome w'
        ⊎ IsJudged sandbox settings meanwhile row now later w outcome w'
  unfolding judge_submission
  judge_submission_closes row now later w found unique free =
      let claimable_row : is_claimable row.id row ≡ true =
        rw free (ground (arith, ==_iff row.id row.id)) in
      let claimed =
        claim_succeeds sandbox settings row.id now w.db row found claimable_row unique in
      let there = first_of?-claim sandbox settings row.id now w.db row found claimable_row in
      let running = Event.submission_running row.user_id row.id in
      let claimed_world : World S = record w { db = (claim row.id now w.db).1 } in
      let announced = publish running claimed_world in
      let same = publish-db running claimed_world in
      let unannounced : (P : Database → S → Type 0)
          → P announced.db announced.sandbox
          → P (claim row.id now w.db).1 w.sandbox =
        λ P p.
          subst (λ s. P (claim row.id now w.db).1 s) (publish-sandbox running claimed_world)
            (subst (λ db. P db announced.sandbox) same p) in
      let after =
        (judge_and_persist sandbox settings meanwhile (started now row) later announced).1 in
      elim (judge_and_persist_cases sandbox settings meanwhile (started now row) (started now row)
        later announced (ap (λ db. first_of? (is_submission row.id) db.submissions) same ∙ there)) [
          | inl (e, raises, kept, why) ↦ inl (
              rw (claimed, judge_submission)
                (rw (there, judge_submission)
                  (rw (raises, judge_submission)
                    (fails row now later (codes "The judge could not complete this submission.") w
                      after there (kept ∙ same)
                      (claim-IsUnjudgeable settings sandbox row row.id now w.db w.sandbox
                        (unannounced (IsUnjudgeable settings sandbox (started now row)) why))))))
          | inr (report, earned, problem, limit, rows, returns, kept, verdict) ↦ inr (
              rw (claimed, judge_submission)
                (rw (there, judge_submission)
                  (rw (returns, judge_submission)
                    (succeeds row now later report earned problem limit rows w after there
                      (kept
                        ∙ ap
                            (λ db.
                              with_earned
                                (written settings meanwhile row.id row.user_id problem limit report
                                  later db)
                                rows)
                            same)
                      (claim-IsVerdictOf settings sandbox row row.id now w.db w.sandbox problem
                        report
                        (unannounced
                          (λ db s.
                            IsVerdictOf settings sandbox (started now row) db s problem report)
                          verdict))))))
        ]
