-- ===== src/Judge/Pipeline/Outcomes.antt =====
-- What `judge_submission` (apps/judge/sahujudge/pipeline.py) leaves in the database.

use sahucodex.Prelude.{
  ℕ, ◌≤◌, ◌≡◌, refl, ap, ◌∙◌, ◌⊎◌, inl, inr, true, List, ◌++◌, map, some, arith, Outcome-cases,
  first_of?, returned, raised,
}
use sahucodex.Prelude.Tables.{
  count_where, first_of?-update_where_if, count_where-le, first_of?-count_where,
}
use sahucodex.Judge.Failures.{Failure}
use sahucodex.Judge.Sandbox.{Sandbox}
use sahucodex.Judge.Engine.{JudgeReport}
use sahucodex.Api.Tables.{Submission, Database, Achievement, UserAchievement}
use sahucodex.Judge.Pipeline.{
  JudgeSettings, World, claim, started, is_submission, is_claimable, ProblemSpec,
}
use sahucodex.Judge.Pipeline.Trial.{IsUnjudgeable, IsVerdictOf, judge_claimed-cases}
use sahucodex.Judge.Pipeline.Closing.{
  Meanwhile, judge_and_persist, judge_claimed, prepare, persist, written, details_of,
}
use sahucodex.Judge.Pipeline.Claiming.{forget_cached-db}
use sahucodex.Api.Profiles.{checks}
use sahucodex.Api.Profiles.Earned.{due, earned_row, evaluate_achievements_lem}

abbrev pub with_earned : Database → List UserAchievement → Database
with_earned db rows = record db { user_achievements = rows }

pub persist_found :
    (settings : JudgeSettings) (meanwhile : Meanwhile) (submission_id : ℕ) (problem : ProblemSpec)
    (limit : ℕ) (report : JudgeReport) (now : ℕ) (db : Database) (row : Submission)
    → first_of? (is_submission submission_id) db.submissions ≡ some row
    → (earned : List Achievement) × (rows : List UserAchievement) × (persist settings meanwhile
          submission_id problem limit report now db
        ≡ (
          returned earned,
          with_earned
              (written settings meanwhile submission_id row.user_id problem limit report now db)
              rows,
        ))
unfolding persist written
persist_found settings meanwhile submission_id problem limit report now db row found =
    let db' = written settings meanwhile submission_id row.user_id problem limit report now db in
    let e = evaluate_achievements_lem row.user_id now db' in
    let keys = due db'.user_achievements row.user_id checks db' in
    (
      details_of keys db'.achievements,
      db'.user_achievements ++ map (earned_row row.user_id now) keys,
      rw (found, persist) (rw e refl),
    )

module _ {S : Type 0} (sandbox : Sandbox S) (settings : JudgeSettings) where
  judge_claimed-db :
      (submission : Submission) (w : World S)
      → (judge_claimed sandbox settings submission w).1.db ≡ w.db
  unfolding judge_claimed
  judge_claimed-db submission w = elim (Outcome-cases (prepare settings w.db submission)) [
    | inl (e, h) ↦ rw (h, judge_claimed) refl
    | inr (x, h) ↦ rw (h, judge_claimed) refl
  ]

  -- What the body of the `try` does to the database.
  abbrev pub IsTried : Meanwhile → Submission → Submission → ℕ → World S → Type 0
  IsTried meanwhile submission row now w =
      let (outcome, w') = judge_and_persist sandbox settings meanwhile submission now w in
      ((e : Failure) × (outcome ≡ raised e)
        × (w'.db ≡ w.db)
        × IsUnjudgeable settings sandbox submission w.db w.sandbox)
      ⊎ ((report : JudgeReport) × (earned : List Achievement) × (problem : ProblemSpec)
          × (limit : ℕ) × (rows : List UserAchievement) × (outcome ≡ returned (report, earned))
          × (w'.db
              ≡ with_earned
                  (written settings meanwhile submission.id row.user_id problem limit report now
                    w.db)
                  rows)
          × IsVerdictOf settings sandbox submission w.db w.sandbox problem report)

  pub judge_and_persist_cases :
      (meanwhile : Meanwhile) (submission row : Submission) (now : ℕ) (w : World S)
      → first_of? (is_submission submission.id) w.db.submissions ≡ some row
      → IsTried meanwhile submission row now w
  unfolding judge_and_persist
  judge_and_persist_cases meanwhile submission row now w found =
      let w' = (judge_claimed sandbox settings submission w).1 in
      let same = judge_claimed-db submission w in
      elim (judge_claimed-cases settings sandbox submission w) [
        | inl (e, h, why) ↦
            inl (e, rw (h, judge_and_persist) refl, rw (h, judge_and_persist) same, why)
        | inr (problem, limit, report, h, judged) ↦
            let (earned, rows, p) =
              persist_found settings meanwhile submission.id problem limit report now w'.db row
                (ap (λ d. first_of? (is_submission submission.id) d.submissions) same ∙ found) in
            inr (
              report,
              earned,
              problem,
              limit,
              rows,
              rw (h, judge_and_persist) (rw (p, judge_and_persist) refl),
              rw (h, judge_and_persist)
                  (rw (p, judge_and_persist)
                    (forget_cached-db problem.slug (record w' {
                      db =
                          (persist settings meanwhile submission.id problem limit report now
                            w'.db).1;
                    })
                      ∙ ap (λ x. x.1) p
                      ∙ ap
                          (λ d.
                            with_earned
                              (written settings meanwhile submission.id row.user_id problem limit
                                report now d)
                              rows)
                          same)),
              judged,
            )
      ]

  -- The database of the claim, with the row that it starts.
  pub first_of?-claim :
      (submission_id now : ℕ) (db : Database) (row : Submission)
      → first_of? (is_submission submission_id) db.submissions ≡ some row
      → is_claimable submission_id row ≡ true
      → first_of? (is_submission submission_id) (claim submission_id now db).1.submissions
        ≡ some (started now row)
  unfolding claim
  first_of?-claim submission_id now db row found free =
      first_of?-update_where_if (is_submission submission_id) (is_claimable submission_id)
        (started now) db.submissions (λ x. refl)
      ∙ rw found (rw free refl)

  -- A queued submission that no other row shares its id with is claimed.
  pub claim_succeeds :
      (submission_id now : ℕ) (db : Database) (row : Submission)
      → first_of? (is_submission submission_id) db.submissions ≡ some row
      → is_claimable submission_id row ≡ true
      → count_where (is_submission submission_id) db.submissions ≤ 1
      → (claim submission_id now db).0 ≡ true
  unfolding claim
  claim_succeeds submission_id now db row found free unique = ground (
    arith,
    count_where-le (is_claimable submission_id) (is_submission submission_id) db.submissions
        (λ x h. ground (arith, h)),
    first_of?-count_where (is_submission submission_id) (is_claimable submission_id) db.submissions
        row found free,
  )
