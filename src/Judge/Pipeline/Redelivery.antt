-- ===== src/Judge/Pipeline/Redelivery.antt =====
-- A job that is delivered twice (`judge_submission` of apps/judge/sahujudge/pipeline.py).
use sahucodex.Prelude.{
  ℕ, ◌≡◌, ap, subst, ◌∙◌, inl, inr, some, ==_iff, arith, Bool-cases, Option-cases, first_of?,
  returned,
}
use sahucodex.Prelude.Texts.{codes}
use sahucodex.Prelude.Tables.{update_where_none, first_of?-some}
use sahucodex.Judge.Sandbox.{Sandbox}
use sahucodex.Judge.Pipeline.{
  JudgeSettings, World, claim, started, is_submission, is_claimable, Event,
}
use sahucodex.Judge.Pipeline.Closing.{
  Meanwhile, judge_submission, judge_and_persist, written, publish, skipped,
}
use sahucodex.Judge.Pipeline.Claiming.{
  claimable, claimable-claim, claimable-judged, claimable-closed_as_failed, publish-db,
  publish_earned-db, fail-db,
}
use sahucodex.Judge.Pipeline.Outcomes.{judge_and_persist_cases}

module _ {S : Type 0} (sandbox : Sandbox S) (settings : JudgeSettings) where
  claimable-delivered :
      (meanwhile : Meanwhile) (submission_id now later : ℕ) (w : World S)
      → claimable submission_id
          (judge_submission sandbox settings meanwhile submission_id now later w).1.db.submissions
        ≡ 0
  unfolding judge_submission written
  claimable-delivered meanwhile submission_id now later w =
      let db' = (claim submission_id now w.db).1 in
      let none_left = claimable-claim submission_id now w.db in
      let claimed_world : World S = record w { db = db' } in
      elim (Bool-cases (claim submission_id now w.db).0) [
        | inr refused ↦ rw (refused, judge_submission) none_left
        | inl claimed ↦
            elim (Option-cases (first_of? (is_submission submission_id) db'.submissions)) [
              | inl missing ↦
                  rw (claimed, judge_submission) (rw (missing, judge_submission) none_left)
              | inr (submission, found) ↦
                  let running = Event.submission_running submission.user_id submission_id in
                  let announced = publish running claimed_world in
                  let same = publish-db running claimed_world in
                  let after =
                    (judge_and_persist sandbox settings meanwhile submission later announced).1 in
                  let named : submission_id ≡ submission.id = ground (
                    arith,
                    (first_of?-some (is_submission submission_id) db'.submissions submission
                        found).0,
                    ==_iff submission.id submission_id,
                  ) in
                  let there =
                    ap (λ db. first_of? (is_submission submission.id) db.submissions) same
                    ∙ subst (λ i. first_of? (is_submission i) db'.submissions ≡ some submission)
                        named found in
                  elim (judge_and_persist_cases sandbox settings meanwhile submission submission
                    later announced there) [
                      | inl (e, raises, kept, why) ↦
                          rw (claimed, judge_submission)
                            (rw (found, judge_submission)
                              (rw (raises, judge_submission)
                                (ap (λ db. claimable submission_id db.submissions)
                                    (fail-db submission_id submission.user_id
                                      (codes "The judge could not complete this submission.") later
                                      after)
                                  ∙ claimable-closed_as_failed submission_id later
                                      after.db.submissions
                                      (ap (λ db. claimable submission_id db.submissions)
                                          (kept ∙ same)
                                        ∙ none_left))))
                      | inr (report, earned, problem, limit, rows, returns, kept, verdict) ↦
                          rw (claimed, judge_submission)
                            (rw (found, judge_submission)
                              (rw (returns, judge_submission)
                                (ap (λ db. claimable submission_id db.submissions)
                                    (publish_earned-db submission.user_id earned (
                                        publish
                                          (Event.submission_completed submission.user_id
                                            submission_id report)
                                          after)
                                      ∙ publish-db
                                          (Event.submission_completed submission.user_id
                                            submission_id report)
                                          after
                                      ∙ kept)
                                  ∙ claimable-judged submission_id submission.id later report
                                      announced.db.submissions
                                      (ap (λ db. claimable submission_id db.submissions) same
                                        ∙ none_left))))
                    ]
            ]
      ]

  judge_submission_skips :
      (meanwhile : Meanwhile) (submission_id now later : ℕ) (w : World S)
      → claimable submission_id w.db.submissions ≡ 0
      → judge_submission sandbox settings meanwhile submission_id now later w
        ≡ (returned skipped, w)
  unfolding judge_submission claim
  judge_submission_skips meanwhile submission_id now later w h =
      rw (h, judge_submission)
        (ap (λ rows. (returned skipped, record w { db = record w.db { submissions = rows } }))
          (update_where_none (is_claimable submission_id) (started now) w.db.submissions h))

  -- However the first delivery of a job ends, every later delivery is skipped and changes nothing.
  pub judge_submission_redelivered :
      (meanwhile meanwhile' : Meanwhile) (submission_id now later now' later' : ℕ) (w : World S)
      → let w' = (judge_submission sandbox settings meanwhile submission_id now later w).1 in
        judge_submission sandbox settings meanwhile' submission_id now' later' w'
        ≡ (returned skipped, w')
  judge_submission_redelivered meanwhile meanwhile' submission_id now later now' later' w =
      judge_submission_skips meanwhile' submission_id now' later'
        (judge_submission sandbox settings meanwhile submission_id now later w).1
        (claimable-delivered meanwhile submission_id now later w)
