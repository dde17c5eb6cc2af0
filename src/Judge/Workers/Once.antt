-- ===== src/Judge/Workers/Once.antt =====
-- No submission is judged twice, whatever workers (apps/judge/sahujudge/pipeline.py), the API and the
-- reaper (apps/judge/sahujudge/reaper.py) do in between.
use sahucodex.Prelude.{ℕ, ◌+◌, ◌≤◌, sym, subst, ◌∷◌, Outcome}
use sahucodex.Prelude.Texts.{Text}
use sahucodex.Prelude.Tables.{drop_first}
use sahucodex.Api.Tables.{Database}
use sahucodex.Api.Submissions.{SubmitSettings, new_submission}
use sahucodex.Judge.Pipeline.{JudgeSettings, World, submission_running, is_submission, claim}
use sahucodex.Judge.Pipeline.Claiming.{claimable, publish-db, fail-db}
use sahucodex.Judge.Reaper.{is_among, with_closed}
use sahucodex.Judge.Reaper.Stale.{publish_failures-db}
use sahucodex.Judge.Workers.{
  Site, Reaches, nothing, submits, is_refused, takes, skips, finishes, gives_up, dies, reaps,
}
use sahucodex.Judge.Workers.Counts.{
  results_of, rows_of, IsOnceAt-closed, IsOnceAt-drop, IsOnceAt-submitted, IsOnceAt-taken,
  IsOnceAt-skipped, IsOnceAt-finished, IsOnceAt,
}

-- Under an id there is at most one row. A verdict that was written down, a worker that holds the
-- submission and a row that is still queued are at most one thing, and only where there is the row.
abbrev pub IsOnce : {S : Type 0} → Site S → Type 0
IsOnce site =
    (id : ℕ)
    → (results_of id site.world.db.submission_results
          + rows_of id site.working
          + claimable id site.world.db.submissions
        ≤ rows_of id site.world.db.submissions)
      × (rows_of id site.world.db.submissions ≤ 1)

module _ {S : Type 0} (enqueue : ℕ → World S → Outcome Text Unit × World S)
    (submit_settings : SubmitSettings) (settings : JudgeSettings) where
  -- Where under every id there is at most one row, and a verdict written down, a worker that holds
  -- the submission and a row still queued are at most one thing and only where there is the row, it
  -- stays so: in whatever order submissions come in, jobs are refused or delivered any number of
  -- times, workers finish, give up or die, and the reaper closes rows that it selected before.
  pub Reaches-IsOnce :
      {a b : Site S} → Reaches enqueue submit_settings settings a b → IsOnce a → IsOnce b
  Reaches-IsOnce nothing h other = h other
  Reaches-IsOnce (submits {b} id user_id problem_id language_key source contest_id total now r new)
        h other =
      IsOnceAt-submitted other
        (new_submission id user_id problem_id language_key source contest_id total now)
        b.world.db.submission_results b.working b.world.db.submissions new
        (Reaches-IsOnce r h other)
  Reaches-IsOnce (is_refused {b} id now r) h other =
      IsOnceAt-closed other now (is_submission id) b.world.db.submission_results b.working
        b.world.db.submissions (Reaches-IsOnce r h other)
  Reaches-IsOnce (takes {b} id now submission r claimed found) h other =
      let db = b.world.db in
      subst
        (λ (d : Database).
          IsOnceAt other d.submission_results (submission ∷ b.working) d.submissions)
        (sym (
          publish-db (submission_running submission.user_id id)
            (record b.world { db = (claim id now db).1 })))
        (IsOnceAt-taken other id now submission b.working db claimed found
          (Reaches-IsOnce r h other))
  Reaches-IsOnce (skips {b} id now r missed) h other =
      IsOnceAt-skipped other id now b.working b.world.db (Reaches-IsOnce r h other)
  Reaches-IsOnce
        (finishes {b} meanwhile id submission problem limit report now sandbox' earned db' r holds
          done)
        h other =
      IsOnceAt-finished settings meanwhile other id submission problem limit report now b.working
        b.world.db db' earned holds done (Reaches-IsOnce r h other)
  Reaches-IsOnce (gives_up {b} id submission reason now sandbox' r holds) h other =
      subst
        (λ (d : Database).
          IsOnceAt other d.submission_results (drop_first (is_submission id) b.working)
            d.submissions)
        (sym (
          fail-db submission.id submission.user_id reason now
            (record b.world { sandbox = sandbox' })))
        (IsOnceAt-closed other now (is_submission submission.id) b.world.db.submission_results
          (drop_first (is_submission id) b.working) b.world.db.submissions
          (IsOnceAt-drop other id b.world.db.submission_results b.working b.world.db.submissions
            (Reaches-IsOnce r h other)))
  Reaches-IsOnce (dies {b} id r) h other =
      IsOnceAt-drop other id b.world.db.submission_results b.working b.world.db.submissions
        (Reaches-IsOnce r h other)
  Reaches-IsOnce (reaps {b} stale now r) h other =
      subst (λ (d : Database). IsOnceAt other d.submission_results b.working d.submissions)
        (sym (publish_failures-db stale (with_closed stale now b.world.db.submissions b.world)))
        (IsOnceAt-closed other now (is_among stale) b.world.db.submission_results b.working
          b.world.db.submissions (Reaches-IsOnce r h other))
