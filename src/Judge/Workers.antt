-- ===== src/Judge/Workers.antt =====
-- The API, the workers of apps/judge/sahujudge/pipeline.py and the reaper of
-- apps/judge/sahujudge/reaper.py at work on one database, a transaction at a time and in any order.
pub mod Counts
pub mod Once
mod Tests
use sahucodex.Prelude.{
  ℕ, ◌≡◌, Bool, true, false, List, ◌∷◌, Option, some, first_of?, Outcome, returned,
}
use sahucodex.Prelude.Texts.{Text}
use sahucodex.Prelude.Tables.{count_where, drop_first}
use sahucodex.Api.Tables.{Submission, Achievement, Database}
use sahucodex.Api.Submissions.{SubmitSettings, new_submission, with_row, with_failed}
use sahucodex.Judge.Engine.{JudgeReport}
use sahucodex.Judge.Pipeline.{
  JudgeSettings, ProblemSpec, World, Event, submission_running, is_submission, claim,
}
use sahucodex.Judge.Pipeline.Closing.{Meanwhile, persist, publish, fail}
use sahucodex.Judge.Reaper.{publish_failures, with_closed}

-- `working` holds the rows that workers read after they claimed them, one for each worker that has
-- neither closed its submission nor died.
pub record Site (S : Type 0) : Type 0 where
  pub world : World S
  pub working : List Submission

module _ {S : Type 0} (enqueue : ℕ → World S → Outcome Text Unit × World S)
    (submit_settings : SubmitSettings) (settings : JudgeSettings) where
  -- `Reaches a b`: transactions lead from `a` to `b`.
  pub data Reaches (a : Site S) : Site S → Type 0 where
    nothing : Reaches a a
    -- create_and_enqueue inserts the row, under an id that is new.
    submits :
        {b : Site S} (id user_id problem_id : ℕ) (language_key source_code : Text)
        (contest_id : Option ℕ) (total now : ℕ)
        → Reaches a b
        → count_where (is_submission id) b.world.db.submissions ≡ 0
        → Reaches a (record b {
          world =
              with_row enqueue submit_settings
                (new_submission id user_id problem_id language_key source_code contest_id total now)
                b.world;
        })
    -- The queue refused the job, and create_and_enqueue closes the row.
    is_refused :
        {b : Site S} (id now : ℕ)
        → Reaches a b
        → Reaches a (record b { world = with_failed enqueue submit_settings id now b.world })
    -- A job is delivered, for the first time or again, and the claim succeeds.
    takes :
        {b : Site S} (id now : ℕ) (submission : Submission)
        → Reaches a b
        → (claim id now b.world.db).0 ≡ true
        → first_of? (is_submission id) (claim id now b.world.db).1.submissions ≡ some submission
        → Reaches a (record {
          world =
              publish
                (submission_running submission.user_id id)
                (record b.world { db = (claim id now b.world.db).1 });
          working = submission ∷ b.working;
        })
    -- The claim fails, and the job is skipped.
    skips :
        {b : Site S} (id now : ℕ)
        → Reaches a b
        → (claim id now b.world.db).0 ≡ false
        → Reaches a (record b { world = record b.world { db = (claim id now b.world.db).1 } })
    -- A worker writes its verdict down. The sandbox came to its report in some way.
    finishes :
        {b : Site S} (meanwhile : Meanwhile) (id : ℕ) (submission : Submission)
        (problem : ProblemSpec) (limit : ℕ) (report : JudgeReport) (now : ℕ) (sandbox' : S)
        (earned : List Achievement) (db' : Database)
        → Reaches a b
        → first_of? (is_submission id) b.working ≡ some submission
        → persist settings meanwhile submission.id problem limit report now b.world.db
          ≡ (returned earned, db')
        → Reaches a (record {
          world = record b.world { db = db'; sandbox = sandbox' };
          working = drop_first (is_submission id) b.working;
        })
    -- The judge failed, or `_persist` raised.
    gives_up :
        {b : Site S} (id : ℕ) (submission : Submission) (reason : Text) (now : ℕ) (sandbox' : S)
        → Reaches a b
        → first_of? (is_submission id) b.working ≡ some submission
        → Reaches a (record {
          world =
              fail submission.id submission.user_id reason now
                (record b.world { sandbox = sandbox' });
          working = drop_first (is_submission id) b.working;
        })
    -- A worker is killed.
    dies :
        {b : Site S} (id : ℕ)
        → Reaches a b
        → Reaches a (record b { working = drop_first (is_submission id) b.working })
    -- The UPDATE of the reaper, on the rows that it selected at any earlier time.
    reaps :
        {b : Site S} (stale : List Submission) (now : ℕ)
        → Reaches a b
        → Reaches a (record b {
          world = publish_failures stale (with_closed stale now b.world.db.submissions b.world);
        })
