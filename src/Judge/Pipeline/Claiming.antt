-- ===== src/Judge/Pipeline/Claiming.antt =====
-- `_claim` and the redelivery of a job (apps/judge/sahujudge/pipeline.py).
use sahucodex.Prelude.{ℕ, ◌≡◌, refl, ◌∙◌, inl, inr, List, [], ◌∷◌, arith, Bool-cases}
use sahucodex.Prelude.Texts.{Text}
use sahucodex.Prelude.Tables.{count_where, update_where, count_where_updated}
use sahucodex.Judge.Engine.{JudgeReport}
use sahucodex.Api.Tables.{Submission, Database, Achievement}
use sahucodex.Judge.Pipeline.{World, claim, started, judged, is_submission, is_claimable, Event}
use sahucodex.Judge.Pipeline.Closing.{
  publish, publish_earned, forget_cached, fail, closed_as_failed,
}

-- How many rows a worker could claim under the id.
abbrev pub claimable : ℕ → List Submission → ℕ
claimable submission_id rows = count_where (is_claimable submission_id) rows

pub claimable-claim :
    (submission_id now : ℕ) (db : Database)
    → claimable submission_id (claim submission_id now db).1.submissions ≡ 0
unfolding claim
claimable-claim submission_id now db =
    count_where_updated (is_claimable submission_id) (started now) db.submissions
      (λ row. ground arith)

-- Closing a submission makes no row claimable.
pub claimable-judged :
    (submission_id other later : ℕ) (report : JudgeReport) (rows : List Submission)
    → claimable submission_id rows ≡ 0
    → claimable submission_id (update_where (is_submission other) (judged report later) rows) ≡ 0
claimable-judged submission_id other later report [] h = refl
claimable-judged submission_id other later report (row ∷ rows) h =
    ground (arith, claimable-judged submission_id other later report rows)

pub claimable-closed_as_failed :
    (submission_id later : ℕ) (rows : List Submission)
    → claimable submission_id rows ≡ 0
    → claimable submission_id
        (update_where (is_submission submission_id) (closed_as_failed later) rows)
      ≡ 0
claimable-closed_as_failed submission_id later [] h = refl
claimable-closed_as_failed submission_id later (row ∷ rows) h =
    ground (arith, claimable-closed_as_failed submission_id later rows)

module _ {S : Type 0} where
  pub publish-db : (event : Event) (w : World S) → (publish event w).db ≡ w.db
  unfolding publish
  publish-db event w = elim (Bool-cases w.redis_up) [
    | inl up ↦ rw up refl
    | inr down ↦ rw down refl
  ]

  pub publish-sandbox : (event : Event) (w : World S) → (publish event w).sandbox ≡ w.sandbox
  unfolding publish
  publish-sandbox event w = elim (Bool-cases w.redis_up) [
    | inl up ↦ rw up refl
    | inr down ↦ rw down refl
  ]

  pub forget_cached-db : (slug : Text) (w : World S) → (forget_cached slug w).db ≡ w.db
  unfolding forget_cached
  forget_cached-db slug w = elim (Bool-cases w.redis_up) [
    | inl up ↦ rw up refl
    | inr down ↦ rw down refl
  ]

  pub publish_earned-db :
      (user_id : ℕ) (earned : List Achievement) (w : World S)
      → (publish_earned user_id earned w).db ≡ w.db
  unfolding publish_earned
  publish_earned-db user_id [] w = refl
  publish_earned-db user_id (a ∷ rest) w =
      publish_earned-db user_id rest (publish (Event.achievement_earned user_id a) w)
      ∙ publish-db (Event.achievement_earned user_id a) w

  pub fail-db :
      (submission_id user_id : ℕ) (reason : Text) (now : ℕ) (w : World S)
      → (fail submission_id user_id reason now w).db ≡ record w.db {
        submissions =
            update_where (is_submission submission_id) (closed_as_failed now) w.db.submissions;
      }
  unfolding fail
  fail-db submission_id user_id reason now w =
      publish-db (Event.submission_failed user_id submission_id reason) (record w {
        db = record w.db {
          submissions =
              update_where (is_submission submission_id) (closed_as_failed now) w.db.submissions;
        };
      })
