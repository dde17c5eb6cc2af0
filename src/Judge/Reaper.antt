-- ===== src/Judge/Reaper.antt =====
-- `fail_stale_submissions` of apps/judge/sahujudge/reaper.py.
pub mod Stale
mod Tests
use mathlib.Core.Option
use sahucodex.Prelude.{
  ℕ, ◌+◌, ◌≡◌, refl, ap, ◌∙◌, inl, inr, Bool, true, false, ◌&&◌, List, [], ◌∷◌, Option, none, some,
  ltb, ◌==◌, ==_iff, arith, Bool-cases, keep_if, any_of, first_of?, length, if◌then◌else◌,
}
use sahucodex.Prelude.Texts.{codes}
use sahucodex.Prelude.Tables.{count_where, update_where, first_of?-update_where_if}
use sahucodex.Api.Tables.{Submission, Database, is_open}
use sahucodex.Judge.Pipeline.{JudgeSettings, World, Event, submission_failed, is_submission}
use sahucodex.Judge.Pipeline.Closing.{closed_as_failed, publish}

-- `created_at < now - stale_after`, on an open submission.
abbrev pub is_stale : JudgeSettings → ℕ → Submission → Bool
is_stale settings now row = is_open row.status && ltb (row.created_at + settings.stale_after) now

abbrev pub is_among : List Submission → Submission → Bool
is_among stale row = any_of (λ other. other.id == row.id) stale && is_open row.status

module _ {S : Type 0} where
  unfoldable pub publish_failures : List Submission → World S → World S
  unfolding publish
  publish_failures [] w = w
  publish_failures (row ∷ rows) w = publish_failures rows (
      publish
        (submission_failed row.user_id row.id
          (codes "The judge did not finish this submission in time."))
        w)

  -- The UPDATE, on the rows of the table by then.
  abbrev pub with_closed : List Submission → ℕ → List Submission → World S → World S
  with_closed stale now rows w = record w {
    db = record w.db { submissions = update_where (is_among stale) (closed_as_failed now) rows };
  }

  -- `meanwhile` is what other sessions commit between the SELECT and the UPDATE.
  unfoldable pub fail_stale_submissions :
      JudgeSettings → (List Submission → List Submission) → ℕ → World S → ℕ × World S
  unfolding publish_failures
  fail_stale_submissions settings meanwhile now w =
      let stale = keep_if (is_stale settings now) w.db.submissions in
      elim stale [
        | [] ↦ (0, w)
        | row ∷ rows ↦ (
          length (row ∷ rows),
          publish_failures (row ∷ rows)
              (with_closed (row ∷ rows) now (meanwhile w.db.submissions) w),
        )
      ]
