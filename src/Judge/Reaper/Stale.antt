-- ===== src/Judge/Reaper/Stale.antt =====
-- What `fail_stale_submissions` (apps/judge/sahujudge/reaper.py) closes, and what it leaves alone.

use sahucodex.Prelude.{
  ℕ, ◌≡◌, refl, ap, ◌∙◌, inl, inr, true, false, List, [], ◌∷◌, some, ◌==◌, ==_iff, arith,
  Bool-cases, keep_if, any_of, any_of_self, first_of?, length, All, List-cases,
}
use sahucodex.Prelude.Tables.{count_where, update_where, first_of?-update_where_if}
use sahucodex.Api.Tables.{Submission, is_open}
use sahucodex.Judge.Pipeline.{JudgeSettings, World, is_submission}
use sahucodex.Judge.Pipeline.Closing.{closed_as_failed}
use sahucodex.Judge.Pipeline.Claiming.{publish-db}
use sahucodex.Judge.Reaper.{
  is_stale, is_among, with_closed, publish_failures, fail_stale_submissions,
}

length-keep_if_stale :
    (settings : JudgeSettings) (now : ℕ) (rows : List Submission)
    → length (keep_if (is_stale settings now) rows) ≡ count_where (is_stale settings now) rows
length-keep_if_stale settings now [] = refl
length-keep_if_stale settings now (row ∷ rows) =
    ground (arith, length-keep_if_stale settings now rows)

-- Closing the rows among `stale` leaves none that is stale, when they are all of the stale ones.
count_where-closed :
    (settings : JudgeSettings) (now : ℕ) (stale rows : List Submission)
    → All
        (λ row. any_of (λ other. other.id == row.id) stale ≡ true)
        (keep_if (is_stale settings now) rows)
    → count_where
        (is_stale settings now)
        (update_where (is_among stale) (closed_as_failed now) rows)
      ≡ 0
count_where-closed settings now stale [] h = refl
count_where-closed settings now stale (row ∷ rows) h =
    elim (Bool-cases (is_stale settings now row)) [
      | inl old ↦
          let covered : All (λ row. any_of (λ other. other.id == row.id) stale ≡ true)
              (row ∷ keep_if (is_stale settings now) rows) =
            rw old at h in
          ground (arith, covered.0, count_where-closed settings now stale rows covered.1)
      | inr fresh ↦
          let covered : All (λ row. any_of (λ other. other.id == row.id) stale ≡ true)
              (keep_if (is_stale settings now) rows) =
            rw fresh at h in
          ground (arith, count_where-closed settings now stale rows covered)
    ]

module _ {S : Type 0} where
  pub publish_failures-db :
      (rows : List Submission) (w : World S) → (publish_failures rows w).db ≡ w.db
  unfolding publish_failures
  publish_failures-db [] w = refl
  publish_failures-db (row ∷ rows) w = publish_failures-db rows _ ∙ publish-db _ w

  -- When no other session interferes, the number returned is that of the open submissions that are
  -- too old, and none is left.
  pub fail_stale_submissions_leaves_none :
      (settings : JudgeSettings) (now : ℕ) (w : World S)
      → let (count, w') = fail_stale_submissions settings (λ rows. rows) now w in
        (count ≡ count_where (is_stale settings now) w.db.submissions)
        × (count_where (is_stale settings now) w'.db.submissions ≡ 0)
  unfolding fail_stale_submissions
  fail_stale_submissions_leaves_none settings now w =
      let rows = w.db.submissions in
      let counted = length-keep_if_stale settings now rows in
      elim (List-cases (keep_if (is_stale settings now) rows)) [
        | inl all_fresh ↦
            rw (all_fresh, fail_stale_submissions)
              (ground (arith, counted, all_fresh), ground (arith, counted, all_fresh))
        | inr (old, rest, some_old) ↦
            let covered : All (λ row. any_of (λ other. other.id == row.id) (old ∷ rest) ≡ true)
                (keep_if (is_stale settings now) rows) =
              rw some_old (
                any_of_self (λ a b. a.id == b.id) (λ a. ground (arith, ==_iff a.id a.id))
                  (old ∷ rest)) in
            rw (some_old, fail_stale_submissions)
              (
                ground (arith, counted, some_old),
                ap (λ db. count_where (is_stale settings now) db.submissions)
                      (publish_failures-db (old ∷ rest) (with_closed (old ∷ rest) now rows w))
                    ∙ count_where-closed settings now (old ∷ rest) rows covered,
              )
      ]

  -- Whatever other sessions commit between the SELECT and the UPDATE, a submission that is closed
  -- by then is left as it is.
  pub fail_stale_submissions_keeps_closed :
      (settings : JudgeSettings) (meanwhile : List Submission → List Submission) (now : ℕ)
      (submission_id : ℕ) (row old : Submission) (rest : List Submission) (w : World S)
      → keep_if (is_stale settings now) w.db.submissions ≡ old ∷ rest
      → first_of? (is_submission submission_id) (meanwhile w.db.submissions) ≡ some row
      → is_open row.status ≡ false
      → first_of?
          (is_submission submission_id)
          (fail_stale_submissions settings meanwhile now w).1.db.submissions
        ≡ some row
  unfolding fail_stale_submissions
  fail_stale_submissions_keeps_closed settings meanwhile now submission_id row old rest w some_old
        found closed =
      let shut : is_among (old ∷ rest) row ≡ false = ground (arith, closed) in
      rw (some_old, fail_stale_submissions)
        (ap (λ db. first_of? (is_submission submission_id) db.submissions)
            (publish_failures-db (old ∷ rest)
              (with_closed (old ∷ rest) now (meanwhile w.db.submissions) w))
          ∙ first_of?-update_where_if (is_submission submission_id) (is_among (old ∷ rest))
              (closed_as_failed now) (meanwhile w.db.submissions) (λ x. refl)
          ∙ rw found (rw shut refl))
