-- ===== src/Api/Submissions/Accepting.antt =====
-- What `create_and_enqueue` (apps/api/app/modules/submissions/service.py) leaves behind.
use sahucodex.Prelude.{
  ℕ, ◌<◌, ◌≡◌, ◌⊎◌, refl, inl, inr, Bool, ◌&&◌, List, [], ◌∷◌, Option, ◌==◌, arith, Bool-cases,
  Outcome-cases, Outcome, returned, raised,
}
use sahucodex.Prelude.Texts.{Text}
use sahucodex.Prelude.Tables.{count_where, update_where}
use sahucodex.Judge.Pipeline.{World, Event, is_submission}
use sahucodex.Judge.Pipeline.Closing.{closed_as_failed}
use sahucodex.Judge.Pipeline.Claiming.{publish-db}
use sahucodex.Api.Tables.{Submission, is_open}
use sahucodex.Api.Submissions.{
  SubmitSettings, too_many_pending, problem_not_judgeable, judge_unavailable, ProblemRef,
  has_too_many_pending, is_in_flight, count_tests, new_submission, with_row, create_and_enqueue,
}

abbrev pub is_open_with : ℕ → Submission → Bool
is_open_with id row = row.id == id && is_open row.status

-- Closing the rows of an id leaves none of them open.
none_open :
    (id now : ℕ) (rows : List Submission)
    → count_where (is_open_with id) (update_where (is_submission id) (closed_as_failed now) rows)
      ≡ 0
none_open id now [] = refl
none_open id now (row ∷ rows) = ground (arith, none_open id now rows)

module _ {S : Type 0} (enqueue : ℕ → World S → Outcome Text Unit × World S)
    (settings : SubmitSettings) (id user_id : ℕ) (problem : ProblemRef) (language source : Text)
    (contest : Option ℕ) (now : ℕ) (w : World S) where
  -- The row that is made durable before the job is sent.
  abbrev pub row_made : Submission
  row_made =
      new_submission id user_id problem.id language source contest (count_tests w.db problem.id) now

  -- What the queue does when the row is there.
  abbrev pub sent : Outcome Text Unit × World S
  sent = enqueue id (with_row enqueue settings row_made w)

  -- For any queue, one that judges before it returns included, there are three ways to end: the
  -- submission is refused and nothing is written or sent; the queue fails, the caller is told, and no
  -- row of that id is left open; or the row, written before the job was sent, is returned, its owner
  -- had room for one more submission in flight, and the database is as the queue left it.
  pub create_and_enqueue_cases :
      let (outcome, w') =
        create_and_enqueue enqueue settings id user_id problem language source contest now w in
      (((outcome ≡ raised too_many_pending) ⊎ (outcome ≡ raised problem_not_judgeable)) × (w' ≡ w))
      ⊎ ((outcome ≡ raised judge_unavailable)
          × (count_where (is_open_with id) w'.db.submissions ≡ 0))
      ⊎ ((outcome ≡ returned row_made)
          × (count_where (is_in_flight settings user_id now) w.db.submissions
              < settings.max_inflight_submissions)
          × (w'.db ≡ sent.1.db))
  unfolding create_and_enqueue has_too_many_pending
  create_and_enqueue_cases = elim (Bool-cases (has_too_many_pending w.db settings user_id now)) [
    | inl many ↦ inl (rw (many, create_and_enqueue) (inl refl, refl))
    | inr few ↦ elim (Bool-cases (count_tests w.db problem.id == 0)) [
      | inl untested ↦
          inl (rw (few, create_and_enqueue) (rw (untested, create_and_enqueue) (inr refl, refl)))
      | inr tested ↦ inr (elim (Outcome-cases sent.0) [
        | inl (e, down) ↦ inl (
            rw (few, create_and_enqueue)
              (rw (tested, create_and_enqueue)
                (rw (down, create_and_enqueue) (refl, none_open id now sent.1.db.submissions))))
        | inr (u, up) ↦ inr (
            rw (few, create_and_enqueue)
              (rw (tested, create_and_enqueue)
                (rw (up, create_and_enqueue)
                  (
                    refl,
                    ground (arith, few),
                    publish-db (Event.submission_queued user_id id problem.slug) sent.1,
                  ))))
      ])
    ]
  ]
