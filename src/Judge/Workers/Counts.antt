-- ===== src/Judge/Workers/Counts.antt =====
-- What one transaction does to the rows, the workers and the verdicts of one submission
-- (apps/judge/sahujudge/pipeline.py, apps/judge/sahujudge/reaper.py).
use sahucodex.Prelude.{
  ℕ, suc, ◌+◌, ◌≤◌, ◌≡◌, refl, sym, ap, subst, ◌∙◌, inl, inr, Bool, true, false, List, [], ◌∷◌,
  ◌++◌, some, ◌==◌, ==_iff, arith, Bool-cases, Option-cases, first_of?, returned, raised,
}
use sahucodex.Prelude.Texts.{codes}
use sahucodex.Prelude.Tables.{
  count_where, update_where, drop_first, count_where-drop_first, count_where-drop_first_le,
  count_where-append, count_where-update_where, count_where-update_le, first_of?-some,
}
use sahucodex.Api.Tables.{Submission, SubmissionResult, Achievement, Database}
use sahucodex.Judge.Failures.{backend_error}
use sahucodex.Judge.Engine.{JudgeReport}
use sahucodex.Judge.Pipeline.{
  JudgeSettings, ProblemSpec, is_submission, is_claimable, claim, started, judged, result_row,
}
use sahucodex.Judge.Pipeline.Claiming.{claimable, claimable-claim}
use sahucodex.Judge.Pipeline.Closing.{Meanwhile, persist, written, closed_as_failed}
use sahucodex.Judge.Pipeline.Outcomes.{persist_found, with_earned}

-- How often a verdict was written down under the id.
abbrev pub results_of : ℕ → List SubmissionResult → ℕ
results_of id results = count_where (λ r. r.submission_id == id) results

abbrev pub rows_of : ℕ → List Submission → ℕ
rows_of id rows = count_where (is_submission id) rows

-- An UPDATE that leaves ids alone and queues nothing.
rows_of-update :
    (id : ℕ) (p : Submission → Bool) (f : Submission → Submission) (rows : List Submission)
    → ((row : Submission) → (f row).id ≡ row.id)
    → rows_of id (update_where p f rows) ≡ rows_of id rows
rows_of-update id p f rows same =
    count_where-update_where (is_submission id) p f rows
      (λ row e. ap (λ other. other == id) (same row))

-- What a transaction of `_persist` that succeeds does to the tables of submissions and results.
persist_returned :
    (settings : JudgeSettings) (meanwhile : Meanwhile) (id : ℕ) (problem : ProblemSpec) (limit : ℕ)
    (report : JudgeReport) (now : ℕ) (db db' : Database) (earned : List Achievement)
    → persist settings meanwhile id problem limit report now db ≡ (returned earned, db')
    → (results_of id db'.submission_results ≡ suc (results_of id db.submission_results))
      × ((other : ℕ)
          → (id == other) ≡ false
          → results_of other db'.submission_results ≡ results_of other db.submission_results)
      × (db'.submissions ≡ update_where (is_submission id) (judged report now) db.submissions)
unfolding persist written
persist_returned settings meanwhile id problem limit report now db db' earned h =
    elim (Option-cases (first_of? (is_submission id) db.submissions)) [
      | inl absent ↦
          let none_such : persist settings meanwhile id problem limit report now db
              ≡ (raised (backend_error (codes "AssertionError")), db) =
            rw (absent, persist) refl in
          absurd (ground (arith, none_such, h))
      | inr (row, found) ↦
          let (details, rows, p) =
            persist_found settings meanwhile id problem limit report now db row found in
          let after =
            with_earned (written settings meanwhile id row.user_id problem limit report now db)
              rows in
          let same : db' ≡ after = sym (ap (λ x. x.1) h) ∙ ap (λ x. x.1) p in
          let result = result_row settings id problem limit report in
          let results = ap (λ d. d.submission_results) same in
          (
            ap (results_of id) results
                ∙ count_where-append (λ r. r.submission_id == id) db.submission_results
                    (result ∷ [])
                ∙ ground (arith, ==_iff id id),
            λ other differs.
                ap (results_of other) results
                ∙ count_where-append (λ r. r.submission_id == other) db.submission_results
                    (result ∷ [])
                ∙ ground (arith, differs),
            ap (λ d. d.submissions) same,
          )
    ]

-- What `IsOnce` says of one id, of the tables.
abbrev pub IsOnceAt : ℕ → List SubmissionResult → List Submission → List Submission → Type 0
IsOnceAt id results working rows =
    (results_of id results + rows_of id working + claimable id rows ≤ rows_of id rows)
    × (rows_of id rows ≤ 1)

-- An UPDATE of submissions that leaves ids alone and queues nothing.
IsOnceAt-update :
    (id : ℕ) (p : Submission → Bool) (f : Submission → Submission) (results : List SubmissionResult)
    (working rows : List Submission)
    → ((row : Submission) → (f row).id ≡ row.id)
    → ((row : Submission) → is_claimable id (f row) ≡ true → is_claimable id row ≡ true)
    → IsOnceAt id results working rows
    → IsOnceAt id results working (update_where p f rows)
IsOnceAt-update id p f results working rows same fewer h =
    omega (
      arith,
      rows_of-update id p f rows same,
      count_where-update_le (is_claimable id) p f rows fewer,
    )

closed_not_claimable :
    (id now : ℕ) (row : Submission)
    → is_claimable id (closed_as_failed now row) ≡ true
    → is_claimable id row ≡ true
closed_not_claimable id now row h = absurd (ground (arith, h))

pub IsOnceAt-closed :
    (id now : ℕ) (p : Submission → Bool) (results : List SubmissionResult)
    (working rows : List Submission)
    → IsOnceAt id results working rows
    → IsOnceAt id results working (update_where p (closed_as_failed now) rows)
IsOnceAt-closed id now p results working rows =
    IsOnceAt-update id p (closed_as_failed now) results working rows (λ row. refl)
      (closed_not_claimable id now)

pub IsOnceAt-drop :
    (id other : ℕ) (results : List SubmissionResult) (working rows : List Submission)
    → IsOnceAt id results working rows
    → IsOnceAt id results (drop_first (is_submission other) working) rows
IsOnceAt-drop id other results working rows h =
    omega (arith, count_where-drop_first_le (is_submission other) (is_submission id) working)

pub IsOnceAt-submitted :
    (other : ℕ) (row : Submission) (results : List SubmissionResult)
    (working rows : List Submission)
    → rows_of row.id rows ≡ 0
    → IsOnceAt other results working rows
    → IsOnceAt other results working (rows ++ row ∷ [])
IsOnceAt-submitted other row results working rows new h =
    let all = count_where-append (is_submission other) rows (row ∷ []) in
    let free = count_where-append (is_claimable other) rows (row ∷ []) in
    elim (Bool-cases (row.id == other)) [
      | inl same ↦
          let none_yet : rows_of other rows ≡ 0 =
            subst (λ id. rows_of id rows ≡ 0) ((==_iff row.id other).0 same) new in
          ground (arith, all, free, none_yet, h)
      | inr differs ↦ ground (arith, all, free, h)
    ]

-- A claim that succeeds turns the row that is queued into one that a worker holds.
pub IsOnceAt-taken :
    (other id now : ℕ) (submission : Submission) (working : List Submission) (db : Database)
    → (claim id now db).0 ≡ true
    → first_of? (is_submission id) (claim id now db).1.submissions ≡ some submission
    → IsOnceAt other db.submission_results working db.submissions
    → let db' = (claim id now db).1 in
      IsOnceAt other db'.submission_results (submission ∷ working) db'.submissions
unfolding claim
IsOnceAt-taken other id now submission working db claimed found h =
    let one = first_of?-some (is_submission id) (claim id now db).1.submissions submission found in
    let same = rows_of-update other (is_claimable id) (started now) db.submissions (λ row. refl) in
    let fewer =
      count_where-update_le (is_claimable other) (is_claimable id) (started now) db.submissions
        (λ row e. absurd (ground (arith, e))) in
    elim (Bool-cases (id == other)) [
      | inl this ↦
          let e = (==_iff id other).0 this in
          let free : claimable other db.submissions ≡ 1 =
            subst (λ x. claimable x db.submissions ≡ 1) e ((==_iff _ 1).0 claimed) in
          let taken : claimable other (claim id now db).1.submissions ≡ 0 =
            subst (λ x. claimable x (claim id now db).1.submissions ≡ 0) e
              (claimable-claim id now db) in
          ground (arith, one.0, same, free, taken, h)
      | inr differs ↦ ground (arith, one.0, same, fewer, h)
    ]

pub IsOnceAt-skipped :
    (other id now : ℕ) (working : List Submission) (db : Database)
    → IsOnceAt other db.submission_results working db.submissions
    → let db' = (claim id now db).1 in IsOnceAt other db'.submission_results working db'.submissions
unfolding claim
IsOnceAt-skipped other id now working db =
    IsOnceAt-update other (is_claimable id) (started now) db.submission_results working
      db.submissions (λ row. refl) (λ row e. absurd (ground (arith, e)))

-- A verdict that is written down takes the place of the worker that held the submission.
pub IsOnceAt-finished :
    (settings : JudgeSettings) (meanwhile : Meanwhile) (other id : ℕ) (submission : Submission)
    (problem : ProblemSpec) (limit : ℕ) (report : JudgeReport) (now : ℕ) (working : List Submission)
    (db db' : Database) (earned : List Achievement)
    → first_of? (is_submission id) working ≡ some submission
    → persist settings meanwhile submission.id problem limit report now db ≡ (returned earned, db')
    → IsOnceAt other db.submission_results working db.submissions
    → IsOnceAt other db'.submission_results (drop_first (is_submission id) working) db'.submissions
IsOnceAt-finished settings meanwhile other id submission problem limit report now working db db'
      earned holds done h =
    let held = first_of?-some (is_submission id) working submission holds in
    let (more, rest, same) =
      persist_returned settings meanwhile submission.id problem limit report now db db' earned
        done in
    let kept =
      IsOnceAt-update other (is_submission submission.id) (judged report now) db.submission_results
        working db.submissions (λ row. refl) (λ row e. absurd (ground (arith, e))) h in
    let e = (==_iff submission.id id).0 held.0 in
    rw same (elim (Bool-cases (submission.id == other)) [
      | inl this ↦
          let e' = (==_iff submission.id other).0 this in
          let one_more =
            subst
              (λ x. results_of x db'.submission_results ≡ suc (results_of x db.submission_results))
              e' more in
          let one_less =
            subst (λ x. rows_of x working ≡ suc (rows_of x (drop_first (is_submission id) working)))
              (sym e ∙ e') (count_where-drop_first (is_submission id) working submission holds) in
          omega (arith, one_more, one_less, kept)
      | inr differs ↦ omega (
        arith,
        rest other differs,
        count_where-drop_first_le (is_submission id) (is_submission other) working,
        kept,
      )
    ])
