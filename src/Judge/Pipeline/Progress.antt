-- ===== src/Judge/Pipeline/Progress.antt =====
-- `record_progress` of apps/judge/sahujudge/pipeline.py: what a user's row for a problem says.
use mathlib.Core.Option
use sahucodex.Prelude.{
  ℕ, ◌+◌, ◌≡◌, refl, ap, ◌∙◌, inl, inr, Bool, true, false, ◌||◌, List, [], ◌∷◌, ◌++◌, Option, none,
  some, ltb, arith, Bool-cases, Option-cases, first_of?, if◌then◌else◌, ==_iff,
}
use sahucodex.Prelude.Tables.{
  count_where, update_where, first_of?-update_where, first_of?-none, first_of?-some,
  first_of?-append_none,
}
use sahucodex.Api.Tables.{UserProblemProgress, is_solved}
use sahucodex.Judge.Pipeline.{
  record_progress, attempted_once_more, first_attempt, is_progress_of, coalesce,
}

-- The rows that the statement which succeeds works on.
abbrev pub seen_by_worker :
    (List UserProblemProgress → List UserProblemProgress)
    → ℕ
    → ℕ
    → List UserProblemProgress
    → List UserProblemProgress
seen_by_worker meanwhile user_id problem_id rows =
    if ltb 0 (count_where (is_progress_of user_id problem_id) rows) then rows else meanwhile rows

-- What a user has done about a problem, where no row stands for no attempt.
abbrev pub attempts_of : Option UserProblemProgress → ℕ
attempts_of none = 0
attempts_of (some row) = row.attempts

abbrev pub has_solved? : Option UserProblemProgress → Bool
has_solved? none = false
has_solved? (some row) = is_solved row.status

abbrev pub solved_at : Option UserProblemProgress → Option ℕ
solved_at none = none
solved_at (some row) = row.first_solved_at

abbrev upsert : ℕ → ℕ → Bool → ℕ → List UserProblemProgress → List UserProblemProgress
upsert user_id problem_id accepted now rows =
    if ltb 0 (count_where (is_progress_of user_id problem_id) rows)
    then update_where (is_progress_of user_id problem_id) (attempted_once_more accepted now) rows
    else rows ++ first_attempt user_id problem_id accepted now ∷ []

record_progress_seen :
    (meanwhile : List UserProblemProgress → List UserProblemProgress) (user_id problem_id : ℕ)
    (accepted : Bool) (now : ℕ) (rows : List UserProblemProgress)
    → record_progress meanwhile user_id problem_id accepted now rows
      ≡ upsert user_id problem_id accepted now (seen_by_worker meanwhile user_id problem_id rows)
unfolding record_progress
record_progress_seen meanwhile user_id problem_id accepted now rows =
    elim (Bool-cases (ltb 0 (count_where (is_progress_of user_id problem_id) rows))) [
      | inl there ↦ rw there (rw there refl)
      | inr missing ↦ rw missing refl
    ]

attempted_once_more-key :
    (user_id problem_id : ℕ) (accepted : Bool) (now : ℕ) (row : UserProblemProgress)
    → is_progress_of user_id problem_id (attempted_once_more accepted now row)
      ≡ is_progress_of user_id problem_id row
unfolding attempted_once_more
attempted_once_more-key user_id problem_id true now row = refl
attempted_once_more-key user_id problem_id false now row = refl

-- The row that an attempt leaves, given the row that it finds.
abbrev row_after : ℕ → ℕ → Bool → ℕ → Option UserProblemProgress → UserProblemProgress
row_after user_id problem_id accepted now none = first_attempt user_id problem_id accepted now
row_after user_id problem_id accepted now (some row) = attempted_once_more accepted now row

first_of?-upsert :
    (user_id problem_id : ℕ) (accepted : Bool) (now : ℕ) (rows : List UserProblemProgress)
    → first_of? (is_progress_of user_id problem_id) (upsert user_id problem_id accepted now rows)
      ≡ some (
          row_after user_id problem_id accepted now
            (first_of? (is_progress_of user_id problem_id) rows))
unfolding first_attempt
first_of?-upsert user_id problem_id accepted now rows =
    let key = is_progress_of user_id problem_id in
    let fresh = first_attempt user_id problem_id accepted now in
    elim (Option-cases (first_of? key rows)) [
      | inl missing ↦
          rw (first_of?-none key rows missing, missing)
            (first_of?-append_none key rows (fresh ∷ []) missing
              ∙ ground (arith, ==_iff user_id user_id, ==_iff problem_id problem_id))
      | inr (row, found) ↦
          let there : ltb 0 (count_where key rows) ≡ true =
            ground (arith, (first_of?-some key rows row found).1) in
          rw (there, found)
            (first_of?-update_where key (attempted_once_more accepted now) rows
                (attempted_once_more-key user_id problem_id accepted now)
              ∙ ap (Option.map (attempted_once_more accepted now)) found)
    ]

row_after_lem :
    (user_id problem_id : ℕ) (accepted : Bool) (now : ℕ) (old : Option UserProblemProgress)
    → ((row_after user_id problem_id accepted now old).attempts ≡ attempts_of old + 1)
      × (is_solved (row_after user_id problem_id accepted now old).status
          ≡ (accepted || has_solved? old))
      × ((row_after user_id problem_id accepted now old).first_solved_at
          ≡ (if accepted then coalesce (solved_at old) now else solved_at old))
unfolding attempted_once_more first_attempt
row_after_lem user_id problem_id true now none = (omega arith, refl, refl)
row_after_lem user_id problem_id false now none = (omega arith, refl, refl)
row_after_lem user_id problem_id true now (some row) = (refl, refl, refl)
row_after_lem user_id problem_id false now (some row) = (refl, refl, refl)

-- Whatever other workers commit between the statements, a judged attempt is counted once more than
-- in the rows that the worker writes to, an accepted one makes the problem solved and sets its
-- first time only if there is none, and a solved problem is never downgraded.
pub record_progress_counts :
    (meanwhile : List UserProblemProgress → List UserProblemProgress) (user_id problem_id : ℕ)
    (accepted : Bool) (now : ℕ) (rows : List UserProblemProgress)
    → let key = is_progress_of user_id problem_id in
      let old = first_of? key (seen_by_worker meanwhile user_id problem_id rows) in
      let new = first_of? key (record_progress meanwhile user_id problem_id accepted now rows) in
      (attempts_of new ≡ attempts_of old + 1)
      × (has_solved? new ≡ (accepted || has_solved? old))
      × (solved_at new ≡ (if accepted then coalesce (solved_at old) now else solved_at old))
record_progress_counts meanwhile user_id problem_id accepted now rows =
    let there = seen_by_worker meanwhile user_id problem_id rows in
    rw (record_progress_seen meanwhile user_id problem_id accepted now rows) (
      rw (first_of?-upsert user_id problem_id accepted now there) (
        row_after_lem user_id problem_id accepted now
          (first_of? (is_progress_of user_id problem_id) there)))
