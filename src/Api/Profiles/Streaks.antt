-- ===== src/Api/Profiles/Streaks.antt =====
-- `record_streak` of apps/api/app/modules/profiles/service.py: what a user's row says.
use sahucodex.Prelude.{
  ℕ, ◌≤◌, ◌≡◌, refl, if◌then◌else◌, inl, inr, List, [], ◌∷◌, ◌++◌, some, ltb, arith, Bool-cases,
  All, All-append,
}
use sahucodex.Prelude.Tables.{count_where, update_where}
use sahucodex.Api.Tables.{UserStreak}
use sahucodex.Api.Profiles.{record_streak, extended, is_streak_of}

-- A row whose longest streak covers the current one.
abbrev pub IsStreak : UserStreak → Type 0
IsStreak row = row.current_streak ≤ row.longest_streak

-- The UPDATE makes it so.
extended-IsStreak : (today : ℕ) (row : UserStreak) → IsStreak (extended today row)
unfolding extended
extended-IsStreak today row = ground arith

update_where-IsStreak :
    (user_id today : ℕ) (rows : List UserStreak)
    → All IsStreak rows
    → All IsStreak (update_where (is_streak_of user_id) (extended today) rows)
update_where-IsStreak user_id today [] h = tt
update_where-IsStreak user_id today (row ∷ rows) h = (
  elim (Bool-cases (is_streak_of user_id row)) [
    | inl theirs ↦ rw theirs (extended-IsStreak today row)
    | inr other ↦ rw other h.0
  ],
  update_where-IsStreak user_id today rows h.1,
)

-- The rows that the statement which succeeds works on.
abbrev settled : (List UserStreak → List UserStreak) → ℕ → List UserStreak → List UserStreak
settled meanwhile user_id rows =
    if ltb 0 (count_where (is_streak_of user_id) rows) then rows else meanwhile rows

abbrev new_streak : ℕ → ℕ → UserStreak
new_streak user_id today = record {
  user_id = user_id;
  current_streak = 1;
  longest_streak = 1;
  last_active_date = some today;
}

-- An UPDATE of rows that hold the key, an INSERT otherwise.
abbrev upsert : ℕ → ℕ → List UserStreak → List UserStreak
upsert user_id today rows =
    if ltb 0 (count_where (is_streak_of user_id) rows)
    then update_where (is_streak_of user_id) (extended today) rows
    else rows ++ new_streak user_id today ∷ []

record_streak-settled :
    (meanwhile : List UserStreak → List UserStreak) (user_id today : ℕ) (rows : List UserStreak)
    → record_streak meanwhile user_id today rows
      ≡ upsert user_id today (settled meanwhile user_id rows)
unfolding record_streak
record_streak-settled meanwhile user_id today rows =
    elim (Bool-cases (ltb 0 (count_where (is_streak_of user_id) rows))) [
      | inl there ↦ rw there (rw there refl)
      | inr missing ↦ rw missing refl
    ]

upsert-IsStreak :
    (user_id today : ℕ) (rows : List UserStreak)
    → All IsStreak rows
    → All IsStreak (upsert user_id today rows)
upsert-IsStreak user_id today rows h =
    elim (Bool-cases (ltb 0 (count_where (is_streak_of user_id) rows))) [
      | inl there ↦ rw there (update_where-IsStreak user_id today rows h)
      | inr missing ↦
          rw missing (All-append IsStreak rows (new_streak user_id today ∷ []) h (omega arith, tt))
    ]

-- The longest streak of every row covers its current one, and a day that is recorded keeps it so.
pub record_streak-IsStreak :
    (meanwhile : List UserStreak → List UserStreak) (user_id today : ℕ) (rows : List UserStreak)
    → All IsStreak rows
    → All IsStreak (meanwhile rows)
    → All IsStreak (record_streak meanwhile user_id today rows)
unfolding record_streak
record_streak-IsStreak meanwhile user_id today rows h k =
    rw (record_streak-settled meanwhile user_id today rows) (
      upsert-IsStreak user_id today (settled meanwhile user_id rows)
        (elim (Bool-cases (ltb 0 (count_where (is_streak_of user_id) rows))) [
          | inl there ↦ rw there h
          | inr missing ↦ rw missing k
        ]))
