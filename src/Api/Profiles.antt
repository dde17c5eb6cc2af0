-- ===== src/Api/Profiles.antt =====
-- The writes of apps/api/app/modules/profiles/service.py and the checks of
-- apps/api/app/modules/profiles/achievements.py.
pub mod Streaks
pub mod Earned
mod Tests
use sahucodex.Prelude.{
  ℕ, ◌+◌, Bool, true, false, ◌&&◌, ◌||◌, not, List, [], ◌∷◌, ◌++◌, map, Option, none, some, ltb,
  leb, ◌==◌, if◌then◌else◌, length, keep_if, any_of, first_of?,
}
use sahucodex.Prelude.Texts.{Text, codes, eq_text}
use sahucodex.Prelude.Tables.{count_where, update_where}
use sahucodex.Api.Tables.{
  Submission, Problem, Difficulty, UserProblemProgress, UserStreak, UserAchievement, Achievement,
  Database, is_accepted?, is_solved,
}
use Difficulty.{easy, medium, hard}

-- `column == value` on a column that may be NULL.
abbrev pub is_day : Option ℕ → ℕ → Bool
is_day none day = false
is_day (some d) day = d == day

-- `last_active_date == yesterday`: the day before `today`.
abbrev pub is_day_before : Option ℕ → ℕ → Bool
is_day_before none day = false
is_day_before (some d) day = d + 1 == day

-- The SET of the UPDATE: both new values are computed from the old row.
unfoldable pub extended : ℕ → UserStreak → UserStreak
extended today row =
    let new_current =
      if is_day row.last_active_date today
      then row.current_streak
      else if is_day_before row.last_active_date today
      then row.current_streak + 1
      else 1 in
    let new_longest =
      if ltb row.longest_streak new_current then new_current else row.longest_streak in
    record row {
      current_streak = new_current;
      longest_streak = new_longest;
      last_active_date = some today;
    }

abbrev pub is_streak_of : ℕ → UserStreak → Bool
is_streak_of user_id row = row.user_id == user_id

-- `meanwhile` is what other sessions commit between the UPDATE and the INSERT; the INSERT is
-- refused when the key is there by then, and the UPDATE is made again.
unfoldable pub record_streak :
    (List UserStreak → List UserStreak) → ℕ → ℕ → List UserStreak → List UserStreak
unfolding extended
record_streak meanwhile user_id today streaks =
    if ltb 0 (count_where (is_streak_of user_id) streaks)
    then update_where (is_streak_of user_id) (extended today) streaks
    else let streaks' = meanwhile streaks in
      if ltb 0 (count_where (is_streak_of user_id) streaks')
      then update_where (is_streak_of user_id) (extended today) streaks'
      else streaks'
        ++ record {
          user_id = user_id;
          current_streak = 1;
          longest_streak = 1;
          last_active_date = some today;
        }
          ∷ []

-- The rows of `user_problem_progress` that are the user's and SOLVED.
abbrev pub is_solved_by : ℕ → UserProblemProgress → Bool
is_solved_by user_id row = row.user_id == user_id && is_solved row.status

abbrev pub solved_count : Database → ℕ → ℕ
solved_count db user_id = count_where (is_solved_by user_id) db.progress

unfoldable pub check_first_solve : Database → ℕ → Bool
check_first_solve db user_id = leb 1 (solved_count db user_id)

unfoldable pub check_ten_solved : Database → ℕ → Bool
check_ten_solved db user_id = leb 10 (solved_count db user_id)

abbrev pub eq_difficulty : Difficulty → Difficulty → Bool
eq_difficulty easy easy = true
eq_difficulty medium medium = true
eq_difficulty hard hard = true
eq_difficulty _ _ = false

-- The user has solved a problem: the inner join with `problems`.
abbrev pub has_solved : Database → ℕ → Problem → Bool
has_solved db user_id problem =
    any_of (λ row. is_solved_by user_id row && row.problem_id == problem.id) db.progress

abbrev pub has_solved_level : Database → ℕ → Difficulty → Bool
has_solved_level db user_id level =
    any_of (λ problem. has_solved db user_id problem && eq_difficulty problem.difficulty level)
      db.problems

unfoldable pub check_all_difficulties : Database → ℕ → Bool
check_all_difficulties db user_id =
    has_solved_level db user_id easy
    && has_solved_level db user_id medium
    && has_solved_level db user_id hard

-- `count(distinct(…))`: an element counts where it does not come again.
abbrev pub count_distinct : {A : Type 0} → (A → A → Bool) → List A → ℕ
count_distinct eq [] = 0
count_distinct eq (x ∷ xs) =
    let rest = count_distinct eq xs in if any_of (eq x) xs then rest else rest + 1

unfoldable pub check_polyglot : Database → ℕ → Bool
check_polyglot db user_id =
    let accepted =
      keep_if (λ row. row.user_id == user_id && is_accepted? row.verdict) db.submissions in
    leb 2 (count_distinct eq_text (map (λ row. row.language_key) accepted))

abbrev pub tags_of : List Problem → List ℕ
tags_of [] = []
tags_of (problem ∷ problems) = problem.tags ++ tags_of problems

unfoldable pub check_topic_explorer : Database → ℕ → Bool
check_topic_explorer db user_id =
    leb 10 (count_distinct ◌==◌ (tags_of (keep_if (has_solved db user_id) db.problems)))

abbrev pub longest_of : Option UserStreak → ℕ
longest_of none = 0
longest_of (some row) = row.longest_streak

abbrev pub longest_streak_of : Database → ℕ → ℕ
longest_streak_of db user_id = longest_of (first_of? (is_streak_of user_id) db.streaks)

unfoldable pub check_streak_7 : Database → ℕ → Bool
check_streak_7 db user_id = leb 7 (longest_streak_of db user_id)

unfoldable pub check_streak_30 : Database → ℕ → Bool
check_streak_30 db user_id = leb 30 (longest_streak_of db user_id)

unfoldable pub check_hundred_submissions : Database → ℕ → Bool
check_hundred_submissions db user_id =
    leb 100 (count_where (λ row. row.user_id == user_id) db.submissions)

abbrev pub Check : Type 0
Check = Text × (Database → ℕ → Bool)

unfoldable pub checks : List Check
checks =
    (codes "first_solve", check_first_solve)
    ∷ (codes "ten_solved", check_ten_solved)
    ∷ (codes "all_difficulties", check_all_difficulties)
    ∷ (codes "polyglot", check_polyglot)
    ∷ (codes "topic_explorer", check_topic_explorer)
    ∷ (codes "streak_7", check_streak_7)
    ∷ (codes "streak_30", check_streak_30)
    ∷ (codes "hundred_submissions", check_hundred_submissions)
    ∷ []

abbrev pub has_earned : ℕ → Text → UserAchievement → Bool
has_earned user_id key row = row.user_id == user_id && eq_text row.achievement_key key

-- The loop over the checks: `already` is read once, before it.
unfoldable pub evaluate_checks :
    List UserAchievement → ℕ → ℕ → List Check → Database → List Text × Database
evaluate_checks already user_id now [] db = ([], db)
evaluate_checks already user_id now ((key, check) ∷ rest) db =
    elim (not (any_of (has_earned user_id key) already) && check db user_id) [
      | false ↦ evaluate_checks already user_id now rest db
      | true ↦
          let row : UserAchievement = record {
            user_id = user_id;
            achievement_key = key;
            earned_at = now;
          } in
          let staged = record db { user_achievements = db.user_achievements ++ row ∷ [] } in
          let (newly, db') = evaluate_checks already user_id now rest staged in (key ∷ newly, db')
    ]

unfoldable pub evaluate_achievements : ℕ → ℕ → Database → List Text × Database
unfolding evaluate_checks checks
evaluate_achievements user_id now db = evaluate_checks db.user_achievements user_id now checks db
