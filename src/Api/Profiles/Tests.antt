-- ===== src/Api/Profiles/Tests.antt =====
-- Instances of the theorems on apps/api/app/modules/profiles/service.py.
use sahucodex.Prelude.{◌≡◌, List, [], ◌∷◌, ◌++◌, map, some, arith, All}
use sahucodex.Api.Tables.{UserStreak, Database, ProgressStatus}
use sahucodex.Api.Profiles.{record_streak, evaluate_achievements, checks}
use sahucodex.Api.Profiles.Streaks.{IsStreak, record_streak-IsStreak}
use sahucodex.Api.Profiles.Earned.{due, earned_row, with_earned, evaluate_achievements_lem}

abbrev yesterday : UserStreak
yesterday = record {
  user_id = 7;
  current_streak = 3;
  longest_streak = 3;
  last_active_date = some 9;
}

abbrev raced : List UserStreak → List UserStreak
raced rows = yesterday ∷ rows

record_streak-IsStreak_example : All IsStreak (record_streak raced 7 10 [])
record_streak-IsStreak_example = record_streak-IsStreak raced 7 10 [] tt (omega arith, tt)

abbrev db : Database
db = record {
  submissions = [];
  submission_results = [];
  submission_test_results = [];
  problems = [];
  problem_test_cases = [];
  progress =
      record {
        user_id = 7;
        problem_id = 2;
        status = ProgressStatus.solved;
        attempts = 1;
        first_solved_at = some 5;
        last_attempt_at = 5;
      }
      ∷ [];
  streaks = [];
  achievements = [];
  user_achievements = [];
}

evaluate_achievements_lem_example :
    evaluate_achievements 7 10 db
    ≡ (due [] 7 checks db, with_earned db ([] ++ map (earned_row 7 10) (due [] 7 checks db)))
evaluate_achievements_lem_example = evaluate_achievements_lem 7 10 db
