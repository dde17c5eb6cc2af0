-- ===== src/Api/Tables.antt =====
-- The rows of the database: apps/api/app/modules/submissions/models.py,
-- apps/api/app/modules/problems/models.py and apps/api/app/modules/profiles/models.py.
-- A table is the list of its rows; ids, times and days are numbers.
use sahucodex.Prelude.{ℕ, Bool, true, false, Option, some, List}
use sahucodex.Prelude.Int.{ℤ}
use sahucodex.Prelude.Texts.{Text}
use sahucodex.Judge.Engine.{Verdict}

pub data SubmissionStatus : Type 0 where
  queued running completed failed : SubmissionStatus

pub record Submission : Type 0 where
  pub id : ℕ
  pub user_id : ℕ
  pub problem_id : ℕ
  pub language_key : Text
  pub source_code : Text
  pub contest_id : Option ℕ
  pub status : SubmissionStatus
  pub verdict : Option Verdict
  pub runtime_ms : Option ℤ
  pub memory_kb : Option ℤ
  pub passed_count : ℕ
  pub total_count : ℕ
  pub created_at : ℕ
  pub started_at : Option ℕ
  pub finished_at : Option ℕ

pub record SubmissionResult : Type 0 where
  pub submission_id : ℕ
  pub compile_output : Option Text
  pub message : Option Text
  pub checker : Text
  pub judge_version : Text
  pub time_limit_ms : ℕ
  pub memory_limit_mb : ℕ

pub record SubmissionTestResult : Type 0 where
  pub submission_id : ℕ
  pub test_case_id : Option ℕ
  pub position : ℕ
  pub is_public : Bool
  pub verdict : Verdict
  pub runtime_ms : Option ℤ
  pub memory_kb : Option ℤ

pub data Difficulty : Type 0 where
  easy medium hard : Difficulty

pub data CaseKind : Type 0 where
  public_case hidden_case : CaseKind

pub data ProgressStatus : Type 0 where
  attempted solved : ProgressStatus

-- The columns that judging, submitting and profiles read; the statement's texts are left out.
-- `tags` are the ids that the table `problem_tags` pairs with the problem.
pub record Problem : Type 0 where
  pub id : ℕ
  pub slug : Text
  pub title : Text
  pub difficulty : Difficulty
  pub time_limit_ms : ℕ
  pub memory_limit_mb : ℕ
  pub checker : Text
  pub published : Bool
  pub archived_at : Option ℕ
  pub total_submissions : ℕ
  pub accepted_submissions : ℕ
  pub tags : List ℕ

pub record ProblemTestCase : Type 0 where
  pub id : ℕ
  pub problem_id : ℕ
  pub kind : CaseKind
  pub position : ℕ
  pub input_data : Text
  pub expected_output : Text

pub record UserProblemProgress : Type 0 where
  pub user_id : ℕ
  pub problem_id : ℕ
  pub status : ProgressStatus
  pub attempts : ℕ
  pub first_solved_at : Option ℕ
  pub last_attempt_at : ℕ

pub record UserStreak : Type 0 where
  pub user_id : ℕ
  pub current_streak : ℕ
  pub longest_streak : ℕ
  pub last_active_date : Option ℕ

pub record Achievement : Type 0 where
  pub key : Text
  pub name : Text
  pub description : Text
  pub icon : Text
  pub sort_order : ℕ

pub record UserAchievement : Type 0 where
  pub user_id : ℕ
  pub achievement_key : Text
  pub earned_at : ℕ

pub record Database : Type 0 where
  pub submissions : List Submission
  pub submission_results : List SubmissionResult
  pub submission_test_results : List SubmissionTestResult
  pub problems : List Problem
  pub problem_test_cases : List ProblemTestCase
  pub progress : List UserProblemProgress
  pub streaks : List UserStreak
  pub achievements : List Achievement
  pub user_achievements : List UserAchievement

abbrev pub is_accepted? : Option Verdict → Bool
is_accepted? (some Verdict.accepted) = true
is_accepted? _ = false

abbrev pub is_solved : ProgressStatus → Bool
is_solved attempted = false
is_solved solved = true

abbrev pub is_public_case : CaseKind → Bool
is_public_case public_case = true
is_public_case hidden_case = false

-- `status.in_(["QUEUED", "RUNNING"])`
abbrev pub is_open : SubmissionStatus → Bool
is_open queued = true
is_open running = true
is_open _ = false

abbrev pub is_queued : SubmissionStatus → Bool
is_queued queued = true
is_queued _ = false
