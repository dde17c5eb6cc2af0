-- ===== src/Judge/Reaper/Tests.antt =====
-- Instances of the theorems on apps/judge/sahujudge/reaper.py.
use sahucodex.Prelude.{ℕ, ◌≡◌, refl, true, List, [], ◌∷◌, none, some, first_of?}
use sahucodex.Prelude.Tables.{count_where}
use sahucodex.Prelude.Texts.{codes}
use sahucodex.Judge.Engine.{wrong_answer}
use sahucodex.Api.Tables.{Submission, SubmissionStatus, queued, running, completed}
use sahucodex.Judge.Pipeline.{JudgeSettings, World, is_submission}
use sahucodex.Judge.Reaper.{is_stale, fail_stale_submissions}
use sahucodex.Judge.Reaper.Stale.{
  fail_stale_submissions_leaves_none, fail_stale_submissions_keeps_closed,
}

abbrev settings : JudgeSettings
settings = record {
  config = record {
    max_output_bytes = 1_048_576;
    max_stderr_bytes = 8_192;
    max_tests = 200;
    stack_mb = 64;
  };
  max_compile_output_bytes = 8_192;
  stale_after = 900;
  day_of = λ now. now;
  checkers = [];
}

abbrev created : ℕ → ℕ → SubmissionStatus → Submission
created id at status = record {
  id = id;
  user_id = 7;
  problem_id = 2;
  language_key = codes "python";
  source_code = codes "print(9)";
  contest_id = none;
  status = status;
  verdict = some wrong_answer;
  runtime_ms = none;
  memory_kb = none;
  passed_count = 0;
  total_count = 1;
  created_at = at;
  started_at = none;
  finished_at = none;
}

abbrev world : World Unit
world = record {
  db = record {
    submissions = created 1 100 running ∷ created 2 1500 queued ∷ [];
    submission_results = [];
    submission_test_results = [];
    problems = [];
    problem_test_cases = [];
    progress = [];
    streaks = [];
    achievements = [];
    user_achievements = [];
  };
  redis_up = true;
  events = [];
  cached = [];
  sandbox = tt;
}

fail_stale_submissions_leaves_none_example :
    ((fail_stale_submissions settings (λ rows. rows) 2000 world).0
      ≡ count_where (is_stale settings 2000) world.db.submissions)
    × (count_where
          (is_stale settings 2000)
          (fail_stale_submissions settings (λ rows. rows) 2000 world).1.db.submissions
        ≡ 0)
fail_stale_submissions_leaves_none_example = fail_stale_submissions_leaves_none settings 2000 world

-- The worker completes the first submission after it was selected.
abbrev completed_late : List Submission → List Submission
completed_late rows = created 1 100 completed ∷ []

fail_stale_submissions_keeps_closed_example :
    first_of?
      (is_submission 1)
      (fail_stale_submissions settings completed_late 2000 world).1.db.submissions
    ≡ some (created 1 100 completed)
fail_stale_submissions_keeps_closed_example =
    fail_stale_submissions_keeps_closed settings completed_late 2000 1 (created 1 100 completed)
      (created 1 100 running) [] world refl refl refl
