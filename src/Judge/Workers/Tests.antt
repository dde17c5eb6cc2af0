-- ===== src/Judge/Workers/Tests.antt =====
-- A slow worker: its submission is closed by the reaper (apps/judge/sahujudge/reaper.py) and then
-- completed by `_persist` (apps/judge/sahujudge/pipeline.py), which does not read the status.
use sahucodex.Prelude.{
  ℕ, ◌≡◌, refl, false, List, [], ◌∷◌, map, none, some, arith, Outcome, returned,
}
use sahucodex.Prelude.Texts.{Text, codes}
use sahucodex.Api.Tables.{Submission, completed, failed, Database}
use sahucodex.Api.Submissions.{SubmitSettings, new_submission}
use sahucodex.Api.Profiles.{
  record_streak, evaluate_achievements, check_first_solve, check_ten_solved, check_all_difficulties,
  check_polyglot, check_topic_explorer, check_streak_7, check_streak_30, check_hundred_submissions,
}
use sahucodex.Judge.Engine.{JudgeReport, accepted, system_error}
use sahucodex.Judge.Pipeline.{JudgeSettings, ProblemSpec, World, started, claim, record_progress}
use sahucodex.Judge.Pipeline.Closing.{Meanwhile, persist, publish}
use sahucodex.Judge.Reaper.{publish_failures}
use sahucodex.Judge.Workers.{Site, Reaches, nothing, submits, takes, finishes, reaps}
use sahucodex.Judge.Workers.Once.{IsOnce, Reaches-IsOnce}

abbrev settings : JudgeSettings
settings = record {
  config = record {
    max_output_bytes = 1_048_576;
    max_stderr_bytes = 8_192;
    max_tests = 200;
    stack_mb = 64;
  };
  max_compile_output_bytes = 8_192;
  stale_after = 900;
  day_of = λ now. now;
  checkers = [];
}

abbrev submit_settings : SubmitSettings
submit_settings = record {
  submission_max_source_bytes = 65_536;
  max_inflight_submissions = 3;
  judge_stale_after = 900;
}

abbrev enqueue : ℕ → World Unit → Outcome Text Unit × World Unit
enqueue id w = (returned tt, w)

abbrev alone : Meanwhile
alone = record { progress = λ rows. rows; streaks = λ rows. rows }

abbrev row : Submission
row = new_submission 5 7 2 (codes "python") (codes "print(9)") none 1 100

abbrev with_submissions : List Submission → Database
with_submissions rows = record {
  submissions = rows;
  submission_results = [];
  submission_test_results = [];
  problems = [];
  problem_test_cases = [];
  progress = [];
  streaks = [];
  achievements = [];
  user_achievements = [];
}

abbrev start : Site Unit
start = record {
  world = record {
    db = with_submissions [];
    redis_up = false;
    events = [];
    cached = [];
    sandbox = tt;
  };
  working = [];
}

abbrev problem : ProblemSpec
problem = record {
  id = 2;
  slug = codes "squares";
  time_limit_ms = 1000;
  memory_limit_mb = 64;
  checker = codes "lines";
}

abbrev report : JudgeReport
report = record {
  verdict = accepted;
  total = 1;
  passed = 1;
  compile_output = none;
  message = none;
  runtime_ms = none;
  memory_kb = none;
  outcomes = [];
}

abbrev closed_row : Submission
closed_row = record (started 200 row) {
  status = failed;
  verdict = some system_error;
  finished_at = some 1200;
}

-- The site after the claim at 200 and the reaper's UPDATE at 1200.
abbrev reaped : Site Unit
reaped = record start {
  world = record start.world { db = with_submissions (closed_row ∷ []) };
  working = started 200 row ∷ [];
}

abbrev late : Database
late = (persist settings alone 5 problem 1000 report 1300 reaped.world.db).1

abbrev finished : Site Unit
finished = record { world = record start.world { db = late }; working = [] }

reaching_reaped : Reaches enqueue submit_settings settings start reaped
unfolding claim publish publish_failures
reaching_reaped = reaps (started 200 row ∷ []) 1200 (
    takes 5 200 (started 200 row)
      (submits 5 7 2 (codes "python") (codes "print(9)") none 1 100 nothing refl) refl refl)

reaching_finished : Reaches enqueue submit_settings settings start finished
unfolding persist evaluate_achievements record_progress record_streak check_first_solve
    check_ten_solved check_all_difficulties check_polyglot check_topic_explorer check_streak_7
    check_streak_30 check_hundred_submissions
reaching_finished =
    finishes alone 5 (started 200 row) problem 1000 report 1300 tt [] late reaching_reaped refl refl

-- The user was told that the submission failed; now it is completed.
completed_after_failed :
    (map (λ s. s.status) reaped.world.db.submissions ≡ failed ∷ [])
    × (map (λ s. s.status) finished.world.db.submissions ≡ completed ∷ [])
unfolding persist evaluate_achievements record_progress record_streak check_first_solve
    check_ten_solved check_all_difficulties check_polyglot check_topic_explorer check_streak_7
    check_streak_30 check_hundred_submissions
completed_after_failed = (refl, refl)

start-IsOnce : IsOnce start
start-IsOnce id = ground arith

Reaches-IsOnce_example : IsOnce finished
Reaches-IsOnce_example =
    Reaches-IsOnce enqueue submit_settings settings reaching_finished start-IsOnce
