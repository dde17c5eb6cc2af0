-- ===== src/Judge/Pipeline/Tests.antt =====
-- Runs of apps/judge/sahujudge/pipeline.py on one submission, and instances of its theorems.
use sahucodex.Prelude.{
  ◌+◌, ◌≡◌, refl, ◌⊎◌, Bool, true, false, ◌||◌, List, [], ◌∷◌, none, some, arith, returned, raised,
  first_of?, if◌then◌else◌,
}
use sahucodex.Prelude.Int.{pos}
use sahucodex.Prelude.Texts.{codes}
use sahucodex.Judge.Failures.{Fallible, sandbox_error}
use sahucodex.Judge.Checkers.{registered}
use sahucodex.Judge.Sandbox.{exited, RunResult, Sandbox}
use sahucodex.Api.Tables.{
  Submission, queued, Problem, ProblemTestCase, Difficulty, CaseKind, UserProblemProgress,
  ProgressStatus,
}
use sahucodex.Judge.Pipeline.{JudgeSettings, World, is_progress_of, coalesce, record_progress}
use sahucodex.Judge.Pipeline.Closing.{Meanwhile, Handled, skipped, judge_submission}
use sahucodex.Judge.Pipeline.Progress.{
  attempts_of, has_solved?, solved_at, seen_by_worker, record_progress_counts,
}
use sahucodex.Judge.Pipeline.Judged.{IsFailed, IsJudged, judge_submission_closes}
use sahucodex.Judge.Pipeline.Redelivery.{judge_submission_redelivered}

abbrev prints_9 : RunResult
prints_9 = record {
  status = exited;
  exit_code = some (pos 0);
  signal = none;
  time_ms = pos 12;
  wall_ms = pos 20;
  memory_kb = pos 900;
  stdout = codes "9";
  stderr = [];
}

-- A sandbox that is up or down, in which every program prints 9.
abbrev nines : Sandbox Bool
nines = record {
  open_session = λ language source memory_limit_mb up.
      (if up then returned tt else raised (sandbox_error (codes "down")), up);
  compile = λ up. (returned (record { is_ok = true; output = [] }), up);
  run = λ stdin limits up. (returned prints_9, up);
  close_session = λ up. up;
}

abbrev settings : JudgeSettings
settings = record {
  config = record {
    max_output_bytes = 1_048_576;
    max_stderr_bytes = 8_192;
    max_tests = 200;
    stack_mb = 64;
  };
  max_compile_output_bytes = 8_192;
  stale_after = 900;
  day_of = λ now. now;
  checkers = registered;
}

abbrev alone : Meanwhile
alone = record { progress = λ rows. rows; streaks = λ rows. rows }

abbrev waiting : Submission
waiting = record {
  id = 5;
  user_id = 7;
  problem_id = 2;
  language_key = codes "python";
  source_code = codes "print(9)";
  contest_id = none;
  status = queued;
  verdict = none;
  runtime_ms = none;
  memory_kb = none;
  passed_count = 0;
  total_count = 1;
  created_at = 100;
  started_at = none;
  finished_at = none;
}

abbrev squares : Problem
squares = record {
  id = 2;
  slug = codes "squares";
  title = codes "Squares";
  difficulty = Difficulty.easy;
  time_limit_ms = 1000;
  memory_limit_mb = 64;
  checker = codes "lines";
  published = true;
  archived_at = none;
  total_submissions = 0;
  accepted_submissions = 0;
  tags = [];
}

abbrev three : ProblemTestCase
three = record {
  id = 1;
  problem_id = 2;
  kind = CaseKind.hidden_case;
  position = 1;
  input_data = codes "3";
  expected_output = codes "9";
}

abbrev start : Bool → World Bool
start up = record {
  db = record {
    submissions = waiting ∷ [];
    submission_results = [];
    submission_test_results = [];
    problems = squares ∷ [];
    problem_test_cases = three ∷ [];
    progress = [];
    streaks = [];
    achievements = [];
    user_achievements = [];
  };
  redis_up = true;
  events = [];
  cached = [];
  sandbox = up;
}

abbrev deliver : World Bool → Fallible Handled × World Bool
deliver = judge_submission nines settings alone 5 101 102

judge_submission_closes_example :
    IsFailed nines settings waiting 101 102
      (start true)
      (deliver (start true)).0
      (deliver (start true)).1
    ⊎ IsJudged nines settings alone waiting 101 102
        (start true)
        (deliver (start true)).0
        (deliver (start true)).1
judge_submission_closes_example =
    judge_submission_closes nines settings alone waiting 101 102 (start true) refl (omega arith)
      refl

judge_submission_redelivered_example :
    judge_submission nines settings alone 5 103 104 (deliver (start false)).1
    ≡ (returned skipped, (deliver (start false)).1)
judge_submission_redelivered_example =
    judge_submission_redelivered nines settings alone alone 5 101 102 103 104 (start false)

abbrev solved_before : UserProblemProgress
solved_before = record {
  user_id = 7;
  problem_id = 2;
  status = ProgressStatus.solved;
  attempts = 3;
  first_solved_at = some 50;
  last_attempt_at = 60;
}

-- Another worker's row is there by the time of the INSERT.
abbrev raced : List UserProblemProgress → List UserProblemProgress
raced rows = solved_before ∷ rows

record_progress_counts_example :
    let key = is_progress_of 7 2 in
    let old = first_of? key (seen_by_worker raced 7 2 []) in
    let new = first_of? key (record_progress raced 7 2 false 102 []) in
    (attempts_of new ≡ attempts_of old + 1)
    × (has_solved? new ≡ (false || has_solved? old))
    × (solved_at new ≡ (if false then coalesce (solved_at old) 102 else solved_at old))
record_progress_counts_example = record_progress_counts raced 7 2 false 102 []

race_is_counted :
    attempts_of (first_of? (is_progress_of 7 2) (record_progress raced 7 2 false 102 [])) ≡ 4
unfolding record_progress
race_is_counted = refl
