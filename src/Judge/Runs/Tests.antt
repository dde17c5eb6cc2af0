-- ===== src/Judge/Runs/Tests.antt =====
-- A run that fails for want of its problem, and an instance of the theorem on `run_code` of
-- apps/judge/sahujudge/pipeline.py.
use sahucodex.Prelude.{ℕ, suc, ◌∷◌, List, ◌≡◌, refl, [], none, some, raised, arith}
use sahucodex.Prelude.Texts.{Text, codes}
use sahucodex.Judge.Failures.{sandbox_error}
use sahucodex.Judge.Checkers.{registered}
use sahucodex.Judge.Sandbox.{Sandbox}
use sahucodex.Judge.Pipeline.{JudgeSettings}
use sahucodex.Judge.Runs.{
  RunRequest, custom, queued, RunRecord, RunWorld, failed_run, skipped, Between, RunEnd, RunEvent,
  run_running, load_run_record, store_run_record, run_code,
}
use sahucodex.Judge.Runs.Once.{IsOver, redelivered, run_code_lem}
use sahucodex.Api.Tables.{Database}

abbrev nowhere : Sandbox Unit
nowhere = record {
  open_session = λ language source memory_limit_mb s. (raised (sandbox_error (codes "gone")), s);
  compile = λ s. (raised (sandbox_error (codes "gone")), s);
  run = λ stdin limits s. (raised (sandbox_error (codes "gone")), s);
  close_session = λ s. s;
}

abbrev settings : JudgeSettings
settings = record {
  config = record {
    max_output_bytes = 1_048_576;
    max_stderr_bytes = 8_192;
    max_tests = 200;
    stack_mb = 64;
  };
  max_compile_output_bytes = 8_192;
  stale_after = 900;
  day_of = λ now. now;
  checkers = registered;
}

abbrev empty : Database
empty = record {
  submissions = [];
  submission_results = [];
  submission_test_results = [];
  problems = [];
  problem_test_cases = [];
  progress = [];
  streaks = [];
  achievements = [];
  user_achievements = [];
}

abbrev request : RunRequest
request = record {
  problem_slug = codes "two-sum";
  language = codes "python";
  source_code = codes "print(4)";
  input = none;
}

abbrev waiting : RunRecord
waiting = record { user_id = 7; mode = custom; state = queued request }

abbrev run_id : Text
run_id = codes "abcdefgh-0123456"

abbrev asked : RunWorld Unit
asked =
    store_run_record run_id waiting 300 0
      (record { db = empty; runs = []; events = []; sandbox = tt })

is_waiting : load_run_record run_id 1 asked ≡ some waiting
unfolding load_run_record store_run_record
is_waiting = refl

abbrev alone : Between Unit
alone = record { after_load = λ w. w; after_mark = λ w. w; after_judging = λ w. w }

abbrev deliver : Between Unit → RunWorld Unit → RunEnd × RunWorld Unit
deliver others = run_code nowhere settings 300 others run_id 1 1 3

fails : (deliver alone asked).0 ≡ failed_run
unfolding run_code store_run_record
fails = refl

abbrev starts : List RunEvent → ℕ
starts [] = 0
starts (run_running user_id id ∷ events) = suc (starts events)
starts (_ ∷ events) = starts events

-- Nothing is claimed between the load and the store: a second delivery that comes there runs the code
-- as well.
abbrev overtaken : Between Unit
overtaken = record alone { after_load = λ w. (deliver alone w).1 }

runs_once : starts (deliver alone asked).1.events ≡ 1
unfolding run_code store_run_record
runs_once = refl

runs_twice : starts (deliver overtaken asked).1.events ≡ 2
unfolding run_code store_run_record
runs_twice = refl

run_code_lem_example :
    let first = deliver alone asked in
    (((end : RunRecord) × (load_run_record run_id 300 first.1 ≡ some end)
        × (end.user_id ≡ 7)
        × IsOver end.state)
      × (run_code nowhere settings 300 alone run_id 2 2 4 first.1 ≡ (skipped, first.1)))
    × (deliver (redelivered nowhere settings 300 alone alone run_id 2 2 4) asked ≡ first)
run_code_lem_example =
    run_code_lem nowhere settings 300 alone alone run_id waiting request 1 1 3 300 2 2 4 asked
      is_waiting refl (omega arith) (λ now w. refl) (λ now w. refl)
