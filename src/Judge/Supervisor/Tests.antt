-- ===== src/Judge/Supervisor/Tests.antt =====
-- Runs of apps/judge/sahujudge/supervisor.py on scripted observations, and instances of its theorems.
use sahucodex.Prelude.{
  ℕ, ◌+◌, ◌*◌, ◌≤◌, ◌≡◌, ◌≢◌, refl, false, [], ◌∷◌, none, some, length, take, drop, arith,
}
use sahucodex.Prelude.Int.{pos}
use sahucodex.Judge.Sandbox.{RunStatus, exited, output_limit}
use sahucodex.Judge.Supervisor.Watching.{cmd_run_kills}
use sahucodex.Judge.Supervisor.{
  RunArgs, from_stdout, from_stderr, Observation, Ending, watch, unwatched, cmd_run,
}
use sahucodex.Judge.Supervisor.Caps.{written, stdout_of, stderr_of}
use sahucodex.Judge.Supervisor.Verdicts.{cmd_run-splits, cmd_run_exited}

abbrev args : RunArgs
args = record { time_ms = 1000; wall_ms = 3000; memory_mb = 64; max_output = 3; max_stderr = 2 }

abbrev busy : Observation
busy = record {
  chunks = from_stdout (104 ∷ 105 ∷ []) ∷ from_stderr (1 ∷ 2 ∷ 3 ∷ []) ∷ [];
  cpu_ms = some 10;
  rss_kb = none;
  wall_ms = 12;
}

abbrev fine : Ending
fine = record {
  last_chunks = from_stdout (10 ∷ []) ∷ [];
  drained = [];
  code = pos 0;
  cpu_ms = 11;
  wall_ms = 20;
  max_rss_kb = 900;
  oom = false;
}

abbrev loud : Ending
loud = record fine { drained = from_stdout (104 ∷ []) ∷ [] }

loud_is_cut :
    ((cmd_run args (busy ∷ []) loud).0.status ≡ output_limit)
    × ((cmd_run args (busy ∷ []) loud).1 ≡ 104 ∷ 105 ∷ 10 ∷ 1 ∷ 2 ∷ [])
unfolding cmd_run
loud_is_cut = (refl, refl)

fine_is_exited : (cmd_run args (busy ∷ []) fine).0.status ≡ exited
unfolding cmd_run
fine_is_exited = refl

cmd_run-splits_example :
    let (header, body) = cmd_run args (busy ∷ []) loud in
    (header.stdout_len + header.stderr_len ≡ length body)
    × (take header.stdout_len body ≡ take 3 (stdout_of (written (busy ∷ []) loud)))
    × (drop header.stdout_len body ≡ take 2 (stderr_of (written (busy ∷ []) loud)))
cmd_run-splits_example = cmd_run-splits args (busy ∷ []) loud

cmd_run_exited_example :
    ((watch args unwatched (busy ∷ [])).killed ≡ none)
    × ((n : ℕ) × (fine.code ≡ pos n))
    × (length (stdout_of (written (busy ∷ []) fine)) ≤ 3)
    × ((cmd_run args (busy ∷ []) fine).0.cpu_ms ≤ 1000)
    × ((cmd_run args (busy ∷ []) fine).0.memory_kb ≤ 64 * 1024)
cmd_run_exited_example = cmd_run_exited args (busy ∷ []) fine fine_is_exited

abbrev hasty : RunArgs
hasty = record { time_ms = 1000; wall_ms = 2; memory_mb = 64; max_output = 3; max_stderr = 2 }

abbrev at_ms : ℕ → Observation
at_ms n = record { chunks = []; cpu_ms = none; rss_kb = none; wall_ms = n }

cmd_run_kills_example :
    let observations = at_ms 1 ∷ at_ms 2 ∷ at_ms 3 ∷ [] in
    (reason : RunStatus) × ((watch hasty unwatched observations).killed ≡ some reason)
    × ((cmd_run hasty observations fine).0.status ≡ reason)
    × (reason ≢ exited)
cmd_run_kills_example =
    cmd_run_kills hasty (at_ms 1 ∷ at_ms 2 ∷ at_ms 3 ∷ []) fine
      (omega arith, (omega arith, (omega arith, tt))) (omega arith)
