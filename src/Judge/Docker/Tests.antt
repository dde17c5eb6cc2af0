-- ===== src/Judge/Docker/Tests.antt =====
-- A toy daemon behind the driver (apps/judge/sahujudge/docker_sandbox.py), replies that are read and
-- refused, and instances of the theorems.
use sahucodex.Prelude.{
  ℕ, ◌+◌, ◌≡◌, refl, inr, true, false, List, [], ◌∷◌, Option, none, some, get_elem?, take, returned,
  raised,
}
use sahucodex.Prelude.Int.{pos}
use sahucodex.Prelude.Texts.{Text, codes, eq_text}
use sahucodex.Prelude.Decimals.{decimal}
use sahucodex.Judge.Failures.{Fallible}
use sahucodex.Judge.Checkers.{exact_checker}
use sahucodex.Judge.Languages.{python}
use sahucodex.Judge.Process.{CommandResult}
use sahucodex.Judge.Engine.{JudgeConfig}
use sahucodex.Judge.Engine.Running.{judge_tests}
use sahucodex.Judge.Supervisor.{RunArgs, Ending, from_stdout, cmd_run}
use sahucodex.Judge.Supervisor.Caps.{written, stdout_of, stderr_of}
use sahucodex.Judge.Supervisor.Replies.{build_header, cmd_run_bytes}
use sahucodex.Judge.Docker.{
  DockerSandboxConfig, build_run_argv, build_exec_argv, parse_supervisor_output, malformed,
}
use sahucodex.Judge.Docker.Replies.{header_members, measured_of, parse_supervisor_output-cmd_run}
use sahucodex.Judge.Docker.Driver.{Driver, command, remove}
use sahucodex.Judge.Docker.Driver.Containers.{
  without, IsDocker, driven, judge_tests_leaves_no_container,
}

abbrev args : RunArgs
args = record { time_ms = 1000; wall_ms = 3000; memory_mb = 64; max_output = 8; max_stderr = 8 }

abbrev prints_four : Ending
prints_four = record {
  last_chunks = from_stdout (52 ∷ 10 ∷ []) ∷ [];
  drained = [];
  code = pos 0;
  cpu_ms = 11;
  wall_ms = 20;
  max_rss_kb = 900;
  oom = false;
}

reply_text :
    build_header (cmd_run args [] prints_four).0
    ≡ codes
        "{\"status\":\"EXITED\",\"exit_code\":0,\"signal\":null,\"cpu_ms\":11,\"wall_ms\":20,\"memory_kb\":900,\"stdout_len\":2,\"stderr_len\":0}"
unfolding build_header cmd_run decimal
reply_text = refl

too_short :
    parse_supervisor_output (
      codes
        "{\"status\":\"EXITED\",\"exit_code\":0,\"signal\":null,\"cpu_ms\":11,\"wall_ms\":20,\"memory_kb\":900,\"stdout_len\":2,\"stderr_len\":0}\n4")
    ≡ raised malformed
unfolding parse_supervisor_output
too_short = refl

unknown_status :
    parse_supervisor_output (
      codes
        "{\"status\": \"AC\", \"cpu_ms\": 1, \"wall_ms\": 1, \"memory_kb\": 1, \"stdout_len\": 0, \"stderr_len\": 0}\n")
    ≡ raised malformed
unfolding parse_supervisor_output
unknown_status = refl

parse_supervisor_output-cmd_run_example :
    let header = (cmd_run args [] prints_four).0 in
    parse_supervisor_output (cmd_run_bytes args [] prints_four)
    ≡ returned (
      header_members header,
      measured_of header,
      take 8 (stdout_of (written [] prints_four)),
      take 8 (stderr_of (written [] prints_four)),
    )
parse_supervisor_output-cmd_run_example = parse_supervisor_output-cmd_run args [] prints_four

-- The daemon is the list of the names of its containers.
abbrev finished_with : List ℕ → CommandResult
finished_with stdout = record {
  returncode = some (pos 0);
  stdout = stdout;
  stderr = [];
  timed_out = false;
  truncated = false;
}

abbrev or_nameless : Option Text → Text
or_nameless none = []
or_nameless (some name) = name

abbrev toy_docker :
    List Text
    → Option (List ℕ)
    → ℕ
    → ℕ
    → List (Text × Text)
    → List Text
    → Fallible CommandResult × List Text
toy_docker (bin ∷ sub ∷ rest) stdin timeout_ms max_output env names =
    elim (eq_text sub (codes "run")) [
      | true ↦ (returned (finished_with []), or_nameless (get_elem? rest 3) ∷ names)
      | false ↦ elim (eq_text sub (codes "rm")) [
        | true ↦ (returned (finished_with []), without (or_nameless (get_elem? rest 1)) names)
        | false ↦ (returned (finished_with (cmd_run_bytes args [] prints_four)), names)
      ]
    ]
toy_docker _ stdin timeout_ms max_output env names = (returned (finished_with []), names)

abbrev config : DockerSandboxConfig
config = record {
  image = codes "sahucodex/runner:1";
  docker_bin = codes "docker";
  docker_host = none;
  runtime = none;
  pids_limit = 64;
  cpus = codes "1.0";
  tmpfs_mb = 64;
  memory_slack_mb = 128;
  ttl_seconds = 600;
  max_source_bytes = 65_536;
  compile_output_bytes = 8_192;
  user_uid = 10_001;
  init_uid = 10_002;
}

abbrev toy_uuid : ℕ → Text
toy_uuid n = (97 + n) ∷ []

abbrev names_of : List Text → List Text
names_of names = names

abbrev noon : List Text → ℕ
noon names = 43_200

toy_IsDocker : IsDocker toy_docker config [] (codes "/tmp") toy_uuid noon names_of
unfolding command build_run_argv build_exec_argv remove
toy_IsDocker = record {
  starts = λ name memory_mb created_at timeout_ms max_output names. inr refl;
  started = λ name memory_mb created_at timeout_ms max_output names result ran zero_code. refl;
  executes = λ name argv stdin timeout_ms max_output names. refl;
  removes = λ name names result back. refl;
  comes_back = λ name names. (finished_with [], refl);
}

abbrev idle : Driver (List Text)
idle = record { host = codes "sjx-z" ∷ []; draws = 0; session = none }

abbrev judge_config : JudgeConfig
judge_config = record {
  max_output_bytes = 65_536;
  max_stderr_bytes = 8_192;
  max_tests = 100;
  stack_mb = 64;
}

judge_tests_leaves_no_container_example :
    (judge_tests
      (driven toy_docker config [] (codes "/tmp") toy_uuid noon names_of)
      python
      (codes "print(4)")
      (record { input = []; expected = codes "4"; public = true; id = none } ∷ [])
      1000
      64
      exact_checker
      judge_config
      true
      false
      idle).1.host
    ≡ codes "sjx-z" ∷ []
judge_tests_leaves_no_container_example =
    judge_tests_leaves_no_container toy_docker config [] (codes "/tmp") toy_uuid noon names_of
      toy_IsDocker python (codes "print(4)")
      (record { input = []; expected = codes "4"; public = true; id = none } ∷ []) 1000 64
      exact_checker judge_config true false idle refl
