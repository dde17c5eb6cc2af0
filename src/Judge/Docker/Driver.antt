-- ===== src/Judge/Docker/Driver.antt =====
-- DockerSession and DockerSandbox of apps/judge/sahujudge/docker_sandbox.py, as an implementation of the
-- interface Judge.Sandbox.
pub mod Containers
use sahucodex.Prelude.{
  ℕ, zero, suc, ◌+◌, ◌*◌, Bool, true, false, ◌&&◌, ◌||◌, not, List, [], ◌∷◌, ◌++◌, Option, none,
  some, ltb, length, take, if◌then◌else◌, Outcome, raised, returned, raise_if, or_raise, ◌>>=◌,
  ◌>>◌,
}
use sahucodex.Prelude.Int.{ℤ, pos}
use sahucodex.Prelude.Texts.{Text, codes}
use sahucodex.Prelude.Decimals.{decimal, decimal?}
use sahucodex.Strings.{strip}
use sahucodex.Utf8.{encode, decode_replace}
use sahucodex.Json.{Json, Members, get_member}
use sahucodex.Judge.Failures.{Failure, Fallible, sandbox_error, backend_error}
use sahucodex.Judge.Languages.{LanguageSpec, source_path}
use sahucodex.Judge.Sandbox.{
  RunStatus, exited, timeout, memory, RunLimits, RunResult, CompileResult, Sandbox,
}
use sahucodex.Judge.Process.{CommandResult}
use sahucodex.Judge.Docker.{
  DockerSandboxConfig, container_memory_mb, build_run_argv, build_exec_argv, docker_env, clip,
  int_of, parse_supervisor_output, Measured,
}

pub record DockerSession : Type 0 where
  pub name : Text
  pub language : LanguageSpec
  pub container_memory : ℕ

-- The state of the daemon and of the rest of the host, how many names were drawn, and the session
-- inside the `async with`.
pub record Driver (S : Type 0) : Type 0 where
  pub host : S
  pub draws : ℕ
  pub session : Option DockerSession

abbrev pub compile_fsize_bytes : ℕ
compile_fsize_bytes = 64 * 1024 * 1024

-- `DOCKER_TIMEOUT_S` and `EXEC_SLACK_S`, in milliseconds.
abbrev pub docker_timeout_ms : ℕ
docker_timeout_ms = 30_000

abbrev pub exec_slack_ms : ℕ
exec_slack_ms = 5_000

abbrev pub is_zero_code : Option ℤ → Bool
is_zero_code (some (pos zero)) = true
is_zero_code _ = false

-- `stderr.decode("utf-8", "replace").strip()[:300]`
unfoldable pub detail_of : CommandResult → Text
unfolding strip decode_replace
detail_of result = take 300 (strip (decode_replace result.stderr))

-- `a or b` on texts.
abbrev pub or_else : Text → Text → Text
or_else [] b = b
or_else (c ∷ a) b = c ∷ a

abbrev pub env_args : List (Text × Text) → List Text
env_args [] = []
env_args ((key, value) ∷ env) = codes "--env" ∷ (key ++ codes "=" ++ value) ∷ env_args env

unfoldable pub run_args : LanguageSpec → RunLimits → ℕ → List Text → List Text
run_args language limits fsize_bytes command =
    codes "run"
    ∷ codes "--time-ms"
    ∷ decimal limits.time_ms
    ∷ codes "--wall-ms"
    ∷ decimal limits.wall_ms
    ∷ codes "--memory-mb"
    ∷ decimal limits.memory_mb
    ∷ codes "--stack-mb"
    ∷ decimal limits.stack_mb
    ∷ codes "--max-output"
    ∷ decimal limits.max_output_bytes
    ∷ codes "--max-stderr"
    ∷ decimal limits.max_stderr_bytes
    ∷ codes "--fsize-bytes"
    ∷ decimal fsize_bytes
    ∷ codes "--nofile"
    ∷ decimal limits.nofile
    ∷ (env_args language.env ++ codes "--" ∷ command)

-- `header[key] if isinstance(header[key], int) else None`, which raises where there is no such key.
abbrev pub optional_int : Members → Text → Fallible (Option ℤ)
optional_int header key =
    or_raise (get_member header key) (backend_error (codes "KeyError")) >>= λ value.
    returned (int_of (some value))

abbrev pub result_of : RunStatus → Option ℤ → Option ℤ → Measured → List ℕ → List ℕ → RunResult
unfolding decode_replace
result_of status exit_code signal measured out err = record {
  status = status;
  exit_code = exit_code;
  signal = signal;
  time_ms = measured.cpu_ms;
  wall_ms = measured.wall_ms;
  memory_kb = measured.memory_kb;
  stdout = decode_replace out;
  stderr = decode_replace err;
}

unfoldable pub read_result : List ℕ → Fallible RunResult
unfolding parse_supervisor_output result_of
read_result stdout = parse_supervisor_output stdout >>= λ (header, measured, out, err).
    optional_int header (codes "exit_code") >>= λ exit_code.
    optional_int header (codes "signal") >>= λ signal.
    returned (result_of measured.status exit_code signal measured out err)

-- What a supervisor that has ended says.
unfoldable pub supervised : CommandResult → Fallible CommandResult
unfolding detail_of
supervised result =
    raise_if (result.timed_out || result.truncated)
      (sandbox_error (codes "sandbox supervisor did not finish within its limits"))
    >> raise_if (not (is_zero_code result.returncode)) (
        sandbox_error (
          codes "docker exec failed ("
          ++ decimal? result.returncode
          ++ codes "): "
          ++ detail_of result))
    >> returned result

abbrev pub compile_limits : DockerSandboxConfig → DockerSession → RunLimits
compile_limits config session = record {
  time_ms = session.language.compile_time_ms;
  wall_ms = session.language.compile_time_ms * 2;
  memory_mb = session.container_memory;
  max_output_bytes = config.compile_output_bytes * 4;
  max_stderr_bytes = config.compile_output_bytes * 4;
  stack_mb = 64;
  nofile = session.language.compile_nofile_limit;
}

abbrev pub compiled : CompileResult
compiled = record { is_ok = true; output = [] }

abbrev pub not_compiled : Text → CompileResult
not_compiled output = record { is_ok = false; output = output }

unfoldable pub compile_report : DockerSandboxConfig → RunResult → CompileResult
unfolding strip clip
compile_report config result =
    let text =
      or_else (strip (or_else result.stderr result.stdout)) (codes "Compilation failed.") in
    let failed = not_compiled (clip text config.compile_output_bytes) in
    elim result.status [
      | exited ↦ if is_zero_code result.exit_code then compiled else failed
      | timeout ↦ not_compiled (codes "Compilation timed out.")
      | memory ↦ not_compiled (codes "The compiler ran out of memory.")
      | _ ↦ failed
    ]

-- `language.run_fsize_bytes or limits.max_output_bytes`
abbrev pub fsize_or : Option ℕ → ℕ → ℕ
fsize_or (some (suc n)) default = suc n
fsize_or _ default = default

abbrev pub command_of : Option (List Text) → List Text
command_of none = []
command_of (some command) = command

-- `run_command` runs a command line with an optional stdin, a time limit in milliseconds, a cap on its
-- output and an environment; `uuid` is the hexadecimal form of the n-th identifier that is drawn.
module _ {S : Type 0}
    (run_command : List Text
      → Option (List ℕ)
      → ℕ
      → ℕ
      → List (Text × Text)
      → S
      → Fallible CommandResult × S)
    (config : DockerSandboxConfig) (environ : List (Text × Text)) (tempdir : Text) (uuid : ℕ → Text)
    (clock : S → ℕ) where
  -- `DockerSandbox.command`
  unfoldable pub command : List Text → Option (List ℕ) → ℕ → ℕ → S → Fallible CommandResult × S
  unfolding docker_env
  command argv stdin timeout_ms max_output s =
      run_command argv stdin timeout_ms max_output (docker_env config environ tempdir) s

  unfoldable pub supervisor : Text → List Text → List ℕ → ℕ → ℕ → S → Fallible CommandResult × S
  unfolding command build_exec_argv supervised
  supervisor name args stdin timeout_ms max_output s =
      let (outcome, s') =
        command (build_exec_argv config name args) (some stdin) timeout_ms max_output s in
      (outcome >>= supervised, s')

  unfoldable pub put_source : Text → LanguageSpec → List ℕ → S → Fallible Unit × S
  unfolding supervisor source_path
  put_source name language source s =
      let args =
        codes "put"
        ∷ codes "--path"
        ∷ source_path language
        ∷ codes "--max-bytes"
        ∷ decimal config.max_source_bytes
        ∷ [] in
      let (outcome, s') = supervisor name args source docker_timeout_ms 4096 s in
      if ltb config.max_source_bytes (length source)
      then (raised (sandbox_error (codes "source exceeds the sandbox size limit")), s)
      else (outcome >>= λ result. returned tt, s')

  -- `_run`
  unfoldable pub run_in :
      DockerSession → List Text → List ℕ → RunLimits → ℕ → S → Fallible RunResult × S
  unfolding supervisor run_args read_result
  run_in session argv stdin limits fsize_bytes s =
      let cap = limits.max_output_bytes + limits.max_stderr_bytes + 4096 in
      let (outcome, s') =
        supervisor session.name (run_args session.language limits fsize_bytes argv) stdin
          (limits.wall_ms + exec_slack_ms) cap s in
      (outcome >>= λ result. read_result result.stdout, s')

  unfoldable pub compile_in : DockerSession → S → Fallible CompileResult × S
  unfolding run_in compile_report
  compile_in session s =
      let (outcome, s') =
        run_in session (command_of session.language.compile) [] (compile_limits config session)
          compile_fsize_bytes s in
      elim session.language.compile [
        | none ↦ (returned compiled, s)
        | some argv ↦ (outcome >>= λ result. returned (compile_report config result), s')
      ]

  -- `_remove`: whatever the command line says is ignored.
  unfoldable pub remove : Text → S → S
  unfolding command
  remove name s =
      (command (config.docker_bin ∷ codes "rm" ∷ codes "--force" ∷ name ∷ []) none docker_timeout_ms
        65_536 s).1

  abbrev pub container_name : ℕ → Text
  container_name n = codes "sjx-" ++ uuid n

  -- Why a container that was asked for is not there.
  unfoldable pub start_failure : CommandResult → Option Failure
  unfolding detail_of
  start_failure started =
      if not (is_zero_code started.returncode) || started.timed_out
      then some (
          sandbox_error (
            codes "could not start the sandbox container: "
            ++ or_else (detail_of started) (codes "timed out")))
      else none

  -- The container is asked for, and the source is put into it.
  unfoldable pub start : Text → LanguageSpec → Text → ℕ → S → Fallible Unit × S
  unfolding command build_run_argv put_source start_failure encode
  start name language source memory_mb s =
      let (outcome, s') =
        command (build_run_argv config name memory_mb (clock s)) none docker_timeout_ms 65_536 s in
      let put = put_source name language (encode source) s' in
      elim outcome [
        | raised e ↦ (raised e, s')
        | returned started ↦ elim (start_failure started) [ some e ↦ (raised e, s') | none ↦ put ]
      ]

  -- `session` up to its `yield`; where it raises before, the `finally` is part of it.
  unfoldable pub open_session : LanguageSpec → Text → ℕ → Driver S → Fallible Unit × Driver S
  unfolding start remove container_memory_mb
  open_session language source memory_limit_mb d =
      let name = container_name d.draws in
      let memory_mb = container_memory_mb config language memory_limit_mb in
      let (outcome, s') = start name language source memory_mb d.host in
      let session : DockerSession = record {
        name = name;
        language = language;
        container_memory = memory_mb;
      } in
      elim outcome [
        | raised e ↦
            (raised e, record { host = remove name s'; draws = d.draws + 1; session = none })
        | returned _ ↦
            (returned tt, record { host = s'; draws = d.draws + 1; session = some session })
      ]

  abbrev pub outside_session : Failure
  outside_session = backend_error (codes "no session")

  -- `DockerSession.compile` and `DockerSession.run`
  unfoldable pub compile_session : Driver S → Fallible CompileResult × Driver S
  unfolding compile_in
  compile_session d = elim d.session [
    | none ↦ (raised outside_session, d)
    | some session ↦
        let (outcome, s') = compile_in session d.host in (outcome, record d { host = s' })
  ]

  unfoldable pub run_session : Text → RunLimits → Driver S → Fallible RunResult × Driver S
  unfolding run_in encode
  run_session stdin limits d = elim d.session [
    | none ↦ (raised outside_session, d)
    | some session ↦
        let fsize_bytes = fsize_or session.language.run_fsize_bytes limits.max_output_bytes in
        let (outcome, s') =
          run_in session session.language.run (encode stdin) limits fsize_bytes d.host in
        (outcome, record d { host = s' })
  ]

  -- The `finally` of `session`.
  unfoldable pub close_session : Driver S → Driver S
  unfolding remove
  close_session d = elim d.session [
    | none ↦ d
    | some session ↦ record d { host = remove session.name d.host; session = none }
  ]

  abbrev pub docker_sandbox : Sandbox (Driver S)
  docker_sandbox = record {
    open_session = open_session;
    compile = compile_session;
    run = run_session;
    close_session = close_session;
  }
