-- ===== src/Judge/Docker.antt =====
-- apps/judge/sahujudge/docker_sandbox.py: the sandbox that drives one container per submission through
-- the docker command line.
pub mod Replies
pub mod Driver
mod Tests
use sahucodex.Prelude.{
  ℕ, ◌+◌, ◌==◌, Bool, true, false, ◌&&◌, not, List, [], ◌∷◌, ◌++◌, map, Option, none, some, length,
  take, drop, max, if◌then◌else◌, raised, returned, raise_if, or_raise, ◌>>=◌, ◌>>◌, leb, any_of,
  keep_if,
}
use sahucodex.Prelude.Int.{ℤ, pos, negsuc}
use sahucodex.Prelude.Texts.{Text, codes, eq_text}
use sahucodex.Prelude.Decimals.{decimal}
use sahucodex.Utf8.{decode_surrogatepass}
use sahucodex.Json.{Json, integer, boolean, string, object, Members, get_member, loads}
use sahucodex.Judge.Failures.{Failure, Fallible, sandbox_error}
use sahucodex.Judge.Languages.{LanguageSpec, workdir}
use sahucodex.Judge.Sandbox.{RunStatus, exited, timeout, memory, output_limit, signaled}
use sahucodex.Judge.Supervisor.Replies.{status_name}

-- `cpus` is the text of the float.
pub record DockerSandboxConfig : Type 0 where
  pub image : Text
  pub docker_bin : Text
  pub docker_host : Option Text
  pub runtime : Option Text
  pub pids_limit : ℕ
  pub cpus : Text
  pub tmpfs_mb : ℕ
  pub memory_slack_mb : ℕ
  pub ttl_seconds : ℕ
  pub max_source_bytes : ℕ
  pub compile_output_bytes : ℕ
  pub user_uid : ℕ
  pub init_uid : ℕ

abbrev pub supervisor_path : Text
supervisor_path = codes "/opt/sjx/supervisor.py"

abbrev pub label : Text
label = codes "sahucodex.judge"

abbrev pub label_created : Text
label_created = codes "sahucodex.judge.created"

unfoldable pub container_memory_mb : DockerSandboxConfig → LanguageSpec → ℕ → ℕ
container_memory_mb config language memory_limit_mb =
    max (memory_limit_mb + config.memory_slack_mb) language.min_container_memory_mb

-- `if config.runtime`: an empty text does not count.
abbrev pub runtime_args : Option Text → List Text
runtime_args none = []
runtime_args (some []) = []
runtime_args (some (c ∷ name)) = codes "--runtime" ∷ (c ∷ name) ∷ []

abbrev pub user_of : ℕ → Text
user_of uid = decimal uid ++ codes ":" ++ decimal uid

abbrev pub tmpfs_of : Text → Text → Text → ℕ → Text → Text
tmpfs_of path access size uid mode =
    path
    ++ codes ":rw,"
    ++ access
    ++ codes ",nosuid,nodev,size="
    ++ size
    ++ codes "m,uid="
    ++ decimal uid
    ++ codes ",gid="
    ++ decimal uid
    ++ codes ",mode="
    ++ mode

unfoldable pub build_run_argv : DockerSandboxConfig → Text → ℕ → ℕ → List Text
build_run_argv config name memory_mb created_at =
    config.docker_bin
    ∷ codes "run"
    ∷ codes "--detach"
    ∷ codes "--rm"
    ∷ codes "--name"
    ∷ name
    ∷ codes "--label"
    ∷ (label ++ codes "=1")
    ∷ codes "--label"
    ∷ (label_created ++ codes "=" ++ decimal created_at)
    ∷ codes "--network"
    ∷ codes "none"
    ∷ codes "--read-only"
    ∷ codes "--cap-drop"
    ∷ codes "ALL"
    ∷ codes "--security-opt"
    ∷ codes "no-new-privileges"
    ∷ codes "--pids-limit"
    ∷ decimal config.pids_limit
    ∷ codes "--memory"
    ∷ (decimal memory_mb ++ codes "m")
    ∷ codes "--memory-swap"
    ∷ (decimal memory_mb ++ codes "m")
    ∷ codes "--cpus"
    ∷ config.cpus
    ∷ codes "--ulimit"
    ∷ codes "nofile=256:256"
    ∷ codes "--ulimit"
    ∷ codes "core=0:0"
    ∷ codes "--user"
    ∷ user_of config.init_uid
    ∷ codes "--tmpfs"
    ∷ tmpfs_of workdir (codes "exec") (decimal config.tmpfs_mb) config.user_uid (codes "0700")
    ∷ codes "--tmpfs"
    ∷ tmpfs_of (codes "/tmp") (codes "noexec") (codes "32") config.user_uid (codes "1777")
    ∷ codes "--workdir"
    ∷ workdir
    ∷ codes "--hostname"
    ∷ codes "sandbox"
    ∷ codes "--env"
    ∷ codes "SJX_SANDBOX=1"
    ∷ codes "--init"
    ∷ codes "--log-driver"
    ∷ codes "none"
    ∷ codes "--stop-timeout"
    ∷ codes "1"
    ∷ (runtime_args config.runtime
        ++ config.image
          ∷ codes "python3"
          ∷ supervisor_path
          ∷ codes "idle"
          ∷ codes "--seconds"
          ∷ decimal config.ttl_seconds
          ∷ [])

unfoldable pub build_exec_argv : DockerSandboxConfig → Text → List Text → List Text
build_exec_argv config name supervisor_args =
    config.docker_bin
    ∷ codes "exec"
    ∷ codes "--interactive"
    ∷ codes "--user"
    ∷ user_of config.user_uid
    ∷ codes "--workdir"
    ∷ workdir
    ∷ name
    ∷ codes "python3"
    ∷ supervisor_path
    ∷ supervisor_args

abbrev pub inherited : List Text
inherited = codes "PATH" ∷ codes "SYSTEMROOT" ∷ codes "TEMP" ∷ codes "TMP" ∷ []

-- `if config.docker_host`
abbrev pub host_env : Option Text → List (Text × Text)
host_env none = []
host_env (some []) = []
host_env (some (c ∷ host)) = (codes "DOCKER_HOST", c ∷ host) ∷ []

-- The environment of the command line, out of the worker's own and the directory for temporary files.
unfoldable pub docker_env : DockerSandboxConfig → List (Text × Text) → Text → List (Text × Text)
docker_env config environ tempdir =
    keep_if (λ entry. any_of (eq_text entry.0) inherited) environ
    ++ ((codes "DOCKER_CONFIG", tempdir ++ codes "/.sahujudge-docker")
        ∷ host_env config.docker_host)

unfoldable pub clip : Text → ℕ → Text
clip text limit =
    if leb (length text) limit then text else take limit text ++ (10 ∷ codes "… (output truncated)")

-- `raw.partition(sep)` for one byte, where it finds it.
unfoldable pub partition : ℕ → List ℕ → Option (List ℕ × List ℕ)
partition sep [] = none
partition sep (b ∷ raw) =
    let rest = partition sep raw in
    if b == sep
    then some ([], raw)
    else elim rest [ none ↦ none | some (line, body) ↦ some (b ∷ line, body) ]

-- `isinstance(value, int)`, which holds of a bool, with its value.
abbrev pub int_of : Option Json → Option ℤ
int_of (some (integer n)) = some n
int_of (some (boolean true)) = some (pos 1)
int_of (some (boolean false)) = some (pos 0)
int_of _ = none

abbrev pub natural_of : Option ℤ → Option ℕ
natural_of (some (pos n)) = some n
natural_of _ = none

-- The names of `RunStatus`, which are its values as well.
abbrev pub status_named : Text → Option RunStatus
status_named name =
    if eq_text name (status_name exited)
    then some exited
    else if eq_text name (status_name timeout)
    then some timeout
    else if eq_text name (status_name memory)
    then some memory
    else if eq_text name (status_name output_limit)
    then some output_limit
    else if eq_text name (status_name signaled)
    then some signaled
    else none

abbrev pub status_of : Option Json → Option RunStatus
status_of (some (string name)) = status_named name
status_of _ = none

-- A dict out of the first line. Only UTF-8 is tried, where `json.loads` tries UTF-16 and UTF-32 too.
abbrev pub members_of : Option Json → Option Members
members_of (some (object members)) = some members
members_of _ = none

unfoldable pub read_header : List ℕ → Option Members
unfolding decode_surrogatepass loads
read_header line = elim (decode_surrogatepass line) [
  | none ↦ none
  | some text ↦ members_of (loads text)
]

abbrev pub malformed : Failure
malformed = sandbox_error (codes "sandbox supervisor returned a malformed reply")

-- The fields of the header that have to be there, read out.
pub record Measured : Type 0 where
  pub status : RunStatus
  pub cpu_ms : ℤ
  pub wall_ms : ℤ
  pub memory_kb : ℤ

unfoldable pub parse_supervisor_output : List ℕ → Fallible (Members × Measured × List ℕ × List ℕ)
unfolding partition read_header
parse_supervisor_output raw =
    or_raise (partition 10 raw) (sandbox_error (codes "sandbox supervisor returned no header"))
    >>= λ (line, body). or_raise (read_header line) malformed >>= λ header.
        or_raise (natural_of (int_of (get_member header (codes "stdout_len")))) malformed
        >>= λ out_len.
            or_raise (natural_of (int_of (get_member header (codes "stderr_len")))) malformed
            >>= λ err_len.
                or_raise (int_of (get_member header (codes "cpu_ms"))) malformed >>= λ cpu_ms.
                or_raise (int_of (get_member header (codes "wall_ms"))) malformed >>= λ wall_ms.
                or_raise (int_of (get_member header (codes "memory_kb"))) malformed >>= λ memory_kb.
                raise_if (not (out_len + err_len == length body)) malformed
                >> or_raise (status_of (get_member header (codes "status"))) malformed
                >>= λ status. returned (
                  header,
                  record {
                    status = status;
                    cpu_ms = cpu_ms;
                    wall_ms = wall_ms;
                    memory_kb = memory_kb;
                  },
                  take out_len body,
                  drop out_len body,
                )
