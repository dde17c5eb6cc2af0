-- ===== src/Judge/Supervisor.antt =====
-- apps/judge/sahujudge/supervisor.py: one program runs inside the container, watched and capped.
-- What the kernel answers is a list of observations; bytes are numbers.
pub mod Caps
pub mod Verdicts
pub mod Replies
pub mod Watching
mod Tests
use sahucodex.Prelude.{
  ℕ, ◌+◌, ◌-◌, ◌*◌, Bool, true, false, ◌&&◌, ◌||◌, not, List, [], ◌∷◌, ◌++◌, Option, none, some,
  ltb, ◌==◌, if◌then◌else◌, length, take, max,
}
use sahucodex.Prelude.Int.{ℤ, pos, negsuc}
use sahucodex.Judge.Sandbox.{RunStatus, exited, timeout, memory, output_limit, signaled}

abbrev pub sigkill : ℕ
sigkill = 9

abbrev pub sigxcpu : ℕ
sigxcpu = 24

abbrev pub sigxfsz : ℕ
sigxfsz = 25

-- `code if code >= 0 else None` and `-code if code < 0 else None`
abbrev pub exit_code_of : ℤ → Option ℕ
exit_code_of (pos n) = some n
exit_code_of (negsuc n) = none

abbrev pub signal_of : ℤ → Option ℕ
signal_of (pos n) = none
signal_of (negsuc n) = some (n + 1)

-- `sig == SIGKILL` where there may be no signal.
abbrev pub is_signal : Option ℕ → ℕ → Bool
is_signal none n = false
is_signal (some s) n = s == n

abbrev pub status_by_signal : ℕ → ℕ → ℕ → RunStatus
status_by_signal sig cpu_ms time_ms =
    if sig == sigxcpu || ltb time_ms cpu_ms
    then timeout
    else if sig == sigxfsz
    then output_limit
    else signaled

abbrev pub status_by_measures : ℕ → ℕ → ℕ → ℕ → RunStatus
status_by_measures cpu_ms memory_kb time_ms memory_limit_kb =
    if ltb time_ms cpu_ms then timeout else if ltb memory_limit_kb memory_kb then memory else exited

unfoldable pub status_of_end : Option ℕ → ℕ → ℕ → ℕ → ℕ → Bool → RunStatus
status_of_end sig cpu_ms memory_kb time_ms memory_limit_kb oom =
    if oom && is_signal sig sigkill then memory else elim sig [
      | some s ↦ status_by_signal s cpu_ms time_ms
      | none ↦ status_by_measures cpu_ms memory_kb time_ms memory_limit_kb
    ]

unfoldable pub classify :
    Option RunStatus → ℤ → ℕ → ℕ → ℕ → ℕ → Bool → RunStatus × Option ℕ × Option ℕ
unfolding status_of_end
classify killed code cpu_ms memory_kb time_ms memory_limit_kb oom =
    let exit_code = exit_code_of code in
    let sig = signal_of code in
    elim killed [
      | some status ↦ (status, exit_code, sig)
      | none ↦ (status_of_end sig cpu_ms memory_kb time_ms memory_limit_kb oom, exit_code, sig)
    ]

-- The arguments of `run` that the loop reads.
pub record RunArgs : Type 0 where
  pub time_ms : ℕ
  pub wall_ms : ℕ
  pub memory_mb : ℕ
  pub max_output : ℕ
  pub max_stderr : ℕ

-- What one `os.read` gives: some bytes of one of the two streams.
pub data Chunk : Type 0 where
  from_stdout from_stderr : List ℕ → Chunk

pub record Capture : Type 0 where
  pub out : List ℕ
  pub err : List ℕ
  pub out_over : Bool

-- The two branches of `pump`; `room` is `cap - len(buffer)`, and where that is negative the code
-- keeps nothing and sees an overrun, as the truncated difference does for a chunk that is not empty.
unfoldable pub read_chunk : RunArgs → Capture → Chunk → Capture
read_chunk args c (from_stdout bytes) =
    let room = args.max_output - length c.out in
    record c { out = c.out ++ take room bytes; out_over = c.out_over || ltb room (length bytes) }
read_chunk args c (from_stderr bytes) =
    let room = args.max_stderr - length c.err in record c { err = c.err ++ take room bytes }

unfoldable pub pump : RunArgs → Capture → List Chunk → Capture
unfolding read_chunk
pump args c [] = c
pump args c (chunk ∷ chunks) = pump args (read_chunk args c chunk) chunks

-- What one turn of the polling loop sees of a child that has not ended: the chunks that are ready,
-- the CPU time and the resident memory (absent when /proc cannot be read), the wall clock.
pub record Observation : Type 0 where
  pub chunks : List Chunk
  pub cpu_ms : Option ℕ
  pub rss_kb : Option ℕ
  pub wall_ms : ℕ

pub record Watch : Type 0 where
  pub capture : Capture
  pub peak_rss_kb : ℕ
  pub killed : Option RunStatus

abbrev pub or_zero : Option ℕ → ℕ
or_zero none = 0
or_zero (some n) = n

abbrev pub is_over : Option ℕ → ℕ → Bool
is_over none limit = false
is_over (some n) limit = ltb limit n

-- Why the loop kills the child now, if it does.
unfoldable pub kill_reason : RunArgs → Capture → Observation → Option RunStatus
kill_reason args c o =
    if c.out_over
    then some output_limit
    else if is_over o.cpu_ms args.time_ms || ltb args.wall_ms o.wall_ms
    then some timeout
    else if is_over o.rss_kb (args.memory_mb * 1024)
    then some memory
    else none

-- One turn: a child that was killed is only read from.
unfoldable pub poll : RunArgs → Watch → Observation → Watch
unfolding pump kill_reason
poll args w o =
    let c = pump args w.capture o.chunks in
    elim w.killed [
      | some reason ↦ record w { capture = c }
      | none ↦ record {
        capture = c;
        peak_rss_kb = max w.peak_rss_kb (or_zero o.rss_kb);
        killed = kill_reason args c o;
      }
    ]

unfoldable pub watch : RunArgs → Watch → List Observation → Watch
unfolding poll
watch args w [] = w
watch args w (o ∷ os) = watch args (poll args w o) os

-- How the child ended: what was left to read, its exit status and its accounting.
pub record Ending : Type 0 where
  pub last_chunks : List Chunk
  pub drained : List Chunk
  pub code : ℤ
  pub cpu_ms : ℕ
  pub wall_ms : ℕ
  pub max_rss_kb : ℕ
  pub oom : Bool

pub record Header : Type 0 where
  pub status : RunStatus
  pub exit_code : Option ℕ
  pub signal : Option ℕ
  pub cpu_ms : ℕ
  pub wall_ms : ℕ
  pub memory_kb : ℕ
  pub stdout_len : ℕ
  pub stderr_len : ℕ

abbrev pub unwatched : Watch
unwatched = record {
  capture = record { out = []; err = []; out_over = false };
  peak_rss_kb = 0;
  killed = none;
}

-- `if out_over and killed is None: killed = "OUTPUT_LIMIT"`
abbrev pub killed_at_last : Option RunStatus → Bool → Option RunStatus
killed_at_last (some reason) out_over = some reason
killed_at_last none true = some output_limit
killed_at_last none false = none

-- `cmd_run` from the first turn of the loop to the header and the bytes that follow it.
unfoldable pub cmd_run : RunArgs → List Observation → Ending → Header × List ℕ
unfolding watch pump classify
cmd_run args observations ending =
    let w = watch args unwatched observations in
    let c = pump args (pump args w.capture ending.last_chunks) ending.drained in
    let killed = killed_at_last w.killed c.out_over in
    let memory_kb = max ending.max_rss_kb w.peak_rss_kb in
    let (status, exit_code, sig) =
      classify killed ending.code ending.cpu_ms memory_kb args.time_ms (args.memory_mb * 1024)
        ending.oom in
    let header : Header = record {
      status = status;
      exit_code = exit_code;
      signal = sig;
      cpu_ms = ending.cpu_ms;
      wall_ms = ending.wall_ms;
      memory_kb = memory_kb;
      stdout_len = length c.out;
      stderr_len = length c.err;
    } in
    (header, c.out ++ c.err)
