-- ===== src/Judge/Supervisor/Replies.antt =====
-- `build_header` of apps/judge/sahujudge/supervisor.py, and the bytes that `cmd_run` writes.
use sahucodex.Prelude.{ℕ, List, [], ◌∷◌, ◌++◌, Option, none, some}
use sahucodex.Prelude.Texts.{Text, codes}
use sahucodex.Prelude.Decimals.{decimal}
use sahucodex.Json.{Token, mark, quoted, word, open_brace, close_brace, colon, comma}
use sahucodex.Json.Spelling.{spell}
use sahucodex.Judge.Sandbox.{RunStatus, exited, timeout, memory, output_limit, signaled}
use sahucodex.Judge.Supervisor.{RunArgs, Observation, Ending, Header, cmd_run}

abbrev pub status_name : RunStatus → Text
status_name exited = codes "EXITED"
status_name timeout = codes "TIMEOUT"
status_name memory = codes "MEMORY"
status_name output_limit = codes "OUTPUT_LIMIT"
status_name signaled = codes "SIGNALED"

-- An optional int as JSON.
abbrev pub int_or_null : Option ℕ → Text
int_or_null none = codes "null"
int_or_null (some n) = decimal n

-- The members after the first, each a key and an optional int.
abbrev pub header_fields : Header → List (Text × Option ℕ)
header_fields h =
    (codes "exit_code", h.exit_code)
    ∷ (codes "signal", h.signal)
    ∷ (codes "cpu_ms", some h.cpu_ms)
    ∷ (codes "wall_ms", some h.wall_ms)
    ∷ (codes "memory_kb", some h.memory_kb)
    ∷ (codes "stdout_len", some h.stdout_len)
    ∷ (codes "stderr_len", some h.stderr_len)
    ∷ []

abbrev pub field_tokens : List (Text × Option ℕ) → List Token
field_tokens [] = mark close_brace ∷ []
field_tokens ((key, value) ∷ fields) =
    mark comma ∷ quoted key ∷ mark colon ∷ word (int_or_null value) ∷ field_tokens fields

abbrev pub header_tokens : Header → List Token
header_tokens h =
    mark open_brace
    ∷ quoted (codes "status")
    ∷ mark colon
    ∷ quoted (status_name h.status)
    ∷ field_tokens (header_fields h)

unfoldable pub build_header : Header → Text
build_header h = spell (header_tokens h)

-- What `cmd_run` writes: the header on a line of its own, and the captured bytes.
unfoldable pub cmd_run_bytes : RunArgs → List Observation → Ending → List ℕ
unfolding cmd_run build_header
cmd_run_bytes args observations ending =
    let (header, body) = cmd_run args observations ending in build_header header ++ 10 ∷ body
