-- ===== src/Judge/Docker/Replies.antt =====
-- The driver (apps/judge/sahujudge/docker_sandbox.py) reads the reply that the supervisor
-- (apps/judge/sahujudge/supervisor.py) writes.
use sahucodex.Prelude.{
  ℕ, ◌+◌, ◌≡◌, ◌≢◌, refl, ap₂, ◌∙◌, true, List, [], ◌∷◌, ◌++◌, Option, none, some, length, take,
  drop, ◌==◌, arith, All, returned,
}
use sahucodex.Prelude.Int.{pos}
use sahucodex.Prelude.Texts.{Text, codes}
use sahucodex.Prelude.Decimals.{decimal}
use sahucodex.Utf8.{IsAscii, decode_surrogatepass_ascii}
use sahucodex.Json.{
  Json, null, integer, string, object, Members, no_members, member, word_value, read, step,
  read_value, wants_value, after_member, loads,
}
use sahucodex.Json.Numbers.{word_value-decimal, decimal-AreDigits}
use sahucodex.Json.Spelling.{
  Apart, AreLetters, are_letters-AreLetters, are_plain-ArePlain, are_line_bytes-AreLineBytes,
  are_plain, are_line_bytes, tokens-spell, digits-AreLetters, IsLineByte, digits-AreLineBytes,
  spell-AreLineBytes, AreOfLine, ArePlain,
}
use sahucodex.Judge.Sandbox.{RunStatus, exited, timeout, memory, output_limit, signaled}
use sahucodex.Judge.Supervisor.{RunArgs, Observation, Ending, Header, cmd_run}
use sahucodex.Judge.Supervisor.Caps.{written, stdout_of, stderr_of}
use sahucodex.Judge.Supervisor.Verdicts.{cmd_run-splits}
use sahucodex.Judge.Supervisor.Replies.{
  status_name, int_or_null, header_fields, field_tokens, header_tokens, build_header, cmd_run_bytes,
}
use sahucodex.Judge.Docker.{partition, read_header, Measured, parse_supervisor_output, status_named}

-- The values that the header's members have on the side of the driver.
abbrev pub json_of : Option ℕ → Json
json_of none = null
json_of (some n) = integer (pos n)

abbrev pub with_fields : List (Text × Option ℕ) → Members → Members
with_fields [] read_so_far = read_so_far
with_fields ((key, value) ∷ fields) read_so_far =
    with_fields fields (member key (json_of value) read_so_far)

abbrev pub header_members : Header → Members
header_members h =
    with_fields (header_fields h)
      (member (codes "status") (string (status_name h.status)) no_members)

abbrev pub measured_of : Header → Measured
measured_of h = record {
  status = h.status;
  cpu_ms = pos h.cpu_ms;
  wall_ms = pos h.wall_ms;
  memory_kb = pos h.memory_kb;
}

decimal-not_nil : (n : ℕ) → decimal n ≢ []
unfolding word_value
decimal-not_nil n h =
    let empty : word_value [] ≡ some (integer (pos n)) = rw h at (word_value-decimal n) in
    absurd (ground (arith, empty))

int_or_null-not_nil : (o : Option ℕ) → int_or_null o ≢ []
int_or_null-not_nil none h = absurd (ground arith)
int_or_null-not_nil (some n) h = decimal-not_nil n h

decimal-AreLetters : (n : ℕ) → AreLetters (decimal n)
decimal-AreLetters n = digits-AreLetters (decimal n) (decimal-AreDigits n)

int_or_null-AreLetters : (o : Option ℕ) → AreLetters (int_or_null o)
int_or_null-AreLetters none = are_letters-AreLetters (codes "null") refl
int_or_null-AreLetters (some n) = decimal-AreLetters n

decimal-AreLineBytes : (n : ℕ) → All IsLineByte (decimal n)
decimal-AreLineBytes n = digits-AreLineBytes (decimal n) (decimal-AreDigits n)

int_or_null-AreLineBytes : (o : Option ℕ) → All IsLineByte (int_or_null o)
int_or_null-AreLineBytes none = are_line_bytes-AreLineBytes (codes "null") refl
int_or_null-AreLineBytes (some n) = decimal-AreLineBytes n

word_value-int_or_null : (o : Option ℕ) → word_value (int_or_null o) ≡ some (json_of o)
unfolding word_value
word_value-int_or_null none = refl
word_value-int_or_null (some n) = word_value-decimal n

status_name-ArePlain : (status : RunStatus) → ArePlain (status_name status)
status_name-ArePlain exited = are_plain-ArePlain (codes "EXITED") refl
status_name-ArePlain timeout = are_plain-ArePlain (codes "TIMEOUT") refl
status_name-ArePlain memory = are_plain-ArePlain (codes "MEMORY") refl
status_name-ArePlain output_limit = are_plain-ArePlain (codes "OUTPUT_LIMIT") refl
status_name-ArePlain signaled = are_plain-ArePlain (codes "SIGNALED") refl

status_name-AreLineBytes : (status : RunStatus) → All IsLineByte (status_name status)
status_name-AreLineBytes exited = are_line_bytes-AreLineBytes (codes "EXITED") refl
status_name-AreLineBytes timeout = are_line_bytes-AreLineBytes (codes "TIMEOUT") refl
status_name-AreLineBytes memory = are_line_bytes-AreLineBytes (codes "MEMORY") refl
status_name-AreLineBytes output_limit = are_line_bytes-AreLineBytes (codes "OUTPUT_LIMIT") refl
status_name-AreLineBytes signaled = are_line_bytes-AreLineBytes (codes "SIGNALED") refl

abbrev ArePlainFields : List (Text × Option ℕ) → Type 0
ArePlainFields fields =
    All (λ field. (are_plain field.0 ≡ true) × (are_line_bytes field.0 ≡ true)) fields

fields-Apart :
    (fields : List (Text × Option ℕ)) → ArePlainFields fields → Apart (field_tokens fields)
fields-Apart [] h = tt
fields-Apart ((key, value) ∷ []) ((p, l), h) =
    (are_plain-ArePlain key p, (int_or_null-not_nil value, int_or_null-AreLetters value, tt))
fields-Apart ((key, value) ∷ next ∷ fields) ((p, l), h) = (
  are_plain-ArePlain key p,
  (int_or_null-not_nil value, int_or_null-AreLetters value, fields-Apart (next ∷ fields) h),
)

fields-AreOfLine :
    (fields : List (Text × Option ℕ)) → ArePlainFields fields → AreOfLine (field_tokens fields)
fields-AreOfLine [] h = tt
fields-AreOfLine ((key, value) ∷ fields) ((p, l), h) =
    (are_line_bytes-AreLineBytes key l, (int_or_null-AreLineBytes value, fields-AreOfLine fields h))

header_fields-ArePlain : (h : Header) → ArePlainFields (header_fields h)
header_fields-ArePlain h = (
  (refl, refl),
  (
    (refl, refl),
    ((refl, refl), ((refl, refl), ((refl, refl), ((refl, refl), ((refl, refl), tt))))),
  ),
)

header-Apart : (h : Header) → Apart (header_tokens h)
header-Apart h = (
  are_plain-ArePlain (codes "status") refl,
  (status_name-ArePlain h.status, fields-Apart (header_fields h) (header_fields-ArePlain h)),
)

header-AreOfLine : (h : Header) → AreOfLine (header_tokens h)
header-AreOfLine h = (
  are_line_bytes-AreLineBytes (codes "status") refl,
  (
    status_name-AreLineBytes h.status,
    fields-AreOfLine (header_fields h) (header_fields-ArePlain h),
  ),
)

read_fields :
    (fields : List (Text × Option ℕ)) (so_far : Members)
    → read (after_member so_far []) (field_tokens fields)
      ≡ some (object (with_fields fields so_far))
unfolding read step read_value
read_fields [] so_far = refl
read_fields ((key, value) ∷ fields) so_far =
    rw (word_value-int_or_null value, read, step, read_value)
      (read_fields fields (member key (json_of value) so_far))

read_tokens :
    (h : Header) → read (wants_value []) (header_tokens h) ≡ some (object (header_members h))
unfolding read step read_value
read_tokens h =
    read_fields (header_fields h)
      (member (codes "status") (string (status_name h.status)) no_members)

partition-line :
    (line body : List ℕ)
    → All IsLineByte line
    → partition 10 (line ++ 10 ∷ body) ≡ some (line, body)
unfolding partition
partition-line [] body h = refl
partition-line (c ∷ line) body ((small, other), h) =
    rw (other, partition) (rw (partition-line line body h) refl)

line-IsAscii : (line : List ℕ) → All IsLineByte line → IsAscii line
line-IsAscii [] h = tt
line-IsAscii (c ∷ line) ((small, other), h) = (small, line-IsAscii line h)

status_named_status : (status : RunStatus) → status_named (status_name status) ≡ some status
status_named_status exited = refl
status_named_status timeout = refl
status_named_status memory = refl
status_named_status output_limit = refl
status_named_status signaled = refl

build_header-bytes : (h : Header) → All IsLineByte (build_header h)
unfolding build_header
build_header-bytes h = spell-AreLineBytes (header_tokens h) (header-AreOfLine h)

loads-build_header : (h : Header) → loads (build_header h) ≡ some (object (header_members h))
unfolding loads build_header
loads-build_header h = rw (tokens-spell (header_tokens h) (header-Apart h)) (read_tokens h)

read_header-build_header : (h : Header) → read_header (build_header h) ≡ some (header_members h)
unfolding read_header loads
read_header-build_header h =
    let decodes =
      decode_surrogatepass_ascii (build_header h)
        (line-IsAscii (build_header h) (build_header-bytes h)) in
    rw (decodes, read_header) (rw (loads-build_header h) refl)

-- The reply of a run is read as its header and the two parts of its body.
pub parse_supervisor_output-build_header :
    (h : Header) (body : List ℕ)
    → h.stdout_len + h.stderr_len ≡ length body
    → parse_supervisor_output (build_header h ++ 10 ∷ body)
      ≡ returned (header_members h, measured_of h, take h.stdout_len body, drop h.stdout_len body)
unfolding parse_supervisor_output
parse_supervisor_output-build_header h body adds_up =
    let same : (h.stdout_len + h.stderr_len == length body) ≡ true = ground (arith, adds_up) in
    rw (partition-line (build_header h) body (build_header-bytes h), parse_supervisor_output)
      (rw (read_header-build_header h, parse_supervisor_output)
        (rw (same, status_named_status h.status, parse_supervisor_output) refl))

-- What the driver reads out of the reply to a run is the header that the supervisor built, the
-- beginning of the stdout of the program up to its cap, and the beginning of its stderr up to its cap.
pub parse_supervisor_output-cmd_run :
    (args : RunArgs) (observations : List Observation) (ending : Ending)
    → let header = (cmd_run args observations ending).0 in
      parse_supervisor_output (cmd_run_bytes args observations ending)
      ≡ returned (
        header_members header,
        measured_of header,
        take args.max_output (stdout_of (written observations ending)),
        take args.max_stderr (stderr_of (written observations ending)),
      )
unfolding cmd_run_bytes
parse_supervisor_output-cmd_run args observations ending =
    let (header, body) = cmd_run args observations ending in
    let (adds_up, out_cut, err_cut) = cmd_run-splits args observations ending in
    parse_supervisor_output-build_header header body adds_up
    ∙ ap₂ (λ out err. returned (header_members header, measured_of header, out, err)) out_cut
        err_cut
