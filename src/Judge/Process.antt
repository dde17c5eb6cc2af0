-- ===== src/Judge/Process.antt =====
-- apps/judge/sahujudge/process.py: what a finished command of the host leaves, and the capped reader.
use sahucodex.Prelude.{
  ℕ, ◌-◌, Bool, true, false, List, [], ◌∷◌, ◌++◌, Option, ltb, if◌then◌else◌, length, take,
}
use sahucodex.Prelude.Int.{ℤ}

pub record CommandResult : Type 0 where
  pub returncode : Option ℤ
  pub stdout : List ℕ
  pub stderr : List ℕ
  pub timed_out : Bool
  pub truncated : Bool

-- `_read_capped`: the buffer, and whether the stream held more than the cap. Reading stops there.
unfoldable pub read_capped : ℕ → List ℕ → List (List ℕ) → List ℕ × Bool
read_capped cap buffer [] = (buffer, false)
read_capped cap buffer (chunk ∷ chunks) =
    let room = cap - length buffer in
    let kept = buffer ++ take room chunk in
    let rest = read_capped cap kept chunks in if ltb room (length chunk) then (kept, true) else rest
