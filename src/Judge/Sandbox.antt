-- ===== src/Judge/Sandbox.antt =====
-- apps/judge/sahujudge/sandbox.py
use sahucodex.Prelude.{ℕ, Bool, Option}
use sahucodex.Prelude.Int.{ℤ}
use sahucodex.Prelude.Texts.{Text}
use sahucodex.Judge.Failures.{Fallible}
use sahucodex.Judge.Languages.{LanguageSpec}

pub data RunStatus : Type 0 where
  exited timeout memory output_limit signaled : RunStatus

pub record RunLimits : Type 0 where
  pub time_ms : ℕ
  pub wall_ms : ℕ
  pub memory_mb : ℕ
  pub max_output_bytes : ℕ
  pub max_stderr_bytes : ℕ
  pub stack_mb : ℕ
  pub nofile : ℕ

-- The measured fields come from a reply that only has to hold ints, so they are signed.
pub record RunResult : Type 0 where
  pub status : RunStatus
  pub exit_code : Option ℤ
  pub signal : Option ℤ
  pub time_ms : ℤ
  pub wall_ms : ℤ
  pub memory_kb : ℤ
  pub stdout : Text
  pub stderr : Text

pub record CompileResult : Type 0 where
  pub is_ok : Bool
  pub output : Text

-- The protocols `Sandbox` and `SandboxSession` over a state `S` of everything outside the judge.
-- `open_session` and `close_session` are the two ends of the context manager.
pub record Sandbox (S : Type 0) : Type 0 where
  pub open_session : LanguageSpec → Text → ℕ → S → Fallible Unit × S
  pub compile : S → Fallible CompileResult × S
  pub run : Text → RunLimits → S → Fallible RunResult × S
  pub close_session : S → S
