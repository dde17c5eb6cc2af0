-- ===== src/Judge/Failures.antt =====
-- The exceptions that cross the modules of the judge (apps/judge/sahujudge).
use sahucodex.Prelude.{ℕ, Outcome}
use sahucodex.Prelude.Texts.{Text}

pub data Failure : Type 0 where
  -- sandbox.SandboxError, with its message
  sandbox_error : Text → Failure
  -- checkers.UnknownCheckerError and languages.UnsupportedLanguageError, with the name
  unknown_checker unsupported_language : Text → Failure
  -- the ValueError of engine.judge_tests: the tests there are, and the limit
  too_many_tests : ℕ → ℕ → Failure
  -- whatever else a driver raises
  backend_error : Text → Failure

abbrev pub Fallible : Type 0 → Type 0
Fallible = Outcome Failure
