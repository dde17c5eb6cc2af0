-- ===== src/Judge/Engine/Resources.antt =====
-- `judge_tests` (apps/judge/sahujudge/engine.py) leaves no sandbox open, however it ends.
use sahucodex.Prelude.{ℕ, ◌+◌, ◌≡◌, refl, ◌∙◌, Bool, List, returned, raised}
use sahucodex.Prelude.Texts.{Text}
use sahucodex.Judge.Failures.{Failure}
use sahucodex.Judge.Checkers.{Checker}
use sahucodex.Judge.Languages.{LanguageSpec}
use sahucodex.Judge.Sandbox.{RunLimits, Sandbox}
use sahucodex.Judge.Engine.{JudgeTest, JudgeConfig}
use sahucodex.Judge.Engine.Running.{judge_tests}
use sahucodex.Judge.Engine.Brackets.{IsBracketed, judge_tests-IsSame}

module _ {S : Type 0} (sandbox : Sandbox S) (live : S → ℕ) where
  -- What a sandbox documents about the number of live environments: a session that opens adds
  -- one, one that fails to open adds none, closing takes one away, and running changes nothing.
  pub record IsCounted : Type 0 where
    pub opens :
        (language : LanguageSpec) (source : Text) (memory_limit_mb : ℕ) (s : S)
        → (sandbox.open_session language source memory_limit_mb s).0 ≡ returned tt
        → live (sandbox.open_session language source memory_limit_mb s).1 ≡ live s + 1
    pub refuses :
        (language : LanguageSpec) (source : Text) (memory_limit_mb : ℕ) (s : S) (e : Failure)
        → (sandbox.open_session language source memory_limit_mb s).0 ≡ raised e
        → live (sandbox.open_session language source memory_limit_mb s).1 ≡ live s
    pub compiles : (s : S) → live (sandbox.compile s).1 ≡ live s
    pub runs :
        (stdin : Text) (limits : RunLimits) (s : S) → live (sandbox.run stdin limits s).1 ≡ live s
    pub closes : (s : S) (n : ℕ) → live s ≡ n + 1 → live (sandbox.close_session s) ≡ n

  module _ (counted : IsCounted) where
    abbrev IsOneMore : S → S → Type 0
    IsOneMore s t = live t ≡ live s + 1

    abbrev IsAsMany : S → S → Type 0
    IsAsMany s t = live t ≡ live s

    counted-IsBracketed : IsBracketed sandbox IsOneMore IsAsMany
    counted-IsBracketed = record {
      idles = λ s. refl;
      opens = counted.opens;
      refuses = counted.refuses;
      compiles = λ s t h. counted.compiles t ∙ h;
      runs = λ stdin limits s t h. counted.runs stdin limits t ∙ h;
      closes = λ s t h. counted.closes t (live s) h;
    }

    -- However judging ends - with a report, or with an exception while opening, compiling or
    -- running - as many environments are live after it as before.
    pub judge_tests_leaks_nothing :
        (language : LanguageSpec) (source : Text) (tests : List JudgeTest)
        (time_limit_ms memory_limit_mb : ℕ) (checker : Checker) (config : JudgeConfig)
        (stop capture : Bool) (s : S)
        → live
            (judge_tests sandbox language source tests time_limit_ms memory_limit_mb checker config
              stop capture s).1
          ≡ live s
    judge_tests_leaks_nothing = judge_tests-IsSame sandbox IsOneMore IsAsMany counted-IsBracketed
