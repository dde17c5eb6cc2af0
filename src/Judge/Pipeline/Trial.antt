-- ===== src/Judge/Pipeline/Trial.antt =====
-- What `judge_submission` (apps/judge/sahujudge/pipeline.py) judges: a submission's own problem, its
-- language, the checker of the problem, all of the problem's tests.

use mathlib.Core.Option
use mathlib.Core.List.Perm
use sahucodex.Prelude.{
  ℕ, ◌≡◌, refl, ap, ◌⊎◌, inl, inr, true, false, some, none, [], ◌∷◌, subst, ◌==◌, arith, first_of?,
  Outcome-cases, Option, Option-cases, List, map, Perm, keep_if, ◌&&◌, ==_iff, Bool, raised,
  returned,
}
use sahucodex.Prelude.Texts.{codes}
use sahucodex.Prelude.Tables.{first_of?-some}
use sahucodex.Prelude.Sorting.{sorted_by, sorted_by-perm}
use sahucodex.Judge.Failures.{Failure, Fallible, backend_error}
use sahucodex.Judge.Checkers.{Checker, get_checker}
use sahucodex.Judge.Languages.{LanguageSpec, get_language}
use sahucodex.Judge.Sandbox.{Sandbox}
use sahucodex.Judge.Engine.{JudgeTest, JudgeReport, effective_time_limit_ms}
use sahucodex.Judge.Engine.Running.{judge_tests}
use sahucodex.Api.Tables.{Submission, Database}
use sahucodex.Judge.Pipeline.{
  JudgeSettings, World, ProblemSpec, spec_of, load_problem, load_tests, started, claim,
  judge_test_of, case_before,
}
use sahucodex.Judge.Pipeline.Closing.{prepare, judge_claimed}

-- The submission's problem, as far as the judge reads it.
abbrev pub problem_of : Submission → Database → Option ProblemSpec
problem_of row db = Option.map spec_of (first_of? (λ p. p.id == row.problem_id) db.problems)

-- All the tests of the submission's problem, public and hidden.
abbrev pub tests_of : Submission → Database → List JudgeTest
tests_of row db =
    map judge_test_of (keep_if (λ t. t.problem_id == row.problem_id) db.problem_test_cases)

problem_of-id :
    (row : Submission) (db : Database) (problem : ProblemSpec)
    → problem_of row db ≡ some problem
    → problem.id ≡ row.problem_id
problem_of-id row db problem h =
    elim (Option-cases (first_of? (λ p. p.id == row.problem_id) db.problems)) [
      | inl gone ↦ absurd (cc (ap (Option.map spec_of) gone, h))
      | inr (p, found) ↦
          let same : spec_of p ≡ problem = cc (ap (Option.map spec_of) found, h) in
          let hit = first_of?-some (λ p. p.id == row.problem_id) db.problems p found in
          subst (λ x. x.id ≡ row.problem_id) same (ground (arith, hit, ==_iff p.id row.problem_id))
    ]

keep_if-and_true {ℓ} :
    {A : Type ℓ} (p : A → Bool) (xs : List A) → keep_if (λ x. p x && true) xs ≡ keep_if p xs
keep_if-and_true p [] = refl
keep_if-and_true p (x ∷ xs) = ground (arith, keep_if-and_true p xs)

load_tests-Perm :
    (row : Submission) (db : Database) (problem_id : ℕ)
    → problem_id ≡ row.problem_id
    → Perm (load_tests db problem_id false) (tests_of row db)
unfolding load_tests
load_tests-Perm row db problem_id same = rw same (
    subst
      (λ rows.
        Perm
          (map judge_test_of (
            sorted_by case_before
              (keep_if (λ t. t.problem_id == row.problem_id && true) db.problem_test_cases)))
          (map judge_test_of rows))
      (keep_if-and_true (λ t. t.problem_id == row.problem_id) db.problem_test_cases)
      (Perm.map judge_test_of (
        sorted_by-perm case_before
          (keep_if (λ t. t.problem_id == row.problem_id && true) db.problem_test_cases))))

module _ (settings : JudgeSettings) where
  -- What the judge looks up is the submission's own.
  pub record IsPrepared (row : Submission) (db : Database) (problem : ProblemSpec)
      (language : LanguageSpec) (checker : Checker) : Type 0 where
    pub its_problem : problem_of row db ≡ some problem
    pub its_id : problem.id ≡ row.problem_id
    pub its_tests : Perm (load_tests db problem.id false) (tests_of row db)
    pub its_language : get_language row.language_key ≡ returned language
    pub its_checker : get_checker settings.checkers problem.checker ≡ returned checker

  -- Something that the judge looks up is missing.
  abbrev pub IsUnprepared : Submission → Database → Type 0
  IsUnprepared row db =
      (problem_of row db ≡ none)
      ⊎ ((e : Failure) × (get_language row.language_key ≡ raised e))
      ⊎ ((problem : ProblemSpec) × (problem_of row db ≡ some problem)
          × (e : Failure) × (get_checker settings.checkers problem.checker ≡ raised e))

  prepare-cases :
      (row : Submission) (db : Database)
      → ((e : Failure) × (prepare settings db row ≡ raised e) × IsUnprepared row db)
        ⊎ ((problem : ProblemSpec) × (language : LanguageSpec) × (checker : Checker) × (prepare
                settings db row
              ≡ returned (problem, language, checker))
            × IsPrepared row db problem language checker)
  unfolding prepare load_problem
  prepare-cases row db = elim (Option-cases (problem_of row db)) [
    | inl gone ↦ inl (backend_error (codes "NoResultFound"), rw (gone, prepare) refl, inl gone)
    | inr (problem, found) ↦ elim (Outcome-cases (get_language row.language_key)) [
      | inl (e, h) ↦ inl (e, rw (found, prepare) (rw (h, prepare) refl), inr (inl (e, h)))
      | inr (language, h) ↦ elim (Outcome-cases (get_checker settings.checkers problem.checker)) [
        | inl (e, k) ↦ inl (
          e,
          rw (found, prepare) (rw (h, prepare) (rw (k, prepare) refl)),
          inr (inr (problem, found, e, k)),
        )
        | inr (checker, k) ↦ inr (
          problem,
          language,
          checker,
          rw (found, prepare) (rw (h, prepare) (rw (k, prepare) refl)),
          record {
            its_problem = found;
            its_id = problem_of-id row db problem found;
            its_tests = load_tests-Perm row db problem.id (problem_of-id row db problem found);
            its_language = h;
            its_checker = k;
          },
        )
      ]
    ]
  ]

  module _ {S : Type 0} (sandbox : Sandbox S) where
    -- The judging of all the tests of the problem, in the state that the sandbox is in.
    abbrev pub judging :
        Submission → Database → S → ProblemSpec → LanguageSpec → Checker → Fallible JudgeReport
    judging row db s problem language checker =
        (judge_tests sandbox language row.source_code (load_tests db problem.id false)
          problem.time_limit_ms problem.memory_limit_mb checker settings.config true false s).0

    -- The submission cannot be judged: something is missing, or judging raises.
    abbrev pub IsUnjudgeable : Submission → Database → S → Type 0
    IsUnjudgeable row db s =
        IsUnprepared row db
        ⊎ ((problem : ProblemSpec) × (language : LanguageSpec) × (checker : Checker) × IsPrepared
              row db problem language checker
            × (e : Failure) × (judging row db s problem language checker ≡ raised e))

    -- The report is that of judging the submission on its problem.
    abbrev pub IsVerdictOf : Submission → Database → S → ProblemSpec → JudgeReport → Type 0
    IsVerdictOf row db s problem report =
        (language : LanguageSpec) × (checker : Checker) × IsPrepared row db problem language checker
        × (judging row db s problem language checker ≡ returned report)

    pub judge_claimed-cases :
        (row : Submission) (w : World S)
        → ((e : Failure) × ((judge_claimed sandbox settings row w).0 ≡ raised e)
            × IsUnjudgeable row w.db w.sandbox)
          ⊎ ((problem : ProblemSpec) × (limit : ℕ) × (report : JudgeReport) × ((judge_claimed
                  sandbox settings row w).0
                ≡ returned (problem, limit, report))
              × IsVerdictOf row w.db w.sandbox problem report)
    unfolding judge_claimed
    judge_claimed-cases row w = elim (prepare-cases row w.db) [
      | inl (e, h, missing) ↦ inl (e, rw (h, judge_claimed) refl, inl missing)
      | inr (problem, language, checker, h, prepared) ↦
          elim (Outcome-cases (judging row w.db w.sandbox problem language checker)) [
            | inl (e, k) ↦ inl (
              e,
              rw (h, judge_claimed) (rw (k, judge_claimed) refl),
              inr (problem, language, checker, prepared, e, k),
            )
            | inr (report, k) ↦ inr (
              problem,
              effective_time_limit_ms problem.time_limit_ms language,
              report,
              rw (h, judge_claimed) (rw (k, judge_claimed) refl),
              (language, checker, prepared, k),
            )
          ]
    ]

    -- Claiming a submission changes nothing that judging it reads.
    claim-IsPrepared :
        (row : Submission) (submission_id now : ℕ) (db : Database) (problem : ProblemSpec)
        (language : LanguageSpec) (checker : Checker)
        → IsPrepared (started now row) (claim submission_id now db).1 problem language checker
        → IsPrepared row db problem language checker
    unfolding claim load_tests
    claim-IsPrepared row submission_id now db problem language checker p = record {
      its_problem = p.its_problem;
      its_id = p.its_id;
      its_tests = p.its_tests;
      its_language = p.its_language;
      its_checker = p.its_checker;
    }

    pub claim-IsUnjudgeable :
        (row : Submission) (submission_id now : ℕ) (db : Database) (s : S)
        → IsUnjudgeable (started now row) (claim submission_id now db).1 s
        → IsUnjudgeable row db s
    unfolding claim load_tests
    claim-IsUnjudgeable row submission_id now db s (inl missing) = inl missing
    claim-IsUnjudgeable row submission_id now db s (inr (problem, language, checker, p, e, k)) =
        inr (
          problem,
          language,
          checker,
          claim-IsPrepared row submission_id now db problem language checker p,
          e,
          k,
        )

    pub claim-IsVerdictOf :
        (row : Submission) (submission_id now : ℕ) (db : Database) (s : S) (problem : ProblemSpec)
        (report : JudgeReport)
        → IsVerdictOf (started now row) (claim submission_id now db).1 s problem report
        → IsVerdictOf row db s problem report
    unfolding claim load_tests
    claim-IsVerdictOf row submission_id now db s problem report (language, checker, p, k) =
        (language, checker, claim-IsPrepared row submission_id now db problem language checker p, k)
