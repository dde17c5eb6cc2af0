-- ===== src/Judge/Pipeline/Closing.antt =====
-- `_persist`, `_fail` and `judge_submission` of apps/judge/sahujudge/pipeline.py.

use sahucodex.Prelude.{
  ℕ, true, false, List, [], ◌∷◌, ◌++◌, map, none, some, ◌==◌, if◌then◌else◌, keep_if, any_of,
  first_of?, returned, raised, ◌>>=◌,
}
use sahucodex.Prelude.Texts.{Text, codes, eq_text}
use sahucodex.Prelude.Tables.{update_where, delete_where}
use sahucodex.Judge.Failures.{Fallible, backend_error}
use sahucodex.Judge.Checkers.{Checker, get_checker}
use sahucodex.Judge.Languages.{LanguageSpec, get_language}
use sahucodex.Judge.Sandbox.{Sandbox}
use sahucodex.Judge.Engine.{
  Verdict, system_error, JudgeReport, is_accepted, effective_time_limit_ms,
}
use sahucodex.Judge.Engine.Running.{judge_tests}
use sahucodex.Api.Tables.{
  Database, Submission, failed, UserProblemProgress, UserStreak, Achievement,
}
use sahucodex.Api.Profiles.{record_streak, evaluate_achievements}
use sahucodex.Judge.Pipeline.{
  JudgeSettings, ProblemSpec, Event, submission_running, submission_completed, submission_failed,
  achievement_earned, World, load_problem, load_tests, is_submission, claim, record_progress,
  result_row, test_result_row, judged, counted,
}

-- What other workers commit between two statements of the transaction.
pub record Meanwhile : Type 0 where
  pub progress : List UserProblemProgress → List UserProblemProgress
  pub streaks : List UserStreak → List UserStreak

-- `Achievement.key.in_(newly_earned)`
unfoldable pub details_of : List Text → List Achievement → List Achievement
details_of keys = keep_if (λ achievement. any_of (eq_text achievement.key) keys)

-- What the transaction writes down for the owner `user_id`, the achievements left out.
unfoldable pub written :
    JudgeSettings → Meanwhile → ℕ → ℕ → ProblemSpec → ℕ → JudgeReport → ℕ → Database → Database
written settings meanwhile submission_id user_id problem effective_limit_ms report now db =
    let accepted = is_accepted report.verdict in
    record db {
      submissions = update_where (is_submission submission_id) (judged report now) db.submissions;
      submission_results =
          db.submission_results
          ++ result_row settings submission_id problem effective_limit_ms report ∷ [];
      submission_test_results =
          db.submission_test_results ++ map (test_result_row submission_id) report.outcomes;
      problems = update_where (λ p. p.id == problem.id) (counted report.verdict) db.problems;
      progress = record_progress meanwhile.progress user_id problem.id accepted now db.progress;
      streaks =
          if accepted
          then record_streak meanwhile.streaks user_id (settings.day_of now) db.streaks
          else db.streaks;
    }

-- The transaction of `_persist`; a failed assertion rolls it back.
unfoldable pub persist :
    JudgeSettings
    → Meanwhile
    → ℕ
    → ProblemSpec
    → ℕ
    → JudgeReport
    → ℕ
    → Database
    → Fallible (List Achievement) × Database
unfolding written details_of
persist settings meanwhile submission_id problem effective_limit_ms report now db =
    elim (first_of? (is_submission submission_id) db.submissions) [
      | none ↦ (raised (backend_error (codes "AssertionError")), db)
      | some row ↦
          let (newly_earned, db') = evaluate_achievements row.user_id now (
            written settings meanwhile submission_id row.user_id problem effective_limit_ms report
              now db) in
          (returned (details_of newly_earned db'.achievements), db')
    ]

abbrev pub closed_as_failed : ℕ → Submission → Submission
closed_as_failed now row = record row {
  status = failed;
  verdict = some system_error;
  finished_at = some now;
}

module _ {S : Type 0} where
  -- Best effort: nothing is published while Redis is down, and nothing is raised.
  unfoldable pub publish : Event → World S → World S
  publish event w = if w.redis_up then record w { events = w.events ++ event ∷ [] } else w

  unfoldable pub publish_earned : ℕ → List Achievement → World S → World S
  unfolding publish
  publish_earned user_id [] w = w
  publish_earned user_id (a ∷ rest) w =
      publish_earned user_id rest (publish (achievement_earned user_id a) w)

  -- `Cache.delete` fails soft.
  unfoldable pub forget_cached : Text → World S → World S
  forget_cached slug w =
      if w.redis_up then record w { cached = delete_where (eq_text slug) w.cached } else w

  -- `_fail`: the status is set whatever it was.
  unfoldable pub fail : ℕ → ℕ → Text → ℕ → World S → World S
  unfolding publish
  fail submission_id user_id reason now w =
      publish (submission_failed user_id submission_id reason) (record w {
        db = record w.db {
          submissions =
              update_where (is_submission submission_id) (closed_as_failed now) w.db.submissions;
        };
      })

pub data Handled : Type 0 where
  skipped judge_failed : Handled
  judged_as : Verdict → Handled

-- What the body of the `try` looks up before it judges.
unfoldable pub prepare :
    JudgeSettings → Database → Submission → Fallible (ProblemSpec × LanguageSpec × Checker)
unfolding load_problem
prepare settings db submission = load_problem db submission.problem_id >>= (λ problem.
    get_language submission.language_key >>= (λ language.
      get_checker settings.checkers problem.checker
      >>= (λ checker. returned (problem, language, checker))))

module _ {S : Type 0} (sandbox : Sandbox S) (settings : JudgeSettings) where
  -- The body of the `try` up to `_persist`: what is read, and the judging.
  unfoldable pub judge_claimed :
      Submission → World S → Fallible (ProblemSpec × ℕ × JudgeReport) × World S
  unfolding prepare load_tests
  judge_claimed submission w = elim (prepare settings w.db submission) [
    | raised e ↦ (raised e, w)
    | returned (problem, language, checker) ↦
        let (outcome, sandbox') =
          judge_tests sandbox language submission.source_code (load_tests w.db problem.id false)
            problem.time_limit_ms problem.memory_limit_mb checker settings.config true false
            w.sandbox in
        let w' : World S = record w { sandbox = sandbox' } in
        (
          outcome >>= (λ report.
              returned (problem, effective_time_limit_ms problem.time_limit_ms language, report)),
          w',
        )
  ]

  -- The body of the `try`: judge, then write everything down in one transaction.
  unfoldable pub judge_and_persist :
      Meanwhile → Submission → ℕ → World S → Fallible (JudgeReport × List Achievement) × World S
  unfolding judge_claimed persist forget_cached
  judge_and_persist meanwhile submission now w =
      let (judging, w') = judge_claimed submission w in
      elim judging [
        | raised e ↦ (raised e, w')
        | returned (problem, limit, report) ↦
            let (earned, db') =
              persist settings meanwhile submission.id problem limit report now w'.db in
            elim earned [
              | raised e ↦ (raised e, w')
              | returned details ↦
                  (returned (report, details), forget_cached problem.slug (record w' { db = db' }))
            ]
      ]

  -- `judge_submission`, claimed at `now` and closed at `later`.
  unfoldable pub judge_submission : Meanwhile → ℕ → ℕ → ℕ → World S → Fallible Handled × World S
  unfolding claim judge_and_persist publish publish_earned fail
  judge_submission meanwhile submission_id now later w =
      let (claimed, db') = claim submission_id now w.db in
      let w' : World S = record w { db = db' } in
      elim claimed [
        | false ↦ (returned skipped, w')
        | true ↦ elim (first_of? (is_submission submission_id) db'.submissions) [
          | none ↦ (raised (backend_error (codes "AssertionError")), w')
          | some submission ↦
              let announced = publish (submission_running submission.user_id submission_id) w' in
              let (outcome, w'') = judge_and_persist meanwhile submission later announced in
              elim outcome [
                | raised e ↦ (
                  returned judge_failed,
                  fail submission_id submission.user_id
                      (codes "The judge could not complete this submission.") later w'',
                )
                | returned (report, earned) ↦ (
                  returned (judged_as report.verdict),
                  publish_earned submission.user_id earned
                      (publish (submission_completed submission.user_id submission_id report) w''),
                )
              ]
        ]
      ]
