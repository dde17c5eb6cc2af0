-- ===== src/Api/Contests/Entering.antt =====
-- Who may submit to a contest: apps/api/app/modules/contests/service.py, with resolve_language of
-- apps/api/app/modules/submissions/service.py. A failed assertion is the error problem_is_gone.
mod Registered
mod Tests
use sahucodex.Prelude.{
  ℕ, Bool, true, false, ◌&&◌, List, [], ◌∷◌, ◌++◌, Option, none, some, ltb, ◌==◌, if◌then◌else◌,
  first_of?, any_of, Outcome, returned, raised, ◌>>=◌,
}
use sahucodex.Prelude.Texts.{Text, eq_text}
use sahucodex.Api.Tables.{Problem}
use sahucodex.Api.Contests.{
  Contest, ContestProblem, ContestParticipant, ContestPhase, upcoming, running, ended, phase,
}

pub record ProgrammingLanguage : Type 0 where
  pub key : Text
  pub is_enabled : Bool

pub record Entrant : Type 0 where
  pub id : ℕ
  pub username : Text

-- The tables that are only read.
pub record Catalog : Type 0 where
  pub contests : List Contest
  pub problems : List Problem
  pub programming_languages : List ProgrammingLanguage

pub data ContestError : Type 0 where
  -- 404
  contest_not_found contest_problem_not_found : ContestError
  -- 409
  contest_ended : ContestError
  -- 403
  not_registered : ContestError
  -- 422
  unknown_language language_disabled : ContestError
  problem_is_gone : ContestError

unfoldable pub get_contest : Catalog → Text → Outcome ContestError Contest
get_contest catalog slug =
    elim (first_of? (λ c. eq_text c.slug slug && c.published) catalog.contests) [
      | none ↦ raised contest_not_found
      | some contest ↦ returned contest
    ]

abbrev pub is_participation : ℕ → ℕ → ContestParticipant → Bool
is_participation contest_id user_id row = row.contest_id == contest_id && row.user_id == user_id

-- The user of a request that is signed in.
unfoldable pub is_registered : ℕ → ℕ → List ContestParticipant → Bool
is_registered contest_id user_id rows = any_of (is_participation contest_id user_id) rows

abbrev pub participation : Contest → Entrant → ContestParticipant
participation contest user = record {
  contest_id = contest.id;
  user_id = user.id;
  username = user.username;
}

unfoldable pub register :
    Catalog
    → Text
    → Entrant
    → ℕ
    → List ContestParticipant
    → Outcome ContestError Unit × List ContestParticipant
register catalog slug user now rows = elim (get_contest catalog slug) [
  | raised e ↦ (raised e, rows)
  | returned contest ↦
      if ltb contest.end_time now
      then (raised contest_ended, rows)
      else if is_registered contest.id user.id rows
      then (returned tt, rows)
      else (returned tt, rows ++ participation contest user ∷ [])
]

unfoldable pub find_contest_problem : Contest → Text → Outcome ContestError ContestProblem
find_contest_problem contest label =
    elim (first_of? (λ p. eq_text p.label label) contest.problems) [
      | none ↦ raised contest_problem_not_found
      | some p ↦ returned p
    ]

unfoldable pub resolve_language : Catalog → Text → Outcome ContestError Text
resolve_language catalog key =
    elim (first_of? (λ l. eq_text l.key key) catalog.programming_languages) [
      | none ↦ raised unknown_language
      | some language ↦
          if language.is_enabled then returned language.key else raised language_disabled
    ]

unfoldable pub get_problem : Catalog → ℕ → Outcome ContestError Problem
get_problem catalog id = elim (first_of? (λ p. p.id == id) catalog.problems) [
  | none ↦ raised problem_is_gone
  | some problem ↦ returned problem
]

-- What follows the checks of the time and of the registration.
unfoldable pub resolve_entry :
    Catalog → Contest → Text → Text → Outcome ContestError (Contest × (Problem × Text))
resolve_entry catalog contest label language = do
  contest_problem ← find_contest_problem contest label
  problem ← get_problem catalog contest_problem.problem_id
  language_key ← resolve_language catalog language
  returned (contest, (problem, language_key))

unfoldable pub resolve_contest_submission :
    Catalog
    → Text
    → Text
    → Entrant
    → Text
    → ℕ
    → List ContestParticipant
    → Outcome ContestError (Contest × (Problem × Text))
resolve_contest_submission catalog slug label user language now rows =
    elim (get_contest catalog slug) [
      | raised e ↦ raised e
      | returned contest ↦ elim (phase contest now) [
        | upcoming ↦ raised contest_problem_not_found
        | ended ↦ raised contest_ended
        | running ↦
            if is_registered contest.id user.id rows
            then resolve_entry catalog contest label language
            else raised not_registered
      ]
    ]
