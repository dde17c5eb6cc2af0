-- ===== src/Api/Contests.antt =====
-- apps/api/app/modules/contests: who may submit when, and the standings.
-- Times are numbers of microseconds; the standings are those that no cache holds.
pub mod Entering
pub mod Scoring
pub mod Ranking
mod Tests
use sahucodex.Prelude.{
  ℕ, ◌+◌, ◌-◌, ◌*◌, ◌/◌, Bool, true, false, ◌&&◌, ◌||◌, not, List, [], ◌∷◌, ◌++◌, map, Option, none,
  some, ltb, leb, ◌==◌, if◌then◌else◌, keep_if, first_of?, any_of, max,
}
use sahucodex.Prelude.Texts.{Text}
use sahucodex.Prelude.Sorting.{sorted_by}
use sahucodex.Prelude.Tables.{count_where}
use sahucodex.Judge.Engine.{Verdict, accepted, system_error, compilation_error}
use sahucodex.Api.Tables.{Submission, SubmissionStatus, completed, is_accepted?}

pub record ContestProblem : Type 0 where
  pub contest_id : ℕ
  pub problem_id : ℕ
  pub label : Text
  pub points : ℕ

pub record Contest : Type 0 where
  pub id : ℕ
  pub slug : Text
  pub title : Text
  pub start_time : ℕ
  pub end_time : ℕ
  pub penalty_minutes : ℕ
  pub published : Bool
  pub problems : List ContestProblem

pub record ContestParticipant : Type 0 where
  pub contest_id : ℕ
  pub user_id : ℕ
  pub username : Text

pub data ContestPhase : Type 0 where
  upcoming running ended : ContestPhase

unfoldable pub phase : Contest → ℕ → ContestPhase
phase contest now =
    if ltb now contest.start_time
    then upcoming
    else if leb now contest.end_time
    then running
    else ended

pub record Attempt : Type 0 where
  pub accepted : Bool
  pub counts : Bool
  pub created_at : ℕ

pub record StandingsCell : Type 0 where
  pub solved : Bool
  pub attempts : ℕ
  pub penalty_minutes : ℕ

pub record StandingsRow : Type 0 where
  pub rank : ℕ
  pub username : Text
  pub total_points : ℕ
  pub total_penalty_minutes : ℕ
  pub cells : List (Text × StandingsCell)

-- `verdict not in _NOT_AN_ATTEMPT`
abbrev pub is_an_attempt : Verdict → Bool
is_an_attempt system_error = false
is_an_attempt compilation_error = false
is_an_attempt _ = true

abbrev pub is_completed : SubmissionStatus → Bool
is_completed completed = true
is_completed _ = false

-- The WHERE of the query for the submissions.
abbrev pub is_scored : Contest → Submission → Bool
is_scored contest s =
    elim s.contest_id [ none ↦ false | some id ↦ id == contest.id ]
    && leb contest.start_time s.created_at
    && leb s.created_at contest.end_time

abbrev pub created_before : Submission → Submission → Bool
created_before a b = leb a.created_at b.created_at

-- The attempts of one user at one problem, in the order of the submissions.
unfoldable pub attempts_at : ℕ → ℕ → List Submission → List Attempt
attempts_at user_id problem_id [] = []
attempts_at user_id problem_id (s ∷ rest) =
    let later = attempts_at user_id problem_id rest in
    if is_completed s.status && s.user_id == user_id && s.problem_id == problem_id
    then elim s.verdict [
      | none ↦ later
      | some verdict ↦
          record {
            accepted = is_accepted? (some verdict);
            counts = is_an_attempt verdict;
            created_at = s.created_at;
          }
          ∷ later
    ]
    else later

-- The loop over the attempts, up to the first accepted one.
unfoldable pub scan : ℕ → List Attempt → ℕ × Option ℕ
scan wrong_before [] = (wrong_before, none)
scan wrong_before (a ∷ rest) =
    let later = scan (if a.counts then wrong_before + 1 else wrong_before) rest in
    if a.accepted then (wrong_before, some a.created_at) else later

-- The cell, from what the loop found and the number of attempts that count.
abbrev pub cell_with : Contest → ℕ → ℕ × Option ℕ → StandingsCell
cell_with contest total_attempts (wrong_before, some at) = record {
  solved = true;
  attempts = wrong_before;
  penalty_minutes = (at - contest.start_time) / 60_000_000 + wrong_before * contest.penalty_minutes;
}
cell_with contest total_attempts (wrong_before, none) = record {
  solved = false;
  attempts = total_attempts;
  penalty_minutes = 0;
}

unfoldable pub cell_of : Contest → List Attempt → StandingsCell
unfolding scan
cell_of contest attempts =
    cell_with contest (count_where (λ a. a.counts) attempts) (scan 0 attempts)

abbrev pub or_nothing_yet : Option ℕ → ℕ
or_nothing_yet none = 0
or_nothing_yet (some at) = at

-- The loop over the problems of the contest: the row, and when its last problem was solved.
unfoldable pub score_row :
    Contest → List Submission → ℕ → Text → List ContestProblem → ℕ × StandingsRow
unfolding attempts_at cell_of
score_row contest submissions user_id username [] = (
  0,
  record { rank = 0; username = username; total_points = 0; total_penalty_minutes = 0; cells = [] },
)
score_row contest submissions user_id username (cp ∷ cps) =
    let attempts = attempts_at user_id cp.problem_id submissions in
    let cell = cell_of contest attempts in
    let (last_accepted, row) = score_row contest submissions user_id username cps in
    (
      max (or_nothing_yet (scan 0 attempts).1) last_accepted,
      record row {
        total_points = (if cell.solved then cp.points else 0) + row.total_points;
        total_penalty_minutes = cell.penalty_minutes + row.total_penalty_minutes;
        cells = (cp.label, cell) ∷ row.cells;
      },
    )

-- `(-total_points, total_penalty_minutes, last_accepted)`, compared as tuples: the first may stay
-- before the second.
abbrev pub ranks_before : ℕ × StandingsRow → ℕ × StandingsRow → Bool
ranks_before (last, a) (last', b) =
    ltb b.total_points a.total_points
    || a.total_points == b.total_points
      && (ltb a.total_penalty_minutes b.total_penalty_minutes
          || a.total_penalty_minutes == b.total_penalty_minutes && leb last last')

abbrev pub numbered : ℕ → List StandingsRow → List StandingsRow
numbered rank [] = []
numbered rank (row ∷ rows) = record row { rank = rank } ∷ numbered (rank + 1) rows

abbrev pub row_of : ℕ × StandingsRow → StandingsRow
row_of (last, row) = row

-- The rows before they are sorted.
unfoldable pub computed_rows :
    Contest → List ContestParticipant → List Submission → List (ℕ × StandingsRow)
unfolding score_row sorted_by
computed_rows contest participants submissions =
    let scored = sorted_by created_before (keep_if (is_scored contest) submissions) in
    map (λ p. score_row contest scored p.user_id p.username contest.problems)
      (keep_if (λ p. p.contest_id == contest.id) participants)

unfoldable pub compute_standings_uncached :
    Contest → List ContestParticipant → List Submission → List StandingsRow
unfolding computed_rows sorted_by
compute_standings_uncached contest participants submissions =
    numbered 1
      (map row_of (sorted_by ranks_before (computed_rows contest participants submissions)))
