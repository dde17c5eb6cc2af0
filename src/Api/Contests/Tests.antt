-- ===== src/Api/Contests/Tests.antt =====
-- Standings of a small contest, and instances of the theorems on
-- apps/api/app/modules/contests/service.py.
use sahucodex.Prelude.{
  length, ℕ, ◌*◌, ◌≡◌, refl, true, false, List, [], ◌∷◌, map, none, some, ◌==◌, keep_if, any_of,
  first_of?, Perm,
}
use sahucodex.Prelude.Texts.{codes}
use sahucodex.Prelude.Tables.{count_where}
use sahucodex.Prelude.Sorting.{IsSorted}
use sahucodex.Judge.Engine.{Verdict, accepted, wrong_answer, compilation_error}
use sahucodex.Api.Tables.{Submission, completed}
use sahucodex.Api.Contests.{
  Contest, ContestParticipant, Attempt, StandingsRow, cell_of, compute_standings_uncached,
}
use sahucodex.Api.Contests.Scoring.{until_accepted, time_of, penalty_of, cell_of_lem}
use sahucodex.Api.Contests.Ranking.{is_ahead, up_from, compute_standings_uncached_lem}

abbrev contest : Contest
contest = record {
  id = 1;
  slug = codes "autumn";
  title = codes "Autumn";
  start_time = 0;
  end_time = 7_200_000_000;
  penalty_minutes = 20;
  published = true;
  problems = record { contest_id = 1; problem_id = 5; label = codes "A"; points = 100 } ∷ [];
}

abbrev by : ℕ → ℕ → Verdict → Submission
by user_id minute verdict = record {
  id = minute;
  user_id = user_id;
  problem_id = 5;
  language_key = codes "python";
  source_code = [];
  contest_id = some 1;
  status = completed;
  verdict = some verdict;
  runtime_ms = none;
  memory_kb = none;
  passed_count = 0;
  total_count = 1;
  created_at = minute * 60_000_000;
  started_at = none;
  finished_at = none;
}

abbrev submissions : List Submission
submissions =
    by 8 10 accepted ∷ by 7 3 wrong_answer ∷ by 7 2 compilation_error ∷ by 7 4 accepted ∷ []

abbrev participants : List ContestParticipant
participants =
    record { contest_id = 1; user_id = 7; username = codes "asha" }
    ∷ record { contest_id = 1; user_id = 8; username = codes "binod" }
    ∷ []

abbrev standings : List StandingsRow
standings = compute_standings_uncached contest participants submissions

-- binod solved it at minute 10 without a wrong attempt, asha at minute 4 with one.
winner_is_binod :
    (map (λ row. row.username) standings ≡ codes "binod" ∷ codes "asha" ∷ [])
    × (map (λ row. row.total_penalty_minutes) standings ≡ 10 ∷ 24 ∷ [])
unfolding compute_standings_uncached
winner_is_binod = (refl, refl)

abbrev attempts : List Attempt
attempts =
    record { accepted = false; counts = true; created_at = 60_000_000 }
    ∷ record { accepted = true; counts = true; created_at = 180_000_000 }
    ∷ []

cell_of_lem_example :
    ((cell_of contest attempts).solved ≡ any_of (λ a. a.accepted) attempts)
    × ((cell_of contest attempts).attempts ≡ count_where (λ a. a.counts) (until_accepted attempts))
    × ((cell_of contest attempts).penalty_minutes
        ≡ penalty_of contest
            (cell_of contest attempts).attempts
            (time_of (first_of? (λ a. a.accepted) attempts)))
cell_of_lem_example = cell_of_lem contest attempts

compute_standings_uncached_lem_example :
    let rows = compute_standings_uncached contest participants submissions in
    IsSorted is_ahead rows
    × Perm
        (map (λ row. row.username) rows)
        (map (λ p. p.username) (keep_if (λ p. p.contest_id == 1) participants))
    × (map (λ row. row.rank) rows ≡ up_from 1 (length rows))
compute_standings_uncached_lem_example =
    compute_standings_uncached_lem contest participants submissions
