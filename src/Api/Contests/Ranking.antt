-- ===== src/Api/Contests/Ranking.antt =====
-- The order of the standings (apps/api/app/modules/contests/service.py).
use sahucodex.Prelude.{
  length, ℕ, zero, suc, ◌+◌, ◌≡◌, refl, ap, ap₂, Bool, true, false, ◌&&◌, ◌||◌, List, [], ◌∷◌, map,
  ltb, ◌==◌, leb, arith, All, keep_if, Perm,
}
use mathlib.Core.List.Perm
use sahucodex.Prelude.Sorting.{sorted_by, sorted_by-perm, IsSorted, sorted_by-IsSorted}
use sahucodex.Api.Tables.{Submission}
use sahucodex.Prelude.Texts.{Text}
use sahucodex.Api.Contests.{
  ContestProblem, score_row, created_before, is_scored, Contest, ContestParticipant, StandingsRow,
  ranks_before, numbered, row_of, computed_rows, compute_standings_uncached,
}

-- More points, or as many points with no more penalty.
abbrev pub is_ahead : StandingsRow → StandingsRow → Bool
is_ahead a b =
    ltb b.total_points a.total_points
    || a.total_points == b.total_points && leb a.total_penalty_minutes b.total_penalty_minutes

ranks_before_total : (x y : ℕ × StandingsRow) → ranks_before x y ≡ false → ranks_before y x ≡ true
ranks_before_total (last, a) (last', b) h = ground (arith, h)

ranks_before_trans :
    (x y z : ℕ × StandingsRow)
    → ranks_before x y ≡ true
    → ranks_before y z ≡ true
    → ranks_before x z ≡ true
ranks_before_trans (l, a) (m, b) (n, c) h k = ground (arith, h, k)

ranks_before-is_ahead :
    (x y : ℕ × StandingsRow) → ranks_before x y ≡ true → is_ahead (row_of x) (row_of y) ≡ true
ranks_before-is_ahead (l, a) (m, b) h = ground (arith, h)

All-ahead :
    (x : ℕ × StandingsRow) (rank from : ℕ) (ys : List (ℕ × StandingsRow))
    → All (λ y. ranks_before x y ≡ true) ys
    → All
        (λ b. is_ahead (record (row_of x) { rank = rank }) b ≡ true)
        (numbered from (map row_of ys))
All-ahead x rank from [] h = tt
All-ahead x rank from (y ∷ ys) h =
    (ranks_before-is_ahead x y h.0, All-ahead x rank (from + 1) ys h.1)

numbered-IsSorted :
    (from : ℕ) (xs : List (ℕ × StandingsRow))
    → IsSorted ranks_before xs
    → IsSorted is_ahead (numbered from (map row_of xs))
numbered-IsSorted from [] h = tt
numbered-IsSorted from (x ∷ xs) h =
    (All-ahead x from (from + 1) xs h.0, numbered-IsSorted (from + 1) xs h.1)

-- Every row is ahead of all the rows below it, by points and then by penalty.
compute_standings_uncached-IsSorted :
    (contest : Contest) (participants : List ContestParticipant) (submissions : List Submission)
    → IsSorted is_ahead (compute_standings_uncached contest participants submissions)
unfolding compute_standings_uncached
compute_standings_uncached-IsSorted contest participants submissions =
    let rows = computed_rows contest participants submissions in
    numbered-IsSorted 1 (sorted_by ranks_before rows)
      (sorted_by-IsSorted ranks_before ranks_before_total ranks_before_trans rows)

-- 1, 2, 3 and so on from a number.
abbrev pub up_from : ℕ → ℕ → List ℕ
up_from from zero = []
up_from from (suc n) = from ∷ up_from (from + 1) n

ranks-numbered :
    (from : ℕ) (rows : List StandingsRow)
    → map (λ row. row.rank) (numbered from rows) ≡ up_from from (length (numbered from rows))
ranks-numbered from [] = refl
ranks-numbered from (r ∷ rows) = ap (◌∷◌ from) (ranks-numbered (from + 1) rows)

username-score_row :
    (contest : Contest) (submissions : List Submission) (user_id : ℕ) (username : Text)
    (cps : List ContestProblem)
    → (score_row contest submissions user_id username cps).1.username ≡ username
unfolding score_row
username-score_row contest submissions user_id username [] = refl
username-score_row contest submissions user_id username (cp ∷ cps) =
    username-score_row contest submissions user_id username cps

usernames-numbered :
    (from : ℕ) (xs : List (ℕ × StandingsRow))
    → map (λ row. row.username) (numbered from (map row_of xs)) ≡ map (λ x. x.1.username) xs
usernames-numbered from [] = refl
usernames-numbered from ((last, row) ∷ xs) =
    ap (◌∷◌ row.username) (usernames-numbered (from + 1) xs)

usernames-scored :
    (contest : Contest) (submissions : List Submission) (ps : List ContestParticipant)
    → map
        (λ x. x.1.username)
        (map (λ p. score_row contest submissions p.user_id p.username contest.problems) ps)
      ≡ map (λ p. p.username) ps
usernames-scored contest submissions [] = refl
usernames-scored contest submissions (p ∷ ps) =
    ap₂ (◌∷◌) (username-score_row contest submissions p.user_id p.username contest.problems)
      (usernames-scored contest submissions ps)

-- The rows are those of the participants of the contest, one each.
compute_standings_uncached-perm :
    (contest : Contest) (participants : List ContestParticipant) (submissions : List Submission)
    → Perm
        (map (λ row. row.username) (compute_standings_uncached contest participants submissions))
        (map (λ p. p.username) (keep_if (λ p. p.contest_id == contest.id) participants))
unfolding compute_standings_uncached computed_rows
compute_standings_uncached-perm contest participants submissions =
    let rows = computed_rows contest participants submissions in
    let scored = sorted_by created_before (keep_if (is_scored contest) submissions) in
    rw (usernames-numbered 1 (sorted_by ranks_before rows)) (
      rw⁻¹
        (usernames-scored contest scored (keep_if (λ p. p.contest_id == contest.id) participants))
        (Perm.map (λ x. x.1.username) (sorted_by-perm ranks_before rows)))

-- Every row of the standings is ahead of all the rows below it, by more points or by as many points
-- with no more penalty; the names are those of the participants of the contest, one row each; and the
-- ranks count up from 1.
pub compute_standings_uncached_lem :
    (contest : Contest) (participants : List ContestParticipant) (submissions : List Submission)
    → let rows = compute_standings_uncached contest participants submissions in
      IsSorted is_ahead rows
      × Perm
          (map (λ row. row.username) rows)
          (map (λ p. p.username) (keep_if (λ p. p.contest_id == contest.id) participants))
      × (map (λ row. row.rank) rows ≡ up_from 1 (length rows))
unfolding compute_standings_uncached
compute_standings_uncached_lem contest participants submissions = (
  compute_standings_uncached-IsSorted contest participants submissions,
  compute_standings_uncached-perm contest participants submissions,
  ranks-numbered 1
      (map row_of (sorted_by ranks_before (computed_rows contest participants submissions))),
)
