-- ===== src/Api/Contests/Scoring.antt =====
-- How attempts become a cell of the standings (apps/api/app/modules/contests/service.py).
use sahucodex.Prelude.{
  ℕ, ◌+◌, ◌-◌, ◌*◌, ◌/◌, ◌≡◌, refl, sym, ap, ◌∙◌, inl, inr, true, false, List, [], ◌∷◌, Option,
  none, some, arith, Bool-cases, Option-cases, any_of, first_of?, if◌then◌else◌,
}
use sahucodex.Prelude.Tables.{count_where}
use sahucodex.Api.Contests.{Contest, Attempt, scan, cell_of}

-- The attempts before the first accepted one.
abbrev pub until_accepted : List Attempt → List Attempt
until_accepted [] = []
until_accepted (a ∷ rest) = if a.accepted then [] else a ∷ until_accepted rest

abbrev pub time_of : Option Attempt → Option ℕ
time_of none = none
time_of (some a) = some a.created_at

-- What a first acceptance at a time is worth in minutes, the wrong attempts before it included.
abbrev pub penalty_of : Contest → ℕ → Option ℕ → ℕ
penalty_of contest wrong none = 0
penalty_of contest wrong (some at) =
    (at - contest.start_time) / 60_000_000 + wrong * contest.penalty_minutes

scan_lem :
    (wrong : ℕ) (attempts : List Attempt)
    → scan wrong attempts ≡ (
      wrong + count_where (λ a. a.counts) (until_accepted attempts),
      time_of (first_of? (λ a. a.accepted) attempts),
    )
unfolding scan
scan_lem wrong [] = ap (λ n. (n, none)) (omega arith)
scan_lem wrong (a ∷ rest) = elim (Bool-cases a.accepted) [
  | inl passed ↦ rw (passed, scan) (ap (λ n. (n, some a.created_at)) (omega arith))
  | inr failed ↦ elim (Bool-cases a.counts) [
    | inl counted ↦
        rw (failed, counted, scan)
          (scan_lem (wrong + 1) rest
            ∙ ap (λ n. (n, time_of (first_of? (λ a. a.accepted) rest))) (omega arith))
    | inr free ↦ rw (failed, free, scan) (scan_lem wrong rest)
  ]
]

until_accepted_all :
    (attempts : List Attempt)
    → first_of? (λ a. a.accepted) attempts ≡ none
    → until_accepted attempts ≡ attempts
until_accepted_all [] h = refl
until_accepted_all (a ∷ rest) h = elim (Bool-cases a.accepted) [
  | inl passed ↦ absurd (ground arith)
  | inr failed ↦ simp failed (ap (◌∷◌ a) (until_accepted_all rest (ground arith)))
]

any_of-none :
    (attempts : List Attempt)
    → first_of? (λ a. a.accepted) attempts ≡ none
    → any_of (λ a. a.accepted) attempts ≡ false
any_of-none [] h = refl
any_of-none (a ∷ rest) h = ground (arith, any_of-none rest, h)

any_of-some :
    (attempts : List Attempt) (a : Attempt)
    → first_of? (λ a. a.accepted) attempts ≡ some a
    → any_of (λ a. a.accepted) attempts ≡ true
any_of-some [] a h = absurd (ground arith)
any_of-some (b ∷ rest) a h = ground (arith, any_of-some rest a, h)

-- A problem is solved when some attempt is accepted; the attempts shown are those that count before
-- the first accepted one; the penalty is the minutes to it and the fixed penalty for each of them.
pub cell_of_lem :
    (contest : Contest) (attempts : List Attempt)
    → let cell = cell_of contest attempts in
      let first = time_of (first_of? (λ a. a.accepted) attempts) in
      (cell.solved ≡ any_of (λ a. a.accepted) attempts)
      × (cell.attempts ≡ count_where (λ a. a.counts) (until_accepted attempts))
      × (cell.penalty_minutes ≡ penalty_of contest cell.attempts first)
unfolding cell_of
cell_of_lem contest attempts = elim (Option-cases (first_of? (λ a. a.accepted) attempts)) [
  | inl unsolved ↦
      rw (scan_lem 0 attempts, unsolved)
        (
          sym (any_of-none attempts unsolved),
          ap (count_where (λ a. a.counts)) (sym (until_accepted_all attempts unsolved)),
          refl,
        )
  | inr (a, found) ↦
      rw (scan_lem 0 attempts, found) (sym (any_of-some attempts a found), omega arith, refl)
]
