-- ===== src/Api/Profiles/Earned.antt =====
-- `evaluate_achievements` of apps/api/app/modules/profiles/service.py: which keys are earned.
use sahucodex.Prelude.{
  ℕ, ◌≡◌, refl, sym, ap, inl, inr, true, false, ◌&&◌, not, List, [], ◌∷◌, ◌++◌, map, Bool-cases,
  any_of, All, append_assoc, append-nil,
}
use sahucodex.Prelude.Texts.{Text}
use sahucodex.Api.Tables.{UserAchievement, Database}
use sahucodex.Api.Profiles.{
  Check, has_earned, evaluate_checks, evaluate_achievements, checks, check_first_solve,
  check_ten_solved, check_all_difficulties, check_polyglot, check_topic_explorer, check_streak_7,
  check_streak_30, check_hundred_submissions,
}

-- The keys of the checks that are met and not among the rows yet.
abbrev pub due : List UserAchievement → ℕ → List Check → Database → List Text
due already user_id [] db = []
due already user_id ((key, check) ∷ rest) db =
    elim (not (any_of (has_earned user_id key) already) && check db user_id) [
      | false ↦ due already user_id rest db
      | true ↦ key ∷ due already user_id rest db
    ]

abbrev pub earned_row : ℕ → ℕ → Text → UserAchievement
earned_row user_id now key = record { user_id = user_id; achievement_key = key; earned_at = now }

abbrev pub with_earned : Database → List UserAchievement → Database
with_earned db rows = record db { user_achievements = rows }

-- A check that does not read the earned achievements.
abbrev Ignores : Check → Type 0
Ignores c =
    (db : Database) (rows : List UserAchievement) (user_id : ℕ)
    → c.1 (with_earned db rows) user_id ≡ c.1 db user_id

checks-Ignores : All Ignores checks
unfolding checks check_first_solve check_ten_solved check_all_difficulties check_polyglot
    check_topic_explorer check_streak_7 check_streak_30 check_hundred_submissions
checks-Ignores = (
  λ db rows user_id. refl,
  (
    λ db rows user_id. refl,
    (
      λ db rows user_id. refl,
      (
        λ db rows user_id. refl,
        (
          λ db rows user_id. refl,
          (λ db rows user_id. refl, (λ db rows user_id. refl, (λ db rows user_id. refl, tt))),
        ),
      ),
    ),
  ),
)

due-with_earned :
    (already rows : List UserAchievement) (user_id : ℕ) (cs : List Check) (db : Database)
    → All Ignores cs
    → due already user_id cs (with_earned db rows) ≡ due already user_id cs db
due-with_earned already rows user_id [] db h = refl
due-with_earned already rows user_id ((key, check) ∷ rest) db h =
    let later = due-with_earned already rows user_id rest db h.1 in
    rw (h.0 db rows user_id, due)
      (elim (Bool-cases (not (any_of (has_earned user_id key) already) && check db user_id)) [
        | inl met ↦ rw (met, due) (ap (◌∷◌ key) later)
        | inr unmet ↦ rw (unmet, due) later
      ])

evaluate_checks_lem :
    (already : List UserAchievement) (user_id now : ℕ) (cs : List Check) (db : Database)
    → All Ignores cs
    → evaluate_checks already user_id now cs db ≡ (
      due already user_id cs db,
      with_earned db
          (db.user_achievements ++ map (earned_row user_id now) (due already user_id cs db)),
    )
unfolding evaluate_checks
evaluate_checks_lem already user_id now [] db h =
    ap (λ rows. ([], with_earned db rows)) (sym (append-nil db.user_achievements))
evaluate_checks_lem already user_id now ((key, check) ∷ rest) db h =
    elim (Bool-cases (not (any_of (has_earned user_id key) already) && check db user_id)) [
      | inr unmet ↦
          rw (unmet, evaluate_checks, due) (evaluate_checks_lem already user_id now rest db h.1)
      | inl met ↦
          let row = earned_row user_id now key in
          let staged = with_earned db (db.user_achievements ++ row ∷ []) in
          rw (met, evaluate_checks, due)
            (rw (evaluate_checks_lem already user_id now rest staged h.1) (
              rw (due-with_earned already (db.user_achievements ++ row ∷ []) user_id rest db h.1) (
                ap (λ rows. (key ∷ due already user_id rest db, with_earned db rows))
                  (append_assoc db.user_achievements (row ∷ [])
                    (map (earned_row user_id now) (due already user_id rest db))))))
    ]

-- A judged submission earns exactly the achievements whose check holds and that the user has not
-- earned before, in the order of the table of checks; one row each is appended, nothing else changes.
pub evaluate_achievements_lem :
    (user_id now : ℕ) (db : Database)
    → evaluate_achievements user_id now db ≡ (
      due db.user_achievements user_id checks db,
      with_earned db (
          db.user_achievements
          ++ map (earned_row user_id now) (due db.user_achievements user_id checks db)),
    )
unfolding evaluate_achievements
evaluate_achievements_lem user_id now db =
    evaluate_checks_lem db.user_achievements user_id now checks db checks-Ignores
