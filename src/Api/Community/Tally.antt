-- ===== src/Api/Community/Tally.antt =====
-- The score of a target is the sum of the votes on it (apps/api/app/modules/community/service.py).

use sahucodex.Prelude.{
  ℕ, ◌≡◌, refl, inl, inr, Bool, true, ◌&&◌, List, [], ◌∷◌, ◌++◌, some, ◌==◌, arith, Bool-cases,
  first_of?, if◌then◌else◌,
}
use sahucodex.Prelude.Int.{ℤ, pos, ◌+ℤ◌, ◌-ℤ◌, int_laws}
use sahucodex.Api.Community.{
  TargetType, discussion, comment, DiscussionVote, Forum, eq_target_type, target_score, is_vote_on,
  is_vote_of, change_first, delete_first,
}

-- The sum of the votes on a target.
abbrev pub tally : TargetType → ℕ → List DiscussionVote → ℤ
tally type id [] = pos 0
tally type id (v ∷ vs) =
    let rest = tally type id vs in if is_vote_on type id v then v.value +ℤ rest else rest

abbrev pub IsTallied : Forum → Type 0
IsTallied forum =
    (type : TargetType) (id : ℕ) (score : ℤ)
    → target_score type id forum ≡ some score
    → score ≡ tally type id forum.votes

pub tally-append :
    (type : TargetType) (id : ℕ) (vs : List DiscussionVote) (v : DiscussionVote)
    → tally type id (vs ++ v ∷ [])
      ≡ (if is_vote_on type id v then tally type id vs +ℤ v.value else tally type id vs)
tally-append type id [] v = elim (Bool-cases (is_vote_on type id v)) [
  | inl on ↦ rw on (omega int_laws)
  | inr off ↦ rw off refl
]
tally-append type id (w ∷ vs) v =
    let later = tally-append type id vs v in
    elim (Bool-cases (is_vote_on type id v)) [
      | inl on ↦
          let more : tally type id (vs ++ v ∷ []) ≡ tally type id vs +ℤ v.value = rw on at later in
          rw on (elim (Bool-cases (is_vote_on type id w)) [
            | inl too ↦ rw (too, more) (omega int_laws)
            | inr skip ↦ rw skip more
          ])
      | inr off ↦
          let same : tally type id (vs ++ v ∷ []) ≡ tally type id vs = rw off at later in
          rw off (elim (Bool-cases (is_vote_on type id w)) [
            | inl too ↦ rw (too, same) refl
            | inr skip ↦ rw skip same
          ])
    ]

-- Whether two targets are one.
abbrev pub is_target : TargetType → ℕ → TargetType → ℕ → Bool
is_target type id type' id' = eq_target_type type type' && id == id'

vote_target :
    (user_id : ℕ) (type type' : TargetType) (id id' : ℕ) (v : DiscussionVote)
    → is_vote_of user_id type id v ≡ true
    → is_vote_on type' id' v ≡ is_target type id type' id'
vote_target user_id discussion discussion id id' v h = ground (arith, h)
vote_target user_id discussion comment id id' v h = ground (arith, h)
vote_target user_id comment discussion id id' v h = ground (arith, h)
vote_target user_id comment comment id id' v h = ground (arith, h)

pub tally-change_first :
    (user_id : ℕ) (type type' : TargetType) (id id' : ℕ) (value : ℤ) (vs : List DiscussionVote)
    (v : DiscussionVote)
    → first_of? (is_vote_of user_id type id) vs ≡ some v
    → tally type' id' (change_first (is_vote_of user_id type id) value vs) ≡ (
        if is_target type id type' id'
        then tally type' id' vs +ℤ (value -ℤ v.value)
        else tally type' id' vs)
tally-change_first user_id type type' id id' value [] v h = absurd (ground arith)
tally-change_first user_id type type' id id' value (w ∷ vs) v h =
    elim (Bool-cases (is_vote_of user_id type id w)) [
      | inl theirs ↦
          let on = vote_target user_id type type' id id' w theirs in
          let same : w.value ≡ v.value = ground (arith, h) in
          elim (Bool-cases (is_target type id type' id')) [
            | inl hit ↦ rw (theirs, on, hit) (rw⁻¹ same (omega int_laws))
            | inr miss ↦ rw (theirs, on, miss) refl
          ]
      | inr other ↦
          let found : first_of? (is_vote_of user_id type id) vs ≡ some v = rw other at h in
          let later = tally-change_first user_id type type' id id' value vs v found in
          elim (Bool-cases (is_target type id type' id')) [
            | inl hit ↦
                let sum : tally type' id' (change_first (is_vote_of user_id type id) value vs)
                    ≡ tally type' id' vs +ℤ (value -ℤ v.value) =
                  rw hit at later in
                rw (other, hit)
                  (elim (Bool-cases (is_vote_on type' id' w)) [
                    | inl too ↦ rw (too, sum) (omega int_laws)
                    | inr skip ↦ rw (skip, sum) refl
                  ])
            | inr miss ↦
                let sum : tally type' id' (change_first (is_vote_of user_id type id) value vs)
                    ≡ tally type' id' vs =
                  rw miss at later in
                rw (other, miss)
                  (elim (Bool-cases (is_vote_on type' id' w)) [
                    | inl too ↦ rw (too, sum) refl
                    | inr skip ↦ rw (skip, sum) refl
                  ])
          ]
    ]

pub tally-delete_first :
    (user_id : ℕ) (type type' : TargetType) (id id' : ℕ) (vs : List DiscussionVote)
    (v : DiscussionVote)
    → first_of? (is_vote_of user_id type id) vs ≡ some v
    → tally type' id' (delete_first (is_vote_of user_id type id) vs)
      ≡ (if is_target type id type' id' then tally type' id' vs -ℤ v.value else tally type' id' vs)
tally-delete_first user_id type type' id id' [] v h = absurd (ground arith)
tally-delete_first user_id type type' id id' (w ∷ vs) v h =
    elim (Bool-cases (is_vote_of user_id type id w)) [
      | inl theirs ↦
          let on = vote_target user_id type type' id id' w theirs in
          let same : w.value ≡ v.value = ground (arith, h) in
          elim (Bool-cases (is_target type id type' id')) [
            | inl hit ↦ rw (theirs, on, hit) (rw⁻¹ same (omega int_laws))
            | inr miss ↦ rw (theirs, on, miss) refl
          ]
      | inr other ↦
          let found : first_of? (is_vote_of user_id type id) vs ≡ some v = rw other at h in
          let later = tally-delete_first user_id type type' id id' vs v found in
          elim (Bool-cases (is_target type id type' id')) [
            | inl hit ↦
                let sum : tally type' id' (delete_first (is_vote_of user_id type id) vs)
                    ≡ tally type' id' vs -ℤ v.value =
                  rw hit at later in
                rw (other, hit)
                  (elim (Bool-cases (is_vote_on type' id' w)) [
                    | inl too ↦ rw (too, sum) (omega int_laws)
                    | inr skip ↦ rw (skip, sum) refl
                  ])
            | inr miss ↦
                let sum : tally type' id' (delete_first (is_vote_of user_id type id) vs)
                    ≡ tally type' id' vs =
                  rw miss at later in
                rw (other, miss)
                  (elim (Bool-cases (is_vote_on type' id' w)) [
                    | inl too ↦ rw (too, sum) refl
                    | inr skip ↦ rw (skip, sum) refl
                  ])
          ]
    ]
