-- ===== src/Api/Community/Votes.antt =====
-- `cast_vote` and `remove_vote` (apps/api/app/modules/community/service.py) keep the scores right.
use mathlib.Core.Option
use sahucodex.Prelude.{
  ℕ, ◌≡◌, refl, sym, ap, ap₂, ◌∙◌, inl, inr, true, false, List, [], ◌∷◌, ◌++◌, Option, none, some,
  ◌==◌, ==_iff, arith, Bool-cases, Option-cases, first_of?, if◌then◌else◌,
}
use sahucodex.Prelude.Int.{ℤ, ◌+ℤ◌, ◌-ℤ◌}
use sahucodex.Prelude.Tables.{update_where}
use sahucodex.Api.Community.{
  TargetType, discussion, comment, Discussion, DiscussionComment, DiscussionVote, Forum,
  target_score, with_score, score_of_discussion, score_of_comment, is_vote_of, change_first,
  delete_first, eq_ℤ, cast_vote, remove_vote,
}
use sahucodex.Api.Community.Tally.{
  tally, IsTallied, is_target, tally-append, tally-change_first, tally-delete_first,
}

discussions_scored :
    (id id' : ℕ) (score : ℤ) (rows : List Discussion)
    → Option.map score_of_discussion (
        first_of?
          (λ d. d.id == id')
          (update_where (λ d. d.id == id) (λ d. record d { vote_score = score }) rows))
      ≡ (if id == id'
          then Option.map
              (λ s. score)
              (Option.map score_of_discussion (first_of? (λ d. d.id == id') rows))
          else Option.map score_of_discussion (first_of? (λ d. d.id == id') rows))
discussions_scored id id' score [] = ground arith
discussions_scored id id' score (row ∷ rows) = ground (arith, discussions_scored id id' score rows)

comments_scored :
    (id id' : ℕ) (score : ℤ) (rows : List DiscussionComment)
    → Option.map score_of_comment (
        first_of?
          (λ c. c.id == id')
          (update_where (λ c. c.id == id) (λ c. record c { vote_score = score }) rows))
      ≡ (if id == id'
          then Option.map
              (λ s. score)
              (Option.map score_of_comment (first_of? (λ c. c.id == id') rows))
          else Option.map score_of_comment (first_of? (λ c. c.id == id') rows))
comments_scored id id' score [] = ground arith
comments_scored id id' score (row ∷ rows) = ground (arith, comments_scored id id' score rows)

-- The score of a target after that of another, or of itself, is set.
target_score-with_score :
    (type type' : TargetType) (id id' : ℕ) (score : ℤ) (forum : Forum)
    → target_score type' id' (with_score type id score forum) ≡ (
        if is_target type id type' id'
        then Option.map (λ s. score) (target_score type' id' forum)
        else target_score type' id' forum)
target_score-with_score discussion discussion id id' score forum =
    discussions_scored id id' score forum.discussions
target_score-with_score discussion comment id id' score forum = refl
target_score-with_score comment discussion id id' score forum = refl
target_score-with_score comment comment id id' score forum =
    comments_scored id id' score forum.comments

is_target_eq :
    (type type' : TargetType) (id id' : ℕ)
    → is_target type id type' id' ≡ true
    → (type ≡ type') × (id ≡ id')
is_target_eq discussion discussion id id' h = ground (arith, h)
is_target_eq discussion comment id id' h = absurd (ground arith)
is_target_eq comment discussion id id' h = absurd (ground arith)
is_target_eq comment comment id id' h = ground (arith, h)

votes-with_score :
    (type : TargetType) (id : ℕ) (score : ℤ) (forum : Forum)
    → (with_score type id score forum).votes ≡ forum.votes
votes-with_score discussion id score forum = refl
votes-with_score comment id score forum = refl

target_score-votes :
    (type : TargetType) (id : ℕ) (votes : List DiscussionVote) (forum : Forum)
    → target_score type id (record forum { votes = votes }) ≡ target_score type id forum
target_score-votes discussion id votes forum = refl
target_score-votes comment id votes forum = refl

constant_score :
    (score score' : ℤ) (o : Option ℤ) → Option.map (λ s. score) o ≡ some score' → score' ≡ score
constant_score score score' none h = absurd (ground arith)
constant_score score score' (some s) h = ground (arith, h)

-- A target whose score is right again, where only its own votes have changed.
with_score-IsTallied :
    (type : TargetType) (id : ℕ) (score : ℤ) (forum : Forum) (votes : List DiscussionVote)
    → IsTallied forum
    → score ≡ tally type id votes
    → ((type' : TargetType) (id' : ℕ)
        → is_target type id type' id' ≡ false
        → tally type' id' votes ≡ tally type' id' forum.votes)
    → IsTallied (with_score type id score (record forum { votes = votes }))
with_score-IsTallied type id score forum votes h right others type' id' score' found =
    let set = target_score-with_score type type' id id' score (record forum { votes = votes }) in
    rw (votes-with_score type id score (record forum { votes = votes }))
      (elim (Bool-cases (is_target type id type' id')) [
        | inl hit ↦
            let same = is_target_eq type type' id id' hit in
            let mapped = sym (rw hit at set) ∙ found in
            constant_score score score' (target_score type' id' (record forum { votes = votes }))
              mapped
            ∙ right
            ∙ ap₂ (λ t i. tally t i votes) same.0 same.1
        | inr miss ↦
            let plain =
              sym (target_score-votes type' id' votes forum) ∙ sym (rw miss at set) ∙ found in
            h type' id' score' plain ∙ sym (others type' id' miss)
      ])

is_target_self : (type : TargetType) (id : ℕ) → is_target type id type id ≡ true
is_target_self discussion id = ground (arith, ==_iff id id)
is_target_self comment id = ground (arith, ==_iff id id)

-- Where every score is the sum of the votes on its target, it still is after a vote is cast, whether
-- it is new, changed or repeated, and whether or not there is such a target.
cast_vote-IsTallied :
    (type : TargetType) (id user_id : ℕ) (value : ℤ) (forum : Forum)
    → IsTallied forum
    → IsTallied (cast_vote type id user_id value forum).1
unfolding cast_vote
cast_vote-IsTallied type id user_id value forum h =
    elim (Option-cases (target_score type id forum)) [
      | inl missing ↦ rw (missing, cast_vote) h
      | inr (score, found) ↦
          elim (Option-cases (first_of? (is_vote_of user_id type id) forum.votes)) [
            | inl fresh ↦
                let vote : DiscussionVote = record {
                  user_id = user_id;
                  target_type = type;
                  target_id = id;
                  value = value;
                } in
                rw (found, cast_vote)
                  (rw (fresh, cast_vote)
                    (with_score-IsTallied type id (score +ℤ value) forum (forum.votes ++ vote ∷ [])
                      h
                      (ap (λ s. s +ℤ value) (h type id score found)
                        ∙ sym (
                            tally-append type id forum.votes vote
                            ∙ rw (is_target_self type id) refl))
                      (λ type' id' miss. tally-append type' id' forum.votes vote ∙ rw miss refl)))
            | inr (existing, voted) ↦ elim (Bool-cases (eq_ℤ existing.value value)) [
              | inl same ↦ rw (found, cast_vote) (rw (voted, cast_vote) (rw (same, cast_vote) h))
              | inr differs ↦
                  let changed = score +ℤ (value -ℤ existing.value) in
                  let votes = change_first (is_vote_of user_id type id) value forum.votes in
                  rw (found, cast_vote)
                    (rw (voted, cast_vote)
                      (rw (differs, cast_vote)
                        (with_score-IsTallied type id changed forum votes h
                          (ap (λ s. s +ℤ (value -ℤ existing.value)) (h type id score found)
                            ∙ sym (
                                tally-change_first user_id type type id id value forum.votes
                                  existing voted
                                ∙ rw (is_target_self type id) refl))
                          (λ type' id' miss.
                            tally-change_first user_id type type' id id' value forum.votes existing
                              voted
                            ∙ rw miss refl))))
            ]
          ]
    ]

-- Where every score is the sum of the votes on its target, it still is after a vote is removed.
remove_vote-IsTallied :
    (type : TargetType) (id user_id : ℕ) (forum : Forum)
    → IsTallied forum
    → IsTallied (remove_vote type id user_id forum).1
unfolding remove_vote
remove_vote-IsTallied type id user_id forum h = elim (Option-cases (target_score type id forum)) [
  | inl missing ↦ rw (missing, remove_vote) h
  | inr (score, found) ↦ elim (Option-cases (first_of? (is_vote_of user_id type id) forum.votes)) [
    | inl never ↦ rw (found, remove_vote) (rw (never, remove_vote) h)
    | inr (existing, voted) ↦
        let votes = delete_first (is_vote_of user_id type id) forum.votes in
        rw (found, remove_vote)
          (rw (voted, remove_vote)
            (with_score-IsTallied type id (score -ℤ existing.value) forum votes h
              (ap (λ s. s -ℤ existing.value) (h type id score found)
                ∙ sym (
                    tally-delete_first user_id type type id id forum.votes existing voted
                    ∙ rw (is_target_self type id) refl))
              (λ type' id' miss.
                tally-delete_first user_id type type' id id' forum.votes existing voted
                ∙ rw miss refl)))
  ]
]

-- The requests of the routes that vote.
pub data VoteRequest : Type 0 where
  casts : TargetType → (id user_id : ℕ) → ℤ → VoteRequest
  removes : TargetType → (id user_id : ℕ) → VoteRequest

abbrev pub vote_all : List VoteRequest → Forum → Forum
vote_all [] forum = forum
vote_all (casts type id user_id value ∷ requests) forum =
    vote_all requests (cast_vote type id user_id value forum).1
vote_all (removes type id user_id ∷ requests) forum =
    vote_all requests (remove_vote type id user_id forum).1

-- Where every score is the sum of the votes on its target, it still is after any votes are cast,
-- changed, repeated and removed, whether or not there are such targets.
pub vote_all-IsTallied :
    (requests : List VoteRequest) (forum : Forum)
    → IsTallied forum
    → IsTallied (vote_all requests forum)
vote_all-IsTallied [] forum h = h
vote_all-IsTallied (casts type id user_id value ∷ requests) forum h =
    vote_all-IsTallied requests (cast_vote type id user_id value forum).1
      (cast_vote-IsTallied type id user_id value forum h)
vote_all-IsTallied (removes type id user_id ∷ requests) forum h =
    vote_all-IsTallied requests (remove_vote type id user_id forum).1
      (remove_vote-IsTallied type id user_id forum h)
