-- ===== src/Api/Community.antt =====
-- apps/api/app/modules/community: discussions, their comments, and the votes on both.
pub mod Tally
pub mod Threads
pub mod Votes
mod Tests
use mathlib.Core.Option
use sahucodex.Prelude.{
  ℕ, ◌+◌, Bool, true, false, ◌&&◌, not, List, [], ◌∷◌, ◌++◌, Option, none, some, ◌==◌,
  if◌then◌else◌, first_of?, Outcome, returned, raised,
}
use sahucodex.Prelude.Int.{ℤ, pos, pos_part, neg_part, ◌+ℤ◌, ◌-ℤ◌}
use sahucodex.Prelude.Texts.{Text}
use sahucodex.Prelude.Tables.{update_where}

pub data TargetType : Type 0 where
  discussion comment : TargetType

pub record Discussion : Type 0 where
  pub id : ℕ
  pub problem_id : ℕ
  pub author_id : Option ℕ
  pub title : Text
  pub body : Text
  pub vote_score : ℤ
  pub comment_count : ℕ
  pub removed : Bool
  pub locked : Bool

pub record DiscussionComment : Type 0 where
  pub id : ℕ
  pub discussion_id : ℕ
  pub author_id : Option ℕ
  pub body : Text
  pub vote_score : ℤ
  pub removed : Bool

pub record DiscussionVote : Type 0 where
  pub user_id : ℕ
  pub target_type : TargetType
  pub target_id : ℕ
  pub value : ℤ

pub record Forum : Type 0 where
  pub discussions : List Discussion
  pub comments : List DiscussionComment
  pub votes : List DiscussionVote

pub data CommunityError : Type 0 where
  -- 404, with the type of the target of a vote
  not_found : TargetType → CommunityError

abbrev pub eq_target_type : TargetType → TargetType → Bool
eq_target_type discussion discussion = true
eq_target_type comment comment = true
eq_target_type _ _ = false

abbrev pub score_of_discussion : Discussion → ℤ
score_of_discussion row = row.vote_score

abbrev pub score_of_comment : DiscussionComment → ℤ
score_of_comment row = row.vote_score

-- `db.get(model, target_id)`, by the score of the row.
abbrev pub target_score : TargetType → ℕ → Forum → Option ℤ
target_score discussion id forum =
    Option.map score_of_discussion (first_of? (λ d. d.id == id) forum.discussions)
target_score comment id forum =
    Option.map score_of_comment (first_of? (λ c. c.id == id) forum.comments)

-- `target.vote_score = …`
abbrev pub with_score : TargetType → ℕ → ℤ → Forum → Forum
with_score discussion id score forum = record forum {
  discussions =
      update_where (λ d. d.id == id) (λ d. record d { vote_score = score }) forum.discussions;
}
with_score comment id score forum = record forum {
  comments = update_where (λ c. c.id == id) (λ c. record c { vote_score = score }) forum.comments;
}

abbrev pub is_vote_on : TargetType → ℕ → DiscussionVote → Bool
is_vote_on type id v = eq_target_type v.target_type type && v.target_id == id

abbrev pub is_vote_of : ℕ → TargetType → ℕ → DiscussionVote → Bool
is_vote_of user_id type id v = v.user_id == user_id && is_vote_on type id v

-- The row that a query returned is changed, or deleted.
abbrev pub change_first : (DiscussionVote → Bool) → ℤ → List DiscussionVote → List DiscussionVote
change_first p value [] = []
change_first p value (v ∷ vs) =
    let rest = change_first p value vs in if p v then record v { value = value } ∷ vs else v ∷ rest

abbrev pub delete_first : (DiscussionVote → Bool) → List DiscussionVote → List DiscussionVote
delete_first p [] = []
delete_first p (v ∷ vs) = let rest = delete_first p vs in if p v then vs else v ∷ rest

abbrev pub eq_ℤ : ℤ → ℤ → Bool
eq_ℤ a b = pos_part a + neg_part b == pos_part b + neg_part a

unfoldable pub cast_vote : TargetType → ℕ → ℕ → ℤ → Forum → Outcome CommunityError ℤ × Forum
cast_vote type id user_id value forum = elim (target_score type id forum) [
  | none ↦ (raised (not_found type), forum)
  | some score ↦ elim (first_of? (is_vote_of user_id type id) forum.votes) [
    | none ↦
        let vote : DiscussionVote = record {
          user_id = user_id;
          target_type = type;
          target_id = id;
          value = value;
        } in
        (
          returned (score +ℤ value),
          with_score type id (score +ℤ value) (record forum { votes = forum.votes ++ vote ∷ [] }),
        )
    | some existing ↦
        let changed = score +ℤ (value -ℤ existing.value) in
        if eq_ℤ existing.value value then (returned score, forum) else (
          returned changed,
          with_score type id changed (record forum {
            votes = change_first (is_vote_of user_id type id) value forum.votes;
          }),
        )
  ]
]

unfoldable pub remove_vote : TargetType → ℕ → ℕ → Forum → Outcome CommunityError ℤ × Forum
remove_vote type id user_id forum = elim (target_score type id forum) [
  | none ↦ (raised (not_found type), forum)
  | some score ↦ elim (first_of? (is_vote_of user_id type id) forum.votes) [
    | none ↦ (returned score, forum)
    | some existing ↦
        let changed = score -ℤ existing.value in
        (
          returned changed,
          with_score type id changed
              (record forum { votes = delete_first (is_vote_of user_id type id) forum.votes }),
        )
  ]
]
