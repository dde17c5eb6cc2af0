-- ===== src/Api/Community/Threads/Counts.antt =====
-- The comment count of a discussion is the number of its comments
-- (apps/api/app/modules/community/service.py).

use sahucodex.Prelude.{
  ℕ, suc, ◌≡◌, refl, sym, ap, ◌∙◌, inl, inr, Bool, true, false, List, [], ◌∷◌, ◌++◌, Option, none,
  some, ◌==◌, arith, Bool-cases, Option-cases, first_of?,
}
use sahucodex.Prelude.Int.{ℤ}
use sahucodex.Prelude.Tables.{
  count_where, update_where, count_where-update_where, count_where-append, first_of?-append_none,
  first_of?-append_some,
}
use sahucodex.Api.Community.{
  TargetType, discussion, comment, Discussion, DiscussionComment, Forum, with_score, cast_vote,
  remove_vote, target_score, eq_ℤ, is_vote_of,
}
use sahucodex.Api.Community.Threads.{Board, with_comment, one_more_comment, get_discussion}
use sahucodex.Api.Community.Threads.Reports.{with_removed}

abbrev pub count_of : Option Discussion → ℕ
count_of none = 0
count_of (some d) = d.comment_count

-- The count that a page shows for a discussion: 0 where there is no such discussion.
abbrev pub shown_count : ℕ → List Discussion → ℕ
shown_count id ds = count_of (first_of? (λ d. d.id == id) ds)

abbrev pub is_comment_on : ℕ → DiscussionComment → Bool
is_comment_on id c = c.discussion_id == id

abbrev pub IsCounted : Forum → Type 0
IsCounted forum =
    (id : ℕ) → shown_count id forum.discussions ≡ count_where (is_comment_on id) forum.comments

pub shown_count-update_where :
    (id : ℕ) (p : Discussion → Bool) (f : Discussion → Discussion) (ds : List Discussion)
    → ((d : Discussion) → (f d).id ≡ d.id)
    → ((d : Discussion) → (f d).comment_count ≡ d.comment_count)
    → shown_count id (update_where p f ds) ≡ shown_count id ds
shown_count-update_where id p f [] same count = refl
shown_count-update_where id p f (d ∷ ds) same count =
    let later = shown_count-update_where id p f ds same count in
    elim (Bool-cases (p d)) [
      | inl hit ↦ rw hit (
          rw (same d) (elim (Bool-cases (d.id == id)) [
            | inl here ↦ rw here (count d)
            | inr there ↦ rw there later
          ]))
      | inr miss ↦
          rw miss (elim (Bool-cases (d.id == id)) [
            | inl here ↦ rw here refl
            | inr there ↦ rw there later
          ])
    ]

with_score-IsCounted :
    (type : TargetType) (id : ℕ) (score : ℤ) (forum : Forum)
    → IsCounted forum
    → IsCounted (with_score type id score forum)
with_score-IsCounted discussion id score forum h at_id =
    shown_count-update_where at_id (λ d. d.id == id) (λ d. record d { vote_score = score })
      forum.discussions (λ d. refl) (λ d. refl)
    ∙ h at_id
with_score-IsCounted comment id score forum h at_id =
    h at_id
    ∙ sym (
        count_where-update_where (is_comment_on at_id) (λ c. c.id == id)
          (λ c. record c { vote_score = score }) forum.comments (λ c e. refl))

pub with_removed-IsCounted :
    (type : TargetType) (id : ℕ) (forum : Forum)
    → IsCounted forum
    → IsCounted (with_removed type id forum)
with_removed-IsCounted discussion id forum h at_id =
    shown_count-update_where at_id (λ d. d.id == id) (λ d. record d { removed = true })
      forum.discussions (λ d. refl) (λ d. refl)
    ∙ h at_id
with_removed-IsCounted comment id forum h at_id =
    h at_id
    ∙ sym (
        count_where-update_where (is_comment_on at_id) (λ c. c.id == id)
          (λ c. record c { removed = true }) forum.comments (λ c e. refl))

pub cast_vote-IsCounted :
    (type : TargetType) (id user_id : ℕ) (value : ℤ) (forum : Forum)
    → IsCounted forum
    → IsCounted (cast_vote type id user_id value forum).1
unfolding cast_vote
cast_vote-IsCounted type id user_id value forum h =
    elim (Option-cases (target_score type id forum)) [
      | inl missing ↦ rw (missing, cast_vote) h
      | inr (score, found) ↦
          elim (Option-cases (first_of? (is_vote_of user_id type id) forum.votes)) [
            | inl fresh ↦
                rw (found, cast_vote) (rw (fresh, cast_vote) (with_score-IsCounted type id _ _ h))
            | inr (existing, voted) ↦ elim (Bool-cases (eq_ℤ existing.value value)) [
              | inl same ↦ rw (found, cast_vote) (rw (voted, cast_vote) (rw (same, cast_vote) h))
              | inr differs ↦
                  rw (found, cast_vote)
                    (rw (voted, cast_vote)
                      (rw (differs, cast_vote) (with_score-IsCounted type id _ _ h)))
            ]
          ]
    ]

pub remove_vote-IsCounted :
    (type : TargetType) (id user_id : ℕ) (forum : Forum)
    → IsCounted forum
    → IsCounted (remove_vote type id user_id forum).1
unfolding remove_vote
remove_vote-IsCounted type id user_id forum h = elim (Option-cases (target_score type id forum)) [
  | inl missing ↦ rw (missing, remove_vote) h
  | inr (score, found) ↦ elim (Option-cases (first_of? (is_vote_of user_id type id) forum.votes)) [
    | inl never ↦ rw (found, remove_vote) (rw (never, remove_vote) h)
    | inr (existing, voted) ↦
        rw (found, remove_vote) (rw (voted, remove_vote) (with_score-IsCounted type id _ _ h))
  ]
]

-- A discussion that is added has no comments yet, whatever its id.
pub appended-IsCounted :
    (d : Discussion) (forum : Forum)
    → d.comment_count ≡ 0
    → IsCounted forum
    → IsCounted (record forum { discussions = forum.discussions ++ d ∷ [] })
appended-IsCounted d forum empty h at_id =
    elim (Option-cases (first_of? (λ e. e.id == at_id) forum.discussions)) [
      | inl absent ↦
          let none_yet = sym (ap count_of absent) ∙ h at_id in
          rw (first_of?-append_none (λ e. e.id == at_id) forum.discussions (d ∷ []) absent)
            (elim (Bool-cases (d.id == at_id)) [
              | inl here ↦ rw here (empty ∙ none_yet)
              | inr there ↦ rw there none_yet
            ])
      | inr (e, found) ↦
          let plain = sym (ap count_of found) ∙ h at_id in
          rw (first_of?-append_some (λ e. e.id == at_id) forum.discussions (d ∷ []) e found) plain
    ]

shown_count-other :
    (id at_id : ℕ) (ds : List Discussion)
    → (id == at_id) ≡ false
    → shown_count at_id (update_where (λ d. d.id == id) one_more_comment ds) ≡ shown_count at_id ds
shown_count-other id at_id [] differs = refl
shown_count-other id at_id (d ∷ ds) differs =
    let later = shown_count-other id at_id ds differs in
    elim (Bool-cases (d.id == id)) [
      | inl this ↦
          let there : (d.id == at_id) ≡ false = ground (arith, this, differs) in
          rw this (rw there later)
      | inr other ↦ rw other (elim (Bool-cases (d.id == at_id)) [
        | inl here ↦ rw here refl
        | inr there ↦ rw there later
      ])
    ]

shown_count-this :
    (id at_id : ℕ) (ds : List Discussion) (d : Discussion)
    → (id == at_id) ≡ true
    → first_of? (λ e. e.id == id) ds ≡ some d
    → shown_count at_id (update_where (λ e. e.id == id) one_more_comment ds)
      ≡ suc (shown_count at_id ds)
shown_count-this id at_id [] d same found = absurd (ground arith)
shown_count-this id at_id (e ∷ ds) d same found = elim (Bool-cases (e.id == id)) [
  | inl this ↦
      let here : (e.id == at_id) ≡ true = ground (arith, this, same) in rw this (rw here refl)
  | inr other ↦
      let there : (e.id == at_id) ≡ false = ground (arith, other, same) in
      rw other (rw there (shown_count-this id at_id ds d same (rw other at found)))
]

pub with_comment-IsCounted :
    (row : DiscussionComment) (d : Discussion) (board : Board)
    → get_discussion row.discussion_id board ≡ some d
    → IsCounted board.forum
    → IsCounted (with_comment row board).forum
with_comment-IsCounted row d board found h at_id =
    let right = count_where-append (is_comment_on at_id) board.forum.comments (row ∷ []) in
    let plain = h at_id in
    elim (Bool-cases (row.discussion_id == at_id)) [
      | inl same ↦
          let left =
            shown_count-this row.discussion_id at_id board.forum.discussions d same found in
          ground (arith, left, right, plain, same)
      | inr differs ↦
          let left = shown_count-other row.discussion_id at_id board.forum.discussions differs in
          ground (arith, left, right, plain, differs)
    ]
