-- ===== src/Api/Community/Threads/Kept.antt =====
-- What the requests of apps/api/app/modules/community/service.py leave as it was.
use sahucodex.Prelude.{
  ℕ, ◌≡◌, refl, sym, subst, ◌∙◌, inl, inr, Bool, false, some, ◌==◌, Bool-cases, Option-cases,
  first_of?,
}
use sahucodex.Prelude.Int.{pos}
use sahucodex.Prelude.Texts.{Text}
use sahucodex.Api.Community.{TargetType, Discussion, DiscussionComment}
use sahucodex.Api.Community.Threads.{
  Notification, Author, Board, with_comment, notify_author, Report, create_discussion, add_comment,
  set_discussion_locked, find_visible_problem, get_discussion, new_discussion,
}
use sahucodex.Api.Community.Threads.Counts.{
  IsCounted, shown_count-update_where, with_removed-IsCounted, appended-IsCounted,
  with_comment-IsCounted,
}
use sahucodex.Api.Community.Threads.Reports.{
  mark_read, find_target, is_open_report, remove_content, create_report, resolve_report,
}

pub create_discussion-IsCounted :
    (id : ℕ) (slug : Text) (user : Author) (title body : Text) (board : Board)
    → IsCounted board.forum
    → IsCounted (create_discussion id slug user title body board).1.forum
unfolding create_discussion
create_discussion-IsCounted id slug user title body board h =
    elim (Option-cases (find_visible_problem slug board.problems)) [
      | inl absent ↦ rw (absent, create_discussion) h
      | inr (problem, found) ↦
          rw (found, create_discussion)
            (appended-IsCounted (new_discussion id problem.id user.id title body) board.forum refl
              h)
    ]

notify_author_forum :
    (id : ℕ) (d : Discussion) (user : Author) (board : Board)
    → (notify_author id d user board).forum ≡ board.forum
notify_author_forum id d user board = elim (Option-cases d.author_id) [
  | inl gone ↦ rw gone refl
  | inr (author, known) ↦ rw known (elim (Bool-cases (author == user.id)) [
    | inl own ↦ rw own refl
    | inr others ↦ rw others refl
  ])
]

pub add_comment-IsCounted :
    (id notification_id discussion_id : ℕ) (user : Author) (body : Text) (board : Board)
    → IsCounted board.forum
    → IsCounted (add_comment id notification_id discussion_id user body board).1.forum
unfolding add_comment
add_comment-IsCounted id notification_id discussion_id user body board h =
    elim (Option-cases (get_discussion discussion_id board)) [
      | inl absent ↦ rw (absent, add_comment) h
      | inr (d, found) ↦
          rw (found, add_comment)
            (elim (Bool-cases d.locked) [
              | inl locked ↦ rw (locked, add_comment) h
              | inr unlocked ↦
                  let row : DiscussionComment = record {
                    id = id;
                    discussion_id = discussion_id;
                    author_id = some user.id;
                    body = body;
                    vote_score = pos 0;
                    removed = false;
                  } in
                  rw (unlocked, add_comment)
                    (subst IsCounted
                      (sym (notify_author_forum notification_id d user (with_comment row board)))
                      (with_comment-IsCounted row d board found h))
            ])
    ]

remove_content-IsCounted :
    (notification_id : ℕ) (type : TargetType) (id : ℕ) (board : Board)
    → IsCounted board.forum
    → IsCounted (remove_content notification_id type id board).forum
unfolding remove_content
remove_content-IsCounted notification_id type id board h =
    elim (Option-cases (find_target type id board.forum)) [
      | inl absent ↦ rw (absent, remove_content) h
      | inr ((author_id, removed), found) ↦
          rw (found, remove_content)
            (elim (Bool-cases removed) [
              | inl before ↦ rw (before, remove_content) h
              | inr first ↦
                  rw (first, remove_content)
                    (elim (Option-cases author_id) [
                      | inl gone ↦
                          rw (gone, remove_content) (with_removed-IsCounted type id board.forum h)
                      | inr (author, known) ↦
                          rw (known, remove_content) (with_removed-IsCounted type id board.forum h)
                    ])
            ])
    ]

pub resolve_report-IsCounted :
    (notification_id report_id moderator_id : ℕ) (removing : Bool) (now : ℕ) (board : Board)
    → IsCounted board.forum
    → IsCounted (resolve_report notification_id report_id moderator_id removing now board).1.forum
unfolding resolve_report
resolve_report-IsCounted notification_id report_id moderator_id removing now board h =
    elim (Option-cases (first_of? (λ (r : Report). r.id == report_id) board.reports)) [
      | inl absent ↦ rw (absent, resolve_report) h
      | inr (r, found) ↦
          rw (found, resolve_report)
            (elim (Bool-cases (is_open_report r.status)) [
              | inl unresolved ↦
                  rw (unresolved, resolve_report)
                    (elim (Bool-cases removing) [
                      | inl removes_it ↦
                          rw (removes_it, resolve_report)
                            (remove_content-IsCounted notification_id r.target_type r.target_id
                              board h)
                      | inr dismisses ↦ rw (dismisses, resolve_report) h
                    ])
              | inr before ↦ rw (before, resolve_report) h
            ])
    ]

pub create_report-IsCounted :
    (id : ℕ) (type : TargetType) (target_id : ℕ) (user : Author) (reason : Text) (board : Board)
    → IsCounted board.forum
    → IsCounted (create_report id type target_id user reason board).1.forum
unfolding create_report
create_report-IsCounted id type target_id user reason board h =
    elim (Option-cases (find_target type target_id board.forum)) [
      | inl absent ↦ rw (absent, create_report) h
      | inr (target, found) ↦ rw (found, create_report) h
    ]

pub set_discussion_locked-IsCounted :
    (id : ℕ) (locked : Bool) (board : Board)
    → IsCounted board.forum
    → IsCounted (set_discussion_locked id locked board).1.forum
unfolding set_discussion_locked
set_discussion_locked-IsCounted id locked board h = elim (Option-cases (get_discussion id board)) [
  | inl absent ↦ rw (absent, set_discussion_locked) h
  | inr (d, found) ↦
      rw (found, set_discussion_locked)
        (λ at_id.
          shown_count-update_where at_id (λ d. d.id == id) (λ d. record d { locked = locked })
            board.forum.discussions (λ d. refl) (λ d. refl)
          ∙ h at_id)
]

pub mark_read_forum :
    (user : Author) (id : ℕ) (board : Board) → (mark_read user id board).1.forum ≡ board.forum
unfolding mark_read
mark_read_forum user id board =
    elim (Option-cases (first_of? (λ (n : Notification). n.id == id) board.notifications)) [
      | inl absent ↦ rw (absent, mark_read) refl
      | inr (n, found) ↦
          rw (found, mark_read)
            (elim (Bool-cases (n.user_id == user.id)) [
              | inl own ↦ rw (own, mark_read) refl
              | inr others ↦ rw (others, mark_read) refl
            ])
    ]
