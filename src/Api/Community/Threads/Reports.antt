-- ===== src/Api/Community/Threads/Reports.antt =====
-- Reports and the reading of notifications (apps/api/app/modules/community/service.py).
use sahucodex.Prelude.{
  ℕ, Bool, true, false, ◌&&◌, not, [], ◌∷◌, ◌++◌, Option, none, some, ◌==◌, if◌then◌else◌,
  first_of?, Outcome, returned, raised,
}
use sahucodex.Prelude.Texts.{Text}
use sahucodex.Prelude.Tables.{count_where, update_where}
use sahucodex.Api.Community.Threads.{
  ReportStatus, opened, resolved, dismissed, Report, Notification, content_removed, Author, Board,
  ThreadError, report_not_found, notification_not_found, target_not_found, already_resolved, notify,
}
use sahucodex.Api.Community.{TargetType, discussion, comment, Forum}

-- The author and the `removed` flag of `db.get(model, target_id)`.
abbrev pub find_target : TargetType → ℕ → Forum → Option (Option ℕ × Bool)
find_target discussion id forum = elim (first_of? (λ d. d.id == id) forum.discussions) [
  | none ↦ none
  | some d ↦ some (d.author_id, d.removed)
]
find_target comment id forum = elim (first_of? (λ c. c.id == id) forum.comments) [
  | none ↦ none
  | some c ↦ some (c.author_id, c.removed)
]

-- `target.removed = True`
abbrev pub with_removed : TargetType → ℕ → Forum → Forum
with_removed discussion id forum = record forum {
  discussions = update_where (λ d. d.id == id) (λ d. record d { removed = true }) forum.discussions;
}
with_removed comment id forum = record forum {
  comments = update_where (λ c. c.id == id) (λ c. record c { removed = true }) forum.comments;
}

unfoldable pub create_report :
    ℕ → TargetType → ℕ → Author → Text → Board → Outcome ThreadError Unit × Board
create_report id type target_id user reason board = elim (find_target type target_id board.forum) [
  | none ↦ (raised (target_not_found type), board)
  | some _ ↦
      let row : Report = record {
        id = id;
        target_type = type;
        target_id = target_id;
        reporter_id = some user.id;
        reason = reason;
        status = opened;
        resolved_by = none;
        resolved_at = none;
      } in
      (returned tt, record board { reports = board.reports ++ row ∷ [] })
]

abbrev pub is_open_report : ReportStatus → Bool
is_open_report opened = true
is_open_report _ = false

-- What `remove_content` does to the target.
unfoldable pub remove_content : ℕ → TargetType → ℕ → Board → Board
remove_content notification_id type target_id board =
    elim (find_target type target_id board.forum) [
      | none ↦ board
      | some (author_id, removed) ↦
          let board' = record board { forum = with_removed type target_id board.forum } in
          let told : Board = elim author_id [
            | none ↦ board'
            | some author ↦ notify notification_id author (content_removed type target_id) board'
          ] in
          if removed then board else told
    ]

abbrev pub closed_report : ReportStatus → ℕ → ℕ → Report → Report
closed_report status moderator_id now r = record r {
  status = status;
  resolved_by = some moderator_id;
  resolved_at = some now;
}

abbrev pub with_report_closed : ReportStatus → ℕ → ℕ → ℕ → Board → Board
with_report_closed status report_id moderator_id now board = record board {
  reports =
      update_where (λ r. r.id == report_id) (closed_report status moderator_id now) board.reports;
}

-- `removes` is `action == "remove_content"`.
unfoldable pub resolve_report :
    (notification_id report_id moderator_id : ℕ)
    → Bool
    → ℕ
    → Board
    → Outcome ThreadError Unit × Board
resolve_report notification_id report_id moderator_id removes now board =
    elim (first_of? (λ r. r.id == report_id) board.reports) [
      | none ↦ (raised report_not_found, board)
      | some r ↦
          let after =
            if removes
            then with_report_closed resolved report_id moderator_id now
                (remove_content notification_id r.target_type r.target_id board)
            else with_report_closed dismissed report_id moderator_id now board in
          if is_open_report r.status then (returned tt, after) else (raised already_resolved, board)
    ]

abbrev pub is_unread_of : ℕ → Notification → Bool
is_unread_of user_id n = n.user_id == user_id && not n.read

abbrev pub as_read : Notification → Notification
as_read n = record n { read = true }

abbrev pub unread_count : Author → Board → ℕ
unread_count user board = count_where (is_unread_of user.id) board.notifications

unfoldable pub mark_read : Author → ℕ → Board → Outcome ThreadError Unit × Board
mark_read user id board = elim (first_of? (λ n. n.id == id) board.notifications) [
  | none ↦ (raised notification_not_found, board)
  | some n ↦
      if n.user_id == user.id
      then (
        returned tt,
        record board { notifications = update_where (λ m. m.id == id) as_read board.notifications },
      )
      else (raised notification_not_found, board)
]

abbrev pub mark_all_read : Author → Board → Board
mark_all_read user board = record board {
  notifications = update_where (is_unread_of user.id) as_read board.notifications;
}
