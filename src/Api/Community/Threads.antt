-- ===== src/Api/Community/Threads.antt =====
-- apps/api/app/modules/community/service.py without the votes: discussions, comments, reports and
-- notifications. The ids of new rows and the times are arguments.
pub mod Reports
pub mod Counts
pub mod Kept
pub mod Requests
mod Tests
use sahucodex.Prelude.{
  ℕ, suc, Bool, true, false, ◌&&◌, not, List, [], ◌∷◌, ◌++◌, Option, none, some, ◌==◌,
  if◌then◌else◌, first_of?, Outcome, returned, raised,
}
use sahucodex.Prelude.Int.{pos}
use sahucodex.Prelude.Texts.{Text, eq_text}
use sahucodex.Prelude.Tables.{count_where, update_where}
use sahucodex.Api.Tables.{Problem}
use sahucodex.Api.Community.{TargetType, discussion, comment, Discussion, DiscussionComment, Forum}

pub data ReportStatus : Type 0 where
  opened resolved dismissed : ReportStatus

pub record Report : Type 0 where
  pub id : ℕ
  pub target_type : TargetType
  pub target_id : ℕ
  pub reporter_id : Option ℕ
  pub reason : Text
  pub status : ReportStatus
  pub resolved_by : Option ℕ
  pub resolved_at : Option ℕ

-- `type` and `data` of a notification; nothing sends a COMMENT_REPLY.
pub data NotificationData : Type 0 where
  discussion_reply : (discussion_id : ℕ) (discussion_title actor_username : Text) → NotificationData
  content_removed : TargetType → ℕ → NotificationData

pub record Notification : Type 0 where
  pub id : ℕ
  pub user_id : ℕ
  pub data_of : NotificationData
  pub read : Bool

pub record Author : Type 0 where
  pub id : ℕ
  pub username : Text

pub record Board : Type 0 where
  pub problems : List Problem
  pub forum : Forum
  pub reports : List Report
  pub notifications : List Notification

pub data ThreadError : Type 0 where
  -- 404
  problem_not_found discussion_not_found report_not_found notification_not_found : ThreadError
  target_not_found : TargetType → ThreadError
  -- 409
  discussion_locked already_resolved : ThreadError

abbrev pub is_archived : Option ℕ → Bool
is_archived none = false
is_archived (some at) = true

unfoldable pub find_visible_problem : Text → List Problem → Option Problem
find_visible_problem slug problems =
    first_of? (λ p. eq_text p.slug slug && p.published && not (is_archived p.archived_at)) problems

abbrev pub new_discussion : ℕ → ℕ → ℕ → Text → Text → Discussion
new_discussion id problem_id author_id title body = record {
  id = id;
  problem_id = problem_id;
  author_id = some author_id;
  title = title;
  body = body;
  vote_score = pos 0;
  comment_count = 0;
  removed = false;
  locked = false;
}

-- What is returned is the row that the response shows.
unfoldable pub create_discussion :
    ℕ → Text → Author → Text → Text → Board → Outcome ThreadError Discussion × Board
create_discussion id problem_slug user title body board =
    elim (find_visible_problem problem_slug board.problems) [
      | none ↦ (raised problem_not_found, board)
      | some problem ↦
          let row = new_discussion id problem.id user.id title body in
          (
            returned row,
            record board {
              forum = record board.forum { discussions = board.forum.discussions ++ row ∷ [] };
            },
          )
    ]

abbrev pub get_discussion : ℕ → Board → Option Discussion
get_discussion id board = first_of? (λ d. d.id == id) board.forum.discussions

abbrev pub notify : ℕ → ℕ → NotificationData → Board → Board
notify id user_id what board =
    let row : Notification = record { id = id; user_id = user_id; data_of = what; read = false } in
    record board { notifications = board.notifications ++ row ∷ [] }

abbrev pub one_more_comment : Discussion → Discussion
one_more_comment d = record d { comment_count = suc d.comment_count }

-- `db.add(comment)` and `discussion.comment_count += 1`
abbrev pub with_comment : DiscussionComment → Board → Board
with_comment row board = record board {
  forum = record board.forum {
    discussions =
        update_where (λ d. d.id == row.discussion_id) one_more_comment board.forum.discussions;
    comments = board.forum.comments ++ row ∷ [];
  };
}

abbrev pub notify_author : ℕ → Discussion → Author → Board → Board
notify_author id d user board = elim d.author_id [
  | none ↦ board
  | some author ↦
      if author == user.id
      then board
      else notify id author (discussion_reply d.id d.title user.username) board
]

unfoldable pub add_comment :
    (id notification_id discussion_id : ℕ)
    → Author
    → Text
    → Board
    → Outcome ThreadError DiscussionComment × Board
add_comment id notification_id discussion_id user body board =
    elim (get_discussion discussion_id board) [
      | none ↦ (raised discussion_not_found, board)
      | some d ↦
          let row : DiscussionComment = record {
            id = id;
            discussion_id = discussion_id;
            author_id = some user.id;
            body = body;
            vote_score = pos 0;
            removed = false;
          } in
          if d.locked
          then (raised discussion_locked, board)
          else (returned row, notify_author notification_id d user (with_comment row board))
    ]

unfoldable pub set_discussion_locked : ℕ → Bool → Board → Outcome ThreadError Unit × Board
set_discussion_locked id locked board = elim (get_discussion id board) [
  | none ↦ (raised discussion_not_found, board)
  | some _ ↦ (
    returned tt,
    record board {
      forum = record board.forum {
        discussions =
            update_where (λ d. d.id == id) (λ d. record d { locked = locked })
              board.forum.discussions;
      };
    },
  )
]
