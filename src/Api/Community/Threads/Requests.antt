-- ===== src/Api/Community/Threads/Requests.antt =====
-- The requests of apps/api/app/modules/community/router.py and of the moderation routes, one after the
-- other.
use sahucodex.Prelude.{ℕ, sym, subst, Bool, List, [], ◌∷◌}
use sahucodex.Prelude.Int.{ℤ}
use sahucodex.Prelude.Texts.{Text}
use sahucodex.Api.Community.{TargetType, cast_vote, remove_vote}
use sahucodex.Api.Community.Threads.{
  Author, Board, create_discussion, add_comment, set_discussion_locked,
}
use sahucodex.Api.Community.Threads.Counts.{IsCounted, cast_vote-IsCounted, remove_vote-IsCounted}
use sahucodex.Api.Community.Threads.Reports.{
  mark_read, mark_all_read, create_report, resolve_report,
}
use sahucodex.Api.Community.Threads.Kept.{
  create_discussion-IsCounted, add_comment-IsCounted, resolve_report-IsCounted,
  create_report-IsCounted, set_discussion_locked-IsCounted, mark_read_forum,
}

pub data Request : Type 0 where
  casts : TargetType → (id user_id : ℕ) → ℤ → Request
  removes : TargetType → (id user_id : ℕ) → Request
  starts : (id : ℕ) → (problem_slug : Text) → Author → (title body : Text) → Request
  replies : (id notification_id discussion_id : ℕ) → Author → (body : Text) → Request
  locks : (id : ℕ) → Bool → Request
  reports : (id : ℕ) → TargetType → (target_id : ℕ) → Author → (reason : Text) → Request
  resolves : (notification_id report_id moderator_id : ℕ) → (removing : Bool) → (now : ℕ) → Request
  reads : Author → (id : ℕ) → Request
  reads_all : Author → Request

abbrev pub serve_request : Request → Board → Board
serve_request (casts type id user_id value) board = record board {
  forum = (cast_vote type id user_id value board.forum).1;
}
serve_request (removes type id user_id) board = record board {
  forum = (remove_vote type id user_id board.forum).1;
}
serve_request (starts id slug user title body) board =
    (create_discussion id slug user title body board).1
serve_request (replies id notification_id discussion_id user body) board =
    (add_comment id notification_id discussion_id user body board).1
serve_request (locks id locked) board = (set_discussion_locked id locked board).1
serve_request (reports id type target_id user reason) board =
    (create_report id type target_id user reason board).1
serve_request (resolves notification_id report_id moderator_id removing now) board =
    (resolve_report notification_id report_id moderator_id removing now board).1
serve_request (reads user id) board = (mark_read user id board).1
serve_request (reads_all user) board = mark_all_read user board

abbrev pub serve_requests : List Request → Board → Board
serve_requests [] board = board
serve_requests (request ∷ requests) board = serve_requests requests (serve_request request board)

serve_request-IsCounted :
    (request : Request) (board : Board)
    → IsCounted board.forum
    → IsCounted (serve_request request board).forum
serve_request-IsCounted (casts type id user_id value) board =
    cast_vote-IsCounted type id user_id value board.forum
serve_request-IsCounted (removes type id user_id) board =
    remove_vote-IsCounted type id user_id board.forum
serve_request-IsCounted (starts id slug user title body) board =
    create_discussion-IsCounted id slug user title body board
serve_request-IsCounted (replies id notification_id discussion_id user body) board =
    add_comment-IsCounted id notification_id discussion_id user body board
serve_request-IsCounted (locks id locked) board = set_discussion_locked-IsCounted id locked board
serve_request-IsCounted (reports id type target_id user reason) board =
    create_report-IsCounted id type target_id user reason board
serve_request-IsCounted (resolves notification_id report_id moderator_id removing now) board =
    resolve_report-IsCounted notification_id report_id moderator_id removing now board
serve_request-IsCounted (reads user id) board =
    subst IsCounted (sym (mark_read_forum user id board))
serve_request-IsCounted (reads_all user) board = λ h. h

-- Where the comment count of every discussion is the number of its comments, with no comment on a
-- discussion that is not there, it still is after any sequence of discussions started, replies,
-- votes, locks, reports, their resolutions and notifications read, whether they succeed or are
-- refused.
pub serve_requests-IsCounted :
    (requests : List Request) (board : Board)
    → IsCounted board.forum
    → IsCounted (serve_requests requests board).forum
serve_requests-IsCounted [] board h = h
serve_requests-IsCounted (request ∷ requests) board h =
    serve_requests-IsCounted requests (serve_request request board)
      (serve_request-IsCounted request board h)
