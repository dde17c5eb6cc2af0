-- ===== src/Api/Community/Threads/Tests.antt =====
-- A thread that is answered, locked, reported and cleaned, and an instance of the theorem on
-- apps/api/app/modules/community/service.py.
use sahucodex.Prelude.{◌≡◌, refl, true, List, [], ◌∷◌, none, raised}
use sahucodex.Api.Tables.{Problem, easy}
use sahucodex.Api.Community.{comment}
use sahucodex.Api.Community.Threads.{
  Board, Author, add_comment, create_discussion, discussion_locked, set_discussion_locked,
  find_visible_problem,
}
use sahucodex.Api.Community.Threads.Reports.{
  unread_count, create_report, resolve_report, remove_content,
}
use sahucodex.Api.Community.Threads.Counts.{IsCounted}
use sahucodex.Api.Community.Threads.Requests.{
  Request, starts, replies, locks, reports, resolves, serve_requests, serve_requests-IsCounted,
}

abbrev two_sum : Problem
two_sum = record {
  id = 2;
  slug = 116 ∷ [];
  title = [];
  difficulty = easy;
  time_limit_ms = 1000;
  memory_limit_mb = 256;
  checker = [];
  published = true;
  archived_at = none;
  total_submissions = 0;
  accepted_submissions = 0;
  tags = [];
}

abbrev empty_board : Board
empty_board = record {
  problems = two_sum ∷ [];
  forum = record { discussions = []; comments = []; votes = [] };
  reports = [];
  notifications = [];
}

abbrev asker : Author
asker = record { id = 7; username = [] }

abbrev helper : Author
helper = record { id = 9; username = [] }

abbrev talk : List Request
talk =
    starts 4 (116 ∷ []) asker [] []
    ∷ replies 5 6 4 helper []
    ∷ replies 8 1 4 asker []
    ∷ reports 3 comment 5 asker []
    ∷ resolves 2 3 1 true 100
    ∷ locks 4 true
    ∷ []

the_asker_is_told : unread_count asker (serve_requests talk empty_board) ≡ 1
unfolding create_discussion add_comment create_report resolve_report set_discussion_locked
    remove_content find_visible_problem
the_asker_is_told = refl

locked_thread :
    (add_comment 10 11 4 helper [] (serve_requests talk empty_board)).0 ≡ raised discussion_locked
unfolding create_discussion add_comment create_report resolve_report set_discussion_locked
    remove_content find_visible_problem
locked_thread = refl

serve_requests-IsCounted_example : IsCounted (serve_requests talk empty_board).forum
serve_requests-IsCounted_example = serve_requests-IsCounted talk empty_board (λ id. refl)
