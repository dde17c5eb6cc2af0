-- ===== src/Api/Submissions/Tests.antt =====
-- Submissions to a queue that is down, and instances of the theorems on
-- apps/api/app/modules/submissions/service.py.
use sahucodex.Prelude.{ℕ, ◌<◌, ◌≡◌, ◌⊎◌, refl, true, [], ◌∷◌, none, Outcome, returned, raised}
use sahucodex.Prelude.Texts.{Text, codes}
use sahucodex.Prelude.Tables.{count_where}
use sahucodex.Strings.{strip}
use sahucodex.Judge.Pipeline.{World}
use sahucodex.Api.Tables.{Submission, ProblemTestCase, CaseKind}
use sahucodex.Api.Submissions.{
  SubmitSettings, SubmitError, too_many_pending, problem_not_judgeable, judge_unavailable,
  source_is_empty, ProblemRef, validate_source, is_in_flight, create_and_enqueue,
}
use sahucodex.Api.Submissions.Accepting.{is_open_with, row_made, sent, create_and_enqueue_cases}

abbrev settings : SubmitSettings
settings = record {
  submission_max_source_bytes = 8;
  max_inflight_submissions = 3;
  judge_stale_after = 900;
}

abbrev down : ℕ → World Unit → Outcome Text Unit × World Unit
down id w = (raised (codes "no broker"), w)

abbrev problem : ProblemRef
problem = record { id = 2; slug = codes "squares" }

abbrev test_case : ProblemTestCase
test_case = record {
  id = 1;
  problem_id = 2;
  kind = CaseKind.hidden_case;
  position = 1;
  input_data = codes "3";
  expected_output = codes "9";
}

abbrev world : World Unit
world = record {
  db = record {
    submissions = [];
    submission_results = [];
    submission_test_results = [];
    problems = [];
    problem_test_cases = test_case ∷ [];
    progress = [];
    streaks = [];
    achievements = [];
    user_achievements = [];
  };
  redis_up = true;
  events = [];
  cached = [];
  sandbox = tt;
}

abbrev submit : Outcome SubmitError Submission × World Unit
submit = create_and_enqueue down settings 5 7 problem (codes "c") (codes "x") none 100 world

down_is_told : submit.0 ≡ raised judge_unavailable
unfolding create_and_enqueue
down_is_told = refl

create_and_enqueue_cases_example :
    (((submit.0 ≡ raised too_many_pending) ⊎ (submit.0 ≡ raised problem_not_judgeable))
      × (submit.1 ≡ world))
    ⊎ ((submit.0 ≡ raised judge_unavailable)
        × (count_where (is_open_with 5) submit.1.db.submissions ≡ 0))
    ⊎ ((submit.0
          ≡ returned (row_made down settings 5 7 problem (codes "c") (codes "x") none 100 world))
        × (count_where (is_in_flight settings 7 100) world.db.submissions < 3)
        × (submit.1.db
            ≡ (sent down settings 5 7 problem (codes "c") (codes "x") none 100 world).1.db))
create_and_enqueue_cases_example =
    create_and_enqueue_cases down settings 5 7 problem (codes "c") (codes "x") none 100 world

blank_is_refused : validate_source settings (codes " ") none ≡ raised source_is_empty
unfolding validate_source strip
blank_is_refused = refl
