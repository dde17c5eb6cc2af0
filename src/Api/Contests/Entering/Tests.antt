-- ===== src/Api/Contests/Entering/Tests.antt =====
-- A contest that is entered, and an instance of the theorem on
-- apps/api/app/modules/contests/service.py.
use sahucodex.Prelude.{◌≡◌, refl, true, [], ◌∷◌, none, raised}
use sahucodex.Prelude.Texts.{codes}
use sahucodex.Api.Tables.{Problem, easy}
use sahucodex.Api.Contests.{Contest, phase}
use sahucodex.Api.Contests.Entering.{
  Catalog, Entrant, get_contest, is_registered, not_registered, register, resolve_entry,
  contest_ended, resolve_contest_submission,
}
use sahucodex.Api.Contests.Entering.Registered.{register_all, register-resolve_contest_submission}

abbrev sum_problem : Problem
sum_problem = record {
  id = 5;
  slug = codes "sum";
  title = codes "Sum";
  difficulty = easy;
  time_limit_ms = 1000;
  memory_limit_mb = 256;
  checker = codes "exact";
  published = true;
  archived_at = none;
  total_submissions = 0;
  accepted_submissions = 0;
  tags = [];
}

abbrev autumn : Contest
autumn = record {
  id = 1;
  slug = codes "autumn";
  title = codes "Autumn";
  start_time = 100;
  end_time = 200;
  penalty_minutes = 20;
  published = true;
  problems = record { contest_id = 1; problem_id = 5; label = codes "A"; points = 100 } ∷ [];
}

abbrev catalog : Catalog
catalog = record {
  contests = autumn ∷ [];
  problems = sum_problem ∷ [];
  programming_languages = record { key = codes "python"; is_enabled = true } ∷ [];
}

abbrev asha : Entrant
asha = record { id = 7; username = codes "asha" }

abbrev binod : Entrant
binod = record { id = 8; username = codes "binod" }

too_late : (register catalog (codes "autumn") asha 201 []).0 ≡ raised contest_ended
unfolding register get_contest
too_late = refl

not_yet_registered :
    resolve_contest_submission catalog (codes "autumn") (codes "A") asha (codes "python") 150 []
    ≡ raised not_registered
unfolding resolve_contest_submission get_contest phase is_registered
not_yet_registered = refl

register-resolve_contest_submission_example :
    resolve_contest_submission catalog (codes "autumn") (codes "A") asha (codes "python") 150 (
      register_all catalog
        ((codes "autumn", (binod, 120)) ∷ [])
        (register catalog (codes "autumn") asha 50 []).1)
    ≡ resolve_entry catalog autumn (codes "A") (codes "python")
unfolding register get_contest phase is_registered
register-resolve_contest_submission_example =
    register-resolve_contest_submission catalog (codes "autumn") (codes "A") (codes "python") asha
      50 150 ((codes "autumn", (binod, 120)) ∷ []) [] autumn refl refl refl
