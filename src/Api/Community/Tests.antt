-- ===== src/Api/Community/Tests.antt =====
-- Votes on one discussion, and instances of the theorems on
-- apps/api/app/modules/community/service.py.
use sahucodex.Prelude.{◌≡◌, refl, false, [], ◌∷◌, some, returned, arith}
use sahucodex.Prelude.Int.{pos, negsuc, ◌+ℤ◌, ◌-ℤ◌}
use sahucodex.Api.Community.{discussion, comment, Discussion, Forum, cast_vote}
use sahucodex.Api.Community.Tally.{IsTallied}
use sahucodex.Api.Community.Votes.{casts, removes, vote_all, vote_all-IsTallied}

abbrev thread : Discussion
thread = record {
  id = 4;
  problem_id = 2;
  author_id = some 7;
  title = [];
  body = [];
  vote_score = pos 1;
  comment_count = 0;
  removed = false;
  locked = false;
}

abbrev forum : Forum
forum = record {
  discussions = thread ∷ [];
  comments = [];
  votes = record { user_id = 9; target_type = discussion; target_id = 4; value = pos 1 } ∷ [];
}

changing_a_vote : (cast_vote discussion 4 9 (negsuc 0) forum).0 ≡ returned (negsuc 0)
unfolding cast_vote ◌+ℤ◌ ◌-ℤ◌
changing_a_vote = refl

forum-IsTallied : IsTallied forum
unfolding ◌+ℤ◌
forum-IsTallied discussion id score h = ground (arith, h)
forum-IsTallied comment id score h = ground (arith, h)

vote_all-IsTallied_example :
    IsTallied (vote_all (casts discussion 4 9 (negsuc 0) ∷ removes discussion 4 9 ∷ []) forum)
vote_all-IsTallied_example =
    vote_all-IsTallied (casts discussion 4 9 (negsuc 0) ∷ removes discussion 4 9 ∷ []) forum
      forum-IsTallied
