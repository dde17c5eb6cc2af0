-- ===== src/Api/Limits/Tests.antt =====
-- Requests of one client, and instances of the theorems on apps/api/app/core/rate_limit.py.
use sahucodex.Prelude.{ℕ, ◌+◌, ◌*◌, ◌≤◌, ◌≡◌, refl, true, false, List, [], ◌∷◌, arith}
use sahucodex.Prelude.Tables.{count_where}
use sahucodex.Api.Limits.{RateLimit, answers, is_recent, hit, second}
use sahucodex.Api.Limits.Window.{serve, serve_within_limit, retry_after_suffices}

-- Two requests in ten seconds.
abbrev two_in_ten : RateLimit
two_in_ten = record { limit = 2; window_seconds = 10 }

abbrev times : List ℕ
times = 20_000_000 ∷ 21_000_000 ∷ 22_000_000 ∷ 31_500_000 ∷ []

third_is_refused : (serve two_in_ten [] times).1 ≡ 20_000_000 ∷ 21_000_000 ∷ 31_500_000 ∷ []
unfolding hit
third_is_refused = refl

serve_within_limit_example :
    count_where (is_recent two_in_ten 32_000_000) (serve two_in_ten [] times).1 ≤ 2
serve_within_limit_example =
    serve_within_limit two_in_ten 0 32_000_000 times
      (omega arith, (omega arith, (omega arith, (omega arith, tt)))) (omega arith)

abbrev full : List ℕ
full = 20_000_000 ∷ 21_000_000 ∷ []

refused : (hit true answers two_in_ten 22_000_000 full).0.allowed ≡ false
unfolding hit
refused = refl

eight_seconds : (hit true answers two_in_ten 22_000_000 full).0.retry_after ≡ 8
unfolding hit
eight_seconds = refl

waited :
    22_000_000 + (hit true answers two_in_ten 22_000_000 full).0.retry_after * second ≤ 30_000_000
unfolding hit
waited = omega arith

retry_after_suffices_example :
    (hit true answers two_in_ten 30_000_000
      (hit true answers two_in_ten 22_000_000 full).1).0.allowed
    ≡ true
retry_after_suffices_example =
    retry_after_suffices two_in_ten 22_000_000 30_000_000 full (omega arith) (omega arith) refused
      waited
