-- ===== src/Api/Limits.antt =====
-- apps/api/app/core/rate_limit.py: a sliding window over the times of the requests that were let in.
-- Times are numbers of microseconds; a key of Redis is the list of the scores it holds.
pub mod Window
pub mod Keys
mod Tests
use sahucodex.Prelude.{
  ℕ, ◌+◌, ◌-◌, ◌*◌, ◌/◌, Bool, true, false, ◌&&◌, ◌||◌, not, List, [], ◌∷◌, ◌++◌, ltb, leb,
  if◌then◌else◌, keep_if, length, min, max,
}

pub record RateLimit : Type 0 where
  pub limit : ℕ
  pub window_seconds : ℕ

pub record RateLimitResult : Type 0 where
  pub allowed : Bool
  pub retry_after : ℕ

abbrev pub second : ℕ
second = 1_000_000

-- What `zremrangebyscore(key, 0, now - window)` leaves.
abbrev pub is_recent : RateLimit → ℕ → ℕ → Bool
is_recent limit now time = ltb now (time + limit.window_seconds * second)

-- `zrange(key, 0, 0)` of a set that is not empty: the least score.
abbrev pub oldest : ℕ → List ℕ → ℕ
oldest first [] = first
oldest first (t ∷ ts) = min first (oldest t ts)

-- `math.ceil(oldest + window - now)` in seconds, or the window when the set is empty.
abbrev pub wait_for : RateLimit → ℕ → List ℕ → ℕ
wait_for limit now [] = limit.window_seconds
wait_for limit now (t ∷ ts) =
    (oldest t ts + limit.window_seconds * second - now + (second - 1)) / second

-- When Redis fails during a hit: never, in the pipeline, or after it.
pub data RedisState : Type 0 where
  answers fails_at_once fails_later : RedisState

abbrev pub let_in : RateLimitResult
let_in = record { allowed = true; retry_after = 0 }

-- `hit` on the key of one client: the result, and the key after it.
unfoldable pub hit : Bool → RedisState → RateLimit → ℕ → List ℕ → RateLimitResult × List ℕ
hit is_enabled redis limit now times =
    let recent = keep_if (is_recent limit now) times in
    let added = recent ++ now ∷ [] in
    if not is_enabled then (let_in, times) else elim redis [
      | fails_at_once ↦ (let_in, times)
      | answers ↦
          if leb (length added) limit.limit
          then (let_in, added)
          else (record { allowed = false; retry_after = max (wait_for limit now recent) 1 }, recent)
      | fails_later ↦ (let_in, added)
    ]
