-- ===== src/Api/Limits/Keys.antt =====
-- `RateLimiter.enforce` (apps/api/app/core/rate_limit.py) over all the keys of Redis.
use sahucodex.Prelude.{ℕ, Bool, not, List, ◌++◌, if◌then◌else◌, Outcome, raise_if}
use sahucodex.Prelude.Texts.{Text, codes, eq_text}
use sahucodex.Api.Limits.{RateLimit, RedisState, hit}

-- A key that is not there is empty.
abbrev pub Keys : Type 0
Keys = Text → List ℕ

abbrev pub set_key : Text → List ℕ → Keys → Keys
set_key key times keys k = if eq_text k key then times else keys k

-- `f"rl:{scope}:{identifier}"`
abbrev pub key_of : Text → Text → Text
key_of scope identifier = codes "rl:" ++ scope ++ codes ":" ++ identifier

-- `enforce` raises a 429 with the seconds to wait.
unfoldable pub enforce :
    Bool → RedisState → Text → Text → RateLimit → ℕ → Keys → Outcome ℕ Unit × Keys
unfolding hit
enforce is_enabled redis scope identifier limit now keys =
    let key = key_of scope identifier in
    let (result, times) = hit is_enabled redis limit now (keys key) in
    (raise_if (not result.allowed) result.retry_after, set_key key times keys)
