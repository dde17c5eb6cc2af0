-- ===== src/Api/Limits/Window.antt =====
-- The limiter of apps/api/app/core/rate_limit.py lets no more than its limit through in a window.
use sahucodex.Prelude.{
  ℕ, ◌+◌, ◌*◌, ◌≤◌, ◌<◌, ◌≡◌, refl, ap, ◌∙◌, inl, inr, Bool, true, false, List, [], ◌∷◌, ◌++◌, leb,
  arith, Bool-cases, keep_if, length, length-append, length-keep_if, max, if◌then◌else◌,
}
use sahucodex.Prelude.Tables.{count_where, count_where-append}
use sahucodex.Api.Limits.{RateLimit, answers, second, is_recent, oldest, wait_for, hit}

-- The requests at the times of the list, one after another, from a key that holds `held`: the key
-- after them, and the times of those that were let in.
abbrev pub serve : RateLimit → List ℕ → List ℕ → List ℕ × List ℕ
serve limit held [] = (held, [])
serve limit held (now ∷ nows) =
    let (result, held') = hit true answers limit now held in
    let (held'', admitted) = serve limit held' nows in
    (held'', if result.allowed then now ∷ admitted else admitted)

-- The times do not go back.
abbrev pub IsOrdered : ℕ → List ℕ → Type 0
IsOrdered last [] = Unit
IsOrdered last (now ∷ nows) = (last ≤ now) × IsOrdered now nows

abbrev pub last_of : ℕ → List ℕ → ℕ
last_of last [] = last
last_of last (now ∷ nows) = last_of now nows

hit-length :
    (limit : RateLimit) (now : ℕ) (held : List ℕ)
    → length held ≤ limit.limit
    → length (hit true answers limit now held).1 ≤ limit.limit
unfolding hit
hit-length limit now held h =
    elim (Bool-cases (leb (length (keep_if (is_recent limit now) held ++ now ∷ [])) limit.limit)) [
      | inl fits ↦ rw (fits, hit) (ground (arith, fits))
      | inr over ↦ rw (over, hit) (ground (arith, length-keep_if (is_recent limit now) held, h))
    ]

-- What is recent later was recent before.
count_recent :
    (limit : RateLimit) (now later : ℕ) (held : List ℕ)
    → now ≤ later
    → count_where (is_recent limit later) (keep_if (is_recent limit now) held)
      ≡ count_where (is_recent limit later) held
count_recent limit now later [] h = refl
count_recent limit now later (t ∷ ts) h = ground (arith, count_recent limit now later ts, h)

count_where-le_length : (p : ℕ → Bool) (xs : List ℕ) → count_where p xs ≤ length xs
count_where-le_length p [] = omega arith
count_where-le_length p (x ∷ xs) = ground (arith, count_where-le_length p xs)

-- A hit adds its time to the key when it is let in; what is recent at a later time is kept.
count_where-hit :
    (limit : RateLimit) (now later : ℕ) (held : List ℕ)
    → now ≤ later
    → count_where (is_recent limit later) (hit true answers limit now held).1
      ≡ count_where (is_recent limit later) held
        + (if (hit true answers limit now held).0.allowed
            then count_where (is_recent limit later) (now ∷ [])
            else 0)
unfolding hit
count_where-hit limit now later held h =
    let recent = keep_if (is_recent limit now) held in
    let kept = count_recent limit now later held h in
    elim (Bool-cases (leb (length (recent ++ now ∷ [])) limit.limit)) [
      | inl fits ↦
          rw (fits, hit)
            (count_where-append (is_recent limit later) recent (now ∷ [])
              ∙ ap (λ n. n + count_where (is_recent limit later) (now ∷ [])) kept)
      | inr over ↦ rw (over, hit) (omega (arith, kept))
    ]

last_of-le : (last : ℕ) (times : List ℕ) → IsOrdered last times → last ≤ last_of last times
last_of-le last [] h = omega arith
last_of-le last (now ∷ nows) h = omega (arith, last_of-le now nows h.1, h.0)

count_where-serve :
    (limit : RateLimit) (last later : ℕ) (held times : List ℕ)
    → IsOrdered last times
    → last_of last times ≤ later
    → count_where (is_recent limit later) (serve limit held times).0
      ≡ count_where (is_recent limit later) held
        + count_where (is_recent limit later) (serve limit held times).1
count_where-serve limit last later held [] o h = omega arith
count_where-serve limit last later held (now ∷ nows) o h =
    let first = hit true answers limit now held in
    let step = count_where-hit limit now later held (omega (arith, last_of-le now nows o.1)) in
    let rest = count_where-serve limit now later first.1 nows o.1 h in
    elim (Bool-cases first.0.allowed) [
      | inl admitted ↦ rw admitted (ground (arith, rw admitted at step, rest))
      | inr refused ↦ rw refused (ground (arith, rw refused at step, rest))
    ]

serve-length :
    (limit : RateLimit) (held times : List ℕ)
    → length held ≤ limit.limit
    → length (serve limit held times).0 ≤ limit.limit
serve-length limit held [] h = h
serve-length limit held (now ∷ nows) h =
    serve-length limit (hit true answers limit now held).1 nows (hit-length limit now held h)

-- Of the requests of one client, whose times do not go back, no more than the limit are let in
-- within any window that ends at the last request or later.
pub serve_within_limit :
    (limit : RateLimit) (start later : ℕ) (times : List ℕ)
    → IsOrdered start times
    → last_of start times ≤ later
    → count_where (is_recent limit later) (serve limit [] times).1 ≤ limit.limit
serve_within_limit limit start later times o h = omega (
  arith,
  count_where-serve limit start later [] times o h,
  count_where-le_length (is_recent limit later) (serve limit [] times).0,
  serve-length limit [] times (omega arith),
)

-- The least time of a key that is not empty is in it, and drops out of the window in `wait_for`.
count_where-oldest :
    (limit : RateLimit) (later t : ℕ) (ts : List ℕ)
    → is_recent limit later (oldest t ts) ≡ false
    → count_where (is_recent limit later) (t ∷ ts) < length (t ∷ ts)
count_where-oldest limit later t [] h = ground (arith, h)
count_where-oldest limit later t (u ∷ us) h = ground (
  arith,
  count_where-oldest limit later u us,
  h,
  count_where-le_length (is_recent limit later) (u ∷ us),
)

length-keep_if_recent :
    (limit : RateLimit) (later : ℕ) (held : List ℕ)
    → length (keep_if (is_recent limit later) held) ≡ count_where (is_recent limit later) held
length-keep_if_recent limit later [] = refl
length-keep_if_recent limit later (t ∷ ts) = ground (arith, length-keep_if_recent limit later ts)

wait_for-enough :
    (limit : RateLimit) (now later t : ℕ) (ts : List ℕ)
    → now + max (wait_for limit now (t ∷ ts)) 1 * second ≤ later
    → is_recent limit later (oldest t ts) ≡ false
wait_for-enough limit now later t ts h = ground (arith, h)

room_later :
    (limit : RateLimit) (now later : ℕ) (recent : List ℕ)
    → length recent ≤ limit.limit
    → 1 ≤ limit.limit
    → now + max (wait_for limit now recent) 1 * second ≤ later
    → length (keep_if (is_recent limit later) recent ++ later ∷ []) ≤ limit.limit
room_later limit now later [] fits some_room h = omega arith
room_later limit now later (t ∷ ts) fits some_room h = omega (
  arith,
  length-append (keep_if (is_recent limit later) (t ∷ ts)) (later ∷ []),
  length-keep_if_recent limit later (t ∷ ts),
  count_where-oldest limit later t ts (wait_for-enough limit now later t ts h),
)

-- A client that is refused and sends its next request when `retry_after` seconds have passed is let
-- in, provided that the limit lets anything in and that the key held no more than it allows.
pub retry_after_suffices :
    (limit : RateLimit) (now later : ℕ) (held : List ℕ)
    → length held ≤ limit.limit
    → 1 ≤ limit.limit
    → (hit true answers limit now held).0.allowed ≡ false
    → now + (hit true answers limit now held).0.retry_after * second ≤ later
    → (hit true answers limit later (hit true answers limit now held).1).0.allowed ≡ true
unfolding hit
retry_after_suffices limit now later held fits some_room refused waited =
    let recent = keep_if (is_recent limit now) held in
    elim (Bool-cases (leb (length (recent ++ now ∷ [])) limit.limit)) [
      | inl admitted ↦ absurd (ground (arith, rw (admitted, hit) at refused))
      | inr over ↦
          let left : length recent ≤ limit.limit =
            omega (arith, length-keep_if (is_recent limit now) held) in
          let long_enough : now + max (wait_for limit now recent) 1 * second ≤ later =
            rw (over, hit) at waited in
          let room : leb (length (keep_if (is_recent limit later) recent ++ later ∷ [])) limit.limit
              ≡ true =
            ground (arith, room_later limit now later recent left some_room long_enough) in
          rw (over, hit) (rw (room, hit) refl)
    ]
