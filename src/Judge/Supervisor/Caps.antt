-- ===== src/Judge/Supervisor/Caps.antt =====
-- What `cmd_run` (apps/judge/sahujudge/supervisor.py) captures of the program's output.
use sahucodex.Prelude.{
  ℕ, zero, suc, ◌-◌, ◌≡◌, refl, sym, ap, ◌∙◌, false, ◌||◌, List, [], ◌∷◌, ◌++◌, ltb, arith, length,
  take, inl, inr, Option-cases, length-take, length-append, append_assoc, append-nil,
}
use sahucodex.Judge.Supervisor.{
  RunArgs, Chunk, from_stdout, from_stderr, Capture, read_chunk, pump, Observation, Watch, poll,
  watch, unwatched, Ending,
}

-- The bytes of each stream among the chunks that are read.
abbrev pub stdout_of : List Chunk → List ℕ
stdout_of [] = []
stdout_of (from_stdout bytes ∷ chunks) = bytes ++ stdout_of chunks
stdout_of (from_stderr bytes ∷ chunks) = stdout_of chunks

abbrev pub stderr_of : List Chunk → List ℕ
stderr_of [] = []
stderr_of (from_stdout bytes ∷ chunks) = stderr_of chunks
stderr_of (from_stderr bytes ∷ chunks) = bytes ++ stderr_of chunks

abbrev pub chunks_of : List Observation → List Chunk
chunks_of [] = []
chunks_of (o ∷ os) = o.chunks ++ chunks_of os

-- What the program wrote while it ran and what was drained after its end.
abbrev pub written : List Observation → Ending → List Chunk
written observations ending = chunks_of observations ++ (ending.last_chunks ++ ending.drained)

-- A capture of the streams `out` and `err`: their beginnings, and whether `out` is cut.
abbrev IsCaptured : RunArgs → List ℕ → List ℕ → Capture → Type 0
IsCaptured args out err c =
    (c.out ≡ take args.max_output out)
    × (c.err ≡ take args.max_stderr err)
    × (c.out_over ≡ ltb args.max_output (length out))

take-append_more :
    (n : ℕ) (xs ys : List ℕ) → take n xs ++ take (n - length (take n xs)) ys ≡ take n (xs ++ ys)
take-append_more zero xs ys =
    let nothing : 0 - length (take 0 xs) ≡ 0 = omega arith in ap (λ k. take k ys) nothing
take-append_more (suc n) [] ys =
    let all : suc n - 0 ≡ suc n = omega arith in ap (λ k. take k ys) all
take-append_more (suc n) (x ∷ xs) ys =
    let same : suc n - length (take (suc n) (x ∷ xs)) ≡ n - length (take n xs) = omega arith in
    ap (◌∷◌ x) (ap (λ k. take n xs ++ take k ys) same ∙ take-append_more n xs ys)

over-append :
    (n : ℕ) (xs ys : List ℕ)
    → (ltb n (length xs) || ltb (n - length (take n xs)) (length ys)) ≡ ltb n (length (xs ++ ys))
over-append n xs ys = ground (arith, length-take n xs, length-append xs ys)

read_chunk-IsCaptured :
    (args : RunArgs) (out err : List ℕ) (c : Capture) (chunk : Chunk)
    → IsCaptured args out err c
    → IsCaptured args
        (out ++ stdout_of (chunk ∷ []))
        (err ++ stderr_of (chunk ∷ []))
        (read_chunk args c chunk)
unfolding read_chunk
read_chunk-IsCaptured args out err c (from_stdout bytes) (h, k, o) =
    rw (append-nil bytes, append-nil err)
      (rw (h, o)
        (take-append_more args.max_output out bytes, k, over-append args.max_output out bytes))
read_chunk-IsCaptured args out err c (from_stderr bytes) (h, k, o) =
    rw (append-nil bytes, append-nil out) (rw k (h, take-append_more args.max_stderr err bytes, o))

pump-IsCaptured :
    (args : RunArgs) (out err : List ℕ) (c : Capture) (chunks : List Chunk)
    → IsCaptured args out err c
    → IsCaptured args (out ++ stdout_of chunks) (err ++ stderr_of chunks) (pump args c chunks)
unfolding pump
pump-IsCaptured args out err c [] h = rw (append-nil out, append-nil err) h
pump-IsCaptured args out err c (from_stdout bytes ∷ chunks) h =
    let chunk = from_stdout bytes in
    let step = read_chunk-IsCaptured args out err c chunk h in
    let rest =
      pump-IsCaptured args (out ++ stdout_of (chunk ∷ [])) (err ++ stderr_of (chunk ∷ []))
        (read_chunk args c chunk) chunks step in
    let wanted : IsCaptured args (out ++ (bytes ++ stdout_of chunks)) (err ++ stderr_of chunks)
        (pump args (read_chunk args c chunk) chunks) =
      rw (append-nil bytes, append-nil err, append_assoc out bytes (stdout_of chunks)) at rest in
    wanted
pump-IsCaptured args out err c (from_stderr bytes ∷ chunks) h =
    let chunk = from_stderr bytes in
    let step = read_chunk-IsCaptured args out err c chunk h in
    let rest =
      pump-IsCaptured args (out ++ stdout_of (chunk ∷ [])) (err ++ stderr_of (chunk ∷ []))
        (read_chunk args c chunk) chunks step in
    let wanted : IsCaptured args (out ++ stdout_of chunks) (err ++ (bytes ++ stderr_of chunks))
        (pump args (read_chunk args c chunk) chunks) =
      rw (append-nil bytes, append-nil out, append_assoc err bytes (stderr_of chunks)) at rest in
    wanted

pump-append :
    (args : RunArgs) (c : Capture) (xs ys : List Chunk)
    → pump args c (xs ++ ys) ≡ pump args (pump args c xs) ys
unfolding pump
pump-append args c [] ys = refl
pump-append args c (x ∷ xs) ys = pump-append args (read_chunk args c x) xs ys

poll-capture :
    (args : RunArgs) (w : Watch) (o : Observation)
    → (poll args w o).capture ≡ pump args w.capture o.chunks
unfolding poll
poll-capture args w o = elim (Option-cases w.killed) [
  | inl alive ↦ rw (alive, poll) refl
  | inr (reason, dead) ↦ rw (dead, poll) refl
]

watch-capture :
    (args : RunArgs) (w : Watch) (observations : List Observation)
    → (watch args w observations).capture ≡ pump args w.capture (chunks_of observations)
unfolding watch pump
watch-capture args w [] = refl
watch-capture args w (o ∷ os) =
    watch-capture args (poll args w o) os
    ∙ ap (λ c. pump args c (chunks_of os)) (poll-capture args w o)
    ∙ sym (pump-append args w.capture o.chunks (chunks_of os))

starts : (n : ℕ) → [] ≡ take {A = ℕ} n []
starts zero = refl
starts (suc n) = refl

over_none : (n : ℕ) → false ≡ ltb n 0
over_none n = ground arith

-- The capture when the drain is over.
pub captured :
    (args : RunArgs) (observations : List Observation) (ending : Ending)
    → let c =
        pump args
          (pump args (watch args unwatched observations).capture ending.last_chunks)
          ending.drained in
      (c.out ≡ take args.max_output (stdout_of (written observations ending)))
      × (c.err ≡ take args.max_stderr (stderr_of (written observations ending)))
      × (c.out_over ≡ ltb args.max_output (length (stdout_of (written observations ending))))
captured args observations ending =
    let start = unwatched.capture in
    let one : pump args (pump args (watch args unwatched observations).capture ending.last_chunks)
          ending.drained
        ≡ pump args start (written observations ending) =
      ap (λ c. pump args (pump args c ending.last_chunks) ending.drained)
        (watch-capture args unwatched observations)
      ∙ sym (
          pump-append args start (chunks_of observations) (ending.last_chunks ++ ending.drained)
          ∙ pump-append args (pump args start (chunks_of observations)) ending.last_chunks
              ending.drained) in
    rw one (
      pump-IsCaptured args [] [] start (written observations ending)
        (starts args.max_output, starts args.max_stderr, over_none args.max_output))
