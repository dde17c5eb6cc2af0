-- ===== src/Judge/Supervisor/Verdicts.antt =====
-- What the reply of `cmd_run` (apps/judge/sahujudge/supervisor.py) says of the program.
use sahucodex.Prelude.{
  ℕ, ◌+◌, ◌*◌, ◌≤◌, ◌≡◌, ◌≢◌, ◌↔◌, refl, sym, ap, subst, ◌∙◌, Bool, true, false, List, [], ◌∷◌,
  Option, none, some, arith, length, take, drop, max, length-append, take-append, drop-append,
}
use sahucodex.Prelude.Int.{ℤ, pos, negsuc}
use sahucodex.Judge.Sandbox.{RunStatus, exited}
use sahucodex.Judge.Supervisor.{
  RunArgs, Observation, Watch, Ending, classify, status_of_end, watch, poll, unwatched, pump,
  cmd_run, killed_at_last, kill_reason,
}
use sahucodex.Judge.Supervisor.Caps.{written, stdout_of, stderr_of, captured}

-- The body of the reply is the beginning of what the program wrote to stdout, up to its cap,
-- followed by the beginning of its stderr, and the two lengths in the header are where to cut it.
pub cmd_run-splits :
    (args : RunArgs) (observations : List Observation) (ending : Ending)
    → let (header, body) = cmd_run args observations ending in
      (header.stdout_len + header.stderr_len ≡ length body)
      × (take header.stdout_len body
          ≡ take args.max_output (stdout_of (written observations ending)))
      × (drop header.stdout_len body
          ≡ take args.max_stderr (stderr_of (written observations ending)))
unfolding cmd_run
cmd_run-splits args observations ending =
    let c =
      pump args (pump args (watch args unwatched observations).capture ending.last_chunks)
        ending.drained in
    let (out_cut, err_cut, over) = captured args observations ending in
    (
      sym (length-append c.out c.err),
      take-append c.out c.err ∙ out_cut,
      drop-append c.out c.err ∙ err_cut,
    )

-- Nothing kills a program with the status of a normal end.
pub kill_reason-not_exited :
    (args : RunArgs) (w : Watch) (observations : List Observation)
    → w.killed ≢ some exited
    → (watch args w observations).killed ≢ some exited
unfolding watch poll kill_reason
kill_reason-not_exited args w [] h = h
kill_reason-not_exited args w (o ∷ os) h =
    kill_reason-not_exited args (poll args w o) os (ground (arith, h))

-- A program that was not killed is reported as ended normally exactly when no signal ended it and
-- its CPU time and its memory are within their limits.
pub classify_exited_iff :
    (code : ℤ) (cpu_ms memory_kb time_ms memory_limit_kb : ℕ) (oom : Bool)
    → ((classify none code cpu_ms memory_kb time_ms memory_limit_kb oom).0 ≡ exited)
      ↔ (((n : ℕ) × (code ≡ pos n)) × (cpu_ms ≤ time_ms) × (memory_kb ≤ memory_limit_kb))
unfolding classify status_of_end
classify_exited_iff (pos n) cpu_ms memory_kb time_ms memory_limit_kb oom =
    (λ h. ((n, refl), ground arith, ground arith), λ h. ground (arith, h))
classify_exited_iff (negsuc n) cpu_ms memory_kb time_ms memory_limit_kb oom =
    (λ h. absurd (ground arith), λ ((m, h), k, l). absurd (ground arith))

exited_spared :
    (killed : Option RunStatus) (code : ℤ) (cpu_ms memory_kb time_ms memory_limit_kb : ℕ)
    (oom : Bool)
    → killed ≢ some exited
    → (classify killed code cpu_ms memory_kb time_ms memory_limit_kb oom).0 ≡ exited
    → killed ≡ none
unfolding classify
exited_spared none code cpu_ms memory_kb time_ms memory_limit_kb oom h e = refl
exited_spared (some r) code cpu_ms memory_kb time_ms memory_limit_kb oom h e =
    absurd (h (ap (λ x. some x) e))

killed_at_last-not_exited :
    (killed : Option RunStatus) (out_over : Bool)
    → killed ≢ some exited
    → killed_at_last killed out_over ≢ some exited
killed_at_last-not_exited (some r) out_over h = h
killed_at_last-not_exited none true h = λ e. ground arith
killed_at_last-not_exited none false h = h

killed_at_last-none :
    (killed : Option RunStatus) (out_over : Bool)
    → killed_at_last killed out_over ≡ none
    → (killed ≡ none) × (out_over ≡ false)
killed_at_last-none (some r) out_over h = absurd (ground arith)
killed_at_last-none none true h = absurd (ground arith)
killed_at_last-none none false h = (refl, refl)

-- The status says that the program ended normally only if nothing killed it, no signal ended it,
-- all it wrote to stdout was captured, and its CPU time and memory are within the limits.
pub cmd_run_exited :
    (args : RunArgs) (observations : List Observation) (ending : Ending)
    → let header = (cmd_run args observations ending).0 in
      header.status ≡ exited
      → ((watch args unwatched observations).killed ≡ none)
        × ((n : ℕ) × (ending.code ≡ pos n))
        × (length (stdout_of (written observations ending)) ≤ args.max_output)
        × (header.cpu_ms ≤ args.time_ms)
        × (header.memory_kb ≤ args.memory_mb * 1024)
unfolding cmd_run
cmd_run_exited args observations ending h =
    let w = watch args unwatched observations in
    let c = pump args (pump args w.capture ending.last_chunks) ending.drained in
    let (out_cut, err_cut, over) = captured args observations ending in
    let alive = kill_reason-not_exited args unwatched observations (λ e. ground arith) in
    let killed = killed_at_last w.killed c.out_over in
    let spared =
      exited_spared killed ending.code ending.cpu_ms (max ending.max_rss_kb w.peak_rss_kb)
        args.time_ms (args.memory_mb * 1024) ending.oom
        (killed_at_last-not_exited w.killed c.out_over alive) h in
    let (unkilled, fits) = killed_at_last-none w.killed c.out_over spared in
    let (ended, within_time, within_memory) =
      (classify_exited_iff ending.code ending.cpu_ms (max ending.max_rss_kb w.peak_rss_kb)
          args.time_ms (args.memory_mb * 1024) ending.oom).0
        (subst
          (λ k.
            (classify k ending.code ending.cpu_ms (max ending.max_rss_kb w.peak_rss_kb) args.time_ms
              (args.memory_mb * 1024) ending.oom).0
            ≡ exited)
          spared h) in
    (unkilled, ended, ground (arith, over, fits), within_time, within_memory)
