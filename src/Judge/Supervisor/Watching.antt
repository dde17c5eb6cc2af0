-- ===== src/Judge/Supervisor/Watching.antt =====
-- The polling loop of `cmd_run` (apps/judge/sahujudge/supervisor.py) ends a program that does not end.
use sahucodex.Prelude.{
  ℕ, ◌+◌, ◌≤◌, ◌<◌, ◌≡◌, ◌≢◌, refl, ◌∙◌, inl, inr, List, [], ◌∷◌, none, some, ltb, arith,
  Bool-cases, Option-cases, length, lt→ltb,
}
use sahucodex.Judge.Sandbox.{RunStatus, exited, timeout, output_limit}
use sahucodex.Judge.Supervisor.Verdicts.{kill_reason-not_exited}
use sahucodex.Judge.Supervisor.{
  RunArgs, Capture, Observation, Watch, Ending, classify, kill_reason, poll, watch, pump, unwatched,
  cmd_run, killed_at_last,
}

-- The clock moves between two turns, each of which waits for the program's output.
abbrev pub IsTicking : ℕ → List Observation → Type 0
IsTicking time [] = Unit
IsTicking time (o ∷ os) = (time < o.wall_ms) × IsTicking o.wall_ms os

-- A turn after the wall-clock limit has a reason to kill.
kill_reason_late :
    (args : RunArgs) (c : Capture) (o : Observation)
    → args.wall_ms < o.wall_ms
    → (reason : RunStatus) × (kill_reason args c o ≡ some reason)
unfolding kill_reason
kill_reason_late args c o late = elim (Bool-cases c.out_over) [
  | inl over ↦ rw over (output_limit, refl)
  | inr within ↦ (timeout, ground (arith, within, lt→ltb args.wall_ms o.wall_ms late))
]

poll_killed :
    (args : RunArgs) (w : Watch) (o : Observation) (reason : RunStatus)
    → w.killed ≡ some reason
    → (poll args w o).killed ≡ some reason
unfolding poll
poll_killed args w o reason dead = rw (dead, poll) dead

poll_alive :
    (args : RunArgs) (w : Watch) (o : Observation)
    → w.killed ≡ none
    → (poll args w o).killed ≡ kill_reason args (pump args w.capture o.chunks) o
unfolding poll
poll_alive args w o alive = rw (alive, poll) refl

watch_killed :
    (args : RunArgs) (w : Watch) (os : List Observation) (reason : RunStatus)
    → w.killed ≡ some reason
    → (watch args w os).killed ≡ some reason
unfolding watch
watch_killed args w [] reason dead = dead
watch_killed args w (o ∷ os) reason dead =
    watch_killed args (poll args w o) os reason (poll_killed args w o reason dead)

-- The child is killed by the time the clock has passed the limit.
watch_kills :
    (args : RunArgs) (w : Watch) (time : ℕ) (os : List Observation)
    → w.killed ≡ none
    → IsTicking time os
    → time ≤ args.wall_ms
    → args.wall_ms < time + length os
    → (reason : RunStatus) × ((watch args w os).killed ≡ some reason)
unfolding watch
watch_kills args w time [] alive ticks early long = absurd (omega arith)
watch_kills args w time (o ∷ os) alive (tick, ticks) early long =
    let polled = poll_alive args w o alive in
    elim (Option-cases (kill_reason args (pump args w.capture o.chunks) o)) [
      | inr (reason, found) ↦ (reason, watch_killed args (poll args w o) os reason (polled ∙ found))
      | inl spared ↦ elim (Bool-cases (ltb args.wall_ms o.wall_ms)) [
        | inl late ↦
            let (reason, found) =
              kill_reason_late args (pump args w.capture o.chunks) o (ground (arith, late)) in
            absurd (ground (arith, spared, found))
        | inr in_time ↦
            watch_kills args (poll args w o) o.wall_ms os (polled ∙ spared) ticks
              (ground (arith, in_time)) (omega (arith, tick, long))
      ]
    ]

-- Where the clock moves on between the turns of the loop, a child
-- that has not ended after one turn more than the wall-clock limit has milliseconds has been killed,
-- and the reply names the reason, which is not a normal end.
pub cmd_run_kills :
    (args : RunArgs) (observations : List Observation) (ending : Ending)
    → IsTicking 0 observations
    → args.wall_ms < length observations
    → (reason : RunStatus) × ((watch args unwatched observations).killed ≡ some reason)
      × ((cmd_run args observations ending).0.status ≡ reason)
      × (reason ≢ exited)
unfolding cmd_run classify
cmd_run_kills args observations ending ticks long =
    let (reason, dead) =
      watch_kills args unwatched 0 observations refl ticks (omega arith) (omega (arith, long)) in
    let not_exited = kill_reason-not_exited args unwatched observations (λ e. ground arith) in
    (reason, dead, rw (dead, killed_at_last, classify) refl, λ e. not_exited (rw e at dead))
