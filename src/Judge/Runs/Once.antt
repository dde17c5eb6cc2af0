-- ===== src/Judge/Runs/Once.antt =====
-- A run is run once and comes to an end: `run_code` of apps/judge/sahujudge/pipeline.py.

use sahucodex.Prelude.{
  ℕ, ◌+◌, ◌<◌, ◌≡◌, ◌⊎◌, refl, sym, ap, subst, ◌∙◌, inl, inr, true, none, some, raised, returned,
}
use sahucodex.Prelude.Texts.{Text}
use sahucodex.Judge.Failures.{Fallible}
use sahucodex.Judge.Sandbox.{Sandbox}
use sahucodex.Judge.Pipeline.{JudgeSettings}
use sahucodex.Judge.Runs.Stored.{
  load_run_record-store_run_record, load_run_record_stored, load_run_record-is_run_id,
}
use sahucodex.Judge.Runs.{
  RunRequest, RunReport, RunState, queued, running, mark_running, Between, RunEnd, completed,
  failed_with, RunRecord, RunWorld, skipped, is_run_id, load_run_record, run_error, run_request,
  finish_run, start_run, run_code,
}

-- How a run may have ended: with its result, or with an error.
abbrev pub IsOver : RunState → Type 0
IsOver state =
    ((report : RunReport) × (state ≡ completed report))
    ⊎ ((message : Text) × (state ≡ failed_with message))

-- A run that some delivery has taken.
abbrev IsTaken : RunState → Type 0
IsTaken state = ((request : RunRequest) × (state ≡ running request)) ⊎ IsOver state

-- Others leave the record of a run as it is.
abbrev pub Spares : {S : Type 0} → Text → (RunWorld S → RunWorld S) → Type 0
Spares {S} run_id f =
    (now : ℕ) (w : RunWorld S) → load_run_record run_id now (f w) ≡ load_run_record run_id now w

module _ {S : Type 0} (sandbox : Sandbox S) (settings : JudgeSettings) (run_result_ttl : ℕ) where
  -- A delivery of a run, at any times and whatever others do meanwhile.
  abbrev pub delivery : Between S → Text → ℕ → ℕ → ℕ → RunWorld S → RunEnd × RunWorld S
  delivery = run_code sandbox settings run_result_ttl

  run_code_taken :
      (others : Between S) (run_id : Text) (now marked_at later : ℕ) (w : RunWorld S)
      (value : RunRecord)
      → IsTaken value.state
      → (load_run_record run_id now w ≡ none) ⊎ (load_run_record run_id now w ≡ some value)
      → delivery others run_id now marked_at later w ≡ (skipped, w)
  unfolding run_code
  run_code_taken others run_id now marked_at later w value taken (inl gone) =
      rw (gone, run_code) refl
  run_code_taken others run_id now marked_at later w value (inl (request, runs)) (inr there) =
      rw (there, run_code) (rw (runs, run_code) refl)
  run_code_taken others run_id now marked_at later w value (inr (inl (report, done))) (inr there) =
      rw (there, run_code) (rw (done, run_code) refl)
  run_code_taken others run_id now marked_at later w value (inr (inr (message, done))) (inr there) =
      rw (there, run_code) (rw (done, run_code) refl)

  -- Where the record of a run is kept that is over, and a delivery is skipped.
  abbrev IsKept : Between S → Text → ℕ → ℕ → ℕ → ℕ → RunRecord → RunWorld S → Type 0
  IsKept second run_id read again marked_at later value w =
      ((end : RunRecord) × (load_run_record run_id read w ≡ some end)
        × (end.user_id ≡ value.user_id)
        × IsOver end.state)
      × (delivery second run_id again marked_at later w ≡ (skipped, w))

  finish_run-IsKept :
      (second : Between S) (run_id : Text) (value : RunRecord) (outcome : Fallible RunReport)
      (now read again marked_at later : ℕ) (w : RunWorld S)
      → is_run_id run_id ≡ true
      → read < now + run_result_ttl
      → IsKept second run_id read again marked_at later value
          (finish_run sandbox settings run_result_ttl run_id value outcome now w).1
  unfolding finish_run load_run_record
  finish_run-IsKept second run_id value (raised e) now read again marked_at later w named soon =
      let end = record value { state = failed_with (run_error sandbox settings run_result_ttl) } in
      let over : IsOver end.state = inr (run_error sandbox settings run_result_ttl, refl) in
      (
        (
          end,
          load_run_record-store_run_record run_id end run_result_ttl now read w named soon,
          refl,
          over,
        ),
        run_code_taken second run_id again marked_at later _ end (inr over)
            (load_run_record_stored run_id end run_result_ttl now again w),
      )
  finish_run-IsKept second run_id value (returned report) now read again marked_at later w named
        soon =
      let end = record value { state = completed report } in
      let over : IsOver end.state = inl (report, refl) in
      (
        (
          end,
          load_run_record-store_run_record run_id end run_result_ttl now read w named soon,
          refl,
          over,
        ),
        run_code_taken second run_id again marked_at later _ end (inr over)
            (load_run_record_stored run_id end run_result_ttl now again w),
      )

  start_run-IsKept :
      (others second : Between S) (run_id : Text) (value : RunRecord) (request : RunRequest)
      (marked_at closed_at read again marked_again later : ℕ) (w : RunWorld S)
      → is_run_id run_id ≡ true
      → read < closed_at + run_result_ttl
      → IsKept second run_id read again marked_again later value
          (start_run sandbox settings run_result_ttl others run_id value request marked_at closed_at
            w).1
  unfolding start_run
  start_run-IsKept others second run_id value request marked_at closed_at read again marked_again
        later w named soon =
      let w1 = others.after_mark (
        mark_running sandbox settings run_result_ttl run_id value request marked_at
          (others.after_load w)) in
      let ran = run_request sandbox settings run_result_ttl w1.db value.mode request w1.sandbox in
      finish_run-IsKept second run_id value ran.0 closed_at read again marked_again later
        (others.after_judging (record w1 { sandbox = ran.1 })) named soon

  run_code-queued :
      (others : Between S) (run_id : Text) (value : RunRecord) (request : RunRequest)
      (now marked_at later : ℕ) (w : RunWorld S)
      → load_run_record run_id now w ≡ some value
      → value.state ≡ queued request
      → delivery others run_id now marked_at later w
        ≡ start_run sandbox settings run_result_ttl others run_id value request marked_at later w
  unfolding run_code
  run_code-queued others run_id value request now marked_at later w there waits =
      rw (there, run_code) (rw (waits, run_code) refl)

  -- Once the record is marked, a delivery at any time is skipped.
  mark_running-skipped :
      (second : Between S) (run_id : Text) (value : RunRecord) (request : RunRequest)
      (now again marked_at later : ℕ) (w w1 : RunWorld S)
      → load_run_record run_id again w1
        ≡ load_run_record run_id again
            (mark_running sandbox settings run_result_ttl run_id value request now w)
      → delivery second run_id again marked_at later w1 ≡ (skipped, w1)
  unfolding mark_running load_run_record
  mark_running-skipped second run_id value request now again marked_at later w w1 same =
      let end = record value { state = running request } in
      run_code_taken second run_id again marked_at later w1 end (inl (request, refl)) (
        subst (λ x. (x ≡ none) ⊎ (x ≡ some end)) (sym same)
          (load_run_record_stored run_id end run_result_ttl now again w))

  -- The same, with a second delivery among what others do once the record is marked as running, both
  -- before the code is judged and after.
  abbrev pub redelivered : Between S → Between S → Text → ℕ → ℕ → ℕ → Between S
  redelivered others second run_id again marked_at later = record others {
    after_mark = λ w. (delivery second run_id again marked_at later (others.after_mark w)).1;
    after_judging = λ w. (delivery second run_id again marked_at later (others.after_judging w)).1;
  }

  start_run-redelivered :
      (others second : Between S) (run_id : Text) (value : RunRecord) (request : RunRequest)
      (marked_at closed_at again marked_again later : ℕ) (w : RunWorld S)
      → Spares run_id others.after_mark
      → Spares run_id others.after_judging
      → start_run sandbox settings run_result_ttl
          (redelivered others second run_id again marked_again later)
          run_id
          value
          request
          marked_at
          closed_at
          w
        ≡ start_run sandbox settings run_result_ttl others run_id value request marked_at closed_at
            w
  unfolding start_run load_run_record
  start_run-redelivered others second run_id value request marked_at closed_at again marked_again
        later w spared spared' =
      let w0 =
        mark_running sandbox settings run_result_ttl run_id value request marked_at
          (others.after_load w) in
      let w1 = others.after_mark w0 in
      let ran = run_request sandbox settings run_result_ttl w1.db value.mode request w1.sandbox in
      let w2 = record w1 { sandbox = ran.1 } in
      let first : (delivery second run_id again marked_again later w1).1 ≡ w1 =
        ap (λ x. x.1)
          (mark_running-skipped second run_id value request marked_at again marked_again later
            (others.after_load w) w1 (spared again w0)) in
      let then : (delivery second run_id again marked_again later (others.after_judging w2)).1
          ≡ others.after_judging w2 =
        ap (λ x. x.1)
          (mark_running-skipped second run_id value request marked_at again marked_again later
            (others.after_load w) (others.after_judging w2) (spared' again w2 ∙ spared again w0)) in
      rw first (rw then refl)

  -- When a queued run is delivered, whatever the judge does with it and whatever others do that leaves
  -- its record alone once it is marked: for as long as it is kept, the record is its user's and holds a
  -- result or an error and no longer the source. A second delivery after the first is skipped and
  -- changes nothing, and so does one while the code is judged or after that, once the record is marked
  -- as running: the run goes as if it had not come.
  pub run_code_lem :
      (others second : Between S) (run_id : Text) (value : RunRecord) (request : RunRequest)
      (now marked_at closed_at read again marked_again later : ℕ) (w : RunWorld S)
      → load_run_record run_id now w ≡ some value
      → value.state ≡ queued request
      → read < closed_at + run_result_ttl
      → Spares run_id others.after_mark
      → Spares run_id others.after_judging
      → let first = delivery others run_id now marked_at closed_at w in
        (((end : RunRecord) × (load_run_record run_id read first.1 ≡ some end)
            × (end.user_id ≡ value.user_id)
            × IsOver end.state)
          × (delivery second run_id again marked_again later first.1 ≡ (skipped, first.1)))
        × (delivery
              (redelivered others second run_id again marked_again later)
              run_id
              now
              marked_at
              closed_at
              w
            ≡ first)
  run_code_lem others second run_id value request now marked_at closed_at read again marked_again
        later w there waits soon spared spared' =
      let named = load_run_record-is_run_id run_id now w value there in
      let twice = redelivered others second run_id again marked_again later in
      rw
        (
          run_code-queued others run_id value request now marked_at closed_at w there waits,
          run_code-queued twice run_id value request now marked_at closed_at w there waits,
        )
        (
          start_run-IsKept others second run_id value request marked_at closed_at read again
              marked_again later w named soon,
          start_run-redelivered others second run_id value request marked_at closed_at again
              marked_again later w spared spared',
        )
