-- ===== src/Judge/Runs/Stored.antt =====
-- The record of a run in Redis, stored and loaded (apps/api/app/modules/submissions/runs.py).

use sahucodex.Prelude.{
  ℕ, ◌+◌, ◌<◌, ◌≡◌, ◌⊎◌, refl, inl, inr, true, List, [], ◌∷◌, none, some, ltb, arith, lt→ltb,
  Bool-cases, first_of?,
}
use sahucodex.Prelude.Texts.{Text, eq_text, eq_text_refl}
use sahucodex.Prelude.Tables.{delete_where}
use sahucodex.Judge.Runs.{
  RunRecord, RunEntry, RunWorld, is_run_id, run_key, is_entry, load_run_record, store_run_record,
}

none_left :
    (key : Text) (now : ℕ) (entries : List RunEntry)
    → first_of? (is_entry key now) (delete_where (λ e. eq_text e.key key) entries) ≡ none
none_left key now [] = refl
none_left key now (e ∷ entries) = elim (Bool-cases (eq_text e.key key)) [
  | inl gone ↦ rw gone (none_left key now entries)
  | inr kept ↦ rw kept (rw kept (none_left key now entries))
]

module _ {S : Type 0} where
  pub load_run_record-store_run_record :
      (run_id : Text) (value : RunRecord) (ttl now later : ℕ) (w : RunWorld S)
      → is_run_id run_id ≡ true
      → later < now + ttl
      → load_run_record run_id later (store_run_record run_id value ttl now w) ≡ some value
  unfolding load_run_record store_run_record
  load_run_record-store_run_record run_id value ttl now later w named soon =
      rw (named, load_run_record)
        (rw (eq_text_refl (run_key run_id), lt→ltb later (now + ttl) soon) refl)

  pub load_run_record_stored :
      (run_id : Text) (value : RunRecord) (ttl now later : ℕ) (w : RunWorld S)
      → (load_run_record run_id later (store_run_record run_id value ttl now w) ≡ none)
        ⊎ (load_run_record run_id later (store_run_record run_id value ttl now w) ≡ some value)
  unfolding load_run_record store_run_record
  load_run_record_stored run_id value ttl now later w = elim (Bool-cases (is_run_id run_id)) [
    | inr other ↦ inl (rw (other, load_run_record) refl)
    | inl named ↦ elim (Bool-cases (ltb later (now + ttl))) [
      | inl soon ↦ inr (
          load_run_record-store_run_record run_id value ttl now later w named
            (ground (arith, soon)))
      | inr late ↦ inl (
          rw (named, load_run_record)
            (rw (eq_text_refl (run_key run_id), late)
              (rw (none_left (run_key run_id) later w.runs) refl)))
    ]
  ]

  pub load_run_record-is_run_id :
      (run_id : Text) (now : ℕ) (w : RunWorld S) (value : RunRecord)
      → load_run_record run_id now w ≡ some value
      → is_run_id run_id ≡ true
  unfolding load_run_record
  load_run_record-is_run_id run_id now w value h = elim (Bool-cases (is_run_id run_id)) [
    | inl named ↦ named
    | inr other ↦ absurd (ground (arith, rw (other, load_run_record) at h))
  ]
