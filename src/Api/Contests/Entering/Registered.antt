-- ===== src/Api/Contests/Entering/Registered.antt =====
-- Registering for a contest and submitting to it (apps/api/app/modules/contests/service.py).
use sahucodex.Prelude.{
  ℕ, ◌≡◌, refl, inl, inr, true, List, [], ◌∷◌, ◌++◌, ltb, arith, ==_iff, Bool-cases, any_of-append,
  returned, raised, Outcome-cases,
}
use sahucodex.Prelude.Texts.{Text}
use sahucodex.Api.Contests.{Contest, ContestParticipant, phase, running}
use sahucodex.Api.Contests.Entering.{
  Catalog, Entrant, contest_ended, get_contest, is_participation, is_registered, participation,
  register, resolve_entry, resolve_contest_submission,
}

is_registered-append :
    (contest_id user_id : ℕ) (rows more : List ContestParticipant)
    → is_registered contest_id user_id rows ≡ true
    → is_registered contest_id user_id (rows ++ more) ≡ true
unfolding is_registered
is_registered-append contest_id user_id rows more h =
    rw (any_of-append (is_participation contest_id user_id) rows more) (rw h refl)

register_keeps :
    (catalog : Catalog) (slug : Text) (user : Entrant) (now : ℕ) (rows : List ContestParticipant)
    (contest_id user_id : ℕ)
    → is_registered contest_id user_id rows ≡ true
    → is_registered contest_id user_id (register catalog slug user now rows).1 ≡ true
unfolding register
register_keeps catalog slug user now rows contest_id user_id h =
    elim (Outcome-cases (get_contest catalog slug)) [
      | inl (e, missing) ↦ rw (missing, register) h
      | inr (contest, found) ↦
          rw (found, register)
            (elim (Bool-cases (ltb contest.end_time now)) [
              | inl over ↦ rw (over, register) h
              | inr open_still ↦
                  rw (open_still, register)
                    (elim (Bool-cases (is_registered contest.id user.id rows)) [
                      | inl before ↦ rw (before, register) h
                      | inr first ↦
                          rw (first, register)
                            (is_registered-append contest_id user_id rows
                              (participation contest user ∷ []) h)
                    ])
            ])
    ]

register_enters :
    (catalog : Catalog) (slug : Text) (user : Entrant) (now : ℕ) (rows : List ContestParticipant)
    (contest : Contest)
    → get_contest catalog slug ≡ returned contest
    → (register catalog slug user now rows).0 ≡ returned tt
    → is_registered contest.id user.id (register catalog slug user now rows).1 ≡ true
unfolding register is_registered
register_enters catalog slug user now rows contest found accepted =
    let is_old = ltb contest.end_time now in
    rw (found, register)
      (elim (Bool-cases is_old) [
        | inl over ↦
            let refused : (register catalog slug user now rows).0 ≡ raised contest_ended =
              rw (found, register) (rw (over, register) refl) in
            absurd (ground (arith, refused, accepted))
        | inr open_still ↦
            rw (open_still, register)
              (elim (Bool-cases (is_registered contest.id user.id rows)) [
                | inl before ↦ rw (before, register) before
                | inr first ↦
                    rw (first, register)
                      (rw
                        (any_of-append (is_participation contest.id user.id) rows
                          (participation contest user ∷ []))
                        (ground (arith, ==_iff contest.id contest.id, ==_iff user.id user.id)))
              ])
      ])

-- Registrations that follow, each with its slug, its user and its time.
abbrev pub register_all :
    Catalog → List (Text × (Entrant × ℕ)) → List ContestParticipant → List ContestParticipant
register_all catalog [] rows = rows
register_all catalog ((slug, (user, now)) ∷ attempts) rows =
    register_all catalog attempts (register catalog slug user now rows).1

register_all_keeps :
    (catalog : Catalog) (attempts : List (Text × (Entrant × ℕ))) (rows : List ContestParticipant)
    (contest_id user_id : ℕ)
    → is_registered contest_id user_id rows ≡ true
    → is_registered contest_id user_id (register_all catalog attempts rows) ≡ true
register_all_keeps catalog [] rows contest_id user_id h = h
register_all_keeps catalog ((slug, (user, now)) ∷ attempts) rows contest_id user_id h =
    register_all_keeps catalog attempts (register catalog slug user now rows).1 contest_id user_id
      (register_keeps catalog slug user now rows contest_id user_id h)

-- A user whose registration was answered without an error, and who submits to that contest while it
-- is running, however many registrations came in between, gets what the label and the language
-- lead to: the contest does not turn them away.
pub register-resolve_contest_submission :
    (catalog : Catalog) (slug label language : Text) (user : Entrant) (now later : ℕ)
    (attempts : List (Text × (Entrant × ℕ))) (rows : List ContestParticipant) (contest : Contest)
    → get_contest catalog slug ≡ returned contest
    → (register catalog slug user now rows).0 ≡ returned tt
    → phase contest later ≡ running
    → resolve_contest_submission catalog slug label user language later
        (register_all catalog attempts (register catalog slug user now rows).1)
      ≡ resolve_entry catalog contest label language
unfolding resolve_contest_submission
register-resolve_contest_submission catalog slug label language user now later attempts rows contest
      found accepted on =
    let entered = register_enters catalog slug user now rows contest found accepted in
    let kept =
      register_all_keeps catalog attempts (register catalog slug user now rows).1 contest.id user.id
        entered in
    rw (found, resolve_contest_submission)
      (rw (on, resolve_contest_submission) (rw (kept, resolve_contest_submission) refl))
