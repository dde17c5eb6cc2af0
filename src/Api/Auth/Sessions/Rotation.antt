-- ===== src/Api/Auth/Sessions/Rotation.antt =====
-- A refresh token is used once: `refresh` of apps/api/app/modules/auth/service.py on a token that it has
-- rotated already.
use sahucodex.Prelude.{
  ℕ, ◌+◌, ◌*◌, ◌≤◌, ◌<◌, ◌≡◌, ◌⊎◌, refl, ap, inl, inr, true, not, [], ◌∷◌, ◌++◌, some, leb, ◌==◌,
  arith, Bool-cases, Option-cases, first_of?, Outcome, returned, raised,
}
use sahucodex.Prelude.Texts.{Text}
use sahucodex.Prelude.Tables.{count_where_updated, first_of?-update_where_if, first_of?-append_some}
use sahucodex.Api.Limits.{answers, second}
use sahucodex.Api.Auth.{
  RevokeReason, rotated, reuse_detected, RefreshToken, AuditEntry, AuthWorld, AuthSettings,
  Externals, refresh_token_race, refresh_token_invalid, AuthError, refresh_token_reused, User,
  is_available, get_user, is_session_revoked, in_seconds,
}
use sahucodex.Api.Auth.Tokens.{
  Fresh, IssuedSession, is_live_in, revoked, revoke_family, deny_access_tokens, new_token,
  issue_session,
}
use sahucodex.Api.Auth.Sessions.{
  Client, entry_of, is_rotated, is_token, has_token_hash, replaced, end_session,
  handle_revoked_token, rotate, refresh_row, refresh,
}
use sahucodex.Api.Auth.Sessions.Single.{live, end_session-tokens}

session_of : Outcome AuthError IssuedSession → ℕ
session_of (returned session) = session.session_id
session_of (raised e) = 0

same_id : (n : ℕ) → (n == n) ≡ true
same_id n = ground arith

module _ (ext : Externals) (settings : AuthSettings) where
  -- What it takes for `refresh` to return.
  record IsRotation (raw : Text) (fresh : Fresh) (client : Client) (now : ℕ) (w : AuthWorld)
      : Type 0 where
    token : RefreshToken
    user : User
    found : first_of? (has_token_hash (ext.sha256_hex raw)) w.tokens ≡ some token
    rotates : refresh ext settings raw fresh client now w ≡ (
      returned (rotate ext settings token user fresh client now w).0,
      (rotate ext settings token user fresh client now w).1,
    )

  handle_revoked_token_raises :
      (token : RefreshToken) (revoked_at : ℕ) (client : Client) (now : ℕ) (w : AuthWorld)
      → (e : AuthError) × ((handle_revoked_token ext settings token revoked_at client now w).0
          ≡ raised e)
  unfolding handle_revoked_token
  handle_revoked_token_raises token revoked_at client now w =
      elim (Bool-cases (not (is_rotated token.revoked_reason))) [
        | inl other ↦ rw other (refresh_token_invalid, refl)
        | inr old ↦
            elim (Bool-cases
              (leb now (revoked_at + settings.refresh_reuse_grace_seconds * second))) [
                | inl race ↦ rw (old, race) (refresh_token_race, refl)
                | inr reuse ↦ rw (old, reuse) (refresh_token_reused, refl)
              ]
      ]

  refresh_row_returned :
      (token : RefreshToken) (fresh : Fresh) (client : Client) (now : ℕ) (w : AuthWorld)
      (session : IssuedSession)
      → (refresh_row ext settings token fresh client now w).0 ≡ returned session
      → (user : User) × (refresh_row ext settings token fresh client now w ≡ (
        returned (rotate ext settings token user fresh client now w).0,
        (rotate ext settings token user fresh client now w).1,
      ))
  unfolding refresh_row
  refresh_row_returned token fresh client now w session h = elim (Option-cases token.revoked_at) [
    | inr (t, dead) ↦
        let (e, raises) = handle_revoked_token_raises token t client now w in
        let h' = rw (dead, refresh_row) at h in absurd (ground (arith, h', raises))
    | inl alive ↦ elim (Bool-cases (leb token.expires_at now)) [
      | inl late ↦ absurd (ground (arith, rw (late, refresh_row) at (rw (alive, refresh_row) at h)))
      | inr early ↦ elim (Option-cases (get_user token.user_id w)) [
        | inl gone ↦
            absurd (ground (arith, rw (early, gone, refresh_row) at (rw (alive, refresh_row) at h)))
        | inr (user, there) ↦ elim (Bool-cases (not (is_available user))) [
          | inl off ↦ absurd (
              ground (
                arith,
                rw (off, refresh_row) at
                    (rw (early, there, refresh_row) at (rw (alive, refresh_row) at h)),
              ))
          | inr on ↦ (
            user,
            rw (alive, refresh_row) (rw (early, there, refresh_row) (rw (on, refresh_row) refl)),
          )
        ]
      ]
    ]
  ]

  refresh_returned :
      (raw : Text) (fresh : Fresh) (client : Client) (now : ℕ) (w : AuthWorld)
      (session : IssuedSession)
      → (refresh ext settings raw fresh client now w).0 ≡ returned session
      → IsRotation raw fresh client now w
  unfolding refresh
  refresh_returned raw fresh client now w session h =
      elim (Option-cases (first_of? (has_token_hash (ext.sha256_hex raw)) w.tokens)) [
        | inl unknown ↦ absurd (ground (arith, rw (unknown, refresh) at h))
        | inr (token, known) ↦
            let h' = rw (known, refresh) at h in
            let (user, rotates) = refresh_row_returned token fresh client now w session h' in
            record {
              token = token;
              user = user;
              found = known;
              rotates = rw (known, refresh) rotates;
            }
      ]

  -- The row of the token after it was rotated.
  rotated_row :
      (hash : Text) (token : RefreshToken) (user : User) (fresh : Fresh) (client : Client) (now : ℕ)
      (w : AuthWorld)
      → first_of? (has_token_hash hash) w.tokens ≡ some token
      → first_of? (has_token_hash hash) (rotate ext settings token user fresh client now w).1.tokens
        ≡ some (replaced now fresh.token_id token)
  unfolding rotate issue_session
  rotated_row hash token user fresh client now w found =
      let row =
        new_token ext settings user.id token.family_id fresh client.ip client.user_agent now in
      let still = first_of?-append_some (has_token_hash hash) w.tokens (row ∷ []) token found in
      rw
        (
          first_of?-update_where_if (has_token_hash hash) (is_token token.id)
              (replaced now fresh.token_id) (w.tokens ++ row ∷ []) (λ t. refl),
          still,
        )
        (ap some (rw (same_id token.id) refl))

  pub end_session-denies :
      (family_id : ℕ) (reason : RevokeReason) (now later : ℕ) (entry : AuditEntry) (w : AuthWorld)
      → w.redis ≡ answers
      → later < in_seconds (settings.jwt_access_expire + 5) now
      → is_session_revoked family_id later (end_session ext settings family_id reason now entry w)
        ≡ true
  unfolding end_session revoke_family deny_access_tokens is_session_revoked
  end_session-denies family_id reason now later entry w up soon =
      rw (up, end_session, deny_access_tokens) (rw (same_id family_id) (ground (arith, soon)))

  pub end_session-live :
      (family_id : ℕ) (reason : RevokeReason) (now : ℕ) (entry : AuditEntry) (w : AuthWorld)
      → live family_id (end_session ext settings family_id reason now entry w).tokens ≡ 0
  end_session-live family_id reason now entry w =
      rw (end_session-tokens settings ext family_id reason now entry w) (
        count_where_updated (is_live_in family_id) (revoked now reason) w.tokens
          (λ t. ground arith))

  -- A rotated token is presented.
  abbrev Replayed :
      RefreshToken → ℕ → ℕ → ℕ → AuthWorld → Outcome AuthError IssuedSession × AuthWorld → Type 0
  Replayed token revoked_at now later w (outcome, w') =
      ((now ≤ revoked_at + settings.refresh_reuse_grace_seconds * second)
        × (outcome ≡ raised refresh_token_race)
        × (w' ≡ w))
      ⊎ ((revoked_at + settings.refresh_reuse_grace_seconds * second < now)
          × (outcome ≡ raised refresh_token_reused)
          × (live token.family_id w'.tokens ≡ 0)
          × (is_session_revoked token.family_id later w' ≡ true))

  refresh_rotated :
      (raw : Text) (fresh : Fresh) (client : Client) (now later revoked_at : ℕ) (w : AuthWorld)
      (token : RefreshToken)
      → first_of? (has_token_hash (ext.sha256_hex raw)) w.tokens ≡ some token
      → token.revoked_at ≡ some revoked_at
      → token.revoked_reason ≡ some rotated
      → w.redis ≡ answers
      → later < in_seconds (settings.jwt_access_expire + 5) now
      → Replayed token revoked_at now later w (refresh ext settings raw fresh client now w)
  unfolding refresh refresh_row handle_revoked_token
  refresh_rotated raw fresh client now later revoked_at w token found dead why up soon =
      let limit = revoked_at + settings.refresh_reuse_grace_seconds * second in
      elim (Bool-cases (leb now limit)) [
        | inl race ↦
            rw (found, refresh)
              (rw (dead, refresh_row)
                (rw (why, race, handle_revoked_token) (inl (ground (arith, race), refl, refl))))
        | inr reuse ↦
            let entry =
              entry_of "auth.refresh_reuse_detected" client token.user_id (some token.family_id) in
            rw (found, refresh)
              (rw (dead, refresh_row)
                (rw (why, reuse, handle_revoked_token)
                  (inr (
                    ground (arith, reuse),
                    refl,
                    end_session-live token.family_id reuse_detected now entry w,
                    end_session-denies token.family_id reuse_detected now later entry w up soon,
                  ))))
      ]

  rotate-session :
      (token : RefreshToken) (user : User) (fresh : Fresh) (client : Client) (now : ℕ)
      (w : AuthWorld) (session : IssuedSession)
      → (let made : Outcome AuthError IssuedSession =
            returned (rotate ext settings token user fresh client now w).0 in
          made ≡ returned session)
      → token.family_id ≡ session.session_id
  unfolding rotate issue_session session_of
  rotate-session token user fresh client now w session h = ap session_of h

  rotate-redis :
      (token : RefreshToken) (user : User) (fresh : Fresh) (client : Client) (now : ℕ)
      (w : AuthWorld)
      → w.redis ≡ answers
      → (rotate ext settings token user fresh client now w).1.redis ≡ answers
  unfolding rotate issue_session
  rotate-redis token user fresh client now w up = up

  -- A refresh token that has been exchanged is presented again, while Redis answers: within the time
  -- of grace after the exchange the caller is told to retry and nothing changes; after it, no refresh
  -- token of the session is left that can be used, the successor included, and the session is on the
  -- denylist for as long as an access token of it can be valid.
  pub refresh_replayed :
      (raw : Text) (fresh again : Fresh) (client other : Client) (now moment later : ℕ)
      (w : AuthWorld) (session : IssuedSession)
      → (refresh ext settings raw fresh client now w).0 ≡ returned session
      → w.redis ≡ answers
      → later < in_seconds (settings.jwt_access_expire + 5) moment
      → let w1 = (refresh ext settings raw fresh client now w).1 in
        let (outcome, w2) = refresh ext settings raw again other moment w1 in
        ((moment ≤ now + settings.refresh_reuse_grace_seconds * second)
          × (outcome ≡ raised refresh_token_race)
          × (w2 ≡ w1))
        ⊎ ((now + settings.refresh_reuse_grace_seconds * second < moment)
            × (outcome ≡ raised refresh_token_reused)
            × (live session.session_id w2.tokens ≡ 0)
            × (is_session_revoked session.session_id later w2 ≡ true))
  refresh_replayed raw fresh again client other now moment later w session h up soon =
      let inv = refresh_returned raw fresh client now w session h in
      let w1 = (rotate ext settings inv.token inv.user fresh client now w).1 in
      let row = rotated_row (ext.sha256_hex raw) inv.token inv.user fresh client now w inv.found in
      let same : inv.token.family_id ≡ session.session_id =
        rotate-session inv.token inv.user fresh client now w session (rw inv.rotates at h) in
      let answer =
        refresh_rotated raw again other moment later now w1 (replaced now fresh.token_id inv.token)
          row refl refl (rotate-redis inv.token inv.user fresh client now w up) soon in
      rw inv.rotates (rw same at answer)
