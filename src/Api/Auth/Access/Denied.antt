-- ===== src/Api/Auth/Access/Denied.antt =====
-- A session that was ended gives no access: apps/api/app/modules/auth/service.py and deps.py together.
use sahucodex.Prelude.{
  ℕ, ◌+◌, ◌≤◌, ◌<◌, ◌≡◌, refl, inl, inr, false, ◌&&◌, some, ◌==◌, arith, Bool-cases, Option-cases,
  Outcome-cases, first_of?, returned,
}
use sahucodex.Prelude.Texts.{Text, codes, eq_text}
use sahucodex.Api.Limits.{answers}
use sahucodex.Api.Auth.{
  RevokeReason, session_revoked, AuditEntry, AccessClaims, AuthWorld, AuthSettings, Externals,
  Payload, expired_signature, invalid_token, is_session_revoked, in_seconds,
}
use sahucodex.Api.Auth.Tokens.{revoke_family, deny_access_tokens}
use sahucodex.Api.Auth.Sessions.{Client, entry_of, revoke_session, end_session}
use sahucodex.Api.Auth.Sessions.Single.{live}
use sahucodex.Api.Auth.Sessions.Rotation.{end_session-denies, end_session-live}
use sahucodex.Api.Auth.Access.{Credentials, claims_in, decode_access_token, check_denylist, verify}

module _ (ext : Externals) where
  claims_in-exp :
      (payload : Payload) (claims : AccessClaims)
      → claims_in ext payload ≡ returned claims
      → claims.expires_at ≡ payload.exp
  unfolding claims_in
  claims_in-exp payload claims h = elim (Bool-cases (eq_text payload.type (codes "access"))) [
    | inr other ↦ absurd (ground (arith, rw (other, claims_in) at h))
    | inl access ↦ elim (Option-cases (ext.parse_uuid payload.sub)) [
      | inl bad ↦ absurd (ground (arith, rw (access, bad, claims_in) at h))
      | inr (user_id, fine) ↦ elim (Option-cases (ext.parse_uuid payload.sid)) [
        | inl bad ↦ absurd (ground (arith, rw (access, fine, bad, claims_in) at h))
        | inr (session_id, good) ↦
            let h' = rw (access, fine, good, claims_in) at h in ground (arith, h')
      ]
    ]
  ]

  decode_access_token-exp :
      (token : Text) (now : ℕ) (claims : AccessClaims)
      → decode_access_token ext token now ≡ returned claims
      → (payload : Payload) × (ext.jwt_decode token now ≡ returned payload)
        × (claims.expires_at ≡ payload.exp)
  unfolding decode_access_token
  decode_access_token-exp token now claims h = elim (Outcome-cases (ext.jwt_decode token now)) [
    | inl (expired_signature, e) ↦ absurd (ground (arith, rw (e, decode_access_token) at h))
    | inl (invalid_token, e) ↦ absurd (ground (arith, rw (e, decode_access_token) at h))
    | inr (payload, e) ↦
        (payload, e, claims_in-exp payload claims (rw (e, decode_access_token) at h))
  ]

  check_denylist_returned :
      (now : ℕ) (w : AuthWorld) (decoded claims : AccessClaims)
      → w.redis ≡ answers
      → check_denylist ext now w decoded ≡ returned claims
      → (decoded ≡ claims) × (is_session_revoked claims.session_id now w ≡ false)
  unfolding check_denylist
  check_denylist_returned now w decoded claims up h =
      let h' = rw (up, check_denylist) at h in
      elim (Bool-cases (is_session_revoked decoded.session_id now w)) [
        | inl ended ↦ absurd (ground (arith, rw ended at h'))
        | inr goes_on ↦
            let same : decoded ≡ claims = ground (arith, rw goes_on at h') in
            (same, rw (← same) goes_on)
      ]

  verify_returned :
      (credentials : Credentials) (now : ℕ) (w : AuthWorld) (claims : AccessClaims)
      → w.redis ≡ answers
      → verify ext credentials now w ≡ returned claims
      → (decode_access_token ext credentials.credentials now ≡ returned claims)
        × (is_session_revoked claims.session_id now w ≡ false)
  unfolding verify
  verify_returned credentials now w claims up h =
      elim (Bool-cases (eq_text (ext.lower credentials.scheme) (codes "bearer"))) [
        | inr other ↦ absurd (ground (arith, rw (other, verify) at h))
        | inl bearer ↦ elim (Outcome-cases (decode_access_token ext credentials.credentials now)) [
          | inl (e, bad) ↦ absurd (ground (arith, rw (bearer, bad, verify) at h))
          | inr (decoded, good) ↦
              let (same, goes_on) =
                check_denylist_returned now w decoded claims up (rw (bearer, good, verify) at h) in
              (rw (good, same) refl, goes_on)
        ]
      ]

module _ (ext : Externals) (settings : AuthSettings) where
  end_session-redis :
      (family_id : ℕ) (reason : RevokeReason) (now : ℕ) (entry : AuditEntry) (w : AuthWorld)
      → w.redis ≡ answers
      → (end_session ext settings family_id reason now entry w).redis ≡ answers
  unfolding end_session revoke_family deny_access_tokens
  end_session-redis family_id reason now entry w up = rw (up, end_session, deny_access_tokens) up

  revoke_session_ends :
      (user_id session_id : ℕ) (client : Client) (now : ℕ) (w : AuthWorld)
      → (revoke_session ext settings user_id session_id client now w).0 ≡ returned tt
      → (revoke_session ext settings user_id session_id client now w).1
        ≡ end_session ext settings session_id session_revoked now
            (entry_of "auth.session_revoked" client user_id (some session_id))
            w
  unfolding revoke_session
  revoke_session_ends user_id session_id client now w h =
      elim (Option-cases
        (first_of? (λ t. t.family_id == session_id && t.user_id == user_id) w.tokens)) [
          | inl foreign ↦ absurd (ground (arith, rw (foreign, revoke_session) at h))
          | inr (token, owned) ↦ rw (owned, revoke_session) refl
        ]

  -- When a user has signed a session out while Redis answers, none of its refresh tokens can be used,
  -- and no access token of it whose life began no later than that is let in again at any time,
  -- provided that PyJWT refuses tokens that have expired.
  pub revoke_session_shuts_out :
      (user_id session_id : ℕ) (client : Client) (now : ℕ) (w : AuthWorld)
      (credentials : Credentials) (later : ℕ) (claims : AccessClaims)
      → ((token : Text) (at_time : ℕ) (payload : Payload)
          → ext.jwt_decode token at_time ≡ returned payload
          → at_time < payload.exp)
      → w.redis ≡ answers
      → (revoke_session ext settings user_id session_id client now w).0 ≡ returned tt
      → claims.session_id ≡ session_id
      → claims.expires_at ≤ in_seconds settings.jwt_access_expire now
      → let w' = (revoke_session ext settings user_id session_id client now w).1 in
        (live session_id w'.tokens ≡ 0) × (¬ (verify ext credentials later w' ≡ returned claims))
  revoke_session_shuts_out user_id session_id client now w credentials later claims unexpired up h
        its short =
      let entry = entry_of "auth.session_revoked" client user_id (some session_id) in
      rw (revoke_session_ends user_id session_id client now w h) (
        end_session-live ext settings session_id session_revoked now entry w,
        λ accepted.
            let w' = end_session ext settings session_id session_revoked now entry w in
            let (decodes, goes_on) =
              verify_returned ext credentials later w' claims
                (end_session-redis session_id session_revoked now entry w up) accepted in
            let (payload, comes, ends) =
              decode_access_token-exp ext credentials.credentials later claims decodes in
            let soon : later < in_seconds (settings.jwt_access_expire + 5) now =
              omega (arith, unexpired credentials.credentials later payload comes, ends, short) in
            let ended =
              end_session-denies ext settings session_id session_revoked now later entry w up
                soon in
            ground (arith, rw its at goes_on, ended),
      )
