-- ===== src/Api/Auth/Sessions/Invariant.antt =====
-- What every request to AuthService (apps/api/app/modules/auth/service.py) keeps: the refresh tokens of
-- a session are revoked but for one at most.
use Prim.Native.String.{String}
use sahucodex.Prelude.{
  ℕ, ◌+◌, ◌*◌, ◌≡◌, refl, inl, inr, Bool, not, [], ◌∷◌, Option, none, some, leb, ◌==◌, arith,
  Bool-cases, Option-cases, Outcome-cases, ◌&&◌, first_of?,
}
use sahucodex.Prelude.Texts.{Text, codes}
use sahucodex.Strings.{strip}
use sahucodex.Api.Limits.{second, RateLimit}
use sahucodex.Api.Limits.Keys.{enforce}
use sahucodex.Api.Auth.{
  RevokeReason, reuse_detected, session_revoked, logout, RefreshToken, AuditEntry, AuthWorld,
  AuthSettings, Externals, User, is_none, is_available, get_user, get_by_identifier, short_digest,
}
use sahucodex.Api.Auth.Tokens.{
  Fresh, is_live_in, revoke_family, deny_access_tokens, new_token, issue_session,
}
use sahucodex.Api.Auth.Sessions.{
  Client, entry_of, is_rotated, end_session, handle_revoked_token, refresh_row, refresh, sign_out,
  revoke_session, limited, authenticate, reset_account_limit, login, has_token_hash, rotate,
}
use sahucodex.Api.Auth.Sessions.Single.{
  live, IsSingle, Redis-cases, deny_access_tokens-tokens, live-revoke_le, end_session-tokens,
  live-append_fresh, live-replaced,
}

module _ (ext : Externals) (settings : AuthSettings) where
  end_session-IsSingle :
      (family_id : ℕ) (reason : RevokeReason) (now : ℕ) (entry : AuditEntry) (w : AuthWorld)
      → IsSingle w
      → IsSingle (end_session ext settings family_id reason now entry w)
  end_session-IsSingle family_id reason now entry w single f =
      rw (end_session-tokens settings ext family_id reason now entry w)
        (omega (arith, single f, live-revoke_le f now reason (is_live_in family_id) w.tokens))

  handle_revoked_token-IsSingle :
      (token : RefreshToken) (revoked_at : ℕ) (client : Client) (now : ℕ) (w : AuthWorld)
      → IsSingle w
      → IsSingle (handle_revoked_token ext settings token revoked_at client now w).1
  unfolding handle_revoked_token
  handle_revoked_token-IsSingle token revoked_at client now w single =
      let entry =
        entry_of "auth.refresh_reuse_detected" client token.user_id (some token.family_id) in
      elim (Bool-cases (not (is_rotated token.revoked_reason))) [
        | inl other ↦ rw other single
        | inr rotated ↦
            elim (Bool-cases
              (leb now (revoked_at + settings.refresh_reuse_grace_seconds * second))) [
                | inl race ↦ rw (rotated, race) single
                | inr reuse ↦
                    rw (rotated, reuse)
                      (end_session-IsSingle token.family_id reuse_detected now entry w single)
              ]
      ]

  rotate-IsSingle :
      (p : RefreshToken → Bool) (token : RefreshToken) (user : User) (fresh : Fresh)
      (client : Client) (now : ℕ) (w : AuthWorld)
      → first_of? p w.tokens ≡ some token
      → token.revoked_at ≡ none
      → IsSingle w
      → IsSingle (rotate ext settings token user fresh client now w).1
  unfolding rotate issue_session
  rotate-IsSingle p token user fresh client now w found alive single f =
      live-replaced f now fresh.token_id p token
        (new_token ext settings user.id token.family_id fresh client.ip client.user_agent now)
        w.tokens found alive refl (single f)

  unavailable-IsSingle :
      (family_id now : ℕ) (w : AuthWorld)
      → IsSingle w
      → IsSingle (
          deny_access_tokens settings
            (family_id ∷ [])
            now
            (revoke_family family_id session_revoked now w))
  unfolding revoke_family
  unavailable-IsSingle family_id now w single f =
      rw
        (deny_access_tokens-tokens settings (family_id ∷ []) now
          (revoke_family family_id session_revoked now w))
        (omega
          (arith, single f, live-revoke_le f now session_revoked (is_live_in family_id) w.tokens))

  refresh_row-IsSingle :
      (p : RefreshToken → Bool) (token : RefreshToken) (fresh : Fresh) (client : Client) (now : ℕ)
      (w : AuthWorld)
      → first_of? p w.tokens ≡ some token
      → IsSingle w
      → IsSingle (refresh_row ext settings token fresh client now w).1
  unfolding refresh_row
  refresh_row-IsSingle p token fresh client now w found single =
      let off = unavailable-IsSingle token.family_id now w single in
      elim (Option-cases token.revoked_at) [
        | inr (t, dead) ↦
            rw (dead, refresh_row) (handle_revoked_token-IsSingle token t client now w single)
        | inl alive ↦ elim (Bool-cases (leb token.expires_at now)) [
          | inl late ↦ rw (alive, refresh_row) (rw (late, refresh_row) single)
          | inr early ↦ elim (Option-cases (get_user token.user_id w)) [
            | inl gone ↦ rw (alive, refresh_row) (rw (early, gone, refresh_row) off)
            | inr (user, there) ↦ elim (Bool-cases (is_available user)) [
              | inl fine ↦
                  rw (alive, refresh_row)
                    (rw (early, there, refresh_row)
                      (rw (fine, refresh_row)
                        (rotate-IsSingle p token user fresh client now w found alive single)))
              | inr barred ↦
                  rw (alive, refresh_row)
                    (rw (early, there, refresh_row) (rw (barred, refresh_row) off))
            ]
          ]
        ]
      ]

  pub refresh-IsSingle :
      (raw : Text) (fresh : Fresh) (client : Client) (now : ℕ) (w : AuthWorld)
      → IsSingle w
      → IsSingle (refresh ext settings raw fresh client now w).1
  unfolding refresh
  refresh-IsSingle raw fresh client now w single =
      let hit = has_token_hash (ext.sha256_hex raw) in
      elim (Option-cases (first_of? hit w.tokens)) [
        | inl unknown ↦ rw (unknown, refresh) single
        | inr (token, known) ↦
            rw (known, refresh) (refresh_row-IsSingle hit token fresh client now w known single)
      ]

  pub sign_out-IsSingle :
      (raw : Option Text) (client : Client) (now : ℕ) (w : AuthWorld)
      → IsSingle w
      → IsSingle (sign_out ext settings raw client now w)
  unfolding sign_out
  sign_out-IsSingle none client now w single = single
  sign_out-IsSingle (some []) client now w single = single
  sign_out-IsSingle (some (c ∷ raw)) client now w single =
      let hit = has_token_hash (ext.sha256_hex (c ∷ raw)) in
      elim (Option-cases (first_of? hit w.tokens)) [
        | inl unknown ↦ rw (unknown, sign_out) single
        | inr (token, known) ↦
            rw (known, sign_out)
              (end_session-IsSingle token.family_id logout now
                (entry_of "auth.logout" client token.user_id none) w single)
      ]

  pub revoke_session-IsSingle :
      (user_id session_id : ℕ) (client : Client) (now : ℕ) (w : AuthWorld)
      → IsSingle w
      → IsSingle (revoke_session ext settings user_id session_id client now w).1
  unfolding revoke_session
  revoke_session-IsSingle user_id session_id client now w single =
      elim (Option-cases
        (first_of? (λ t. t.family_id == session_id && t.user_id == user_id) w.tokens)) [
          | inl foreign ↦ rw (foreign, revoke_session) single
          | inr (token, owned) ↦
              rw (owned, revoke_session)
                (end_session-IsSingle session_id session_revoked now
                  (entry_of "auth.session_revoked" client user_id (some session_id)) w single)
        ]

  pub limited-tokens :
      (scope : String) (identifier : Text) (limit : RateLimit) (now : ℕ) (w : AuthWorld)
      → (limited ext settings scope identifier limit now w).1.tokens ≡ w.tokens
  limited-tokens scope identifier limit now w =
      elim (Outcome-cases
        (enforce settings.rate_limit_enabled w.redis (codes scope) identifier limit now w.keys).0) [
          | inl (e, h) ↦ rw (h, limited) refl
          | inr (u, h) ↦ rw (h, limited) refl
        ]

  reset_account_limit-tokens :
      (key : Text) (w : AuthWorld) → (reset_account_limit ext settings key w).tokens ≡ w.tokens
  unfolding reset_account_limit
  reset_account_limit-tokens key w = elim (Redis-cases w.redis) [
    | inl up ↦ rw (up, reset_account_limit) refl
    | inr (inl down) ↦ rw (down, reset_account_limit) refl
    | inr (inr down) ↦ rw (down, reset_account_limit) refl
  ]

  reset_account_limit-IsSingle :
      (key : Text) (w : AuthWorld) → IsSingle w → IsSingle (reset_account_limit ext settings key w)
  reset_account_limit-IsSingle key w single f = rw (reset_account_limit-tokens key w) (single f)

  authenticate-IsSingle :
      (identifier password : Text) (fresh : Fresh) (client : Client) (now : ℕ) (w : AuthWorld)
      → live fresh.family_id w.tokens ≡ 0
      → IsSingle w
      → IsSingle (authenticate ext settings identifier password fresh client now w).1
  unfolding authenticate
  authenticate-IsSingle identifier password fresh client now w unused single =
      elim (Option-cases (get_by_identifier ext identifier w)) [
        | inl unknown ↦ rw (unknown, authenticate) single
        | inr (user, known) ↦ elim (Bool-cases (not (is_none user.deleted_at))) [
          | inl deleted ↦ rw (known, authenticate) (rw (deleted, authenticate) single)
          | inr kept ↦ elim (Bool-cases (not (ext.argon2_verify user.password_hash password))) [
            | inl wrong ↦ rw (known, authenticate) (rw (kept, wrong, authenticate) single)
            | inr right ↦ elim (Bool-cases (not user.is_active)) [
              | inl barred ↦
                  rw (known, authenticate) (rw (kept, right, barred, authenticate) single)
              | inr active ↦
                  rw (known, authenticate)
                    (rw (kept, right, active, authenticate)
                      (reset_account_limit-IsSingle _ _ (λ f.
                        live-append_fresh f
                          (new_token ext settings user.id fresh.family_id fresh client.ip
                            client.user_agent now)
                          w.tokens unused (single f))))
            ]
          ]
        ]
      ]

  pub login-IsSingle :
      (identifier password : Text) (fresh : Fresh) (client : Client) (now : ℕ) (w : AuthWorld)
      → live fresh.family_id w.tokens ≡ 0
      → IsSingle w
      → IsSingle (login ext settings identifier password fresh client now w).1
  unfolding login
  login-IsSingle identifier password fresh client now w unused single =
      let key = short_digest ext (ext.lower (strip identifier)) in
      let by_ip = limited ext settings "login:ip" client.ip settings.rate_limit_login now w in
      let by_account =
        limited ext settings "login:account" key settings.rate_limit_login_account now by_ip.1 in
      let same1 = limited-tokens "login:ip" client.ip settings.rate_limit_login now w in
      let same2 =
        limited-tokens "login:account" key settings.rate_limit_login_account now by_ip.1 in
      let unused' : live fresh.family_id by_account.1.tokens ≡ 0 = rw (same2, same1) unused in
      let single1 : IsSingle by_ip.1 = rw same1 single in
      let single2 : IsSingle by_account.1 = rw same2 single1 in
      elim (Outcome-cases by_ip.0) [
        | inl (e, refused) ↦ rw (refused, login) single1
        | inr (u, allowed) ↦ elim (Outcome-cases by_account.0) [
          | inl (e, refused) ↦ rw (allowed, login) (rw (refused, login) single2)
          | inr (v, let_in) ↦
              rw (allowed, login)
                (rw (let_in, login)
                  (authenticate-IsSingle identifier password fresh client now by_account.1 unused'
                    single2))
        ]
      ]
