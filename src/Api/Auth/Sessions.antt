-- ===== src/Api/Auth/Sessions.antt =====
-- Signing in, rotating refresh tokens and signing out: AuthService of
-- apps/api/app/modules/auth/service.py. A request that raises before it commits changes no table.
pub mod Rotation
pub mod Single
pub mod Invariant
pub mod Reachable
use Prim.Native.String.{String}
use sahucodex.Prelude.{
  ℕ, ◌+◌, ◌*◌, Bool, true, false, ◌&&◌, not, List, [], ◌∷◌, ◌++◌, map, Option, none, some, leb,
  ◌==◌, if◌then◌else◌, keep_if, first_of?, Outcome, returned, raised,
}
use sahucodex.Prelude.Texts.{Text, codes, eq_text}
use sahucodex.Prelude.Sorting.{sorted_by}
use sahucodex.Prelude.Tables.{update_where}
use sahucodex.Strings.{strip}
use sahucodex.Api.Limits.{RateLimit, answers, second}
use sahucodex.Api.Limits.Keys.{enforce, set_key, key_of}
use sahucodex.Api.Auth.{
  RevokeReason, rotated, logout, reuse_detected, session_revoked, RefreshToken, AuditEntry,
  AuthWorld, AuthSettings, Externals, AuthError, rate_limited, invalid_credentials,
  refresh_token_invalid, refresh_token_race, refresh_token_reused, refresh_token_expired,
  account_unavailable, account_disabled, session_not_found, User, is_none, is_available, get_user,
  get_by_identifier, short_digest,
}
use sahucodex.Api.Auth.Tokens.{
  Fresh, IssuedSession, is_live_of, revoke_family, deny_access_tokens, record_audit, issue_session,
}

-- The client's address and its User-Agent.
pub record Client : Type 0 where
  pub ip : Text
  pub user_agent : Option Text

abbrev pub entry_of : String → Client → ℕ → Option ℕ → AuditEntry
entry_of action client actor_id session_id = record {
  action = codes action;
  actor_id = some actor_id;
  session_id = session_id;
  ip = some client.ip;
  user_agent = client.user_agent;
}

-- An attribute of the user's row is set.
abbrev pub with_user : ℕ → (User → User) → AuthWorld → AuthWorld
with_user id change w = record w { users = update_where (λ u. u.id == id) change w.users }

abbrev pub is_token : ℕ → RefreshToken → Bool
is_token id t = t.id == id

abbrev pub has_token_hash : Text → RefreshToken → Bool
has_token_hash hash t = eq_text t.token_hash hash

abbrev pub replaced : ℕ → ℕ → RefreshToken → RefreshToken
replaced now successor t = record t {
  revoked_at = some now;
  revoked_reason = some rotated;
  replaced_by_id = some successor;
}

abbrev pub is_rotated : Option RevokeReason → Bool
is_rotated (some rotated) = true
is_rotated _ = false

-- `ORDER BY created_at DESC`
abbrev pub newer : RefreshToken → RefreshToken → Bool
newer a b = leb b.created_at a.created_at

module _ (ext : Externals) (settings : AuthSettings) where
  -- A family is revoked, the event is recorded, and its access tokens are denied.
  unfoldable pub end_session : ℕ → RevokeReason → ℕ → AuditEntry → AuthWorld → AuthWorld
  unfolding revoke_family deny_access_tokens
  end_session family_id reason now entry w =
      deny_access_tokens settings (family_id ∷ []) now
        (record_audit entry (revoke_family family_id reason now w))

  abbrev pub limited :
      String → Text → RateLimit → ℕ → AuthWorld → Outcome AuthError Unit × AuthWorld
  limited scope identifier limit now w =
      let (result, keys) =
        enforce settings.rate_limit_enabled w.redis (codes scope) identifier limit now w.keys in
      let w' = record w { keys = keys } in
      elim result [
        | raised retry_after ↦ (raised (rate_limited retry_after), w')
        | returned _ ↦ (returned tt, w')
      ]

  -- `_reset_account_limit`
  unfoldable pub reset_account_limit : Text → AuthWorld → AuthWorld
  reset_account_limit account_key w = elim w.redis [
    | answers ↦ record w { keys = set_key (key_of (codes "login:account") account_key) [] w.keys }
    | _ ↦ w
  ]

  -- A hash of other parameters than the present ones is replaced, and the time is noted.
  abbrev pub signed_in : Text → Text → ℕ → User → User
  signed_in password salt now user = record user {
    last_login_at = some now;
    password_hash =
        if ext.argon2_needs_rehash user.password_hash
        then ext.argon2_hash salt password
        else user.password_hash;
  }

  -- What `login` does when both limits let the request in.
  unfoldable pub authenticate :
      Text → Text → Fresh → Client → ℕ → AuthWorld → Outcome AuthError IssuedSession × AuthWorld
  unfolding get_by_identifier issue_session reset_account_limit strip
  authenticate identifier password fresh client now w = elim (get_by_identifier ext identifier w) [
    | none ↦ (raised invalid_credentials, w)
    | some user ↦
        let account_key = short_digest ext (ext.lower (strip identifier)) in
        let user' = signed_in password fresh.salt now user in
        let (session, w') =
          issue_session ext settings user' fresh.family_id fresh client.ip client.user_agent now
            (with_user user.id (signed_in password fresh.salt now) w) in
        if not (is_none user.deleted_at)
        then (raised invalid_credentials, w)
        else if not (ext.argon2_verify user.password_hash password)
        then (
          raised invalid_credentials,
          record_audit (entry_of "auth.login_failed" client user.id none) w,
        )
        else if not user.is_active
        then (raised account_disabled, w)
        else (
          returned session,
          reset_account_limit account_key
              (record_audit (entry_of "auth.login" client user.id none) w'),
        )
  ]

  unfoldable pub login :
      Text → Text → Fresh → Client → ℕ → AuthWorld → Outcome AuthError IssuedSession × AuthWorld
  unfolding enforce authenticate strip
  login identifier password fresh client now w =
      let account_key = short_digest ext (ext.lower (strip identifier)) in
      let (by_ip, w1) = limited "login:ip" client.ip settings.rate_limit_login now w in
      let (by_account, w2) =
        limited "login:account" account_key settings.rate_limit_login_account now w1 in
      elim by_ip [
        | raised e ↦ (raised e, w1)
        | returned _ ↦ elim by_account [
          | raised e ↦ (raised e, w2)
          | returned _ ↦ authenticate identifier password fresh client now w2
        ]
      ]

  -- `_handle_revoked_token`, for a token revoked at `revoked_at`.
  unfoldable pub handle_revoked_token :
      RefreshToken → ℕ → Client → ℕ → AuthWorld → Outcome AuthError IssuedSession × AuthWorld
  unfolding end_session
  handle_revoked_token token revoked_at client now w =
      let entry =
        entry_of "auth.refresh_reuse_detected" client token.user_id (some token.family_id) in
      if not (is_rotated token.revoked_reason)
      then (raised refresh_token_invalid, w)
      else if leb now (revoked_at + settings.refresh_reuse_grace_seconds * second)
      then (raised refresh_token_race, w)
      else (raised refresh_token_reused, end_session token.family_id reuse_detected now entry w)

  -- The successor is inserted before the old row points to it.
  unfoldable pub rotate :
      RefreshToken → User → Fresh → Client → ℕ → AuthWorld → IssuedSession × AuthWorld
  unfolding issue_session
  rotate token user fresh client now w =
      let (session, w') =
        issue_session ext settings user token.family_id fresh client.ip client.user_agent now w in
      (
        session,
        record w' {
          tokens =
              update_where (is_token token.id) (replaced now session.refresh_token_id) w'.tokens;
        },
      )

  -- `refresh` for the row that has the hash of the token.
  unfoldable pub refresh_row :
      RefreshToken → Fresh → Client → ℕ → AuthWorld → Outcome AuthError IssuedSession × AuthWorld
  unfolding handle_revoked_token rotate revoke_family deny_access_tokens
  refresh_row token fresh client now w = elim token.revoked_at [
    | some revoked_at ↦ handle_revoked_token token revoked_at client now w
    | none ↦
        let gone =
          deny_access_tokens settings (token.family_id ∷ []) now
            (revoke_family token.family_id session_revoked now w) in
        if leb token.expires_at now
        then (raised refresh_token_expired, w)
        else elim (get_user token.user_id w) [
          | none ↦ (raised account_unavailable, gone)
          | some user ↦
              let (session, w') = rotate token user fresh client now w in
              if not (is_available user)
              then (raised account_unavailable, gone)
              else (returned session, w')
        ]
  ]

  unfoldable pub refresh :
      Text → Fresh → Client → ℕ → AuthWorld → Outcome AuthError IssuedSession × AuthWorld
  unfolding refresh_row
  refresh raw_token fresh client now w =
      elim (first_of? (has_token_hash (ext.sha256_hex raw_token)) w.tokens) [
        | none ↦ (raised refresh_token_invalid, w)
        | some token ↦ refresh_row token fresh client now w
      ]

  -- `raw_token` is the refresh cookie; without one, or with an empty one, nothing happens.
  unfoldable pub sign_out : Option Text → Client → ℕ → AuthWorld → AuthWorld
  unfolding end_session
  sign_out none client now w = w
  sign_out (some []) client now w = w
  sign_out (some (c ∷ raw)) client now w =
      elim (first_of? (has_token_hash (ext.sha256_hex (c ∷ raw))) w.tokens) [
        | none ↦ w
        | some token ↦
            end_session token.family_id logout now
              (entry_of "auth.logout" client token.user_id none) w
      ]

  -- The live sessions of a user, each with whether it is the one that asks.
  unfoldable pub list_sessions : ℕ → ℕ → ℕ → AuthWorld → List (RefreshToken × Bool)
  list_sessions user_id current_session now w =
      map (λ row. (row, row.family_id == current_session))
        (sorted_by newer
          (keep_if (λ t. is_live_of user_id t && not (leb t.expires_at now)) w.tokens))

  unfoldable pub revoke_session :
      ℕ → ℕ → Client → ℕ → AuthWorld → Outcome AuthError Unit × AuthWorld
  unfolding end_session
  revoke_session user_id session_id client now w =
      elim (first_of? (λ t. t.family_id == session_id && t.user_id == user_id) w.tokens) [
        | none ↦ (raised session_not_found, w)
        | some owned ↦ (
          returned tt,
          end_session session_id session_revoked now
              (entry_of "auth.session_revoked" client user_id (some session_id)) w,
        )
      ]
