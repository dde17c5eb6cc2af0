-- ===== src/Api/Auth.antt =====
-- apps/api/app/modules/auth and apps/api/app/core/security.py: accounts, sessions and e-mailed tokens.
-- Times are numbers of microseconds. A session is a family of refresh tokens.
pub mod Tokens
pub mod Sessions
pub mod Links
pub mod Access
mod Tests
use sahucodex.Prelude.{
  ℕ, ◌+◌, ◌*◌, Bool, true, false, ◌&&◌, ◌||◌, not, List, Option, none, some, ltb, ◌==◌, any_of,
  first_of?, take, Outcome,
}
use sahucodex.Prelude.Texts.{Text, eq_text}
use sahucodex.Strings.{strip}
use sahucodex.Api.Limits.{RateLimit, RedisState, second}
use sahucodex.Api.Limits.Keys.{Keys}

pub data RoleName : Type 0 where
  user moderator admin : RoleName

pub record User : Type 0 where
  pub id : ℕ
  pub email : Text
  pub username : Text
  pub password_hash : Text
  pub is_active : Bool
  pub email_verified_at : Option ℕ
  pub last_login_at : Option ℕ
  pub deleted_at : Option ℕ
  pub roles : List RoleName

pub data RevokeReason : Type 0 where
  rotated logout reuse_detected password_reset session_revoked : RevokeReason

pub record RefreshToken : Type 0 where
  pub id : ℕ
  pub user_id : ℕ
  pub family_id : ℕ
  pub token_hash : Text
  pub created_at : ℕ
  pub expires_at : ℕ
  pub revoked_at : Option ℕ
  pub revoked_reason : Option RevokeReason
  pub replaced_by_id : Option ℕ
  pub ip_address : Text
  pub user_agent : Option Text

pub data TokenPurpose : Type 0 where
  email_verify password_reset : TokenPurpose

pub record OneTimeToken : Type 0 where
  pub user_id : ℕ
  pub purpose : TokenPurpose
  pub token_hash : Text
  pub expires_at : ℕ
  pub used_at : Option ℕ

pub record AuditEntry : Type 0 where
  pub action : Text
  pub actor_id : Option ℕ
  pub session_id : Option ℕ
  pub ip : Option Text
  pub user_agent : Option Text

-- An e-mail that the background task sends.
pub record Mail : Type 0 where
  pub to : Text
  pub subject : Text
  pub link : Text

pub record AccessClaims : Type 0 where
  pub user_id : ℕ
  pub session_id : ℕ
  pub expires_at : ℕ

-- The two exceptions of PyJWT that the code tells apart, and what a decoded token holds.
pub data JwtError : Type 0 where
  expired_signature invalid_token : JwtError

pub record Payload : Type 0 where
  pub type : Text
  pub sub : Text
  pub sid : Text
  pub exp : ℕ

-- The database, the denylist of Redis (a session and the time its entry expires), the keys of the
-- rate limiter, and the mails handed over. `redis` is how Redis fares during the request.
pub record AuthWorld : Type 0 where
  pub users : List User
  pub tokens : List RefreshToken
  pub one_time_tokens : List OneTimeToken
  pub audit : List AuditEntry
  pub denied : List (ℕ × ℕ)
  pub redis : RedisState
  pub keys : Keys
  pub outbox : List Mail

pub record AuthSettings : Type 0 where
  pub jwt_access_expire : ℕ
  pub jwt_refresh_expire : ℕ
  pub refresh_reuse_grace_seconds : ℕ
  pub email_verify_expire : ℕ
  pub password_reset_expire : ℕ
  pub frontend_url : Text
  pub rate_limit_enabled : Bool
  pub rate_limit_login : RateLimit
  pub rate_limit_login_account : RateLimit
  pub rate_limit_password_reset : RateLimit

-- The libraries that the code calls: hashlib, argon2 (the salt is an argument; a check that raises
-- does not pass), PyJWT, and the Unicode tables behind `str.lower`.
pub record Externals : Type 0 where
  pub lower : Text → Text
  pub sha256_hex : Text → Text
  pub argon2_hash : Text → Text → Text
  pub argon2_verify : Text → Text → Bool
  pub argon2_needs_rehash : Text → Bool
  pub jwt_encode : AccessClaims → Text
  -- what a token of our issuer and audience holds, at a time
  pub jwt_decode : Text → ℕ → Outcome JwtError Payload
  pub parse_uuid : Text → Option ℕ

pub data AuthError : Type 0 where
  -- 429, with the seconds to wait
  rate_limited : ℕ → AuthError
  -- 401
  not_authenticated invalid_credentials refresh_token_invalid refresh_token_race : AuthError
  refresh_token_reused refresh_token_expired account_unavailable : AuthError
  access_token_invalid access_token_expired token_revoked : AuthError
  -- 403, 404 and 503
  account_disabled forbidden session_not_found service_unavailable : AuthError
  -- 400, TOKEN_INVALID
  link_invalid : AuthError
  -- 409
  username_taken email_taken account_exists : AuthError

abbrev pub is_none {ℓ} : {A : Type ℓ} → Option A → Bool
is_none none = true
is_none (some a) = false

-- `user is None or user.deleted_at is not None or not user.is_active`, negated.
abbrev pub is_available : User → Bool
is_available u = is_none u.deleted_at && u.is_active

-- `db.get(User, user_id)`
abbrev pub get_user : ℕ → AuthWorld → Option User
get_user id w = first_of? (λ u. u.id == id) w.users

unfoldable pub normalise_email : Externals → Text → Text
unfolding strip
normalise_email ext email = ext.lower (strip email)

unfoldable pub get_by_email : Externals → Text → AuthWorld → Option User
unfolding normalise_email
get_by_email ext email w = first_of? (λ u. eq_text u.email (normalise_email ext email)) w.users

unfoldable pub get_by_username : Externals → Text → AuthWorld → Option User
get_by_username ext username w =
    first_of? (λ u. eq_text (ext.lower u.username) (ext.lower username)) w.users

-- An e-mail address has an "@".
unfoldable pub get_by_identifier : Externals → Text → AuthWorld → Option User
unfolding strip get_by_email get_by_username
get_by_identifier ext identifier w =
    let name = strip identifier in
    elim (any_of (λ c. c == 64) name) [
      | true ↦ get_by_email ext name w
      | false ↦ get_by_username ext name w
    ]

-- `hashlib.sha256(text.encode()).hexdigest()[:32]`
abbrev pub short_digest : Externals → Text → Text
short_digest ext text = take 32 (ext.sha256_hex text)

unfoldable pub is_session_revoked : ℕ → ℕ → AuthWorld → Bool
is_session_revoked session_id now w =
    any_of (λ entry. entry.0 == session_id && ltb now entry.1) w.denied

abbrev pub in_seconds : ℕ → ℕ → ℕ
in_seconds n now = now + n * second
