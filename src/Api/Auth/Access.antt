-- ===== src/Api/Auth/Access.antt =====
-- apps/api/app/modules/auth/deps.py, and `decode_access_token` of apps/api/app/core/security.py: who may
-- make a request.
pub mod Denied
use sahucodex.Prelude.{
  ℕ, Bool, true, false, not, List, [], ◌∷◌, Option, none, some, ltb, ◌==◌, if◌then◌else◌, any_of,
  max, Outcome, returned, raised, raise_if, or_raise, ◌>>=◌, ◌>>◌,
}
use sahucodex.Prelude.Texts.{Text, codes, eq_text}
use sahucodex.Strings.{trim_end}
use sahucodex.Api.Limits.{answers}
use sahucodex.Api.Auth.{
  RoleName, User, AccessClaims, AuthWorld, Externals, JwtError, expired_signature, invalid_token,
  Payload, AuthError, not_authenticated, account_unavailable, access_token_invalid,
  access_token_expired, token_revoked, forbidden, service_unavailable, is_available, get_user,
  is_session_revoked,
}

-- The Authorization header.
pub record Credentials : Type 0 where
  pub scheme : Text
  pub credentials : Text

abbrev pub claims_of : ℕ → ℕ → ℕ → AccessClaims
claims_of user_id session_id expires_at = record {
  user_id = user_id;
  session_id = session_id;
  expires_at = expires_at;
}

-- `_ROLE_RANK`
abbrev pub role_rank : RoleName → ℕ
role_rank RoleName.user = 1
role_rank RoleName.moderator = 2
role_rank RoleName.admin = 3

abbrev pub highest_rank : List RoleName → ℕ
highest_rank [] = 0
highest_rank (role ∷ roles) = max (role_rank role) (highest_rank roles)

unfoldable pub require_role : RoleName → User → Outcome AuthError User
require_role minimum user =
    if ltb (highest_rank user.roles) (role_rank minimum) then raised forbidden else returned user

-- An `Origin` that is there must be one of ours.
unfoldable pub verify_origin : List Text → Option Text → Outcome AuthError Unit
unfolding trim_end
verify_origin allowed_origins none = returned tt
verify_origin allowed_origins (some origin) =
    raise_if (not (any_of (eq_text (trim_end (λ c. c == 47) origin)) allowed_origins)) forbidden

module _ (ext : Externals) where
  unfoldable pub claims_in : Payload → Outcome AuthError AccessClaims
  claims_in payload =
      raise_if (not (eq_text payload.type (codes "access"))) access_token_invalid
      >> or_raise (ext.parse_uuid payload.sub) access_token_invalid
      >>= λ user_id. or_raise (ext.parse_uuid payload.sid) access_token_invalid >>= λ session_id.
          returned (claims_of user_id session_id payload.exp)

  unfoldable pub decode_access_token : Text → ℕ → Outcome AuthError AccessClaims
  unfolding claims_in
  decode_access_token token now = elim (ext.jwt_decode token now) [
    | raised expired_signature ↦ raised access_token_expired
    | raised invalid_token ↦ raised access_token_invalid
    | returned payload ↦ claims_in payload
  ]

  -- `_verify`: without the denylist nobody is let in.
  unfoldable pub check_denylist : ℕ → AuthWorld → AccessClaims → Outcome AuthError AccessClaims
  unfolding is_session_revoked
  check_denylist now w claims = elim w.redis [
    | answers ↦
        if is_session_revoked claims.session_id now w then raised token_revoked else returned claims
    | _ ↦ raised service_unavailable
  ]

  unfoldable pub verify : Credentials → ℕ → AuthWorld → Outcome AuthError AccessClaims
  unfolding decode_access_token check_denylist
  verify credentials now w =
      raise_if (not (eq_text (ext.lower credentials.scheme) (codes "bearer"))) not_authenticated
      >> decode_access_token credentials.credentials now
      >>= check_denylist now w

  unfoldable pub load_user : AuthWorld → AccessClaims → Outcome AuthError User
  load_user w claims = elim (get_user claims.user_id w) [
    | none ↦ raised account_unavailable
    | some user ↦ if is_available user then returned user else raised account_unavailable
  ]

  unfoldable pub get_current_user : Option Credentials → ℕ → AuthWorld → Outcome AuthError User
  unfolding verify load_user
  get_current_user none now w = raised not_authenticated
  get_current_user (some credentials) now w = verify credentials now w >>= load_user w

  -- Without credentials a caller is anonymous; bad ones are refused all the same.
  unfoldable pub get_optional_user :
      Option Credentials → ℕ → AuthWorld → Outcome AuthError (Option User)
  unfolding verify load_user
  get_optional_user none now w = returned none
  get_optional_user (some credentials) now w =
      verify credentials now w >>= load_user w >>= λ user. returned (some user)
