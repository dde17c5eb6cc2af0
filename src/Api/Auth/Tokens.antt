-- ===== src/Api/Auth/Tokens.antt =====
-- What the methods of AuthService (apps/api/app/modules/auth/service.py) do to tokens.
use sahucodex.Prelude.{
  ℕ, ◌+◌, Bool, true, false, ◌&&◌, not, List, [], ◌∷◌, ◌++◌, map, Option, none, some, leb, ◌==◌,
  if◌then◌else◌, any_of, keep_if, first_of?, take, Outcome, returned, raised,
}
use sahucodex.Prelude.Texts.{Text, eq_text}
use sahucodex.Prelude.Tables.{update_where}
use sahucodex.Api.Limits.{answers}
use sahucodex.Api.Auth.{
  RevokeReason, RefreshToken, TokenPurpose, email_verify, password_reset, OneTimeToken, AuditEntry,
  AuthWorld, AuthSettings, Externals, AuthError, link_invalid, User, is_none, in_seconds,
}

-- The values that an operation draws at random.
pub record Fresh : Type 0 where
  pub token_id : ℕ
  pub family_id : ℕ
  pub raw : Text
  pub salt : Text

pub record IssuedSession : Type 0 where
  pub access_token : Text
  pub expires_in : ℕ
  pub refresh_token : Text
  pub refresh_max_age : ℕ
  pub refresh_token_id : ℕ
  pub session_id : ℕ
  pub user : User

abbrev pub is_live_in : ℕ → RefreshToken → Bool
is_live_in family_id t = t.family_id == family_id && is_none t.revoked_at

abbrev pub is_live_of : ℕ → RefreshToken → Bool
is_live_of user_id t = t.user_id == user_id && is_none t.revoked_at

abbrev pub revoked : ℕ → RevokeReason → RefreshToken → RefreshToken
revoked now reason t = record t { revoked_at = some now; revoked_reason = some reason }

-- `_revoke_family`
unfoldable pub revoke_family : ℕ → RevokeReason → ℕ → AuthWorld → AuthWorld
revoke_family family_id reason now w = record w {
  tokens = update_where (is_live_in family_id) (revoked now reason) w.tokens;
}

-- `SELECT DISTINCT family_id`
abbrev pub distinct : List ℕ → List ℕ
distinct [] = []
distinct (n ∷ ns) = let rest = distinct ns in if any_of (λ m. m == n) rest then rest else n ∷ rest

abbrev pub family_of : RefreshToken → ℕ
family_of t = t.family_id

-- `_revoke_all_sessions`
unfoldable pub revoke_all_sessions : ℕ → RevokeReason → ℕ → AuthWorld → List ℕ × AuthWorld
revoke_all_sessions user_id reason now w = (
  distinct (map family_of (keep_if (is_live_of user_id) w.tokens)),
  record w { tokens = update_where (is_live_of user_id) (revoked now reason) w.tokens },
)

-- `_deny_access_tokens`: an entry outlives every access token that is out, by five seconds.
unfoldable pub deny_access_tokens : AuthSettings → List ℕ → ℕ → AuthWorld → AuthWorld
deny_access_tokens settings families now w = elim w.redis [
  | answers ↦ record w {
    denied =
        map (λ family. (family, in_seconds (settings.jwt_access_expire + 5) now)) families
        ++ w.denied;
  }
  | _ ↦ w
]

-- `record_audit`
abbrev pub record_audit : AuditEntry → AuthWorld → AuthWorld
record_audit entry w = record w { audit = w.audit ++ entry ∷ [] }

-- `create_access_token`: the token and the seconds until it expires.
unfoldable pub create_access_token : Externals → AuthSettings → ℕ → ℕ → ℕ → Text × ℕ
create_access_token ext settings user_id session_id now = (
  ext.jwt_encode (record {
    user_id = user_id;
    session_id = session_id;
    expires_at = in_seconds settings.jwt_access_expire now;
  }),
  settings.jwt_access_expire,
)

abbrev pub new_token :
    Externals → AuthSettings → ℕ → ℕ → Fresh → Text → Option Text → ℕ → RefreshToken
new_token ext settings user_id family_id fresh ip user_agent now = record {
  id = fresh.token_id;
  user_id = user_id;
  family_id = family_id;
  token_hash = ext.sha256_hex fresh.raw;
  created_at = now;
  expires_at = in_seconds settings.jwt_refresh_expire now;
  revoked_at = none;
  revoked_reason = none;
  replaced_by_id = none;
  ip_address = take 45 ip;
  user_agent = user_agent;
}

-- `_issue_session` in the family that is given; a new session's family is `fresh.family_id`.
unfoldable pub issue_session :
    Externals
    → AuthSettings
    → User
    → ℕ
    → Fresh
    → Text
    → Option Text
    → ℕ
    → AuthWorld
    → IssuedSession × AuthWorld
unfolding create_access_token
issue_session ext settings user family_id fresh ip user_agent now w =
    let (access, expires_in) = create_access_token ext settings user.id family_id now in
    (
      record {
        access_token = access;
        expires_in = expires_in;
        refresh_token = fresh.raw;
        refresh_max_age = settings.jwt_refresh_expire;
        refresh_token_id = fresh.token_id;
        session_id = family_id;
        user = user;
      },
      record w {
        tokens = w.tokens ++ new_token ext settings user.id family_id fresh ip user_agent now ∷ [];
      },
    )

abbrev pub eq_purpose : TokenPurpose → TokenPurpose → Bool
eq_purpose email_verify email_verify = true
eq_purpose password_reset password_reset = true
eq_purpose _ _ = false

abbrev pub is_unused_of : ℕ → TokenPurpose → OneTimeToken → Bool
is_unused_of user_id purpose t =
    t.user_id == user_id && eq_purpose t.purpose purpose && is_none t.used_at

abbrev pub used : ℕ → OneTimeToken → OneTimeToken
used now t = record t { used_at = some now }

-- `_create_one_time_token` for the random text `raw`: only the newest link stays valid.
unfoldable pub create_one_time_token :
    Externals → ℕ → TokenPurpose → ℕ → Text → ℕ → AuthWorld → AuthWorld
create_one_time_token ext user_id purpose ttl_seconds raw now w =
    let token : OneTimeToken = record {
      user_id = user_id;
      purpose = purpose;
      token_hash = ext.sha256_hex raw;
      expires_at = in_seconds ttl_seconds now;
      used_at = none;
    } in
    record w {
      one_time_tokens =
          update_where (is_unused_of user_id purpose) (used now) w.one_time_tokens ++ token ∷ [];
    }

abbrev pub has_hash : Text → OneTimeToken → Bool
has_hash hash t = eq_text t.token_hash hash

-- Whether a row that was found may be used.
abbrev pub is_usable : TokenPurpose → ℕ → OneTimeToken → Bool
is_usable purpose now t =
    eq_purpose t.purpose purpose && is_none t.used_at && not (leb t.expires_at now)

-- `_consume_one_time_token`: the row is locked, so it is changed before another request reads it.
unfoldable pub consume_one_time_token :
    Externals → Text → TokenPurpose → ℕ → AuthWorld → Outcome AuthError OneTimeToken × AuthWorld
consume_one_time_token ext raw purpose now w =
    let hash = ext.sha256_hex raw in
    elim (first_of? (has_hash hash) w.one_time_tokens) [
      | none ↦ (raised link_invalid, w)
      | some token ↦
          if is_usable purpose now token
          then (
            returned (used now token),
            record w {
              one_time_tokens = update_where (has_hash hash) (used now) w.one_time_tokens;
            },
          )
          else (raised link_invalid, w)
    ]
