-- ===== src/Api/Auth/Tests.antt =====
-- Sessions under a toy hash and toy tokens, and instances of the theorems on
-- apps/api/app/modules/auth.
use sahucodex.Prelude.{
  ℕ, ◌+◌, ◌*◌, ◌≤◌, ◌<◌, ◌≡◌, ◌⊎◌, refl, inl, inr, true, false, [], ◌∷◌, Option, none, some, ltb,
  arith, if◌then◌else◌, Bool-cases, first_of?, Outcome, returned, raised,
}
use sahucodex.Prelude.Texts.{Text, codes, eq_text, eq_text_refl}
use sahucodex.Prelude.Tables.{count_where}
use sahucodex.Api.Limits.{RateLimit, answers, second}
use sahucodex.Api.Auth.{
  RoleName, User, OneTimeToken, AccessClaims, AuthWorld, AuthSettings, Externals, JwtError,
  expired_signature, invalid_token, Payload, AuthError, refresh_token_race, refresh_token_reused,
  link_invalid, get_user, is_session_revoked,
}
use sahucodex.Api.Auth.Tokens.{Fresh, IssuedSession, is_live_of, has_hash}
use sahucodex.Api.Auth.Sessions.{Client, login, refresh, revoke_session}
use sahucodex.Api.Auth.Sessions.Single.{live, IsSingle}
use sahucodex.Api.Auth.Sessions.Rotation.{refresh_replayed}
use sahucodex.Api.Auth.Sessions.Reachable.{nothing, signs_in, refreshes, Reaches-IsSingle}
use sahucodex.Api.Auth.Access.{Credentials, verify}
use sahucodex.Api.Auth.Access.Denied.{revoke_session_shuts_out}
use sahucodex.Api.Auth.Links.{reset_password, forgot_password}
use sahucodex.Api.Auth.Links.Resetting.{reset_password_lem}

abbrev toy_decode : Text → ℕ → Outcome JwtError Payload
toy_decode (user_id ∷ session_id ∷ exp ∷ []) now =
    if ltb now exp
    then returned
        (record { type = codes "access"; sub = user_id ∷ []; sid = session_id ∷ []; exp = exp })
    else raised expired_signature
toy_decode _ now = raised invalid_token

abbrev toy_uuid : Text → Option ℕ
toy_uuid (n ∷ []) = some n
toy_uuid _ = none

abbrev toy : Externals
toy = record {
  lower = λ s. s;
  sha256_hex = λ s. s;
  argon2_hash = λ salt password. password;
  argon2_verify = eq_text;
  argon2_needs_rehash = λ hash. false;
  jwt_encode = λ claims. claims.user_id ∷ claims.session_id ∷ claims.expires_at ∷ [];
  jwt_decode = toy_decode;
  parse_uuid = toy_uuid;
}

abbrev often : RateLimit
often = record { limit = 5; window_seconds = 60 }

abbrev settings : AuthSettings
settings = record {
  jwt_access_expire = 900;
  jwt_refresh_expire = 604800;
  refresh_reuse_grace_seconds = 10;
  email_verify_expire = 86400;
  password_reset_expire = 3600;
  frontend_url = codes "http://sahucodex/";
  rate_limit_enabled = true;
  rate_limit_login = often;
  rate_limit_login_account = often;
  rate_limit_password_reset = often;
}

abbrev sahil : User
sahil = record {
  id = 7;
  email = codes "s@x";
  username = codes "sahil";
  password_hash = codes "old";
  is_active = true;
  email_verified_at = none;
  last_login_at = none;
  deleted_at = none;
  roles = RoleName.user ∷ [];
}

abbrev start : AuthWorld
start = record {
  users = sahil ∷ [];
  tokens = [];
  one_time_tokens = [];
  audit = [];
  denied = [];
  redis = answers;
  keys = λ key. [];
  outbox = [];
}

abbrev client : Client
client = record { ip = codes "10.0.0.1"; user_agent = none }

abbrev draw : ℕ → Fresh
draw n = record { token_id = n; family_id = n; raw = n ∷ []; salt = [] }

abbrev signed_in : AuthWorld
signed_in = (login toy settings (codes "sahil") (codes "old") (draw 1) client 0 start).1

abbrev session_of : Outcome AuthError IssuedSession → Option ℕ
session_of (returned session) = some session.session_id
session_of (raised e) = none

signs_in_test :
    session_of (login toy settings (codes "sahil") (codes "old") (draw 1) client 0 start).0 ≡ some 1
unfolding login
signs_in_test = refl

abbrev renewed : IssuedSession
renewed = record {
  access_token = 7 ∷ 1 ∷ (1000 + 900) * second ∷ [];
  expires_in = 900;
  refresh_token = 2 ∷ [];
  refresh_max_age = 604800;
  refresh_token_id = 2;
  session_id = 1;
  user = record sahil { last_login_at = some 0 };
}

renews :
    (refresh toy settings (1 ∷ []) (draw 2) client (1000 * second) signed_in).0 ≡ returned renewed
unfolding refresh login
renews = refl

signed_in_answers : signed_in.redis ≡ answers
unfolding login
signed_in_answers = refl

refresh_replayed_example :
    let w1 = (refresh toy settings (1 ∷ []) (draw 2) client (1000 * second) signed_in).1 in
    let (outcome, w2) = refresh toy settings (1 ∷ []) (draw 3) client (1011 * second) w1 in
    ((1011 * second ≤ 1000 * second + 10 * second)
      × (outcome ≡ raised refresh_token_race)
      × (w2 ≡ w1))
    ⊎ ((1000 * second + 10 * second < 1011 * second)
        × (outcome ≡ raised refresh_token_reused)
        × (live 1 w2.tokens ≡ 0)
        × (is_session_revoked 1 (1500 * second) w2 ≡ true))
refresh_replayed_example =
    refresh_replayed toy settings (1 ∷ []) (draw 2) (draw 3) client client (1000 * second)
      (1011 * second) (1500 * second) signed_in renewed renews signed_in_answers (omega arith)

start-IsSingle : IsSingle start
start-IsSingle family_id = omega arith

Reaches-IsSingle_example :
    IsSingle (refresh toy settings (1 ∷ []) (draw 2) client (1000 * second) signed_in).1
Reaches-IsSingle_example =
    Reaches-IsSingle toy settings start
      (refresh toy settings (1 ∷ []) (draw 2) client (1000 * second) signed_in).1
      (refreshes (1 ∷ []) (draw 2) client (1000 * second)
        (signs_in (codes "sahil") (codes "old") (draw 1) client 0 (nothing start) refl))
      start-IsSingle

toy_unexpired :
    (token : Text) (at_time : ℕ) (payload : Payload)
    → toy.jwt_decode token at_time ≡ returned payload
    → at_time < payload.exp
toy_unexpired [] at_time payload h = absurd (ground arith)
toy_unexpired (a ∷ []) at_time payload h = absurd (ground arith)
toy_unexpired (a ∷ b ∷ []) at_time payload h = absurd (ground arith)
toy_unexpired (a ∷ b ∷ c ∷ []) at_time payload h = elim (Bool-cases (ltb at_time c)) [
  | inl early ↦
      let exp : c ≡ payload.exp = ground (arith, rw early at h) in ground (arith, exp, early)
  | inr late ↦ absurd (ground (arith, rw late at h))
]
toy_unexpired (a ∷ b ∷ c ∷ d ∷ token) at_time payload h = absurd (ground arith)

revokes : (revoke_session toy settings 7 1 client (1000 * second) signed_in).0 ≡ returned tt
unfolding revoke_session login
revokes = refl

abbrev bearer : Credentials
bearer = record { scheme = codes "bearer"; credentials = 7 ∷ 1 ∷ 900 * second ∷ [] }

abbrev claims : AccessClaims
claims = record { user_id = 7; session_id = 1; expires_at = 900 * second }

is_let_in : verify toy bearer (899 * second) signed_in ≡ returned claims
unfolding verify login
is_let_in = refl

revoke_session_shuts_out_example :
    let w' = (revoke_session toy settings 7 1 client (1000 * second) signed_in).1 in
    (live 1 w'.tokens ≡ 0) × (¬ (verify toy bearer (1001 * second) w' ≡ returned claims))
revoke_session_shuts_out_example =
    revoke_session_shuts_out toy settings 7 1 client (1000 * second) signed_in bearer
      (1001 * second) claims toy_unexpired signed_in_answers revokes refl (omega arith)

abbrev mailed : AuthWorld
mailed = (forgot_password toy settings (codes "s@x") (codes "10.0.0.1") (5 ∷ []) 0 signed_in).1

resets :
    (reset_password toy settings (5 ∷ []) (codes "new") [] client (60 * second) mailed).0
    ≡ returned tt
unfolding reset_password forgot_password login
resets = refl

toy_hashes :
    (salt password : Text) → toy.argon2_verify (toy.argon2_hash salt password) password ≡ true
toy_hashes salt password = eq_text_refl password

reset_password_lem_example :
    let w' =
      (reset_password toy settings (5 ∷ []) (codes "new") [] client (60 * second) mailed).1 in
    (token : OneTimeToken) × (first_of? (has_hash (5 ∷ [])) mailed.one_time_tokens ≡ some token)
    × (count_where (is_live_of token.user_id) w'.tokens ≡ 0)
    × ((user : User) × (get_user token.user_id w' ≡ some user)
        × (eq_text user.password_hash (codes "new") ≡ true))
    × (reset_password toy settings (5 ∷ []) (codes "mine") [] client (61 * second) w'
        ≡ (raised link_invalid, w'))
reset_password_lem_example =
    reset_password_lem toy settings (5 ∷ []) (codes "new") [] client (60 * second) mailed
      (codes "mine") [] client (61 * second) toy_hashes resets
