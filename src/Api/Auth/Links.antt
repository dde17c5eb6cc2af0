-- ===== src/Api/Auth/Links.antt =====
-- Registration, and the links that are e-mailed: AuthService of apps/api/app/modules/auth/service.py.
pub mod Untouched
pub mod Resetting
use Prim.Native.String.{String}
use sahucodex.Prelude.{
  ℕ, Bool, true, false, ◌||◌, not, List, [], ◌∷◌, ◌++◌, Option, none, some, ◌==◌, if◌then◌else◌,
  any_of, Outcome, returned, raised,
}
use sahucodex.Prelude.Texts.{Text, codes, eq_text}
use sahucodex.Strings.{trim_end}
use sahucodex.Api.Auth.{
  RoleName, RevokeReason, TokenPurpose, email_verify, AuditEntry, Mail, AuthWorld, AuthSettings,
  Externals, AuthError, link_invalid, username_taken, email_taken, account_exists, User, is_none,
  is_available, get_user, get_by_email, get_by_username, normalise_email, short_digest,
}
use sahucodex.Api.Auth.Tokens.{
  Fresh, revoke_all_sessions, deny_access_tokens, record_audit, create_one_time_token,
  consume_one_time_token,
}
use sahucodex.Api.Auth.Sessions.{Client, entry_of, with_user, limited}

abbrev pub reserved_usernames : List Text
reserved_usernames =
    codes "admin"
    ∷ codes "administrator"
    ∷ codes "root"
    ∷ codes "system"
    ∷ codes "support"
    ∷ codes "moderator"
    ∷ codes "mod"
    ∷ codes "staff"
    ∷ codes "sahucodex"
    ∷ codes "sahujudge"
    ∷ codes "sahucodexai"
    ∷ codes "api"
    ∷ codes "null"
    ∷ codes "undefined"
    ∷ codes "me"
    ∷ codes "anonymous"
    ∷ []

-- `f"{frontend_url.rstrip('/')}/{page}?token={raw}"`
unfoldable pub link_to : AuthSettings → String → Text → Text
unfolding trim_end
link_to settings page raw =
    trim_end (λ c. c == 47) settings.frontend_url ++ codes page ++ codes "?token=" ++ raw

abbrev pub send : Mail → AuthWorld → AuthWorld
send mail w = record w { outbox = w.outbox ++ mail ∷ [] }

module _ (ext : Externals) (settings : AuthSettings) where
  unfoldable pub send_verification_email : User → Text → ℕ → AuthWorld → AuthWorld
  unfolding create_one_time_token link_to
  send_verification_email user raw now w =
      let mail : Mail = record {
        to = user.email;
        subject = codes "Verify your SahuCodeX email";
        link = link_to settings "/verify-email" raw;
      } in
      if not (is_none user.email_verified_at)
      then w
      else send mail
          (create_one_time_token ext user.id email_verify settings.email_verify_expire raw now w)

  -- `create_user` with the default role; `id` and the salt are drawn at random.
  unfoldable pub new_user : ℕ → Text → Text → Text → Text → User
  unfolding normalise_email
  new_user id email username password salt = record {
    id = id;
    email = normalise_email ext email;
    username = username;
    password_hash = ext.argon2_hash salt password;
    is_active = true;
    email_verified_at = none;
    last_login_at = none;
    deleted_at = none;
    roles = RoleName.user ∷ [];
  }

  -- The unique columns of `users`: the e-mail address, and the username without regard to case.
  unfoldable pub clashes : User → User → Bool
  clashes a b = eq_text a.email b.email || eq_text (ext.lower a.username) (ext.lower b.username)

  -- `meanwhile` is what other requests commit between the checks and the INSERT, which the unique
  -- indexes refuse where it would break them.
  unfoldable pub register :
      (AuthWorld → AuthWorld)
      → ℕ
      → Text
      → Text
      → Text
      → Fresh
      → Client
      → ℕ
      → AuthWorld
      → Outcome AuthError User × AuthWorld
  unfolding get_by_email get_by_username new_user clashes send_verification_email
  register meanwhile id email username password fresh client now w =
      let user = new_user id email username password fresh.salt in
      let w1 = meanwhile w in
      let w2 = record w1 { users = w1.users ++ user ∷ [] } in
      let w3 = record_audit (entry_of "auth.register" client id none) w2 in
      if any_of (eq_text (ext.lower username)) reserved_usernames
      then (raised username_taken, w)
      else if not (is_none (get_by_email ext email w))
      then (raised email_taken, w)
      else if not (is_none (get_by_username ext username w))
      then (raised username_taken, w)
      else if any_of (clashes user) w1.users
      then (raised account_exists, w1)
      else (returned user, send_verification_email user fresh.raw now w3)

  abbrev pub verified : ℕ → User → User
  verified now user = record user { email_verified_at = some now }

  unfoldable pub verify_email : Text → ℕ → AuthWorld → Outcome AuthError Unit × AuthWorld
  unfolding consume_one_time_token
  verify_email raw_token now w =
      let (outcome, w') = consume_one_time_token ext raw_token email_verify now w in
      elim outcome [
        | raised e ↦ (raised e, w')
        | returned token ↦ elim (get_user token.user_id w') [
          | none ↦ (returned tt, w')
          | some user ↦
              let entry : AuditEntry = record {
                action = codes "auth.email_verified";
                actor_id = some user.id;
                session_id = none;
                ip = none;
                user_agent = none;
              } in
              (
                returned tt,
                if is_none user.email_verified_at
                    then record_audit entry (with_user user.id (verified now) w')
                    else w',
              )
        ]
      ]

  -- What `forgot_password` does when both limits let the request in.
  unfoldable pub mail_reset_link : Text → Text → ℕ → AuthWorld → AuthWorld
  unfolding get_by_email create_one_time_token link_to
  mail_reset_link email raw now w = elim (get_by_email ext email w) [
    | none ↦ w
    | some user ↦
        let mail : Mail = record {
          to = user.email;
          subject = codes "Reset your SahuCodeX password";
          link = link_to settings "/reset-password" raw;
        } in
        if not (is_available user)
        then w
        else send mail (
            create_one_time_token ext user.id TokenPurpose.password_reset
              settings.password_reset_expire raw now w)
  ]

  unfoldable pub forgot_password :
      Text → Text → Text → ℕ → AuthWorld → Outcome AuthError Unit × AuthWorld
  unfolding mail_reset_link normalise_email
  forgot_password email ip raw now w =
      let limit = settings.rate_limit_password_reset in
      let digest = short_digest ext (normalise_email ext email) in
      let (by_ip, w1) = limited ext settings "pwreset:ip" ip limit now w in
      let (by_email, w2) = limited ext settings "pwreset:email" digest limit now w1 in
      elim by_ip [
        | raised e ↦ (raised e, w1)
        | returned _ ↦ elim by_email [
          | raised e ↦ (raised e, w2)
          | returned _ ↦ (returned tt, mail_reset_link email raw now w2)
        ]
      ]

  abbrev pub with_password : Text → Text → User → User
  with_password password salt user = record user { password_hash = ext.argon2_hash salt password }

  -- A request that raises is rolled back, so the link of a deleted account stays unused.
  unfoldable pub reset_password :
      Text → Text → Text → Client → ℕ → AuthWorld → Outcome AuthError Unit × AuthWorld
  unfolding consume_one_time_token revoke_all_sessions deny_access_tokens
  reset_password raw_token new_password salt client now w =
      let (outcome, w1) = consume_one_time_token ext raw_token TokenPurpose.password_reset now w in
      elim outcome [
        | raised e ↦ (raised e, w1)
        | returned token ↦ elim (get_user token.user_id w1) [
          | none ↦ (raised link_invalid, w)
          | some user ↦
              let (families, w2) =
                revoke_all_sessions user.id RevokeReason.password_reset now
                  (with_user user.id (with_password new_password salt) w1) in
              let w3 = record_audit (entry_of "auth.password_reset" client user.id none) w2 in
              if not (is_none user.deleted_at)
              then (raised link_invalid, w)
              else (returned tt, deny_access_tokens settings families now w3)
        ]
      ]
