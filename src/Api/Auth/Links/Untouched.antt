-- ===== src/Api/Auth/Links/Untouched.antt =====
-- What the links of apps/api/app/modules/auth/service.py do to refresh tokens: nothing, but for a new
-- password, which revokes them.
use sahucodex.Prelude.{
  ℕ, ◌≡◌, refl, ◌∙◌, inl, inr, not, arith, Bool-cases, Option-cases, Outcome-cases, any_of,
  first_of?,
}
use sahucodex.Prelude.Texts.{Text, eq_text}
use sahucodex.Api.Auth.{
  RevokeReason, TokenPurpose, email_verify, AuthWorld, AuthSettings, Externals, User, is_none,
  is_available, get_user, get_by_email, get_by_username, normalise_email, short_digest,
}
use sahucodex.Api.Auth.Tokens.{
  Fresh, has_hash, is_usable, is_live_of, consume_one_time_token, revoke_all_sessions,
}
use sahucodex.Api.Auth.Sessions.{Client, limited}
use sahucodex.Api.Auth.Sessions.Single.{IsSingle, deny_access_tokens-tokens, live-revoke_le}
use sahucodex.Api.Auth.Sessions.Invariant.{limited-tokens}
use sahucodex.Api.Auth.Links.{
  reserved_usernames, clashes, new_user, register, send_verification_email, verify_email,
  mail_reset_link, forgot_password, reset_password,
}

pub consume_one_time_token-tokens :
    (ext : Externals) (raw : Text) (purpose : TokenPurpose) (now : ℕ) (w : AuthWorld)
    → (consume_one_time_token ext raw purpose now w).1.tokens ≡ w.tokens
unfolding consume_one_time_token
consume_one_time_token-tokens ext raw purpose now w =
    elim (Option-cases (first_of? (has_hash (ext.sha256_hex raw)) w.one_time_tokens)) [
      | inl unknown ↦ rw (unknown, consume_one_time_token) refl
      | inr (token, known) ↦ elim (Bool-cases (is_usable purpose now token)) [
        | inl fine ↦ rw (known, consume_one_time_token) (rw (fine, consume_one_time_token) refl)
        | inr dead ↦ rw (known, consume_one_time_token) (rw (dead, consume_one_time_token) refl)
      ]
    ]

module _ (ext : Externals) (settings : AuthSettings) where
  pub send_verification_email-tokens :
      (user : User) (raw : Text) (now : ℕ) (w : AuthWorld)
      → (send_verification_email ext settings user raw now w).tokens ≡ w.tokens
  unfolding send_verification_email
  send_verification_email-tokens user raw now w =
      elim (Bool-cases (not (is_none user.email_verified_at))) [
        | inl done ↦ rw (done, send_verification_email) refl
        | inr waits ↦ rw (waits, send_verification_email) refl
      ]

  pub verify_email-tokens :
      (raw : Text) (now : ℕ) (w : AuthWorld)
      → (verify_email ext settings raw now w).1.tokens ≡ w.tokens
  unfolding verify_email
  verify_email-tokens raw now w =
      let consumed = consume_one_time_token ext raw email_verify now w in
      let same = consume_one_time_token-tokens ext raw email_verify now w in
      elim (Outcome-cases consumed.0) [
        | inl (e, bad) ↦ rw (bad, verify_email) same
        | inr (token, good) ↦ elim (Option-cases (get_user token.user_id consumed.1)) [
          | inl gone ↦ rw (good, verify_email) (rw (gone, verify_email) same)
          | inr (user, there) ↦ elim (Bool-cases (is_none user.email_verified_at)) [
            | inl new ↦
                rw (good, verify_email) (rw (there, verify_email) (rw (new, verify_email) same))
            | inr old ↦
                rw (good, verify_email) (rw (there, verify_email) (rw (old, verify_email) same))
          ]
        ]
      ]

  mail_reset_link-tokens :
      (email raw : Text) (now : ℕ) (w : AuthWorld)
      → (mail_reset_link ext settings email raw now w).tokens ≡ w.tokens
  unfolding mail_reset_link
  mail_reset_link-tokens email raw now w = elim (Option-cases (get_by_email ext email w)) [
    | inl unknown ↦ rw (unknown, mail_reset_link) refl
    | inr (user, known) ↦ elim (Bool-cases (not (is_available user))) [
      | inl off ↦ rw (known, mail_reset_link) (rw (off, mail_reset_link) refl)
      | inr on ↦ rw (known, mail_reset_link) (rw (on, mail_reset_link) refl)
    ]
  ]

  pub forgot_password-tokens :
      (email ip raw : Text) (now : ℕ) (w : AuthWorld)
      → (forgot_password ext settings email ip raw now w).1.tokens ≡ w.tokens
  unfolding forgot_password
  forgot_password-tokens email ip raw now w =
      let limit = settings.rate_limit_password_reset in
      let digest = short_digest ext (normalise_email ext email) in
      let by_ip = limited ext settings "pwreset:ip" ip limit now w in
      let by_email = limited ext settings "pwreset:email" digest limit now by_ip.1 in
      let same1 = limited-tokens ext settings "pwreset:ip" ip limit now w in
      let same2 = limited-tokens ext settings "pwreset:email" digest limit now by_ip.1 in
      elim (Outcome-cases by_ip.0) [
        | inl (e, refused) ↦ rw (refused, forgot_password) same1
        | inr (u, allowed) ↦ elim (Outcome-cases by_email.0) [
          | inl (e, refused) ↦
              rw (allowed, forgot_password) (rw (refused, forgot_password) (same2 ∙ same1))
          | inr (v, let_in) ↦
              rw (allowed, forgot_password)
                (rw (let_in, forgot_password)
                  (mail_reset_link-tokens email raw now by_email.1 ∙ same2 ∙ same1))
        ]
      ]

  pub register-IsSingle :
      (meanwhile : AuthWorld → AuthWorld) (id : ℕ) (email username password : Text) (fresh : Fresh)
      (client : Client) (now : ℕ) (w : AuthWorld)
      → IsSingle w
      → IsSingle (meanwhile w)
      → IsSingle (register ext settings meanwhile id email username password fresh client now w).1
  unfolding register
  register-IsSingle meanwhile id email username password fresh client now w single later =
      let user = new_user ext settings id email username password fresh.salt in
      elim (Bool-cases (any_of (eq_text (ext.lower username)) reserved_usernames)) [
        | inl reserved ↦ rw (reserved, register) single
        | inr free ↦ elim (Bool-cases (not (is_none (get_by_email ext email w)))) [
          | inl known ↦ rw (free, known, register) single
          | inr new ↦ elim (Bool-cases (not (is_none (get_by_username ext username w)))) [
            | inl taken ↦ rw (free, new, taken, register) single
            | inr own ↦ elim (Bool-cases (any_of (clashes ext settings user) (meanwhile w).users)) [
              | inl late ↦ rw (free, new, own, register) (rw (late, register) later)
              | inr early ↦
                  rw (free, new, own, register)
                    (rw (early, register)
                      (λ f. rw (send_verification_email-tokens user fresh.raw now _) (later f)))
            ]
          ]
        ]
      ]

  pub reset_password-IsSingle :
      (raw password salt : Text) (client : Client) (now : ℕ) (w : AuthWorld)
      → IsSingle w
      → IsSingle (reset_password ext settings raw password salt client now w).1
  unfolding reset_password revoke_all_sessions
  reset_password-IsSingle raw password salt client now w single =
      let consumed = consume_one_time_token ext raw TokenPurpose.password_reset now w in
      let same = consume_one_time_token-tokens ext raw TokenPurpose.password_reset now w in
      elim (Outcome-cases consumed.0) [
        | inl (e, bad) ↦ rw (bad, reset_password) (rw same single)
        | inr (token, good) ↦ elim (Option-cases (get_user token.user_id consumed.1)) [
          | inl gone ↦ rw (good, reset_password) (rw (gone, reset_password) single)
          | inr (user, there) ↦ elim (Bool-cases (not (is_none user.deleted_at))) [
            | inl off ↦
                rw (good, reset_password)
                  (rw (there, reset_password) (rw (off, reset_password) single))
            | inr on ↦
                rw (good, reset_password)
                  (rw (there, reset_password)
                    (rw (on, reset_password)
                      (λ f.
                        rw (deny_access_tokens-tokens settings _ now _, same)
                          (omega (
                            arith,
                            single f,
                            live-revoke_le f now RevokeReason.password_reset (is_live_of user.id)
                                w.tokens,
                          )))))
          ]
        ]
      ]
