-- ===== src/Api/Auth/Sessions/Reachable.antt =====
-- The states that the requests to AuthService (apps/api/app/modules/auth/service.py) lead to.
use sahucodex.Prelude.{ℕ, ◌≡◌, Option}
use sahucodex.Prelude.Texts.{Text}
use sahucodex.Api.Auth.{AuthWorld, AuthSettings, Externals, User}
use sahucodex.Api.Auth.Tokens.{Fresh}
use sahucodex.Api.Auth.Sessions.{Client, login, refresh, sign_out, revoke_session}
use sahucodex.Api.Auth.Sessions.Single.{live, IsSingle}
use sahucodex.Api.Auth.Sessions.Invariant.{
  login-IsSingle, refresh-IsSingle, sign_out-IsSingle, revoke_session-IsSingle,
}
use sahucodex.Api.Auth.Links.Untouched.{
  register-IsSingle, send_verification_email-tokens, verify_email-tokens, forgot_password-tokens,
  reset_password-IsSingle,
}
use sahucodex.Api.Auth.Links.{
  register, send_verification_email, verify_email, forgot_password, reset_password,
}

module _ (ext : Externals) (settings : AuthSettings) where
  -- `Reaches v w`: requests lead from `v` to `w`. A new session draws an identifier that no live
  -- token has; what happens in the middle of a registration is requests as well.
  pub data Reaches : AuthWorld → AuthWorld → Type 0 where
    nothing : (w : AuthWorld) → Reaches w w
    signs_in :
        {v w : AuthWorld} (identifier password : Text) (fresh : Fresh) (client : Client) (now : ℕ)
        → Reaches v w
        → live fresh.family_id w.tokens ≡ 0
        → Reaches v (login ext settings identifier password fresh client now w).1
    refreshes :
        {v w : AuthWorld} (raw : Text) (fresh : Fresh) (client : Client) (now : ℕ)
        → Reaches v w
        → Reaches v (refresh ext settings raw fresh client now w).1
    signs_out :
        {v w : AuthWorld} (raw : Option Text) (client : Client) (now : ℕ)
        → Reaches v w
        → Reaches v (sign_out ext settings raw client now w)
    revokes :
        {v w : AuthWorld} (user_id session_id : ℕ) (client : Client) (now : ℕ)
        → Reaches v w
        → Reaches v (revoke_session ext settings user_id session_id client now w).1
    registers :
        {v w : AuthWorld} (meanwhile : AuthWorld → AuthWorld) (id : ℕ)
        (email username password : Text) (fresh : Fresh) (client : Client) (now : ℕ)
        → Reaches v w
        → Reaches w (meanwhile w)
        → Reaches v
            (register ext settings meanwhile id email username password fresh client now w).1
    asks_for_verification :
        {v w : AuthWorld} (user : User) (raw : Text) (now : ℕ)
        → Reaches v w
        → Reaches v (send_verification_email ext settings user raw now w)
    verifies :
        {v w : AuthWorld} (raw : Text) (now : ℕ)
        → Reaches v w
        → Reaches v (verify_email ext settings raw now w).1
    forgets :
        {v w : AuthWorld} (email ip raw : Text) (now : ℕ)
        → Reaches v w
        → Reaches v (forgot_password ext settings email ip raw now w).1
    resets :
        {v w : AuthWorld} (raw password salt : Text) (client : Client) (now : ℕ)
        → Reaches v w
        → Reaches v (reset_password ext settings raw password salt client now w).1

  -- Whatever requests are served, in whatever order, a session never has two refresh tokens that can
  -- be used, if none had to begin with.
  pub Reaches-IsSingle : (v w : AuthWorld) → Reaches v w → IsSingle v → IsSingle w
  Reaches-IsSingle v w (nothing _) h = h
  Reaches-IsSingle v _ (signs_in {w = w} identifier password fresh client now before unused) h =
      login-IsSingle ext settings identifier password fresh client now w unused
        (Reaches-IsSingle v w before h)
  Reaches-IsSingle v _ (refreshes {w = w} raw fresh client now before) h =
      refresh-IsSingle ext settings raw fresh client now w (Reaches-IsSingle v w before h)
  Reaches-IsSingle v _ (signs_out {w = w} raw client now before) h =
      sign_out-IsSingle ext settings raw client now w (Reaches-IsSingle v w before h)
  Reaches-IsSingle v _ (revokes {w = w} user_id session_id client now before) h =
      revoke_session-IsSingle ext settings user_id session_id client now w
        (Reaches-IsSingle v w before h)
  Reaches-IsSingle v _
        (registers {w = w} meanwhile id email username password fresh client now before between) h =
      register-IsSingle ext settings meanwhile id email username password fresh client now w
        (Reaches-IsSingle v w before h)
        (Reaches-IsSingle w (meanwhile w) between (Reaches-IsSingle v w before h))
  Reaches-IsSingle v _ (asks_for_verification {w = w} user raw now before) h =
      rw (send_verification_email-tokens ext settings user raw now w)
        (Reaches-IsSingle v w before h)
  Reaches-IsSingle v _ (verifies {w = w} raw now before) h =
      rw (verify_email-tokens ext settings raw now w) (Reaches-IsSingle v w before h)
  Reaches-IsSingle v _ (forgets {w = w} email ip raw now before) h =
      rw (forgot_password-tokens ext settings email ip raw now w) (Reaches-IsSingle v w before h)
  Reaches-IsSingle v _ (resets {w = w} raw password salt client now before) h =
      reset_password-IsSingle ext settings raw password salt client now w
        (Reaches-IsSingle v w before h)
