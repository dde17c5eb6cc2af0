-- ===== src/Api/Auth/Links/Resetting.antt =====
-- What a new password brings about: `reset_password` of apps/api/app/modules/auth/service.py.
use mathlib.Core.Option
use sahucodex.Prelude.{
  ℕ, ◌≡◌, refl, ap, ◌∙◌, inl, inr, Bool, true, not, none, some, List, ◌==◌, arith, ==_iff,
  Bool-cases, Option-cases, Outcome-cases, first_of?, Outcome, returned, raised,
}
use sahucodex.Prelude.Texts.{Text}
use sahucodex.Prelude.Tables.{
  count_where, count_where_updated, first_of?-update_where, first_of?-some,
}
use sahucodex.Api.Auth.{
  RevokeReason, TokenPurpose, OneTimeToken, AuthWorld, AuthSettings, Externals, AuthError,
  link_invalid, User, is_none, get_user,
}
use sahucodex.Api.Auth.Tokens.{
  is_live_of, revoked, revoke_all_sessions, deny_access_tokens, has_hash, is_usable, used,
  consume_one_time_token, record_audit,
}
use sahucodex.Api.Auth.Sessions.{Client, with_user, entry_of}
use sahucodex.Api.Auth.Sessions.Single.{deny_access_tokens-tokens, Redis-cases}
use sahucodex.Api.Auth.Links.{with_password, reset_password}

-- What it takes for a link to be accepted, and what becomes of it.
record IsConsumed (ext : Externals) (raw : Text) (purpose : TokenPurpose) (now : ℕ) (w : AuthWorld)
    (token : OneTimeToken) : Type 0 where
  row : OneTimeToken
  found : first_of? (has_hash (ext.sha256_hex raw)) w.one_time_tokens ≡ some row
  same : token ≡ used now row
  after :
      first_of?
        (has_hash (ext.sha256_hex raw))
        (consume_one_time_token ext raw purpose now w).1.one_time_tokens
      ≡ some (used now row)

consumed :
    (ext : Externals) (raw : Text) (purpose : TokenPurpose) (now : ℕ) (w : AuthWorld)
    (token : OneTimeToken)
    → (consume_one_time_token ext raw purpose now w).0 ≡ returned token
    → IsConsumed ext raw purpose now w token
unfolding consume_one_time_token
consumed ext raw purpose now w token h =
    let hit = has_hash (ext.sha256_hex raw) in
    elim (Option-cases (first_of? hit w.one_time_tokens)) [
      | inl unknown ↦ absurd (ground (arith, rw (unknown, consume_one_time_token) at h))
      | inr (row, known) ↦ elim (Bool-cases (is_usable purpose now row)) [
        | inr dead ↦ absurd (
            ground (
              arith,
              rw (dead, consume_one_time_token) at (rw (known, consume_one_time_token) at h),
            ))
        | inl fine ↦
            let h' =
              rw (fine, consume_one_time_token) at (rw (known, consume_one_time_token) at h) in
            record {
              row = row;
              found = known;
              same = ground (arith, h');
              after =
                  rw (known, consume_one_time_token)
                    (rw (fine, consume_one_time_token)
                      (first_of?-update_where hit (used now) w.one_time_tokens (λ t. refl)
                        ∙ ap (Option.map (used now)) known));
            }
      ]
    ]

-- A link that was used is refused, whatever it is used for.
used_is_refused :
    (ext : Externals) (raw : Text) (purpose : TokenPurpose) (now before : ℕ) (w : AuthWorld)
    (row : OneTimeToken)
    → first_of? (has_hash (ext.sha256_hex raw)) w.one_time_tokens ≡ some (used before row)
    → consume_one_time_token ext raw purpose now w ≡ (raised link_invalid, w)
unfolding consume_one_time_token
used_is_refused ext raw purpose now before w row known =
    elim (Bool-cases (is_usable purpose now (used before row))) [
      | inl fine ↦ absurd (ground (arith, fine))
      | inr dead ↦ rw (known, consume_one_time_token) (rw (dead, consume_one_time_token) refl)
    ]

deny_access_tokens-rest :
    (settings : AuthSettings) (families : List ℕ) (now : ℕ) (w : AuthWorld)
    → ((deny_access_tokens settings families now w).users ≡ w.users)
      × ((deny_access_tokens settings families now w).one_time_tokens ≡ w.one_time_tokens)
unfolding deny_access_tokens
deny_access_tokens-rest settings families now w = elim (Redis-cases w.redis) [
  | inl up ↦ rw (up, deny_access_tokens) (refl, refl)
  | inr (inl down) ↦ rw (down, deny_access_tokens) (refl, refl)
  | inr (inr down) ↦ rw (down, deny_access_tokens) (refl, refl)
]

changed_user :
    (ext : Externals) (settings : AuthSettings) (password salt : Text) (user : User) (w : AuthWorld)
    → get_user user.id w ≡ some user
    → get_user user.id (with_user user.id (with_password ext settings password salt) w)
      ≡ some (with_password ext settings password salt user)
changed_user ext settings password salt user w there =
    let is_it : User → Bool = λ u. u.id == user.id in
    first_of?-update_where is_it (with_password ext settings password salt) w.users (λ u. refl)
    ∙ ap (Option.map (with_password ext settings password salt)) there

module _ (ext : Externals) (settings : AuthSettings) (raw password salt : Text) (client : Client)
    (now : ℕ) (w : AuthWorld) where
  abbrev link : Outcome AuthError OneTimeToken × AuthWorld
  link = consume_one_time_token ext raw TokenPurpose.password_reset now w

  -- The state before the access tokens are denied.
  abbrev settled : User → AuthWorld
  settled user =
      record_audit (entry_of "auth.password_reset" client user.id none)
        (revoke_all_sessions user.id RevokeReason.password_reset now
          (with_user user.id (with_password ext settings password salt) link.1)).1

  record IsReset : Type 0 where
    token : OneTimeToken
    user : User
    families : List ℕ
    is_consumed : link.0 ≡ returned token
    there : get_user token.user_id link.1 ≡ some user
    ends :
        reset_password ext settings raw password salt client now w
        ≡ (returned tt, deny_access_tokens settings families now (settled user))

  reset_password_returned :
      (reset_password ext settings raw password salt client now w).0 ≡ returned tt → IsReset
  unfolding reset_password
  reset_password_returned h = elim (Outcome-cases link.0) [
    | inl (e, bad) ↦ absurd (ground (arith, rw (bad, reset_password) at h))
    | inr (token, good) ↦ elim (Option-cases (get_user token.user_id link.1)) [
      | inl gone ↦
          absurd (ground (arith, rw (gone, reset_password) at (rw (good, reset_password) at h)))
      | inr (user, there) ↦ elim (Bool-cases (not (is_none user.deleted_at))) [
        | inl off ↦ absurd (
            ground (
              arith,
              rw (off, reset_password) at
                  (rw (there, reset_password) at (rw (good, reset_password) at h)),
            ))
        | inr on ↦ record {
          token = token;
          user = user;
          families =
              (revoke_all_sessions user.id RevokeReason.password_reset now
                (with_user user.id (with_password ext settings password salt) link.1)).0;
          is_consumed = good;
          there = there;
          ends =
              rw (good, reset_password) (rw (there, reset_password) (rw (on, reset_password) refl));
        }
      ]
    ]
  ]

  -- When a link has set a new password, the user it was sent to has no refresh token left that can be
  -- used, the new password is the one that is checked, and the link is never accepted again, provided
  -- that argon2 accepts the passwords that it has hashed.
  pub reset_password_lem :
      (new_password new_salt : Text) (other : Client) (later : ℕ)
      → ((s p : Text) → ext.argon2_verify (ext.argon2_hash s p) p ≡ true)
      → (reset_password ext settings raw password salt client now w).0 ≡ returned tt
      → let w' = (reset_password ext settings raw password salt client now w).1 in
        (token : OneTimeToken) × (first_of? (has_hash (ext.sha256_hex raw)) w.one_time_tokens
          ≡ some token)
        × (count_where (is_live_of token.user_id) w'.tokens ≡ 0)
        × ((user : User) × (get_user token.user_id w' ≡ some user)
            × (ext.argon2_verify user.password_hash password ≡ true))
        × (reset_password ext settings raw new_password new_salt other later w'
            ≡ (raised link_invalid, w'))
  unfolding reset_password revoke_all_sessions
  reset_password_lem new_password new_salt other later hashes h =
      let reset = reset_password_returned h in
      let gone = consumed ext raw TokenPurpose.password_reset now w reset.token reset.is_consumed in
      let w' = deny_access_tokens settings reset.families now (settled reset.user) in
      let (same_users, same_links) =
        deny_access_tokens-rest settings reset.families now (settled reset.user) in
      let its_user : reset.user.id ≡ gone.row.user_id =
        (==_iff reset.user.id reset.token.user_id).0
          (first_of?-some (λ u. u.id == reset.token.user_id) link.1.users reset.user reset.there).0
        ∙ ap (λ t. t.user_id) gone.same in
      let there : get_user reset.user.id link.1 ≡ some reset.user =
        rw (its_user, ← ap (λ t. t.user_id) gone.same) reset.there in
      let refused =
        used_is_refused ext raw TokenPurpose.password_reset later now w' gone.row
          (ap (first_of? (has_hash (ext.sha256_hex raw))) same_links ∙ gone.after) in
      rw reset.ends (
        gone.row,
        gone.found,
        rw (deny_access_tokens-tokens settings reset.families now (settled reset.user), ← its_user)
            (count_where_updated (is_live_of reset.user.id)
              (revoked now RevokeReason.password_reset) link.1.tokens (λ t. ground arith)),
        (
          with_password ext settings password salt reset.user,
          rw (same_users, ← its_user)
              (changed_user ext settings password salt reset.user link.1 there),
          hashes salt password,
        ),
        rw (ap (λ r. r.0) refused, reset_password) (ap (λ r. (raised link_invalid, r.1)) refused),
      )
