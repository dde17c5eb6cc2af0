-- ===== src/Api/Auth/Sessions/Single.antt =====
-- How many refresh tokens of a session are live: what the updates of
-- apps/api/app/modules/auth/service.py do to the count.
use sahucodex.Prelude.{
  ℕ, ◌≤◌, ◌≡◌, ◌⊎◌, refl, inl, inr, Bool, true, false, List, [], ◌∷◌, ◌++◌, none, some, ◌==◌, arith,
  ==_iff, Bool-cases, first_of?,
}
use sahucodex.Prelude.Tables.{
  count_where, update_where, count_where-append, update_where-append, count_where-update_le,
  count_where-update_found,
}
use sahucodex.Api.Limits.{RedisState, answers, fails_at_once, fails_later}
use sahucodex.Api.Auth.{RevokeReason, RefreshToken, AuditEntry, AuthWorld, AuthSettings, Externals}
use sahucodex.Api.Auth.Tokens.{record_audit, is_live_in, revoked, revoke_family, deny_access_tokens}
use sahucodex.Api.Auth.Sessions.{end_session, replaced, is_token}

abbrev pub live : ℕ → List RefreshToken → ℕ
live family_id tokens = count_where (is_live_in family_id) tokens

-- No session has two refresh tokens that can be used.
abbrev pub IsSingle : AuthWorld → Type 0
IsSingle w = (family_id : ℕ) → live family_id w.tokens ≤ 1

pub Redis-cases : (r : RedisState) → (r ≡ answers) ⊎ (r ≡ fails_at_once) ⊎ (r ≡ fails_later)
Redis-cases answers = inl refl
Redis-cases fails_at_once = inr (inl refl)
Redis-cases fails_later = inr (inr refl)

pub deny_access_tokens-tokens :
    (settings : AuthSettings) (families : List ℕ) (now : ℕ) (w : AuthWorld)
    → (deny_access_tokens settings families now w).tokens ≡ w.tokens
unfolding deny_access_tokens
deny_access_tokens-tokens settings families now w = elim (Redis-cases w.redis) [
  | inl up ↦ rw (up, deny_access_tokens) refl
  | inr (inl down) ↦ rw (down, deny_access_tokens) refl
  | inr (inr down) ↦ rw (down, deny_access_tokens) refl
]

-- Nothing that is revoked is live.
pub live-revoke_le :
    (family_id now : ℕ) (reason : RevokeReason) (r : RefreshToken → Bool) (ts : List RefreshToken)
    → live family_id (update_where r (revoked now reason) ts) ≤ live family_id ts
live-revoke_le family_id now reason r ts =
    count_where-update_le (is_live_in family_id) r (revoked now reason) ts
      (λ t e. absurd (ground (arith, e)))

pub end_session-tokens :
    (settings : AuthSettings) (ext : Externals) (family_id : ℕ) (reason : RevokeReason) (now : ℕ)
    (entry : AuditEntry) (w : AuthWorld)
    → (end_session ext settings family_id reason now entry w).tokens
      ≡ update_where (is_live_in family_id) (revoked now reason) w.tokens
unfolding end_session revoke_family
end_session-tokens settings ext family_id reason now entry w =
    deny_access_tokens-tokens settings (family_id ∷ []) now
      (record_audit entry (revoke_family family_id reason now w))

live_one : (family_id : ℕ) (row : RefreshToken) → live family_id (row ∷ []) ≤ 1
live_one family_id row = ground arith

live_other :
    (family_id : ℕ) (row : RefreshToken)
    → (row.family_id == family_id) ≡ false
    → live family_id (row ∷ []) ≡ 0
live_other family_id row other = ground arith

pub live-append_fresh :
    (f : ℕ) (row : RefreshToken) (ts : List RefreshToken)
    → live row.family_id ts ≡ 0
    → live f ts ≤ 1
    → live f (ts ++ row ∷ []) ≤ 1
live-append_fresh f row ts unused single =
    let both = count_where-append (is_live_in f) ts (row ∷ []) in
    elim (Bool-cases (row.family_id == f)) [
      | inl same ↦
          let none_yet : live f ts ≡ 0 = rw ((==_iff row.family_id f).0 same) at unused in
          omega (arith, both, none_yet, live_one f row)
      | inr other ↦ omega (arith, both, single, live_other f row other)
    ]

-- The old token goes when the new one comes.
pub live-replaced :
    (f now successor : ℕ) (p : RefreshToken → Bool) (token row : RefreshToken)
    (ts : List RefreshToken)
    → first_of? p ts ≡ some token
    → token.revoked_at ≡ none
    → row.family_id ≡ token.family_id
    → live f ts ≤ 1
    → live f (update_where (is_token token.id) (replaced now successor) (ts ++ row ∷ [])) ≤ 1
live-replaced f now successor p token row ts found alive same single =
    let change = replaced now successor in
    let is_old = is_token token.id in
    let off : (t : RefreshToken) → is_live_in f (change t) ≡ true → is_live_in f t ≡ true =
      λ t e. absurd (ground (arith, e)) in
    let both =
      count_where-append (is_live_in f) (update_where is_old change ts)
        (update_where is_old change (row ∷ [])) in
    let late = count_where-update_le (is_live_in f) is_old change (row ∷ []) off in
    rw (update_where-append is_old change ts (row ∷ []), both)
      (elim (Bool-cases (row.family_id == f)) [
        | inl here ↦
            let its : is_live_in f token ≡ true = rw (← same, here, alive) refl in
            let less =
              count_where-update_found p (is_live_in f) is_old change ts token found its
                (ground arith) (λ t. ground arith) in
            omega (arith, less, single, late, live_one f row)
        | inr there ↦
            let before = count_where-update_le (is_live_in f) is_old change ts off in
            omega (arith, before, single, late, live_other f row there)
      ])
