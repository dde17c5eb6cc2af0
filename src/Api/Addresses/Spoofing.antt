-- ===== src/Api/Addresses/Spoofing.antt =====
-- What a client puts into its own header (apps/api/app/core/net.py) does not change its address.
use sahucodex.Prelude.{
  ℕ, suc, ◌+◌, ◌-◌, ◌≤◌, ◌≡◌, refl, ap, ◌∙◌, inl, inr, true, List, [], ◌∷◌, ◌++◌, map, Option, leb,
  ◌==◌, ==_iff, arith, Bool-cases, keep_if, length, length-append, get_elem?,
}
use sahucodex.Prelude.Texts.{Text, codes}
use sahucodex.Strings.{strip, split_at, cons_head}
use sahucodex.Api.Addresses.{
  is_text, hops_of, or_peer, or_unknown, hop_from_right, client_ip_from_scope,
}

split_at_some : (sep : ℕ) (s : Text) → (l : Text) × (ls : List Text) × (split_at sep s ≡ l ∷ ls)
unfolding split_at cons_head
split_at_some sep [] = ([], [], refl)
split_at_some sep (c ∷ s) =
    let (l, ls, e) = split_at_some sep s in
    elim (Bool-cases (c == sep)) [
      | inl cut ↦ ([], split_at sep s, rw cut refl)
      | inr keep ↦ (c ∷ l, ls, rw keep (rw e refl))
    ]

split_at-append :
    (sep : ℕ) (a b : Text) → split_at sep (a ++ sep ∷ b) ≡ split_at sep a ++ split_at sep b
unfolding split_at cons_head
split_at-append sep [] b = rw (((==_iff sep sep).1) refl) refl
split_at-append sep (c ∷ a) b =
    let later = split_at-append sep a b in
    let (l, ls, e) = split_at_some sep a in
    elim (Bool-cases (c == sep)) [
      | inl cut ↦ rw cut (ap (◌∷◌ []) later)
      | inr keep ↦ rw keep (rw later (rw e refl))
    ]

keep_stripped-append :
    (xs ys : List Text)
    → keep_if is_text (map strip (xs ++ ys))
      ≡ keep_if is_text (map strip xs) ++ keep_if is_text (map strip ys)
keep_stripped-append [] ys = refl
keep_stripped-append (x ∷ xs) ys = ground (arith, keep_stripped-append xs ys)

hops_of-append : (a b : Text) → hops_of (a ++ 44 ∷ b) ≡ hops_of a ++ hops_of b
unfolding hops_of
hops_of-append a b =
    ap (λ parts. keep_if is_text (map strip parts)) (split_at-append 44 a b)
    ∙ keep_stripped-append (split_at 44 a) (split_at 44 b)

get_elem?-append :
    (xs ys : List Text) (i : ℕ) → get_elem? (xs ++ ys) (length xs + i) ≡ get_elem? ys i
get_elem?-append [] ys i = ap (get_elem? ys) (omega arith)
get_elem?-append (x ∷ xs) ys i =
    let next : suc (length xs) + i ≡ suc (length xs + i) = omega arith in
    ap (get_elem? (x ∷ xs ++ ys)) next ∙ get_elem?-append xs ys i

hop_from_right-append :
    (count : ℕ) (xs ys : List Text) (peer : Text)
    → count ≤ length ys
    → hop_from_right count (xs ++ ys) peer ≡ hop_from_right count ys peer
hop_from_right-append count xs ys peer h =
    let long : leb count (length (xs ++ ys)) ≡ true = ground (arith, length-append xs ys, h) in
    let enough : leb count (length ys) ≡ true = ground (arith, h) in
    let place : length (xs ++ ys) - count ≡ length xs + (length ys - count) =
      omega (arith, length-append xs ys) in
    rw (long, enough)
      (ap (λ o. or_peer o peer)
        (ap (get_elem? (xs ++ ys)) place ∙ get_elem?-append xs ys (length ys - count)))

-- Where the trusted proxies have appended as many hops as there are of them, whatever the client
-- wrote before them, commas included, leaves the address as it is.
pub client_ip_from_scope_unforgeable :
    (client : Option Text) (forged appended : Text) (headers : List (Text × Text)) (count : ℕ)
    → count ≤ length (hops_of appended)
    → client_ip_from_scope client
        ((codes "x-forwarded-for", forged ++ 44 ∷ appended) ∷ headers)
        count
      ≡ client_ip_from_scope client ((codes "x-forwarded-for", appended) ∷ headers) count
unfolding client_ip_from_scope
client_ip_from_scope_unforgeable client forged appended headers count h =
    elim (Bool-cases (count == 0)) [
      | inl unproxied ↦ rw unproxied refl
      | inr proxied ↦ rw proxied (
          ap (λ hops. hop_from_right count hops (or_unknown client))
            (hops_of-append forged appended)
          ∙ hop_from_right-append count (hops_of forged) (hops_of appended) (or_unknown client) h)
    ]
