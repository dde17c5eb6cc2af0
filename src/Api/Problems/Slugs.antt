-- ===== src/Api/Problems/Slugs.antt =====
-- `slugify` of apps/api/app/modules/problems/admin_service.py and SLUG_PATTERN of
-- apps/api/app/modules/problems/schemas.py. `lower` is Python's str.lower.
use sahucodex.Prelude.{
  ℕ, ◌≡◌, refl, sym, ap, ap₂, ◌∙◌, ◌⊎◌, inl, inr, Bool, true, false, ◌&&◌, ◌||◌, not, [], ◌∷◌, leb,
  ◌==◌, arith, if◌then◌else◌, Bool-cases,
}
use sahucodex.Prelude.Texts.{Text}
use sahucodex.Strings.{trim_end, cons_unless}

-- `[a-z0-9]`
abbrev pub is_slug_char : ℕ → Bool
is_slug_char c = leb b'a' c && leb c b'z' || leb b'0' c && leb c b'9'

-- `re.sub(r"[^a-z0-9]+", "-", s)`; `inside` says that the characters before were replaced as well.
unfoldable pub dashed : Bool → Text → Text
dashed inside [] = []
dashed inside (c ∷ s) =
    let rest = dashed true s in
    let kept = c ∷ dashed false s in
    if is_slug_char c then kept else if inside then rest else b'-' ∷ rest

abbrev pub is_dash : ℕ → Bool
is_dash c = c == b'-'

-- `s.strip("-")`, its left end first.
unfoldable pub without_dashes : Text → Text
without_dashes [] = []
without_dashes (c ∷ s) = let rest = without_dashes s in if is_dash c then rest else c ∷ s

unfoldable pub slugify : (Text → Text) → Text → Text
unfolding dashed without_dashes trim_end
slugify lower name = trim_end is_dash (without_dashes (dashed false (lower name)))

-- `^[a-z0-9]+(?:-[a-z0-9]+)*$` as an automaton: `dash` says that a dash may follow.
unfoldable pub matches_from : Bool → Text → Bool
matches_from dash [] = dash
matches_from dash (c ∷ s) =
    let rest = matches_from false s in
    let more = matches_from true s in if is_slug_char c then more else is_dash c && dash && rest

unfoldable pub matches_slug : Text → Bool
unfolding matches_from
matches_slug = matches_from false

-- Slug characters and dashes, no two dashes in a row; `after` says that a dash stands before.
abbrev spaced : Bool → Text → Bool
spaced after [] = true
spaced after (c ∷ s) =
    let rest = spaced true s in
    let more = spaced false s in if is_slug_char c then more else is_dash c && not after && rest

not_dash : (c : ℕ) → is_slug_char c ≡ true → is_dash c ≡ false
not_dash c h = ground (arith, h)

spaced-dashed : (inside : Bool) (s : Text) → spaced inside (dashed inside s) ≡ true
unfolding dashed
spaced-dashed inside [] = refl
spaced-dashed true (c ∷ s) = elim (Bool-cases (is_slug_char c)) [
  | inl kept ↦ rw kept (rw kept (spaced-dashed false s))
  | inr other ↦ rw other (spaced-dashed true s)
]
spaced-dashed false (c ∷ s) = elim (Bool-cases (is_slug_char c)) [
  | inl kept ↦ rw kept (rw kept (spaced-dashed false s))
  | inr other ↦ rw other (spaced-dashed true s)
]

spaced-without_dashes :
    (after : Bool) (s : Text) → spaced after s ≡ true → spaced true (without_dashes s) ≡ true
unfolding without_dashes
spaced-without_dashes after [] h = refl
spaced-without_dashes after (c ∷ s) h = elim (Bool-cases (is_slug_char c)) [
  | inl kept ↦ rw (not_dash c kept) (rw kept (rw kept at h))
  | inr other ↦ elim (Bool-cases (is_dash c)) [
    | inl dash ↦ rw dash (spaced-without_dashes true s (ground (arith, h, other, dash)))
    | inr neither ↦ absurd (ground (arith, h, other, neither))
  ]
]

kept_at_end : (c : ℕ) (s : Text) → is_slug_char c ≡ true → cons_unless is_dash c s ≡ c ∷ s
unfolding cons_unless
kept_at_end c [] h = rw (not_dash c h) refl
kept_at_end c (d ∷ s) h = refl

dash_before :
    (c : ℕ) (s : Text)
    → is_slug_char c ≡ false
    → is_dash c ≡ true
    → matches_from false s ≡ true
    → matches_from true (cons_unless is_dash c s) ≡ true
unfolding matches_from cons_unless
dash_before c [] other dash h = absurd (ground (arith, h))
dash_before c (d ∷ s) other dash h = rw other (rw dash h)

-- What is left when the dashes at the end are taken off, after a slug character and after a dash.
matches-trim_end :
    (s : Text)
    → (spaced false s ≡ true → matches_from true (trim_end is_dash s) ≡ true)
      × (spaced true s ≡ true
          → (trim_end is_dash s ≡ []) ⊎ (matches_from false (trim_end is_dash s) ≡ true))
unfolding matches_from trim_end cons_unless
matches-trim_end [] = (λ h. refl, λ h. inl refl)
matches-trim_end (c ∷ s) =
    let (after_char, after_dash) = matches-trim_end s in
    elim (Bool-cases (is_slug_char c)) [
      | inl kept ↦
          let plain = kept_at_end c (trim_end is_dash s) kept in
          (
            λ h. rw plain (rw kept (after_char (rw kept at h))),
            λ h. inr (rw plain (rw kept (after_char (rw kept at h)))),
          )
      | inr other ↦ (
        λ h.
            let dash : is_dash c ≡ true = ground (arith, h, other) in
            elim (after_dash (ground (arith, h, other))) [
              | inl none_left ↦ rw none_left (rw dash refl)
              | inr some_left ↦ dash_before c (trim_end is_dash s) other dash some_left
            ],
        λ h. absurd (ground (arith, h, other)),
      )
    ]

slugify_matches :
    (lower : Text → Text) (name : Text)
    → (slugify lower name ≡ []) ⊎ (matches_slug (slugify lower name) ≡ true)
unfolding slugify matches_slug
slugify_matches lower name =
    let line = dashed false (lower name) in
    (matches-trim_end (without_dashes line)).1
      (spaced-without_dashes false line (spaced-dashed false (lower name)))

dashed-matches :
    (s : Text)
    → (matches_from true s ≡ true → dashed false s ≡ s)
      × ((inside : Bool) → matches_from false s ≡ true → dashed inside s ≡ s)
unfolding dashed matches_from
dashed-matches [] = (λ h. refl, λ inside h. refl)
dashed-matches (c ∷ s) =
    let (after_char, after_dash) = dashed-matches s in
    elim (Bool-cases (is_slug_char c)) [
      | inl kept ↦ (
        λ h. rw kept (ap (◌∷◌ c) (after_char (rw kept at h))),
        λ inside h. rw kept (ap (◌∷◌ c) (after_char (rw kept at h))),
      )
      | inr other ↦ (
        λ h.
            let dash : b'-' ≡ c = ground (arith, h, other) in
            rw other (ap₂ (◌∷◌) dash (after_dash true (ground (arith, h, other)))),
        λ inside h. absurd (ground (arith, h, other)),
      )
    ]

without_dashes-matches : (s : Text) → matches_from false s ≡ true → without_dashes s ≡ s
unfolding without_dashes matches_from
without_dashes-matches [] h = refl
without_dashes-matches (c ∷ s) h =
    let kept : is_slug_char c ≡ true = ground (arith, h) in rw (not_dash c kept) refl

dash_kept : (c : ℕ) (s : Text) → matches_from false s ≡ true → cons_unless is_dash c s ≡ c ∷ s
unfolding cons_unless matches_from
dash_kept c [] h = absurd (ground (arith, h))
dash_kept c (d ∷ s) h = refl

trim_end-matches : (dash : Bool) (s : Text) → matches_from dash s ≡ true → trim_end is_dash s ≡ s
unfolding trim_end cons_unless matches_from
trim_end-matches dash [] h = refl
trim_end-matches dash (c ∷ s) h = elim (Bool-cases (is_slug_char c)) [
  | inl kept ↦ rw (trim_end-matches true s (rw kept at h)) (kept_at_end c s kept)
  | inr other ↦
      let later : matches_from false s ≡ true = ground (arith, h, other) in
      rw (trim_end-matches false s later) (dash_kept c s later)
]

slugify_matching :
    (lower : Text → Text) (name : Text)
    → lower name ≡ name
    → matches_slug name ≡ true
    → slugify lower name ≡ name
unfolding slugify matches_slug
slugify_matching lower name same h = rw same (
    rw ((dashed-matches name).1 false h)
      (rw (without_dashes-matches name h) (trim_end-matches false name h)))

slugify_nothing : (lower : Text → Text) → lower [] ≡ [] → slugify lower [] ≡ []
unfolding slugify
slugify_nothing lower nothing = rw nothing refl

-- Where `str.lower` leaves what matches SLUG_PATTERN and the empty text alone, a slug is empty or
-- matches SLUG_PATTERN, and is its own slug.
pub slugify_lem :
    (lower : Text → Text) (name : Text)
    → lower [] ≡ []
    → ((s : Text) → matches_slug s ≡ true → lower s ≡ s)
    → ((slugify lower name ≡ []) ⊎ (matches_slug (slugify lower name) ≡ true))
      × (slugify lower (slugify lower name) ≡ slugify lower name)
slugify_lem lower name nothing keeps =
    let slug = slugify lower name in
    let empty : slugify lower [] ≡ [] = slugify_nothing lower nothing in
    elim (slugify_matches lower name) [
      | inl none_left ↦ (inl none_left, ap (slugify lower) none_left ∙ empty ∙ sym none_left)
      | inr matched ↦ (inr matched, slugify_matching lower slug (keeps slug matched) matched)
    ]
