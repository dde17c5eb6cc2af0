-- ===== src/Api/Problems/Starters.antt =====
-- Starter codes that are sent as they are (apps/api/app/modules/problems/admin_service.py).
use sahucodex.Prelude.{
  ◌≡◌, refl, ap, ap₂, ◌∙◌, Bool, true, not, List, [], ◌∷◌, ◌++◌, map, some, arith, AreApart,
  found_apart, keep_if, any_of, first_of?, All, append-nil,
}
use sahucodex.Prelude.Texts.{Text, eq_text, eq_text_refl}
use sahucodex.Api.Problems.{ProblemStarterCode}
use sahucodex.Api.Problems.Issues.{eq_text_sym}
use sahucodex.Api.Problems.Saving.{starters_of, with_code, is_starter}

abbrev pub same_language : ProblemStarterCode → ProblemStarterCode → Bool
same_language item other = eq_text other.language_key item.language_key

abbrev pub AreKnown : List Text → List ProblemStarterCode → Type 0
AreKnown enabled items = All (λ item. any_of (eq_text item.language_key) enabled ≡ true) items

any_of-found :
    (item : ProblemStarterCode) (all : List ProblemStarterCode)
    → first_of? (same_language item) all ≡ some item
    → any_of (same_language item) all ≡ true
any_of-found item [] h = absurd (ground (arith, h))
any_of-found item (other ∷ all) h = ground (arith, any_of-found item all, h)

starters_kept :
    (all items : List ProblemStarterCode)
    → All (λ item. first_of? (same_language item) all ≡ some item) items
    → (map (with_code all) (keep_if (λ item. any_of (is_starter item.language_key) all) items)
        ≡ items)
      × (keep_if (λ item. not (any_of (is_starter item.language_key) all)) items ≡ [])
starters_kept all [] h = (refl, refl)
starters_kept all (item ∷ items) h =
    let (kept, dropped) = starters_kept all items h.1 in
    let there = any_of-found item all h.0 in
    (rw there (rw (h.0, with_code) (ap (◌∷◌ item) kept)), rw there dropped)

pub starters_of_self :
    (items : List ProblemStarterCode)
    → AreApart same_language items
    → starters_of items items ≡ items
unfolding starters_of
starters_of_self items apart =
    let found =
      found_apart same_language (λ item. eq_text_refl item.language_key)
        (λ item other. eq_text_sym other.language_key item.language_key) items apart in
    let (kept, dropped) = starters_kept items items found in
    ap₂ (λ xs ys. xs ++ ys) kept dropped ∙ append-nil items

pub known_none :
    (enabled : List Text) (items : List ProblemStarterCode)
    → AreKnown enabled items
    → keep_if
        (λ key. not (any_of (eq_text key) enabled))
        (map (λ (item : ProblemStarterCode). item.language_key) items)
      ≡ []
known_none enabled [] h = refl
known_none enabled (item ∷ items) h = rw h.0 (known_none enabled items h.1)
