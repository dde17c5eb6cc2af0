-- ===== src/Api/Problems/Issues.antt =====
-- When the checks of validate_problem find nothing
-- (apps/api/app/modules/problems/admin_service.py).
use sahucodex.Prelude.{
  ℕ, ◌+◌, ◌≡◌, ◌↔◌, refl, inl, inr, Bool, true, false, not, List, [], ◌∷◌, ◌++◌, arith, Bool-cases,
  any_of, All, map, List-cases,
}
use sahucodex.Prelude.Texts.{Text, eq_text}
use sahucodex.Strings.{is_space, strip, rstrip, lstrip, trim_end, cons_unless}
use sahucodex.Api.Tables.{ProblemTestCase}
use sahucodex.Api.Problems.{
  ProblemStarterCode, ValidationIssue, is_empty, add_if, case_issues, starter_issues, empty_output,
  duplicate_test, unknown_language, empty_starter,
}

-- Some character is not white space.
abbrev pub HasInk : Text → Type 0
HasInk text = any_of (λ c. not (is_space c)) text ≡ true

-- No two of the texts are the same.
abbrev pub AreDistinct : List Text → Type 0
AreDistinct [] = Unit
AreDistinct (t ∷ ts) = (any_of (eq_text t) ts ≡ false) × AreDistinct ts

ink-lstrip :
    (text : Text)
    → any_of (λ c. not (is_space c)) (lstrip text) ≡ any_of (λ c. not (is_space c)) text
unfolding lstrip
ink-lstrip [] = refl
ink-lstrip (c ∷ text) = elim (Bool-cases (is_space c)) [
  | inl space ↦ rw space (ink-lstrip text)
  | inr ink ↦ rw ink (rw ink refl)
]

is_empty-trim_end :
    (drops : ℕ → Bool) (text : Text)
    → is_empty (trim_end drops text) ≡ not (any_of (λ c. not (drops c)) text)
unfolding trim_end cons_unless
is_empty-trim_end drops [] = refl
is_empty-trim_end drops (c ∷ text) = elim (List-cases (trim_end drops text)) [
  | inl none_left ↦ ground (arith, is_empty-trim_end drops text, none_left)
  | inr (d, rest, some_left) ↦ ground (arith, is_empty-trim_end drops text, some_left)
]

is_empty-rstrip : (text : Text) → is_empty (rstrip text) ≡ not (any_of (λ c. not (is_space c)) text)
unfolding rstrip
is_empty-rstrip text = is_empty-trim_end is_space text

pub is_empty-strip : (text : Text) → (is_empty (strip text) ≡ false) ↔ HasInk text
unfolding strip
is_empty-strip text =
    let inside = is_empty-rstrip (lstrip text) in
    let same = ink-lstrip text in
    (λ h. ground (arith, inside, same, h), λ h. ground (arith, inside, same, h))

pub add_if_none :
    (test : Bool) (issue : ValidationIssue) (rest : List ValidationIssue)
    → (add_if test issue ++ rest ≡ []) ↔ ((test ≡ false) × (rest ≡ []))
add_if_none true issue rest = (λ h. absurd (ground (arith, h)), λ h. absurd (ground (arith, h)))
add_if_none false issue rest = (λ h. (refl, h), λ h. h.1)

pub eq_text_sym : (s t : Text) → eq_text s t ≡ eq_text t s
eq_text_sym [] [] = refl
eq_text_sym [] (d ∷ t) = refl
eq_text_sym (c ∷ s) [] = refl
eq_text_sym (c ∷ s) (d ∷ t) = ground (arith, eq_text_sym s t)

-- The input of a test case, as repetitions are looked for.
abbrev pub key_of : ProblemTestCase → Text
key_of row = rstrip row.input_data

abbrev AreUnseen : List Text → List ProblemTestCase → Type 0
AreUnseen seen rows = All (λ row. any_of (eq_text (key_of row)) seen ≡ false) rows

unseen_one_more :
    (key : Text) (seen : List Text) (rows : List ProblemTestCase)
    → AreUnseen (key ∷ seen) rows
      ↔ ((any_of (eq_text key) (map key_of rows) ≡ false) × AreUnseen seen rows)
unseen_one_more key seen [] = (λ h. (refl, tt), λ h. tt)
unseen_one_more key seen (row ∷ rows) =
    let later = unseen_one_more key seen rows in
    let turned = eq_text_sym key (key_of row) in
    (
      λ h.
          let rest = later.0 h.1 in
          (ground (arith, h.0, rest.0, turned), (ground (arith, h.0), rest.1)),
      λ h. (ground (arith, h.0, h.1.0, turned), later.1 (ground (arith, h.0), h.1.1)),
    )

pub unseen_nothing : (rows : List ProblemTestCase) → AreUnseen [] rows
unseen_nothing [] = tt
unseen_nothing (row ∷ rows) = (refl, unseen_nothing rows)

pub case_issues_none :
    (index : ℕ) (seen : List Text) (rows : List ProblemTestCase)
    → (case_issues index seen rows ≡ []) ↔ (
        All (λ row. HasInk row.expected_output) rows
        × AreDistinct (map key_of rows)
        × AreUnseen seen rows)
unfolding case_issues
case_issues_none index seen [] = (λ h. (tt, tt, tt), λ h. refl)
case_issues_none index seen (row ∷ rows) =
    let key = key_of row in
    let blank = is_empty (strip row.expected_output) in
    let repeated = any_of (eq_text key) seen in
    let later = case_issues_none (index + 1) (key ∷ seen) rows in
    let outer =
      add_if_none blank (empty_output index)
        (add_if repeated (duplicate_test index) ++ case_issues (index + 1) (key ∷ seen) rows) in
    let inner =
      add_if_none repeated (duplicate_test index) (case_issues (index + 1) (key ∷ seen) rows) in
    let ink = is_empty-strip row.expected_output in
    let more = unseen_one_more key seen rows in
    (
      λ h.
          let (filled, rest) = outer.0 h in
          let (new, others) = inner.0 rest in
          let (inks, distinct, unseen) = later.0 others in
          let (apart, still) = more.0 unseen in
          ((ink.0 filled, inks), (apart, distinct), (new, still)),
      λ h. outer.1 (ink.1 h.0.0, inner.1 (h.2.0, later.1 (h.0.1, h.1.1, more.1 (h.1.0, h.2.1)))),
    )

abbrev pub IsFilled : List Text → ProblemStarterCode → Type 0
IsFilled enabled item = (any_of (eq_text item.language_key) enabled ≡ true) × HasInk item.code

pub starter_issues_none :
    (enabled : List Text) (items : List ProblemStarterCode)
    → (starter_issues enabled items ≡ []) ↔ All (IsFilled enabled) items
unfolding starter_issues
starter_issues_none enabled [] = (λ h. tt, λ h. refl)
starter_issues_none enabled (item ∷ items) =
    let known = any_of (eq_text item.language_key) enabled in
    let later = starter_issues_none enabled items in
    let outer = add_if_none (not known) (unknown_language item.language_key) (
      add_if (is_empty (strip item.code)) (empty_starter item.language_key)
      ++ starter_issues enabled items) in
    let inner =
      add_if_none (is_empty (strip item.code)) (empty_starter item.language_key)
        (starter_issues enabled items) in
    let ink = is_empty-strip item.code in
    (
      λ h.
          let (known_one, rest) = outer.0 h in
          let (filled, others) = inner.0 rest in
          ((ground (arith, known_one), ink.0 filled), later.0 others),
      λ h. outer.1 (ground (arith, h.0.0), inner.1 (ink.1 h.0.1, later.1 h.1)),
    )
