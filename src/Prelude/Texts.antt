-- ===== src/Prelude/Texts.antt =====
-- Python's `str` and `bytes` as lists of code points and of bytes.
use Prim.Native.Char.{code}
use Prim.Native.String.{String}
use mathlib.Core.Path.{◌≡◌, refl}
use mathlib.Core.Logic.{◌↔◌}
use mathlib.Core.Bool.{Bool, true, false, ◌&&◌, ◌||◌}
use mathlib.Core.List.{List, [], ◌∷◌}
use Prim.Native.Nat.{ℕ}
use native.Mathlib.Omega.{arith}
use sahucodex.Prelude.Tests.{◌==◌, ltb, if◌then◌else◌}
use sahucodex.Prelude.Lists.{any_of}
use sahucodex.Prelude.Sorting.{sorted_by}

abbrev pub Text : Type 0
Text = List ℕ

-- The code points of a literal.
abbrev pub codes : String → Text
codes String.[] = []
codes (String.◌∷◌ c s) = code c ∷ codes s

-- `a == b` on texts.
abbrev pub eq_text : Text → Text → Bool
eq_text [] [] = true
eq_text [] (b ∷ t) = false
eq_text (a ∷ s) [] = false
eq_text (a ∷ s) (b ∷ t) = a == b && eq_text s t

pub eq_text_refl : (s : Text) → eq_text s s ≡ true
eq_text_refl [] = refl
eq_text_refl (a ∷ s) = ground (arith, eq_text_refl s)

-- Python's `a <= b` on texts: by code points, from the first on.
abbrev pub text_before : Text → Text → Bool
text_before [] t = true
text_before (a ∷ s) [] = false
text_before (a ∷ s) (b ∷ t) = let rest = text_before s t in ltb a b || a == b && rest

-- Each text once.
abbrev pub unique_texts : List Text → List Text
unique_texts [] = []
unique_texts (s ∷ ts) =
    let rest = unique_texts ts in if any_of (eq_text s) ts then rest else s ∷ rest

-- Python's `sorted(set(texts))`.
unfoldable pub sorted_set : List Text → List Text
unfolding sorted_by
sorted_set texts = sorted_by text_before (unique_texts texts)

pub eq_of_eq_text : (s t : Text) → eq_text s t ≡ true → s ≡ t
eq_of_eq_text [] [] h = refl
eq_of_eq_text [] (b ∷ t) h = cc
eq_of_eq_text (a ∷ s) [] h = cc
eq_of_eq_text (a ∷ s) (b ∷ t) h = ground (arith, eq_of_eq_text s t)

-- `a == b` on lists of texts.
abbrev pub eq_texts : List Text → List Text → Bool
eq_texts [] [] = true
eq_texts [] (b ∷ t) = false
eq_texts (a ∷ s) [] = false
eq_texts (a ∷ s) (b ∷ t) = eq_text a b && eq_texts s t

pub eq_of_eq_texts : (s t : List Text) → eq_texts s t ≡ true → s ≡ t
eq_of_eq_texts [] [] h = refl
eq_of_eq_texts [] (b ∷ t) h = cc
eq_of_eq_texts (a ∷ s) [] h = cc
eq_of_eq_texts (a ∷ s) (b ∷ t) h = ground (arith, eq_of_eq_text a b, eq_of_eq_texts s t)

eq_texts_refl : (s : List Text) → eq_texts s s ≡ true
eq_texts_refl [] = refl
eq_texts_refl (a ∷ s) = ground (arith, eq_text_refl a, eq_texts_refl s)

pub eq_texts_iff : (s t : List Text) → (eq_texts s t ≡ true) ↔ (s ≡ t)
eq_texts_iff s t = (eq_of_eq_texts s t, λ e. rw e (eq_texts_refl t))
