-- ===== src/Json/Spelling.antt =====
-- Tokens written one after the other, as `json.dumps` does with no spaces, are found again.
use sahucodex.Prelude.{
  ℕ, ◌<◌, ◌≡◌, ◌≢◌, ◌==◌, ◌&&◌, not, ltb, refl, ap, ◌∙◌, Bool, true, false, List, [], ◌∷◌, ◌++◌,
  append_assoc, append-nil, arith, All, All-append,
}
use sahucodex.Prelude.Texts.{Text}
use sahucodex.Json.{
  Mark, open_brace, close_brace, open_bracket, close_bracket, colon, comma, Token, mark, quoted,
  word, bad, kind_of, letter, quoted_kind, plain, outside, in_word, in_quotes, tokens, is_digit,
}
use sahucodex.Json.Numbers.{AreDigits}

abbrev pub mark_char : Mark → ℕ
mark_char open_brace = 123
mark_char close_brace = 125
mark_char open_bracket = 91
mark_char close_bracket = 93
mark_char colon = 58
mark_char comma = 44

-- Strings are written as they are, so they are meant to have no character that needs an escape.
abbrev pub spell : List Token → Text
spell [] = []
spell (mark m ∷ ts) = mark_char m ∷ spell ts
spell (quoted s ∷ ts) = 34 ∷ (s ++ 34 ∷ spell ts)
spell (word w ∷ ts) = w ++ spell ts
spell (bad ∷ ts) = spell ts

abbrev pub AreLetters : Text → Type 0
AreLetters s = All (λ c. kind_of c ≡ letter) s

abbrev pub ArePlain : Text → Type 0
ArePlain s = All (λ c. quoted_kind c ≡ plain) s

-- Every word stands before a mark, and no character would be read as something else.
abbrev pub Apart : List Token → Type 0
Apart [] = Unit
Apart (mark m ∷ ts) = Apart ts
Apart (quoted s ∷ ts) = ArePlain s × Apart ts
Apart (word w ∷ mark m ∷ ts) = (w ≢ []) × AreLetters w × Apart ts
Apart _ = ⊥

tokens-letters :
    (before w s : Text)
    → AreLetters w
    → tokens (in_word before) (w ++ s) ≡ tokens (in_word (before ++ w)) s
unfolding tokens
tokens-letters before [] s h = rw (append-nil before) refl
tokens-letters before (c ∷ w) s (l, h) =
    rw (l, tokens)
      (tokens-letters (before ++ c ∷ []) w s h ∙ rw (append_assoc before (c ∷ []) w) refl)

tokens-plain :
    (before s rest : Text)
    → ArePlain s
    → tokens (in_quotes before) (s ++ 34 ∷ rest) ≡ quoted (before ++ s) ∷ tokens outside rest
unfolding tokens
tokens-plain before [] rest h = rw (append-nil before) refl
tokens-plain before (c ∷ s) rest (l, h) =
    rw (l, tokens)
      (tokens-plain (before ++ c ∷ []) s rest h ∙ rw (append_assoc before (c ∷ []) s) refl)

tokens-mark : (m : Mark) (s : Text) → tokens outside (mark_char m ∷ s) ≡ mark m ∷ tokens outside s
unfolding tokens
tokens-mark open_brace s = refl
tokens-mark close_brace s = refl
tokens-mark open_bracket s = refl
tokens-mark close_bracket s = refl
tokens-mark colon s = refl
tokens-mark comma s = refl

tokens-word_mark :
    (w : Text) (m : Mark) (s : Text)
    → tokens (in_word w) (mark_char m ∷ s) ≡ word w ∷ mark m ∷ tokens outside s
unfolding tokens
tokens-word_mark w open_brace s = refl
tokens-word_mark w close_brace s = refl
tokens-word_mark w open_bracket s = refl
tokens-word_mark w close_bracket s = refl
tokens-word_mark w colon s = refl
tokens-word_mark w comma s = refl

tokens-word :
    (w : Text) (m : Mark) (s : Text)
    → w ≢ []
    → AreLetters w
    → tokens outside (w ++ mark_char m ∷ s) ≡ word w ∷ mark m ∷ tokens outside s
unfolding tokens
tokens-word [] m s some_word h = absurd (some_word refl)
tokens-word (c ∷ w) m s some_word (l, h) =
    rw (l, tokens) (tokens-letters (c ∷ []) w (mark_char m ∷ s) h ∙ tokens-word_mark (c ∷ w) m s)

pub tokens-spell : (ts : List Token) → Apart ts → tokens outside (spell ts) ≡ ts
unfolding tokens
tokens-spell [] h = refl
tokens-spell (mark m ∷ ts) h = tokens-mark m (spell ts) ∙ ap (◌∷◌ (mark m)) (tokens-spell ts h)
tokens-spell (quoted s ∷ ts) (p, h) =
    tokens-plain [] s (spell ts) p ∙ ap (◌∷◌ (quoted s)) (tokens-spell ts h)
tokens-spell (word w ∷ mark m ∷ ts) (some_word, l, h) =
    tokens-word w m (spell ts) some_word l ∙ ap (λ rest. word w ∷ mark m ∷ rest) (tokens-spell ts h)
tokens-spell (word w ∷ []) h = absurd h
tokens-spell (word w ∷ quoted s ∷ ts) h = absurd h
tokens-spell (word w ∷ word s ∷ ts) h = absurd h
tokens-spell (word w ∷ bad ∷ ts) h = absurd h
tokens-spell (bad ∷ ts) h = absurd h

letter_of_digit : (c : ℕ) → is_digit c ≡ true → kind_of c ≡ letter
letter_of_digit c h = ground arith

pub digits-AreLetters : (s : Text) → AreDigits s → AreLetters s
digits-AreLetters [] h = tt
digits-AreLetters (c ∷ s) (d, h) = (letter_of_digit c d, digits-AreLetters s h)

-- A character of a line of ASCII: no line end, and a byte of its own.
abbrev pub IsLineByte : ℕ → Type 0
IsLineByte c = (c < 128) × ((c == 10) ≡ false)

digit-IsLineByte : (c : ℕ) → is_digit c ≡ true → IsLineByte c
digit-IsLineByte c h = (ground (arith, h), ground (arith, h))

pub digits-AreLineBytes : (s : Text) → AreDigits s → All IsLineByte s
digits-AreLineBytes [] h = tt
digits-AreLineBytes (c ∷ s) (d, h) = (digit-IsLineByte c d, digits-AreLineBytes s h)

-- The same of what tokens spell.
abbrev pub AreOfLine : List Token → Type 0
AreOfLine [] = Unit
AreOfLine (mark m ∷ ts) = AreOfLine ts
AreOfLine (quoted s ∷ ts) = All IsLineByte s × AreOfLine ts
AreOfLine (word w ∷ ts) = All IsLineByte w × AreOfLine ts
AreOfLine (bad ∷ ts) = AreOfLine ts

mark-IsLineByte : (m : Mark) → IsLineByte (mark_char m)
mark-IsLineByte open_brace = (omega arith, refl)
mark-IsLineByte close_brace = (omega arith, refl)
mark-IsLineByte open_bracket = (omega arith, refl)
mark-IsLineByte close_bracket = (omega arith, refl)
mark-IsLineByte colon = (omega arith, refl)
mark-IsLineByte comma = (omega arith, refl)

pub spell-AreLineBytes : (ts : List Token) → AreOfLine ts → All IsLineByte (spell ts)
spell-AreLineBytes [] h = tt
spell-AreLineBytes (mark m ∷ ts) h = (mark-IsLineByte m, spell-AreLineBytes ts h)
spell-AreLineBytes (quoted s ∷ ts) (l, h) = (
  (omega arith, refl),
  All-append IsLineByte s (34 ∷ spell ts) l ((omega arith, refl), spell-AreLineBytes ts h),
)
spell-AreLineBytes (word w ∷ ts) (l, h) =
    All-append IsLineByte w (spell ts) l (spell-AreLineBytes ts h)
spell-AreLineBytes (bad ∷ ts) h = spell-AreLineBytes ts h

-- The same as tests, which compute on a text that is known.
abbrev is_plain : ℕ → Bool
is_plain c = elim (quoted_kind c) [ plain ↦ true | _ ↦ false ]

abbrev pub are_plain : Text → Bool
are_plain [] = true
are_plain (c ∷ s) = is_plain c && are_plain s

plain_of : (c : ℕ) → is_plain c ≡ true → quoted_kind c ≡ plain
plain_of c h = ground arith

pub are_plain-ArePlain : (s : Text) → are_plain s ≡ true → ArePlain s
are_plain-ArePlain [] h = tt
are_plain-ArePlain (c ∷ s) h =
    (plain_of c (ground (arith, h)), are_plain-ArePlain s (ground (arith, h)))

abbrev is_letter : ℕ → Bool
is_letter c = elim (kind_of c) [ letter ↦ true | _ ↦ false ]

abbrev pub are_letters : Text → Bool
are_letters [] = true
are_letters (c ∷ s) = is_letter c && are_letters s

letter_of : (c : ℕ) → is_letter c ≡ true → kind_of c ≡ letter
letter_of c h = ground arith

pub are_letters-AreLetters : (s : Text) → are_letters s ≡ true → AreLetters s
are_letters-AreLetters [] h = tt
are_letters-AreLetters (c ∷ s) h =
    (letter_of c (ground (arith, h)), are_letters-AreLetters s (ground (arith, h)))

abbrev pub are_line_bytes : Text → Bool
are_line_bytes [] = true
are_line_bytes (c ∷ s) = ltb c 128 && not (c == 10) && are_line_bytes s

pub are_line_bytes-AreLineBytes : (s : Text) → are_line_bytes s ≡ true → All IsLineByte s
are_line_bytes-AreLineBytes [] h = tt
are_line_bytes-AreLineBytes (c ∷ s) h =
    ((ground (arith, h), ground (arith, h)), are_line_bytes-AreLineBytes s (ground (arith, h)))
