-- ===== src/Strings.antt =====
-- The methods of Python's `str` that the judge calls, over code points.
pub mod Tokens
pub mod Lines
use mathlib.Core.List.{reverse}
use sahucodex.Prelude.{
  ℕ, ◌+◌, Bool, true, false, ◌&&◌, ◌||◌, List, [], ◌∷◌, ◌++◌, leb, ◌==◌, if◌then◌else◌,
}
use sahucodex.Prelude.Texts.{Text}

-- `str.isspace` of one code point.
unfoldable pub is_space : ℕ → Bool
is_space c =
    leb 9 c && leb c 13
    || leb 28 c && leb c 32
    || c == 133
    || c == 160
    || c == 5760
    || leb 8192 c && leb c 8202
    || c == 8232
    || c == 8233
    || c == 8239
    || c == 8287
    || c == 12288

-- What is left of a list when the elements at its end that pass the test are taken off.
module _ {ℓ} {A : Type ℓ} where
  unfoldable pub cons_unless : (A → Bool) → A → List A → List A
  cons_unless drops x [] = if drops x then [] else x ∷ []
  cons_unless drops x (y ∷ ys) = x ∷ y ∷ ys

  unfoldable pub trim_end : (A → Bool) → List A → List A
  unfolding cons_unless
  trim_end drops [] = []
  trim_end drops (x ∷ xs) = cons_unless drops x (trim_end drops xs)

-- `s.rstrip()`
unfoldable pub rstrip : Text → Text
unfolding trim_end is_space
rstrip = trim_end is_space

-- `s.lstrip()`
unfoldable pub lstrip : Text → Text
unfolding is_space
lstrip [] = []
lstrip (c ∷ s) = let rest = lstrip s in if is_space c then rest else c ∷ s

-- `s.strip()`
unfoldable pub strip : Text → Text
unfolding rstrip lstrip
strip s = rstrip (lstrip s)

-- `s.split()`: `word` is the token that is being read.
unfoldable pub flush : Text → List Text
flush [] = []
flush (c ∷ word) = (c ∷ word) ∷ []

unfoldable pub split_words : Text → Text → List Text
unfolding flush is_space
split_words word [] = flush word
split_words word (c ∷ s) =
    let apart = flush word ++ split_words [] s in
    let longer = split_words (word ++ c ∷ []) s in if is_space c then apart else longer

unfoldable pub split : Text → List Text
unfolding split_words
split = split_words []

-- `s.split(sep)` for a separator of one character.
unfoldable pub cons_head : ℕ → List Text → List Text
cons_head c [] = (c ∷ []) ∷ []
cons_head c (l ∷ ls) = (c ∷ l) ∷ ls

unfoldable pub split_at : ℕ → Text → List Text
unfolding cons_head
split_at sep [] = [] ∷ []
split_at sep (c ∷ s) = let rest = split_at sep s in if c == sep then [] ∷ rest else cons_head c rest

-- `s.replace("\r\n", "\n")`
unfoldable pub replace_crlf : Text → Text
replace_crlf [] = []
replace_crlf (a ∷ []) = a ∷ []
replace_crlf (a ∷ b ∷ s) =
    let joined = 10 ∷ replace_crlf s in
    let kept = a ∷ replace_crlf (b ∷ s) in if a == 13 && b == 10 then joined else kept

-- `s.replace("\r", "\n")`
unfoldable pub replace_cr : Text → Text
replace_cr [] = []
replace_cr (c ∷ s) = (if c == 13 then 10 else c) ∷ replace_cr s

-- A Python list with its last element first: `while lines and not lines[-1]: lines.pop()`.
unfoldable pub pop_blank : List Text → List Text
pop_blank [] = []
pop_blank ([] ∷ ls) = pop_blank ls
pop_blank ((c ∷ l) ∷ ls) = (c ∷ l) ∷ ls

unfoldable pub is_blank : Text → Bool
is_blank [] = true
is_blank (c ∷ l) = false
