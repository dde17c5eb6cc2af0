-- ===== src/Strings/Tokens.antt =====
-- Laws of `str.split()`: what stands between the tokens does not matter.
pub mod Blank
use sahucodex.Prelude.{
  ℕ, ◌≡◌, refl, sym, ◌∙◌, true, false, ◌&&◌, List, [], ◌∷◌, ◌++◌, arith, append-nil, append_assoc,
  Bool-cases, ==_iff, inl, inr, ◌==◌,
}
use sahucodex.Prelude.Texts.{Text}
use sahucodex.Strings.{
  is_space, cons_unless, rstrip, flush, split_words, split, cons_head, split_at, replace_crlf,
  replace_cr,
}

pub split_words-space :
    (word : Text) (c : ℕ) (s : Text)
    → is_space c ≡ true
    → split_words word (c ∷ s) ≡ flush word ++ split_words [] s
unfolding split_words
split_words-space word c s e = rw e

pub split_words-letter :
    (word : Text) (c : ℕ) (s : Text)
    → is_space c ≡ false
    → split_words word (c ∷ s) ≡ split_words (word ++ c ∷ []) s
unfolding split_words
split_words-letter word c s e = rw e

split_words-nil : (word : Text) → split_words word [] ≡ flush word
unfolding split_words
split_words-nil word = refl

flush-nil : flush [] ≡ []
unfolding flush
flush-nil = refl

-- One more character in front of two texts with the same tokens.
same_words-cons :
    (c : ℕ) (r s : Text)
    → ((w : Text) → split_words w r ≡ split_words w s)
    → (word : Text) → split_words word (c ∷ r) ≡ split_words word (c ∷ s)
same_words-cons c r s h word = elim (Bool-cases (is_space c)) [
  | inl space ↦ simp (split_words-space word c, space, h [])
  | inr letter ↦ simp (split_words-letter word c, letter, h (word ++ c ∷ []))
]

same_words-cons_unless :
    (c : ℕ) (r s : Text)
    → ((w : Text) → split_words w r ≡ split_words w s)
    → (word : Text) → split_words word (cons_unless is_space c r) ≡ split_words word (c ∷ s)
unfolding cons_unless
same_words-cons_unless c (y ∷ ys) s h word = same_words-cons c (y ∷ ys) s h word
same_words-cons_unless c [] s h word = elim (Bool-cases (is_space c)) [
  | inl space ↦ rw (
    space,
    split_words-space word c s space,
    ← h [],
    split_words-nil,
    split_words-nil,
    flush-nil,
    append-nil,
  )
  | inr letter ↦ rw letter (same_words-cons c [] s h word)
]

-- Whitespace at the end of a text holds no token.
pub split_words-rstrip : (s word : Text) → split_words word (rstrip s) ≡ split_words word s
unfolding rstrip
split_words-rstrip [] word = refl
split_words-rstrip (c ∷ s) word = same_words-cons_unless c (rstrip s) s (split_words-rstrip s) word

-- The tokens of a list of lines, the first of which goes on from `word`.
pub tokens_of : List Text → List Text
tokens_of [] = []
tokens_of (l ∷ ls) = split l ++ tokens_of ls

tokens_from : Text → List Text → List Text
tokens_from word [] = flush word
tokens_from word (l ∷ ls) = split_words word l ++ tokens_of ls

tokens_from-nil : (ls : List Text) → tokens_from [] ls ≡ tokens_of ls
unfolding tokens_from tokens_of split flush
tokens_from-nil [] = refl
tokens_from-nil (l ∷ ls) = refl

tokens_from-cons_head :
    (word : Text) (c : ℕ) (ls : List Text)
    → is_space c ≡ false
    → tokens_from word (cons_head c ls) ≡ tokens_from (word ++ c ∷ []) ls
unfolding tokens_from cons_head tokens_of
tokens_from-cons_head word c [] e = rw (split_words-letter word c [] e, split_words-nil, append-nil)
tokens_from-cons_head word c (l ∷ ls) e = rw (split_words-letter word c l e)

tokens_from-cons_head_space :
    (word : Text) (c : ℕ) (ls : List Text)
    → is_space c ≡ true
    → tokens_from word (cons_head c ls) ≡ flush word ++ tokens_of ls
unfolding tokens_from cons_head tokens_of split
tokens_from-cons_head_space word c [] e =
    rw (split_words-space word c [] e, split_words-nil, flush-nil) (append-nil (flush word ++ []))
tokens_from-cons_head_space word c (l ∷ ls) e = rw (split_words-space word c l e, append_assoc)

split_at-sep :
    (sep c : ℕ) (s : Text) → (c == sep) ≡ true → split_at sep (c ∷ s) ≡ [] ∷ split_at sep s
unfolding split_at
split_at-sep sep c s e = rw e

split_at-letter :
    (sep c : ℕ) (s : Text)
    → (c == sep) ≡ false
    → split_at sep (c ∷ s) ≡ cons_head c (split_at sep s)
unfolding split_at
split_at-letter sep c s e = rw e

split_words-split_at :
    (sep : ℕ) (s word : Text)
    → is_space sep ≡ true
    → split_words word s ≡ tokens_from word (split_at sep s)
unfolding split_at
split_words-split_at sep [] word e =
    sym (append-nil (split_words word [])) ∙ (unfold tokens_from tokens_of in refl)
split_words-split_at sep (c ∷ s) word e = elim (Bool-cases (c == sep)) [
  | inl same ↦
      let c_space : is_space c ≡ true = rw ((==_iff c sep).0 same) e in
      rw
        (
          split_words-space word c s c_space,
          split_words-split_at sep s [] e,
          tokens_from-nil,
          split_at-sep sep c s same,
        )
        (unfold tokens_from in rw split_words-nil)
  | inr other ↦ rw (split_at-letter sep c s other) (elim (Bool-cases (is_space c)) [
    | inl space ↦ rw (
      split_words-space word c s space,
      tokens_from-cons_head_space word c (split_at sep s) space,
      split_words-split_at sep s [] e,
      tokens_from-nil,
    )
    | inr letter ↦
        rw
          (split_words-letter word c s letter, tokens_from-cons_head word c (split_at sep s) letter)
          (split_words-split_at sep s (word ++ c ∷ []) e)
  ])
]

-- A text has the tokens of its lines, where a whitespace character separates the lines.
pub split-split_at :
    (sep : ℕ) (s : Text) → is_space sep ≡ true → split s ≡ tokens_of (split_at sep s)
unfolding split
split-split_at sep s e = split_words-split_at sep s [] e ∙ tokens_from-nil (split_at sep s)

-- One whitespace character in place of another leaves the tokens as they are.
same_words-space :
    (c d : ℕ) (r s : Text)
    → is_space c ≡ true
    → is_space d ≡ true
    → ((w : Text) → split_words w r ≡ split_words w s)
    → (word : Text) → split_words word (c ∷ r) ≡ split_words word (d ∷ s)
same_words-space c d r s ec ed h word =
    rw (split_words-space word c r ec, split_words-space word d s ed, h [])

ten_is_space : is_space 10 ≡ true
unfolding is_space
ten_is_space = refl

return_is_space : is_space 13 ≡ true
unfolding is_space
return_is_space = refl

-- Windows line ends hold no token.
pub split_words-replace_cr : (s word : Text) → split_words word (replace_cr s) ≡ split_words word s
unfolding replace_cr
split_words-replace_cr [] word = refl
split_words-replace_cr (c ∷ s) word = elim (Bool-cases (c == 13)) [
  | inl cr ↦ rw cr (
      same_words-space 10 c (replace_cr s) s ten_is_space (rw ((==_iff c 13).0 cr) return_is_space)
        (split_words-replace_cr s) word)
  | inr other ↦ rw other (same_words-cons c (replace_cr s) s (split_words-replace_cr s) word)
]

crlf_is_space : (a b : ℕ) → (a == 13 && b == 10) ≡ true → (a ≡ 13) × (b ≡ 10)
crlf_is_space a b e = ground arith

pub split_words-replace_crlf :
    (s word : Text) → split_words word (replace_crlf s) ≡ split_words word s
unfolding replace_crlf
split_words-replace_crlf [] word = refl
split_words-replace_crlf (a ∷ []) word = refl
split_words-replace_crlf (a ∷ b ∷ s) word = elim (Bool-cases (a == 13 && b == 10)) [
  | inl crlf ↦
      let (ea, eb) = crlf_is_space a b crlf in
      rw (
        crlf,
        ea,
        eb,
        split_words-space word 13 (10 ∷ s) return_is_space,
        split_words-space [] 10 s ten_is_space,
        split_words-space word 10 (replace_crlf s) ten_is_space,
        split_words-replace_crlf s,
        flush-nil,
      )
  | inr other ↦
      rw other
        (same_words-cons a (replace_crlf (b ∷ s)) (b ∷ s) (split_words-replace_crlf (b ∷ s)) word)
]
