-- ===== src/Strings/Tokens/Blank.antt =====
-- Blank lines, and whitespace at the ends of lines, hold no token.
use sahucodex.Prelude.{◌≡◌, refl, ap₂, ◌∙◌, List, [], ◌∷◌, ◌++◌, map}
use sahucodex.Prelude.Texts.{Text}
use sahucodex.Strings.{cons_unless, trim_end, rstrip, split, split_words, flush, is_blank}
use sahucodex.Strings.Tokens.{tokens_of, split_words-rstrip}

pub tokens_of-map-rstrip : (ls : List Text) → tokens_of (map rstrip ls) ≡ tokens_of ls
unfolding tokens_of split
tokens_of-map-rstrip [] = refl
tokens_of-map-rstrip (l ∷ ls) = ap₂ (◌++◌) (split_words-rstrip l []) (tokens_of-map-rstrip ls)

tokens_of-cons_unless :
    (l : Text) (ls : List Text) → tokens_of (cons_unless is_blank l ls) ≡ split l ++ tokens_of ls
unfolding tokens_of cons_unless is_blank split split_words flush
tokens_of-cons_unless [] [] = refl
tokens_of-cons_unless (c ∷ l) [] = refl
tokens_of-cons_unless l (m ∷ ls) = refl

pub tokens_of-trim_end : (ls : List Text) → tokens_of (trim_end is_blank ls) ≡ tokens_of ls
unfolding tokens_of trim_end
tokens_of-trim_end [] = refl
tokens_of-trim_end (l ∷ ls) =
    tokens_of-cons_unless l (trim_end is_blank ls) ∙ rw (tokens_of-trim_end ls)
