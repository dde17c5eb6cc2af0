-- ===== src/Judge/Checkers/Laws.antt =====
-- What the three checkers of apps/judge/sahujudge/checkers.py accept, and how they compare.
use sahucodex.Prelude.{ℕ, ◌≡◌, refl, sym, ap, ◌∙◌, ◌↔◌, true, [], map}
use sahucodex.Prelude.Texts.{Text, eq_of_eq_text, eq_texts_iff}
use sahucodex.Strings.{is_space, trim_end, rstrip, split, replace_crlf, replace_cr, is_blank}
use sahucodex.Strings.Lines.{reverse-pop_blank, trim_end-iff_SameLines, line_at, line_at-map-rstrip}
use sahucodex.Strings.Tokens.{
  tokens_of, split-split_at, split_words-replace_cr, split_words-replace_crlf,
}
use sahucodex.Strings.Tokens.Blank.{tokens_of-map-rstrip, tokens_of-trim_end}
use sahucodex.Judge.Checkers.{
  exact_checker, whitespace_checker, lines_checker, check_whitespace, check_lines, unix_lines,
  normalise,
}

normalise-eq_trim_end : (s : Text) → normalise s ≡ trim_end is_blank (map rstrip (unix_lines s))
unfolding normalise
normalise-eq_trim_end s = reverse-pop_blank (map rstrip (unix_lines s))

-- The lines checker accepts exactly the outputs that agree with the expected text on every line up
-- to whitespace at the line's end, where both texts go on in blank lines after their last one.
pub check_lines_iff :
    (expected actual : Text)
    → (check_lines expected actual ≡ true) ↔ (
        (i : ℕ) → rstrip (line_at (unix_lines expected) i) ≡ rstrip (line_at (unix_lines actual) i))
unfolding check_lines
check_lines_iff e a = (
  λ h i.
      sym (line_at-map-rstrip (unix_lines e) i)
      ∙ (trim_end-iff_SameLines (map rstrip (unix_lines e)) (map rstrip (unix_lines a))).0
          (sym (normalise-eq_trim_end e)
            ∙ (eq_texts_iff (normalise e) (normalise a)).0 h
            ∙ normalise-eq_trim_end a)
          i
      ∙ line_at-map-rstrip (unix_lines a) i,
  λ h. (eq_texts_iff (normalise e) (normalise a)).1 (
      normalise-eq_trim_end e
      ∙ (trim_end-iff_SameLines (map rstrip (unix_lines e)) (map rstrip (unix_lines a))).1 (λ i.
          line_at-map-rstrip (unix_lines e) i ∙ h i ∙ sym (line_at-map-rstrip (unix_lines a) i))
      ∙ sym (normalise-eq_trim_end a)),
)

unix_newlines_tokens : (s : Text) → split (replace_cr (replace_crlf s)) ≡ split s
unfolding split
unix_newlines_tokens s = split_words-replace_cr (replace_crlf s) [] ∙ split_words-replace_crlf s []

newline_is_space : is_space 10 ≡ true
unfolding is_space
newline_is_space = refl

tokens_of-unix_lines : (s : Text) → tokens_of (unix_lines s) ≡ split s
unfolding unix_lines
tokens_of-unix_lines s =
    sym (split-split_at 10 (replace_cr (replace_crlf s)) newline_is_space) ∙ unix_newlines_tokens s

-- The tokens of a text are those of its normalised lines.
tokens_of-normalise : (s : Text) → tokens_of (normalise s) ≡ split s
tokens_of-normalise s =
    ap tokens_of (normalise-eq_trim_end s)
    ∙ tokens_of-trim_end (map rstrip (unix_lines s))
    ∙ tokens_of-map-rstrip (unix_lines s)
    ∙ tokens_of-unix_lines s

-- The checkers grow more lenient in the order exact, lines, whitespace: what one of them accepts,
-- the later ones accept too.
pub checkers_ordered :
    (expected actual : Text)
    → (exact_checker.check expected actual ≡ true → lines_checker.check expected actual ≡ true)
      × (lines_checker.check expected actual ≡ true
          → whitespace_checker.check expected actual ≡ true)
unfolding check_lines check_whitespace
checkers_ordered e a = (
  λ h. (eq_texts_iff (normalise e) (normalise a)).1 (ap normalise (eq_of_eq_text e a h)),
  λ h. (eq_texts_iff (split e) (split a)).1 (
      sym (tokens_of-normalise e)
      ∙ ap tokens_of ((eq_texts_iff (normalise e) (normalise a)).0 h)
      ∙ tokens_of-normalise a),
)
