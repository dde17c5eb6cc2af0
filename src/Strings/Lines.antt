-- ===== src/Strings/Lines.antt =====
-- Laws of the lines of a text: taking blank ends off, and reading a joined text back.
use mathlib.Core.List.{reverse, reverse-append, reverse-cons}
use sahucodex.Prelude.{
  ℕ, zero, suc, ◌≡◌, refl, sym, ap, ap₂, map, ◌∙◌, ◌↔◌, Bool, List, [], ◌∷◌, ◌++◌,
}
use sahucodex.Prelude.Texts.{Text}
use sahucodex.Strings.{cons_unless, trim_end, rstrip, pop_blank, is_blank}

-- The loop over the reversed list takes off what `trim_end` takes off.
pop_blank_last : Text → List Text → List Text
pop_blank_last l [] = pop_blank (l ∷ [])
pop_blank_last l (m ∷ ms) = m ∷ ms ++ l ∷ []

pop_blank-append :
    (rs : List Text) (l : Text) → pop_blank (rs ++ l ∷ []) ≡ pop_blank_last l (pop_blank rs)
unfolding pop_blank_last pop_blank
pop_blank-append [] l = refl
pop_blank-append ([] ∷ rs) l = pop_blank-append rs l
pop_blank-append ((c ∷ m) ∷ rs) l = refl

cons_unless-snoc {ℓ} :
    {A : Type ℓ} (drops : A → Bool) (x : A) (ys : List A) (y : A)
    → cons_unless drops x (ys ++ y ∷ []) ≡ x ∷ ys ++ y ∷ []
unfolding cons_unless
cons_unless-snoc drops x [] y = refl
cons_unless-snoc drops x (z ∷ ys) y = refl

reverse-pop_blank_last :
    (l : Text) (rs : List Text)
    → reverse (pop_blank_last l rs) ≡ cons_unless is_blank l (reverse rs)
unfolding pop_blank_last pop_blank is_blank cons_unless
reverse-pop_blank_last [] [] = refl
reverse-pop_blank_last (c ∷ l) [] = refl
reverse-pop_blank_last l (m ∷ ms) =
    rw (reverse-append (m ∷ ms) (l ∷ []), reverse-cons m ms)
      (sym (cons_unless-snoc is_blank l (reverse ms) m))

pub reverse-pop_blank : (ls : List Text) → reverse (pop_blank (reverse ls)) ≡ trim_end is_blank ls
unfolding trim_end pop_blank
reverse-pop_blank [] = refl
reverse-pop_blank (l ∷ ls) = rw (
  reverse-cons l ls,
  pop_blank-append (reverse ls) l,
  reverse-pop_blank_last l (pop_blank (reverse ls)),
  reverse-pop_blank ls,
)

-- Line `i` of a list of lines that ends in blank lines without end.
abbrev pub line_at : List Text → ℕ → Text
line_at [] i = []
line_at (l ∷ ls) zero = l
line_at (l ∷ ls) (suc i) = line_at ls i

line_at-cons_unless :
    (l : Text) (ls : List Text) (i : ℕ) → line_at (cons_unless is_blank l ls) i ≡ line_at (l ∷ ls) i
unfolding cons_unless is_blank
line_at-cons_unless [] [] zero = refl
line_at-cons_unless [] [] (suc i) = refl
line_at-cons_unless (c ∷ l) [] i = refl
line_at-cons_unless l (m ∷ ls) i = refl

line_at-trim_end : (ls : List Text) (i : ℕ) → line_at (trim_end is_blank ls) i ≡ line_at ls i
unfolding trim_end
line_at-trim_end [] i = refl
line_at-trim_end (l ∷ ls) zero = line_at-cons_unless l (trim_end is_blank ls) zero
line_at-trim_end (l ∷ ls) (suc i) =
    line_at-cons_unless l (trim_end is_blank ls) (suc i) ∙ line_at-trim_end ls i

abbrev pub SameLines : List Text → List Text → Type 0
SameLines ks ls = (i : ℕ) → line_at ks i ≡ line_at ls i

trim_end_of_blank : (ls : List Text) → SameLines [] ls → trim_end is_blank ls ≡ []
unfolding trim_end cons_unless is_blank
trim_end_of_blank [] h = refl
trim_end_of_blank (l ∷ ls) h = rw (← h 0, trim_end_of_blank ls (λ i. h (suc i)))

trim_end_of_SameLines :
    (ks ls : List Text) → SameLines ks ls → trim_end is_blank ks ≡ trim_end is_blank ls
unfolding trim_end
trim_end_of_SameLines [] ls h = sym (trim_end_of_blank ls h)
trim_end_of_SameLines (k ∷ ks) [] h = trim_end_of_blank (k ∷ ks) (λ i. sym (h i))
trim_end_of_SameLines (k ∷ ks) (l ∷ ls) h =
    ap₂ (cons_unless is_blank) (h 0) (trim_end_of_SameLines ks ls (λ i. h (suc i)))

-- Two lists of lines agree without their blank ends exactly when line by line they agree.
pub trim_end-iff_SameLines :
    (ks ls : List Text) → (trim_end is_blank ks ≡ trim_end is_blank ls) ↔ SameLines ks ls
trim_end-iff_SameLines ks ls = (
  λ e i. sym (line_at-trim_end ks i) ∙ ap (λ xs. line_at xs i) e ∙ line_at-trim_end ls i,
  trim_end_of_SameLines ks ls,
)

pub line_at-map-rstrip :
    (ls : List Text) (i : ℕ) → line_at (map rstrip ls) i ≡ rstrip (line_at ls i)
unfolding rstrip
line_at-map-rstrip [] i = refl
line_at-map-rstrip (l ∷ ls) zero = refl
line_at-map-rstrip (l ∷ ls) (suc i) = line_at-map-rstrip ls i
