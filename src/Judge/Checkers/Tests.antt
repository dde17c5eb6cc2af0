-- ===== src/Judge/Checkers/Tests.antt =====
-- Runs of apps/judge/sahujudge/checkers.py, and instances of its laws.
use sahucodex.Prelude.{ℕ, ◌≡◌, refl, true, false, ◌++◌, ◌∷◌, [], returned, raised, ◌↔◌}
use sahucodex.Prelude.Texts.{Text, codes}
use sahucodex.Strings.{rstrip, split, split_at, replace_cr, replace_crlf}
use sahucodex.Strings.Lines.{line_at}
use sahucodex.Judge.Failures.{unknown_checker}
use sahucodex.Judge.Checkers.{
  exact_checker, whitespace_checker, lines_checker, check_whitespace, check_lines, unix_lines,
  default_checker, registered, get_checker,
}
use sahucodex.Judge.Checkers.Laws.{check_lines_iff, checkers_ordered}

-- "1 \r\n2\n\n" against "1\n2"
abbrev expected : Text
expected = codes "1" ++ 10 ∷ codes "2"

abbrev windows : Text
windows = codes "1 " ++ 13 ∷ 10 ∷ codes "2" ++ 10 ∷ 10 ∷ []

lines_forgive : check_lines expected windows ≡ true
unfolding check_lines split_at replace_cr replace_crlf rstrip
lines_forgive = refl

exact_does_not : exact_checker.check expected windows ≡ false
exact_does_not = refl

leading_whitespace_matters : check_lines (codes "1") (codes " 1") ≡ false
unfolding check_lines split_at replace_cr replace_crlf rstrip
leading_whitespace_matters = refl

whitespace_forgives : check_whitespace (codes "1 2") (codes " 1  2 ") ≡ true
unfolding check_whitespace split
whitespace_forgives = refl

default_is_registered : get_checker registered default_checker ≡ returned lines_checker
unfolding get_checker registered
default_is_registered = refl

unknown_name : get_checker registered (codes "float") ≡ raised (unknown_checker (codes "float"))
unfolding get_checker registered
unknown_name = refl

check_lines_iff_example :
    (check_lines expected windows ≡ true)
    ↔ ((i : ℕ) → rstrip (line_at (unix_lines expected) i) ≡ rstrip (line_at (unix_lines windows) i))
check_lines_iff_example = check_lines_iff expected windows

checkers_ordered_example :
    (exact_checker.check expected windows ≡ true → lines_checker.check expected windows ≡ true)
    × (lines_checker.check expected windows ≡ true
        → whitespace_checker.check expected windows ≡ true)
checkers_ordered_example = checkers_ordered expected windows
