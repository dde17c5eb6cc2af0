-- ===== src/Judge/Checkers.antt =====
-- apps/judge/sahujudge/checkers.py
pub mod Laws
mod Tests
use mathlib.Core.List.{reverse}
use sahucodex.Prelude.{
  Bool, List, [], ◌∷◌, map, Option, none, some, if◌then◌else◌, raised, returned, or_raise,
}
use sahucodex.Prelude.Texts.{Text, codes, eq_text, eq_texts}
use sahucodex.Strings.{rstrip, split, split_at, replace_crlf, replace_cr, pop_blank}
use sahucodex.Judge.Failures.{Fallible, unknown_checker}

-- The protocol: a name and a pure function of the expected and the actual output.
pub record Checker : Type 0 where
  pub name : Text
  pub check : Text → Text → Bool

abbrev pub exact_checker : Checker
exact_checker = record { name = codes "exact"; check = eq_text }

unfoldable pub check_whitespace : Text → Text → Bool
check_whitespace expected actual = eq_texts (split expected) (split actual)

abbrev pub whitespace_checker : Checker
whitespace_checker = record { name = codes "whitespace"; check = check_whitespace }

-- The lines of a text, `\r\n` and `\r` read as `\n`.
unfoldable pub unix_lines : Text → List Text
unix_lines text = split_at 10 (replace_cr (replace_crlf text))

-- The list comprehension, then the loop that pops blank lines off the end.
unfoldable pub normalise : Text → List Text
unfolding unix_lines pop_blank
normalise text = let lines = map rstrip (unix_lines text) in reverse (pop_blank (reverse lines))

unfoldable pub check_lines : Text → Text → Bool
unfolding normalise
check_lines expected actual = eq_texts (normalise expected) (normalise actual)

abbrev pub lines_checker : Checker
lines_checker = record { name = codes "lines"; check = check_lines }

abbrev pub default_checker : Text
default_checker = codes "lines"

-- `_REGISTRY`, a dict in insertion order.
abbrev pub Registry : Type 0
Registry = List (Text × Checker)

unfoldable pub assign : Text → Checker → Registry → Registry
assign name checker [] = (name, checker) ∷ []
assign name checker ((other, old) ∷ rest) =
    if eq_text other name then (name, checker) ∷ rest else (other, old) ∷ assign name checker rest

unfoldable pub lookup : Text → Registry → Option Checker
lookup name [] = none
lookup name ((other, checker) ∷ rest) =
    if eq_text other name then some checker else lookup name rest

unfoldable pub register_checker : Checker → Registry → Registry
unfolding assign
register_checker checker registry = assign checker.name checker registry

unfoldable pub get_checker : Registry → Text → Fallible Checker
unfolding lookup
get_checker registry name = or_raise (lookup name registry) (unknown_checker name)

-- The registry when the module has been imported.
unfoldable pub registered : Registry
unfolding register_checker
registered =
    register_checker lines_checker
      (register_checker whitespace_checker (register_checker exact_checker []))
