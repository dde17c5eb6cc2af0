-- ===== src/Prelude/Decimals.antt =====
-- `str(n)` of a Python int.
use Prim.Native.Nat.{ℕ, zero, suc, ◌+◌, ◌/◌, ◌%◌}
use mathlib.Core.List.{[], ◌∷◌, ◌++◌}
use mathlib.Core.Option.{Option, none, some}
use sahucodex.Prelude.Tests.{ltb, if◌then◌else◌}
use sahucodex.Prelude.Texts.{Text, codes}
use sahucodex.Prelude.Int.{ℤ, pos, negsuc}

-- The digits of a number, on fuel: `n + 1` rounds are more than it has digits.
unfoldable pub digits : ℕ → ℕ → Text
digits zero n = []
digits (suc fuel) n =
    let longer = digits fuel (n / 10) ++ (48 + n % 10) ∷ [] in
    if ltb n 10 then (48 + n) ∷ [] else longer

unfoldable pub decimal : ℕ → Text
unfolding digits
decimal n = digits (n + 1) n

unfoldable pub decimal_ℤ : ℤ → Text
unfolding decimal
decimal_ℤ (pos n) = decimal n
decimal_ℤ (negsuc n) = 45 ∷ decimal (n + 1)

-- An optional int in an f-string.
unfoldable pub decimal? : Option ℤ → Text
unfolding decimal_ℤ
decimal? none = codes "None"
decimal? (some n) = decimal_ℤ n
