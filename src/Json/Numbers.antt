-- ===== src/Json/Numbers.antt =====
-- A number that `json.dumps` writes is read back: the digits of `str(n)` and the grammar of numbers.
use sahucodex.Prelude.{
  ℕ, zero, suc, ◌+◌, ◌-◌, ◌*◌, ◌/◌, ◌%◌, ◌≤◌, ◌<◌, ◌≡◌, refl, ◌∙◌, ap, inl, inr, true, false, [],
  ◌∷◌, ◌++◌, some, ltb, ◌==◌, arith, Bool-cases, Option-cases, All, All-append,
}
use sahucodex.Prelude.Int.{pos}
use sahucodex.Prelude.Texts.{Text}
use sahucodex.Prelude.Decimals.{digits, decimal}
use sahucodex.Json.{
  integer, NumberState, begins, whole, is_digit, number_step, number_state, digits_value, int_value,
  word_value,
}

abbrev pub AreDigits : Text → Type 0
AreDigits s = All (λ c. is_digit c ≡ true) s

number_state-snoc :
    (state after : NumberState) (s : Text) (c : ℕ)
    → number_state state s ≡ some after
    → number_state state (s ++ c ∷ []) ≡ number_step after c
number_state-snoc state after [] c h =
    let same : state ≡ after = ground (arith, h) in
    rw same (elim (Option-cases (number_step after c)) [
      | inl stuck ↦ rw (stuck, number_state) refl
      | inr (next, goes) ↦ rw (goes, number_state) refl
    ])
number_state-snoc state after (d ∷ s) c h = elim (Option-cases (number_step state d)) [
  | inl stuck ↦ absurd (ground (arith, rw (stuck, number_state) at h))
  | inr (next, goes) ↦
      rw (goes, number_state) (number_state-snoc next after s c (rw (goes, number_state) at h))
]

digits_value-snoc :
    (n : ℕ) (s : Text) (c : ℕ) → digits_value n (s ++ c ∷ []) ≡ digits_value n s * 10 + (c - 48)
digits_value-snoc n [] c = refl
digits_value-snoc n (d ∷ s) c = digits_value-snoc (n * 10 + (d - 48)) s c

-- The last digit comes off a number of two or more.
digits_big :
    (fuel n : ℕ)
    → ltb n 10 ≡ false
    → digits (suc fuel) n ≡ digits fuel (n / 10) ++ (48 + n % 10) ∷ []
unfolding digits
digits_big fuel n big = rw big refl

digits_small : (fuel n : ℕ) → ltb n 10 ≡ true → digits (suc fuel) n ≡ (48 + n) ∷ []
unfolding digits
digits_small fuel n small = rw small refl

digits-AreDigits : (fuel n : ℕ) → AreDigits (digits fuel n)
unfolding digits
digits-AreDigits zero n = tt
digits-AreDigits (suc fuel) n = elim (Bool-cases (ltb n 10)) [
  | inl small ↦ rw (digits_small fuel n small) (ground (arith, small), tt)
  | inr big ↦
      let last : is_digit (48 + n % 10) ≡ true = ground arith in
      rw (digits_big fuel n big) (
        All-append (λ c. is_digit c ≡ true) (digits fuel (n / 10)) ((48 + n % 10) ∷ [])
          (digits-AreDigits fuel (n / 10)) (last, tt))
]

digits-value : (fuel n : ℕ) → n < fuel → digits_value 0 (digits fuel n) ≡ n
digits-value zero n h = absurd (omega arith)
digits-value (suc fuel) n h = elim (Bool-cases (ltb n 10)) [
  | inl small ↦ rw (digits_small fuel n small) (omega arith)
  | inr big ↦
      let fits : n / 10 < fuel = ground (arith, big, h) in
      rw (digits_big fuel n big, digits_value-snoc 0 (digits fuel (n / 10)) (48 + n % 10))
        (rw (digits-value fuel (n / 10) fits) (omega arith))
]

whole_step : (d : ℕ) → d < 10 → number_step whole (48 + d) ≡ some whole
whole_step d h = ground arith

first_step : (d : ℕ) → d < 10 → 1 ≤ d → number_step begins (48 + d) ≡ some whole
first_step d h k = ground arith

digits-whole : (fuel n : ℕ) → n < fuel → 1 ≤ n → number_state begins (digits fuel n) ≡ some whole
digits-whole zero n h k = absurd (omega arith)
digits-whole (suc fuel) n h k = elim (Bool-cases (ltb n 10)) [
  | inl small ↦
      rw (digits_small fuel n small)
        (rw (first_step n (ground (arith, small)) k, number_state) refl)
  | inr big ↦
      let fits : n / 10 < fuel = ground (arith, big, h) in
      let some_left : 1 ≤ n / 10 = ground (arith, big) in
      rw (digits_big fuel n big) (
        number_state-snoc begins whole (digits fuel (n / 10)) (48 + n % 10)
          (digits-whole fuel (n / 10) fits some_left)
        ∙ whole_step (n % 10) (omega arith))
]

int_value-digits : (s : Text) → AreDigits s → int_value s ≡ pos (digits_value 0 s)
int_value-digits [] h = refl
int_value-digits (c ∷ s) (d, h) = let plain : (c == 45) ≡ false = ground (arith, d) in rw plain refl

zero_of : (n : ℕ) → (n == 0) ≡ true → n ≡ 0
zero_of n h = ground arith

pub word_value-decimal : (n : ℕ) → word_value (decimal n) ≡ some (integer (pos n))
unfolding decimal word_value digits
word_value-decimal n =
    let value : int_value (decimal n) ≡ pos n =
      int_value-digits (digits (n + 1) n) (digits-AreDigits (n + 1) n)
      ∙ ap pos (digits-value (n + 1) n (omega arith)) in
    elim (Bool-cases (n == 0)) [
      | inl nothing ↦ rw (zero_of n nothing) refl
      | inr something ↦
          rw (digits-whole (n + 1) n (omega arith) (ground (arith, something)), word_value)
            (ap (λ z. some (integer z)) value)
    ]

pub decimal-AreDigits : (n : ℕ) → AreDigits (decimal n)
unfolding decimal
decimal-AreDigits n = digits-AreDigits (n + 1) n
