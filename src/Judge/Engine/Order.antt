-- ===== src/Judge/Engine/Order.antt =====
-- `order_tests` and `verdict_for` of apps/judge/sahujudge/engine.py against plain descriptions.
use sahucodex.Prelude.{
  ◌≡◌, refl, ap, ◌∙◌, Bool, true, false, not, List, [], ◌∷◌, ◌++◌, arith, keep_if, length,
  length-append,
}
use sahucodex.Prelude.Sorting.{insert}
use sahucodex.Judge.Engine.{JudgeTest, public_first, order_tests}

abbrev pub is_public : JudgeTest → Bool
is_public t = t.public

abbrev pub is_hidden : JudgeTest → Bool
is_hidden t = not t.public

insert_hidden :
    (t : JudgeTest) (shown hidden : List JudgeTest)
    → t.public ≡ false
    → insert public_first t (keep_if is_public shown ++ keep_if is_hidden hidden)
      ≡ keep_if is_public shown ++ t ∷ keep_if is_hidden hidden
unfolding insert
insert_hidden t [] [] h = refl
insert_hidden t [] (u ∷ us) h = ground (arith, insert_hidden t [] us h)
insert_hidden t (v ∷ vs) us h = ground (arith, insert_hidden t vs us h)

insert_public :
    (t : JudgeTest) (ts : List JudgeTest) → t.public ≡ true → insert public_first t ts ≡ t ∷ ts
unfolding insert
insert_public t [] h = refl
insert_public t (u ∷ ts) h = rw h

-- The tests run in this order: the public ones as the caller listed them, then the hidden ones as
-- the caller listed them.
pub order_tests-eq_public_hidden :
    (tests : List JudgeTest)
    → order_tests tests ≡ keep_if is_public tests ++ keep_if is_hidden tests
unfolding order_tests
order_tests-eq_public_hidden [] = refl
order_tests-eq_public_hidden (t ∷ ts) = ground (
  arith,
  order_tests-eq_public_hidden ts,
  insert_hidden t ts ts,
  insert_public t (keep_if is_public ts ++ keep_if is_hidden ts),
)

-- Parting a list in two loses nothing.
length-parted :
    (tests : List JudgeTest)
    → length (keep_if is_public tests ++ keep_if is_hidden tests) ≡ length tests
length-parted [] = refl
length-parted (t ∷ ts) = ground (
  arith,
  length-parted ts,
  length-append (keep_if is_public ts) (keep_if is_hidden ts),
  length-append (keep_if is_public ts) (t ∷ keep_if is_hidden ts),
)

pub length-order_tests : (tests : List JudgeTest) → length (order_tests tests) ≡ length tests
length-order_tests tests = ap length (order_tests-eq_public_hidden tests) ∙ length-parted tests
