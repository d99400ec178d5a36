-- ===== src/Evaluate/Runtime.antt =====
-- What src/modules/client/evaluate.ts uses of JavaScript's numbers, dates and regular expressions.
-- They are the run time's, and a parameter of the model.
use flagraft.Prelude.{Bool, true, false, Option, String, ◌≡◌, ◌||◌}

pub record Runtime : Type 1 where
  -- An IEEE 754 double.
  pub Num : Type 0
  -- `Number(s)` and `Date.parse(s)`, NaN where they read nothing.
  pub number : String → Num
  pub date_parse : String → Num
  pub is_nan : Num → Bool
  pub is_finite : Num → Bool
  pub zero : Num
  -- `n + 1`
  pub next : Num → Num
  pub lt : Num → Num → Bool
  -- `===`
  pub eq : Num → Num → Bool
  -- `new RegExp(p).test(s)`, `none` where the constructor throws.
  pub regex_test : String → String → Option Bool

-- `n <= m`
abbrev pub le : (rt : Runtime) → rt.Num → rt.Num → Bool
le rt n m = rt.lt n m || rt.eq n m

-- The comparisons of doubles that are no NaN, as IEEE 754 has them: `===` is an equivalence which
-- `<` respects (it is no identity, for 0 and -0), and `<` is a strict order that is total up to it.
pub record IsOrdered (rt : Runtime) : Type 0 where
  pub finite : (a : rt.Num) → rt.is_finite a ≡ true → rt.is_nan a ≡ false
  pub zero_finite : rt.is_finite rt.zero ≡ true
  pub eq_refl : (a : rt.Num) → rt.is_nan a ≡ false → rt.eq a a ≡ true
  pub eq_sym : (a b : rt.Num) → rt.eq a b ≡ true → rt.eq b a ≡ true
  pub eq_trans : (a b c : rt.Num) → rt.eq a b ≡ true → rt.eq b c ≡ true → rt.eq a c ≡ true
  pub lt_trans : (a b c : rt.Num) → rt.lt a b ≡ true → rt.lt b c ≡ true → rt.lt a c ≡ true
  pub lt_eq : (a b c : rt.Num) → rt.lt a b ≡ true → rt.eq b c ≡ true → rt.lt a c ≡ true
  pub eq_lt : (a b c : rt.Num) → rt.eq a b ≡ true → rt.lt b c ≡ true → rt.lt a c ≡ true
  pub lt-ne : (a b : rt.Num) → rt.lt a b ≡ true → rt.eq a b ≡ false
  pub lt_asymm : (a b : rt.Num) → rt.lt a b ≡ true → rt.lt b a ≡ false
  pub total :
      (a b : rt.Num)
      → rt.is_nan a ≡ false
      → rt.is_nan b ≡ false
      → rt.lt a b ≡ false
      → rt.eq a b ≡ false
      → rt.lt b a ≡ true
