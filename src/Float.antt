-- ===== src/Float.antt =====
-- JavaScript's numbers, as far as the server computes with them: amounts, powers, prices, hours and
-- readings of the virtual clock. The type is abstract; the operations are an instance argument.
use charging_station_system.Prelude.{
  ℕ, ◌+◌, ◌-◌, ◌*◌, ◌/◌, Bool, true, false, ◌≡◌, arith, ltb, leb, max, min,
}

-- `nat n` is the number literal or whole-number value `n`. `less` is
-- `<` and `at_least` is `>=`. `math_round`, `math_min`
-- and `math_max` are the functions of `Math`. `clip x` is the time value of `new Date(x)`.
pub record Float (F : Type 0) : Type 0 where
  pub nat : ℕ → F
  pub plus : F → F → F
  pub minus : F → F → F
  pub times : F → F → F
  pub over : F → F → F
  pub less : F → F → Bool
  pub at_least : F → F → Bool
  pub math_round : F → F
  pub math_min : F → F → F
  pub math_max : F → F → F
  pub clip : F → ℕ

module _ {F : Type 0} ⦃fl : Float F⦄ where
  abbrev pub nat : ℕ → F
  nat = fl.nat

  infixl 65 ◌⊕◌ ◌⊖◌
  infixl 70 ◌⊗◌ ◌⊘◌
  abbrev pub ◌⊕◌ : F → F → F
  ◌⊕◌ = fl.plus

  abbrev pub ◌⊖◌ : F → F → F
  ◌⊖◌ = fl.minus

  abbrev pub ◌⊗◌ : F → F → F
  ◌⊗◌ = fl.times

  abbrev pub ◌⊘◌ : F → F → F
  ◌⊘◌ = fl.over

  abbrev pub less : F → F → Bool
  less = fl.less

  abbrev pub at_least : F → F → Bool
  at_least = fl.at_least

  -- `x > 0`
  abbrev pub positive : F → Bool
  positive x = less (nat 0) x

  -- `Math.round(x * scale) / scale`
  unfoldable pub round_to : ℕ → F → F
  round_to scale x = fl.math_round (x ⊗ nat scale) ⊘ nat scale

  -- The whole hours and their fraction in a number of milliseconds.
  abbrev pub hours_of : F → F
  hours_of ms = ms ⊘ nat 3_600_000

-- What the theorems on choices assume of `<`: it is asymmetric, and "not less" is transitive through
-- a number, which NaN, that is not `>=` itself, is not.
pub record IsOrdered (F : Type 0) ⦃fl : Float F⦄ : Type 0 where
  pub asymmetric : (a b : F) → fl.less a b ≡ true → fl.less b a ≡ false
  pub not_less_trans :
      (a b c : F)
      → fl.at_least b b ≡ true
      → fl.less c b ≡ false
      → fl.less b a ≡ false
      → fl.less c a ≡ false

-- An instance that computes, for tests: tenths of thousandths, with truncated arithmetic. Rounding
-- goes to the nearest whole number.
abbrev pub unit : ℕ
unit = 10_000

instance abbrev pub fixed_float : Float ℕ
fixed_float = record {
  nat = λ n. n * unit;
  plus = λ a b. a + b;
  minus = λ a b. a - b;
  times = λ a b. a * b / unit;
  over = λ a b. a * unit / b;
  less = ltb;
  at_least = λ a b. leb b a;
  math_round = λ a. (a + 5000) / unit * unit;
  math_min = min;
  math_max = max;
  clip = λ a. a / unit;
}

pub fixed-IsOrdered : IsOrdered ℕ
fixed-IsOrdered = ground arith
