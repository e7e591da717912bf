-- ===== src/Float.antt =====
-- Python's `float`: prices, sizes, fees and clock readings. antt has no floats, so the type and its
-- operations are an interface. Order laws are stated in the form that holds of NaN too, or away
-- from it (NaN is the value that is not `<=` itself). No law of rounding is assumed.
pub mod Fixed
use polytrader.Prelude.{ℕ, ◌≡◌, Bool, true, false, not, Option, none, some, if◌then◌else◌}

pub record Float (F : Type 0) : Type 0 where
  pub of_nat : ℕ → F
  pub add : F → F → F
  pub sub : F → F → F
  pub mul : F → F → F
  pub div : F → F → F
  pub neg : F → F
  pub abs : F → F
  pub lt : F → F → Bool
  pub le : F → F → Bool
  pub eq : F → F → Bool

module _ {F : Type 0} ⦃fl : Float F⦄ where
  open fl use {of_nat, div, lt, eq}

  abbrev pub nought : F
  nought = of_nat 0

  abbrev pub one : F
  one = of_nat 1

  -- The literal a / b: a quotient of two small whole numbers is rounded as its decimal text is.
  abbrev pub ratio : ℕ → ℕ → F
  ratio a b = div (of_nat a) (of_nat b)

  -- `x / y`; `none` is a `ZeroDivisionError`.
  abbrev pub quotient : F → F → Option F
  quotient x y = if eq y nought then none else some (div x y)

  -- `max(x, y)` and `min(x, y)` of two arguments: the first one wins a tie.
  abbrev pub max_of : F → F → F
  max_of x y = if lt x y then y else x

  abbrev pub min_of : F → F → F
  min_of x y = if lt y x then y else x

-- IEEE 754 comparison.
pub record IsOrdered (F : Type 0) ⦃fl : Float F⦄ : Type 0 where
  pub lt_asymm : (x y : F) → fl.lt x y ≡ true → fl.lt y x ≡ false
  pub lt_trans : (x y z : F) → fl.lt x y ≡ true → fl.lt y z ≡ true → fl.lt x z ≡ true
  pub le_of_lt : (x y : F) → fl.lt x y ≡ true → fl.le x y ≡ true
  pub lt_of_le_lt : (x y z : F) → fl.le x y ≡ true → fl.lt y z ≡ true → fl.lt x z ≡ true
  pub not_lt : (x y : F) → fl.le x x ≡ true → fl.le y y ≡ true → fl.le x y ≡ not (fl.lt y x)
