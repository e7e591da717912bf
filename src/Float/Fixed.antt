-- ===== src/Float/Fixed.antt =====
-- A concrete `Float`: signed fixed-point numbers in units of 1 / 10000. It shows that the laws can
-- be met, and the tests run on it.
use polytrader.Prelude.{
  ℕ, suc, ◌+◌, ◌-◌, ◌*◌, ◌/◌, ◌≡◌, Bool, true, false, not, ◌&&◌, ltb, leb, if◌then◌else◌, arith,
}
use polytrader.Float.{Float, IsOrdered}

-- `negsuc n` is -(n + 1).
pub data ℤ : Type 0 where
  pos : ℕ → ℤ
  negsuc : ℕ → ℤ

abbrev pos_part : ℤ → ℕ
pos_part (pos n) = n
pos_part (negsuc _) = 0

abbrev neg_part : ℤ → ℕ
neg_part (pos _) = 0
neg_part (negsuc n) = suc n

abbrev difference : ℕ → ℕ → ℤ
difference a b = if leb b a then pos (a - b) else negsuc (b - a - 1)

abbrev size : ℤ → ℕ
size x = pos_part x + neg_part x

-- The sign of a product or quotient, with the size given.
abbrev signed_as : ℤ → ℤ → ℕ → ℤ
signed_as (pos _) (pos _) n = pos n
signed_as (negsuc _) (negsuc _) n = pos n
signed_as _ _ n = difference 0 n

abbrev less : ℤ → ℤ → Bool
less x y = ltb (pos_part x + neg_part y) (pos_part y + neg_part x)

abbrev at_most : ℤ → ℤ → Bool
at_most x y = leb (pos_part x + neg_part y) (pos_part y + neg_part x)

abbrev unit : ℕ
unit = 10000

instance abbrev pub fixed_float : Float ℤ
fixed_float = record {
  of_nat = λ n. pos (n * unit);
  add = λ x y. difference (pos_part x + pos_part y) (neg_part x + neg_part y);
  sub = λ x y. difference (pos_part x + neg_part y) (neg_part x + pos_part y);
  mul = λ x y. signed_as x y (size x * size y / unit);
  div = λ x y. signed_as x y (size x * unit / size y);
  neg = λ x. difference (neg_part x) (pos_part x);
  abs = λ x. pos (size x);
  lt = less;
  le = at_most;
  eq = λ x y. at_most x y && at_most y x;
}

lt_asymm_lem : (x y : ℤ) → less x y ≡ true → less y x ≡ false
lt_asymm_lem x y h = ground arith

lt_trans_lem : (x y z : ℤ) → less x y ≡ true → less y z ≡ true → less x z ≡ true
lt_trans_lem x y z h k = ground arith

le_of_lt_lem : (x y : ℤ) → less x y ≡ true → at_most x y ≡ true
le_of_lt_lem x y h = ground arith

lt_of_le_lt_lem : (x y z : ℤ) → at_most x y ≡ true → less y z ≡ true → less x z ≡ true
lt_of_le_lt_lem x y z h k = ground arith

not_lt_lem : (x y : ℤ) → at_most x x ≡ true → at_most y y ≡ true → at_most x y ≡ not (less y x)
not_lt_lem x y h k = ground arith

pub ℤ-IsOrdered : IsOrdered ℤ
ℤ-IsOrdered = record {
  lt_asymm = lt_asymm_lem;
  lt_trans = lt_trans_lem;
  le_of_lt = le_of_lt_lem;
  lt_of_le_lt = lt_of_le_lt_lem;
  not_lt = not_lt_lem;
}
