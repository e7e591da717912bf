-- ===== src/Prelude/Equality.antt =====
-- Python's `==` on the types that serve as keys: text, and pairs and triples of keys.
use Prim.Native.Nat.{ℕ}
use Prim.Native.String.{String}
use polytrader.Prelude.Tests.{leb}
use mathlib.Core.Path.{◌≡◌, refl, ap}
use mathlib.Core.Logic.{◌↔◌}
use mathlib.Core.Bool.{Bool, true, false, not, ◌&&◌, ◌||◌}
use mathlib.Core.List.{List, [], ◌∷◌, ◌++◌}
use mathlib.Core.Option.{Option, none, some}
use native.Mathlib.Omega.{arith}
use text.Mathlib.Text.{◌==◌ as str_eq}
use text.Mathlib.TextEquality.{eq_iff}

-- A type whose values Python compares by `==`, the test and what it decides.
pub record HasEq {ℓ} (K : Type ℓ) : Type ℓ where
  pub equal : K → K → Bool
  pub equal_iff : (x y : K) → (equal x y ≡ true) ↔ (x ≡ y)

infix 50 ◌==◌
abbrev pub ◌==◌ {ℓ} : {K : Type ℓ} ⦃e : HasEq K⦄ (x y : K) → Bool
◌==◌ ⦃e⦄ x y = e.equal x y

pub ==_refl {ℓ} : {A : Type ℓ} ⦃e : HasEq A⦄ (a : A) → (a == a) ≡ true
==_refl ⦃e⦄ a = (e.equal_iff a a).1 refl

pub eq_of_== {ℓ} : {A : Type ℓ} ⦃e : HasEq A⦄ (a b : A) → (a == b) ≡ true → a ≡ b
eq_of_== ⦃e⦄ a b = (e.equal_iff a b).0

-- `==` of two texts. It stays shut, so that proofs meet it as one test.
unfoldable pub text_eq : String → String → Bool
text_eq a b = str_eq a b

pub text_eq_iff : (a b : String) → (text_eq a b ≡ true) ↔ (a ≡ b)
unfolding text_eq
text_eq_iff a b = eq_iff a b

instance abbrev pub string_eq : HasEq String
string_eq = record { equal = text_eq; equal_iff = text_eq_iff }

pub same_ℕ_iff : (m n : ℕ) → ((leb m n && leb n m) ≡ true) ↔ (m ≡ n)
same_ℕ_iff m n = (λ h. ground (arith, h), λ h. ground (arith, h))

instance abbrev pub nat_eq : HasEq ℕ
nat_eq = record { equal = λ m n. leb m n && leb n m; equal_iff = same_ℕ_iff }

-- `a == b` between two values that may be `None`.
abbrev pub opt_eq : Option String → Option String → Bool
opt_eq none none = true
opt_eq (some a) (some b) = text_eq a b
opt_eq _ _ = false

-- Python counts the empty text as false.
abbrev pub is_truthy : String → Bool
is_truthy s = not (text_eq s "")

pub pair_eq_iff :
    {A B : Type 0} (e : HasEq A) (f : HasEq B) (p q : A × B)
    → ((e.equal p.0 q.0 && f.equal p.1 q.1) ≡ true) ↔ (p ≡ q)
pair_eq_iff e f (a, b) (c, d) = (
  λ h. ground (arith, e.equal_iff a c, f.equal_iff b d),
  λ h. ground (arith, e.equal_iff a c, f.equal_iff b d, ap (λ p. p.0) h, ap (λ p. p.1) h),
)

-- Two tuples, item by item.
instance abbrev pub pair_eq : {A B : Type 0} ⦃e : HasEq A⦄ ⦃f : HasEq B⦄ → HasEq (A × B)
pair_eq ⦃e⦄ ⦃f⦄ = record {
  equal = λ p q. e.equal p.0 q.0 && f.equal p.1 q.1;
  equal_iff = pair_eq_iff e f;
}

-- `x in xs`
abbrev pub member {ℓ} : {A : Type ℓ} ⦃e : HasEq A⦄ → A → List A → Bool
member x [] = false
member x (y ∷ ys) = y == x || member x ys

pub member-append {ℓ} :
    {A : Type ℓ} ⦃e : HasEq A⦄ (x : A) (ys zs : List A)
    → member x (ys ++ zs) ≡ (member x ys || member x zs)
member-append x [] zs = refl
member-append x (y ∷ ys) zs = ground (arith, member-append x ys zs)

-- No item occurs twice.
abbrev pub IsUnique {ℓ} : {A : Type ℓ} ⦃e : HasEq A⦄ → List A → Type 0
IsUnique [] = Unit
IsUnique (x ∷ xs) = (member x xs ≡ false) × IsUnique xs

pub append-IsUnique {ℓ} :
    {A : Type ℓ} ⦃e : HasEq A⦄ (a : A) (xs : List A)
    → IsUnique xs
    → member a xs ≡ false
    → IsUnique (xs ++ (a ∷ []))
append-IsUnique a [] u h = (refl, tt)
append-IsUnique ⦃e⦄ a (x ∷ xs) (fresh, u) h = (
  ground (arith, member-append x xs (a ∷ []), e.equal_iff x a, e.equal_iff a x, h, fresh),
  append-IsUnique a xs u (ground arith),
)

-- `s.add(x)` and `s.discard(x)` of a set, and the union of two.
abbrev pub add_item {ℓ} : {A : Type ℓ} ⦃e : HasEq A⦄ → A → List A → List A
add_item x s = elim (member x s) [ true ↦ s | false ↦ s ++ (x ∷ []) ]

abbrev pub discard_item {ℓ} : {A : Type ℓ} ⦃e : HasEq A⦄ → A → List A → List A
discard_item x [] = []
discard_item x (y ∷ ys) = elim (y == x) [ true ↦ discard_item x ys | false ↦ y ∷ discard_item x ys ]

abbrev pub union {ℓ} : {A : Type ℓ} ⦃e : HasEq A⦄ → List A → List A → List A
union s [] = s
union s (x ∷ xs) = union (add_item x s) xs

pub member-add_item {ℓ} :
    {A : Type ℓ} ⦃e : HasEq A⦄ (x y : A) (s : List A)
    → member y (add_item x s) ≡ (x == y || member y s)
member-add_item ⦃e⦄ x y s = ground (arith, member-append y s (x ∷ []), e.equal_iff x y)

pub member-discard_item {ℓ} :
    {A : Type ℓ} ⦃e : HasEq A⦄ (x y : A) (s : List A)
    → member y (discard_item x s) ≡ (not (x == y) && member y s)
member-discard_item x y [] = ground arith
member-discard_item ⦃e⦄ x y (z ∷ zs) =
    ground (arith, member-discard_item x y zs, e.equal_iff x y, e.equal_iff z x, e.equal_iff z y)

pub member-union {ℓ} :
    {A : Type ℓ} ⦃e : HasEq A⦄ (y : A) (s t : List A)
    → member y (union s t) ≡ (member y s || member y t)
member-union y s [] = ground arith
member-union y s (x ∷ xs) = ground (arith, member-union y (add_item x s) xs, member-add_item x y s)
