-- ===== src/Prelude/Lists.antt =====
-- Lists measured by native numbers, under the library's names, and predicates over a list.
use Prim.Native.Nat.{ℕ, suc, ◌+◌, ◌≤◌}
use mathlib.Core.Path.{◌≡◌, refl, ap}
use mathlib.Core.Bool.{Bool, true, false, ◌||◌}
use polytrader.Prelude.Tests.{if◌then◌else◌}
use mathlib.Core.List.{List, [], ◌∷◌, ◌++◌, map}
use native.Mathlib.Omega.{arith}

module _ {ℓ} {A : Type ℓ} where
  abbrev pub length : List A → ℕ
  length [] = 0
  length (x ∷ xs) = suc (length xs)

  pub length-append : (xs ys : List A) → length (xs ++ ys) ≡ length xs + length ys
  length-append [] ys = omega arith
  length-append (x ∷ xs) ys = omega (arith, length-append xs ys)

  -- Three items appended one by one.
  pub append-three :
      (xs : List A) (a b c : A)
      → ((xs ++ (a ∷ [])) ++ (b ∷ [])) ++ (c ∷ []) ≡ xs ++ (a ∷ b ∷ c ∷ [])
  append-three [] a b c = refl
  append-three (x ∷ xs) a b c = ap (λ ys. x ∷ ys) (append-three xs a b c)

  -- The items that pass a test, in order.
  abbrev pub keep_if : (A → Bool) → List A → List A
  keep_if p [] = []
  keep_if p (x ∷ xs) = elim (p x) [ true ↦ x ∷ keep_if p xs | false ↦ keep_if p xs ]

  pub keep_if-cons :
      (p : A → Bool) (x : A) (xs : List A)
      → keep_if p (x ∷ xs) ≡ (if p x then x ∷ keep_if p xs else keep_if p xs)
  keep_if-cons p x xs = ground arith

  pub length-keep_if : (p : A → Bool) (xs : List A) → length (keep_if p xs) ≤ length xs
  length-keep_if p [] = omega arith
  length-keep_if p (x ∷ xs) = ground (arith, length-keep_if p xs)

  abbrev pub any : (A → Bool) → List A → Bool
  any p [] = false
  any p (x ∷ xs) = p x || any p xs

-- Every item has a property.
abbrev pub All {ℓ κ} : {A : Type ℓ} → (A → Type κ) → List A → Type κ
All P [] = Unit
All P (x ∷ xs) = P x × All P xs

module _ {ℓ} {A : Type ℓ} where
  pub keep_if-append :
      (p : A → Bool) (xs : List A) (x : A)
      → keep_if p (xs ++ (x ∷ [])) ≡ (if p x then keep_if p xs ++ (x ∷ []) else keep_if p xs)
  keep_if-append p [] x = ground arith
  keep_if-append p (y ∷ ys) x = ground (arith, keep_if-append p ys x)

  -- A test that implies the first one keeps the same items with and without it.
  pub keep_if-nested :
      (p q : A → Bool) (xs : List A)
      → ((x : A) → p x ≡ false → q x ≡ false)
      → keep_if q (keep_if p xs) ≡ keep_if q xs
  keep_if-nested p q [] h = refl
  keep_if-nested p q (x ∷ xs) h = ground (arith, keep_if-nested p q xs h, h x)

pub map-append {ℓ κ} :
    {A : Type ℓ} {B : Type κ} (f : A → B) (xs ys : List A) → map f (xs ++ ys) ≡ map f xs ++ map f ys
map-append f [] ys = refl
map-append f (x ∷ xs) ys = ap (λ zs. f x ∷ zs) (map-append f xs ys)

pub length-map {ℓ κ} :
    {A : Type ℓ} {B : Type κ} (f : A → B) (xs : List A) → length (map f xs) ≡ length xs
length-map f [] = refl
length-map f (x ∷ xs) = ap suc (length-map f xs)
