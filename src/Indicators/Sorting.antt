-- ===== src/Indicators/Sorting.antt =====
-- What holds of all or some items, through `sorted` of polytrader/indicators/candles/aggregate.py.
use polytrader.Prelude.{Bool, true, false, List, [], ◌∷◌, All, ◌⊎◌, inl, inr, if◌then◌else◌}
use polytrader.Indicators.Candles.{place, sorted}

-- Some item has a property.
abbrev pub Exists : {A : Type 0} → (A → Type 0) → List A → Type 0
Exists P [] = ⊥
Exists P (x ∷ xs) = P x ⊎ Exists P xs

module _ {A : Type 0} (P : A → Type 0) where
  All-place_if :
      (b : Bool) (x y : A) (ys rest : List A)
      → All P (if b then y ∷ rest else x ∷ y ∷ ys)
      → (All P rest → P x × All P ys)
      → P x × All P (y ∷ ys)
  All-place_if true x y ys rest (py, a) f = let (px, pys) = f a in (px, (py, pys))
  All-place_if false x y ys rest a f = a

  All-place :
      (before : A → A → Bool) (x : A) (ys : List A) → All P (place before x ys) → P x × All P ys
  unfolding place
  All-place before x [] a = a
  All-place before x (y ∷ ys) a =
      All-place_if (before y x) x y ys (place before x ys) a (All-place before x ys)

  -- What holds of all items in sorted order holds of all items, and what one item has, one item of
  -- the sorted list has.
  pub All-sorted : (before : A → A → Bool) (xs : List A) → All P (sorted before xs) → All P xs
  unfolding sorted
  All-sorted before [] a = tt
  All-sorted before (x ∷ xs) a =
      let (px, rest) = All-place before x (sorted before xs) a in (px, All-sorted before xs rest)

  Exists-place_if :
      (b : Bool) (x y : A) (ys rest : List A)
      → (Exists P (x ∷ ys) → Exists P rest)
      → Exists P (x ∷ y ∷ ys)
      → Exists P (if b then y ∷ rest else x ∷ y ∷ ys)
  Exists-place_if false x y ys rest f e = e
  Exists-place_if true x y ys rest f (inl px) = inr (f (inl px))
  Exists-place_if true x y ys rest f (inr (inl py)) = inl py
  Exists-place_if true x y ys rest f (inr (inr pys)) = inr (f (inr pys))

  Exists-place :
      (before : A → A → Bool) (x : A) (ys : List A)
      → Exists P (x ∷ ys)
      → Exists P (place before x ys)
  unfolding place
  Exists-place before x [] e = e
  Exists-place before x (y ∷ ys) e =
      Exists-place_if (before y x) x y ys (place before x ys) (Exists-place before x ys) e

  pub Exists-sorted :
      (before : A → A → Bool) (xs : List A) → Exists P xs → Exists P (sorted before xs)
  unfolding sorted
  Exists-sorted before [] e = elim e [ ]
  Exists-sorted before (x ∷ xs) (inl px) = Exists-place before x (sorted before xs) (inl px)
  Exists-sorted before (x ∷ xs) (inr e) =
      Exists-place before x (sorted before xs) (inr (Exists-sorted before xs e))

  pub All-map : (Q : A → Type 0) (xs : List A) → ((x : A) → P x → Q x) → All P xs → All Q xs
  All-map Q [] f a = tt
  All-map Q (x ∷ xs) f (px, a) = (f x px, All-map Q xs f a)
