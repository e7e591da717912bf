-- ===== src/Dict.antt =====
-- Python's `dict` in insertion order, and the laws of its operations in the form `if k == j`.
use polytrader.Prelude.{
  ◌≡◌, refl, Bool, true, false, Option, none, some, List, [], ◌∷◌, arith, HasEq, ◌==◌, not, ◌&&◌,
  ◌||◌, if◌then◌else◌,
}

abbrev pub Dict {ℓ κ} : Type ℓ → Type κ → Type (ℓ ⊔ κ)
Dict K V = List (K × V)

module _ {ℓ κ} {K : Type ℓ} ⦃e : HasEq K⦄ {V : Type κ} where
  -- `d.get(k)`
  unfoldable pub lookup : K → Dict K V → Option V
  lookup k [] = none
  lookup k ((j, v) ∷ d) = if j == k then some v else lookup k d

  -- `k in d`
  abbrev pub contains : K → Dict K V → Bool
  contains k d = elim (lookup k d) [ none ↦ false | some _ ↦ true ]

  -- `d[k] = v`
  unfoldable pub insert : K → V → Dict K V → Dict K V
  insert k v [] = (k, v) ∷ []
  insert k v ((j, w) ∷ d) = if j == k then (k, v) ∷ d else (j, w) ∷ insert k v d

  -- `del d[k]`, which a caller guards by `k in d`; every entry of the key goes.
  unfoldable pub erase : K → Dict K V → Dict K V
  erase k [] = []
  erase k ((j, w) ∷ d) = if j == k then erase k d else (j, w) ∷ erase k d

  -- `d.values()`
  abbrev pub values : Dict K V → List V
  values [] = []
  values ((_, v) ∷ d) = v ∷ values d

  pub lookup-insert :
      (k j : K) (v : V) (d : Dict K V)
      → lookup j (insert k v d) ≡ (if k == j then some v else lookup j d)
  unfolding lookup insert
  lookup-insert k j v [] = refl
  lookup-insert k j v ((i, w) ∷ d) =
      ground (arith, e.equal_iff k j, e.equal_iff i k, e.equal_iff i j, lookup-insert k j v d)

  pub lookup-erase :
      (k j : K) (d : Dict K V) → lookup j (erase k d) ≡ (if k == j then none else lookup j d)
  unfolding lookup erase
  lookup-erase k j [] = ground arith
  lookup-erase k j ((i, w) ∷ d) =
      ground (arith, e.equal_iff k j, e.equal_iff i k, e.equal_iff i j, lookup-erase k j d)

  pub lookup-insert_self : (k : K) (v : V) (d : Dict K V) → lookup k (insert k v d) ≡ some v
  lookup-insert_self k v d = ground (arith, lookup-insert k k v d, e.equal_iff k k)

  pub contains-insert :
      (k j : K) (v : V) (d : Dict K V) → contains j (insert k v d) ≡ (k == j || contains j d)
  contains-insert k j v d = ground (arith, lookup-insert k j v d)

  pub contains-erase :
      (k j : K) (d : Dict K V) → contains j (erase k d) ≡ (not (k == j) && contains j d)
  contains-erase k j d = ground (arith, lookup-erase k j d)

-- Two dictionaries have the same keys.
abbrev pub SameKeys : {K A B : Type 0} ⦃e : HasEq K⦄ → Dict K A → Dict K B → Type 0
SameKeys {K} d d' = (k : K) → contains k d ≡ contains k d'

module _ {K : Type 0} ⦃e : HasEq K⦄ {A B : Type 0} (key : K) (d : Dict K A) (d' : Dict K B) where
  pub insert-SameKeys :
      (a : A) (b : B) → SameKeys d d' → SameKeys (insert key a d) (insert key b d')
  insert-SameKeys a b same k =
      ground (arith, contains-insert key k a d, contains-insert key k b d', same k)

  pub erase-SameKeys : SameKeys d d' → SameKeys (erase key d) (erase key d')
  erase-SameKeys same k = ground (arith, contains-erase key k d, contains-erase key k d', same k)

  known : contains key d' ≡ true → (k : K) → (key == k) ≡ true → contains k d' ≡ true
  known h k q = rw (← (e.equal_iff key k).0 q) h

  -- A write to a key that is there.
  pub rewrite-SameKeys :
      (b : B) → contains key d' ≡ true → SameKeys d d' → SameKeys d (insert key b d')
  rewrite-SameKeys b h same k = ground (arith, contains-insert key k b d', same k, known h k)
