-- ===== src/Effect.antt =====
-- A Python call: it reads and writes a state, and returns or raises. What was written before a
-- raise stays written, so the state comes back in both cases.
use polytrader.Prelude.{◌≡◌, refl, ap, ◌⊎◌, inl, inr, Bool, Option, none, some, if◌then◌else◌}

pub data Result (E A : Type 0) : Type 0 where
  ok : A → Result E A
  err : E → Result E A

abbrev pub Action : Type 0 → Type 0 → Type 0 → Type 0
Action E S A = S → Result E A × S

abbrev pub Done : Type 0
Done = Unit

abbrev pub is_ok : {E A : Type 0} → Result E A → Bool
is_ok (ok _) = Bool.true
is_ok (err _) = Bool.false

module _ {E S A : Type 0} where
  abbrev pub pure : A → Action E S A
  pure a s = (ok a, s)

  abbrev pub raise : E → Action E S A
  raise e s = (err e, s)

  abbrev pub gets : (S → A) → Action E S A
  gets f s = (ok (f s), s)

  -- A call of a function that has no state of its own.
  abbrev pub lift : Result E A → Action E S A
  lift r s = (r, s)

module _ {E S : Type 0} where
  abbrev pub modify : (S → S) → Action E S Done
  modify f s = (ok tt, f s)

  abbrev pub raise_if : Bool → E → Action E S Done
  raise_if c e s = (if c then err e else ok tt, s)

  -- `if x: ...` on a value that may be `None`.
  abbrev pub when_some : {A : Type 0} → Option A → (A → Action E S Done) → Action E S Done
  when_some none f = pure tt
  when_some (some a) f = f a

infixl 5 ◌>>=◌ ◌>>◌
abbrev pub ◌>>=◌ : {E S A B : Type 0} → Action E S A → (A → Action E S B) → Action E S B
◌>>=◌ m f s = let (r, s') = m s in elim r [ ok a ↦ f a s' | err e ↦ raise e s' ]

abbrev pub ◌>>◌ : {E S A B : Type 0} → Action E S A → Action E S B → Action E S B
m >> k = m >>= λ _. k

pub Result-cases :
    {E A : Type 0} (r : Result E A) → ((a : A) × (r ≡ ok a)) ⊎ ((e : E) × (r ≡ err e))
Result-cases (ok a) = inl (a, refl)
Result-cases (err e) = inr (e, refl)

module _ {E S A B : Type 0} where
  split_keeps {ℓ} :
      (P : S → Type ℓ) (r : Result E A) (s' : S) (f : A → Action E S B)
      → P s'
      → ((a : A) → r ≡ ok a → P (f a s').1)
      → P (((λ _. (r, s')) >>= f) s').1
  split_keeps P (ok a) s' f p q = q a refl
  split_keeps P (err e) s' f p q = p

  -- What holds of the state after a first call, and after the second one where there is one, holds
  -- after both.
  pub >>=_keeps {ℓ} :
      (P : S → Type ℓ) (m : Action E S A) (f : A → Action E S B) (s : S)
      → P (m s).1
      → ((a : A) → (m s).0 ≡ ok a → P (f a (m s).1).1)
      → P ((m >>= f) s).1
  >>=_keeps P m f s p q = split_keeps P (m s).0 (m s).1 f p q

  -- The state that a call leaves is not changed by what it returns after it.
  pub state-return : (m : Action E S A) (b : B) (s : S) → ((m >>= λ _. pure b) s).1 ≡ (m s).1
  state-return m b s = >>=_keeps (λ t. t ≡ (m s).1) m (λ _. pure b) s refl (λ a h. refl)

module _ {E S B : Type 0} where
  -- A guard raises and changes nothing, or the next call follows.
  pub raise_if_keeps {ℓ} :
      (P : S → Type ℓ) (c : Bool) (e : E) (m : Action E S B) (s : S)
      → P s
      → P (m s).1
      → P ((raise_if c e >> m) s).1
  raise_if_keeps P Bool.true e m s p q = p
  raise_if_keeps P Bool.false e m s p q = q

module _ {E S A B : Type 0} where
  -- After a first call that returns comes the second one.
  pub bind_ok :
      (m : Action E S A) (f : A → Action E S B) (s : S) {a : A} {t : S}
      → m s ≡ (ok a, t)
      → (m >>= f) s ≡ f a t
  bind_ok m f s {a} h = rw (h, ◌>>=◌) (ap (λ r. f a r.1) h)

  -- After a first call that raises comes nothing.
  pub bind_err :
      (m : Action E S A) (f : A → Action E S B) (s : S) {e : E} {t : S}
      → m s ≡ (err e, t)
      → (m >>= f) s ≡ (err e, t)
  bind_err m f s {e} h = rw (h, ◌>>=◌) (ap (λ r. raise e r.1) h)

-- A call keeps a property of the state, also where it raises.
pub record Keeps {ℓ} {E S A : Type 0} (P : S → Type ℓ) (m : Action E S A) : Type ℓ where
  pub keeps : (s : S) → P s → P (m s).1

module _ {ℓ} {E S : Type 0} {P : S → Type ℓ} where
  pub >>-Keeps :
      {A B : Type 0} {m : Action E S A} {k : Action E S B}
      → Keeps P m
      → Keeps P k
      → Keeps P (m >> k)
  >>-Keeps {m} {k} h g = record {
    keeps = λ s p. >>=_keeps P m (λ _. k) s (h.keeps s p) (λ _ _. g.keeps (m s).1 (h.keeps s p));
  }

  pub modify-Keeps : {f : S → S} → ((s : S) → P s → P (f s)) → Keeps P (modify {E = E} f)
  modify-Keeps h = record { keeps = h }

  pub pure-Keeps : {A : Type 0} {a : A} → Keeps {E = E} P (pure a)
  pure-Keeps = record { keeps = λ s p. p }
