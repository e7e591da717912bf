-- ===== src/Execution/Throttle/Window.antt =====
-- What polytrader/execution/throttle.py promises: it forgets old timestamps, and decides as if it
-- remembered every call that it allowed.
use polytrader.Prelude.{
  String, ◌≡◌, refl, ap, ◌∙◌, Bool, true, false, ◌&&◌, List, [], ◌∷◌, ◌++◌, length, length-map, map,
  map-append, keep_if, keep_if-append, keep_if-nested, if◌then◌else◌, ◌==◌, eq_of_==, string_eq,
  Bool-cases, inl, inr,
}
use polytrader.Float.{Float}
use polytrader.Dict.{Dict, lookup, insert, lookup-insert}
use polytrader.Execution.Throttle.{
  stamps_of, is_recent, timestamps_at, is_throttled, check_throttle,
}

-- IEEE 754: the order is transitive, and what is a second old does not grow younger.
pub record IsAging (F : Type 0) ⦃fl : Float F⦄ : Type 0 where
  pub le_trans : (x y z : F) → fl.le x y ≡ true → fl.le y z ≡ true → fl.le x z ≡ true
  pub stays_old : (ts x y : F) → fl.le x y ≡ true → is_recent x ts ≡ false → is_recent y ts ≡ false

-- A call: the id and the clock.
abbrev pub Stamp : Type 0 → Type 0
Stamp F = String × F

module _ {F : Type 0} ⦃fl : Float F⦄ where
  open fl use {le}

  abbrev second : Stamp F → F
  second c = c.1

  -- The calls of one id in the last second.
  abbrev pub is_recent_of : F → String → Stamp F → Bool
  is_recent_of now client_order_id c = (c.0 == client_order_id) && is_recent now c.1

  -- A throttle that remembers every call that it allowed.
  abbrev pub reference : F → Stamp F → List (Stamp F) → Bool × List (Stamp F)
  reference limit c allowed =
      if is_throttled limit (length (keep_if (is_recent_of c.1 c.0) allowed))
      then (false, allowed)
      else (true, allowed ++ (c ∷ []))

  abbrev pub decisions : F → List (Stamp F) → Dict String (List F) → List Bool
  decisions limit [] d = []
  decisions limit (c ∷ cs) d =
      let (allowed, d') = check_throttle limit c.1 c.0 d in allowed ∷ decisions limit cs d'

  abbrev pub reference_decisions : F → List (Stamp F) → List (Stamp F) → List Bool
  reference_decisions limit [] log = []
  reference_decisions limit (c ∷ cs) log =
      let (allowed, log') = reference limit c log in allowed ∷ reference_decisions limit cs log'

  -- The clock does not run backwards.
  abbrev pub IsTimed : F → List (Stamp F) → Type 0
  IsTimed clock [] = Unit
  IsTimed clock (c ∷ cs) = (le clock c.1 ≡ true) × IsTimed c.1 cs

  abbrev Agrees : F → Dict String (List F) → List (Stamp F) → Type 0
  Agrees clock d log =
      (id : String) (now : F)
      → le clock now ≡ true
      → timestamps_at now id d ≡ map second (keep_if (is_recent_of now id) log)

  -- What a call keeps of its own id's timestamps.
  kept-Agrees :
      IsAging F
      → (c : Stamp F) (d : Dict String (List F)) (log : List (Stamp F)) → Agrees c.1 d log
      → (id : String) (now : F) → (c.0 == id) ≡ true
      → le c.1 now ≡ true
      → keep_if (is_recent now) (timestamps_at c.1 c.0 d)
        ≡ map second (keep_if (is_recent_of now id) log)
  kept-Agrees aging c d log a id now k h =
      keep_if-nested (is_recent c.1) (is_recent now) (stamps_of (lookup c.0 d))
        (λ ts. aging.stays_old ts c.1 now h)
      ∙ rw (eq_of_== c.0 id k) (a id now h)

  throttled-Agrees :
      IsAging F
      → (c : Stamp F) (d : Dict String (List F)) (log : List (Stamp F)) → Agrees c.1 d log
      → Agrees c.1 (insert c.0 (timestamps_at c.1 c.0 d) d) log
  throttled-Agrees aging c d log a id now h =
      rw (lookup-insert c.0 id (timestamps_at c.1 c.0 d) d) (elim (Bool-cases (c.0 == id)) [
        | inl k ↦ rw (k) (kept-Agrees aging c d log a id now k h)
        | inr k ↦ rw (k) (a id now h)
      ])

  allowed-Agrees :
      IsAging F
      → (c : Stamp F) (d : Dict String (List F)) (log : List (Stamp F)) → Agrees c.1 d log
      → Agrees c.1 (insert c.0 (timestamps_at c.1 c.0 d ++ (c.1 ∷ [])) d) (log ++ (c ∷ []))
  allowed-Agrees aging c d log a id now h =
      let kept = timestamps_at c.1 c.0 d in
      rw (lookup-insert c.0 id (kept ++ (c.1 ∷ [])) d, keep_if-append (is_recent_of now id) log c)
        (elim (Bool-cases (c.0 == id)) [
          | inl k ↦
              rw (k, keep_if-append (is_recent now) kept c.1)
                (elim (Bool-cases (is_recent now c.1)) [
                  | inl r ↦
                      rw
                        (
                          r,
                          map-append second (keep_if (is_recent_of now id) log) (c ∷ []),
                          kept-Agrees aging c d log a id now k h,
                        )
                        refl
                  | inr r ↦ rw (r) (kept-Agrees aging c d log a id now k h)
                ])
          | inr k ↦ rw (k) (a id now h)
        ])

  decisions-Agrees :
      IsAging F
      → (limit clock : F) (cs : List (Stamp F)) (d : Dict String (List F)) (log : List (Stamp F))
      → IsTimed clock cs
      → Agrees clock d log
      → decisions limit cs d ≡ reference_decisions limit cs log
  unfolding check_throttle
  decisions-Agrees aging limit clock [] d log t a = refl
  decisions-Agrees aging limit clock (c ∷ cs) d log (h, t) a =
      let now_agrees : Agrees c.1 d log = λ id now k. a id now (aging.le_trans clock c.1 now h k) in
      let same_count : length (timestamps_at c.1 c.0 d)
          ≡ length (keep_if (is_recent_of c.1 c.0) log) =
        ap length (a c.0 c.1 h) ∙ length-map second (keep_if (is_recent_of c.1 c.0) log) in
      rw (same_count)
        (elim (Bool-cases (is_throttled limit (length (keep_if (is_recent_of c.1 c.0) log)))) [
          | inl k ↦ rw (k) (
              ap (λ xs. false ∷ xs)
                (decisions-Agrees aging limit c.1 cs (insert c.0 (timestamps_at c.1 c.0 d) d) log t
                  (throttled-Agrees aging c d log now_agrees)))
          | inr k ↦ rw (k) (
              ap (λ xs. true ∷ xs)
                (decisions-Agrees aging limit c.1 cs
                  (insert c.0 (timestamps_at c.1 c.0 d ++ (c.1 ∷ [])) d) (log ++ (c ∷ [])) t
                  (allowed-Agrees aging c d log now_agrees)))
        ])

  -- On a clock that does not run backwards, a throttle that starts empty decides every call of any
  -- sequence, of any ids, as one that remembers all the calls it allowed: a call is refused exactly
  -- when the allowed calls of its id in the last second have reached the limit.
  pub decisions-reference :
      IsAging F
      → (limit clock : F) (cs : List (Stamp F)) → IsTimed clock cs
      → decisions limit cs [] ≡ reference_decisions limit cs []
  unfolding lookup
  decisions-reference aging limit clock cs t =
      decisions-Agrees aging limit clock cs [] [] t (λ id now h. refl)
