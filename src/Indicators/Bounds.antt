-- ===== src/Indicators/Bounds.antt =====
-- The candles of polytrader/indicators/candles/aggregate.py cover the ticks that they are made of.
use polytrader.Prelude.{
  String, ℕ, ◌≡◌, refl, sym, ap, subst, ◌∙◌, false, ◌&&◌, List, [], ◌∷◌, ◌++◌, All, HasEq, ◌==◌,
  eq_of_==, ◌⊎◌, inl, inr, if◌then◌else◌, Bool-cases, ltb, arith,
}
use polytrader.Float.{Float, IsOrdered, max_of, min_of}
use polytrader.Dict.{lookup, insert}
use polytrader.Effect.{Result, ok, err, Result-cases}
use polytrader.Events.{mid}
use polytrader.Indicators.Sorting.{Exists, All-sorted, Exists-sorted, All-map}
use polytrader.Indicators.Candles.{
  Candle, Timing, bucket_start, Tick, sorted, Buckets, cons_ok, add_to, highest, lowest, candles_of,
  bucket_all, by_start, finish, aggregate_ticks_to_candles,
}

module _ {F T : Type 0} ⦃fl : Float F⦄ ⦃eq : HasEq T⦄ (timing : Timing T) (o : IsOrdered F) where
  open fl use {lt}

  -- A highest value that is not below z stays so.
  highest-above : (x z : F) (xs : List F) → lt x z ≡ false → lt (highest timing x xs) z ≡ false
  unfolding highest
  highest-above x z [] h = h
  highest-above x z (y ∷ ys) h =
      highest-above (max_of x y) z ys (ground (arith, h, o.lt_trans x y z))

  lowest-below : (x z : F) (xs : List F) → lt z x ≡ false → lt z (lowest timing x xs) ≡ false
  unfolding lowest
  lowest-below x z [] h = h
  lowest-below x z (y ∷ ys) h = lowest-below (min_of x y) z ys (ground (arith, h, o.lt_trans z y x))

  highest_of-all :
      (x z : F) (xs : List F) → Exists (λ y. y ≡ z) (x ∷ xs) → lt (highest timing x xs) z ≡ false
  unfolding highest
  highest_of-all x z xs (inl e) = rw (← e) (highest-above x x xs (ground (arith, o.lt_asymm x x)))
  highest_of-all x z [] (inr e) = elim e [ ]
  highest_of-all x z (y ∷ ys) (inr (inl e)) =
      rw (← e) (highest-above (max_of x y) y ys (ground (arith, o.lt_asymm x y, o.lt_asymm y y)))
  highest_of-all x z (y ∷ ys) (inr (inr e)) = highest_of-all (max_of x y) z ys (inr e)

  lowest_of-all :
      (x z : F) (xs : List F) → Exists (λ y. y ≡ z) (x ∷ xs) → lt z (lowest timing x xs) ≡ false
  unfolding lowest
  lowest_of-all x z xs (inl e) = rw (← e) (lowest-below x x xs (ground (arith, o.lt_asymm x x)))
  lowest_of-all x z [] (inr e) = elim e [ ]
  lowest_of-all x z (y ∷ ys) (inr (inl e)) =
      rw (← e) (lowest-below (min_of x y) y ys (ground (arith, o.lt_asymm y x, o.lt_asymm y y)))
  lowest_of-all x z (y ∷ ys) (inr (inr e)) = lowest_of-all (min_of x y) z ys (inr e)

  -- A bucket of a start holds a middle price.
  abbrev Holds : T → F → T × List F → Type 0
  Holds start z bucket = (bucket.0 ≡ start) × Exists (λ y. y ≡ z) bucket.1

  Exists-append :
      (z x : F) (xs : List F) → Exists (λ y. y ≡ z) xs → Exists (λ y. y ≡ z) (xs ++ (x ∷ []))
  Exists-append z x [] e = elim e [ ]
  Exists-append z x (y ∷ ys) (inl e) = inl e
  Exists-append z x (y ∷ ys) (inr e) = inr (Exists-append z x ys e)

  Exists-last : (x : F) (xs : List F) → Exists (λ y. y ≡ x) (xs ++ (x ∷ []))
  Exists-last x [] = inl refl
  Exists-last x (y ∷ ys) = inr (Exists-last x ys)

  add_to-cons :
      (start j : T) (x : F) (w : List F) (b : Buckets F T)
      → add_to timing start x ((j, w) ∷ b)
        ≡ (if j == start then (start, w ++ (x ∷ [])) ∷ b else (j, w) ∷ add_to timing start x b)
  unfolding lookup insert
  add_to-cons start j x w b = ground arith

  add_to-new :
      (start : T) (x : F) (b : Buckets F T) → Exists (Holds start x) (add_to timing start x b)
  unfolding lookup insert
  add_to-new start x [] = inl (refl, inl refl)
  add_to-new start x ((j, w) ∷ b) = elim (Bool-cases (j == start)) [
    | inl k ↦ rw (add_to-cons start j x w b, k) (inl (refl, Exists-last x w))
    | inr k ↦ rw (add_to-cons start j x w b, k) (inr (add_to-new start x b))
  ]

  add_to-old :
      (start s : T) (x z : F) (b : Buckets F T)
      → Exists (Holds s z) b
      → Exists (Holds s z) (add_to timing start x b)
  add_to-old start s x z [] e = elim e [ ]
  add_to-old start s x z ((j, w) ∷ b) e = elim (Bool-cases (j == start)) [
    | inl k ↦
        rw (add_to-cons start j x w b, k)
          (elim e [
            | inl (h, p) ↦ inl (sym (eq_of_== j start k) ∙ h, Exists-append z x w p)
            | inr rest ↦ inr rest
          ])
    | inr k ↦
        rw (add_to-cons start j x w b, k)
          (elim e [ inl h ↦ inl h | inr rest ↦ inr (add_to-old start s x z b rest) ])
  ]

  -- A candle of the start of a tick, whose range holds its middle price.
  abbrev pub Covers : T → F → Candle F T → Type 0
  Covers start z c = (c.ts_start ≡ start) × (lt c.high z ≡ false) × (lt z c.low ≡ false)

  abbrev items : {A : Type 0} → Result String (List A) → List A
  items (ok xs) = xs
  items (err e) = []

  cons_ok-Exists :
      (P : Candle F T → Type 0) (c : Candle F T) (r : Result String (List (Candle F T)))
      (cs : List (Candle F T))
      → cons_ok (ok c) r ≡ ok cs
      → P c ⊎ ((rest : List (Candle F T)) → r ≡ ok rest → Exists P rest)
      → Exists P cs
  cons_ok-Exists P c (err e) cs h q = ground (arith, h)
  cons_ok-Exists P c (ok rest) cs h (inl p) = subst (Exists P) (ap items h) (inl p)
  cons_ok-Exists P c (ok rest) cs h (inr q) = subst (Exists P) (ap items h) (inr (q rest refl))

  candles_of-Covers :
      (start : T) (z : F) (b : Buckets F T) (cs : List (Candle F T))
      → candles_of timing b ≡ ok cs
      → Exists (Holds start z) b
      → Exists (Covers start z) cs
  unfolding candles_of
  candles_of-Covers start z [] cs h e = elim e [ ]
  candles_of-Covers start z ((j, []) ∷ b) cs h e = ground (arith, h)
  candles_of-Covers start z ((j, x ∷ xs) ∷ b) cs h e =
      cons_ok-Exists (Covers start z) _ (candles_of timing b) cs h (elim e [
        | inl (named, p) ↦ inl (named, highest_of-all x z xs p, lowest_of-all x z xs p)
        | inr later ↦ inr (λ rest k. candles_of-Covers start z b rest k later)
      ])

  bucket_all-keeps :
      (minutes seconds : ℕ) (ticks : List (Tick F)) (b b' : Buckets F T) (start : T) (z : F)
      → bucket_all timing minutes seconds ticks b ≡ ok b'
      → Exists (Holds start z) b
      → Exists (Holds start z) b'
  unfolding bucket_all
  bucket_all-keeps minutes seconds [] b b' start z h e =
      subst (Exists (Holds start z)) (ap items h) e
  bucket_all-keeps minutes seconds ((t, m) ∷ ticks) b b' start z h e =
      elim (Result-cases (bucket_start timing minutes seconds t)) [
        | inl (s, k) ↦
            bucket_all-keeps minutes seconds ticks (add_to timing s (mid m) b) b' start z
              (rw (bucket_all, k) at h) (add_to-old s start (mid m) z b e)
        | inr (f, k) ↦
            let raised : err f ≡ ok b' = rw (bucket_all, k) at h in ground (arith, raised)
      ]

  -- A bucket of the start of a tick holds its middle price.
  abbrev Kept : ℕ → ℕ → Buckets F T → Tick F → Type 0
  Kept minutes seconds b (t, m) =
      (start : T) × (bucket_start timing minutes seconds t ≡ ok start)
      × Exists (Holds start (mid m)) b

  bucket_all-Kept :
      (minutes seconds : ℕ) (ticks : List (Tick F)) (b b' : Buckets F T)
      → bucket_all timing minutes seconds ticks b ≡ ok b'
      → All (Kept minutes seconds b') ticks
  unfolding bucket_all
  bucket_all-Kept minutes seconds [] b b' h = tt
  bucket_all-Kept minutes seconds ((t, m) ∷ ticks) b b' h =
      elim (Result-cases (bucket_start timing minutes seconds t)) [
        | inl (s, k) ↦
            let later : bucket_all timing minutes seconds ticks (add_to timing s (mid m) b)
                ≡ ok b' =
              rw (bucket_all, k) at h in
            (
              (
                s,
                k,
                bucket_all-keeps minutes seconds ticks (add_to timing s (mid m) b) b' s (mid m)
                    later (add_to-new s (mid m) b),
              ),
              bucket_all-Kept minutes seconds ticks (add_to timing s (mid m) b) b' later,
            )
        | inr (f, k) ↦
            let raised : err f ≡ ok b' = rw (bucket_all, k) at h in ground (arith, raised)
      ]

  -- A candle of the result covers a tick.
  abbrev pub IsCovered : ℕ → ℕ → List (Candle F T) → Tick F → Type 0
  IsCovered minutes seconds cs (t, m) =
      (start : T) × (bucket_start timing minutes seconds t ≡ ok start)
      × Exists (Covers start (mid m)) cs

  finish-IsCovered :
      (minutes seconds : ℕ) (events : List (Tick F)) (r : Result String (Buckets F T))
      (cs : List (Candle F T))
      → bucket_all timing minutes seconds (sorted (λ p q. timing.text_lt p.0 q.0) events) [] ≡ r
      → finish timing r ≡ ok cs
      → All (IsCovered minutes seconds cs) events
  finish-IsCovered minutes seconds events (err e) cs k h = ground (arith, h)
  finish-IsCovered minutes seconds events (ok b) cs k h =
      let before = λ (p : T × List F) (q : T × List F). timing.earlier p.0 q.0 in
      let ordered = sorted (λ p q. timing.text_lt p.0 q.0) events in
      All-map (Kept minutes seconds b) (IsCovered minutes seconds cs) events
        (λ tick (start, e, held). (
          start,
          e,
          candles_of-Covers start (mid tick.1) (by_start timing b) cs h
              (Exists-sorted (Holds start (mid tick.1)) before b held),
        ))
        (All-sorted (Kept minutes seconds b) (λ p q. timing.text_lt p.0 q.0) events
          (bucket_all-Kept minutes seconds ordered [] b k))

  -- Every tick is covered: where `aggregate_ticks_to_candles` returns, the candle of each tick's
  -- interval is in the result, and the tick's middle price is neither above its high nor below its
  -- low. (`IsOrdered` are the laws of the float order.)
  pub aggregate-IsCovered :
      (minutes seconds : ℕ) (events : List (Tick F)) (cs : List (Candle F T))
      → aggregate_ticks_to_candles timing events minutes seconds ≡ ok cs
      → All (IsCovered minutes seconds cs) events
  unfolding aggregate_ticks_to_candles
  aggregate-IsCovered minutes seconds events cs h =
      elim (Bool-cases (ltb seconds 1 && ltb minutes 1)) [
        | inl k ↦
            let raised : err "interval_minutes must be >= 1" ≡ ok cs =
              rw (aggregate_ticks_to_candles, k) at h in
            ground (arith, raised)
        | inr k ↦
            finish-IsCovered minutes seconds events
              (bucket_all timing minutes seconds (sorted (λ p q. timing.text_lt p.0 q.0) events) [])
              cs refl (rw (aggregate_ticks_to_candles, k) at h)
      ]
