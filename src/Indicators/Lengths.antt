-- ===== src/Indicators/Lengths.antt =====
-- The series of polytrader/indicators are as long as what they are computed from.
use polytrader.Prelude.{
  ℕ, zero, suc, ◌+◌, ◌-◌, ◌≤◌, String, ◌≡◌, refl, sym, ap, ◌∙◌, true, false, ◌||◌, List, [], ◌∷◌,
  ◌++◌, map, length, length-map, length-append, ltb, if◌then◌else◌, Bool-cases, inl, inr, arith,
  text_eq, string_eq, ==_refl,
}
use polytrader.Float.{Float, nought}
use polytrader.Effect.{Result, ok}
use polytrader.Indicators.Candles.{Candle}
use polytrader.Indicators.Rolling.{
  range_from, drop, repeat, rolling_mean, ema_from, ema, true_ranges, ranges, smoothed, averages,
  mean_at, first_average, differ, atr, typical_prices, padded, fair_price_anchor, strengths,
  trend_strength_ema_gap,
}

module _ {A : Type 0} where
  length-repeat : (x : A) (n : ℕ) → length (repeat x n) ≡ n
  length-repeat x zero = refl
  length-repeat x (suc n) = ap suc (length-repeat x n)

  length-drop : (n : ℕ) (xs : List A) → length (drop n xs) ≡ length xs - n
  length-drop zero xs = omega arith
  length-drop (suc n) [] = omega arith
  length-drop (suc n) (x ∷ xs) = omega (arith, length-drop n xs)

length-range_from : (k n : ℕ) → length (range_from k n) ≡ n
length-range_from k zero = refl
length-range_from k (suc n) = ap suc (length-range_from (suc k) n)

rolling_mean_eq : text_eq "rolling_mean" "rolling_mean" ≡ true
rolling_mean_eq = ==_refl {A = String} "rolling_mean"

module _ {F : Type 0} ⦃fl : Float F⦄ (sum_of : List F → F) where
  -- A mean at every place where a whole window ends.
  length-rolling_mean :
      (values : List F) (window : ℕ)
      → 1 ≤ window
      → (means : List F) × (rolling_mean sum_of values window ≡ ok means)
        × (length means ≡ length values + 1 - window)
  unfolding rolling_mean
  length-rolling_mean values window h =
      let positive : ltb window 1 ≡ false = ground (arith, h) in
      elim (Bool-cases (ltb (length values) window)) [
        | inl k ↦ rw (positive, k) ([], refl, ground (arith, k))
        | inr k ↦
            let n = length values - window + 1 in
            let f = mean_at sum_of values window in
            rw (positive, k)
              (
                map f (range_from 0 n),
                refl,
                length-map f (range_from 0 n) ∙ length-range_from 0 n ∙ ground (arith, k),
              )
      ]

  length-ema_from :
      (alpha : F) (xs : List F) (previous : F)
      → length (ema_from sum_of alpha previous xs) ≡ length xs
  unfolding ema_from
  length-ema_from alpha [] previous = refl
  length-ema_from alpha (x ∷ xs) previous = ap suc (length-ema_from alpha xs _)

  length-ema :
      (values : List F) (window : ℕ)
      → 1 ≤ window
      → (means : List F) × (ema sum_of values window ≡ ok means) × (length means ≡ length values)
  unfolding ema
  length-ema [] window h =
      let positive : ltb window 1 ≡ false = ground (arith, h) in rw (positive) ([], refl, refl)
  length-ema (x ∷ xs) window h =
      let positive : ltb window 1 ≡ false = ground (arith, h) in
      rw (positive) (_, refl, ap suc (length-ema_from _ xs x))

  length-smoothed :
      (w : ℕ) (xs : List F) (previous : F) → length (smoothed sum_of w previous xs) ≡ length xs
  length-smoothed w [] previous = refl
  length-smoothed w (x ∷ xs) previous = ap suc (length-smoothed w xs _)

  length-true_ranges :
      (previous : F) (hs ls cs : List F)
      → length ls ≡ length hs
      → length cs ≡ length hs
      → length (true_ranges sum_of previous hs ls cs) ≡ length hs
  length-true_ranges previous [] ls cs h k = ground (arith, h, k)
  length-true_ranges previous (a ∷ hs) [] cs h k = ground (arith, h)
  length-true_ranges previous (a ∷ hs) (b ∷ ls) [] h k = ground (arith, k)
  length-true_ranges previous (a ∷ hs) (b ∷ ls) (c ∷ cs) h k =
      ap suc (length-true_ranges c hs ls cs (omega (arith, h)) (omega (arith, k)))

  length-ranges :
      (hs ls cs : List F)
      → length ls ≡ length hs
      → length cs ≡ length hs
      → length (ranges sum_of hs ls cs) ≡ length hs
  length-ranges [] ls cs h k = ground (arith, h, k)
  length-ranges (a ∷ hs) [] cs h k = ground (arith, h)
  length-ranges (a ∷ hs) (b ∷ ls) [] h k = ground (arith, k)
  length-ranges (a ∷ hs) (b ∷ ls) (c ∷ cs) h k =
      ap suc (length-true_ranges c hs ls cs (omega (arith, h)) (omega (arith, k)))

  length-averages :
      (w : ℕ) (tr : List F) → 1 ≤ w → w ≤ length tr → length (averages sum_of w tr) ≡ length tr
  length-averages w tr h k =
      let first = first_average sum_of w tr in
      length-append (repeat nought (w - 1)) (first ∷ smoothed sum_of w first (drop w tr))
      ∙ omega (
        arith,
        h,
        k,
        length-repeat nought (w - 1),
        length-smoothed w (drop w tr) first,
        length-drop w tr,
      )

  -- `atr` returns, and gives one value for each place.
  length-atr :
      (hs ls cs : List F) (w : ℕ)
      → 1 ≤ w
      → length ls ≡ length hs
      → length cs ≡ length hs
      → (values : List F) × (atr sum_of hs ls cs w ≡ ok values) × (length values ≡ length hs)
  unfolding atr
  length-atr hs ls cs w h k l =
      let positive : ltb w 1 ≡ false = ground (arith, h) in
      let alike : (differ sum_of (length ls) (length hs) || differ sum_of (length cs) (length hs))
          ≡ false =
        ground (arith, k, l) in
      elim (Bool-cases (ltb (length hs) 1)) [
        | inl n ↦ rw (positive, alike, n) ([], refl, ground (arith, n))
        | inr n ↦ elim (Bool-cases (ltb (length hs) w)) [
          | inl m ↦
              rw (positive, alike, n, m)
                (repeat nought (length hs), refl, length-repeat nought (length hs))
          | inr m ↦
              rw (positive, alike, n, m)
                (
                  averages sum_of w (ranges sum_of hs ls cs),
                  refl,
                  length-averages w (ranges sum_of hs ls cs) h
                        (ground (arith, m, length-ranges hs ls cs k l))
                      ∙ length-ranges hs ls cs k l,
                )
        ]
      ]

  length-typical_prices :
      {T : Type 0} (cs : List (Candle F T)) → length (typical_prices sum_of cs) ≡ length cs
  length-typical_prices [] = refl
  length-typical_prices (c ∷ cs) = ap suc (length-typical_prices cs)

  length-padded :
      (n : ℕ) (values : List F) (r : Result String (List F))
      → r ≡ ok values
      → (all : List F) × (padded sum_of n r ≡ ok all) × (length all ≡ n + length values)
  length-padded n values r h = rw (h) (
    repeat nought n ++ values,
    refl,
    length-append (repeat nought n) values ∙ ap (λ k. k + length values) (length-repeat nought n),
  )

  -- The anchor has a value for each candle, if there are as many as the window; for fewer candles,
  -- but at least one, it has one value less than the window, whatever their number.
  length-fair_price_anchor :
      {T : Type 0} (cs : List (Candle F T)) (w : ℕ)
      → 1 ≤ w
      → 1 ≤ length cs
      → (values : List F) × (fair_price_anchor sum_of cs "rolling_mean" w ≡ ok values)
        × (length values ≡ (if ltb (length cs) w then w - 1 else length cs))
  unfolding fair_price_anchor
  length-fair_price_anchor cs w h k =
      let positive : ltb w 1 ≡ false = ground (arith, h) in
      let some_candle : ltb (length cs) 1 ≡ false = ground (arith, k) in
      let (means, e, n) = length-rolling_mean (typical_prices sum_of cs) w h in
      let (all, e', n') =
        length-padded (w - 1) means (rolling_mean sum_of (typical_prices sum_of cs) w) e in
      rw (positive, rolling_mean_eq, some_candle)
        (all, e', ground (arith, n, n', length-typical_prices cs, h))

  length-strengths :
      (fs ss vs : List F)
      → length fs ≡ length vs
      → length ss ≡ length vs
      → length (strengths sum_of fs ss vs) ≡ length vs
  length-strengths [] ss vs h k = omega (arith, h)
  length-strengths (f ∷ fs) [] vs h k = omega (arith, k)
  length-strengths (f ∷ fs) (s ∷ ss) [] h k = refl
  length-strengths (f ∷ fs) (s ∷ ss) (v ∷ vs) h k =
      ap suc (length-strengths fs ss vs (omega (arith, h)) (omega (arith, k)))

  length-trend :
      (close vs : List F) (fast slow : ℕ)
      → 1 ≤ fast
      → 1 ≤ slow
      → length vs ≡ length close
      → (values : List F) × (trend_strength_ema_gap sum_of close fast slow vs ≡ ok values)
        × (length values ≡ length close)
  unfolding trend_strength_ema_gap
  length-trend close vs fast slow h k l =
      let fast_given : ltb fast 1 ≡ false = ground (arith, h) in
      let slow_given : ltb slow 1 ≡ false = ground (arith, k) in
      let alike : differ sum_of (length vs) (length close) ≡ false = ground (arith, l) in
      let (fs, e, n) = length-ema close fast h in
      let (ss, e', n') = length-ema close slow k in
      rw (fast_given, slow_given, alike, e, e')
        (strengths sum_of fs ss vs, refl, length-strengths fs ss vs (n ∙ sym l) (n' ∙ sym l) ∙ l)

  -- Windows of one and more, and series of one length n, at least one value of each: the average
  -- true range and the trend strength return n values. The anchor of n candles returns n values if
  -- n reaches the window, and else one less than the window, whatever n is.
  pub series-Aligned :
      {T : Type 0} (cs : List (Candle F T)) (hs ls closes vs : List F) (w fast slow : ℕ)
      → 1 ≤ w × 1 ≤ fast × 1 ≤ slow × 1 ≤ length cs
      → (length ls ≡ length hs) × (length closes ≡ length hs) × (length vs ≡ length closes)
      → ((values : List F) × (atr sum_of hs ls closes w ≡ ok values) × (length values ≡ length hs))
        × ((values : List F) × (trend_strength_ema_gap sum_of closes fast slow vs ≡ ok values)
            × (length values ≡ length closes))
        × ((values : List F) × (fair_price_anchor sum_of cs "rolling_mean" w ≡ ok values)
            × (length values ≡ (if ltb (length cs) w then w - 1 else length cs)))
  series-Aligned cs hs ls closes vs w fast slow (h, f, s, n) (a, b, c) = (
    length-atr hs ls closes w h a b,
    length-trend closes vs fast slow f s c,
    length-fair_price_anchor cs w h n,
  )
