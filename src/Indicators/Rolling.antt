-- ===== src/Indicators/Rolling.antt =====
-- polytrader/indicators/rolling.py, atr.py, typical_price.py and primitives.py. `sum_of` is
-- Python's `sum` of floats, which compensates for rounding. A window below 1 is 0 here.
use polytrader.Prelude.{
  ℕ, zero, suc, ◌+◌, ◌-◌, String, Bool, not, ◌&&◌, ◌||◌, List, [], ◌∷◌, ◌++◌, map, length, ltb, leb,
  if◌then◌else◌, text_eq,
}
use polytrader.Float.{Float, nought, one, max_of}
use polytrader.Effect.{Result, ok, err}
use polytrader.Indicators.Candles.{Candle}

-- `range(n)`, counted from k.
abbrev pub range_from : ℕ → ℕ → List ℕ
range_from k zero = []
range_from k (suc n) = k ∷ range_from (suc k) n

abbrev pub take {ℓ} : {A : Type ℓ} → ℕ → List A → List A
take zero _ = []
take (suc n) [] = []
take (suc n) (x ∷ xs) = x ∷ take n xs

abbrev pub drop {ℓ} : {A : Type ℓ} → ℕ → List A → List A
drop zero xs = xs
drop (suc n) [] = []
drop (suc n) (x ∷ xs) = drop n xs

-- `xs[k : k + n]`
abbrev pub slice {ℓ} : {A : Type ℓ} → List A → ℕ → ℕ → List A
slice xs k n = take n (drop k xs)

-- `[x] * n`
abbrev pub repeat {ℓ} : {A : Type ℓ} → A → ℕ → List A
repeat x zero = []
repeat x (suc n) = x ∷ repeat x n

module _ {F : Type 0} ⦃fl : Float F⦄ (sum_of : List F → F) where
  open fl use {of_nat, add, sub, mul, div, le, lt, abs}

  abbrev pub window_error : {A : Type 0} → Result String A
  window_error = err "window must be >= 1"

  abbrev pub mean_at : List F → ℕ → ℕ → F
  mean_at values window k = div (sum_of (slice values k window)) (of_nat window)

  unfoldable pub rolling_mean : List F → ℕ → Result String (List F)
  rolling_mean values window =
      if ltb window 1
      then window_error
      else if ltb (length values) window
      then ok []
      else ok (map (mean_at values window) (range_from 0 (length values - window + 1)))

  -- The loop of `ema`, from the result before.
  unfoldable pub ema_from : F → F → List F → List F
  ema_from alpha previous [] = []
  ema_from alpha previous (x ∷ xs) =
      let next = add (mul alpha x) (mul (sub one alpha) previous) in next ∷ ema_from alpha next xs

  unfoldable pub ema : List F → ℕ → Result String (List F)
  ema [] window = if ltb window 1 then window_error else ok []
  ema (x ∷ xs) window =
      if ltb window 1
      then window_error
      else ok (x ∷ ema_from (div (of_nat 2) (of_nat (window + 1))) x xs)

  -- The true ranges after the first, from the close before: `max` of three.
  abbrev pub true_ranges : F → List F → List F → List F → List F
  true_ranges previous (h ∷ hs) (l ∷ ls) (c ∷ cs) =
      max_of (max_of (sub h l) (abs (sub h previous))) (abs (sub l previous))
      ∷ true_ranges c hs ls cs
  true_ranges _ _ _ _ = []

  abbrev pub ranges : List F → List F → List F → List F
  ranges (h ∷ hs) (l ∷ ls) (c ∷ cs) = sub h l ∷ true_ranges c hs ls cs
  ranges _ _ _ = []

  -- Wilder's smoothing, from the result before.
  abbrev pub smoothed : ℕ → F → List F → List F
  smoothed window previous [] = []
  smoothed window previous (x ∷ xs) =
      let next = div (add (mul previous (of_nat (window - 1))) x) (of_nat window) in
      next ∷ smoothed window next xs

  abbrev pub first_average : ℕ → List F → F
  first_average window tr = div (sum_of (take window tr)) (of_nat window)

  abbrev pub averages : ℕ → List F → List F
  averages window tr =
      let first = first_average window tr in
      repeat nought (window - 1) ++ (first ∷ smoothed window first (drop window tr))

  abbrev pub differ : ℕ → ℕ → Bool
  differ m n = not (leb m n && leb n m)

  unfoldable pub atr : List F → List F → List F → ℕ → Result String (List F)
  atr high low close window =
      if ltb window 1
      then window_error
      else if differ (length low) (length high) || differ (length close) (length high)
      then err "high, low, close must have same length"
      else if ltb (length high) 1
      then ok []
      else if ltb (length high) window
      then ok (repeat nought (length high))
      else ok (averages window (ranges high low close))

  abbrev pub typical_price : F → F → F → F
  typical_price high low close = div (add (add high low) close) (of_nat 3)

  abbrev pub deviation_z : F → F → F → F
  deviation_z value anchor scale = if le scale nought then nought else div (sub value anchor) scale

  abbrev pub typical_prices : {T : Type 0} → List (Candle F T) → List F
  typical_prices [] = []
  typical_prices (c ∷ cs) = typical_price c.high c.low c.close ∷ typical_prices cs

  abbrev pub padded : ℕ → Result String (List F) → Result String (List F)
  padded n (ok rm) = ok (repeat nought n ++ rm)
  padded n (err e) = err e

  unfoldable pub fair_price_anchor :
      {T : Type 0} → List (Candle F T) → String → ℕ → Result String (List F)
  fair_price_anchor candles method window =
      if ltb window 1
      then window_error
      else if not (text_eq method "rolling_mean")
      then err "method must be 'rolling_mean'"
      else if ltb (length candles) 1
      then ok []
      else padded (window - 1) (rolling_mean (typical_prices candles) window)

  -- The three series go on to the end of the volatilities, which is that of the others.
  abbrev pub strengths : List F → List F → List F → List F
  strengths (f ∷ fs) (s ∷ ss) (v ∷ vs) =
      (if le v nought then nought else div (abs (sub f s)) v) ∷ strengths fs ss vs
  strengths _ _ _ = []

  abbrev strengths_of :
      Result String (List F) → Result String (List F) → List F → Result String (List F)
  strengths_of (ok fast) (ok slow) volatility = ok (strengths fast slow volatility)
  strengths_of (err e) _ _ = err e
  strengths_of (ok _) (err e) _ = err e

  unfoldable pub trend_strength_ema_gap : List F → ℕ → ℕ → List F → Result String (List F)
  trend_strength_ema_gap close fast slow volatility =
      if ltb fast 1
      then err "fast must be >= 1"
      else if ltb slow 1
      then err "slow must be >= 1"
      else if differ (length volatility) (length close)
      then err "close_series and volatility_series must have same length"
      else strengths_of (ema close fast) (ema close slow) volatility
