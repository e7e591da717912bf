-- ===== src/Execution/Pricing.antt =====
-- polytrader/execution/pricing.py and polytrader/execution/fill_models.py. A `random.Random` is its
-- state with the step of `random()`; the market data store is the quote that `latest` finds.
use polytrader.Prelude.{
  ◌≡◌, Bool, true, false, Option, none, some, ◌⊎◌, inl, inr, refl, if◌then◌else◌, Bool-cases,
}
use polytrader.Float.{Float, IsOrdered, nought, one, max_of, min_of}
use polytrader.Events.{MarketDataEvent, OrderIntentEvent, is_buy, mid}

pub data FillModel : Type 0 where
  immediate mid_price slippage : FillModel

module _ {F : Type 0} ⦃fl : Float F⦄ where
  open fl use {of_nat, add, sub, mul, div, lt}

  -- `x / 10000.0`
  abbrev pub of_bps : F → F
  of_bps x = div x (of_nat 10000)

  abbrev pub max_price : F → F → F
  max_price mid bps = mul mid (add one (of_bps bps))

  abbrev pub min_price : F → F → F
  min_price mid bps = mul mid (sub one (of_bps bps))

  unfoldable pub apply_limit_pricing : OrderIntentEvent F → F → F → F → F
  apply_limit_pricing intent mid max_buy_slippage_bps max_sell_slippage_bps =
      if is_buy intent.side
      then min_of intent.limit_price (max_price mid max_buy_slippage_bps)
      else max_of intent.limit_price (min_price mid max_sell_slippage_bps)

  abbrev pub spread : MarketDataEvent F → F
  spread m = sub m.best_ask m.best_bid

  -- The price of the `SLIPPAGE` model, before and after the clamp.
  abbrev pub slipped : OrderIntentEvent F → MarketDataEvent F → F → F
  slipped intent m slippage_bps =
      let half = div (spread m) (of_nat 2) in
      let slip = of_bps slippage_bps in
      if is_buy intent.side then add (add (mid m) half) slip else sub (sub (mid m) half) slip

  unfoldable pub clamp : F → F
  clamp p = max_of nought (min_of one p)

  abbrev pub price_at : FillModel → OrderIntentEvent F → F → MarketDataEvent F → F
  price_at immediate intent bps m = intent.limit_price
  price_at mid_price intent bps m = mid m
  price_at slippage intent bps m = clamp (slipped intent m bps)

  -- `quote` is `store.latest(intent.market_slug, intent.outcome)`.
  unfoldable pub calculate_fill_price :
      FillModel → OrderIntentEvent F → Option (MarketDataEvent F) → F → F
  calculate_fill_price model intent none bps = intent.limit_price
  calculate_fill_price model intent (some m) bps = price_at model intent bps m

  -- `should_fill` and `should_reject`: one draw, compared with a probability.
  abbrev pub happens : {G : Type 0} → (G → F × G) → F → G → Bool × G
  happens random probability g = let (x, g') = random g in (lt x probability, g')

  -- No value is below itself.
  lt_irrefl : IsOrdered F → (x : F) → lt x x ≡ false
  lt_irrefl o x = elim (Bool-cases (lt x x)) [ inl h ↦ o.lt_asymm x x h | inr h ↦ h ]

  min_of-Bounded :
      IsOrdered F
      → (x y : F)
      → (lt x (min_of x y) ≡ false)
        × (lt y (min_of x y) ≡ false)
        × ((min_of x y ≡ x) ⊎ (min_of x y ≡ y))
  min_of-Bounded o x y = elim (Bool-cases (lt y x)) [
    | inl h ↦ rw (h) (o.lt_asymm y x h, lt_irrefl o y, inr refl)
    | inr h ↦ rw (h) (lt_irrefl o x, h, inl refl)
  ]

  max_of-Bounded :
      IsOrdered F
      → (x y : F)
      → (lt (max_of x y) x ≡ false)
        × (lt (max_of x y) y ≡ false)
        × ((max_of x y ≡ x) ⊎ (max_of x y ≡ y))
  max_of-Bounded o x y = elim (Bool-cases (lt x y)) [
    | inl h ↦ rw (h) (o.lt_asymm x y h, lt_irrefl o y, inr refl)
    | inr h ↦ rw (h) (lt_irrefl o x, h, inl refl)
  ]

  -- A price is worse than a bound for the side of the order.
  abbrev pub beyond : OrderIntentEvent F → F → F → Bool
  beyond intent bound price = if is_buy intent.side then lt bound price else lt price bound

  abbrev pub band : OrderIntentEvent F → F → F → F → F
  band intent middle buy_bps sell_bps =
      if is_buy intent.side then max_price middle buy_bps else min_price middle sell_bps

  -- The adjusted limit price is one of the order's own limit and the end of the band around the
  -- middle price on the order's side, and it is worse than neither (above it for a BUY, below it
  -- for a SELL).
  pub apply_limit_pricing-Bounded :
      IsOrdered F
      → (intent : OrderIntentEvent F) (middle buy_bps sell_bps : F)
      → let price = apply_limit_pricing intent middle buy_bps sell_bps in
        (beyond intent intent.limit_price price ≡ false)
        × (beyond intent (band intent middle buy_bps sell_bps) price ≡ false)
        × ((price ≡ intent.limit_price) ⊎ (price ≡ band intent middle buy_bps sell_bps))
  unfolding apply_limit_pricing
  apply_limit_pricing-Bounded o intent middle buy_bps sell_bps =
      elim (Bool-cases (is_buy intent.side)) [
        | inl h ↦ rw (h) (min_of-Bounded o intent.limit_price (max_price middle buy_bps))
        | inr h ↦ rw (h) (max_of-Bounded o intent.limit_price (min_price middle sell_bps))
      ]

  clamp-Bounded :
      IsOrdered F
      → lt nought one ≡ true
      → (p : F) → (lt (clamp p) nought ≡ false) × (lt one (clamp p) ≡ false)
  unfolding clamp
  clamp-Bounded o h p =
      let low = max_of-Bounded o nought (min_of one p) in
      let high = min_of-Bounded o one p in
      (low.0, elim low.2 [ inl e ↦ rw (e) (o.lt_asymm nought one h) | inr e ↦ rw (e) high.0 ])

  -- Under the slippage model a fill is priced from 0 to 1, whatever the quote and the slippage, if
  -- there is a quote; without one it is priced at the limit, under every model.
  pub calculate_fill_price-Bounded :
      IsOrdered F
      → lt nought one ≡ true
      → (model : FillModel) (intent : OrderIntentEvent F) (m : MarketDataEvent F) (bps : F)
      → let price = calculate_fill_price slippage intent (some m) bps in
        (lt price nought ≡ false)
        × (lt one price ≡ false)
        × (calculate_fill_price model intent none bps ≡ intent.limit_price)
  unfolding calculate_fill_price
  calculate_fill_price-Bounded o h model intent m bps =
      let (low, high) = clamp-Bounded o h (slipped intent m bps) in (low, high, refl)
