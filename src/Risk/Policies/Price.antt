-- ===== src/Risk/Policies/Price.antt =====
-- polytrader/risk/policies.py: `check_price_sanity`.
use polytrader.Prelude.{
  String, Bool, true, false, Option, none, some, [], ◌∷◌, string_eq, pair_eq, if◌then◌else◌,
}
use polytrader.Float.{Float, one}
use polytrader.Events.{outcome_eq, is_buy, OrderIntentEvent, MarketDataEvent, mid}
use polytrader.Risk.Models.{price_out_of_bounds, number, text, RiskResult, RiskLimits, RiskContext}
use polytrader.Risk.Policies.{denial, allowance}

module _ {F : Type 0} ⦃fl : Float F⦄ where
  open fl use {add, sub, mul, neg, abs, lt, le}

  -- `mid * (1 + d)` and `mid * (1 - d)`
  abbrev pub max_buy_price : F → RiskLimits F → F
  max_buy_price mid_price limits = mul mid_price (add one limits.price_deviation_threshold)

  abbrev pub min_sell_price : F → RiskLimits F → F
  min_sell_price mid_price limits = mul mid_price (sub one limits.price_deviation_threshold)

  abbrev pub out_of_bounds : String → F → F → OrderIntentEvent F → RiskLimits F → RiskResult F
  out_of_bounds bound_name bound mid_price intent limits = denial price_out_of_bounds [] (
      ("limit_price", number intent.limit_price)
      ∷ ("mid_price", number mid_price)
      ∷ (bound_name, number bound)
      ∷ ("deviation", number (abs (sub intent.limit_price mid_price)))
      ∷ ("max_deviation", number limits.price_deviation_threshold)
      ∷ ("limits_version", text limits.version)
      ∷ [])

  abbrev pub within_bounds : F → OrderIntentEvent F → RiskLimits F → RiskResult F
  within_bounds mid_price intent limits = allowance [] (
      ("mid_price", number mid_price)
      ∷ ("qty", number intent.size)
      ∷ ("limits_version", text limits.version)
      ∷ [])

  -- The price bands of one side.
  abbrev pub check_bands : Bool → F → OrderIntentEvent F → RiskLimits F → RiskResult F
  check_bands true mid_price intent limits =
      if lt (max_buy_price mid_price limits) intent.limit_price
      then out_of_bounds "max_buy_price" (max_buy_price mid_price limits) mid_price intent limits
      else within_bounds mid_price intent limits
  check_bands false mid_price intent limits =
      if lt intent.limit_price (min_sell_price mid_price limits)
      then out_of_bounds "min_sell_price" (min_sell_price mid_price limits) mid_price intent limits
      else within_bounds mid_price intent limits

  abbrev pub price_against :
      Option (MarketDataEvent F) → OrderIntentEvent F → RiskLimits F → RiskResult F
  price_against none intent limits = allowance [] []
  price_against (some market_data) intent limits =
      check_bands (is_buy intent.side) (mid market_data) intent limits

  unfoldable pub check_price_sanity : RiskContext F → RiskLimits F → RiskResult F
  check_price_sanity context limits = price_against context.market_data context.intent limits
