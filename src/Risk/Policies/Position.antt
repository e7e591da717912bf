-- ===== src/Risk/Policies/Position.antt =====
-- polytrader/risk/policies.py: `check_position_limits`.
use polytrader.Prelude.{
  String, Bool, true, false, Option, none, some, [], ◌∷◌, string_eq, pair_eq, if◌then◌else◌,
}
use polytrader.Float.{Float, nought}
use polytrader.Dict.{Dict, lookup}
use polytrader.Events.{outcome_eq, Side, buy, sell, is_buy, MarketDataEvent, mid}
use polytrader.Risk.Models.{
  max_position, max_notional, Value, number, text, RiskResult, RiskLimits, RiskContext,
}
use polytrader.Risk.Policies.{denial, allowance, holding_of}

module _ {F : Type 0} ⦃fl : Float F⦄ where
  open fl use {add, sub, mul, neg, abs, lt, le}

  abbrev pub or_nought : Option F → F
  or_nought none = nought
  or_nought (some x) = x

  -- A position after the order: bought more of, or sold, but not below zero.
  abbrev pub position_after : Side → F → F → F
  position_after buy size position = add position size
  position_after sell size position =
      let rest = sub position size in if lt rest nought then nought else rest

  abbrev pub current_position : RiskContext F → F
  current_position context =
      or_nought (lookup (holding_of context.intent) context.current_positions)

  abbrev pub new_position : RiskContext F → F
  new_position context =
      position_after context.intent.side context.intent.size (current_position context)

  abbrev pub new_global_position : RiskContext F → F
  new_global_position context =
      position_after context.intent.side context.intent.size context.global_position

  abbrev pub signed_size : Side → F → F
  signed_size buy size = size
  signed_size sell size = neg size

  abbrev pub position_entries : RiskContext F → Dict String (Value F)
  position_entries context =
      ("current_position", number (current_position context))
      ∷ ("new_position", number (new_position context))
      ∷ ("position_delta", number (signed_size context.intent.side context.intent.size))
      ∷ []

  abbrev pub global_entries : RiskContext F → Dict String (Value F)
  global_entries context =
      ("current_position", number (current_position context))
      ∷ ("new_position", number (new_position context))
      ∷ ("position_delta", number (signed_size context.intent.side context.intent.size))
      ∷ ("current_global_position", number context.global_position)
      ∷ ("new_global_position", number (new_global_position context))
      ∷ []

  abbrev pub limit_entries : String → F → String → F → RiskLimits F → Dict String (Value F)
  limit_entries name value limit_name limit limits =
      (name, number value)
      ∷ (limit_name, number limit)
      ∷ ("limits_version", text limits.version)
      ∷ []

  abbrev pub mid_entry : Option (MarketDataEvent F) → Dict String (Value F) → Dict String (Value F)
  mid_entry none entries = entries
  mid_entry (some market_data) entries = ("mid_price", number (mid market_data)) ∷ entries

  abbrev pub position_allowance : RiskContext F → RiskLimits F → RiskResult F
  position_allowance context limits = allowance (global_entries context) (
      mid_entry context.market_data (
        ("qty", number context.intent.size)
        ∷ ("projected_position", number (new_position context))
        ∷ ("limits_version", text limits.version)
        ∷ []))

  -- The notional exposure, which only a BUY is checked for.
  abbrev pub check_notional : Bool → RiskContext F → RiskLimits F → RiskResult F
  check_notional false context limits = position_allowance context limits
  check_notional true context limits =
      if lt limits.max_notional_exposure (new_global_position context)
      then denial max_notional (global_entries context) (
          limit_entries "new_notional_exposure" (new_global_position context)
            "max_notional_exposure" limits.max_notional_exposure limits)
      else position_allowance context limits

  unfoldable pub check_position_limits : RiskContext F → RiskLimits F → RiskResult F
  check_position_limits context limits =
      if lt limits.max_position_per_market (abs (new_position context))
      then denial max_position (position_entries context) (
          limit_entries "new_position" (new_position context) "max_position_per_market"
            limits.max_position_per_market limits)
      else if lt limits.max_position_global (new_global_position context)
      then denial max_position (global_entries context) (
          limit_entries "new_global_position" (new_global_position context) "max_position_global"
            limits.max_position_global limits)
      else check_notional (is_buy context.intent.side) context limits
