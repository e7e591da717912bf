-- ===== src/Risk/Policies.antt =====
-- polytrader/risk/policies.py: the policies, but for those of the price and of the position, which
-- are in the children Price and Position. `now` is the reading of the clock by a policy that reads
-- it (an injected one, or `time.monotonic`).
pub mod Price
pub mod Position
pub mod Exact
use polytrader.Prelude.{
  String, ℕ, Bool, true, false, not, Option, none, some, List, [], ◌∷◌, string_eq, pair_eq, member,
  leb, if◌then◌else◌,
}
use polytrader.Float.{Float, nought, one}
use polytrader.Dict.{Dict, lookup}
use polytrader.Events.{
  Outcome, outcome_eq, Side, buy, sell, is_buy, OrderIntentEvent, MarketDataEvent, mid,
}
use polytrader.Risk.Models.{
  RiskReasonCode, proposal_expired, invalid_size, max_position, max_notional, order_too_large,
  insufficient_tokens, price_out_of_bounds, rate_limit, data_stale, kill_switch,
  reconcile_divergence, strategy_not_active, risk_allowed, Value, number, count, text, flag,
  outcome_value, texts, RiskResult, RiskLimits, RiskContext, Holding, Trade,
}

module _ {F : Type 0} where
  abbrev pub denial : RiskReasonCode → Dict String (Value F) → Dict String (Value F) → RiskResult F
  denial code projections metadata = record {
    allowed = false;
    reason_codes = code ∷ [];
    projections = projections;
    metadata = metadata;
  }

  abbrev pub allowance : Dict String (Value F) → Dict String (Value F) → RiskResult F
  allowance projections metadata = record {
    allowed = true;
    reason_codes = risk_allowed ∷ [];
    projections = projections;
    metadata = metadata;
  }

module _ {F : Type 0} ⦃fl : Float F⦄ where
  open fl use {add, sub, mul, neg, abs, lt, le}

  -- `current_time - intent.ts_mono`, and the same of the market data.
  abbrev pub age_at : F → F → F
  age_at now ts = sub now ts

  unfoldable pub check_proposal_validity : F → RiskContext F → RiskLimits F → RiskResult F
  check_proposal_validity now context limits =
      let intent = context.intent in
      let age = age_at now intent.ts_mono in
      if lt intent.ttl_s age
      then denial proposal_expired [] (
          ("proposal_age_seconds", number age) ∷ ("proposal_ttl_seconds", number intent.ttl_s) ∷ [])
      else if le intent.size nought
      then denial invalid_size [] (("proposal_size", number intent.size) ∷ [])
      else if lt limits.max_order_size intent.size
      then denial order_too_large [] (
          ("proposal_size", number intent.size)
          ∷ ("max_order_size", number limits.max_order_size)
          ∷ ("limits_version", text limits.version)
          ∷ [])
      else allowance [] []

  abbrev pub holding_of : OrderIntentEvent F → Holding
  holding_of intent = (intent.market_slug, intent.outcome)

  abbrev pub trade_of : OrderIntentEvent F → Trade
  trade_of intent = (intent.strategy_id, holding_of intent)

  unfoldable pub check_token_ownership : RiskContext F → RiskLimits F → RiskResult F
  check_token_ownership context limits =
      let intent = context.intent in
      if is_buy intent.side
      then allowance [] []
      else if member (holding_of intent) context.owned_tokens
      then allowance [] []
      else denial insufficient_tokens [] (
          ("market_slug", text intent.market_slug) ∷ ("outcome", outcome_value intent.outcome) ∷ [])

  abbrev pub freshness_of :
      F → Option (MarketDataEvent F) → OrderIntentEvent F → RiskLimits F → RiskResult F
  freshness_of now none intent limits = denial data_stale [] (
      ("market_slug", text intent.market_slug)
      ∷ ("reason", text "No market data available")
      ∷ ("limits_version", text limits.version)
      ∷ [])
  freshness_of now (some market_data) intent limits =
      let data_age = age_at now market_data.ts_mono in
      if lt limits.max_data_staleness_seconds data_age
      then denial data_stale [] (
          ("data_age_seconds", number data_age)
          ∷ ("max_staleness_seconds", number limits.max_data_staleness_seconds)
          ∷ ("limits_version", text limits.version)
          ∷ [])
      else allowance [] []

  unfoldable pub check_data_freshness : F → RiskContext F → RiskLimits F → RiskResult F
  check_data_freshness now context limits =
      freshness_of now context.market_data context.intent limits

  unfoldable pub check_max_trades_per_market : RiskContext F → RiskLimits F → RiskResult F
  check_max_trades_per_market context limits =
      let intent = context.intent in
      if not (is_buy intent.side)
      then allowance [] []
      else if member (trade_of intent) context.executed_trades
      then denial max_position [] (
          ("strategy_id", text intent.strategy_id)
          ∷ ("market_slug", text intent.market_slug)
          ∷ ("outcome", outcome_value intent.outcome)
          ∷ ("max_trades_per_market", count limits.max_trades_per_market)
          ∷ ("limits_version", text limits.version)
          ∷ [])
      else allowance [] []

  unfoldable pub check_system_health : RiskContext F → RiskLimits F → RiskResult F
  check_system_health context limits =
      if context.kill_switch_active
      then denial kill_switch []
          (("kill_switch_active", flag true) ∷ ("limits_version", text limits.version) ∷ [])
      else if context.circuit_breaker_active
      then denial reconcile_divergence []
          (("circuit_breaker_active", flag true) ∷ ("limits_version", text limits.version) ∷ [])
      else if not context.reconciliation_healthy
      then denial reconcile_divergence []
          (("reconciliation_healthy", flag false) ∷ ("limits_version", text limits.version) ∷ [])
      else allowance [] []

  unfoldable pub check_strategy_activation : RiskContext F → RiskLimits F → RiskResult F
  check_strategy_activation context limits =
      if context.is_paper_mode
      then allowance [] []
      else if not (member context.intent.strategy_id context.active_strategies)
      then denial strategy_not_active [] (
          ("strategy_id", text context.intent.strategy_id)
          ∷ ("active_strategies", texts context.active_strategies)
          ∷ ("is_paper_mode", flag false)
          ∷ [])
      else allowance [] []

  unfoldable pub check_rate_limits : RiskContext F → RiskLimits F → RiskResult F
  check_rate_limits context limits =
      if leb limits.order_rate_limit_per_minute context.order_count_last_minute
      then denial rate_limit [] (
          ("order_count_last_minute", count context.order_count_last_minute)
          ∷ ("order_rate_limit", count limits.order_rate_limit_per_minute)
          ∷ ("limits_version", text limits.version)
          ∷ [])
      else allowance [] []
