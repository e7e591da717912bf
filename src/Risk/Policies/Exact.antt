-- ===== src/Risk/Policies/Exact.antt =====
-- When a policy of polytrader/risk/policies.py allows an order, in terms of the order, the limits
-- and the state it is checked in. The description computes ages, positions and prices itself, with
-- none of the policies' helpers.
use polytrader.Prelude.{
  ◌<◌, ◌≡◌, ◌↔◌, refl, Bool, true, false, not, ◌||◌, ◌&&◌, Option, none, some, string_eq, pair_eq,
  member, arith,
}
use polytrader.Float.{Float, nought, one, max_of}
use polytrader.Dict.{lookup}
use polytrader.Events.{outcome_eq, Side, buy, sell, is_buy, OrderIntentEvent, MarketDataEvent, mid}
use polytrader.Risk.Models.{RiskLimits, RiskContext}
use polytrader.Risk.Policies.{
  check_proposal_validity, check_system_health, check_data_freshness, check_token_ownership,
  check_strategy_activation, check_max_trades_per_market, check_rate_limits, freshness_of,
}
use polytrader.Risk.Policies.Price.{check_price_sanity, price_against}
use polytrader.Risk.Policies.Position.{check_position_limits}

module _ {F : Type 0} ⦃fl : Float F⦄ where
  open fl use {add, sub, mul, div, abs, lt, le, of_nat}

  pub record IsTimely (now : F) (context : RiskContext F) (limits : RiskLimits F) : Type 0 where
    pub unexpired : lt context.intent.ttl_s (sub now context.intent.ts_mono) ≡ false
    pub sized : le context.intent.size nought ≡ false
    pub small : lt limits.max_order_size context.intent.size ≡ false

  pub check_proposal_validity-allowed :
      (now : F) (context : RiskContext F) (limits : RiskLimits F)
      → ((check_proposal_validity now context limits).allowed ≡ true) ↔ IsTimely now context limits
  unfolding check_proposal_validity
  check_proposal_validity-allowed now context limits = (
    λ h. record { unexpired = ground arith; sized = ground arith; small = ground arith },
    λ t. rw (t.unexpired, t.sized, t.small) refl,
  )

  pub record IsHealthy (context : RiskContext F) : Type 0 where
    pub no_kill : context.kill_switch_active ≡ false
    pub no_break : context.circuit_breaker_active ≡ false
    pub reconciled : context.reconciliation_healthy ≡ true

  pub check_system_health-allowed :
      (context : RiskContext F) (limits : RiskLimits F)
      → ((check_system_health context limits).allowed ≡ true) ↔ IsHealthy context
  unfolding check_system_health
  check_system_health-allowed context limits = (
    λ h. record { no_kill = ground arith; no_break = ground arith; reconciled = ground arith },
    λ t. rw (t.no_kill, t.no_break, t.reconciled) refl,
  )

  -- There is market data, and it is not stale.
  abbrev pub IsFresh : F → RiskContext F → RiskLimits F → Type 0
  IsFresh now context limits =
      (m : MarketDataEvent F) × (context.market_data ≡ some m)
      × (lt limits.max_data_staleness_seconds (sub now m.ts_mono) ≡ false)

  freshness_of-allowed :
      (now : F) (data_ : Option (MarketDataEvent F)) (intent : OrderIntentEvent F)
      (limits : RiskLimits F)
      → (freshness_of now data_ intent limits).allowed ≡ true
      → (m : MarketDataEvent F) × (data_ ≡ some m)
        × (lt limits.max_data_staleness_seconds (sub now m.ts_mono) ≡ false)
  freshness_of-allowed now none intent limits h = ground arith
  freshness_of-allowed now (some m) intent limits h = (m, refl, ground arith)

  pub check_data_freshness-allowed :
      (now : F) (context : RiskContext F) (limits : RiskLimits F)
      → ((check_data_freshness now context limits).allowed ≡ true) ↔ IsFresh now context limits
  unfolding check_data_freshness
  check_data_freshness-allowed now context limits = (
    λ h. freshness_of-allowed now context.market_data context.intent limits h,
    λ (m, known, fresh). rw (known, fresh) refl,
  )

  -- What is sold is held.
  abbrev pub IsCovered : RiskContext F → Type 0
  IsCovered context =
      let i = context.intent in
      (is_buy i.side || member (i.market_slug, i.outcome) context.owned_tokens) ≡ true

  pub check_token_ownership-allowed :
      (context : RiskContext F) (limits : RiskLimits F)
      → ((check_token_ownership context limits).allowed ≡ true) ↔ IsCovered context
  unfolding check_token_ownership
  check_token_ownership-allowed context limits = (λ h. ground arith, λ t. ground arith)

  -- In live mode, the strategy is an active one.
  abbrev pub IsActive : RiskContext F → Type 0
  IsActive context =
      (context.is_paper_mode || member context.intent.strategy_id context.active_strategies) ≡ true

  pub check_strategy_activation-allowed :
      (context : RiskContext F) (limits : RiskLimits F)
      → ((check_strategy_activation context limits).allowed ≡ true) ↔ IsActive context
  unfolding check_strategy_activation
  check_strategy_activation-allowed context limits = (λ h. ground arith, λ t. ground arith)

  -- The strategy has not bought this outcome of this market yet.
  abbrev pub IsFirst : RiskContext F → Type 0
  IsFirst context =
      let i = context.intent in
      (is_buy i.side && member (i.strategy_id, (i.market_slug, i.outcome)) context.executed_trades)
      ≡ false

  pub check_max_trades_per_market-allowed :
      (context : RiskContext F) (limits : RiskLimits F)
      → ((check_max_trades_per_market context limits).allowed ≡ true) ↔ IsFirst context
  unfolding check_max_trades_per_market
  check_max_trades_per_market-allowed context limits = (λ h. ground arith, λ t. ground arith)

  -- What is held of the order's market and outcome; nothing, where there is no entry.
  abbrev pub held : RiskContext F → F
  held context =
      elim (lookup (context.intent.market_slug, context.intent.outcome) context.current_positions) [
        | none ↦ nought
        | some size ↦ size
      ]

  -- The position in the market is within its limit after the order.
  abbrev pub in_market : Side → RiskContext F → RiskLimits F → Bool
  in_market buy context limits =
      not (lt limits.max_position_per_market (abs (add (held context) context.intent.size)))
  in_market sell context limits = not (
      lt limits.max_position_per_market
        (abs (max_of (sub (held context) context.intent.size) nought)))

  -- All positions together are within their limit after the order, and, for a BUY, within that of
  -- the exposure.
  abbrev pub in_all : Side → RiskContext F → RiskLimits F → Bool
  in_all buy context limits =
      let total = add context.global_position context.intent.size in
      not (lt limits.max_position_global total) && not (lt limits.max_notional_exposure total)
  in_all sell context limits = not (
      lt limits.max_position_global
        (max_of (sub context.global_position context.intent.size) nought))

  pub record IsBounded (context : RiskContext F) (limits : RiskLimits F) : Type 0 where
    pub market : in_market context.intent.side context limits ≡ true
    pub all : in_all context.intent.side context limits ≡ true

  pub check_position_limits-allowed :
      (context : RiskContext F) (limits : RiskLimits F)
      → ((check_position_limits context limits).allowed ≡ true) ↔ IsBounded context limits
  unfolding check_position_limits
  check_position_limits-allowed context limits = (
    λ h. record { market = ground arith; all = ground arith },
    λ t. ground (arith, t.market, t.all),
  )

  -- The limit price is within the band of its side around the middle of the book.
  abbrev pub in_band : Side → F → F → RiskLimits F → Bool
  in_band buy limit_price mid_price limits =
      not (lt (mul mid_price (add one limits.price_deviation_threshold)) limit_price)
  in_band sell limit_price mid_price limits =
      not (lt limit_price (mul mid_price (sub one limits.price_deviation_threshold)))

  abbrev pub middle : MarketDataEvent F → F
  middle m = div (add m.best_bid m.best_ask) (of_nat 2)

  abbrev pub IsPriced : RiskContext F → RiskLimits F → Type 0
  IsPriced context limits =
      (m : MarketDataEvent F)
      → context.market_data ≡ some m
      → in_band context.intent.side context.intent.limit_price (middle m) limits ≡ true

  price_against-allowed :
      (data_ : Option (MarketDataEvent F)) (intent : OrderIntentEvent F) (limits : RiskLimits F)
      → ((price_against data_ intent limits).allowed ≡ true) ↔ (
          (m : MarketDataEvent F)
          → data_ ≡ some m
          → in_band intent.side intent.limit_price (middle m) limits ≡ true)
  unfolding mid
  price_against-allowed none intent limits = (λ h m e. ground arith, λ h. refl)
  price_against-allowed (some m) intent limits =
      (λ h m' e. ground arith, λ h. ground (arith, h m refl))

  pub check_price_sanity-allowed :
      (context : RiskContext F) (limits : RiskLimits F)
      → ((check_price_sanity context limits).allowed ≡ true) ↔ IsPriced context limits
  unfolding check_price_sanity
  check_price_sanity-allowed context limits =
      price_against-allowed context.market_data context.intent limits

  pub check_rate_limits-allowed :
      (context : RiskContext F) (limits : RiskLimits F)
      → ((check_rate_limits context limits).allowed ≡ true)
        ↔ (context.order_count_last_minute < limits.order_rate_limit_per_minute)
  unfolding check_rate_limits
  check_rate_limits-allowed context limits = (λ h. ground arith, λ t. ground arith)
