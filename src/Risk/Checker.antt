-- ===== src/Risk/Checker.antt =====
-- polytrader/risk/engine.py: `RiskChecker`, between the proposals and the approved orders. A
-- proposal is handled in one step, from `_build_context` to the last write of `check`, and so is an
-- executed order. Logs and metrics are left out.
pub mod Log
pub mod Once
use polytrader.Prelude.{
  String, ℕ, suc, ◌+◌, Bool, true, false, Option, none, some, List, [], ◌∷◌, ◌++◌, string_eq,
  pair_eq, add_item, discard_item, union, if◌then◌else◌,
}
use polytrader.Float.{Float, nought, one}
use polytrader.Dict.{Dict, lookup, contains, insert, erase, values}
use polytrader.Events.{
  Outcome, outcome_eq, is_buy, OrderIntentEvent, MarketDataEvent, OrderExecutedEvent,
}
use polytrader.Risk.Models.{RiskResult, RiskLimits, RiskContext, Holding, Trade}
use polytrader.Risk.Policies.{holding_of, trade_of}
use polytrader.Risk.Policies.Price.{
  check_price_sanity, max_buy_price, min_sell_price, price_against,
}
use polytrader.Risk.Policies.Position.{
  check_position_limits, new_position, new_global_position, or_nought,
}
use polytrader.Risk.Engine.{RiskPolicy, check}

-- What is published, on RISK_CHECKS and on APPROVED_PROPOSALS.
pub data Notice (F : Type 0) : Type 0 where
  risk_check : OrderIntentEvent F → RiskResult F → Notice F
  approved : OrderIntentEvent F → Notice F

pub record RiskChecker (F : Type 0) : Type 0 where
  pub executed_trades : List Trade
  pub approved_trades : List Trade
  pub approved_correlation : Dict String Trade
  pub order_count_last_minute : ℕ
  pub published : List (Notice F)

abbrev pub new_checker : {F : Type 0} → RiskChecker F
new_checker = record {
  executed_trades = [];
  approved_trades = [];
  approved_correlation = [];
  order_count_last_minute = 0;
  published = [];
}

abbrev pub owned_by : List Trade → List Holding
owned_by [] = []
owned_by ((_, holding) ∷ trades) = add_item holding (owned_by trades)

module _ {F : Type 0} where
  abbrev pub announce : Notice F → RiskChecker F → RiskChecker F
  announce n c = record c { published = c.published ++ (n ∷ []) }

module _ {F : Type 0} ⦃fl : Float F⦄ where
  open fl use {add}

  -- `if intent.side == "BUY"`: the trade is tracked.
  abbrev pub track_buy : Bool → OrderIntentEvent F → RiskChecker F → RiskChecker F
  track_buy false intent c = c
  track_buy true intent c = record c {
    approved_trades = add_item (trade_of intent) c.approved_trades;
    approved_correlation = insert intent.correlation_id (trade_of intent) c.approved_correlation;
  }

  abbrev pub approve : OrderIntentEvent F → RiskChecker F → RiskChecker F
  approve intent c = track_buy (is_buy intent.side) intent (record (announce (approved intent) c) {
    order_count_last_minute = c.order_count_last_minute + 1;
  })

  -- What `check` does with the engine's result.
  abbrev pub decide : Bool → OrderIntentEvent F → RiskChecker F → RiskChecker F
  decide true intent c = approve intent c
  decide false intent c = c

  unfoldable pub check_intent :
      List (RiskPolicy F)
      → RiskLimits F
      → (ℕ → F)
      → OrderIntentEvent F
      → RiskContext F
      → RiskChecker F
      → Bool × RiskChecker F
  check_intent policies limits now intent context c =
      let result = check policies now context limits in
      (result.allowed, decide result.allowed intent (announce (risk_check intent result) c))

  -- One dollar for each executed trade.
  abbrev pub positions_of : List Trade → Dict Holding F → Dict Holding F
  positions_of [] positions = positions
  positions_of ((_, holding) ∷ trades) positions =
      positions_of trades
        (insert holding (add (or_nought (lookup holding positions)) one) positions)

  -- `sum`, which adds from the left, from 0
  abbrev pub sum_from : F → List F → F
  sum_from total [] = total
  sum_from total (x ∷ xs) = sum_from (add total x) xs

  -- `_build_context`; `latest` is the store's last market data, or nothing without a store.
  unfoldable pub build_context :
      RiskLimits F
      → (String → Outcome → Option (MarketDataEvent F))
      → OrderIntentEvent F
      → RiskChecker F
      → RiskContext F
  build_context limits latest intent c =
      let positions = positions_of c.executed_trades [] in
      record {
        intent = intent;
        current_positions = positions;
        global_position = sum_from nought (values positions);
        open_orders = [];
        executed_trades = union c.executed_trades c.approved_trades;
        market_data = latest intent.market_slug intent.outcome;
        owned_tokens = owned_by c.executed_trades;
        kill_switch_active = false;
        circuit_breaker_active = false;
        reconciliation_healthy = true;
        order_count_last_minute = c.order_count_last_minute;
        cancel_count_last_minute = 0;
        limits_version = limits.version;
        active_strategies = [];
        is_paper_mode = true;
      }

  -- `pop` of the approval, with the fall-back to a strategy that is "unknown".
  abbrev pub settle_trade : OrderExecutedEvent F → Option Trade → RiskChecker F → RiskChecker F
  settle_trade order none c = record c {
    executed_trades = add_item ("unknown", (order.market_slug, order.outcome)) c.executed_trades;
  }
  settle_trade order (some trade) c = record c {
    approved_correlation = erase order.correlation_id c.approved_correlation;
    approved_trades = discard_item trade c.approved_trades;
    executed_trades = add_item trade c.executed_trades;
  }

  -- The body of `track_orders`
  unfoldable pub track_order : OrderExecutedEvent F → RiskChecker F → RiskChecker F
  track_order order c =
      if is_buy order.side
      then settle_trade order (lookup order.correlation_id c.approved_correlation) c
      else c

-- What the two loops of `run` take from their queues, with the clock and the market data of that
-- moment.
pub data Arrival (F : Type 0) : Type 0 where
  proposal :
      (ℕ → F) → (String → Outcome → Option (MarketDataEvent F)) → OrderIntentEvent F → Arrival F
  executed : OrderExecutedEvent F → Arrival F

module _ {F : Type 0} ⦃fl : Float F⦄ where
  unfoldable pub handle_arrival :
      List (RiskPolicy F) → RiskLimits F → Arrival F → RiskChecker F → RiskChecker F
  unfolding check_intent build_context track_order
  handle_arrival policies limits (proposal now latest intent) c =
      (check_intent policies limits now intent (build_context limits latest intent c) c).1
  handle_arrival policies limits (executed order) c = track_order order c

  -- `run`: the arrivals in the order in which the two loops take them.
  unfoldable pub run :
      List (RiskPolicy F) → RiskLimits F → List (Arrival F) → RiskChecker F → RiskChecker F
  unfolding handle_arrival
  run policies limits [] c = c
  run policies limits (a ∷ arrivals) c =
      run policies limits arrivals (handle_arrival policies limits a c)
