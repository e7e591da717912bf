-- ===== src/PositionManager/Paper/Market.antt =====
-- polytrader/position_manager/paper.py: prices, the sale at the target, the end of a market, and
-- the queries of `PaperPositionManager`.
use polytrader.Prelude.{
  String, Bool, not, ◌&&◌, Option, none, some, List, [], ◌∷◌, keep_if, member, text_eq, is_truthy,
  string_eq, pair_eq, add_item, if◌then◌else◌,
}
use polytrader.Float.{Float, nought, one, max_of, ratio}
use polytrader.Dict.{Dict, lookup, insert, erase}
use polytrader.Effect.{Done, pure, modify, ◌>>◌}
use polytrader.Events.{
  Outcome, up, down, outcome_eq, sell, EventMeta, MarketDataEvent, OrderIntentEvent, mid,
}
use polytrader.Market.Store.{Key}
use polytrader.Portfolio.{Position, Positions}
use polytrader.PositionManager.Outcomes.{Closing, from_position_close, update_metrics}
use polytrader.PositionManager.PerStrategy.{get_or, closing_of, close_position_settlement}
use polytrader.PositionManager.Paper.{
  PaperManager, MarketChangeEvent, Step, price_update, publish_trade, publish_proposal,
  emit_pnl_event, record_outcome, trade_event,
}

module _ {F : Type 0} where
  -- `get_positions_for_strategy`
  abbrev opened_by : String → Dict Key String → Positions F → Positions F
  opened_by id owners [] = []
  opened_by id owners ((key, p) ∷ ps) =
      let rest = opened_by id owners ps in
      elim (lookup key owners) [
        | none ↦ rest
        | some owner ↦ if text_eq owner id then (key, p) ∷ rest else rest
      ]

  unfoldable pub get_positions_for_strategy : String → PaperManager F → Positions F
  get_positions_for_strategy id s = opened_by id s.position_strategy s.positions

  unfoldable pub get_position : String → Outcome → PaperManager F → Option (Position F)
  get_position slug outcome s = lookup (slug, outcome) s.positions

module _ {F : Type 0} ⦃fl : Float F⦄ where
  open fl use {lt, le}

  abbrev half : F
  half = ratio 1 2

  -- Between two known prices, the higher one wins.
  abbrev settled_between : Outcome → F → F → F
  settled_between up u d = if lt d u then one else nought
  settled_between down u d = if lt u d then one else nought

  abbrev settled_alone : F → F
  settled_alone x = if lt half x then one else if lt x half then nought else half

  abbrev entry_or_half : Option (Position F) → F
  entry_or_half none = half
  entry_or_half (some p) = p.entry_price

  abbrev settled_by : Option F → Option (Position F) → F
  settled_by none p = entry_or_half p
  settled_by (some x) p = settled_alone x

  abbrev settlement : Outcome → Option F → Option F → Option F → Option (Position F) → F
  settlement outcome (some u) (some d) own p = settled_between outcome u d
  settlement outcome (some u) none own p = settled_by own p
  settlement outcome none d own p = settled_by own p

  unfoldable pub determine_settlement_price : Key → PaperManager F → F
  determine_settlement_price key s =
      settlement key.1 (lookup (key.0, up) s.latest_prices) (lookup (key.0, down) s.latest_prices)
        (lookup key s.latest_prices) (lookup key s.positions)

module _ {F : Type 0} ⦃fl : Float F⦄ (sum_of : List F → F) where
  open fl use {lt, le, of_nat}

  module _ (reason_text : F → F → F → String) (meta : EventMeta F) where
    -- What the manager proposes at the target; `meta` has the correlation id of the quote.
    abbrev pub sale : MarketDataEvent F → Position F → OrderIntentEvent F
    sale m p = record {
      meta = meta;
      market_slug = m.market_slug;
      outcome = m.outcome;
      side = sell;
      target_price = p.target_price;
      limit_price =
          if lt nought m.best_bid
          then m.best_bid
          else max_of (max_of (mid m) p.target_price) (ratio 1 100);
      size = p.size;
      reason = reason_text (mid m) p.target_price p.entry_price;
      strategy_id = "position_manager";
      ttl_s = of_nat 2;
    }

    abbrev pub is_due : MarketDataEvent F → Position F → PaperManager F → Bool
    is_due m p s =
        not (member (m.market_slug, m.outcome) s.sell_pending) && le p.target_price (mid m)

    -- A position is proposed for sale once.
    unfoldable pub sell_at_target : MarketDataEvent F → Position F → Step F Done
    sell_at_target m p s =
        let key : Key = (m.market_slug, m.outcome) in
        if is_due m p s
        then publish_proposal (sale m p) (record s { sell_pending = add_item key s.sell_pending })
        else pure tt s

    abbrev pub watch : MarketDataEvent F → Option (Position F) → Step F Done
    watch m none = pure tt
    watch m (some p) = emit_pnl_event sum_of price_update >> sell_at_target m p

    unfoldable pub handle_market_data : MarketDataEvent F → Step F Done
    handle_market_data m s =
        let key : Key = (m.market_slug, m.outcome) in
        watch m (lookup key s.positions)
          (record s { latest_prices = insert key (mid m) s.latest_prices })

  module _ (exit_time : F) (correlation_id : String) where
    abbrev pub settled : Key → Position F → PaperManager F → Closing F
    settled key p s = closing_of key p (determine_settlement_price key s) exit_time

    abbrev pub opener_of : Key → PaperManager F → String
    opener_of key s = get_or "unknown" (lookup key s.position_strategy)

    -- `_sell_pending` keeps the key.
    abbrev pub drop_settled : Key → PaperManager F → PaperManager F
    drop_settled key s = record s {
      positions = erase key s.positions;
      position_fills = erase key s.position_fills;
      latest_prices = erase key s.latest_prices;
      position_strategy = erase key s.position_strategy;
    }

    abbrev pub record_settlement : Key → Closing F → PaperManager F → PaperManager F
    record_settlement key c s =
        let t = record_outcome sum_of c s in
        record t {
          per_strategy = close_position_settlement sum_of (opener_of key s) key c t.per_strategy;
        }

    unfoldable pub settle_position : Key → Position F → Step F Done
    settle_position key p s =
        let c = settled key p s in
        let event =
          trade_event sum_of (opener_of key s) (from_position_close c) "" "" correlation_id in
        (publish_trade event >> modify (drop_settled key)) (record_settlement key c s)

    unfoldable pub settle_all : Positions F → Step F Done
    settle_all [] = pure tt
    settle_all ((key, p) ∷ ps) = settle_position key p >> settle_all ps

  abbrev pub positions_in : String → PaperManager F → Positions F
  positions_in slug s = keep_if (λ e. text_eq e.0.0 slug) s.positions

  abbrev pub finish_settlement : PaperManager F → PaperManager F
  finish_settlement s = record s { peak = (update_metrics sum_of s.outcomes s.peak).1 }

  abbrev pub settle_market : F → String → Positions F → Step F Done
  settle_market exit_time correlation_id [] = pure tt
  settle_market exit_time correlation_id (e ∷ es) =
      settle_all exit_time correlation_id (e ∷ es) >> modify finish_settlement

  abbrev pub leave_market : F → String → Option String → Step F Done
  leave_market exit_time correlation_id none s = pure tt s
  leave_market exit_time correlation_id (some slug) s =
      if is_truthy slug
      then settle_market exit_time correlation_id (positions_in slug s) s
      else pure tt s

  unfoldable pub handle_market_change : F → MarketChangeEvent → Step F Done
  handle_market_change exit_time event =
      leave_market exit_time event.correlation_id event.old_market
