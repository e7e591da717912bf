-- ===== src/PositionManager/PerStrategy.antt =====
-- polytrader/platform/performance.py: `PerStrategyPerformanceTracker`. The `PerformanceMetrics` of
-- a strategy is its peak, since its tracker is the one of `trackers`. Metrics are left out.
use polytrader.Prelude.{
  String, Option, none, some, List, [], ◌∷◌, text_eq, string_eq, pair_eq, add_item, if◌then◌else◌,
}
use polytrader.Float.{Float, nought}
use polytrader.Dict.{Dict, lookup, insert, erase}
use polytrader.Events.{outcome_eq, FillEvent, MarketDataEvent, mid}
use polytrader.Market.Store.{Key}
use polytrader.Oms.Models.{Order}
use polytrader.Portfolio.{Position, Positions}
use polytrader.PositionManager.Outcomes.{
  ClosedPosition, Closing, OutcomeTracker, new_tracker, from_position_close, record_closed_position,
  get_total_realized_pnl, update_metrics, Summary, get_summary,
}

-- (strategy_id, market_slug, outcome)
abbrev pub StrategyKey : Type 0
StrategyKey = String × Key

-- The size and the cost of all that was bought.
abbrev pub Bought : Type 0 → Type 0
Bought F = F × F

pub record StrategyTracker (F : Type 0) : Type 0 where
  pub starting_equity : F
  pub positions : Dict StrategyKey (Position F)
  pub position_fills : Dict StrategyKey (Bought F)
  pub latest_prices : Dict Key F
  pub trackers : Dict String (OutcomeTracker F)
  pub peaks : Dict String F

abbrev pub new_strategy_tracker : {F : Type 0} → F → StrategyTracker F
new_strategy_tracker starting = record {
  starting_equity = starting;
  positions = [];
  position_fills = [];
  latest_prices = [];
  trackers = [];
  peaks = [];
}

abbrev pub get_or {ℓ} : {A : Type ℓ} → A → Option A → A
get_or a none = a
get_or a (some b) = b

module _ {F : Type 0} ⦃fl : Float F⦄ where
  open fl use {add, sub, mul, div, lt}

  -- The fills of a position, with one more.
  abbrev pub cumulative : FillEvent F → Option (Bought F) → Bought F
  cumulative f none = (f.size, mul f.size f.price)
  cumulative f (some (size, cost)) = (add size f.size, add cost (mul f.size f.price))

  abbrev pub average_entry : FillEvent F → Bought F → F
  average_entry f (size, cost) = if lt nought size then div cost size else f.price

  -- An existing position keeps its target, its time and its order.
  abbrev pub bought_position :
      Key → FillEvent F → Order F → Bought F → Option (Position F) → Position F
  bought_position key f order b none = record {
    market_slug = key.0;
    outcome = key.1;
    size = b.0;
    target_price = order.intent.target_price;
    entry_price = average_entry f b;
    entry_time = f.ts_mono;
    order_id = some order.order_id;
  }
  bought_position key f order b (some p) = record p { size = b.0; entry_price = average_entry f b }

  unfoldable pub update_market_price : MarketDataEvent F → StrategyTracker F → StrategyTracker F
  update_market_price m t = record t {
    latest_prices = insert (m.market_slug, m.outcome) (mid m) t.latest_prices;
  }

  unfoldable pub record_buy_fill :
      String → Key → FillEvent F → Order F → StrategyTracker F → StrategyTracker F
  record_buy_fill id key f order t =
      let b = cumulative f (lookup (id, key) t.position_fills) in
      let p = bought_position key f order b (lookup (id, key) t.positions) in
      record t {
        position_fills = insert (id, key) b t.position_fills;
        positions = insert (id, key) p t.positions;
      }

module _ {F : Type 0} where
  abbrev pub tracker_of : String → StrategyTracker F → OutcomeTracker F
  tracker_of id t = get_or new_tracker (lookup id t.trackers)

  abbrev forget : StrategyKey → StrategyTracker F → StrategyTracker F
  forget k t = record t {
    positions = erase k t.positions;
    position_fills = erase k t.position_fills;
  }

  abbrev pub closing_of : Key → Position F → F → F → Closing F
  closing_of key p exit_price exit_time = record {
    market_slug = key.0;
    outcome = key.1;
    entry_price = p.entry_price;
    exit_price = exit_price;
    size = p.size;
    entry_time = p.entry_time;
    exit_time = exit_time;
  }

  -- The positions of one strategy.
  abbrev pub positions_from : String → Dict StrategyKey (Position F) → Positions F
  positions_from id [] = []
  positions_from id (((sid, key), p) ∷ ps) =
      let rest = positions_from id ps in if text_eq sid id then (key, p) ∷ rest else rest

  abbrev pub get_positions_of : String → StrategyTracker F → Positions F
  get_positions_of id t = positions_from id t.positions

  abbrev open_strategies : Dict StrategyKey (Position F) → List String
  open_strategies [] = []
  open_strategies (((sid, _), _) ∷ ps) = add_item sid (open_strategies ps)

  abbrev traded : Dict String (OutcomeTracker F) → List String → List String
  traded [] s = s
  traded ((sid, _) ∷ ts) s = traded ts (add_item sid s)

  -- `list_strategies`, before the texts are sorted.
  abbrev pub list_strategies : StrategyTracker F → List String
  list_strategies t = traded t.trackers (open_strategies t.positions)

module _ {F : Type 0} ⦃fl : Float F⦄ where
  open fl use {add, sub, mul}

  abbrev worth : F → Key → Position F → Dict Key F → F
  worth total key p prices =
      add total (mul (sub (get_or p.entry_price (lookup key prices)) p.entry_price) p.size)

  -- The loop that adds up what the open positions have gained.
  abbrev pub unrealized_from : F → Positions F → Dict Key F → F
  unrealized_from total [] prices = total
  unrealized_from total ((key, p) ∷ ps) prices =
      unrealized_from (worth total key p prices) ps prices

  unfoldable pub strategy_unrealized_pnl : String → StrategyTracker F → F
  strategy_unrealized_pnl id t =
      unrealized_from nought (positions_from id t.positions) t.latest_prices

  abbrev pub peak_of : String → StrategyTracker F → F
  peak_of id t = get_or nought (lookup id t.peaks)

module _ {F : Type 0} ⦃fl : Float F⦄ (sum_of : List F → F) where
  -- `record_closed_position` and `update_metrics` of the strategy.
  abbrev pub close_for : String → Closing F → StrategyTracker F → StrategyTracker F
  close_for id c t =
      let tracker = record_closed_position c (tracker_of id t) in
      record t {
        trackers = insert id tracker t.trackers;
        peaks = insert id (update_metrics sum_of tracker (peak_of id t)).1 t.peaks;
      }

  -- The whole position goes, whatever the size of the fill.
  unfoldable pub record_sell_fill :
      String → Key → FillEvent F → StrategyTracker F → Option (ClosedPosition F) × StrategyTracker F
  record_sell_fill id key f t = elim (lookup (id, key) t.positions) [
    | none ↦ (none, t)
    | some p ↦
        let c = closing_of key p f.price f.ts_mono in
        (some (from_position_close c), close_for id c (forget (id, key) t))
  ]

  unfoldable pub close_position_settlement :
      String → Key → Closing F → StrategyTracker F → StrategyTracker F
  close_position_settlement id key c t = elim (lookup (id, key) t.positions) [
    | none ↦ t
    | some _ ↦ close_for id c (forget (id, key) t)
  ]

  abbrev pub calculate_realized_pnl : String → StrategyTracker F → F
  calculate_realized_pnl id t = get_total_realized_pnl sum_of (tracker_of id t)

  -- A summary moves the strategy's peak.
  unfoldable pub get_performance_summary :
      String → Option F → StrategyTracker F → Summary F × StrategyTracker F
  get_performance_summary id starting t =
      let equity = get_or t.starting_equity starting in
      let (summary, peak) =
        get_summary sum_of (tracker_of id t) equity (strategy_unrealized_pnl id t) (peak_of id t) in
      (
        summary,
        record t {
          trackers = insert id (tracker_of id t) t.trackers;
          peaks = insert id peak t.peaks;
        },
      )
