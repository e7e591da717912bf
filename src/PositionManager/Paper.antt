-- ===== src/PositionManager/Paper.antt =====
-- polytrader/position_manager/paper.py: `PaperPositionManager` keeps positions from fills, proposes
-- their sale at the target, and settles those of a market that ends. A handler runs as one step;
-- the bus is the list `published`, where an event has what its class adds to the base class and the
-- correlation id, if one is given. A raise is the text of pydantic's error. Logs and gauges are
-- left out, and the loops that read the queues.
pub mod Market
pub mod Keys
pub mod Loop
pub mod Consistent
pub mod Resale
pub mod Pending
pub mod Once
pub mod Settlement
use polytrader.Prelude.{
  String, ℕ, Bool, true, false, not, ◌&&◌, ◌||◌, Option, none, some, List, [], ◌∷◌, ◌++◌, length,
  member, text_eq, is_truthy, string_eq, pair_eq, add_item, discard_item, if◌then◌else◌,
}
use polytrader.Float.{Float, nought, one, max_of, ratio}
use polytrader.Dict.{Dict, lookup, contains, insert, erase}
use polytrader.Effect.{Action, Done, pure, gets, modify, raise_if, ◌>>=◌, ◌>>◌}
use polytrader.Events.{
  Outcome, up, down, outcome_eq, Side, buy, sell, EventMeta, event_meta, FillEvent, MarketDataEvent,
  OrderIntentEvent, mid, is_price, is_size,
}
use polytrader.Market.Store.{Key}
use polytrader.Oms.Models.{Order}
use polytrader.Portfolio.{Position, Positions}
use polytrader.PositionManager.Outcomes.{
  ClosedPosition, Closing, OutcomeTracker, new_tracker, from_position_close, record_closed_position,
  get_total_realized_pnl, update_metrics,
}
use polytrader.PositionManager.PerStrategy.{
  Bought, StrategyTracker, new_strategy_tracker, get_or, cumulative, average_entry, bought_position,
  record_buy_fill, record_sell_fill, close_position_settlement, closing_of, unrealized_from,
}

pub data UpdateType : Type 0 where
  created updated reduced closed : UpdateType

pub record PositionUpdatedEvent (F : Type 0) : Type 0 where
  pub market_slug : String
  pub outcome : Outcome
  pub net_position : F
  pub size : F
  pub entry_price : F
  pub target_price : F
  pub entry_time : F
  pub order_id : Option String
  pub update_type : UpdateType
  pub correlation_id : String

pub data UpdateReason : Type 0 where
  position_update price_update : UpdateReason

pub record PnlEvent (F : Type 0) : Type 0 where
  pub realized_pnl : F
  pub unrealized_pnl : F
  pub total_pnl : F
  pub position_count : ℕ
  pub update_reason : UpdateReason

-- `StrategyClosedTradeEvent`: `trade` has the fields that it copies.
pub record StrategyClosedTradeEvent (F : Type 0) : Type 0 where
  pub strategy_id : String
  pub trade : ClosedPosition F
  pub execution_mode : String
  pub order_id : String
  pub fill_id : String
  pub correlation_id : String

pub record MarketChangeEvent : Type 0 where
  pub old_market : Option String
  pub new_market : String
  pub correlation_id : String

-- Each class on the topic of its name: POSITION_UPDATES, PNL_UPDATES, STRATEGY_CLOSED_TRADES and
-- PROPOSALS.
pub data PaperMessage (F : Type 0) : Type 0 where
  position : PositionUpdatedEvent F → PaperMessage F
  pnl : PnlEvent F → PaperMessage F
  trade : StrategyClosedTradeEvent F → PaperMessage F
  proposal : OrderIntentEvent F → PaperMessage F

-- `peak` is the `_peak_equity` of `_performance_metrics`.
pub record PaperManager (F : Type 0) : Type 0 where
  pub positions : Positions F
  pub position_fills : Dict Key (Bought F)
  pub latest_prices : Dict Key F
  pub sell_pending : List Key
  pub position_strategy : Dict Key String
  pub outcomes : OutcomeTracker F
  pub peak : F
  pub per_strategy : StrategyTracker F
  pub published : List (PaperMessage F)

abbrev pub Step : Type 0 → Type 0 → Type 0
Step F A = Action String (PaperManager F) A

module _ {F : Type 0} where
  abbrev pub publish : PaperMessage F → Step F Done
  publish msg = modify (λ s. record s { published = s.published ++ (msg ∷ []) })

module _ {F : Type 0} ⦃fl : Float F⦄ where
  open fl use {lt, le}

  abbrev pub new_manager : F → PaperManager F
  new_manager starting = record {
    positions = [];
    position_fills = [];
    latest_prices = [];
    sell_pending = [];
    position_strategy = [];
    outcomes = new_tracker;
    peak = nought;
    per_strategy = new_strategy_tracker starting;
    published = [];
  }

  abbrev pub is_share : F → Bool
  is_share x = le nought x && le x one

  abbrev pub is_valid_update : PositionUpdatedEvent F → Bool
  is_valid_update e = le nought e.size && (is_price e.entry_price && is_share e.target_price)

  abbrev pub is_valid_trade : StrategyClosedTradeEvent F → Bool
  is_valid_trade e =
      is_truthy e.strategy_id
      && (is_price e.trade.entry_price && (is_share e.trade.exit_price && is_size e.trade.size))

  -- Building an event checks its fields.
  unfoldable pub publish_update : PositionUpdatedEvent F → Step F Done
  publish_update e =
      raise_if (not (is_valid_update e)) "invalid position update" >> publish (position e)

  unfoldable pub publish_trade : StrategyClosedTradeEvent F → Step F Done
  publish_trade e = raise_if (not (is_valid_trade e)) "invalid closed trade" >> publish (trade e)

  unfoldable pub publish_proposal : OrderIntentEvent F → Step F Done
  publish_proposal i =
      raise_if (not (is_price i.target_price && (is_price i.limit_price && is_size i.size)))
        "invalid order intent"
      >> publish (proposal i)

module _ {F : Type 0} ⦃fl : Float F⦄ (sum_of : List F → F) where
  open fl use {add, sub, mul, lt, le, of_nat}

  -- `calculate_unrealized_pnl` with no prices given, which `_emit_pnl_event` writes out again.
  unfoldable pub unrealized_pnl : PaperManager F → F
  unrealized_pnl s = unrealized_from nought s.positions s.latest_prices

  abbrev pub pnl_event : UpdateReason → PaperManager F → PnlEvent F
  pnl_event reason s =
      let realized = get_total_realized_pnl sum_of s.outcomes in
      record {
        realized_pnl = realized;
        unrealized_pnl = unrealized_pnl s;
        total_pnl = add realized (unrealized_pnl s);
        position_count = length s.positions;
        update_reason = reason;
      }

  unfoldable pub emit_pnl_event : UpdateReason → Step F Done
  emit_pnl_event reason = gets (pnl_event reason) >>= λ e. publish (pnl e)

  abbrev pub update_event :
      Key → Position F → F → F → Option String → UpdateType → FillEvent F → PositionUpdatedEvent F
  update_event key p size target order_id kind f = record {
    market_slug = key.0;
    outcome = key.1;
    net_position = size;
    size = size;
    entry_price = p.entry_price;
    target_price = target;
    entry_time = p.entry_time;
    order_id = order_id;
    update_type = kind;
    correlation_id = f.correlation_id;
  }

  abbrev update_type_of : Option (Position F) → UpdateType
  update_type_of none = created
  update_type_of (some _) = updated

  unfoldable pub handle_buy_fill : Key → FillEvent F → Order F → Step F Done
  handle_buy_fill key f order s =
      let b = cumulative f (lookup key s.position_fills) in
      let found = lookup key s.positions in
      let p = bought_position key f order b found in
      let target = order.intent.target_price in
      let event = update_event key p b.0 target (some order.order_id) (update_type_of found) f in
      (publish_update event >> emit_pnl_event position_update) (record s {
        position_fills = insert key b s.position_fills;
        positions = insert key p s.positions;
      })

  -- The position is closed: the outcome is recorded before the event is built, and the position is
  -- dropped after that.
  abbrev pub record_outcome : Closing F → PaperManager F → PaperManager F
  record_outcome c s =
      let outcomes = record_closed_position c s.outcomes in
      record s { outcomes = outcomes; peak = (update_metrics sum_of outcomes s.peak).1 }

  abbrev pub drop_position : Key → PaperManager F → PaperManager F
  drop_position key s = record s {
    positions = erase key s.positions;
    position_fills = erase key s.position_fills;
    position_strategy = erase key s.position_strategy;
    sell_pending = discard_item key s.sell_pending;
  }

  unfoldable pub close_position : Key → Position F → FillEvent F → Step F Done
  close_position key p f =
      let sold = closing_of key (record p { size = add p.size f.size }) f.price f.ts_mono in
      modify (record_outcome sold)
      >> publish_update (update_event key p nought p.target_price p.order_id closed f)
      >> modify (drop_position key)
      >> emit_pnl_event position_update

  -- `p` is the position less the fill.
  abbrev pub sold_position : Key → Position F → FillEvent F → Step F Done
  sold_position key p f =
      if le p.size nought
      then close_position key p f
      else publish_update (update_event key p p.size p.target_price p.order_id reduced f)

  abbrev sell_from : Key → FillEvent F → Option (Position F) → Step F Done
  sell_from key f none = pure tt
  sell_from key f (some p) =
      let less = record p { size = sub p.size f.size } in
      modify (λ s. record s { positions = insert key less s.positions }) >> sold_position key less f

  unfoldable pub handle_sell_fill : Key → FillEvent F → Step F Done
  handle_sell_fill key f s = sell_from key f (lookup key s.positions) s

  abbrev pub trade_event :
      String → ClosedPosition F → String → String → String → StrategyClosedTradeEvent F
  trade_event id c order_id fill_id correlation_id = record {
    strategy_id = id;
    trade = c;
    execution_mode = "paper";
    order_id = order_id;
    fill_id = fill_id;
    correlation_id = correlation_id;
  }

  abbrev pub publish_closed :
      String → Order F → FillEvent F → Option (ClosedPosition F) → Step F Done
  publish_closed id order f none = pure tt
  publish_closed id order f (some c) =
      publish_trade (trade_event id c order.order_id f.fill_id f.correlation_id)

  -- A sale counts for the strategy that opened the position.
  unfoldable pub track_sale : Key → String → FillEvent F → Order F → Step F Done
  track_sale key id f order s =
      let opener = get_or id (lookup key s.position_strategy) in
      let (c, tracker) = record_sell_fill sum_of opener key f s.per_strategy in
      publish_closed opener order f c (record s { per_strategy = tracker })

  abbrev pub strategy_of : Order F → String
  strategy_of order =
      if is_truthy order.intent.strategy_id then order.intent.strategy_id else "unknown"

  abbrev pub key_of : Order F → Key
  key_of order = (order.market_slug, order.outcome)

  abbrev pub track_buy : Order F → FillEvent F → PaperManager F → PaperManager F
  track_buy order f s =
      let id = strategy_of order in
      record s {
        position_strategy = insert (key_of order) id s.position_strategy;
        per_strategy = record_buy_fill id (key_of order) f order s.per_strategy;
      }

  abbrev pub fill_of_order : Side → Order F → FillEvent F → Step F Done
  fill_of_order buy order f = modify (track_buy order f) >> handle_buy_fill (key_of order) f order
  fill_of_order sell order f =
      track_sale (key_of order) (strategy_of order) f order >> handle_sell_fill (key_of order) f

  -- `found` is what the order store has for the fill's order.
  unfoldable pub handle_fill : Option (Order F) → FillEvent F → Step F Done
  handle_fill none f = pure tt
  handle_fill (some order) f = fill_of_order order.side order f
