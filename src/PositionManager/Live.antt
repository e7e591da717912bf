-- ===== src/PositionManager/Live.antt =====
-- polytrader/position_manager/__init__.py: `PositionManager`, of live trading. It opens and closes
-- positions by executed orders, proposes a sale at the target, and reconciles with the orders of
-- the venue. `OrderResponse` has what is read of the venue's answer, with texts and numbers of the
-- right type. `_lookup_token_id`, which the source leaves to be written, finds nothing. The parsing
-- of the venue's orders, logs, and the timer are left out.
pub mod Grouping
pub mod Reconcile
pub mod Target
use polytrader.Prelude.{
  String, Bool, true, false, not, ◌&&◌, Option, none, some, List, [], ◌∷◌, ◌++◌, keep_if, text_eq,
  is_truthy, string_eq, pair_eq, if◌then◌else◌,
}
use polytrader.Float.{Float, nought, ratio}
use polytrader.Dict.{Dict, lookup, insert, erase}
use polytrader.Effect.{Action, Done, pure, modify, raise_if, ◌>>=◌, ◌>>◌}
use polytrader.Events.{
  Outcome, outcome_eq, Side, buy, sell, is_buy, EventMeta, MarketDataEvent, OrderIntentEvent,
  OrderExecutedEvent, mid, is_price, is_size,
}
use polytrader.Market.Store.{Key}
use polytrader.Portfolio.{Position, Positions}
use polytrader.PositionManager.PerStrategy.{get_or}

pub record OrderResponse (F : Type 0) : Type 0 where
  pub order_id : Option String
  pub id : Option String
  pub fill_price : Option F
  pub price : Option F

-- `OrderExecutedEvent`; `response` is `none` where it is not a dictionary.
pub record ExecutedOrder (F : Type 0) : Type 0 where
  pub event : OrderExecutedEvent F
  pub open event use {ts_mono, market_slug, outcome, side}
  pub size : F
  pub target_price : Option F
  pub response : Option (OrderResponse F)

pub data OrderStatus : Type 0 where
  filled cancelled open_order pending unknown : OrderStatus

abbrev pub is_filled : OrderStatus → Bool
is_filled filled = true
is_filled _ = false

abbrev pub is_cancelled : OrderStatus → Bool
is_cancelled cancelled = true
is_cancelled _ = false

-- `ExternalOrder` of polytrader/clob.py
pub record ExternalOrder (F : Type 0) : Type 0 where
  pub token_id : String
  pub status : OrderStatus
  pub side : Side
  pub size : F
  pub order_id : String

-- `published` is the topic PROPOSALS.
pub record LiveManager (F : Type 0) : Type 0 where
  pub positions : Positions F
  pub order_id_to_position : Dict String Key
  pub token_to_market : Dict String Key
  pub published : List (OrderIntentEvent F)

-- The orders of each known market, in the order of the venue's list.
abbrev pub External : Type 0 → Type 0
External F = Dict Key (List (ExternalOrder F))

-- `order_id if order_id != "unknown" else None`
abbrev pub known_id : String → Option String
known_id id = if text_eq id "unknown" then none else some id

abbrev forget_id : Option String → Dict String Key → Dict String Key
forget_id none ids = ids
forget_id (some id) ids = if is_truthy id then erase id ids else ids

abbrev pub Step : Type 0 → Type 0
Step F = Action String (LiveManager F) Done

module _ {F : Type 0} where
  abbrev id_in : OrderResponse F → String
  id_in r =
      let other = get_or "unknown" r.id in
      elim r.order_id [ none ↦ other | some id ↦ if is_truthy id then id else other ]

  abbrev pub order_id_of : Option (OrderResponse F) → String
  order_id_of none = "unknown"
  order_id_of (some r) = id_in r

module _ {F : Type 0} ⦃fl : Float F⦄ where
  open fl use {eq, le}

  abbrev pub middle : F
  middle = ratio 1 2

  -- A number that Python counts as true.
  abbrev nonzero : Option F → Option F
  nonzero none = none
  nonzero (some x) = if eq x nought then none else some x

  abbrev or_else : Option F → Option F → Option F
  or_else none y = y
  or_else (some x) y = some x

  abbrev price_in : Option (OrderResponse F) → F
  price_in none = middle
  price_in (some r) = get_or middle (nonzero (or_else (nonzero r.fill_price) r.price))

  abbrev pub opened : ExecutedOrder F → Position F
  opened o = record {
    market_slug = o.market_slug;
    outcome = o.outcome;
    size = o.size;
    target_price = get_or middle o.target_price;
    entry_price = price_in o.response;
    entry_time = o.ts_mono;
    order_id = known_id (order_id_of o.response);
  }

module _ {F : Type 0} where
  -- `token` is the market's token id, if the venue's API gives it.
  abbrev cache_token_id : Option String → Key → LiveManager F → LiveManager F
  cache_token_id none key s = s
  cache_token_id (some id) key s = record s { token_to_market = insert id key s.token_to_market }

  abbrev pub key_of_order : ExecutedOrder F → Key
  key_of_order o = (o.market_slug, o.outcome)

module _ {F : Type 0} ⦃fl : Float F⦄ where
  open fl use {le, of_nat}

  abbrev open_position : Option String → ExecutedOrder F → LiveManager F → LiveManager F
  open_position token o s = cache_token_id token (key_of_order o) (record s {
    positions = insert (key_of_order o) (opened o) s.positions;
    order_id_to_position = insert (order_id_of o.response) (key_of_order o) s.order_id_to_position;
  })

  -- The mapping of the sale's order goes, if there is one; that of the purchase stays.
  abbrev close_found : Option (Position F) → ExecutedOrder F → LiveManager F → LiveManager F
  close_found none o s = s
  close_found (some _) o s = record s {
    positions = erase (key_of_order o) s.positions;
    order_id_to_position = erase (order_id_of o.response) s.order_id_to_position;
  }

  abbrev on_side : Side → Option String → ExecutedOrder F → LiveManager F → LiveManager F
  on_side buy token o s = open_position token o s
  on_side sell token o s = close_found (lookup (key_of_order o) s.positions) o s

  unfoldable pub handle_order : Option String → ExecutedOrder F → LiveManager F → LiveManager F
  handle_order token o s = on_side o.side token o s

  module _ (reason_text : F → F → F → String) (meta : EventMeta F) where
    abbrev pub sale : MarketDataEvent F → Position F → OrderIntentEvent F
    sale m p = record {
      meta = meta;
      market_slug = m.market_slug;
      outcome = m.outcome;
      side = sell;
      target_price = p.target_price;
      limit_price = m.best_bid;
      size = p.size;
      reason = reason_text (mid m) p.target_price p.entry_price;
      strategy_id = "position_manager";
      ttl_s = of_nat 2;
    }

    abbrev pub is_valid_sale : OrderIntentEvent F → Bool
    is_valid_sale i = is_price i.target_price && (is_price i.limit_price && is_size i.size)

    abbrev propose : OrderIntentEvent F → Step F
    propose i =
        raise_if (not (is_valid_sale i)) "invalid order intent"
        >> modify (λ s. record s { published = s.published ++ (i ∷ []) })

    abbrev check_position : MarketDataEvent F → Option (Position F) → Step F
    check_position m none = pure tt
    check_position m (some p) = if le p.target_price (mid m) then propose (sale m p) else pure tt

    unfoldable pub check_target_prices : MarketDataEvent F → Step F
    check_target_prices m s = check_position m (lookup (m.market_slug, m.outcome) s.positions) s

  -- `_create_position_from_external_order`, at a reading of the wall clock
  abbrev pub external_position : F → Key → ExternalOrder F → Position F
  external_position now key o = record {
    market_slug = key.0;
    outcome = key.1;
    size = o.size;
    target_price = middle;
    entry_price = middle;
    entry_time = now;
    order_id = known_id o.order_id;
  }

module _ {F : Type 0} where
  abbrev remove_found : Option (Position F) → Key → LiveManager F → LiveManager F
  remove_found none key s = s
  remove_found (some p) key s = record s {
    positions = erase key s.positions;
    order_id_to_position = forget_id p.order_id s.order_id_to_position;
  }

  unfoldable pub remove_position : Key → LiveManager F → LiveManager F
  remove_position key s = remove_found (lookup key s.positions) key s

  abbrev pub add_external : Option Key → ExternalOrder F → External F → External F
  add_external none o d = d
  add_external (some key) o d = insert key (get_or [] (lookup key d) ++ (o ∷ [])) d

  unfoldable pub group_orders : Dict String Key → List (ExternalOrder F) → External F → External F
  group_orders tokens [] d = d
  group_orders tokens (o ∷ os) d =
      group_orders tokens os (add_external (lookup o.token_id tokens) o d)

module _ {F : Type 0} ⦃fl : Float F⦄ (now : F) where
  abbrev remember_id : Option String → Key → Dict String Key → Dict String Key
  remember_id none key ids = ids
  remember_id (some id) key ids = insert id key ids

  -- The first BUY among the filled orders opens a position where there is none.
  abbrev pub discover :
      Option (Position F) → Key → List (ExternalOrder F) → LiveManager F → LiveManager F
  discover (some _) key os s = s
  discover none key [] s = s
  discover none key (o ∷ os) s = record s {
    positions = insert key (external_position now key o) s.positions;
    order_id_to_position = remember_id (known_id o.order_id) key s.order_id_to_position;
  }

  abbrev pub drop_cancelled : List (ExternalOrder F) → Key → LiveManager F → LiveManager F
  drop_cancelled [] key s = s
  drop_cancelled (o ∷ os) key s = remove_position key s

  abbrev pub with_status : (OrderStatus → Bool) → List (ExternalOrder F) → List (ExternalOrder F)
  with_status p os = keep_if (λ o. p o.status) os

  abbrev pub settle_orders :
      List (ExternalOrder F) → Key → List (ExternalOrder F) → LiveManager F → LiveManager F
  settle_orders [] key os s = drop_cancelled (with_status is_cancelled os) key s
  settle_orders (f ∷ fs) key os s =
      discover (lookup key s.positions) key (keep_if (λ o. is_buy o.side) (f ∷ fs)) s

  unfoldable pub reconcile_market : Key → List (ExternalOrder F) → LiveManager F → LiveManager F
  reconcile_market key os s = settle_orders (with_status is_filled os) key os s

  unfoldable pub reconcile_all : External F → LiveManager F → LiveManager F
  reconcile_all [] s = s
  reconcile_all ((key, os) ∷ d) s = reconcile_all d (reconcile_market key os s)

  -- Where no order is parsed, nothing is done, which the two loops do too.
  unfoldable pub reconcile_positions : List (ExternalOrder F) → LiveManager F → LiveManager F
  reconcile_positions os s = reconcile_all (group_orders s.token_to_market os []) s
