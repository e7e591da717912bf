-- ===== src/Events.antt =====
-- polytrader/types.py and polytrader/events/types.py: sides, outcomes and the events of the order
-- path. `meta` is the base class `Event`, less the fields that no modelled code reads (`ts_wall`,
-- `run_id`, `schema_version`, `source`).
use polytrader.Prelude.{String, Bool, true, false, Option, ◌&&◌, HasEq, ◌≡◌, ◌↔◌, arith}
use polytrader.Float.{Float, nought, one}

pub data Outcome : Type 0 where
  up down : Outcome

abbrev pub same_outcome : Outcome → Outcome → Bool
same_outcome up up = true
same_outcome down down = true
same_outcome _ _ = false

pub same_outcome_iff : (a b : Outcome) → (same_outcome a b ≡ true) ↔ (a ≡ b)
same_outcome_iff a b = (λ h. ground arith, λ h. ground arith)

instance abbrev pub outcome_eq : HasEq Outcome
outcome_eq = record { equal = same_outcome; equal_iff = same_outcome_iff }

pub data Side : Type 0 where
  buy sell : Side

abbrev pub is_buy : Side → Bool
is_buy buy = true
is_buy sell = false

pub record EventMeta (F : Type 0) : Type 0 where
  pub event_id : String
  pub ts_mono : F
  pub correlation_id : String

abbrev pub event_meta : {F : Type 0} → String → F → String → EventMeta F
event_meta event_id ts correlation_id = record {
  event_id = event_id;
  ts_mono = ts;
  correlation_id = correlation_id;
}

pub record OrderIntentEvent (F : Type 0) : Type 0 where
  pub meta : EventMeta F
  pub open meta use *
  pub market_slug : String
  pub outcome : Outcome
  pub side : Side
  pub target_price : F
  pub limit_price : F
  pub size : F
  pub reason : String
  pub strategy_id : String
  pub ttl_s : F

pub record MarketDataEvent (F : Type 0) : Type 0 where
  pub meta : EventMeta F
  pub open meta use *
  pub market_slug : String
  pub outcome : Outcome
  pub best_bid : F
  pub best_ask : F

-- `OrderExecutedEvent`, less what no modelled code reads.
pub record OrderExecutedEvent (F : Type 0) : Type 0 where
  pub meta : EventMeta F
  pub open meta use *
  pub market_slug : String
  pub outcome : Outcome
  pub side : Side

pub record OrderCreatedEvent (F : Type 0) : Type 0 where
  pub meta : EventMeta F
  pub open meta use *
  pub order_id : String
  pub client_order_id : String
  pub intent : OrderIntentEvent F

pub record OrderSubmittedEvent (F : Type 0) : Type 0 where
  pub meta : EventMeta F
  pub open meta use *
  pub order_id : String
  pub client_order_id : String

pub record OrderAckEvent (F : Type 0) : Type 0 where
  pub meta : EventMeta F
  pub open meta use *
  pub order_id : String
  pub venue_order_id : String

pub record OrderRejectedEvent (F : Type 0) : Type 0 where
  pub meta : EventMeta F
  pub open meta use *
  pub order_id : String
  pub reason : String

pub record FillEvent (F : Type 0) : Type 0 where
  pub meta : EventMeta F
  pub open meta use *
  pub order_id : String
  pub fill_id : String
  pub size : F
  pub price : F
  pub fee : F
  pub venue_fill_id : Option String

pub record OrderCanceledEvent (F : Type 0) : Type 0 where
  pub meta : EventMeta F
  pub open meta use *
  pub order_id : String
  pub reason : Option String

pub record CancelRequestedEvent (F : Type 0) : Type 0 where
  pub meta : EventMeta F
  pub open meta use *
  pub order_id : String
  pub client_order_id : String
  pub reason : Option String
  pub requested_by : String

module _ {F : Type 0} ⦃fl : Float F⦄ where
  open fl use {add, sub, div, lt, le, of_nat}

  unfoldable pub mid : MarketDataEvent F → F
  mid m = div (add m.best_bid m.best_ask) (of_nat 2)

  -- What pydantic checks when an event is built: `gt=0, le=1` of a price, `gt=0` of a size.
  abbrev pub is_price : F → Bool
  is_price p = lt nought p && le p one

  abbrev pub is_size : F → Bool
  is_size s = lt nought s

  abbrev pub fill_fields_valid : F → F → F → Bool
  fill_fields_valid size price fee = is_size size && is_price price && le nought fee
