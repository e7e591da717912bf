-- ===== src/Execution/Router.antt =====
-- polytrader/execution/tactics.py and polytrader/execution/router.py: `ExecutionRouter` takes the
-- commands of the OMS to a venue and publishes what comes of them. A handler runs as one step; the
-- bus is the list `published`. Logs and metrics are left out, and the loops that read the queues.
mod Messages
pub mod Answers
pub mod Contradiction
pub mod Cancel
use Prim.Native.String.{◌++◌ as ◌⧺◌}
use polytrader.Prelude.{
  String, ℕ, Bool, true, false, not, ◌&&◌, Option, none, some, List, [], ◌∷◌, ◌++◌, member, text_eq,
  string_eq, if◌then◌else◌,
}
use polytrader.Float.{Float, nought}
use polytrader.Effect.{
  Result, ok, err, Action, Done, pure, raise, gets, lift, modify, raise_if, ◌>>=◌, ◌>>◌,
}
use polytrader.Events.{
  EventMeta, event_meta, OrderIntentEvent, OrderAckEvent, OrderRejectedEvent, FillEvent,
  fill_fields_valid,
}
use polytrader.Oms.Core.{SubmitOrderCommand, CancelOrderCommand, Env}
use polytrader.Execution.Pricing.{apply_limit_pricing}
use polytrader.Execution.Throttle.{ExecutionThrottle, check_order_throttle, check_cancel_throttle}
use polytrader.Execution.Paper.{VenueResponse, Raised, IVenueAdapter}

pub record ExecutionRequestEvent (F : Type 0) : Type 0 where
  pub meta : EventMeta F
  pub open meta use *
  pub order_id : String
  pub client_order_id : String
  pub request_type : String

pub record ExecutionResponseEvent (F : Type 0) : Type 0 where
  pub meta : EventMeta F
  pub open meta use *
  pub order_id : String
  pub client_order_id : String
  pub venue_order_id : String
  pub latency_ms : F
  pub success : Bool

pub record ExecutionErrorEvent (F : Type 0) : Type 0 where
  pub meta : EventMeta F
  pub open meta use *
  pub order_id : String
  pub client_order_id : String
  pub error_type : String
  pub error_message : String

-- What is published, each class on the topic of its name.
pub data ExecutionMessage (F : Type 0) : Type 0 where
  request : ExecutionRequestEvent F → ExecutionMessage F
  response : ExecutionResponseEvent F → ExecutionMessage F
  failure : ExecutionErrorEvent F → ExecutionMessage F
  fill : FillEvent F → ExecutionMessage F
  order_ack : OrderAckEvent F → ExecutionMessage F
  order_reject : OrderRejectedEvent F → ExecutionMessage F

-- `ExecutionRouter` with its `ExecutionTactics`. `enabled` is `execution_control.is_enabled()`, and
-- `none` where there is no control.
pub record Router (F A : Type 0) : Type 0 where
  pub throttle : ExecutionThrottle F
  pub max_buy_slippage_bps : F
  pub max_sell_slippage_bps : F
  pub enabled : Option Bool
  pub active_strategies : List String
  pub is_paper_mode : Bool
  pub adapter : A
  pub published : List (ExecutionMessage F)

abbrev pub Step : Type 0 → Type 0 → Type 0 → Type 0
Step F A B = Action Raised (Router F A) B

-- The venue's status of an order that it filled at once.
abbrev pub is_filled : {F : Type 0} → VenueResponse F → Bool
is_filled r = text_eq r.status "FILLED"

-- `error_type` of any exception; one without the attribute counts as fatal.
abbrev pub type_of : Raised → String
type_of e = elim e.error_type [ none ↦ "fatal" | some t ↦ t ]

-- The text that pydantic gives a value that it refuses.
abbrev pub invalid_fill : String → Raised
invalid_fill text = record { error_type = none; text = text }

module _ {F A : Type 0} where
  abbrev pub publish : ExecutionMessage F → Step F A Done
  publish msg = modify (λ s. record s { published = s.published ++ (msg ∷ []) })

module _ {F A : Type 0} ⦃fl : Float F⦄ (venue : IVenueAdapter F A) (env : Env F)
    (validation_text : String) where
  open fl use {sub, mul, of_nat}

  abbrev pub stamp : ℕ → String → EventMeta F
  stamp n correlation_id = event_meta (env.uuid n) (env.now n) correlation_id

  -- Milliseconds since the handler started.
  abbrev pub latency : ℕ → F
  latency n = mul (sub (env.now n) (env.now 0)) (of_nat 1000)

  module _ (c : SubmitOrderCommand F) where
    abbrev pub request_event : ExecutionMessage F
    request_event = request (record {
      meta = stamp 1 c.correlation_id;
      order_id = c.order_id;
      client_order_id = c.client_order_id;
      request_type = "submit";
    })

    abbrev pub response_event : VenueResponse F → ExecutionMessage F
    response_event r = response (record {
      meta = stamp 4 c.correlation_id;
      order_id = c.order_id;
      client_order_id = c.client_order_id;
      venue_order_id = r.venue_order_id;
      latency_ms = latency 3;
      success = true;
    })

    abbrev pub error_event : String → String → ExecutionMessage F
    error_event error_type message = failure (record {
      meta = stamp 8 c.correlation_id;
      order_id = c.order_id;
      client_order_id = c.client_order_id;
      error_type = error_type;
      error_message = message;
    })

    abbrev pub reject_event : String → ExecutionMessage F
    reject_event reason =
        order_reject
          (record { meta = stamp 9 c.correlation_id; order_id = c.order_id; reason = reason })

    abbrev pub ack_event : VenueResponse F → ExecutionMessage F
    ack_event r = order_ack (record {
      meta = stamp 6 c.correlation_id;
      order_id = c.order_id;
      venue_order_id = r.venue_order_id;
    })

    -- `raw_response.get("fill_price", modified_intent.limit_price)`
    abbrev pub fill_price_of : OrderIntentEvent F → VenueResponse F → F
    fill_price_of intent r = elim r.fill_price [ none ↦ intent.limit_price | some p ↦ p ]

    abbrev pub fill_event : OrderIntentEvent F → VenueResponse F → ExecutionMessage F
    fill_event intent r = fill (record {
      meta = stamp 5 c.correlation_id;
      order_id = c.order_id;
      fill_id = env.uuid 10;
      size = intent.size;
      price = fill_price_of intent r;
      fee = nought;
      venue_fill_id = some r.venue_order_id;
    })

    -- `apply_tactics` past its throttle, which is `model_copy` and does not validate. The middle
    -- price that the router gives is the order's own limit price.
    abbrev pub modified_intent : Router F A → OrderIntentEvent F
    modified_intent s = record c.intent {
      limit_price =
          apply_limit_pricing c.intent c.intent.limit_price s.max_buy_slippage_bps
            s.max_sell_slippage_bps;
    }

    abbrev pub check_throttle_now : Step F A Bool
    check_throttle_now s =
        let (allowed, t) = check_order_throttle (env.now 2) c.client_order_id s.throttle in
        (ok allowed, record s { throttle = t })

    abbrev pub submit_to_venue : OrderIntentEvent F → Step F A (VenueResponse F)
    submit_to_venue intent s =
        let (r, a) = venue.submit_order c.client_order_id intent s.adapter in
        (r, record s { adapter = a })

    -- A fill is built, and so validated, before it is published.
    abbrev pub is_valid_fill : OrderIntentEvent F → VenueResponse F → Bool
    is_valid_fill intent r = fill_fields_valid intent.size (fill_price_of intent r) nought

    abbrev pub publish_fill : OrderIntentEvent F → VenueResponse F → Step F A Done
    publish_fill intent r =
        raise_if (not (is_valid_fill intent r)) (invalid_fill validation_text)
        >> publish (fill_event intent r)

    abbrev pub report : OrderIntentEvent F → VenueResponse F → Step F A Done
    report intent r =
        publish (response_event r)
        >> (if is_filled r then publish_fill intent r else pure tt)
        >> publish (ack_event r)

    abbrev pub place : Bool → Step F A Done
    place false = publish (error_event "fatal" ("Order throttled: " ⧺ c.client_order_id))
    place true = gets modified_intent >>= λ intent. submit_to_venue intent >>= report intent

    -- The body of the `try`.
    abbrev pub attempt : Step F A Done
    attempt = publish request_event >> check_throttle_now >>= place

    -- The `except`: a fatal error also rejects the order.
    abbrev pub recover : Raised → Router F A → Router F A
    recover e s =
        let failed = (publish (error_event (type_of e) e.text) s).1 in
        if text_eq (type_of e) "fatal" then (publish (reject_event e.text) failed).1 else failed

    abbrev pub settled : Result Raised Done × Router F A → Router F A
    settled (ok _, s) = s
    settled (err e, s) = recover e s

    abbrev pub is_disabled : Router F A → Bool
    is_disabled s = elim s.enabled [ none ↦ false | some e ↦ not e ]

    abbrev pub is_inactive : Router F A → Bool
    is_inactive s = not s.is_paper_mode && not (member c.intent.strategy_id s.active_strategies)

    unfoldable pub handle_submit_command : Router F A → Router F A
    handle_submit_command s =
        if is_disabled s
        then (publish (reject_event "Execution disabled") s).1
        else if is_inactive s
        then (publish (reject_event "Strategy not active for live trading") s).1
        else settled (attempt s)
