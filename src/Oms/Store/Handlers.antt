-- ===== src/Oms/Store/Handlers.antt =====
-- polytrader/oms/store.py: `create_order`, the event handlers and the replay. What `create_order`
-- publishes on the bus is written at its caller, in Oms/Core.antt.
use polytrader.Prelude.{
  String, ℕ, suc, ◌+◌, Option, none, some, List, [], ◌∷◌, string_eq, is_truthy, if◌then◌else◌,
}
use polytrader.Float.{Float, nought, quotient}
use polytrader.Dict.{contains, insert}
use polytrader.Effect.{Result, ok, Done, pure, raise, gets, lift, modify, when_some, ◌>>=◌, ◌>>◌}
use polytrader.Events.{
  OrderIntentEvent, OrderCreatedEvent, OrderSubmittedEvent, OrderAckEvent, OrderRejectedEvent,
  FillEvent, OrderCanceledEvent, event_meta,
}
use polytrader.Oms.Models.{
  Order, OrderState, new, pending_submit, submitted, acked, partially_filled, filled, cancelled,
  rejected, state_eq,
}
use polytrader.Oms.Fsm.{OmsError, zero_division, transition_order_state}
use polytrader.Oms.Store.{
  Event, order_created, order_submitted, order_ack, order_rejected, order_filled, order_canceled,
  other, Call, empty_store, put_order, map_venue, append_event, get_order,
}

module _ {F : Type 0} ⦃fl : Float F⦄ where
  open fl use {add, mul, le}

  -- `Order(...)` of an intent, in state NEW; `now 0` and `now 1` are the readings of
  -- `time.monotonic()` for `created_at` and `updated_at`.
  abbrev pub fresh_order : (ℕ → F) → String → String → OrderIntentEvent F → Order F
  fresh_order now order_id client_order_id intent = record {
    order_id = order_id;
    client_order_id = client_order_id;
    venue_order_id = none;
    state = new;
    intent = intent;
    market_slug = intent.market_slug;
    outcome = intent.outcome;
    side = intent.side;
    size = intent.size;
    limit_price = intent.limit_price;
    filled_size = nought;
    avg_fill_price = none;
    created_at = now 0;
    updated_at = now 1;
    reject_reason = none;
    correlation_id = intent.correlation_id;
    strategy_id = none;
  }

  -- The three writes that `create_order` and `_handle_order_created` share.
  abbrev pub store_new : Order F → Call F Done
  store_new order = modify λ s. record s {
    orders = insert order.order_id order s.orders;
    client_order_ids = insert order.client_order_id order.order_id s.client_order_ids;
    order_events = insert order.order_id [] s.order_events;
  }

  -- `_handle_order_created`
  unfoldable pub handle_order_created : (ℕ → F) → OrderCreatedEvent F → Call F Done
  handle_order_created now event = do
    known ← gets (λ s. contains event.order_id s.orders)
    if known
        then pure tt
        else store_new (fresh_order now event.order_id event.client_order_id event.intent)
    append_event event.order_id (order_created event)

  abbrev pub created_event : String → F → String → String → OrderIntentEvent F → OrderCreatedEvent F
  created_event event_id ts order_id client_order_id intent = record {
    meta = event_meta event_id ts intent.correlation_id;
    order_id = order_id;
    client_order_id = client_order_id;
    intent = intent;
  }

  -- `create_order` without its publication of the event; `order_id` and `event_id` are the `uuid4`s
  -- of the order and of the event.
  unfoldable pub create_order :
      (ℕ → F) → String → String → String → OrderIntentEvent F → Call F (Order F)
  create_order now order_id event_id client_order_id intent = do
    let order = fresh_order now order_id client_order_id intent
    store_new order
    handle_order_created (λ i. now (3 + i))
        (created_event event_id (now 2) order_id client_order_id intent)
    pure order

  unfoldable pub handle_order_submitted : (ℕ → F) → OrderSubmittedEvent F → Call F Done
  handle_order_submitted now event = do
    found ← gets (get_order event.order_id)
    when_some found λ order. do
      order ← lift (
          if state_eq order.state new
          then transition_order_state (now 0) order pending_submit none
          else ok order)
      order ← lift (transition_order_state (now 1) order submitted none)
      put_order event.order_id order
      append_event event.order_id (order_submitted event)

  unfoldable pub handle_order_ack : (ℕ → F) → OrderAckEvent F → Call F Done
  handle_order_ack now event = do
    found ← gets (get_order event.order_id)
    when_some found λ order. do
      order ← lift (transition_order_state (now 0) order acked none)
      put_order event.order_id (record order { venue_order_id = some event.venue_order_id })
      if is_truthy event.venue_order_id
          then map_venue event.venue_order_id event.order_id
          else pure tt
      append_event event.order_id (order_ack event)

  -- One step of the way to REJECTED: from `from` to `to`, stored at once; else no change.
  abbrev pub advance : F → String → OrderState → OrderState → Order F → Call F (Order F)
  advance now order_id from to order =
      if state_eq order.state from
      then (do
        order ← lift (transition_order_state now order to none)
        put_order order_id order
        pure order)
      else pure order

  abbrev pub finish_rejection : F → OrderRejectedEvent F → Order F → Call F Done
  finish_rejection now event order = do
    order ← lift (transition_order_state now order rejected (some event.reason))
    put_order event.order_id order
    append_event event.order_id (order_rejected event)

  unfoldable pub handle_order_rejected : (ℕ → F) → OrderRejectedEvent F → Call F Done
  handle_order_rejected now event = do
    found ← gets (get_order event.order_id)
    when_some found λ order. do
      order ← advance (now 0) event.order_id new pending_submit order
      order ← advance (now 1) event.order_id pending_submit submitted order
      finish_rejection (now 2) event order

  -- The weighted average of the fills so far; `none` is a division by zero.
  unfoldable pub new_average : Order F → FillEvent F → Option F
  new_average order event = elim order.avg_fill_price [
    | none ↦ some event.price
    | some old ↦
        quotient (add (mul old order.filled_size) (mul event.price event.size))
          (add order.filled_size event.size)
  ]

  -- Fully filled, first fill, or neither.
  abbrev pub settle : F → Order F → Result OmsError (Order F)
  settle now order =
      if le order.size order.filled_size
      then transition_order_state now order filled none
      else if state_eq order.state acked
      then transition_order_state now order partially_filled none
      else ok order

  abbrev pub with_fill : Order F → FillEvent F → F → Order F
  with_fill order event average = record order {
    filled_size = add order.filled_size event.size;
    avg_fill_price = some average;
  }

  -- The rest of `handle_fill`, from the new average on.
  abbrev pub apply_fill : (ℕ → F) → FillEvent F → Order F → Option F → Call F Done
  apply_fill now event order none = raise zero_division
  apply_fill now event order (some average) = do
    order ← lift (settle (now 0) (with_fill order event average))
    put_order event.order_id order
    append_event event.order_id (order_filled event)

  unfoldable pub handle_fill : (ℕ → F) → FillEvent F → Call F Done
  handle_fill now event = do
    found ← gets (get_order event.order_id)
    when_some found λ order. apply_fill now event order (new_average order event)

  unfoldable pub handle_order_canceled : (ℕ → F) → OrderCanceledEvent F → Call F Done
  handle_order_canceled now event = do
    found ← gets (get_order event.order_id)
    when_some found λ order. do
      order ← lift (transition_order_state (now 0) order cancelled event.reason)
      put_order event.order_id order
      append_event event.order_id (order_canceled event)

  -- The body of the replay loop.
  unfoldable pub replay_event : (ℕ → F) → Event F → Call F Done
  replay_event now (order_created e) = handle_order_created now e
  replay_event now (order_submitted e) = handle_order_submitted now e
  replay_event now (order_ack e) = handle_order_ack now e
  replay_event now (order_rejected e) = handle_order_rejected now e
  replay_event now (order_filled e) = handle_fill now e
  replay_event now (order_canceled e) = handle_order_canceled now e
  replay_event now (other m) = pure tt

  -- The replay loop; `now k i` is clock reading `i` at the event with number `k`. An exception
  -- leaves the loop, with what was replayed in place.
  unfoldable pub replay : (ℕ → ℕ → F) → List (Event F) → Call F Done
  replay now [] = pure tt
  replay now (e ∷ es) = replay_event (now 0) e >> replay (λ k. now (suc k)) es

  unfoldable pub rebuild_from_events : (ℕ → ℕ → F) → List (Event F) → Call F Done
  unfolding replay
  rebuild_from_events now events = modify (λ _. empty_store) >> replay now events
