-- ===== src/Oms/Core/Handlers.antt =====
-- polytrader/oms/core.py: `create_order`, the four handlers of the venue's answers, and the four
-- that find the order for a message of the user stream.
use polytrader.Prelude.{String, ◌+◌, Bool, not, Option, none, some, string_eq}
use polytrader.Float.{Float}
use polytrader.Dict.{lookup}
use polytrader.Effect.{Done, pure, gets, lift, raise_if, ◌>>=◌, ◌>>◌}
use polytrader.Events.{
  OrderIntentEvent, OrderSubmittedEvent, OrderAckEvent, OrderRejectedEvent, FillEvent,
  OrderCanceledEvent, event_meta, fill_fields_valid,
}
use polytrader.Oms.Models.{Order, pending_submit, submitted, acked, is_terminal_order}
use polytrader.Oms.Fsm.{
  fill_exceeds_size, already_terminal, key_error, validation_error, transition_order_state,
}
use polytrader.Oms.Idempotency.{Printing, generate_client_order_id, record_order}
use polytrader.Oms.Store.{
  order_created, order_submitted, order_ack, order_rejected, order_filled, order_canceled,
  get_order, update_order,
}
use polytrader.Oms.Store.Handlers.{
  created_event, create_order, handle_order_submitted, handle_order_ack, handle_order_rejected,
  handle_fill, handle_order_canceled,
}
use polytrader.Oms.Core.{
  SubmitOrderCommand, event, submit_command, cancel_command, cancel_requested, Env, Op, on_store,
  on_mappings, publish, set_stamps, drop_stamps, update_stamps, or_raise, find_order,
  mark_first_fill, clean_up, duplicate_of,
}

module _ {F : Type 0} ⦃fl : Float F⦄ where
  open fl use {add, lt}

  abbrev pub submit_command_of : Order F → String → OrderIntentEvent F → SubmitOrderCommand F
  submit_command_of order c intent = record {
    order_id = order.order_id;
    client_order_id = c;
    intent = intent;
    correlation_id = intent.correlation_id;
  }

  abbrev pub submitted_event : Env F → String → String → OrderIntentEvent F → OrderSubmittedEvent F
  submitted_event env order_id c intent = record {
    meta = event_meta (env.uuid 2) (env.now 9) intent.correlation_id;
    order_id = order_id;
    client_order_id = c;
  }

  -- Steps 5 to 8 of `create_order`: the submission of the new order.
  abbrev pub submit_new : Env F → String → OrderIntentEvent F → Order F → Op F (Order F)
  submit_new env c intent order = do
    order ← lift (transition_order_state (env.now 6) order pending_submit none)
    on_store (update_order order)
    publish (submit_command (submit_command_of order c intent))
    order ← lift (transition_order_state (env.now 7) order submitted none)
    on_store (update_order order)
    stamps ← gets (λ s. lookup order.order_id s.order_timestamps)
    stamps ← or_raise key_error stamps
    set_stamps order.order_id (record stamps { submitted_at = some (env.now 8) })
    let sent = submitted_event env order.order_id c intent
    publish (event (order_submitted sent))
    on_store (handle_order_submitted (λ i. env.now (10 + i)) sent)
    pure order

  -- From the publication of the new order on.
  abbrev pub register : Env F → String → OrderIntentEvent F → Order F → Op F (Order F)
  register env c intent order = do
    publish (event (order_created (created_event (env.uuid 1) (env.now 2) (env.uuid 0) c intent)))
    set_stamps order.order_id (record {
      created = some (env.now 5);
      submitted_at = none;
      acked_at = none;
      first_fill = none;
    })
    on_mappings (record_order c order.order_id)
    submit_new env c intent order

  -- Steps 3 to 8 of `create_order`, once the intent is known to be new.
  unfoldable pub create_new : Env F → String → OrderIntentEvent F → Op F (Order F)
  create_new env c intent =
      on_store (create_order env.now (env.uuid 0) (env.uuid 1) c intent) >>= register env c intent

  -- `create_order` for the client's order id `c` of the intent.
  abbrev pub create_unless : Env F → String → OrderIntentEvent F → Option (Order F) → Op F (Order F)
  create_unless env c intent (some existing) = pure existing
  create_unless env c intent none = create_new env c intent

  unfoldable pub create_order_for :
      Printing F → String → Env F → OrderIntentEvent F → Op F (Order F)
  create_order_for printing run_id env intent s =
      let c = generate_client_order_id printing run_id intent in
      create_unless env c intent (duplicate_of c s) s

  unfoldable pub handle_venue_ack : Env F → String → String → Op F Done
  handle_venue_ack env c venue_order_id = find_order c λ order. do
    update_stamps order.order_id (λ t. record t { acked_at = some (env.now 0) })
    order ← lift (transition_order_state (env.now 1) order acked none)
    on_store (update_order (record order { venue_order_id = some venue_order_id }))
    let answer : OrderAckEvent F = record {
      meta = event_meta (env.uuid 0) (env.now 2) order.correlation_id;
      order_id = order.order_id;
      venue_order_id = venue_order_id;
    }
    publish (event (order_ack answer))
    on_store (handle_order_ack (λ i. env.now (3 + i)) answer)

  unfoldable pub handle_venue_reject : Env F → String → String → Op F Done
  handle_venue_reject env c reason = find_order c λ order. do
    drop_stamps order.order_id
    let answer : OrderRejectedEvent F = record {
      meta = event_meta (env.uuid 0) (env.now 0) order.correlation_id;
      order_id = order.order_id;
      reason = reason;
    }
    publish (event (order_rejected answer))
    on_store (handle_order_rejected (λ i. env.now (1 + i)) answer)

  -- `order.filled_size + size > order.size`
  abbrev pub overfills : Order F → F → Bool
  overfills order size = lt order.size (add order.filled_size size)

  abbrev pub fill_event : Env F → Order F → F → F → F → Option String → FillEvent F
  fill_event env order size price fee venue_fill_id = record {
    meta = event_meta (env.uuid 1) (env.now 1) order.correlation_id;
    order_id = order.order_id;
    fill_id = env.uuid 0;
    size = size;
    price = price;
    fee = fee;
    venue_fill_id = venue_fill_id;
  }

  unfoldable pub handle_venue_fill : Env F → String → F → F → F → Option String → Op F Done
  handle_venue_fill env c size price fee venue_fill_id = find_order c λ order. do
    raise_if (overfills order size) fill_exceeds_size
    update_stamps order.order_id (mark_first_fill (env.now 0))
    raise_if (not (fill_fields_valid size price fee)) validation_error
    let answer = fill_event env order size price fee venue_fill_id
    publish (event (order_filled answer))
    on_store (handle_fill (λ i. env.now (2 + i)) answer)
    updated ← gets (λ s. get_order order.order_id s.store)
    clean_up updated

  unfoldable pub handle_cancel : Env F → String → Option String → Op F Done
  handle_cancel env c reason = find_order c λ order. do
    raise_if (is_terminal_order order) already_terminal
    drop_stamps order.order_id
    publish (
        cancel_requested (record {
          meta = event_meta (env.uuid 0) (env.now 0) order.correlation_id;
          order_id = order.order_id;
          client_order_id = c;
          reason = reason;
          requested_by = "system";
        }))
    publish (
        cancel_command (record {
          order_id = order.order_id;
          client_order_id = c;
          venue_order_id = order.venue_order_id;
          reason = reason;
          correlation_id = order.correlation_id;
        }))
    let answer : OrderCanceledEvent F = record {
      meta = event_meta (env.uuid 1) (env.now 1) order.correlation_id;
      order_id = order.order_id;
      reason = reason;
    }
    publish (event (order_canceled answer))
    on_store (handle_order_canceled (λ i. env.now (2 + i)) answer)
