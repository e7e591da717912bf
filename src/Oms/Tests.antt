-- ===== src/Oms/Tests.antt =====
-- The theorems about polytrader/oms at one order, from its creation to its last fill.
mod Answers
use polytrader.Prelude.{
  String, ℕ, ◌≤◌, ◌≡◌, ◌≢◌, ◌↔◌, ◌⊎◌, refl, inl, true, false, none, some, List, [], ◌∷◌, ◌++◌,
  string_eq, text_eq,
}
use polytrader.Float.Fixed.{ℤ, pos, fixed_float}
use polytrader.Dict.{lookup, insert}
use polytrader.Effect.{ok, err, is_ok}
use polytrader.Events.{up, buy, event_meta, OrderIntentEvent}
use polytrader.Oms.Models.{
  Order, new, submitted, acked, partially_filled, filled, cancelled, is_terminal_order,
}
use polytrader.Oms.Fsm.{
  invalid_transition, already_mapped, can_transition, is_terminal_state, transition_order_state,
  get_valid_transitions,
}
use polytrader.Oms.Fsm.Paths.{
  ◌⟶◌, ◌⟶*◌, here, step, create, submit, acknowledge, part_fill, fill_rest,
}
use polytrader.Oms.Fsm.Graph.{transition_exact, steps, steps-le-five, terminal_exact}
use polytrader.Oms.Idempotency.{Printing, generate_client_order_id, record_order, get_order_id}
use polytrader.Oms.Idempotency.Fields.{SameTrade, IsClear}
use polytrader.Oms.Idempotency.Laws.{
  record_order_lem, record_order-keeps, generate_client_order_id_iff,
}
use polytrader.Oms.Store.{
  Event, order_created, order_submitted, order_ack, order_canceled, Store, empty_store, get_order,
  get_order_by_client_id, update_order,
}
use polytrader.Oms.Store.Handlers.{
  fresh_order, created_event, create_order, handle_order_created, handle_order_submitted,
  handle_order_ack, handle_order_canceled, new_average, replay_event, replay, rebuild_from_events,
}
use polytrader.Oms.Store.Invariant.{IsValid}
use polytrader.Oms.Store.Invariant.Update.{update_order-IsValid}
use polytrader.Oms.Store.Invariant.Creation.{create_order-IsValid, rebuild-IsValid}
use polytrader.Oms.Store.Evolution.{Evolves, replay-Evolves, replay_terminal}
use polytrader.Oms.Core.{Core, Env}
use polytrader.Oms.Core.Handlers.{handle_cancel, handle_venue_fill, fill_event}
use polytrader.Oms.Core.Cancel.{
  cancel_messages, cancelled_at, handle_cancel_refused, handle_cancel_done, handle_cancel_barred,
}
use polytrader.Oms.Core.Loop.{UserMessage, order_acked, order_fill, order_cancel, serve}
use polytrader.Oms.Core.Loop.Invariant.{serve-IsValid}
use polytrader.Prelude.{text_eq_iff, text_eq, ◌≢◌, arith}
use polytrader.Oms.Core.{duplicate_in}
use polytrader.Oms.Core.Handlers.{create_order_for}
use polytrader.Oms.Core.Creation.{announced, create_order_for_known}
use polytrader.Oms.Core.Fill.{Filled, handle_venue_fill_lem}

-- Ten units at 0.5, in units of 1 / 10000.
abbrev pub half : ℤ
half = pos 5000

abbrev pub ten : ℤ
ten = pos 100000

abbrev pub four : ℤ
four = pos 40000

abbrev pub intent : OrderIntentEvent ℤ
intent = record {
  meta = event_meta "intent" (pos 0) "decision";
  market_slug = "btc";
  outcome = up;
  side = buy;
  target_price = half;
  limit_price = half;
  size = ten;
  reason = "signal";
  strategy_id = "s";
  ttl_s = pos 50000;
}

abbrev pub clock : ℕ → ℤ
clock i = pos i

abbrev pub clocks : ℕ → ℕ → ℤ
clocks _ i = pos i

abbrev pub env : Env ℤ
env = record { now = clock; uuid = λ _. "id" }

abbrev pub creation : Event ℤ
creation = order_created (created_event "e1" (pos 0) "o1" "c1" intent)

abbrev pub submission : Event ℤ
submission =
    order_submitted (record {
      meta = event_meta "e2" (pos 1) "decision";
      order_id = "o1";
      client_order_id = "c1";
    })

abbrev pub acknowledgement : Event ℤ
acknowledgement =
    order_ack
      (record { meta = event_meta "e3" (pos 2) "decision"; order_id = "o1"; venue_order_id = "v1" })

abbrev cancellation : Event ℤ
cancellation =
    order_canceled
      (record { meta = event_meta "e4" (pos 3) "decision"; order_id = "o1"; reason = none })

abbrev pub store_of : List (Event ℤ) → Store ℤ
store_of events = (rebuild_from_events clocks events empty_store).1

abbrev pub core_of : List (Event ℤ) → Core ℤ
core_of events = record {
  store = store_of events;
  idempotency = [];
  order_timestamps = [];
  published = [];
}

abbrev pub submitted_order : Order ℤ
submitted_order = record (fresh_order clock "o1" "c1" intent) {
  state = submitted;
  updated_at = pos 1;
}

abbrev pub acked_order : Order ℤ
acked_order = record submitted_order {
  state = acked;
  updated_at = pos 0;
  venue_order_id = some "v1";
}

abbrev pub at_venue : Core ℤ
at_venue = core_of (creation ∷ submission ∷ acknowledgement ∷ [])

pub at_venue-IsValid : IsValid at_venue.store
at_venue-IsValid = rebuild-IsValid clocks (creation ∷ submission ∷ acknowledgement ∷ []) empty_store

rebuild_example : IsValid (store_of (creation ∷ creation ∷ cancellation ∷ []))
rebuild_example = rebuild-IsValid clocks (creation ∷ creation ∷ cancellation ∷ []) empty_store

-- The order of the creation, which the store does not have before.
replay-Evolves_example :
    Evolves clocks
      (creation ∷ submission ∷ [])
      empty_store
      "o1"
      none
      (lookup "o1" (replay clocks (creation ∷ submission ∷ []) empty_store).1.orders)
unfolding lookup
replay-Evolves_example = replay-Evolves clocks (creation ∷ submission ∷ []) empty_store "o1"

transition_exact_example :
    (is_ok (transition_order_state (pos 7) acked_order partially_filled none) ≡ true)
    ↔ ((acked ≡ partially_filled) ⊎ (acked ⟶ partially_filled))
transition_exact_example = transition_exact (pos 7) acked_order partially_filled none

life : new ⟶* filled
life = step create (step submit (step acknowledge (step part_fill (step fill_rest here))))

steps_example : steps life ≤ 5
steps_example = steps-le-five life

abbrev plain_printing : Printing ℤ
plain_printing = record { show = λ _. "0.5"; digest = λ s. s }

intent-IsClear : (reason : String) → IsClear plain_printing (record intent { reason = reason })
intent-IsClear reason = record { strategy = refl; market = refl; target = refl; limit = refl }

-- The same trade for another reason.
generate_client_order_id_example :
    (generate_client_order_id plain_printing "run" intent
      ≡ generate_client_order_id plain_printing "run" (record intent { reason = "other" }))
    ↔ SameTrade plain_printing intent (record intent { reason = "other" })
generate_client_order_id_example =
    generate_client_order_id_iff plain_printing "run" intent (record intent { reason = "other" })
      refl (intent-IsClear "signal") (intent-IsClear "other") (λ h. h)
