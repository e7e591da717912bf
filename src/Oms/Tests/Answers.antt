-- ===== src/Oms/Tests/Answers.antt =====
-- The theorems about polytrader/oms/core.py at one order, submitted or at the venue.
use polytrader.Prelude.{
  ◌≡◌, ◌≢◌, ◌⊎◌, refl, inl, false, none, some, List, [], ◌∷◌, ◌++◌, string_eq, text_eq,
}
use polytrader.Float.Fixed.{ℤ, pos, fixed_float}
use polytrader.Dict.{lookup, insert}
use polytrader.Effect.{ok, err}
use polytrader.Oms.Models.{Order, submitted, cancelled}
use polytrader.Oms.Fsm.{invalid_transition, already_mapped, can_transition, transition_order_state}
use polytrader.Oms.Idempotency.{Printing, hash_intent, generate_client_order_id, get_order_id}
use polytrader.Oms.Store.{empty_store, get_order, get_order_by_client_id}
use polytrader.Oms.Store.Handlers.{
  handle_order_created, handle_order_submitted, handle_order_ack, new_average, replay_event, replay,
  rebuild_from_events,
}
use polytrader.Oms.Store.Invariant.{IsValid}
use polytrader.Oms.Store.Invariant.Creation.{rebuild-IsValid}
use polytrader.Oms.Core.{Core}
use polytrader.Oms.Core.Handlers.{handle_cancel, handle_venue_fill, fill_event}
use polytrader.Oms.Core.Cancel.{cancel_messages, handle_cancel_refused}
use polytrader.Oms.Core.Loop.{UserMessage, order_acked, order_fill, order_cancel, serve}
use polytrader.Oms.Core.Loop.Invariant.{serve-IsValid}
use polytrader.Prelude.{text_eq_iff, text_eq, ◌≢◌, arith}
use polytrader.Oms.Core.{duplicate_in}
use polytrader.Oms.Core.Handlers.{create_order_for}
use polytrader.Oms.Core.Creation.{announced, create_order_for_known}
use polytrader.Oms.Core.Fill.{Filled, handle_venue_fill_lem}
use polytrader.Oms.Tests.{
  half, four, intent, clocks, env, creation, submission, acknowledgement, store_of, core_of,
  submitted_order, acked_order, at_venue, at_venue-IsValid,
}

submitted_found :
    get_order_by_client_id "c1" (store_of (creation ∷ submission ∷ [])) ≡ some submitted_order
unfolding get_order_by_client_id rebuild_from_events replay replay_event handle_order_created
    handle_order_submitted get_order transition_order_state lookup insert text_eq
submitted_found = refl

acked_found :
    get_order_by_client_id "c1" (store_of (creation ∷ submission ∷ acknowledgement ∷ []))
    ≡ some acked_order
unfolding get_order_by_client_id rebuild_from_events replay replay_event handle_order_created
    handle_order_submitted handle_order_ack get_order transition_order_state lookup insert text_eq
acked_found = refl

handle_cancel_refused_example :
    let s = core_of (creation ∷ submission ∷ []) in
    let after = handle_cancel env "c1" none s in
    (after.0 ≡ err (invalid_transition submitted cancelled))
    × (after.1.store ≡ s.store)
    × (after.1.published ≡ s.published ++ cancel_messages env "c1" none submitted_order)
unfolding can_transition
handle_cancel_refused_example =
    handle_cancel_refused env "c1" none (core_of (creation ∷ submission ∷ [])) submitted_order
      (rebuild-IsValid clocks (creation ∷ submission ∷ []) empty_store) submitted_found refl refl

first_price :
    new_average acked_order (fill_event env acked_order four half (pos 0) none) ≡ some half
unfolding new_average
first_price = refl

handle_venue_fill_example :
    let after = handle_venue_fill env "c1" four half (pos 0) none at_venue in
    (after.0 ≡ ok tt)
    × ((o' : Order ℤ) × (lookup "o1" after.1.store.orders ≡ some o')
        × Filled acked_order four half o'
        × (fixed_float.lt o'.size o'.filled_size ≡ false))
handle_venue_fill_example =
    handle_venue_fill_lem env "c1" four half (pos 0) none at_venue acked_order half at_venue-IsValid
      acked_found refl refl (inl refl) first_price

abbrev answers : List (UserMessage ℤ)
answers =
    order_fill (record {
      client_order_id = none;
      venue_order_id = some "v1";
      fill_id = "f1";
      size = four;
      price = half;
      fee = pos 0;
    })
    ∷ order_cancel (record { client_order_id = some "c1"; venue_order_id = "v1" })
    ∷ order_acked (record { client_order_id = "c1"; venue_order_id = "v2" })
    ∷ []

serve-IsValid_example : IsValid (serve (λ _. env) answers at_venue).store
serve-IsValid_example = serve-IsValid (λ _. env) answers at_venue at_venue-IsValid

abbrev lost : Core ℤ
lost = record at_venue { idempotency = ("run-decision-digest", "o9") ∷ [] }

abbrev short_printing : Printing ℤ
short_printing = record { show = λ _. "0.5"; digest = λ _. "digest" }

lost_mapped :
    get_order_id (generate_client_order_id short_printing "run" intent) lost.idempotency ≡ some "o9"
unfolding get_order_id generate_client_order_id hash_intent lookup text_eq
lost_mapped = refl

lost_other : "o9" ≢ env.uuid 0
unfolding text_eq
lost_other e = ground (arith, (text_eq_iff "o9" "id").1 e)

create_order_for_known_example :
    let c = generate_client_order_id short_printing "run" intent in
    ((o : Order ℤ) × (duplicate_in lost.store (some "o9") ≡ some o)
      × (create_order_for short_printing "run" env intent lost ≡ (ok o, lost)))
    ⊎ ((duplicate_in lost.store (some "o9") ≡ none)
        × (create_order_for short_printing "run" env intent lost
            ≡ (err already_mapped, announced env c intent lost)))
create_order_for_known_example =
    create_order_for_known short_printing "run" env intent lost "o9" lost_mapped lost_other
