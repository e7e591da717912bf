-- ===== src/Oms/Store/Invariant/Creation.antt =====
-- The creation of an order and the replay of a log, in polytrader/oms/store.py, keep the store
-- consistent.
use polytrader.Prelude.{
  String, ℕ, suc, ◌+◌, ◌≡◌, inl, inr, true, false, some, List, [], ◌∷◌, string_eq, text_eq_iff,
  ◌==◌, arith, Bool-cases,
}
use polytrader.Float.{Float}
use polytrader.Dict.{lookup, contains, insert, lookup-insert, lookup-insert_self}
use polytrader.Effect.{Done, state-return, >>=_keeps}
use polytrader.Events.{OrderIntentEvent, OrderCreatedEvent}
use polytrader.Oms.Models.{Order}
use polytrader.Oms.Store.{
  Event, order_created, order_submitted, order_ack, order_rejected, order_filled, order_canceled,
  other, Call, Store, empty_store,
}
use polytrader.Oms.Store.Handlers.{
  handle_order_created, create_order, store_new, fresh_order, created_event, replay_event, replay,
  rebuild_from_events,
}
use polytrader.Oms.Store.Changes.{Changes-refl, append_to-Changes}
use polytrader.Oms.Store.Handled.{
  handle_order_submitted-Changes, handle_order_ack-Changes, handle_fill-Changes,
  handle_order_canceled-Changes,
}
use polytrader.Oms.Store.Rejection.{handle_order_rejected-Changes}
use polytrader.Oms.Store.Invariant.{IsValid, empty-IsValid, Changes-IsValid, stored_client}

module _ {F : Type 0} ⦃fl : Float F⦄ where
  free_id :
      (order : Order F) (s : Store F) {o : Order F} {j : String}
      → contains order.order_id s.orders ≡ false
      → order.order_id ≡ j
      → lookup j s.orders ≡ some o
      → true ≡ false
  free_id order s free e found = ground arith

  stored_at :
      (order : Order F) (s : Store F) (c j : String)
      → lookup c (insert order.client_order_id order.order_id s.client_order_ids) ≡ some j
      → (order.client_order_id == c) ≡ true
      → lookup j (insert order.order_id order s.orders) ≡ some order
  stored_at order s c j h hit = ground (
    arith,
    lookup-insert order.client_order_id c order.order_id s.client_order_ids,
    lookup-insert_self order.order_id order s.orders,
  )

  -- A new order under an id that is not taken.
  store_new-IsValid :
      (order : Order F) (s : Store F)
      → contains order.order_id s.orders ≡ false
      → IsValid s
      → IsValid (store_new order s).1
  store_new-IsValid order s free v = record {
    keyed = λ j o h. ground (
      arith,
      lookup-insert order.order_id j order s.orders,
      text_eq_iff order.order_id j,
      v.keyed j o,
    );
    logged = λ j h. ground (
      arith,
      lookup-insert order.order_id j order s.orders,
      lookup-insert order.order_id j [] s.order_events,
      v.logged j,
    );
    clients = λ c j h. elim (Bool-cases (order.client_order_id == c)) [
      | inl hit ↦ (order, stored_at order s c j h hit, (text_eq_iff order.client_order_id c).0 hit)
      | inr miss ↦
          let (o, found, named) = v.clients c j (
            rw (lookup-insert order.client_order_id c order.order_id s.client_order_ids, miss) at
              h) in
          stored_client order o s.orders c j found named (λ e. cc (free_id order s free e found))
    ];
    venues = λ w j h. ground (arith, lookup-insert order.order_id j order s.orders, v.venues w j);
  }

  pub handle_order_created-IsValid :
      (now : ℕ → F) (e : OrderCreatedEvent F) (s : Store F)
      → IsValid s
      → IsValid (handle_order_created now e s).1
  unfolding handle_order_created
  handle_order_created-IsValid now e s v = elim (Bool-cases (contains e.order_id s.orders)) [
    | inl known ↦
        rw known
          (Changes-IsValid (append_to-Changes e.order_id _ s s _ (Changes-refl e.order_id s)) v)
    | inr free ↦ rw free (
        Changes-IsValid (append_to-Changes e.order_id _ _ _ _ (Changes-refl e.order_id _))
          (store_new-IsValid (fresh_order now e.order_id e.client_order_id e.intent) s free v))
  ]

  -- `create_order` of the store, for an order id that is not in use, keeps the store consistent.
  pub create_order-IsValid :
      (now : ℕ → F) (order_id event_id c : String) (intent : OrderIntentEvent F) (s : Store F)
      → contains order_id s.orders ≡ false
      → IsValid s
      → IsValid (create_order now order_id event_id c intent s).1
  unfolding create_order
  create_order-IsValid now order_id event_id c intent s free v =
      let order : Order F = fresh_order now order_id c intent in
      let created : Call F Done =
        handle_order_created (λ i. now (3 + i))
          (created_event event_id (now 2) order_id c intent) in
      rw (state-return created order (store_new order s).1)
        (handle_order_created-IsValid _ _ _ (store_new-IsValid order s free v))

  pub replay_event-IsValid :
      (now : ℕ → F) (e : Event F) (s : Store F) → IsValid s → IsValid (replay_event now e s).1
  unfolding replay_event
  replay_event-IsValid now (order_created e) s v = handle_order_created-IsValid now e s v
  replay_event-IsValid now (order_submitted e) s v =
      Changes-IsValid (handle_order_submitted-Changes now e s) v
  replay_event-IsValid now (order_ack e) s v = Changes-IsValid (handle_order_ack-Changes now e s) v
  replay_event-IsValid now (order_rejected e) s v =
      Changes-IsValid (handle_order_rejected-Changes now e s) v
  replay_event-IsValid now (order_filled e) s v = Changes-IsValid (handle_fill-Changes now e s) v
  replay_event-IsValid now (order_canceled e) s v =
      Changes-IsValid (handle_order_canceled-Changes now e s) v
  replay_event-IsValid now (other m) s v = v

  pub replay-IsValid :
      (now : ℕ → ℕ → F) (es : List (Event F)) (s : Store F)
      → IsValid s
      → IsValid (replay now es s).1
  unfolding replay
  replay-IsValid now [] s v = v
  replay-IsValid now (e ∷ es) s v =
      let p = replay_event-IsValid (now 0) e s v in
      >>=_keeps IsValid (replay_event (now 0) e) (λ _. replay (λ k. now (suc k)) es) s p
        λ a h. replay-IsValid (λ k. now (suc k)) es (replay_event (now 0) e s).1 p

  -- After `rebuild_from_events` the store is consistent, whatever it was before and whatever the
  -- events are, also where the replay stops at an exception.
  pub rebuild-IsValid :
      (now : ℕ → ℕ → F) (es : List (Event F)) (s : Store F)
      → IsValid (rebuild_from_events now es s).1
  unfolding rebuild_from_events
  rebuild-IsValid now es s = replay-IsValid now es empty_store empty-IsValid
