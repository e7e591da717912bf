-- ===== src/Oms/Core/Cancel.antt =====
-- What `handle_cancel` of polytrader/oms/core.py does with an order in each state.
use polytrader.Prelude.{
  String, ℕ, ◌+◌, ◌≡◌, refl, ap, ◌∙◌, inl, inr, true, false, Option, none, some, List, [], ◌∷◌,
  ◌++◌, string_eq, is_truthy, arith, Bool-cases, Option-cases, append-three,
}
use polytrader.Float.{Float}
use polytrader.Dict.{lookup, contains, lookup-insert_self}
use polytrader.Effect.{ok, err, is_ok}
use polytrader.Events.{OrderCanceledEvent, event_meta}
use polytrader.Oms.Models.{Order, cancelled, is_terminal_order}
use polytrader.Oms.Fsm.{invalid_transition, can_transition, transition_order_state}
use polytrader.Oms.Store.{Event, order_canceled, Store, get_order, get_order_by_client_id, follow}
use polytrader.Oms.Store.Handlers.{handle_order_canceled}
use polytrader.Oms.Store.Invariant.{IsValid}
use polytrader.Oms.Core.{Message, event, cancel_command, cancel_requested, Core, Env}
use polytrader.Oms.Core.Handlers.{handle_cancel}

module _ {F : Type 0} where
  -- The three messages of a cancellation, in order.
  abbrev pub cancel_messages : Env F → String → Option String → Order F → List (Message F)
  cancel_messages env c reason order =
      cancel_requested (record {
        meta = event_meta (env.uuid 0) (env.now 0) order.correlation_id;
        order_id = order.order_id;
        client_order_id = c;
        reason = reason;
        requested_by = "system";
      })
      ∷ cancel_command (record {
        order_id = order.order_id;
        client_order_id = c;
        venue_order_id = order.venue_order_id;
        reason = reason;
        correlation_id = order.correlation_id;
      })
      ∷ event (
          order_canceled (record {
            meta = event_meta (env.uuid 1) (env.now 1) order.correlation_id;
            order_id = order.order_id;
            reason = reason;
          }))
      ∷ []

  follow-found :
      (found : Option String) (s : Store F) (o : Order F)
      → follow found s ≡ some o
      → (j : String) × (found ≡ some j) × (lookup j s.orders ≡ some o)
  follow-found none s o h = cc
  follow-found (some j) s o h = elim (Bool-cases (is_truthy j)) [
    | inl truthy ↦ (j, refl, rw truthy at h)
    | inr falsy ↦ ground arith
  ]

  -- An order found by the client's id is stored under its own id.
  pub by_client_stored :
      (s : Store F) (c : String) (o : Order F)
      → IsValid s
      → get_order_by_client_id c s ≡ some o
      → lookup o.order_id s.orders ≡ some o
  unfolding get_order_by_client_id
  by_client_stored s c o v h =
      let (j, found, stored) = follow-found (lookup c s.client_order_ids) s o h in
      ap (λ k. lookup k s.orders) (v.keyed j o stored) ∙ stored

  pub log_of :
      (s : Store F) (k : String) (o : Order F)
      → IsValid s
      → lookup k s.orders ≡ some o
      → (past : List (Event F)) × (lookup k s.order_events ≡ some past)
  log_of s k o v found =
      let known : contains k s.order_events ≡ true = v.logged k (rw (found, contains)) in
      elim (Option-cases (lookup k s.order_events)) [
        | inl missing ↦ ground (arith, known, missing)
        | inr (past, log) ↦ (past, log)
      ]

module _ {F : Type 0} ⦃fl : Float F⦄ where
  abbrev canceled_event : Env F → Option String → Order F → OrderCanceledEvent F
  canceled_event env reason o = record {
    meta = event_meta (env.uuid 1) (env.now 1) o.correlation_id;
    order_id = o.order_id;
    reason = reason;
  }

  handle_cancel_split :
      (env : Env F) (c : String) (reason : Option String) (s : Core F) (o : Order F)
      → get_order_by_client_id c s.store ≡ some o
      → is_terminal_order o ≡ false
      → let after = handle_cancel env c reason s in
        let stored =
          handle_order_canceled (λ i. env.now (2 + i)) (canceled_event env reason o) s.store in
        (after.0 ≡ stored.0)
        × (after.1.store ≡ stored.1)
        × (after.1.published ≡ s.published ++ cancel_messages env c reason o)
  unfolding handle_cancel
  handle_cancel_split env c reason s o found open_ =
      rw (found, open_) (refl, refl, append-three s.published _ _ _)

  refused_cancel :
      (now : ℕ → F) (e : OrderCanceledEvent F) (s : Store F) (o : Order F)
      → lookup e.order_id s.orders ≡ some o
      → is_terminal_order o ≡ false
      → can_transition o.state cancelled ≡ false
      → handle_order_canceled now e s ≡ (err (invalid_transition o.state cancelled), s)
  unfolding handle_order_canceled get_order transition_order_state
  refused_cancel now e s o found open_ refused =
      let done : transition_order_state (now 0) o cancelled e.reason
          ≡ err (invalid_transition o.state cancelled) =
        ground arith in
      rw (found, done) refl

  abbrev pub cancelled_at : F → Order F → Order F
  cancelled_at t o = record o { state = cancelled; updated_at = t }

  allowed_cancel :
      (now : ℕ → F) (e : OrderCanceledEvent F) (s : Store F) (o : Order F)
      → IsValid s
      → lookup e.order_id s.orders ≡ some o
      → can_transition o.state cancelled ≡ true
      → let after = handle_order_canceled now e s in
        (after.0 ≡ ok tt) × (lookup e.order_id after.1.orders ≡ some (cancelled_at (now 0) o))
  unfolding handle_order_canceled get_order transition_order_state
  allowed_cancel now e s o v found allowed =
      let done : transition_order_state (now 0) o cancelled e.reason ≡ ok (cancelled_at (now 0) o) =
        ground arith in
      let (past, log) = log_of s e.order_id o v found in
      rw (found, done, log) (refl, lookup-insert_self e.order_id _ s.orders)

  -- In a consistent store, the cancellation of an order from which the state machine does not allow
  -- it (an open order that is NEW or SUBMITTED) raises `InvalidTransitionError` and leaves the
  -- store as it was, and yet all three messages are published, the command to the venue and
  -- `OrderCanceled` among them.
  pub handle_cancel_refused :
      (env : Env F) (c : String) (reason : Option String) (s : Core F) (o : Order F)
      → IsValid s.store
      → get_order_by_client_id c s.store ≡ some o
      → is_terminal_order o ≡ false
      → can_transition o.state cancelled ≡ false
      → let after = handle_cancel env c reason s in
        (after.0 ≡ err (invalid_transition o.state cancelled))
        × (after.1.store ≡ s.store)
        × (after.1.published ≡ s.published ++ cancel_messages env c reason o)
  handle_cancel_refused env c reason s o v found open_ refused =
      let (result, store, sent) = handle_cancel_split env c reason s o found open_ in
      let stays =
        refused_cancel (λ i. env.now (2 + i)) (canceled_event env reason o) s.store o
          (by_client_stored s.store c o v found) open_ refused in
      (result ∙ ap (λ p. p.0) stays, store ∙ ap (λ p. p.1) stays, sent)

  -- In a consistent store, the cancellation of an open order from which the state machine allows it
  -- returns, publishes the three messages, and leaves the order CANCELLED in the store, with
  -- nothing but its state and its time of update changed.
  pub handle_cancel_done :
      (env : Env F) (c : String) (reason : Option String) (s : Core F) (o : Order F)
      → IsValid s.store
      → get_order_by_client_id c s.store ≡ some o
      → is_terminal_order o ≡ false
      → can_transition o.state cancelled ≡ true
      → let after = handle_cancel env c reason s in
        (after.0 ≡ ok tt)
        × (lookup o.order_id after.1.store.orders ≡ some (cancelled_at (env.now 2) o))
        × (after.1.published ≡ s.published ++ cancel_messages env c reason o)
  handle_cancel_done env c reason s o v found open_ allowed =
      let (result, store, sent) = handle_cancel_split env c reason s o found open_ in
      let (done, stored) =
        allowed_cancel (λ i. env.now (2 + i)) (canceled_event env reason o) s.store o v
          (by_client_stored s.store c o v found) allowed in
      (result ∙ done, ap (λ t. lookup o.order_id t.orders) store ∙ stored, sent)

  -- A cancellation for an unknown or a terminal order raises and changes nothing.
  pub handle_cancel_barred :
      (env : Env F) (c : String) (reason : Option String) (s : Core F)
      → ((o : Order F) → get_order_by_client_id c s.store ≡ some o → is_terminal_order o ≡ true)
      → (is_ok (handle_cancel env c reason s).0 ≡ false) × ((handle_cancel env c reason s).1 ≡ s)
  unfolding handle_cancel
  handle_cancel_barred env c reason s barred =
      elim (Option-cases (get_order_by_client_id c s.store)) [
        | inl missing ↦ rw missing (refl, refl)
        | inr (o, found) ↦ rw (found, barred o found) (refl, refl)
      ]
