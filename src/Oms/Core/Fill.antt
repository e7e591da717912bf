-- ===== src/Oms/Core/Fill.antt =====
-- What `handle_venue_fill` of polytrader/oms/core.py does with a fill of an order at the venue.
use polytrader.Prelude.{
  String, ℕ, ◌+◌, ◌≡◌, ◌⊎◌, refl, ap, ◌∙◌, inl, inr, true, false, Option, none, some, string_eq,
  if◌then◌else◌, arith, Bool-cases,
}
use polytrader.Float.{Float}
use polytrader.Dict.{lookup, lookup-insert_self}
use polytrader.Effect.{ok}
use polytrader.Events.{FillEvent, fill_fields_valid}
use polytrader.Oms.Models.{Order, OrderState, acked, partially_filled, filled, rejected, state_eq}
use polytrader.Oms.Fsm.{can_transition, transition_order_state}
use polytrader.Oms.Store.{Store, get_order, get_order_by_client_id}
use polytrader.Oms.Store.Handlers.{handle_fill, new_average, settle, with_fill}
use polytrader.Oms.Store.Invariant.{IsValid}
use polytrader.Oms.Core.{Core, Env}
use polytrader.Oms.Core.Handlers.{handle_venue_fill, overfills, fill_event}
use polytrader.Oms.Core.Cancel.{by_client_stored, log_of}

module _ {F : Type 0} ⦃fl : Float F⦄ where
  open fl use {add, lt, le}

  -- An order at the venue after a fill: the fill's size is added, the size and the average are as
  -- given, and the state is FILLED exactly when nothing is left to fill.
  pub record Filled (o : Order F) (size average : F) (o' : Order F) : Type 0 where
    pub size_same : o'.size ≡ o.size
    pub added : o'.filled_size ≡ add o.filled_size size
    pub averaged : o'.avg_fill_price ≡ some average
    pub state : o'.state ≡ (if le o.size (add o.filled_size size) then filled else partially_filled)

  moved_to : F → OrderState → Order F → Order F
  moved_to t s o = record o { state = s; updated_at = t }

  transition_at_venue :
      (t : F) (o : Order F) (s : OrderState)
      → can_transition o.state s ≡ true
      → state_eq o.state s ≡ false
      → state_eq s rejected ≡ false
      → transition_order_state t o s none ≡ ok (moved_to t s o)
  unfolding transition_order_state moved_to
  transition_at_venue t o s allowed apart live = ground (arith, allowed, apart)

  settle_at_venue :
      (t : F) (o : Order F) (e : FillEvent F) (average : F)
      → (o.state ≡ acked) ⊎ (o.state ≡ partially_filled)
      → (o' : Order F) × (settle t (with_fill o e average) ≡ ok o') × Filled o e.size average o'
  unfolding can_transition moved_to
  settle_at_venue t o e average at =
      let p = with_fill o e average in
      elim (Bool-cases (le o.size (add o.filled_size e.size))) [
        | inl full ↦ (
          moved_to t filled p,
          rw full (transition_at_venue t p filled (ground arith) (ground arith) refl),
          record { size_same = refl; added = refl; averaged = refl; state = rw full refl },
        )
        | inr rest ↦ elim at [
          | inl first ↦ (
            moved_to t partially_filled p,
            (let acknowledged : state_eq o.state acked ≡ true = rw first refl in
                rw (rest, acknowledged)
                  (transition_at_venue t p partially_filled (ground arith) (ground arith) refl)),
            record { size_same = refl; added = refl; averaged = refl; state = rw rest refl },
          )
          | inr later ↦ (
            p,
            rw (rest, later) refl,
            record { size_same = refl; added = refl; averaged = refl; state = rw rest later },
          )
        ]
      ]

  handle_fill_done :
      (now : ℕ → F) (e : FillEvent F) (s : Store F) (o : Order F) (average : F)
      → IsValid s
      → lookup e.order_id s.orders ≡ some o
      → (o.state ≡ acked) ⊎ (o.state ≡ partially_filled)
      → new_average o e ≡ some average
      → let after = handle_fill now e s in
        (after.0 ≡ ok tt)
        × ((o' : Order F) × (lookup e.order_id after.1.orders ≡ some o')
            × Filled o e.size average o')
  unfolding handle_fill get_order
  handle_fill_done now e s o average v found at priced =
      let (o', settled, done) = settle_at_venue (now 0) o e average at in
      let (past, log) = log_of s e.order_id o v found in
      rw (found, priced, settled, log) (refl, (o', lookup-insert_self e.order_id _ s.orders, done))

  handle_venue_fill_split :
      (env : Env F) (c : String) (size price fee : F) (id : Option String) (s : Core F)
      (o : Order F)
      → get_order_by_client_id c s.store ≡ some o
      → overfills o size ≡ false
      → fill_fields_valid size price fee ≡ true
      → let after = handle_venue_fill env c size price fee id s in
        let stored =
          handle_fill (λ i. env.now (2 + i)) (fill_event env o size price fee id) s.store in
        stored.0 ≡ ok tt → (after.0 ≡ ok tt) × (after.1.store ≡ stored.1)
  unfolding handle_venue_fill handle_fill get_order lookup
  handle_venue_fill_split env c size price fee id s o found fits valid done =
      rw (found, fits, valid, done) (refl, refl)

  -- In a consistent store, a fill of an acknowledged or partly filled order, with valid fields,
  -- that does not exceed the order's size, and for which the average price is defined: the handler
  -- returns, and in the store the fill's size is added, within the order's size, the new average is
  -- set, and the order is FILLED when its size is reached and PARTIALLY_FILLED when not.
  pub handle_venue_fill_lem :
      (env : Env F) (c : String) (size price fee : F) (id : Option String) (s : Core F)
      (o : Order F) (average : F)
      → IsValid s.store
      → get_order_by_client_id c s.store ≡ some o
      → overfills o size ≡ false
      → fill_fields_valid size price fee ≡ true
      → (o.state ≡ acked) ⊎ (o.state ≡ partially_filled)
      → new_average o (fill_event env o size price fee id) ≡ some average
      → let after = handle_venue_fill env c size price fee id s in
        (after.0 ≡ ok tt)
        × ((o' : Order F) × (lookup o.order_id after.1.store.orders ≡ some o')
            × Filled o size average o'
            × (lt o'.size o'.filled_size ≡ false))
  handle_venue_fill_lem env c size price fee id s o average v found fits valid at priced =
      let (done, (o', stored, filled_)) =
        handle_fill_done (λ i. env.now (2 + i)) (fill_event env o size price fee id) s.store o
          average v (by_client_stored s.store c o v found) at priced in
      let (result, store) =
        handle_venue_fill_split env c size price fee id s o found fits valid done in
      (
        result,
        (
          o',
          ap (λ t. lookup o.order_id t.orders) store ∙ stored,
          filled_,
          (rw (filled_.size_same, filled_.added) fits),
        ),
      )
