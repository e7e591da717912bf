-- ===== src/Oms/Store.antt =====
-- polytrader/oms/store.py: `InMemoryOrderStore`, the projection of the orders from their events.
-- This file has the state, its queries and `update_order`; the event handlers are in the child
-- Handlers, and the theorems in the other children.
pub mod Handlers
pub mod Changes
pub mod Handled
pub mod Rejection
pub mod Invariant
pub mod Survival
pub mod Evolution
use polytrader.Prelude.{
  String, Bool, true, false, not, ◌&&◌, Option, none, some, List, [], ◌∷◌, ◌++◌, HasEq, ◌==◌,
  string_eq, ◌||◌, keep_if, is_truthy, opt_eq, if◌then◌else◌,
}
use polytrader.Float.{Float, nought, quotient}
use polytrader.Dict.{Dict, lookup, contains, insert, erase, values}
use polytrader.Effect.{
  Result, ok, err, Action, Done, pure, raise, gets, lift, modify, raise_if, when_some, ◌>>=◌, ◌>>◌,
}
use polytrader.Events.{
  OrderIntentEvent, OrderCreatedEvent, OrderSubmittedEvent, OrderAckEvent, OrderRejectedEvent,
  FillEvent, OrderCanceledEvent, EventMeta,
}
use polytrader.Oms.Models.{
  Order, OrderState, new, pending_submit, submitted, acked, partially_filled, filled, cancelled,
  rejected, state_eq, is_open,
}
use polytrader.Oms.Fsm.{
  OmsError, update_refused, not_in_store, key_error, zero_division, can_transition,
  transition_order_state,
}

-- The classes that `rebuild_from_events` tells apart; `other` is an event of any other class.
pub data Event (F : Type 0) : Type 0 where
  order_created : OrderCreatedEvent F → Event F
  order_submitted : OrderSubmittedEvent F → Event F
  order_ack : OrderAckEvent F → Event F
  order_rejected : OrderRejectedEvent F → Event F
  order_filled : FillEvent F → Event F
  order_canceled : OrderCanceledEvent F → Event F
  other : EventMeta F → Event F

abbrev pub ts_mono_of : {F : Type 0} → Event F → F
ts_mono_of (order_created e) = e.ts_mono
ts_mono_of (order_submitted e) = e.ts_mono
ts_mono_of (order_ack e) = e.ts_mono
ts_mono_of (order_rejected e) = e.ts_mono
ts_mono_of (order_filled e) = e.ts_mono
ts_mono_of (order_canceled e) = e.ts_mono
ts_mono_of (other m) = m.ts_mono

pub record Store (F : Type 0) : Type 0 where
  pub orders : Dict String (Order F)
  pub client_order_ids : Dict String String
  pub venue_order_ids : Dict String String
  pub order_events : Dict String (List (Event F))

abbrev pub Call : Type 0 → Type 0 → Type 0
Call F A = Action OmsError (Store F) A

-- `__init__`
abbrev pub empty_store : {F : Type 0} → Store F
empty_store = record { orders = []; client_order_ids = []; venue_order_ids = []; order_events = [] }

-- `order.venue_order_id and order.venue_order_id in self._venue_order_ids`, then `del`
abbrev pub drop_venue : Option String → Dict String String → Dict String String
drop_venue none ids = ids
drop_venue (some v) ids = if is_truthy v && contains v ids then erase v ids else ids

abbrev pub add_venue : Option String → String → Dict String String → Dict String String
add_venue none order_id ids = ids
add_venue (some v) order_id ids = if is_truthy v then insert v order_id ids else ids

module _ {F : Type 0} where
  -- `self._orders[order_id] = order`
  abbrev pub put_order : String → Order F → Call F Done
  put_order order_id order = modify λ s. record s { orders = insert order_id order s.orders }

  abbrev pub map_client : String → String → Call F Done
  map_client c order_id =
      modify λ s. record s { client_order_ids = insert c order_id s.client_order_ids }

  abbrev pub map_venue : String → String → Call F Done
  map_venue v order_id =
      modify λ s. record s { venue_order_ids = insert v order_id s.venue_order_ids }

  -- `self._order_events[order_id].append(event)`
  abbrev pub append_to : String → Event F → Option (List (Event F)) → Call F Done
  append_to order_id event none s = (err key_error, s)
  append_to order_id event (some past) s =
      (ok tt, record s { order_events = insert order_id (past ++ (event ∷ [])) s.order_events })

  abbrev pub append_event : String → Event F → Call F Done
  append_event order_id event s = append_to order_id event (lookup order_id s.order_events) s

  unfoldable pub get_order : String → Store F → Option (Order F)
  get_order order_id s = lookup order_id s.orders

  -- `order_id = ids.get(key)`, then `if order_id: return self._orders.get(order_id)`
  abbrev pub follow : Option String → Store F → Option (Order F)
  follow none s = none
  follow (some order_id) s = if is_truthy order_id then lookup order_id s.orders else none

  unfoldable pub get_order_by_client_id : String → Store F → Option (Order F)
  get_order_by_client_id c s = follow (lookup c s.client_order_ids) s

  unfoldable pub get_order_by_venue_id : String → Store F → Option (Order F)
  get_order_by_venue_id v s = follow (lookup v s.venue_order_ids) s

  pub get_open_orders : Store F → List (Order F)
  get_open_orders s = keep_if is_open (values s.orders)

  pub get_all_orders : Store F → List (Order F)
  get_all_orders s = values s.orders

  abbrev pub remap_client : Order F → Order F → Dict String String → Dict String String
  remap_client old order ids =
      if order.client_order_id == old.client_order_id
      then ids
      else insert order.client_order_id order.order_id
          (if contains old.client_order_id ids then erase old.client_order_id ids else ids)

  abbrev pub remap_venue : Order F → Order F → Dict String String → Dict String String
  remap_venue old order ids =
      if opt_eq order.venue_order_id old.venue_order_id
      then ids
      else add_venue order.venue_order_id order.order_id (drop_venue old.venue_order_id ids)

  abbrev pub replace : Order F → Order F → Store F → Store F
  replace old order s = record s {
    orders = insert order.order_id order s.orders;
    client_order_ids = remap_client old order s.client_order_ids;
    venue_order_ids = remap_venue old order s.venue_order_ids;
  }

  abbrev pub may_replace : Order F → Order F → Bool
  may_replace old order = state_eq old.state order.state || can_transition old.state order.state

  -- `update_order`, given the order that is stored under the id.
  abbrev pub update_found : Order F → Option (Order F) → Call F Done
  update_found order none s = (err not_in_store, s)
  update_found order (some old) s =
      if may_replace old order
      then (ok tt, replace old order s)
      else (err (update_refused old.state order.state), s)

  unfoldable pub update_order : Order F → Call F Done
  update_order order s = update_found order (lookup order.order_id s.orders) s

module _ {F : Type 0} ⦃fl : Float F⦄ where
  open fl use {lt}

  -- `sorted(events, key=ts_mono)`, which is stable.
  abbrev pub place : Event F → List (Event F) → List (Event F)
  place e [] = e ∷ []
  place e (x ∷ xs) =
      let rest = place e xs in if lt (ts_mono_of x) (ts_mono_of e) then x ∷ rest else e ∷ x ∷ xs

  abbrev pub sort_by_time : List (Event F) → List (Event F)
  sort_by_time [] = []
  sort_by_time (e ∷ es) = place e (sort_by_time es)

  -- `self._order_events.get(order_id, [])`, sorted
  unfoldable pub get_order_history : String → Store F → List (Event F)
  get_order_history order_id s = elim (lookup order_id s.order_events) [
    | none ↦ []
    | some events ↦ sort_by_time events
  ]
