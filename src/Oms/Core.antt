-- ===== src/Oms/Core.antt =====
-- polytrader/oms/core.py: `OMSCore`, which turns approved intents into orders and the venue's
-- answers into events. A handler runs as one step: its publications only append to the bus, here
-- the list `published`. Logs, metrics and the loops that read the queues are left out.
pub mod Handlers
pub mod Canonical
pub mod Cancel
pub mod Fill
pub mod Creation
pub mod Loop
use polytrader.Prelude.{
  String, ℕ, ◌+◌, Bool, true, false, ◌&&◌, Option, none, some, List, [], ◌∷◌, ◌++◌, string_eq,
  is_truthy, if◌then◌else◌,
}
use polytrader.Float.{Float}
use polytrader.Dict.{Dict, lookup, contains, insert, erase}
use polytrader.Effect.{
  Result, ok, err, Action, Done, pure, raise, gets, lift, modify, raise_if, when_some, ◌>>=◌, ◌>>◌,
}
use polytrader.Events.{
  OrderIntentEvent, OrderSubmittedEvent, OrderAckEvent, OrderRejectedEvent, FillEvent,
  OrderCanceledEvent, CancelRequestedEvent, event_meta, fill_fields_valid,
}
use polytrader.Oms.Models.{Order, OrderState, pending_submit, submitted, acked, is_terminal_order}
use polytrader.Oms.Fsm.{
  OmsError, not_found, fill_exceeds_size, already_terminal, key_error, validation_error,
  transition_order_state,
}
use polytrader.Oms.Idempotency.{
  Printing, Mappings, generate_client_order_id, record_order, get_order_id,
}
use polytrader.Oms.Store.{
  Event, order_created, order_submitted, order_ack, order_rejected, order_filled, order_canceled,
  Call, Store, get_order, get_order_by_client_id, update_order,
}
use polytrader.Oms.Store.Handlers.{
  created_event, create_order, handle_order_submitted, handle_order_ack, handle_order_rejected,
  handle_fill, handle_order_canceled,
}

-- The commands of polytrader/oms/commands.py.
pub record SubmitOrderCommand (F : Type 0) : Type 0 where
  pub order_id : String
  pub client_order_id : String
  pub intent : OrderIntentEvent F
  pub correlation_id : String

pub record CancelOrderCommand : Type 0 where
  pub order_id : String
  pub client_order_id : String
  pub venue_order_id : Option String
  pub reason : Option String
  pub correlation_id : String

-- What is published, each class on the topic of its name.
pub data Message (F : Type 0) : Type 0 where
  event : Event F → Message F
  submit_command : SubmitOrderCommand F → Message F
  cancel_command : CancelOrderCommand → Message F
  cancel_requested : CancelRequestedEvent F → Message F

-- One entry of `_order_timestamps`: a key that is absent is `none`.
pub record Stamps (F : Type 0) : Type 0 where
  pub created : Option F
  pub submitted_at : Option F
  pub acked_at : Option F
  pub first_fill : Option F

pub record Core (F : Type 0) : Type 0 where
  pub store : Store F
  pub idempotency : Mappings
  pub order_timestamps : Dict String (Stamps F)
  pub published : List (Message F)

-- What one call reads: the monotonic clock, and new `uuid4`s.
pub record Env (F : Type 0) : Type 0 where
  pub now : ℕ → F
  pub uuid : ℕ → String

abbrev pub Op : Type 0 → Type 0 → Type 0
Op F A = Action OmsError (Core F) A

module _ {F : Type 0} where
  abbrev pub on_store : {A : Type 0} → Call F A → Op F A
  on_store m c = let (r, s) = m c.store in (r, record c { store = s })

  abbrev pub on_mappings : {A : Type 0} → Action OmsError Mappings A → Op F A
  on_mappings m c = let (r, t) = m c.idempotency in (r, record c { idempotency = t })

  abbrev pub publish : Message F → Op F Done
  publish m = modify λ c. record c { published = c.published ++ (m ∷ []) }

  abbrev pub set_stamps : String → Stamps F → Op F Done
  set_stamps k t = modify λ c. record c { order_timestamps = insert k t c.order_timestamps }

  -- `if order_id in self._order_timestamps: del ...`
  abbrev pub without_stamps : String → Dict String (Stamps F) → Dict String (Stamps F)
  without_stamps k d = if contains k d then erase k d else d

  abbrev pub drop_stamps : String → Op F Done
  drop_stamps k = modify λ c. record c { order_timestamps = without_stamps k c.order_timestamps }

  -- A change of the entry, if there is one.
  abbrev pub with_stamps :
      String
      → (Stamps F → Stamps F)
      → Option (Stamps F)
      → Dict String (Stamps F)
      → Dict String (Stamps F)
  with_stamps k f none d = d
  with_stamps k f (some t) d = insert k (f t) d

  abbrev pub update_stamps : String → (Stamps F → Stamps F) → Op F Done
  update_stamps k f = modify λ c. record c {
    order_timestamps = with_stamps k f (lookup k c.order_timestamps) c.order_timestamps;
  }

  abbrev pub or_raise : {A : Type 0} → OmsError → Option A → Op F A
  or_raise e none = raise e
  or_raise e (some a) = pure a

  -- The order of the client's id, and the rest of the handler; without it, `ValueError`.
  abbrev pub with_order : {A : Type 0} → (Order F → Op F A) → Option (Order F) → Op F A
  with_order f none = raise not_found
  with_order f (some order) = f order

  abbrev pub find_order : {A : Type 0} → String → (Order F → Op F A) → Op F A
  find_order client_order_id f c = with_order f (get_order_by_client_id client_order_id c.store) c

  abbrev pub mark_first_fill : F → Stamps F → Stamps F
  mark_first_fill t s = elim s.first_fill [ none ↦ record s { first_fill = some t } | some _ ↦ s ]

  -- The entry of a terminal order goes.
  abbrev pub cleaned : Option (Order F) → Dict String (Stamps F) → Dict String (Stamps F)
  cleaned none d = d
  cleaned (some o) d = if is_terminal_order o then without_stamps o.order_id d else d

  abbrev pub clean_up : Option (Order F) → Op F Done
  clean_up o = modify λ c. record c { order_timestamps = cleaned o c.order_timestamps }

  -- The order that an earlier call made for the same client's id.
  abbrev pub duplicate_in : Store F → Option String → Option (Order F)
  duplicate_in s none = none
  duplicate_in s (some order_id) = if is_truthy order_id then get_order order_id s else none

  abbrev pub duplicate_of : String → Core F → Option (Order F)
  duplicate_of client_order_id c = duplicate_in c.store (get_order_id client_order_id c.idempotency)
