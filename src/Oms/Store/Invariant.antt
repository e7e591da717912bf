-- ===== src/Oms/Store/Invariant.antt =====
-- What holds of the store of polytrader/oms/store.py between two calls, and that a handler whose
-- changes are `Changes` keeps it.
pub mod Update
pub mod Creation
use polytrader.Prelude.{
  String, ℕ, suc, ◌+◌, ◌≡◌, refl, ap, ◌≢◌, sym, subst, ◌∙◌, ◌⊎◌, inl, inr, Bool, true, false,
  Option, none, some, List, [], ◌∷◌, ◌++◌, string_eq, text_eq, text_eq_iff, ==_refl, ◌==◌,
  is_truthy, if◌then◌else◌, arith, Option-cases, Bool-cases,
}
use polytrader.Float.{Float}
use polytrader.Dict.{
  Dict, lookup, contains, insert, erase, lookup-insert, lookup-insert_self, lookup-erase,
}
use polytrader.Effect.{
  Result, ok, err, Done, pure, raise, gets, lift, modify, when_some, ◌>>=◌, ◌>>◌, Result-cases,
  state-return, >>=_keeps,
}
use polytrader.Events.{OrderIntentEvent, OrderCreatedEvent}
use polytrader.Oms.Models.{Order, OrderState, new, state_eq}
use polytrader.Oms.Fsm.{can_transition}
use polytrader.Oms.Fsm.Paths.{SameOrder, ◌⟶*◌, here}
use polytrader.Oms.Store.{
  Event, order_created, order_submitted, order_ack, order_rejected, order_filled, order_canceled,
  other, Call, Store, empty_store, append_to, get_order, remap_client, remap_venue, add_venue,
  drop_venue, update_order, replace, may_replace,
}
use polytrader.Oms.Store.Handlers.{
  handle_order_created, create_order, store_new, fresh_order, created_event, replay_event, replay,
  rebuild_from_events,
}
use polytrader.Oms.Store.Changes.{
  Orders, kept, moved, Changes, Changes-refl, append_to-Changes, log-insert,
}
use polytrader.Oms.Store.Handled.{
  handle_order_submitted-Changes, handle_order_ack-Changes, handle_fill-Changes,
  handle_order_canceled-Changes,
}
use polytrader.Oms.Store.Rejection.{handle_order_rejected-Changes}

pub record IsValid {F : Type 0} (s : Store F) : Type 0 where
  -- An order is stored under its own id, and has a log.
  pub keyed : (j : String) (o : Order F) → lookup j s.orders ≡ some o → o.order_id ≡ j
  pub logged : (j : String) → contains j s.orders ≡ true → contains j s.order_events ≡ true
  -- A client's id leads to an order that has it.
  pub clients :
      (c j : String)
      → lookup c s.client_order_ids ≡ some j
      → (o : Order F) × (lookup j s.orders ≡ some o) × (o.client_order_id ≡ c)
  -- A venue's id leads to an order.
  pub venues : (v j : String) → lookup v s.venue_order_ids ≡ some j → contains j s.orders ≡ true

module _ {F : Type 0} where
  pub empty-IsValid : IsValid (empty_store {F = F})
  unfolding lookup
  empty-IsValid = record {
    keyed = λ j o h. cc;
    logged = λ j h. cc;
    clients = λ c j h. cc;
    venues = λ v j h. cc;
  }

  Orders-lookup :
      {k : String} {s s' : Store F} (j : String) (o : Order F)
      → Orders k s s'
      → lookup j s.orders ≡ some o
      → (o' : Order F) × (lookup j s'.orders ≡ some o') × SameOrder o o'
  Orders-lookup j o (kept h) found = (o, h j ∙ found, ground arith)
  Orders-lookup {k} j o (moved p p' found' follows h) found = elim (Bool-cases (k == j)) [
    | inl hit ↦
        let e : k ≡ j = (text_eq_iff k j).0 hit in
        let e' : p ≡ o = ground (arith, found', found) in
        (p', rw (h j, hit), subst (λ q. SameOrder q p') e' follows.same)
    | inr miss ↦ (o, rw (h j, miss) found, ground arith)
  ]

  Orders-keyed :
      {k : String} {s s' : Store F} (j : String) (o' : Order F)
      → Orders k s s'
      → IsValid s
      → lookup j s'.orders ≡ some o'
      → o'.order_id ≡ j
  Orders-keyed j o' (kept h) v found = v.keyed j o' (sym (h j) ∙ found)
  Orders-keyed {k} j o' (moved p p' found' follows h) v found =
      ground (arith, h j, text_eq_iff k j, v.keyed j o', v.keyed k p found', follows.same)

  Orders-known :
      {k : String} {s s' : Store F} (j : String)
      → Orders k s s'
      → contains j s'.orders ≡ contains j s.orders
  Orders-known j (kept h) = rw (h j, contains)
  Orders-known {k} j (moved p p' found' follows h) = ground (arith, h j, text_eq_iff k j, found')

  -- A handler keeps the invariant.
  pub Changes-IsValid : {k : String} {s s' : Store F} → Changes k s s' → IsValid s → IsValid s'
  Changes-IsValid {k} {s} {s'} c v = record {
    keyed = λ j o h. Orders-keyed j o c.orders v h;
    logged = λ j h. c.log j (v.logged j (sym (Orders-known j c.orders) ∙ h));
    clients = λ i j h.
        let (o, found, named) = v.clients i j (rw c.clients at h) in
        let (o', found', same) = Orders-lookup j o c.orders found in
        (o', found', same.client_order_id ∙ named);
    venues = λ w j h. Orders-known j c.orders ∙ (elim (c.venues w) [
      | inl same ↦ v.venues w j (sym same ∙ h)
      | inr (now_k, known) ↦ let e : k ≡ j = cc in subst (λ i. contains i s.orders ≡ true) e known
    ]);
  }

  pub stored_client :
      (order o : Order F) (d : Dict String (Order F)) (c j : String)
      → lookup j d ≡ some o
      → o.client_order_id ≡ c
      → (order.order_id ≡ j → order.client_order_id ≡ c)
      → (p : Order F) × (lookup j (insert order.order_id order d) ≡ some p)
        × (p.client_order_id ≡ c)
  stored_client order o d c j found named agree = elim (Bool-cases (order.order_id == j)) [
    | inl hit ↦ (
      order,
      rw (lookup-insert order.order_id j order d, hit),
      agree ((text_eq_iff order.order_id j).0 hit),
    )
    | inr miss ↦ (o, rw (lookup-insert order.order_id j order d, miss) found, named)
  ]
