-- ===== src/Oms/Store/Handled.antt =====
-- The event handlers of polytrader/oms/store.py for submissions, acknowledgements, fills and
-- cancels, on every branch, raising or not, make no other change than `Changes` allows.
use polytrader.Prelude.{
  String, ℕ, ◌≡◌, subst, inl, inr, true, none, some, string_eq, text_eq, if◌then◌else◌, arith,
  Option-cases, Bool-cases,
}
use polytrader.Float.{Float}
use polytrader.Dict.{lookup, contains}
use polytrader.Effect.{ok, Result-cases}
use polytrader.Events.{OrderSubmittedEvent, OrderAckEvent, FillEvent, OrderCanceledEvent}
use polytrader.Oms.Models.{
  Order, new, pending_submit, submitted, acked, partially_filled, filled, cancelled, state_eq,
}
use polytrader.Oms.Fsm.{transition_order_state}
use polytrader.Oms.Fsm.Paths.{here}
use polytrader.Oms.Store.{Store, get_order}
use polytrader.Oms.Store.Handlers.{
  handle_order_submitted, handle_order_ack, handle_fill, handle_order_canceled, new_average, settle,
  with_fill,
}
use polytrader.Oms.Store.Changes.{
  Changes, Follows, Follows-refl, Follows-trans, Changes-refl, Changes-map_venue, put_order-Changes,
  append_to-Changes, transition-Follows,
}

module _ {F : Type 0} ⦃fl : Float F⦄ where
  known_of :
      (k : String) (s : Store F) {o : Order F}
      → lookup k s.orders ≡ some o
      → contains k s.orders ≡ true
  known_of k s found = rw (found, contains)

  pub handle_order_canceled-Changes :
      (now : ℕ → F) (e : OrderCanceledEvent F) (s : Store F)
      → Changes e.order_id s (handle_order_canceled now e s).1
  unfolding handle_order_canceled get_order
  handle_order_canceled-Changes now e s = elim (Option-cases (lookup e.order_id s.orders)) [
    | inl missing ↦ rw missing (Changes-refl e.order_id s)
    | inr (o, found) ↦ elim (Result-cases (transition_order_state (now 0) o cancelled e.reason)) [
      | inl (o', done) ↦
          rw (found, done)
            (append_to-Changes _ _ s _ _ (
              put_order-Changes e.order_id o o' s found
                (transition-Follows (now 0) o cancelled e.reason done)))
      | inr (x, refused) ↦ rw (found, refused) (Changes-refl e.order_id s)
    ]
  ]

  -- Neither the venue's id nor what is filled is part of the order's identity.
  with_venue_id-Follows :
      (o o' : Order F) (v : String)
      → Follows o o'
      → Follows o (record o' { venue_order_id = some v })
  with_venue_id-Follows o o' v f = record { same = ground (arith, f.same); path = f.path }

  with_fill-Follows :
      (o : Order F) (e : FillEvent F) (average : F) → Follows o (with_fill o e average)
  with_fill-Follows o e average = record { same = ground arith; path = here }

  pub handle_order_ack-Changes :
      (now : ℕ → F) (e : OrderAckEvent F) (s : Store F)
      → Changes e.order_id s (handle_order_ack now e s).1
  unfolding handle_order_ack get_order
  handle_order_ack-Changes now e s = elim (Option-cases (lookup e.order_id s.orders)) [
    | inl missing ↦ rw missing (Changes-refl e.order_id s)
    | inr (o, found) ↦ elim (Result-cases (transition_order_state (now 0) o acked none)) [
      | inl (o', done) ↦
          let stored =
            put_order-Changes e.order_id o (record o' { venue_order_id = some e.venue_order_id }) s
              found
              (with_venue_id-Follows o o' e.venue_order_id
                (transition-Follows (now 0) o acked none done)) in
          elim (Bool-cases (text_eq e.venue_order_id "")) [
            | inl blank ↦ rw (found, done, blank) (append_to-Changes _ _ s _ _ stored)
            | inr given ↦
                rw (found, done, given)
                  (append_to-Changes _ _ s _ _ (
                    Changes-map_venue e.order_id e.venue_order_id s _ (known_of e.order_id s found)
                      stored))
          ]
      | inr (x, refused) ↦ rw (found, refused) (Changes-refl e.order_id s)
    ]
  ]

  to_pending-Follows :
      (now : F) (o : Order F) {o' : Order F}
      → (if state_eq o.state new then transition_order_state now o pending_submit none else ok o)
        ≡ ok o'
      → Follows o o'
  to_pending-Follows now o {o'} h = elim (Bool-cases (state_eq o.state new)) [
    | inl is_new ↦ transition-Follows now o pending_submit none (rw is_new at h)
    | inr later ↦ let e : o ≡ o' = cc (rw later at h) in subst (Follows o) e (Follows-refl o)
  ]

  pub handle_order_submitted-Changes :
      (now : ℕ → F) (e : OrderSubmittedEvent F) (s : Store F)
      → Changes e.order_id s (handle_order_submitted now e s).1
  unfolding handle_order_submitted get_order
  handle_order_submitted-Changes now e s = elim (Option-cases (lookup e.order_id s.orders)) [
    | inl missing ↦ rw missing (Changes-refl e.order_id s)
    | inr (o, found) ↦
        elim (Result-cases (
          if state_eq o.state new
          then transition_order_state (now 0) o pending_submit none
          else ok o)) [
            | inl (p, first) ↦
                elim (Result-cases (transition_order_state (now 1) p submitted none)) [
                  | inl (o', done) ↦
                      rw (found, first, done)
                        (append_to-Changes _ _ s _ _ (
                          put_order-Changes e.order_id o o' s found (
                            Follows-trans (to_pending-Follows (now 0) o first)
                              (transition-Follows (now 1) p submitted none done))))
                  | inr (x, refused) ↦ rw (found, first, refused) (Changes-refl e.order_id s)
                ]
            | inr (x, refused) ↦ rw (found, refused) (Changes-refl e.order_id s)
          ]
  ]

  settle-Follows : (now : F) (o : Order F) {o' : Order F} → settle now o ≡ ok o' → Follows o o'
  settle-Follows now o {o'} h = elim (Bool-cases (fl.le o.size o.filled_size)) [
    | inl full ↦ transition-Follows now o filled none (rw full at h)
    | inr part ↦ elim (Bool-cases (state_eq o.state acked)) [
      | inl first ↦ transition-Follows now o partially_filled none (rw (part, first) at h)
      | inr later ↦
          let e : o ≡ o' = cc (rw (part, later) at h) in subst (Follows o) e (Follows-refl o)
    ]
  ]

  pub handle_fill-Changes :
      (now : ℕ → F) (e : FillEvent F) (s : Store F) → Changes e.order_id s (handle_fill now e s).1
  unfolding handle_fill get_order
  handle_fill-Changes now e s = elim (Option-cases (lookup e.order_id s.orders)) [
    | inl missing ↦ rw missing (Changes-refl e.order_id s)
    | inr (o, found) ↦ elim (Option-cases (new_average o e)) [
      | inl by_zero ↦ rw (found, by_zero) (Changes-refl e.order_id s)
      | inr (average, has) ↦ elim (Result-cases (settle (now 0) (with_fill o e average))) [
        | inl (o', done) ↦
            rw (found, has, done)
              (append_to-Changes _ _ s _ _ (
                put_order-Changes e.order_id o o' s found (
                  Follows-trans (with_fill-Follows o e average)
                    (settle-Follows (now 0) (with_fill o e average) done))))
        | inr (x, refused) ↦ rw (found, has, refused) (Changes-refl e.order_id s)
      ]
    ]
  ]
