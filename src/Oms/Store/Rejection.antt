-- ===== src/Oms/Store/Rejection.antt =====
-- `handle_order_rejected` of polytrader/oms/store.py writes the order up to three times, so its
-- changes are put together from those of its parts.
use polytrader.Prelude.{String, ℕ, ◌≡◌, inl, inr, none, some, string_eq, Option-cases, Bool-cases}
use polytrader.Float.{Float}
use polytrader.Dict.{lookup, lookup-insert_self}
use polytrader.Effect.{ok, Done, ◌>>=◌, Result-cases, >>=_keeps}
use polytrader.Events.{OrderRejectedEvent}
use polytrader.Oms.Models.{Order, OrderState, new, pending_submit, submitted, rejected, state_eq}
use polytrader.Oms.Fsm.{transition_order_state}
use polytrader.Oms.Store.{Call, Store, get_order}
use polytrader.Oms.Store.Handlers.{handle_order_rejected, advance, finish_rejection}
use polytrader.Oms.Store.Changes.{
  Changes, Changes-refl, Changes-trans, put_order-Changes, append_to-Changes, transition-Follows,
}

module _ {F : Type 0} ⦃fl : Float F⦄ where
  advance-Changes :
      (now : F) (k : String) (from to : OrderState) (o : Order F) (s : Store F)
      → lookup k s.orders ≡ some o
      → Changes k s (advance now k from to o s).1
  advance-Changes now k from to o s found = elim (Bool-cases (state_eq o.state from)) [
    | inl here_now ↦ elim (Result-cases (transition_order_state now o to none)) [
      | inl (o', done) ↦
          rw (here_now, done)
            (put_order-Changes k o o' s found (transition-Follows now o to none done))
      | inr (x, refused) ↦ rw (here_now, refused) (Changes-refl k s)
    ]
    | inr elsewhere ↦ rw elsewhere (Changes-refl k s)
  ]

  -- `advance` returns the order that is stored now.
  advance-stored :
      (now : F) (k : String) (from to : OrderState) (o : Order F) (s : Store F) {p : Order F}
      → lookup k s.orders ≡ some o
      → (advance now k from to o s).0 ≡ ok p
      → lookup k (advance now k from to o s).1.orders ≡ some p
  advance-stored now k from to o s found h = elim (Bool-cases (state_eq o.state from)) [
    | inl here_now ↦ elim (Result-cases (transition_order_state now o to none)) [
      | inl (o', done) ↦
          rw (here_now, done, lookup-insert_self k o' s.orders) (cc (rw (here_now, done) at h))
      | inr (x, refused) ↦ cc (rw (here_now, refused) at h)
    ]
    | inr elsewhere ↦ rw (elsewhere, found) (cc (rw elsewhere at h))
  ]

  -- A call and then a second one.
  bind-Changes :
      {A B : Type 0} (k : String) (s : Store F) (m : Call F A) (f : A → Call F B)
      → Changes k s (m s).1
      → ((a : A) → (m s).0 ≡ ok a → Changes k (m s).1 (f a (m s).1).1)
      → Changes k s ((m >>= f) s).1
  bind-Changes k s m f c d = >>=_keeps (Changes k s) m f s c (λ a h. Changes-trans c (d a h))

  finish_rejection-Changes :
      (now : F) (e : OrderRejectedEvent F) (o : Order F) (s : Store F)
      → lookup e.order_id s.orders ≡ some o
      → Changes e.order_id s (finish_rejection now e o s).1
  finish_rejection-Changes now e o s found =
      elim (Result-cases (transition_order_state now o rejected (some e.reason))) [
        | inl (o', done) ↦ rw done (
            append_to-Changes _ _ s _ _ (
              put_order-Changes e.order_id o o' s found
                (transition-Follows now o rejected (some e.reason) done)))
        | inr (x, refused) ↦ rw refused (Changes-refl e.order_id s)
      ]

  pub handle_order_rejected-Changes :
      (now : ℕ → F) (e : OrderRejectedEvent F) (s : Store F)
      → Changes e.order_id s (handle_order_rejected now e s).1
  unfolding handle_order_rejected get_order
  handle_order_rejected-Changes now e s = elim (Option-cases (lookup e.order_id s.orders)) [
    | inl missing ↦ rw missing (Changes-refl e.order_id s)
    | inr (o, found) ↦ rw found (
        bind-Changes k s (advance (now 0) k new pending_submit o) (λ p. second p >>= last)
          (advance-Changes (now 0) k new pending_submit o s found)
          λ p h.
            let found' = advance-stored (now 0) k new pending_submit o s found h in
            let s' : Store F = (advance (now 0) k new pending_submit o s).1 in
            bind-Changes k s' (second p) last
              (advance-Changes (now 1) k pending_submit submitted p s' found')
              λ q h'.
                finish_rejection-Changes (now 2) e q (second p s').1
                  (advance-stored (now 1) k pending_submit submitted p s' found' h'))
  ]
    where
      k : String
      k = e.order_id

      second : Order F → Call F (Order F)
      second p = advance (now 1) k pending_submit submitted p

      last : Order F → Call F Done
      last = finish_rejection (now 2) e
