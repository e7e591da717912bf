-- ===== src/Oms/Core/Loop/Invariant.antt =====
-- The handlers of polytrader/oms/core.py keep the order store consistent, on every branch.
use polytrader.Prelude.{
  String, ℕ, suc, ◌+◌, inl, inr, Option, none, some, List, [], ◌∷◌, Bool-cases, Option-cases,
}
use polytrader.Float.{Float}
use polytrader.Dict.{lookup}
use polytrader.Effect.{Done, Result-cases, >>=_keeps, ◌>>=◌, gets}
use polytrader.Events.{fill_fields_valid}
use polytrader.Oms.Models.{Order, is_terminal_order, acked}
use polytrader.Oms.Fsm.{transition_order_state}
use polytrader.Oms.Store.{get_order, get_order_by_client_id, update_order}
use polytrader.Oms.Store.Handlers.{handle_fill}
use polytrader.Oms.Store.Handled.{
  handle_order_ack-Changes, handle_fill-Changes, handle_order_canceled-Changes,
}
use polytrader.Oms.Store.Rejection.{handle_order_rejected-Changes}
use polytrader.Oms.Store.Invariant.{IsValid, Changes-IsValid}
use polytrader.Oms.Store.Invariant.Update.{update_order-IsValid}
use polytrader.Oms.Core.{Core, Env, Op, on_store, clean_up}
use polytrader.Oms.Core.Handlers.{
  handle_venue_ack, handle_venue_reject, overfills, fill_event, handle_venue_fill, handle_cancel,
}
use polytrader.Oms.Core.Canonical.{
  match_order, if_found, cancel_reason, handle_canonical_ack, handle_canonical_reject,
  handle_canonical_fill, handle_canonical_cancel,
}
use polytrader.Oms.Core.Loop.{
  UserMessage, order_acked, order_refused, order_fill, order_cancel, handle_message, serve,
}

module _ {F : Type 0} ⦃fl : Float F⦄ where
  handle_cancel-IsValid :
      (env : Env F) (c : String) (reason : Option String) (s : Core F)
      → IsValid s.store
      → IsValid (handle_cancel env c reason s).1.store
  unfolding handle_cancel
  handle_cancel-IsValid env c reason s v = elim (Option-cases (get_order_by_client_id c s.store)) [
    | inl missing ↦ rw missing v
    | inr (o, found) ↦ elim (Bool-cases (is_terminal_order o)) [
      | inl ends ↦ rw (found, ends) v
      | inr open_ ↦
          rw (found, open_)
            (Changes-IsValid (handle_order_canceled-Changes (λ i. env.now (2 + i)) _ s.store) v)
    ]
  ]

  handle_venue_reject-IsValid :
      (env : Env F) (c reason : String) (s : Core F)
      → IsValid s.store
      → IsValid (handle_venue_reject env c reason s).1.store
  unfolding handle_venue_reject
  handle_venue_reject-IsValid env c reason s v =
      elim (Option-cases (get_order_by_client_id c s.store)) [
        | inl missing ↦ rw missing v
        | inr (o, found) ↦
            rw found
              (Changes-IsValid (handle_order_rejected-Changes (λ i. env.now (1 + i)) _ s.store) v)
      ]

  handle_venue_fill-IsValid :
      (env : Env F) (c : String) (size price fee : F) (id : Option String) (s : Core F)
      → IsValid s.store
      → IsValid (handle_venue_fill env c size price fee id s).1.store
  unfolding handle_venue_fill
  handle_venue_fill-IsValid env c size price fee id s v =
      elim (Option-cases (get_order_by_client_id c s.store)) [
        | inl missing ↦ rw missing v
        | inr (o, found) ↦ elim (Bool-cases (overfills o size)) [
          | inl over ↦ rw (found, over) v
          | inr fits ↦ elim (Bool-cases (fill_fields_valid size price fee)) [
            | inr wrong ↦ rw (found, fits, wrong) v
            | inl valid ↦
                rw (found, fits, valid)
                  (>>=_keeps (λ t. IsValid t.store)
                    (on_store
                      (handle_fill (λ i. env.now (2 + i)) (fill_event env o size price fee id)))
                    (λ _. gets (λ t. get_order o.order_id t.store) >>= clean_up) _
                    (Changes-IsValid (handle_fill-Changes (λ i. env.now (2 + i)) _ s.store) v)
                    (λ a h.
                      (Changes-IsValid (handle_fill-Changes (λ i. env.now (2 + i)) _ s.store) v)))
          ]
        ]
      ]

  handle_venue_ack-IsValid :
      (env : Env F) (c venue_order_id : String) (s : Core F)
      → IsValid s.store
      → IsValid (handle_venue_ack env c venue_order_id s).1.store
  unfolding handle_venue_ack update_order lookup
  handle_venue_ack-IsValid env c venue_order_id s v =
      elim (Option-cases (get_order_by_client_id c s.store)) [
        | inl missing ↦ rw missing v
        | inr (o, found) ↦ elim (Result-cases (transition_order_state (env.now 1) o acked none)) [
          | inr (e, refused) ↦ rw (found, refused) v
          | inl (o', done) ↦
              let order : Order F = record o' { venue_order_id = some venue_order_id } in
              let updated = update_order-IsValid order s.store v in
              elim (Result-cases (update_order order s.store).0) [
                | inr (e, barred) ↦ rw (found, done, barred) updated
                | inl (a, stored) ↦
                    rw (found, done, stored)
                      (Changes-IsValid (handle_order_ack-Changes (λ i. env.now (3 + i)) _ _)
                        updated)
              ]
        ]
      ]

  if_found-IsValid :
      (m : Option (Order F)) (f : Order F → Op F Done) (s : Core F)
      → IsValid s.store
      → ((o : Order F) → IsValid (f o s).1.store)
      → IsValid (if_found m f s).1.store
  if_found-IsValid none f s v h = v
  if_found-IsValid (some o) f s v h = h o

  handle_message-IsValid :
      (env : Env F) (m : UserMessage F) (s : Core F)
      → IsValid s.store
      → IsValid (handle_message env m s).1.store
  unfolding handle_message handle_canonical_ack handle_canonical_reject handle_canonical_fill
      handle_canonical_cancel
  handle_message-IsValid env (order_acked m) s v =
      if_found-IsValid (match_order (some m.client_order_id) (some m.venue_order_id) s.store)
        (λ o. handle_venue_ack env o.client_order_id m.venue_order_id) s v
        (λ o. handle_venue_ack-IsValid env o.client_order_id m.venue_order_id s v)
  handle_message-IsValid env (order_refused m) s v =
      if_found-IsValid (match_order (some m.client_order_id) none s.store)
        (λ o. handle_venue_reject env o.client_order_id m.reason) s v
        (λ o. handle_venue_reject-IsValid env o.client_order_id m.reason s v)
  handle_message-IsValid env (order_fill m) s v =
      let id = some m.fill_id in
      if_found-IsValid (match_order m.client_order_id m.venue_order_id s.store)
        (λ o. handle_venue_fill env o.client_order_id m.size m.price m.fee id) s v
        (λ o. handle_venue_fill-IsValid env o.client_order_id m.size m.price m.fee id s v)
  handle_message-IsValid env (order_cancel m) s v =
      let reason = some (cancel_reason m.venue_order_id) in
      if_found-IsValid (match_order m.client_order_id (some m.venue_order_id) s.store)
        (λ o. handle_cancel env o.client_order_id reason) s v
        (λ o. handle_cancel-IsValid env o.client_order_id reason s v)

  -- Whatever the user stream brings, and also where handlers raise, the order store stays
  -- consistent: every order under its own id and with a log, every client's id leading to an order
  -- that has it, every venue's id leading to an order.
  pub serve-IsValid :
      (envs : ℕ → Env F) (ms : List (UserMessage F)) (s : Core F)
      → IsValid s.store
      → IsValid (serve envs ms s).store
  unfolding serve
  serve-IsValid envs [] s v = v
  serve-IsValid envs (m ∷ ms) s v =
      serve-IsValid (λ k. envs (suc k)) ms (handle_message (envs 0) m s).1
        (handle_message-IsValid (envs 0) m s v)
