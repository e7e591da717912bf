-- ===== src/Oms/Core/Creation.antt =====
-- What `create_order` of polytrader/oms/core.py does for an intent whose client's id is known.
use polytrader.Prelude.{
  String, ℕ, ◌+◌, ◌≡◌, ◌≢◌, ◌⊎◌, inl, inr, refl, ap, ◌∙◌, true, false, none, some, [], ◌∷◌, ◌++◌,
  string_eq, text_eq, text_eq_iff, arith, Option-cases,
}
use polytrader.Float.{Float}
use polytrader.Dict.{contains, insert, lookup-insert_self}
use polytrader.Effect.{ok, err, Done, pure, ◌>>=◌}
use polytrader.Events.{OrderIntentEvent, OrderCreatedEvent}
use polytrader.Oms.Models.{Order}
use polytrader.Oms.Fsm.{already_mapped}
use polytrader.Oms.Idempotency.{
  Printing, Mappings, generate_client_order_id, record_order, get_order_id,
}
use polytrader.Oms.Store.{order_created, Store, Call, append_event}
use polytrader.Oms.Store.Handlers.{
  fresh_order, created_event, store_new, create_order, handle_order_created,
}
use polytrader.Oms.Core.{event, Core, Env, duplicate_in}
use polytrader.Oms.Core.Handlers.{submit_new, register, create_new, create_unless, create_order_for}

refused_record :
    (c k j : String) (m : Mappings)
    → get_order_id c m ≡ some k
    → k ≢ j
    → record_order c j m ≡ (err already_mapped, m)
unfolding record_order get_order_id
refused_record c k j m mapped other =
    let apart : text_eq k j ≡ false = ground (arith, text_eq_iff k j, other) in
    rw (mapped, apart) refl

module _ {F : Type 0} ⦃fl : Float F⦄ where
  returns :
      (m : Call F Done) (o : Order F) (s s' : Store F)
      → m s ≡ (ok tt, s')
      → (m >>= λ _. pure o) s ≡ (ok o, s')
  returns m o s s' h = ap (λ p. ((λ _. p) >>= λ _. pure o) s) h

  created_again :
      (now : ℕ → F) (e : OrderCreatedEvent F) (s : Store F)
      → contains e.order_id s.orders ≡ true
      → handle_order_created now e s ≡ append_event e.order_id (order_created e) s
  unfolding handle_order_created
  created_again now e s known = rw known refl

  abbrev pub creation_of : Env F → String → OrderIntentEvent F → OrderCreatedEvent F
  creation_of env c intent = created_event (env.uuid 1) (env.now 2) (env.uuid 0) c intent

  abbrev pub stored_new : Env F → String → OrderIntentEvent F → Store F → Store F
  stored_new env c intent s =
      let k = env.uuid 0 in
      record s {
        orders = insert k (fresh_order env.now k c intent) s.orders;
        client_order_ids = insert c k s.client_order_ids;
        order_events =
            insert k (order_created (creation_of env c intent) ∷ []) (insert k [] s.order_events);
      }

  create_order-eq :
      (env : Env F) (c : String) (intent : OrderIntentEvent F) (s : Store F)
      → create_order env.now (env.uuid 0) (env.uuid 1) c intent s
        ≡ (ok (fresh_order env.now (env.uuid 0) c intent), stored_new env c intent s)
  unfolding create_order
  create_order-eq env c intent s =
      let k = env.uuid 0 in
      let order = fresh_order env.now k c intent in
      let s' : Store F = (store_new order s).1 in
      let known : contains k s'.orders ≡ true =
        rw (lookup-insert_self k order s.orders, contains) refl in
      returns (handle_order_created (λ i. env.now (3 + i)) (creation_of env c intent)) order s' _ (
        created_again (λ i. env.now (3 + i)) (creation_of env c intent) s' known
        ∙ (rw (lookup-insert_self k [] s.order_events) refl))

  create_new-eq :
      (env : Env F) (c : String) (intent : OrderIntentEvent F) (s : Core F)
      → create_new env c intent s
        ≡ register env c intent
            (fresh_order env.now (env.uuid 0) c intent)
            (record s { store = stored_new env c intent s.store })
  unfolding create_new
  create_new-eq env c intent s =
      ap (λ p. ((λ _. (p.0, record s { store = p.1 })) >>= register env c intent) s)
        (create_order-eq env c intent s.store)

  -- The state in which the new order's id is to be recorded.
  abbrev pub announced : Env F → String → OrderIntentEvent F → Core F → Core F
  announced env c intent s = record s {
    store = stored_new env c intent s.store;
    order_timestamps =
        insert (env.uuid 0)
          (record {
            created = some (env.now 5);
            submitted_at = none;
            acked_at = none;
            first_fill = none;
          })
          s.order_timestamps;
    published = s.published ++ (event (order_created (creation_of env c intent)) ∷ []);
  }

  -- The recovery case: the table has the id of another order.
  create_new-mapped :
      (env : Env F) (c k : String) (intent : OrderIntentEvent F) (s : Core F)
      → get_order_id c s.idempotency ≡ some k
      → k ≢ env.uuid 0
      → create_new env c intent s ≡ (err already_mapped, announced env c intent s)
  create_new-mapped env c k intent s mapped other =
      let s' = announced env c intent s in
      let order = fresh_order env.now (env.uuid 0) c intent in
      create_new-eq env c intent s
      ∙ ap
          (λ p.
            ((λ _. (p.0, record s' { idempotency = p.1 })) >>= λ _. submit_new env c intent order)
              s')
          (refused_record c k (env.uuid 0) s.idempotency mapped other)

  -- An intent whose client's id the table already has: if the order that the table names is in the
  -- store, the call returns it and changes nothing; if it is not, the call raises, since the id is
  -- mapped, and leaves behind a new order in the store, with its log, an entry of its creation time
  -- and its published `OrderCreated`. In neither case is a command sent to the venue.
  pub create_order_for_known :
      (printing : Printing F) (run_id : String) (env : Env F) (intent : OrderIntentEvent F)
      (s : Core F) (k : String)
      → let c = generate_client_order_id printing run_id intent in
        get_order_id c s.idempotency ≡ some k
        → k ≢ env.uuid 0
        → ((o : Order F) × (duplicate_in s.store (some k) ≡ some o)
            × (create_order_for printing run_id env intent s ≡ (ok o, s)))
          ⊎ ((duplicate_in s.store (some k) ≡ none)
              × (create_order_for printing run_id env intent s
                  ≡ (err already_mapped, announced env c intent s)))
  unfolding create_order_for
  create_order_for_known printing run_id env intent s k mapped other =
      let c = generate_client_order_id printing run_id intent in
      elim (Option-cases (duplicate_in s.store (some k))) [
        | inl missing ↦ inr (
          missing,
          ap (λ d. create_unless env c intent d s) (ap (duplicate_in s.store) mapped ∙ missing)
              ∙ create_new-mapped env c k intent s mapped other,
        )
        | inr (o, found) ↦ inl (
          o,
          found,
          ap (λ d. create_unless env c intent d s) (ap (duplicate_in s.store) mapped ∙ found),
        )
      ]
