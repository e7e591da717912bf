-- ===== src/Oms/Store/Survival.antt =====
-- No handler and no replay of polytrader/oms/store.py loses an order, and a creation event that is
-- reached leaves one.
use polytrader.Prelude.{
  ap, sym, true, ◌∙◌, ◌++◌, String, ℕ, suc, ◌≡◌, refl, inl, inr, Option, none, some, List, [], ◌∷◌,
  string_eq, text_eq_iff, ◌==◌, if◌then◌else◌, Option-cases, Bool-cases,
}
use polytrader.Float.{Float}
use polytrader.Dict.{lookup-insert_self, lookup, contains, insert, lookup-insert}
use polytrader.Effect.{ok, err, is_ok, Result-cases, bind_ok, bind_err, state-return, >>=_keeps}
use polytrader.Events.{OrderCreatedEvent}
use polytrader.Oms.Fsm.{OmsError}
use polytrader.Oms.Models.{Order}
use polytrader.Oms.Store.{
  Event, order_created, order_submitted, order_ack, order_rejected, order_filled, order_canceled,
  other, Store, append_event,
}
use polytrader.Oms.Store.Handlers.{
  handle_order_created, store_new, fresh_order, replay_event, replay,
}
use polytrader.Oms.Store.Changes.{Orders, kept, moved, Follows, Follows-refl, Follows-trans}
use polytrader.Oms.Store.Handled.{
  handle_order_submitted-Changes, handle_order_ack-Changes, handle_fill-Changes,
  handle_order_canceled-Changes,
}
use polytrader.Oms.Store.Rejection.{handle_order_rejected-Changes}

-- An order that is there keeps its identity and moves along the state machine.
abbrev pub Survives : {F : Type 0} → Option (Order F) → Option (Order F) → Type 0
Survives none m = Unit
Survives (some o) none = ⊥
Survives (some o) (some o') = Follows o o'

module _ {F : Type 0} where
  pub Survives-refl : (m : Option (Order F)) → Survives m m
  Survives-refl none = tt
  Survives-refl (some o) = Follows-refl o

  Survives-trans : (l m n : Option (Order F)) → Survives l m → Survives m n → Survives l n
  Survives-trans none m n p q = tt
  Survives-trans (some o) none n p q = absurd p
  Survives-trans (some o) (some o') none p q = absurd q
  Survives-trans (some o) (some o') (some o'') p q = Follows-trans p q

  Orders-Survives :
      {k : String} {s s' : Store F} (j : String)
      → Orders k s s'
      → Survives (lookup j s.orders) (lookup j s'.orders)
  Orders-Survives {s = s} j (kept h) = rw (h j) (Survives-refl (lookup j s.orders))
  Orders-Survives {k} {s = s} j (moved o o' found follows h) =
      rw (h j) (elim (Bool-cases (k == j)) [
        | inl hit ↦ let e : k ≡ j = (text_eq_iff k j).0 hit in rw (hit, ← e, found) follows
        | inr miss ↦ rw miss (Survives-refl (lookup j s.orders))
      ])

module _ {F : Type 0} ⦃fl : Float F⦄ where
  -- The log of the events is all that `append_event` writes.
  pub append_event-orders :
      (k : String) (event : Event F) (s : Store F) → (append_event k event s).1.orders ≡ s.orders
  append_event-orders k event s = elim (Option-cases (lookup k s.order_events)) [
    | inl missing ↦ rw (missing, append_event) refl
    | inr (past, found) ↦ rw (found, append_event) refl
  ]

  -- The orders after a creation event.
  pub created-orders :
      (now : ℕ → F) (e : OrderCreatedEvent F) (s : Store F)
      → (handle_order_created now e s).1.orders ≡ (
          if contains e.order_id s.orders
          then s.orders
          else insert e.order_id (fresh_order now e.order_id e.client_order_id e.intent) s.orders)
  unfolding handle_order_created
  created-orders now e s = elim (Bool-cases (contains e.order_id s.orders)) [
    | inl known ↦ rw known (append_event-orders e.order_id (order_created e) s)
    | inr free ↦
        let order : Order F = fresh_order now e.order_id e.client_order_id e.intent in
        rw free (append_event-orders e.order_id (order_created e) (store_new order s).1)
  ]

  created-Survives :
      (now : ℕ → F) (e : OrderCreatedEvent F) (s : Store F) (j : String)
      → Survives (lookup j s.orders) (lookup j (handle_order_created now e s).1.orders)
  created-Survives now e s j =
      let order : Order F = fresh_order now e.order_id e.client_order_id e.intent in
      rw (created-orders now e s) (elim (Option-cases (lookup e.order_id s.orders)) [
        | inl free ↦
            rw (contains, free, lookup-insert e.order_id j order s.orders)
              (elim (Bool-cases (e.order_id == j)) [
                | inl hit ↦
                    let q : e.order_id ≡ j = (text_eq_iff e.order_id j).0 hit in
                    rw (hit, ← q, free) tt
                | inr miss ↦ rw miss (Survives-refl (lookup j s.orders))
              ])
        | inr (o, found) ↦ rw (contains, found) (Survives-refl (lookup j s.orders))
      ])

  replay_event-Survives :
      (now : ℕ → F) (e : Event F) (s : Store F) (j : String)
      → Survives (lookup j s.orders) (lookup j (replay_event now e s).1.orders)
  unfolding replay_event
  replay_event-Survives now (order_created e) s j = created-Survives now e s j
  replay_event-Survives now (order_submitted e) s j =
      Orders-Survives j (handle_order_submitted-Changes now e s).orders
  replay_event-Survives now (order_ack e) s j =
      Orders-Survives j (handle_order_ack-Changes now e s).orders
  replay_event-Survives now (order_rejected e) s j =
      Orders-Survives j (handle_order_rejected-Changes now e s).orders
  replay_event-Survives now (order_filled e) s j =
      Orders-Survives j (handle_fill-Changes now e s).orders
  replay_event-Survives now (order_canceled e) s j =
      Orders-Survives j (handle_order_canceled-Changes now e s).orders
  replay_event-Survives now (other m) s j = Survives-refl (lookup j s.orders)

  pub replay-Survives :
      (now : ℕ → ℕ → F) (es : List (Event F)) (s : Store F) (j : String)
      → Survives (lookup j s.orders) (lookup j (replay now es s).1.orders)
  unfolding replay
  replay-Survives now [] s j = Survives-refl (lookup j s.orders)
  replay-Survives now (e ∷ es) s j =
      let s' : Store F = (replay_event (now 0) e s).1 in
      let p = replay_event-Survives (now 0) e s j in
      >>=_keeps (λ t. Survives (lookup j s.orders) (lookup j t.orders)) (replay_event (now 0) e)
        (λ _. replay (λ k. now (suc k)) es) s p
        λ a h.
          Survives-trans (lookup j s.orders) (lookup j s'.orders) _ p
            (replay-Survives (λ k. now (suc k)) es s' j)

  -- What is there after the first event.
  pub rest-Survives :
      (now : ℕ → ℕ → F) (e : Event F) (es : List (Event F)) (s : Store F) (j : String)
      → Survives
          (lookup j (replay_event (now 0) e s).1.orders)
          (lookup j (replay now (e ∷ es) s).1.orders)
  unfolding replay
  rest-Survives now e es s j =
      let s' : Store F = (replay_event (now 0) e s).1 in
      >>=_keeps (λ t. Survives (lookup j s'.orders) (lookup j t.orders)) (replay_event (now 0) e)
        (λ _. replay (λ k. now (suc k)) es) s (Survives-refl (lookup j s'.orders))
        λ a h. replay-Survives (λ k. now (suc k)) es s' j

  -- A replay whose first event returns goes on with the others.
  pub replay-next :
      (now : ℕ → ℕ → F) (e : Event F) (es : List (Event F)) (s : Store F) {a : Unit}
      → (replay_event (now 0) e s).0 ≡ ok a
      → replay now (e ∷ es) s ≡ replay (λ k. now (suc k)) es (replay_event (now 0) e s).1
  unfolding replay
  replay-next now e es s returned =
      bind_ok (replay_event (now 0) e) (λ _. replay (λ k. now (suc k)) es) s
        (ap (λ r. (r, (replay_event (now 0) e s).1)) returned)

  pub replay-stops :
      (now : ℕ → ℕ → F) (e : Event F) (es : List (Event F)) (s : Store F) {x : OmsError}
      → (replay_event (now 0) e s).0 ≡ err x
      → (replay now (e ∷ es) s).1 ≡ (replay_event (now 0) e s).1
  unfolding replay
  replay-stops now e es s raised =
      ap (λ p. p.1)
        (bind_err (replay_event (now 0) e) (λ _. replay (λ k. now (suc k)) es) s
          (ap (λ r. (r, (replay_event (now 0) e s).1)) raised))

  replay-raises :
      (now : ℕ → ℕ → F) (e : Event F) (es : List (Event F)) (s : Store F) {x : OmsError}
      → (replay_event (now 0) e s).0 ≡ err x
      → (replay now (e ∷ es) s).0 ≡ err x
  unfolding replay
  replay-raises now e es s raised =
      ap (λ p. p.0)
        (bind_err (replay_event (now 0) e) (λ _. replay (λ k. now (suc k)) es) s
          (ap (λ r. (r, (replay_event (now 0) e s).1)) raised))

  pub replay-one :
      (now : ℕ → ℕ → F) (e : Event F) (s : Store F)
      → (replay now (e ∷ []) s).1 ≡ (replay_event (now 0) e s).1
  unfolding replay
  replay-one now e s = state-return (replay_event (now 0) e) tt s

  created-stored :
      (now : ℕ → F) (e : OrderCreatedEvent F) (s : Store F)
      → (o : Order F) × (lookup e.order_id (handle_order_created now e s).1.orders ≡ some o)
  created-stored now e s =
      let order : Order F = fresh_order now e.order_id e.client_order_id e.intent in
      rw (created-orders now e s) (elim (Option-cases (lookup e.order_id s.orders)) [
        | inl free ↦ rw (contains, free, lookup-insert_self e.order_id order s.orders) (order, refl)
        | inr (o, found) ↦ rw (contains, found) (o, found)
      ])

  still_there :
      (l m : Option (Order F)) {o : Order F}
      → l ≡ some o
      → Survives l m
      → (o' : Order F) × (m ≡ some o')
  still_there none m h p = cc h
  still_there (some o) none h p = absurd p
  still_there (some o) (some o') h p = (o', refl)

  -- A creation event that a replay reaches leaves an order of its id, to the end.
  pub replay-created :
      (now : ℕ → ℕ → F) (before : List (Event F)) (e : OrderCreatedEvent F) (after : List (Event F))
      (s : Store F)
      → is_ok (replay now before s).0 ≡ true
      → (o : Order F) × (lookup e.order_id
            (replay now (before ++ (order_created e ∷ after)) s).1.orders
          ≡ some o)
  unfolding replay_event
  replay-created now [] e after s reached =
      let (o, stored) = created-stored (now 0) e s in
      still_there _ _ stored (rest-Survives now (order_created e) after s e.order_id)
  replay-created now (x ∷ before) e after s reached =
      elim (Result-cases (replay_event (now 0) x s).0) [
        | inr (raised, h) ↦ cc (ap is_ok (replay-raises now x before s h), reached)
        | inl (a, h) ↦
            let next = replay-next now x before s h in
            let (o, found) =
              replay-created (λ k. now (suc k)) before e after (replay_event (now 0) x s).1
                (ap (λ p. is_ok p.0) (sym next) ∙ reached) in
            (
              o,
              ap (λ p. lookup e.order_id p.1.orders)
                    (replay-next now x (before ++ (order_created e ∷ after)) s h)
                  ∙ found,
            )
      ]
