-- ===== src/Oms/Store/Evolution.antt =====
-- What an order of polytrader/oms/store.py lives through along a replay.
use polytrader.Prelude.{
  false, String, ℕ, suc, ◌≡◌, refl, sym, ◌∙◌, ap, inl, inr, true, Option, none, some, List, [], ◌∷◌,
  ◌++◌, string_eq, text_eq_iff, ◌==◌, Option-cases, Bool-cases, arith,
}
use polytrader.Float.{Float, nought}
use polytrader.Dict.{lookup, contains, lookup-insert}
use polytrader.Effect.{is_ok, Result-cases}
use polytrader.Events.{OrderCreatedEvent}
use polytrader.Oms.Models.{Order, new}
use polytrader.Oms.Fsm.{is_terminal_state}
use polytrader.Oms.Fsm.Graph.{terminal_absorbs}
use polytrader.Oms.Store.{
  Event, order_created, order_submitted, order_ack, order_rejected, order_filled, order_canceled,
  other, Store,
}
use polytrader.Oms.Store.Handlers.{fresh_order, replay_event, replay, handle_order_created}
use polytrader.Oms.Store.Changes.{Orders, kept, moved, Follows}
use polytrader.Oms.Store.Survival.{
  created-orders, replay-Survives, rest-Survives, replay-next, replay-stops, replay-one,
  replay-created,
}
use polytrader.Oms.Store.Handled.{
  handle_order_submitted-Changes, handle_order_ack-Changes, handle_fill-Changes,
  handle_order_canceled-Changes,
}
use polytrader.Oms.Store.Rejection.{handle_order_rejected-Changes}

module _ {F : Type 0} ⦃fl : Float F⦄ where
  -- The order as its creation event stores it.
  pub record IsFresh (e : OrderCreatedEvent F) (first : Order F) : Type 0 where
    pub state : first.state ≡ new
    pub order_id : first.order_id ≡ e.order_id
    pub client_order_id : first.client_order_id ≡ e.client_order_id
    pub intent : first.intent ≡ e.intent
    pub filled_size : first.filled_size ≡ nought

  -- A creation event of the order's id is among the events; just before it the store has no order
  -- of the id, just after it the fresh one, and `o` is what that one has become.
  pub record Added (now : ℕ → ℕ → F) (es : List (Event F)) (s : Store F) (j : String) (o : Order F)
      : Type 0 where
    pub before : List (Event F)
    pub creation : OrderCreatedEvent F
    pub after : List (Event F)
    pub first : Order F
    pub replayed : es ≡ before ++ (order_created creation ∷ after)
    pub named : creation.order_id ≡ j
    pub absent : lookup j (replay now before s).1.orders ≡ none
    pub stored :
        lookup j (replay now (before ++ (order_created creation ∷ [])) s).1.orders ≡ some first
    pub fresh : IsFresh creation first
    pub follows : Follows first o

  -- No creation event of the id was reached: an event before it raised.
  abbrev pub Unreached : (ℕ → ℕ → F) → List (Event F) → Store F → String → Type 0
  Unreached now es s j =
      (before after : List (Event F)) (creation : OrderCreatedEvent F)
      → es ≡ before ++ (order_created creation ∷ after)
      → creation.order_id ≡ j
      → is_ok (replay now before s).0 ≡ false

  -- What becomes of the order of an id: it keeps its identity and moves along the state machine; or
  -- it is added by a creation event; or it is there neither before nor after, and its creation was
  -- not reached.
  abbrev pub Evolves :
      (ℕ → ℕ → F) → List (Event F) → Store F → String → Option (Order F) → Option (Order F) → Type 0
  Evolves now es s j none none = Unreached now es s j
  Evolves now es s j none (some o) = Added now es s j o
  Evolves now es s j (some o) none = ⊥
  Evolves now es s j (some o) (some o') = Follows o o'

  Orders-absent :
      {k : String} {s s' : Store F} (j : String)
      → Orders k s s'
      → lookup j s.orders ≡ none
      → lookup j s'.orders ≡ none
  Orders-absent j (kept h) free = h j ∙ free
  Orders-absent {k} j (moved o o' found follows h) free = ground (arith, h j, text_eq_iff k j)

  created-Fresh :
      (now : ℕ → F) (e : OrderCreatedEvent F) (s : Store F) (j : String) (first : Order F)
      → lookup j s.orders ≡ none
      → lookup j (handle_order_created now e s).1.orders ≡ some first
      → (e.order_id ≡ j) × IsFresh e first
  created-Fresh now e s j first free found =
      let order : Order F = fresh_order now e.order_id e.client_order_id e.intent in
      let h = rw (created-orders now e s) at found in
      elim (Option-cases (lookup e.order_id s.orders)) [
        | inr (o, known) ↦ cc (rw (contains, known, free) at h)
        | inl new_id ↦
            let g = rw (contains, new_id, lookup-insert e.order_id j order s.orders) at h in
            elim (Bool-cases (e.order_id == j)) [
              | inr miss ↦ cc (rw (miss, free) at g)
              | inl hit ↦
                  let is_order : order ≡ first = ground (arith, rw hit at g) in
                  (
                    (text_eq_iff e.order_id j).0 hit,
                    rw (← is_order) (record {
                      state = refl;
                      order_id = refl;
                      client_order_id = refl;
                      intent = refl;
                      filled_size = refl;
                    }),
                  )
            ]
      ]

  -- No event but a creation adds an order.
  event-Fresh :
      (now : ℕ → F) (event : Event F) (s : Store F) (j : String) (first : Order F)
      → lookup j s.orders ≡ none
      → lookup j (replay_event now event s).1.orders ≡ some first
      → (e : OrderCreatedEvent F) × (event ≡ order_created e) × (e.order_id ≡ j) × IsFresh e first
  unfolding replay_event
  event-Fresh now (order_created e) s j first free found =
      let (named, fresh) = created-Fresh now e s j first free found in (e, refl, named, fresh)
  event-Fresh now (order_submitted e) s j first free found =
      cc (found, Orders-absent j (handle_order_submitted-Changes now e s).orders free)
  event-Fresh now (order_ack e) s j first free found =
      cc (found, Orders-absent j (handle_order_ack-Changes now e s).orders free)
  event-Fresh now (order_rejected e) s j first free found =
      cc (found, Orders-absent j (handle_order_rejected-Changes now e s).orders free)
  event-Fresh now (order_filled e) s j first free found =
      cc (found, Orders-absent j (handle_fill-Changes now e s).orders free)
  event-Fresh now (order_canceled e) s j first free found =
      cc (found, Orders-absent j (handle_order_canceled-Changes now e s).orders free)
  event-Fresh now (other m) s j first free found = cc (found, free)

  replay-Added :
      (now : ℕ → ℕ → F) (es : List (Event F)) (s : Store F) (j : String) (o : Order F)
      → lookup j s.orders ≡ none
      → lookup j (replay now es s).1.orders ≡ some o
      → Added now es s j o
  unfolding replay
  replay-Added now [] s j o free found = cc (found, free)
  replay-Added now (e ∷ es) s j o free found =
      let s' : Store F = (replay_event (now 0) e s).1 in
      elim (Option-cases (lookup j s'.orders)) [
        | inr (first, added) ↦
            let (c, is_creation, named, fresh) = event-Fresh (now 0) e s j first free added in
            record {
              before = [];
              creation = c;
              after = es;
              first = first;
              replayed = rw is_creation refl;
              named = named;
              absent = free;
              stored =
                  rw (← is_creation) (ap (λ t. lookup j t.orders) (replay-one now e s) ∙ added);
              fresh = fresh;
              follows = rw (added, found) at (rest-Survives now e es s j);
            }
        | inl still ↦ elim (Result-cases (replay_event (now 0) e s).0) [
          | inr (x, raised) ↦
              cc (found, still, ap (λ t. lookup j t.orders) (replay-stops now e es s raised))
          | inl (a, returned) ↦
              let next = replay-next now e es s returned in
              let later =
                replay-Added (λ k. now (suc k)) es s' j o still
                  (ap (λ p. lookup j p.1.orders) (sym next) ∙ found) in
              record {
                before = e ∷ later.before;
                creation = later.creation;
                after = later.after;
                first = later.first;
                replayed = ap (λ xs. e ∷ xs) later.replayed;
                named = later.named;
                absent =
                    ap (λ p. lookup j p.1.orders) (replay-next now e later.before s returned)
                    ∙ later.absent;
                stored =
                    ap (λ p. lookup j p.1.orders)
                      (replay-next now e (later.before ++ (order_created later.creation ∷ [])) s
                        returned)
                    ∙ later.stored;
                fresh = later.fresh;
                follows = later.follows;
              }
        ]
      ]

  replay-Unreached :
      (now : ℕ → ℕ → F) (es : List (Event F)) (s : Store F) (j : String)
      → lookup j (replay now es s).1.orders ≡ none
      → Unreached now es s j
  replay-Unreached now es s j missing before after creation split named =
      elim (Bool-cases (is_ok (replay now before s).0)) [
        | inr raised ↦ raised
        | inl returned ↦
            let (o, found) = replay-created now before creation after s returned in
            cc (rw (split, ← named) at missing, found)
      ]

  -- Along any replay, also one that stops at an exception, no order is lost, and every order keeps
  -- its identity (ids, intent, market, side, size, price, time of creation) and its state moves
  -- along the state machine; an order that the replay adds is stored by a creation event of its id,
  -- in state NEW, unfilled, with the ids and the intent of the event, where no order had the id,
  -- and then moves in the same way. An order of an id is missing at the end only if none was there
  -- before and each creation event of the id has an event before it at which the replay stopped.
  pub replay-Evolves :
      (now : ℕ → ℕ → F) (es : List (Event F)) (s : Store F) (j : String)
      → Evolves now es s j (lookup j s.orders) (lookup j (replay now es s).1.orders)
  replay-Evolves now es s j =
      let p = replay-Survives now es s j in
      elim (Option-cases (lookup j s.orders)) [
        | inl free ↦ elim (Option-cases (lookup j (replay now es s).1.orders)) [
          | inl none_after ↦ rw (free, none_after) (replay-Unreached now es s j none_after)
          | inr (o, found) ↦ rw (free, found) (replay-Added now es s j o free found)
        ]
        | inr (o, found) ↦ elim (Option-cases (lookup j (replay now es s).1.orders)) [
          | inl lost ↦ absurd (rw (found, lost) at p)
          | inr (o', kept_as) ↦ rw (found, kept_as) (rw (found, kept_as) at p)
        ]
      ]

  -- An order that is filled, cancelled or rejected stays in that state along any replay.
  pub replay_terminal :
      (now : ℕ → ℕ → F) (es : List (Event F)) (s : Store F) (j : String) {o o' : Order F}
      → lookup j s.orders ≡ some o
      → is_terminal_state o.state ≡ true
      → lookup j (replay now es s).1.orders ≡ some o'
      → o'.state ≡ o.state
  replay_terminal now es s j found ends found' =
      terminal_absorbs ends (rw (found, found') at (replay-Survives now es s j)).path
