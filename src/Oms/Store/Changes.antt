-- ===== src/Oms/Store/Changes.antt =====
-- What one handler of polytrader/oms/store.py does to the store, in one form for all of them: the
-- order that the event names moves, or nothing does; the other orders and the ids of the clients
-- stay; the log of events only grows.
use polytrader.Prelude.{
  String, ◌≡◌, refl, sym, ◌∙◌, ◌⊎◌, inl, inr, true, Option, none, some, List, [], ◌∷◌, ◌++◌,
  string_eq, text_eq_iff, ◌==◌, if◌then◌else◌, arith, Bool-cases,
}
use polytrader.Dict.{Dict, lookup, contains, insert, lookup-insert}
use polytrader.Effect.{ok}
use polytrader.Oms.Models.{Order, OrderState}
use polytrader.Oms.Fsm.{transition_order_state}
use polytrader.Oms.Fsm.Paths.{SameOrder, ◌⟶*◌, here, ⟶*-trans, transition-SameOrder, transition-⟶*}
use polytrader.Oms.Store.{Event, Store, put_order, map_venue, append_to}

-- The part of an order that all its events keep, and the way that its state has gone.
pub record Follows {F : Type 0} (o o' : Order F) : Type 0 where
  pub same : SameOrder o o'
  pub path : o.state ⟶* o'.state

pub data Orders {F : Type 0} (k : String) (s s' : Store F) : Type 0 where
  kept : ((j : String) → lookup j s'.orders ≡ lookup j s.orders) → Orders k s s'
  moved :
      (o o' : Order F)
      → lookup k s.orders ≡ some o
      → Follows o o'
      → ((j : String) → lookup j s'.orders ≡ (if k == j then some o' else lookup j s.orders))
      → Orders k s s'

pub record Changes {F : Type 0} (k : String) (s s' : Store F) : Type 0 where
  pub orders : Orders k s s'
  pub clients : s'.client_order_ids ≡ s.client_order_ids
  pub log : (j : String) → contains j s.order_events ≡ true → contains j s'.order_events ≡ true
  pub venues :
      (v : String)
      → (lookup v s'.venue_order_ids ≡ lookup v s.venue_order_ids)
        ⊎ ((lookup v s'.venue_order_ids ≡ some k) × (contains k s.orders ≡ true))

module _ {F : Type 0} where
  pub Follows-refl : (o : Order F) → Follows o o
  Follows-refl o = record { same = ground arith; path = here }

  pub Follows-trans : {o o' o'' : Order F} → Follows o o' → Follows o' o'' → Follows o o''
  Follows-trans p q = record { same = ground arith; path = ⟶*-trans p.path q.path }

  pub transition-Follows :
      (now : F) (o : Order F) (t : OrderState) (reason : Option String) {o' : Order F}
      → transition_order_state now o t reason ≡ ok o'
      → Follows o o'
  transition-Follows now o t reason h = record {
    same = transition-SameOrder now o t reason h;
    path = transition-⟶* now o t reason h;
  }

  pub Changes-refl : (k : String) (s : Store F) → Changes k s s
  Changes-refl k s = record {
    orders = kept (λ j. refl);
    clients = refl;
    log = λ j h. h;
    venues = λ v. inl refl;
  }

  -- `Orders` looks at nothing but the orders.
  Orders-ext :
      {k : String} {s s' s'' : Store F} → Orders k s s' → s''.orders ≡ s'.orders → Orders k s s''
  Orders-ext (kept h) e = kept (λ j. rw e (h j))
  Orders-ext (moved o o' found follows h) e = moved o o' found follows (λ j. rw e (h j))

  pub log-insert :
      (k : String) (es : List (Event F)) (d : Dict String (List (Event F))) (j : String)
      → contains j d ≡ true
      → contains j (insert k es d) ≡ true
  log-insert k es d j h = ground (arith, lookup-insert k j es d)

  pub append_to-Changes :
      (k : String) (event : Event F) (s s' : Store F) (past : Option (List (Event F)))
      → Changes k s s'
      → Changes k s (append_to k event past s').1
  append_to-Changes k event s s' none c = c
  append_to-Changes k event s s' (some past) c = record {
    orders = Orders-ext c.orders refl;
    clients = c.clients;
    log = λ j h. log-insert k (past ++ (event ∷ [])) s'.order_events j (c.log j h);
    venues = c.venues;
  }

  -- Storing an order that follows the stored one.
  pub put_order-Changes :
      (k : String) (o o' : Order F) (s : Store F)
      → lookup k s.orders ≡ some o
      → Follows o o'
      → Changes k s (put_order {F = F} k o' s).1
  put_order-Changes k o o' s found follows = record {
    orders = moved o o' found follows (λ j. lookup-insert k j o' s.orders);
    clients = refl;
    log = λ j h. h;
    venues = λ v. inl refl;
  }

  pub Changes-map_venue :
      (k v : String) (s s' : Store F)
      → contains k s.orders ≡ true
      → Changes k s s'
      → Changes k s (map_venue {F = F} v k s').1
  Changes-map_venue k v s s' known c = record {
    orders = Orders-ext c.orders refl;
    clients = c.clients;
    log = c.log;
    venues = λ w. rw (lookup-insert v w k s'.venue_order_ids) (elim (Bool-cases (v == w)) [
      | inl hit ↦ rw hit (inr (refl, known))
      | inr miss ↦ rw miss (c.venues w)
    ]);
  }

  Orders-trans :
      {k : String} {s s' s'' : Store F} → Orders k s s' → Orders k s' s'' → Orders k s s''
  Orders-trans (kept h) (kept h') = kept (λ j. h' j ∙ h j)
  Orders-trans {k} (kept h) (moved o o' found follows h') =
      moved o o' (sym (h k) ∙ found) follows (λ j. h' j ∙ (rw (h j)))
  Orders-trans (moved o o' found follows h) (kept h') = moved o o' found follows (λ j. h' j ∙ h j)
  Orders-trans {k} (moved o o' found follows h) (moved p p' found' follows' h') =
      let e : p ≡ o' = ground (arith, h k, found', text_eq_iff k k) in
      moved o p' found (Follows-trans follows (rw e at follows')) (λ j. ground (arith, h j, h' j))

  Orders-known :
      {k : String} {s s' : Store F}
      → Orders k s s'
      → contains k s'.orders ≡ true
      → contains k s.orders ≡ true
  Orders-known {k} (kept h) known = ground (arith, h k)
  Orders-known (moved o o' found follows h) known = rw (found, contains)

  pub Changes-trans :
      {k : String} {s s' s'' : Store F} → Changes k s s' → Changes k s' s'' → Changes k s s''
  Changes-trans c d = record {
    orders = Orders-trans c.orders d.orders;
    clients = d.clients ∙ c.clients;
    log = λ j h. d.log j (c.log j h);
    venues = λ v. elim (d.venues v) [
      | inl same ↦ elim (c.venues v) [
        | inl same' ↦ inl (same ∙ same')
        | inr (now_k, known) ↦ inr (same ∙ now_k, known)
      ]
      | inr (now_k, known) ↦ inr (now_k, Orders-known c.orders known)
    ];
  }
