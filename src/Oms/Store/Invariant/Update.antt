-- ===== src/Oms/Store/Invariant/Update.antt =====
-- `update_order` of polytrader/oms/store.py keeps the store consistent, with the ids of the client
-- and of the venue remapped where they change.
use polytrader.Prelude.{
  String, ◌≡◌, ◌≢◌, ◌⊎◌, inl, inr, Option, none, some, string_eq, text_eq_iff, arith, Option-cases,
  Bool-cases,
}
use polytrader.Dict.{Dict, lookup, contains, erase, lookup-insert, lookup-insert_self, lookup-erase}
use polytrader.Oms.Models.{Order}
use polytrader.Oms.Store.{
  Store, remap_client, remap_venue, add_venue, drop_venue, update_order, replace, may_replace,
}
use polytrader.Oms.Store.Invariant.{IsValid, stored_client}

lookup-add_venue :
    (v : Option String) (k : String) (ids : Dict String String) (w j : String)
    → lookup w (add_venue v k ids) ≡ some j
    → (k ≡ j) ⊎ (lookup w ids ≡ some j)
lookup-add_venue none k ids w j h = inr h
lookup-add_venue (some v) k ids w j h = ground (arith, lookup-insert v w k ids)

lookup-drop_venue :
    (v : Option String) (ids : Dict String String) (w j : String)
    → lookup w (drop_venue v ids) ≡ some j
    → lookup w ids ≡ some j
lookup-drop_venue none ids w j h = h
lookup-drop_venue (some v) ids w j h = ground (arith, lookup-erase v w ids)

module _ {F : Type 0} where
  -- Where a client's id leads after `update_order`: to the order, or where it led before.
  remap_client-cases :
      (old order : Order F) (ids : Dict String String) (c j : String)
      → lookup c (remap_client old order ids) ≡ some j
      → ((order.client_order_id ≡ c) × (order.order_id ≡ j))
        ⊎ ((lookup c ids ≡ some j) × ((order.client_order_id ≡ c) ⊎ (old.client_order_id ≢ c)))
  remap_client-cases old order ids c j h = ground (
    arith,
    lookup-insert order.client_order_id c order.order_id ids,
    lookup-insert order.client_order_id c order.order_id (erase old.client_order_id ids),
    lookup-erase old.client_order_id c ids,
    text_eq_iff order.client_order_id c,
    text_eq_iff old.client_order_id c,
    text_eq_iff order.client_order_id old.client_order_id,
  )

  remap_venue-cases :
      (old order : Order F) (ids : Dict String String) (w j : String)
      → lookup w (remap_venue old order ids) ≡ some j
      → (order.order_id ≡ j) ⊎ (lookup w ids ≡ some j)
  remap_venue-cases old order ids w j h = ground (
    arith,
    lookup-add_venue order.venue_order_id order.order_id (drop_venue old.venue_order_id ids) w j,
    lookup-drop_venue old.venue_order_id ids w j,
  )

  -- A stored order is replaced by one with the same id.
  replace-IsValid :
      (old order : Order F) (s : Store F)
      → lookup order.order_id s.orders ≡ some old
      → IsValid s
      → IsValid (replace old order s)
  replace-IsValid old order s found v = record {
    keyed = λ j o h. ground (
      arith,
      lookup-insert order.order_id j order s.orders,
      text_eq_iff order.order_id j,
      v.keyed j o,
    );
    logged = λ j h. ground (
      arith,
      lookup-insert order.order_id j order s.orders,
      text_eq_iff order.order_id j,
      found,
      v.logged j,
    );
    clients = λ c j h. elim (remap_client-cases old order s.client_order_ids c j h) [
      | inl (named, e) ↦ (order, rw (← e) (lookup-insert_self order.order_id order s.orders), named)
      | inr (was, how) ↦
          let (o, found', named) = v.clients c j was in
          stored_client order o s.orders c j found' named (λ e. elim how [
            | inl new_name ↦ new_name
            | inr gone ↦ let same : old ≡ o = cc in absurd (gone (rw same named))
          ])
    ];
    venues = λ w j h. elim (remap_venue-cases old order s.venue_order_ids w j h) [
      | inl e ↦ rw (← e, contains, lookup-insert_self order.order_id order s.orders)
      | inr was ↦ ground (arith, lookup-insert order.order_id j order s.orders, v.venues w j was)
    ];
  }

  -- `update_order` keeps the store consistent, also where the order comes with another client's id
  -- or venue's id, and where the update raises.
  pub update_order-IsValid :
      (order : Order F) (s : Store F) → IsValid s → IsValid (update_order order s).1
  unfolding update_order
  update_order-IsValid order s v = elim (Option-cases (lookup order.order_id s.orders)) [
    | inl missing ↦ rw missing v
    | inr (old, found) ↦ elim (Bool-cases (may_replace old order)) [
      | inl allowed ↦ rw (found, allowed) (replace-IsValid old order s found v)
      | inr refused ↦ rw (found, refused) v
    ]
  ]
