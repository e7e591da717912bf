-- ===== src/PositionManager/Paper/Keys.antt =====
-- Which positions polytrader/position_manager/paper.py has: `_positions`, `_position_fills` and
-- `_position_strategy` are about the same ones, after any sequence of events.
use polytrader.Prelude.{
  ◌≡◌, String, true, Option, none, some, List, [], ◌∷◌, ◌++◌, inl, inr, Bool-cases, Option-cases,
  string_eq, pair_eq,
}
use polytrader.Float.{Float, nought}
use polytrader.Dict.{
  lookup, contains, insert, SameKeys, insert-SameKeys, erase-SameKeys, rewrite-SameKeys,
}
use polytrader.Effect.{raise_if_keeps, Keeps, >>-Keeps, modify-Keeps, pure-Keeps}
use polytrader.Events.{outcome_eq, Side, buy, sell, FillEvent, OrderIntentEvent}
use polytrader.Market.Store.{Key}
use polytrader.Oms.Models.{Order}
use polytrader.Portfolio.{Position}
use polytrader.PositionManager.Outcomes.{ClosedPosition}
use polytrader.PositionManager.Paper.{
  PaperManager, PaperMessage, PositionUpdatedEvent, StrategyClosedTradeEvent, position, trade,
  proposal, UpdateReason, position_update, publish, emit_pnl_event, handle_buy_fill, fill_of_order,
  drop_position, close_position, sold_position, handle_sell_fill, publish_closed, track_sale,
  handle_fill, key_of, publish_update, publish_trade, publish_proposal,
}

-- The three dictionaries have the same keys.
pub record IsConsistent {F : Type 0} (s : PaperManager F) : Type 0 where
  pub has_fills : SameKeys s.position_fills s.positions
  pub has_owner : SameKeys s.position_strategy s.positions

module _ {F : Type 0} where
  abbrev pub announced : PaperMessage F → PaperManager F → PaperManager F
  announced msg s = record s { published = s.published ++ (msg ∷ []) }

module _ {F : Type 0} ⦃fl : Float F⦄ where
  -- A publication raises and changes nothing, or appends its message.
  module _ {ℓ} (P : PaperManager F → Type ℓ) (s : PaperManager F) (p : P s) where
    pub publish_update_keeps :
        (e : PositionUpdatedEvent F) → P (announced (position e) s) → P (publish_update e s).1
    unfolding publish_update
    publish_update_keeps e q = raise_if_keeps P _ _ (publish (position e)) s p q

    pub publish_trade_keeps :
        (e : StrategyClosedTradeEvent F) → P (announced (trade e) s) → P (publish_trade e s).1
    unfolding publish_trade
    publish_trade_keeps e q = raise_if_keeps P _ _ (publish (trade e)) s p q

    pub publish_proposal_keeps :
        (i : OrderIntentEvent F) → P (announced (proposal i) s) → P (publish_proposal i s).1
    unfolding publish_proposal
    publish_proposal_keeps i q = raise_if_keeps P _ _ (publish (proposal i)) s p q

  pub announced-IsConsistent :
      (msg : PaperMessage F) {s : PaperManager F} → IsConsistent s → IsConsistent (announced msg s)
  announced-IsConsistent msg v = record { has_fills = v.has_fills; has_owner = v.has_owner }

  update-Keeps : (e : PositionUpdatedEvent F) → Keeps IsConsistent (publish_update e)
  update-Keeps e = record {
    keeps = λ s v. publish_update_keeps IsConsistent s v e (announced-IsConsistent (position e) v);
  }

  pub trade-Keeps : (e : StrategyClosedTradeEvent F) → Keeps IsConsistent (publish_trade e)
  trade-Keeps e = record {
    keeps = λ s v. publish_trade_keeps IsConsistent s v e (announced-IsConsistent (trade e) v);
  }

  pub proposal-Keeps : (i : OrderIntentEvent F) → Keeps IsConsistent (publish_proposal i)
  proposal-Keeps i = record {
    keeps =
        λ s v. publish_proposal_keeps IsConsistent s v i (announced-IsConsistent (proposal i) v);
  }

module _ {F : Type 0} ⦃fl : Float F⦄ (sum_of : List F → F) where
  pub pnl-Keeps : (r : UpdateReason) → Keeps IsConsistent (emit_pnl_event sum_of r)
  unfolding emit_pnl_event
  pnl-Keeps r = record {
    keeps = λ s v. record { has_fills = v.has_fills; has_owner = v.has_owner };
  }

  buy-Keeps :
      (order : Order F) (f : FillEvent F) → Keeps IsConsistent (fill_of_order sum_of buy order f)
  unfolding handle_buy_fill
  buy-Keeps order f =
      let key : Key = key_of sum_of order in
      record {
        keeps = λ s v. (>>-Keeps (update-Keeps _) (pnl-Keeps position_update)).keeps _ (record {
          has_fills = insert-SameKeys key s.position_fills s.positions _ _ v.has_fills;
          has_owner = insert-SameKeys key s.position_strategy s.positions _ _ v.has_owner;
        });
      }

  drop_position-IsConsistent :
      (key : Key) (s : PaperManager F) → IsConsistent s → IsConsistent (drop_position sum_of key s)
  drop_position-IsConsistent key s v = record {
    has_fills = erase-SameKeys key s.position_fills s.positions v.has_fills;
    has_owner = erase-SameKeys key s.position_strategy s.positions v.has_owner;
  }

  close-Keeps :
      (key : Key) (p : Position F) (f : FillEvent F)
      → Keeps IsConsistent (close_position sum_of key p f)
  unfolding close_position
  close-Keeps key p f =
      >>-Keeps
        (>>-Keeps
          (>>-Keeps
            (modify-Keeps (λ s v. record { has_fills = v.has_fills; has_owner = v.has_owner }))
            (update-Keeps _))
          (modify-Keeps (drop_position-IsConsistent key)))
        (pnl-Keeps position_update)

  sold-Keeps :
      (key : Key) (p : Position F) (f : FillEvent F)
      → Keeps IsConsistent (sold_position sum_of key p f)
  sold-Keeps key p f = elim (Bool-cases (fl.le p.size nought)) [
    | inl h ↦ rw h (close-Keeps key p f)
    | inr h ↦ rw h (update-Keeps _)
  ]

  sell-Keeps : (key : Key) (f : FillEvent F) → Keeps IsConsistent (handle_sell_fill sum_of key f)
  unfolding handle_sell_fill
  sell-Keeps key f = record {
    keeps = λ s v. elim (Option-cases (lookup key s.positions)) [
      | inl h ↦ rw h v
      | inr (p, h) ↦
          let less = record p { size = fl.sub p.size f.size } in
          let there : contains key s.positions ≡ true = rw (h, contains) in
          let w : IsConsistent (record s { positions = insert key less s.positions }) = record {
            has_fills = rewrite-SameKeys key s.position_fills s.positions less there v.has_fills;
            has_owner = rewrite-SameKeys key s.position_strategy s.positions less there v.has_owner;
          } in
          rw h ((sold-Keeps key less f).keeps _ w)
    ];
  }

  publish_closed-Keeps :
      (id : String) (order : Order F) (f : FillEvent F) (c : Option (ClosedPosition F))
      → Keeps IsConsistent (publish_closed sum_of id order f c)
  publish_closed-Keeps id order f none = pure-Keeps
  publish_closed-Keeps id order f (some c) = trade-Keeps _

  track_sale-Keeps :
      (key : Key) (id : String) (f : FillEvent F) (order : Order F)
      → Keeps IsConsistent (track_sale sum_of key id f order)
  unfolding track_sale
  track_sale-Keeps key id f order = record {
    keeps = λ s v.
        (publish_closed-Keeps _ order f _).keeps _
          (record { has_fills = v.has_fills; has_owner = v.has_owner });
  }

  fill_of_order-Keeps :
      (side : Side) (order : Order F) (f : FillEvent F)
      → Keeps IsConsistent (fill_of_order sum_of side order f)
  fill_of_order-Keeps buy order f = buy-Keeps order f
  fill_of_order-Keeps sell order f =
      >>-Keeps (track_sale-Keeps _ _ f order) (sell-Keeps (key_of sum_of order) f)

  pub handle_fill-Keeps :
      (found : Option (Order F)) (f : FillEvent F) → Keeps IsConsistent (handle_fill sum_of found f)
  unfolding handle_fill
  handle_fill-Keeps none f = pure-Keeps
  handle_fill-Keeps (some order) f = fill_of_order-Keeps order.side order f
