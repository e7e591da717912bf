-- ===== src/PositionManager/Paper/Resale.antt =====
-- polytrader/position_manager/paper.py: what a BUY fill makes of a position that was sold in part.
-- `_handle_sell_fill` reduces `position.size` and leaves `_position_fills`, from which the next
-- `_handle_buy_fill` sets the size.
use polytrader.Prelude.{
  ◌≡◌, refl, sym, ap, subst, ◌∙◌, String, false, Option, none, some, List, string_eq, pair_eq,
}
use polytrader.Float.{Float, nought}
use polytrader.Dict.{lookup, lookup-insert_self}
use polytrader.Effect.{Keeps, >>-Keeps, pure-Keeps, >>=_keeps}
use polytrader.Events.{outcome_eq, Side, buy, sell, FillEvent}
use polytrader.Market.Store.{Key}
use polytrader.Oms.Models.{Order}
use polytrader.Portfolio.{Position}
use polytrader.PositionManager.Outcomes.{ClosedPosition}
use polytrader.PositionManager.PerStrategy.{Bought, bought_position}
use polytrader.PositionManager.Paper.{
  PaperManager, position_update, PositionUpdatedEvent, publish_update, publish_closed,
  emit_pnl_event, handle_buy_fill, handle_sell_fill, track_sale, fill_of_order, handle_fill, key_of,
}
use polytrader.PositionManager.Paper.Keys.{publish_update_keeps, publish_trade_keeps}

module _ {F : Type 0} where
  -- The manager has a position and has counted what was bought of it.
  abbrev Has : Key → Position F → Bought F → PaperManager F → Type 0
  Has key p b s = (lookup key s.positions ≡ some p) × (lookup key s.position_fills ≡ some b)

  abbrev Counts : Key → Bought F → PaperManager F → Type 0
  Counts key b s = lookup key s.position_fills ≡ some b

  abbrev pub Holds : Key → F → PaperManager F → Type 0
  Holds key size s = (p : Position F) × (lookup key s.positions ≡ some p) × (p.size ≡ size)

module _ {F : Type 0} ⦃fl : Float F⦄ (sum_of : List F → F) where
  open fl use {add, sub, le}

  publish_closed-Has :
      (key : Key) (p : Position F) (b : Bought F) (id : String) (order : Order F) (f : FillEvent F)
      (c : Option (ClosedPosition F))
      → Keeps (Has key p b) (publish_closed sum_of id order f c)
  publish_closed-Has key p b id order f none = pure-Keeps
  publish_closed-Has key p b id order f (some c) = record {
    keeps = λ s h. publish_trade_keeps (Has key p b) s h _ h;
  }

  track_sale-Has :
      (key : Key) (p : Position F) (b : Bought F) (id : String) (f : FillEvent F) (order : Order F)
      → Keeps (Has key p b) (track_sale sum_of key id f order)
  unfolding track_sale
  track_sale-Has key p b id f order = record {
    keeps = λ s h. (publish_closed-Has key p b _ order f _).keeps _ h;
  }

  sell-Counts :
      (key : Key) (p : Position F) (b : Bought F) (f : FillEvent F) (s : PaperManager F)
      → le (sub p.size f.size) nought ≡ false
      → Has key p b s
      → Counts key b (handle_sell_fill sum_of key f s).1
  unfolding handle_sell_fill
  sell-Counts key p b f s left (at, counted) =
      rw (at, left) (publish_update_keeps (Counts key b) _ counted _ counted)

  sale-Counts :
      (order : Order F) (p : Position F) (b : Bought F) (f : FillEvent F) (s : PaperManager F)
      → le (sub p.size f.size) nought ≡ false
      → Has (key_of sum_of order) p b s
      → Counts (key_of sum_of order) b (fill_of_order sum_of sell order f s).1
  sale-Counts order p b f s left h =
      let key : Key = key_of sum_of order in
      let tracked = (track_sale-Has key p b _ f order).keeps s h in
      >>=_keeps (Counts key b) (track_sale sum_of key _ f order)
        (λ _. handle_sell_fill sum_of key f) s tracked.1
        (λ _ _. sell-Counts key p b f _ left tracked)

  update-Holds :
      (key : Key) (size : F) (e : PositionUpdatedEvent F)
      → Keeps (Holds key size) (publish_update e)
  update-Holds key size e = record { keeps = λ s h. publish_update_keeps (Holds key size) s h e h }

  pnl-Holds :
      (key : Key) (size : F) → Keeps (Holds key size) (emit_pnl_event sum_of position_update)
  unfolding emit_pnl_event
  pnl-Holds key size = record { keeps = λ s h. h }

  bought-size :
      (key : Key) (f : FillEvent F) (order : Order F) (b : Bought F) (o : Option (Position F))
      → (bought_position key f order b o).size ≡ b.0
  bought-size key f order b none = refl
  bought-size key f order b (some p) = refl

  buy-Holds :
      (order : Order F) (b : Bought F) (f : FillEvent F) (s : PaperManager F)
      → Counts (key_of sum_of order) b s
      → Holds (key_of sum_of order) (add b.0 f.size) (fill_of_order sum_of buy order f s).1
  unfolding handle_buy_fill
  buy-Holds order b f s counted =
      let key : Key = key_of sum_of order in
      (>>-Keeps (update-Holds key (add b.0 f.size) _) (pnl-Holds key _)).keeps _ (
        _,
        lookup-insert_self key _ s.positions,
        bought-size key f order _ (lookup key s.positions) ∙ rw counted refl,
      )

  handle_fill-side :
      (side : Side) (order : Order F) (f : FillEvent F) (s : PaperManager F)
      → order.side ≡ side
      → handle_fill sum_of (some order) f s ≡ fill_of_order sum_of side order f s
  unfolding handle_fill
  handle_fill-side side order f s h = ap (λ x. fill_of_order sum_of x order f s) h

  -- Where the counted fills of a position are of size `bought`, it is sold in part and then bought
  -- again: its size is then `bought` with the second fill added, as if nothing had been sold.
  pub resale_forgotten :
      (order order' : Order F) (p : Position F) (bought cost : F) (f f' : FillEvent F)
      (s : PaperManager F)
      → order.side ≡ sell
      → order'.side ≡ buy
      → key_of sum_of order' ≡ key_of sum_of order
      → lookup (key_of sum_of order) s.positions ≡ some p
      → lookup (key_of sum_of order) s.position_fills ≡ some (bought, cost)
      → le (sub p.size f.size) nought ≡ false
      → Holds
          (key_of sum_of order)
          (add bought f'.size)
          (handle_fill sum_of (some order') f' (handle_fill sum_of (some order) f s).1).1
  resale_forgotten order order' p bought cost f f' s selling buying same at counted rest =
      let (k, b, t) : Key × Bought F × PaperManager F =
        (key_of sum_of order, (bought, cost), (handle_fill sum_of (some order) f s).1) in
      let kept : Counts k b t =
        subst (λ r. Counts k b r.1) (sym (handle_fill-side sell order f s selling))
          (sale-Counts order p b f s rest (at, counted)) in
      subst (λ j. Holds j (add bought f'.size) (handle_fill sum_of (some order') f' t).1) same
        (subst (λ r. Holds (key_of sum_of order') (add bought f'.size) r.1)
          (sym (handle_fill-side buy order' f' t buying))
          (buy-Holds order' b f' t (subst (λ j. Counts j b t) (sym same) kept)))
