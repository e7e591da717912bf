-- ===== src/PositionManager/Paper/Consistent.antt =====
-- The three loops of polytrader/position_manager/paper.py keep `_positions`, `_position_fills` and
-- `_position_strategy` about the same positions.
use polytrader.Prelude.{
  refl, String, Bool, Option, none, some, List, [], ◌∷◌, inl, inr, Bool-cases, is_truthy, string_eq,
  pair_eq,
}
use polytrader.Float.{Float}
use polytrader.Dict.{lookup, erase-SameKeys}
use polytrader.Effect.{Keeps, >>-Keeps, modify-Keeps, pure-Keeps}
use polytrader.Events.{outcome_eq, EventMeta, MarketDataEvent}
use polytrader.Market.Store.{Key}
use polytrader.Portfolio.{Position, Positions}
use polytrader.PositionManager.Paper.{PaperManager, price_update}
use polytrader.PositionManager.Paper.Market.{
  is_due, drop_settled, finish_settlement, sell_at_target, watch, handle_market_data,
  settle_position, settle_all, settle_market, leave_market, positions_in, handle_market_change,
}
use polytrader.PositionManager.Paper.Loop.{
  Arrival, fill, quote, change, PaperRun, new_run, call_of, is_served, after, process, run,
}
use polytrader.PositionManager.Paper.Keys.{
  IsConsistent, trade-Keeps, proposal-Keeps, pnl-Keeps, handle_fill-Keeps,
}

module _ {F : Type 0} ⦃fl : Float F⦄ (sum_of : List F → F) (reason_text : F → F → F → String) where
  sell_at_target-Keeps :
      (meta : EventMeta F) (m : MarketDataEvent F) (p : Position F)
      → Keeps IsConsistent (sell_at_target sum_of reason_text meta m p)
  unfolding sell_at_target
  sell_at_target-Keeps meta m p = record {
    keeps = λ s v. elim (Bool-cases (is_due sum_of reason_text meta m p s)) [
      | inl h ↦
          rw h (
            (proposal-Keeps _).keeps _
              (record { has_fills = v.has_fills; has_owner = v.has_owner }))
      | inr h ↦ rw h v
    ];
  }

  watch-Keeps :
      (meta : EventMeta F) (m : MarketDataEvent F) (o : Option (Position F))
      → Keeps IsConsistent (watch sum_of reason_text meta m o)
  watch-Keeps meta m none = pure-Keeps
  watch-Keeps meta m (some p) =
      >>-Keeps (pnl-Keeps sum_of price_update) (sell_at_target-Keeps meta m p)

  handle_market_data-Keeps :
      (meta : EventMeta F) (m : MarketDataEvent F)
      → Keeps IsConsistent (handle_market_data sum_of reason_text meta m)
  unfolding handle_market_data
  handle_market_data-Keeps meta m = record {
    keeps = λ s v.
        (watch-Keeps meta m _).keeps _
          (record { has_fills = v.has_fills; has_owner = v.has_owner });
  }

module _ {F : Type 0} ⦃fl : Float F⦄ (sum_of : List F → F) where
  settle_position-Keeps :
      (time : F) (id : String) (key : Key) (p : Position F)
      → Keeps IsConsistent (settle_position sum_of time id key p)
  unfolding settle_position
  settle_position-Keeps time id key p = record {
    keeps = λ s v.
        (>>-Keeps (trade-Keeps _) (
            modify-Keeps {f = drop_settled sum_of time id key} (λ t w. record {
              has_fills = erase-SameKeys key t.position_fills t.positions w.has_fills;
              has_owner = erase-SameKeys key t.position_strategy t.positions w.has_owner;
            }))).keeps
          _ (record { has_fills = v.has_fills; has_owner = v.has_owner });
  }

  settle_all-Keeps :
      (time : F) (id : String) (ps : Positions F)
      → Keeps IsConsistent (settle_all sum_of time id ps)
  unfolding settle_all
  settle_all-Keeps time id [] = pure-Keeps
  settle_all-Keeps time id ((key, p) ∷ ps) =
      >>-Keeps (settle_position-Keeps time id key p) (settle_all-Keeps time id ps)

  settle_market-Keeps :
      (time : F) (id : String) (ps : Positions F)
      → Keeps IsConsistent (settle_market sum_of time id ps)
  settle_market-Keeps time id [] = pure-Keeps
  settle_market-Keeps time id (e ∷ es) = >>-Keeps (settle_all-Keeps time id (e ∷ es)) (
      modify-Keeps {f = finish_settlement sum_of}
        (λ s v. record { has_fills = v.has_fills; has_owner = v.has_owner }))

  leave_market-Keeps :
      (time : F) (id : String) (old : Option String)
      → Keeps IsConsistent (leave_market sum_of time id old)
  leave_market-Keeps time id none = pure-Keeps
  leave_market-Keeps time id (some slug) = record {
    keeps = λ s v. elim (Bool-cases (is_truthy slug)) [
      | inl h ↦ rw h ((settle_market-Keeps time id (positions_in sum_of slug s)).keeps s v)
      | inr h ↦ rw h v
    ];
  }

module _ {F : Type 0} ⦃fl : Float F⦄ (sum_of : List F → F) (reason_text : F → F → F → String) where
  call-Keeps : (a : Arrival F) → Keeps IsConsistent (call_of sum_of reason_text a)
  unfolding handle_market_change
  call-Keeps (fill order f) = handle_fill-Keeps sum_of order f
  call-Keeps (quote meta m) = handle_market_data-Keeps sum_of reason_text meta m
  call-Keeps (change time e) = leave_market-Keeps sum_of time e.correlation_id e.old_market

  after-IsConsistent :
      (a : Arrival F) (b : Bool) {s : PaperManager F} (r : PaperRun F)
      → IsConsistent s
      → IsConsistent (after sum_of reason_text a b s r).manager
  after-IsConsistent (fill _ _) b r v = v
  after-IsConsistent (quote _ _) b r v = v
  after-IsConsistent (change _ _) b r v = v

  process-IsConsistent :
      (a : Arrival F) (r : PaperRun F)
      → IsConsistent r.manager
      → IsConsistent (process sum_of reason_text a r).manager
  unfolding process
  process-IsConsistent a r v = elim (Bool-cases (is_served sum_of reason_text a r)) [
    | inl h ↦ rw h (after-IsConsistent a _ r ((call-Keeps a).keeps r.manager v))
    | inr h ↦ rw h v
  ]

  kept :
      (arrivals : List (Arrival F)) (r : PaperRun F)
      → IsConsistent r.manager
      → IsConsistent (run sum_of reason_text arrivals r).manager
  unfolding run
  kept [] r v = v
  kept (a ∷ later) r v = kept later (process sum_of reason_text a r) (process-IsConsistent a r v)

  -- From a new manager on, whatever fills, quotes and changes of market arrive, and whichever of
  -- them raise: an open position has its cumulative fills and the strategy that opened it, and
  -- neither is kept for any other key.
  pub run-IsConsistent :
      (starting : F) (arrivals : List (Arrival F))
      → IsConsistent (run sum_of reason_text arrivals (new_run starting)).manager
  unfolding lookup
  run-IsConsistent starting arrivals =
      kept arrivals (new_run starting) (record { has_fills = λ k. refl; has_owner = λ k. refl })
