-- ===== src/PositionManager/Paper/Once.antt =====
-- polytrader/position_manager/paper.py proposes the sale of a position once, over any run of its
-- loops.
use polytrader.Prelude.{
  ◌≡◌, ◌≤◌, ◌+◌, ap, ◌∙◌, String, Bool, true, false, ◌||◌, Option, none, some, List, [], ◌∷◌, ◌==◌,
  inl, inr, Bool-cases, eq_of_==, ==_refl, member, add_item, member-add_item, string_eq, pair_eq,
  arith,
}
use polytrader.Float.{Float}
use polytrader.Effect.{Keeps, >>-Keeps, pure-Keeps}
use polytrader.Events.{outcome_eq, EventMeta, MarketDataEvent}
use polytrader.Market.Store.{Key}
use polytrader.Portfolio.{Position}
use polytrader.PositionManager.Paper.{PaperManager, proposal, price_update}
use polytrader.PositionManager.Paper.Market.{
  is_due, sale, sell_at_target, watch, handle_market_data, handle_market_change,
}
use polytrader.PositionManager.Paper.Loop.{
  Arrival, fill, quote, change, PaperRun, new_run, call_of, is_served, after, process, run,
}
use polytrader.PositionManager.Paper.Keys.{announced, publish_proposal_keeps}
use polytrader.PositionManager.Paper.Pending.{
  one_if, one_if-le, count-append, is_sale, is_close, sales, closes, IsPaired, handle_fill-Keeps,
  leave_market-Keeps, pnl-Keeps,
}

one_if_mono : (a b : Bool) → one_if b ≤ one_if (a || b)
one_if_mono a b = ground arith

module _ {F : Type 0} ⦃fl : Float F⦄ (sum_of : List F → F) (reason_text : F → F → F → String)
    (key : Key) where
  module _ (meta : EventMeta F) (m : MarketDataEvent F) (p : Position F) (s : PaperManager F) where
    abbrev marked : PaperManager F
    marked = record s { sell_pending = add_item (m.market_slug, m.outcome) s.sell_pending }

    marked-IsPaired : IsPaired key s → IsPaired key marked
    marked-IsPaired v = omega (
      arith,
      ap one_if (member-add_item (m.market_slug, m.outcome) key s.sell_pending),
      one_if_mono ((m.market_slug, m.outcome) == key) (member key s.sell_pending),
      v,
    )

    -- The key is marked as pending before its sale is proposed.
    proposed-IsPaired :
        member (m.market_slug, m.outcome) s.sell_pending ≡ false
        → IsPaired key s
        → IsPaired key (announced (proposal (sale sum_of reason_text meta m p)) marked)
    proposed-IsPaired fresh v =
        let msg = proposal (sale sum_of reason_text meta m p) in
        let sold = count-append (is_sale key) s.published msg in
        let gone = count-append (is_close key) s.published msg in
        elim (Bool-cases (key == (m.market_slug, m.outcome))) [
          | inl same ↦
              let e = eq_of_== key (m.market_slug, m.outcome) same in
              let free : member key s.sell_pending ≡ false = rw e fresh in
              let pending : member key marked.sell_pending ≡ true =
                member-add_item (m.market_slug, m.outcome) key s.sell_pending
                ∙ rw e (
                    ap (λ b. b || member (m.market_slug, m.outcome) s.sell_pending)
                      (==_refl {A = Key} (m.market_slug, m.outcome))) in
              omega (arith, sold, gone, ap one_if same, ap one_if free, ap one_if pending, v)
          | inr other ↦ omega (arith, sold, gone, ap one_if other, marked-IsPaired v)
        ]

    is_due-fresh :
        is_due sum_of reason_text meta m p s ≡ true
        → member (m.market_slug, m.outcome) s.sell_pending ≡ false
    is_due-fresh h = ground (arith, h)

    due-IsPaired : IsPaired key s → IsPaired key (sell_at_target sum_of reason_text meta m p s).1
    unfolding sell_at_target
    due-IsPaired v = elim (Bool-cases (is_due sum_of reason_text meta m p s)) [
      | inl h ↦ rw h (
          publish_proposal_keeps (IsPaired key) marked (marked-IsPaired v) _
            (proposed-IsPaired (is_due-fresh h) v))
      | inr h ↦ rw h v
    ]

  due-Keeps :
      (meta : EventMeta F) (m : MarketDataEvent F) (p : Position F)
      → Keeps (IsPaired key) (sell_at_target sum_of reason_text meta m p)
  due-Keeps meta m p = record { keeps = λ s v. due-IsPaired meta m p s v }

  watch-Keeps :
      (meta : EventMeta F) (m : MarketDataEvent F) (o : Option (Position F))
      → Keeps (IsPaired key) (watch sum_of reason_text meta m o)
  watch-Keeps meta m none = pure-Keeps
  watch-Keeps meta m (some p) = >>-Keeps (pnl-Keeps sum_of key price_update) (due-Keeps meta m p)

  call-Keeps : (a : Arrival F) → Keeps (IsPaired key) (call_of sum_of reason_text a)
  unfolding handle_market_change handle_market_data
  call-Keeps (fill order f) = handle_fill-Keeps sum_of key order f
  call-Keeps (quote meta m) = record { keeps = λ s v. (watch-Keeps meta m _).keeps _ v }
  call-Keeps (change time e) = leave_market-Keeps sum_of key time e.correlation_id e.old_market

  after-IsPaired :
      (a : Arrival F) (b : Bool) (s : PaperManager F) (r : PaperRun F)
      → IsPaired key s
      → IsPaired key (after sum_of reason_text a b s r).manager
  after-IsPaired (fill _ _) b s r v = v
  after-IsPaired (quote _ _) b s r v = v
  after-IsPaired (change _ _) b s r v = v

  kept :
      (arrivals : List (Arrival F)) (r : PaperRun F)
      → IsPaired key r.manager
      → IsPaired key (run sum_of reason_text arrivals r).manager
  unfolding run process
  kept [] r v = v
  kept (a ∷ later) r v = elim (Bool-cases (is_served sum_of reason_text a r)) [
    | inl h ↦
        kept later (process sum_of reason_text a r)
          (rw (h, process) (after-IsPaired a _ _ r ((call-Keeps a).keeps r.manager v)))
    | inr h ↦ kept later (process sum_of reason_text a r) (rw (h, process) v)
  ]

  -- From a new manager on, whatever arrives: the sale of a market's outcome is proposed at most
  -- once more often than a position in it is reported as closed.
  pub run-Once :
      (starting : F) (arrivals : List (Arrival F))
      → let told = (run sum_of reason_text arrivals (new_run starting)).manager.published in
        sales key told ≤ closes key told + 1
  run-Once starting arrivals = omega (
    arith,
    kept arrivals (new_run starting) (omega arith),
    one_if-le
        (member key (run sum_of reason_text arrivals (new_run starting)).manager.sell_pending),
  )
