-- ===== src/Risk/Checker/Once.antt =====
-- What holds of polytrader/risk/engine.py `RiskChecker` over any sequence of proposals and executed
-- orders, from its start on, with the default policies.
use polytrader.Prelude.{
  String, ℕ, ◌≤◌, ◌<◌, ◌≡◌, refl, inl, inr, Bool, true, false, ◌==◌, ◌||◌, ◌&&◌, Option, List, [],
  ◌∷◌, string_eq, pair_eq, member, member-append, IsUnique, append-IsUnique, member-add_item,
  member-discard_item, member-union, arith, Bool-cases, Option-cases,
}
use polytrader.Float.{Float}
use polytrader.Dict.{lookup}
use polytrader.Events.{
  Outcome, outcome_eq, is_buy, OrderIntentEvent, MarketDataEvent, OrderExecutedEvent,
}
use polytrader.Risk.Models.{RiskResult, RiskLimits, Trade}
use polytrader.Risk.Policies.{trade_of}
use polytrader.Risk.Engine.{check, default_policies}
use polytrader.Risk.Engine.Exact.{check_exact}
use polytrader.Risk.Checker.{
  risk_check, RiskChecker, new_checker, announce, approve, decide, build_context, track_order,
  check_intent, Arrival, proposal, executed, handle_arrival, run,
}
use polytrader.Risk.Checker.Log.{
  approvals, bought, approvals-checked, approvals-approved, bought-checked, bought-bought,
  bought-sold,
}

module _ {F : Type 0} where
  -- The checker knows of the trade, as executed or as approved.
  abbrev pub traded : Trade → RiskChecker F → Bool
  traded t c = member t c.executed_trades || member t c.approved_trades

module _ {F : Type 0} ⦃fl : Float F⦄ where
  track_order-traded :
      (o : OrderExecutedEvent F) (t : Trade) (c : RiskChecker F)
      → traded t c ≡ true
      → traded t (track_order o c) ≡ true
  unfolding track_order
  track_order-traded o t c h = elim (Bool-cases (is_buy o.side)) [
    | inr other ↦ rw other h
    | inl buys ↦ elim (Option-cases (lookup o.correlation_id c.approved_correlation)) [
      | inl missing ↦
          rw (buys, missing)
            (ground
              (arith, member-add_item ("unknown", (o.market_slug, o.outcome)) t c.executed_trades))
      | inr (k, found) ↦
          rw (buys, found)
            (ground (
              arith,
              member-add_item k t c.executed_trades,
              member-discard_item k t c.approved_trades,
            ))
    ]
  ]

  track_order-same :
      (o : OrderExecutedEvent F) (c : RiskChecker F)
      → ((track_order o c).published ≡ c.published)
        × ((track_order o c).order_count_last_minute ≡ c.order_count_last_minute)
  unfolding track_order
  track_order-same o c = elim (Bool-cases (is_buy o.side)) [
    | inr other ↦ rw other (refl, refl)
    | inl buys ↦ elim (Option-cases (lookup o.correlation_id c.approved_correlation)) [
      | inl missing ↦ rw (buys, missing) (refl, refl)
      | inr (k, found) ↦ rw (buys, found) (refl, refl)
    ]
  ]

  record IsSound (limits : RiskLimits F) (c : RiskChecker F) : Type 0 where
    once : IsUnique (bought c.published)
    tracked : (t : Trade) → member t (bought c.published) ≡ true → traded t c ≡ true
    counted : approvals c.published ≡ c.order_count_last_minute
    bounded : c.order_count_last_minute ≤ limits.order_rate_limit_per_minute

  track_order-IsSound :
      (limits : RiskLimits F) (o : OrderExecutedEvent F) (c : RiskChecker F)
      → IsSound limits c
      → IsSound limits (track_order o c)
  track_order-IsSound limits o c v =
      let (same, count) = track_order-same o c in
      record {
        once = rw same v.once;
        tracked = λ t h. track_order-traded o t c (v.tracked t (rw same at h));
        counted = rw (same, count) v.counted;
        bounded = rw count v.bounded;
      }

  announce-IsSound :
      (limits : RiskLimits F) (i : OrderIntentEvent F) (r : RiskResult F) (c : RiskChecker F)
      → IsSound limits c
      → IsSound limits (announce (risk_check i r) c)
  announce-IsSound limits i r c v = record {
    once = rw (bought-checked c.published i r) v.once;
    tracked = λ t h. v.tracked t (rw (bought-checked c.published i r) at h);
    counted = rw (approvals-checked c.published i r) v.counted;
    bounded = v.bounded;
  }

  -- The approval of an intent whose BUY, if it is one, is new.
  approve-IsSound :
      (limits : RiskLimits F) (i : OrderIntentEvent F) (c : RiskChecker F)
      → (is_buy i.side && traded (trade_of i) c) ≡ false
      → c.order_count_last_minute < limits.order_rate_limit_per_minute
      → IsSound limits c
      → IsSound limits (approve i c)
  approve-IsSound limits i c fresh room v = elim (Bool-cases (is_buy i.side)) [
    | inl buys ↦ rw buys (record {
      once = rw (bought-bought c.published i buys) (
          append-IsUnique (trade_of i) (bought c.published) v.once
            (ground (arith, v.tracked (trade_of i))));
      tracked = λ t h.
          let h' : (member t (bought c.published) || trade_of i == t) ≡ true = ground (
            arith,
            bought-bought c.published i buys,
            member-append t (bought c.published) (trade_of i ∷ []),
            h,
          ) in
          ground (arith, h', v.tracked t, member-add_item (trade_of i) t c.approved_trades);
      counted = omega (arith, approvals-approved c.published i, v.counted);
      bounded = omega (arith, room);
    })
    | inr sells ↦ rw sells (record {
      once = rw (bought-sold c.published i sells) v.once;
      tracked = λ t h. v.tracked t (rw (bought-sold c.published i sells) at h);
      counted = omega (arith, approvals-approved c.published i, v.counted);
      bounded = omega (arith, room);
    })
  ]

  -- What the engine's allowance says of the checker.
  allowed-fresh :
      (limits : RiskLimits F) (now : ℕ → F) (latest : String → Outcome → Option (MarketDataEvent F))
      (i : OrderIntentEvent F) (c : RiskChecker F)
      → (check default_policies now (build_context limits latest i c) limits).allowed ≡ true
      → ((is_buy i.side && traded (trade_of i) c) ≡ false)
        × (c.order_count_last_minute < limits.order_rate_limit_per_minute)
  unfolding build_context
  allowed-fresh limits now latest i c h =
      let v = (check_exact now (build_context limits latest i c) limits).0 h in
      (
        ground (arith, v.first, member-union (trade_of i) c.executed_trades c.approved_trades),
        v.within_rate,
      )

  decide-IsSound :
      (limits : RiskLimits F) (b : Bool) (i : OrderIntentEvent F) (c : RiskChecker F)
      → (b ≡ true
          → ((is_buy i.side && traded (trade_of i) c) ≡ false)
            × (c.order_count_last_minute < limits.order_rate_limit_per_minute))
      → IsSound limits c
      → IsSound limits (decide b i c)
  decide-IsSound limits true i c h v =
      let (fresh, room) = h refl in approve-IsSound limits i c fresh room v
  decide-IsSound limits false i c h v = v

  handle_arrival-IsSound :
      (limits : RiskLimits F) (a : Arrival F) (c : RiskChecker F)
      → IsSound limits c
      → IsSound limits (handle_arrival default_policies limits a c)
  unfolding handle_arrival check_intent
  handle_arrival-IsSound limits (executed o) c v = track_order-IsSound limits o c v
  handle_arrival-IsSound limits (proposal now latest i) c v =
      let result = check default_policies now (build_context limits latest i c) limits in
      decide-IsSound limits result.allowed i (announce (risk_check i result) c)
        (allowed-fresh limits now latest i c) (announce-IsSound limits i result c v)

  run-IsSound :
      (limits : RiskLimits F) (arrivals : List (Arrival F)) (c : RiskChecker F)
      → IsSound limits c
      → IsSound limits (run default_policies limits arrivals c)
  unfolding run
  run-IsSound limits [] c v = v
  run-IsSound limits (a ∷ arrivals) c v =
      run-IsSound limits arrivals (handle_arrival default_policies limits a c)
        (handle_arrival-IsSound limits a c v)

  new_checker-IsSound : (limits : RiskLimits F) → IsSound limits new_checker
  new_checker-IsSound limits = record {
    once = tt;
    tracked = λ t h. ground arith;
    counted = refl;
    bounded = omega arith;
  }

  -- With the default policies, and from a new checker on: however many proposals and executed
  -- orders arrive, and in whatever order, no two of the approved BUY intents are of the same
  -- strategy, market and outcome.
  pub run-once :
      (limits : RiskLimits F) (arrivals : List (Arrival F))
      → IsUnique (bought (run default_policies limits arrivals new_checker).published)
  run-once limits arrivals =
      let v = run-IsSound limits arrivals new_checker (new_checker-IsSound limits) in v.once

  -- Over its whole life, however long that is, a checker with the default policies approves at most
  -- as many intents as the limit of orders per minute: what it compares with the limit is the
  -- number of all approvals.
  pub approvals-run :
      (limits : RiskLimits F) (arrivals : List (Arrival F))
      → let c = run default_policies limits arrivals new_checker in
        (approvals c.published ≡ c.order_count_last_minute)
        × (approvals c.published ≤ limits.order_rate_limit_per_minute)
  approvals-run limits arrivals =
      let v = run-IsSound limits arrivals new_checker (new_checker-IsSound limits) in
      (v.counted, omega (arith, v.counted, v.bounded))
