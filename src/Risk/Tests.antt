-- ===== src/Risk/Tests.antt =====
-- The theorems about polytrader/risk at one intent and one day of a checker.
use polytrader.Prelude.{
  String, ℕ, ◌+◌, ◌≤◌, ◌≡◌, ◌↔◌, true, Option, some, List, [], ◌∷◌, string_eq, member, IsUnique,
  pair_eq,
}
use polytrader.Float.Fixed.{ℤ, pos, fixed_float}
use polytrader.Events.{
  Outcome, outcome_eq, up, buy, sell, event_meta, OrderIntentEvent, MarketDataEvent,
}
use polytrader.Risk.Models.{RiskReasonCode, code_eq, RiskLimits, RiskContext}
use polytrader.Prelude.{refl, text_eq}
use polytrader.Dict.{lookup, insert, erase}
use polytrader.Events.{mid}
use polytrader.Risk.Models.{same_code}
use polytrader.Risk.Policies.{
  check_proposal_validity, check_system_health, check_data_freshness, check_token_ownership,
  check_strategy_activation, check_max_trades_per_market, check_rate_limits,
}
use polytrader.Risk.Policies.Price.{check_price_sanity}
use polytrader.Risk.Policies.Position.{check_position_limits}
use polytrader.Risk.Checker.{handle_arrival, check_intent, build_context, track_order}
use polytrader.Risk.Engine.{run_policies, unique_from, check, default_policies}
use polytrader.Risk.Engine.Aggregate.{given_by, check-reasons}
use polytrader.Risk.Engine.Exact.{IsAcceptable, check_exact}
use polytrader.Risk.Checker.{new_checker, Arrival, proposal, executed, run}
use polytrader.Risk.Checker.Log.{approvals, bought}
use polytrader.Risk.Checker.Once.{run-once, approvals-run}

abbrev limits : RiskLimits ℤ
limits = record {
  version = "1.0";
  max_position_per_market = pos 10000;
  max_position_global = pos 100000;
  max_notional_exposure = pos 1000000;
  max_order_size = pos 100000;
  max_trades_per_market = 1;
  order_rate_limit_per_minute = 60;
  cancel_rate_limit_per_minute = 120;
  max_data_staleness_seconds = pos 50000;
  price_deviation_threshold = pos 1000;
}

abbrev clock : ℕ → ℤ
clock i = pos (i + 20)

-- A BUY of one unit at 0.5.
abbrev intent : OrderIntentEvent ℤ
intent = record {
  meta = event_meta "intent" (pos 0) "decision";
  market_slug = "btc";
  outcome = up;
  side = buy;
  target_price = pos 5000;
  limit_price = pos 5000;
  size = pos 10000;
  reason = "signal";
  strategy_id = "s";
  ttl_s = pos 50000;
}

abbrev market : String → Outcome → Option (MarketDataEvent ℤ)
market m o = some (record {
  meta = event_meta "market" (pos 10) "feed";
  market_slug = m;
  outcome = o;
  best_bid = pos 4900;
  best_ask = pos 5100;
})

abbrev context : RiskContext ℤ
context = build_context limits market intent new_checker

abbrev day : List (Arrival ℤ)
day =
    proposal clock market intent
    ∷ proposal clock market intent
    ∷ executed (record {
      meta = event_meta "done" (pos 30) "decision";
      market_slug = "btc";
      outcome = up;
      side = buy;
    })
    ∷ proposal clock market (record intent { side = sell })
    ∷ []

check_exact_example :
    ((check default_policies clock context limits).allowed ≡ true)
    ↔ IsAcceptable clock context limits
check_exact_example = check_exact clock context limits

check-reasons_example :
    IsUnique (check default_policies clock context limits).reason_codes
    × ((r : RiskReasonCode)
        → member r (check default_policies clock context limits).reason_codes
          ≡ given_by r clock context limits default_policies)
check-reasons_example = check-reasons default_policies clock context limits

run-once_example : IsUnique (bought (run default_policies limits day new_checker).published)
run-once_example = run-once limits day

approvals-run_example :
    let c = run default_policies limits day new_checker in
    (approvals c.published ≡ c.order_count_last_minute) × (approvals c.published ≤ 60)
approvals-run_example = approvals-run limits day

-- The first BUY is approved, the second one is not, and the SELL of what was bought is: two
-- approvals.
approvals_of_day : approvals (run default_policies limits day new_checker).published ≡ 2
unfolding run handle_arrival check_intent build_context track_order check run_policies unique_from
    check_proposal_validity check_system_health check_data_freshness check_token_ownership
    check_strategy_activation check_max_trades_per_market check_position_limits check_price_sanity
    check_rate_limits lookup insert erase text_eq same_code mid
approvals_of_day = refl
