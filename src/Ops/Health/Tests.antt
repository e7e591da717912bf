-- ===== src/Ops/Health/Tests.antt =====
-- The theorems about polytrader/ops/health.py at a service with one market.
use polytrader.Prelude.{◌≡◌, ◌↔◌, true, false, none, some, [], ◌∷◌}
use polytrader.Float.Fixed.{ℤ, pos, fixed_float}
use polytrader.Events.{up, event_meta, MarketDataEvent}
use polytrader.Ops.Control.{phantom_order, no_divergence, new_ops}
use polytrader.Ops.Health.{HealthService, Texts, reported, evaluate, check_gates}
use polytrader.Ops.Health.Gates.{IsHealthy, check_gates_exact}

abbrev quote : MarketDataEvent ℤ
quote = record {
  meta = event_meta "tick" (pos 100000) "tick";
  market_slug = "btc";
  outcome = up;
  best_bid = pos 4900;
  best_ask = pos 5100;
}

-- Half a minute after the quote, with one divergence of two that the limit lets through.
abbrev service : HealthService ℤ
service = record {
  all_markets = some (("btc", up) ∷ []);
  latest = λ k. some quote;
  thresholds = record {
    max_market_data_staleness_seconds = pos 600000;
    max_reconciliation_divergences = 1;
    max_error_rate = pos 1000;
    require_user_stream = true;
  };
  user_stream_adapter = some (record { is_running = true; has_ws = true });
  breaker = some (new_ops true);
  kill_switch = false;
  rate = some (pos 500);
  recent_reconcile_events =
      record { divergence_type = phantom_order; is_error = false }
      ∷ record { divergence_type = no_divergence; is_error = true }
      ∷ [];
  tick_storage = some (reported true true true none);
}

abbrev texts : Texts ℤ
texts = record {
  stale_text = λ x. "market_data_stale";
  divergences_text = λ n. "reconciliation_divergences";
  rate_text = λ x. "error_rate";
  tick_text = λ e. e;
  raised_text = λ e. e;
}

check_gates_exact_example :
    ((check_gates texts service.thresholds (evaluate (pos 400000) texts none none service)).0
      ≡ true)
    ↔ IsHealthy (pos 400000) service
check_gates_exact_example = check_gates_exact (pos 400000) service texts
