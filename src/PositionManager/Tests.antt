-- ===== src/PositionManager/Tests.antt =====
-- The theorems about polytrader/position_manager at concrete fills, quotes and orders.
use polytrader.Prelude.{
  ◌≡◌, ◌≤◌, ◌+◌, refl, String, ℕ, none, some, List, [], ◌∷◌, text_eq, string_eq, pair_eq,
}
use polytrader.Float.Fixed.{ℤ, pos, fixed_float}
use polytrader.Dict.{lookup}
use polytrader.Events.{
  up, down, outcome_eq, Side, buy, sell, event_meta, EventMeta, FillEvent, MarketDataEvent, mid,
}
use polytrader.Market.Store.{Key}
use polytrader.Oms.Models.{Order, acked}
use polytrader.Portfolio.{Position}
use polytrader.PositionManager.Outcomes.{from_position_close}
use polytrader.PositionManager.PerStrategy.{closing_of}
use polytrader.PositionManager.Paper.{PaperManager, new_manager, handle_fill}
use polytrader.PositionManager.Paper.Market.{handle_market_change}
use polytrader.PositionManager.Paper.Loop.{Arrival, fill, quote, change, run, new_run}
use polytrader.PositionManager.Paper.Keys.{IsConsistent}
use polytrader.PositionManager.Paper.Consistent.{run-IsConsistent}
use polytrader.PositionManager.Paper.Pending.{sales, closes}
use polytrader.PositionManager.Paper.Once.{run-Once}
use polytrader.PositionManager.Paper.Resale.{Holds, resale_forgotten}
use polytrader.PositionManager.Paper.Settlement.{both_win}
use polytrader.PositionManager.Live.{
  LiveManager, ExternalOrder, filled, cancelled, sale, reconcile_positions, external_position,
}
use polytrader.PositionManager.Live.Target.{check_all, sales-Repeated}
use polytrader.PositionManager.Live.Reconcile.{reconcile_positions-Reconciled}

abbrev total : List ℤ → ℤ
total [] = pos 0
total (x ∷ xs) = fixed_float.add x (total xs)

abbrev no_text : ℤ → ℤ → ℤ → String
no_text a b c = "target"

abbrev stamp : EventMeta ℤ
stamp = event_meta "e" (pos 0) "c"

abbrev order_on : Side → Order ℤ
order_on side = record {
  order_id = "o1";
  client_order_id = "c1";
  venue_order_id = none;
  state = acked;
  intent = record {
    meta = stamp;
    market_slug = "btc";
    outcome = up;
    side = side;
    target_price = pos 6000;
    limit_price = pos 5000;
    size = pos 40000;
    reason = "edge";
    strategy_id = "threshold";
    ttl_s = pos 600000;
  };
  market_slug = "btc";
  outcome = up;
  side = side;
  size = pos 40000;
  limit_price = pos 5000;
  filled_size = pos 0;
  avg_fill_price = none;
  created_at = pos 0;
  updated_at = pos 0;
  reject_reason = none;
  correlation_id = "c";
  strategy_id = some "threshold";
}

abbrev fill_of : ℕ → FillEvent ℤ
fill_of size = record {
  meta = stamp;
  order_id = "o1";
  fill_id = "f";
  size = pos size;
  price = pos 5000;
  fee = pos 0;
  venue_fill_id = none;
}

abbrev quote_at : ℕ → MarketDataEvent ℤ
quote_at price = record {
  meta = stamp;
  market_slug = "btc";
  outcome = up;
  best_bid = pos price;
  best_ask = pos price;
}

-- A purchase, two quotes at the target, a sale of a quarter, the end of the market.
abbrev arrivals : List (Arrival ℤ)
arrivals =
    fill (some (order_on buy)) (fill_of 40000)
    ∷ quote stamp (quote_at 7000)
    ∷ quote stamp (quote_at 7000)
    ∷ fill (some (order_on sell)) (fill_of 10000)
    ∷ change (pos 9) (record { old_market = some "btc"; new_market = "eth"; correlation_id = "c" })
    ∷ []

run-IsConsistent_example :
    IsConsistent (run total no_text arrivals (new_run (pos 10000000))).manager
run-IsConsistent_example = run-IsConsistent total no_text (pos 10000000) arrivals

run-Once_example :
    let told = (run total no_text arrivals (new_run (pos 10000000))).manager.published in
    sales ("btc", up) told ≤ closes ("btc", up) told + 1
run-Once_example = run-Once total no_text ("btc", up) (pos 10000000) arrivals

abbrev holding : Key → Position ℤ
holding key = record {
  market_slug = key.0;
  outcome = key.1;
  size = pos 40000;
  target_price = pos 6000;
  entry_price = pos 5000;
  entry_time = pos 0;
  order_id = some "o1";
}

abbrev holder : PaperManager ℤ
holder = record (new_manager (pos 10000000)) {
  positions = (("btc", up), holding ("btc", up)) ∷ (("btc", down), holding ("btc", down)) ∷ [];
  position_fills =
      (("btc", up), (pos 40000, pos 20000)) ∷ (("btc", down), (pos 40000, pos 20000)) ∷ [];
  latest_prices = (("btc", up), pos 8000) ∷ (("btc", down), pos 6000) ∷ [];
  position_strategy = (("btc", up), "threshold") ∷ (("btc", down), "threshold") ∷ [];
}

-- Four bought, one sold, two bought: six are held.
resale_forgotten_example :
    Holds
      ("btc", up)
      (pos 60000)
      (handle_fill total
        (some (order_on buy))
        (fill_of 20000)
        (handle_fill total (some (order_on sell)) (fill_of 10000) holder).1).1
unfolding lookup text_eq
resale_forgotten_example =
    resale_forgotten total (order_on sell) (order_on buy) (holding ("btc", up)) (pos 40000)
      (pos 20000) (fill_of 10000) (fill_of 20000) holder refl refl refl refl refl refl

both_win_example :
    (handle_market_change total
      (pos 9)
      (record { old_market = some "btc"; new_market = "eth"; correlation_id = "c" })
      holder).1.outcomes.closed_positions
    ≡ from_position_close (closing_of ("btc", up) (holding ("btc", up)) (pos 10000) (pos 9))
      ∷ from_position_close (closing_of ("btc", down) (holding ("btc", down)) (pos 10000) (pos 9))
      ∷ []
unfolding lookup text_eq from_position_close
both_win_example =
    both_win total "btc" (pos 9) "c" holder (holding ("btc", up)) (holding ("btc", down)) (pos 8000)
      (pos 6000) refl refl refl refl
      (record { old_market = some "btc"; new_market = "eth"; correlation_id = "c" }) refl refl refl
      refl refl

abbrev live : LiveManager ℤ
live = record {
  positions = (("btc", up), holding ("btc", up)) ∷ [];
  order_id_to_position = ("o1", ("btc", up)) ∷ [];
  token_to_market = ("t1", ("btc", up)) ∷ ("t2", ("btc", down)) ∷ [];
  published = [];
}

sales-Repeated_example :
    (check_all no_text ((stamp, quote_at 7000) ∷ (stamp, quote_at 6000) ∷ []) live).published
    ≡ sale no_text stamp (quote_at 7000) (holding ("btc", up))
      ∷ sale no_text stamp (quote_at 6000) (holding ("btc", up))
      ∷ []
unfolding lookup text_eq mid
sales-Repeated_example =
    sales-Repeated no_text ("btc", up) (holding ("btc", up))
      ((stamp, quote_at 7000) ∷ (stamp, quote_at 6000) ∷ []) live refl
      ((refl, refl, refl), ((refl, refl, refl), tt))

abbrev bought_down : ExternalOrder ℤ
bought_down = record {
  token_id = "t2";
  status = filled;
  side = buy;
  size = pos 30000;
  order_id = "x1";
}

reconcile_example :
    lookup
      ("btc", down)
      (reconcile_positions
        (pos 5)
        (record bought_down { token_id = "t1"; status = cancelled } ∷ bought_down ∷ [])
        live).positions
    ≡ some (external_position (pos 5) ("btc", down) bought_down)
unfolding lookup text_eq
reconcile_example =
    reconcile_positions-Reconciled (pos 5) ("btc", down)
      (record bought_down { token_id = "t1"; status = cancelled } ∷ bought_down ∷ []) live
