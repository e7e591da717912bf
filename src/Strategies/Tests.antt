-- ===== src/Strategies/Tests.antt =====
-- The theorems about polytrader/strategies at concrete quotes.
use polytrader.Prelude.{
  ℕ, ◌*◌, ◌/◌, ◌%◌, ◌+◌, nat_eq, if◌then◌else◌, ◌≤◌, String, ◌≡◌, refl, Bool, true, false, Option,
  none, some, List, [], ◌∷◌, text_eq, string_eq,
}
use polytrader.Float.Fixed.{ℤ, pos, fixed_float}
use polytrader.Dict.{lookup, insert}
use polytrader.Effect.{Result, ok, err}
use polytrader.Events.{Outcome, up, down, event_meta, MarketDataEvent, mid}
use polytrader.Market.Store.{last}
use polytrader.Execution.Pricing.{clamp}
use polytrader.Portfolio.{SignalEvent, Texts}
use polytrader.Indicators.Candles.{
  Timing, Tick, place, sorted, highest, lowest, bucket_start, parse_ts_wall, candles_of, bucket_all,
  aggregate_ticks_to_candles,
}
use polytrader.Indicators.Rolling.{
  rolling_mean, ema_from, ema, atr, fair_price_anchor, trend_strength_ema_gap,
}
use polytrader.Strategies.Threshold.{SimpleThreshold, evaluate}
use polytrader.Strategies.Threshold.Once.{Tick as Quote, signals, signals-Once}
use polytrader.Strategies.Reversion.{Reversion, measure, evaluate as evaluate_reversion}

abbrev tick : ℤ → MarketDataEvent ℤ
tick price = record {
  meta = event_meta "tick" (pos 0) "tick";
  market_slug = "btc";
  outcome = up;
  best_bid = price;
  best_ask = price;
}

abbrev quote : ℤ → Quote ℤ
quote price = (event_meta "s" (pos 0) "c", λ slug outcome. [], tick price)

-- Below, below, above, below.
abbrev quotes : List (Quote ℤ)
quotes = quote (pos 2500) ∷ quote (pos 2000) ∷ quote (pos 4000) ∷ quote (pos 2000) ∷ []

abbrev threshold : SimpleThreshold ℤ
threshold = record {
  market_slug = "btc";
  buy_threshold = pos 3000;
  min_history = 0;
  last_signal_sent = [];
}

two_signals : signals ("btc", up) quotes threshold ≡ 2
unfolding evaluate lookup insert clamp mid text_eq
two_signals = refl

signals-Once_example : signals ("btc", up) quotes threshold ≤ 2
unfolding mid text_eq
signals-Once_example = signals-Once ("btc", up) quotes threshold

abbrev sum_of : List ℤ → ℤ
sum_of [] = pos 0
sum_of (x ∷ xs) = fixed_float.add x (sum_of xs)

-- A time is its minute of the day; "10:00" is the only text of ten o'clock.
abbrev timing : Timing ℕ
timing = record {
  with_offset = λ t. t;
  fromisoformat = λ t. ok (if text_eq t "10:00" then 605 else 620);
  is_naive = λ t. true;
  with_utc = λ t. t;
  hour = λ t. t / 60;
  minute = λ t. t % 60;
  second = λ t. 0;
  at_time = λ t h m s. h * 60 + m;
  earlier = λ a b. false;
  text_lt = λ a b. false;
}

abbrev always : ℕ → ℕ → Bool
always now t = true

abbrev texts : Texts ℤ
texts = record { rationale_text = λ a b c. "edge"; reason_text = λ r a b. r }

abbrev history : List (Tick ℤ)
history =
    ("10:00", tick (pos 4500))
    ∷ ("10:00", tick (pos 3500))
    ∷ ("10:15", tick (pos 4000))
    ∷ ("10:15", tick (pos 9000))
    ∷ []

abbrev reversion : Reversion ℤ ℕ ℕ
reversion = record {
  market_slug = "btc";
  interval_minutes = 15;
  interval_seconds = 0;
  anchor_window = 1;
  atr_window = 1;
  ema_fast = 1;
  ema_slow = 2;
  trend_threshold = pos 5000;
  entry_z = pos 2000;
  exit_z = pos 1000;
  max_trades_per_hour = 4;
  signal_times = [];
  last_candle_ts_start = [];
}

abbrev result : Result String (Option (SignalEvent ℤ)) × Reversion ℤ ℕ ℕ
result =
    evaluate_reversion timing sum_of always (event_meta "s" (pos 0) "c") 7 history (tick (pos 9000))
      none reversion

abbrev outcome_of : Result String (Option (SignalEvent ℤ)) → Option Outcome
outcome_of (ok (some s)) = some s.outcome
outcome_of (ok none) = none
outcome_of (err e) = none

-- The price is far above the anchor, and the strategy signals DOWN.
signals_down : outcome_of result.0 ≡ some down
unfolding evaluate_reversion measure aggregate_ticks_to_candles bucket_start parse_ts_wall sorted
    place bucket_all candles_of highest lowest lookup insert last rolling_mean ema_from ema atr
    fair_price_anchor trend_strength_ema_gap text_eq mid
signals_down = refl
