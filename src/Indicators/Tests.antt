-- ===== src/Indicators/Tests.antt =====
-- The theorems about polytrader/indicators at concrete series.
use polytrader.Prelude.{
  refl, false, List, [], ◌∷◌, All, text_eq, string_eq, ℕ, ◌+◌, ◌*◌, ◌/◌, ◌%◌, nat_eq, if◌then◌else◌,
  true,
}
use polytrader.Float.Fixed.{ℤ, pos, fixed_float, ℤ-IsOrdered}
use polytrader.Dict.{lookup, insert}
use polytrader.Effect.{ok}
use polytrader.Events.{up, event_meta, MarketDataEvent, mid}
use polytrader.Indicators.Candles.{
  Candle, Timing, Tick, place, sorted, highest, lowest, bucket_start, parse_ts_wall, candles_of,
  bucket_all, aggregate_ticks_to_candles,
}
use polytrader.Indicators.Bounds.{IsCovered, aggregate-IsCovered}

abbrev sum_of : List ℤ → ℤ
sum_of [] = pos 0
sum_of (x ∷ xs) = fixed_float.add x (sum_of xs)

-- A time is its minute of the day; "10:00" is the only text of ten o'clock.
abbrev timing : Timing ℕ
timing = record {
  with_offset = λ t. t;
  fromisoformat = λ t. ok (if text_eq t "10:00" then 605 else 620);
  is_naive = λ t. true;
  with_utc = λ t. t;
  hour = λ t. t / 60;
  minute = λ t. t % 60;
  second = λ t. 0;
  at_time = λ t h m s. h * 60 + m;
  earlier = λ a b. false;
  text_lt = λ a b. false;
}

abbrev tick : ℤ → ℤ → MarketDataEvent ℤ
tick bid ask = record {
  meta = event_meta "e" (pos 0) "c";
  market_slug = "btc";
  outcome = up;
  best_bid = bid;
  best_ask = ask;
}

abbrev ticks : List (Tick ℤ)
ticks =
    ("10:00", tick (pos 4000) (pos 5000))
    ∷ ("10:15", tick (pos 7000) (pos 8000))
    ∷ ("10:00", tick (pos 3000) (pos 4000))
    ∷ []

abbrev first_candle : Candle ℤ ℕ
first_candle = record {
  open_price = pos 4500;
  high = pos 4500;
  low = pos 3500;
  close = pos 3500;
  ts_start = 600;
}

abbrev second_candle : Candle ℤ ℕ
second_candle = record {
  open_price = pos 7500;
  high = pos 7500;
  low = pos 7500;
  close = pos 7500;
  ts_start = 615;
}

abbrev candles : List (Candle ℤ ℕ)
candles = first_candle ∷ second_candle ∷ []

aggregate-IsCovered_example : All (IsCovered timing ℤ-IsOrdered 15 0 candles) ticks
unfolding aggregate_ticks_to_candles bucket_start parse_ts_wall sorted place bucket_all candles_of
    highest lowest lookup insert text_eq mid
aggregate-IsCovered_example = aggregate-IsCovered timing ℤ-IsOrdered 15 0 ticks candles refl
