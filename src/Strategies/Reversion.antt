-- ===== src/Strategies/Reversion.antt =====
-- polytrader/strategies/volatility_filtered_mean_reversion/strategy.py:
-- `VolatilityFilteredMeanReversionStrategy`. `timing` is that of the candles, `sum_of` Python's
-- `sum`, `in_last_hour now t` the test `t > now - timedelta(hours=1)` of the wall clock W, and the
-- history is what the store holds of the quote's market and outcome. Metrics and logs are left out.
pub mod Sound
use polytrader.Prelude.{
  String, ℕ, Bool, true, false, not, ◌&&◌, Option, none, some, List, [], ◌∷◌, ◌++◌, length, keep_if,
  ltb, leb, if◌then◌else◌, HasEq, ◌==◌, string_eq, pair_eq,
}
use polytrader.Float.{Float, nought, one, ratio, min_of, max_of}
use polytrader.Dict.{Dict, lookup, insert}
use polytrader.Effect.{Result, ok, err}
use polytrader.Events.{Outcome, up, down, EventMeta, MarketDataEvent, outcome_eq}
use polytrader.Market.Store.{Key, last}
use polytrader.Indicators.Candles.{Candle, Timing, Tick, aggregate_ticks_to_candles}
use polytrader.Indicators.Rolling.{atr, fair_price_anchor, trend_strength_ema_gap, deviation_z}
use polytrader.Portfolio.{SignalEvent, Position, Positions}
use polytrader.Strategies.Threshold.{new_signal}

pub data PositionState : Type 0 where
  flat long_up long_down : PositionState

abbrev pub is_flat : PositionState → Bool
is_flat flat = true
is_flat long_up = false
is_flat long_down = false

-- The fields that `evaluate` reads.
pub record Reversion (F T W : Type 0) : Type 0 where
  pub market_slug : String
  pub interval_minutes : ℕ
  pub interval_seconds : ℕ
  pub anchor_window : ℕ
  pub atr_window : ℕ
  pub ema_fast : ℕ
  pub ema_slow : ℕ
  pub trend_threshold : F
  pub entry_z : F
  pub exit_z : F
  pub max_trades_per_hour : ℕ
  pub signal_times : List W
  pub last_candle_ts_start : Dict Key T

-- What the candles say at the last one.
pub record Reading (F T : Type 0) : Type 0 where
  pub z : F
  pub trend_strength : F
  pub ts_start : T

abbrev highs : {F T : Type 0} → List (Candle F T) → List F
highs [] = []
highs (c ∷ cs) = c.high ∷ highs cs

abbrev lows : {F T : Type 0} → List (Candle F T) → List F
lows [] = []
lows (c ∷ cs) = c.low ∷ lows cs

abbrev closes : {F T : Type 0} → List (Candle F T) → List F
closes [] = []
closes (c ∷ cs) = c.close ∷ closes cs

abbrev max_ℕ : ℕ → ℕ → ℕ
max_ℕ a b = if ltb a b then b else a

module _ {F T W : Type 0} ⦃fl : Float F⦄ ⦃eq : HasEq T⦄ (timing : Timing T) (sum_of : List F → F)
    (in_last_hour : W → W → Bool) where
  open fl use {add, sub, mul, div, neg, abs, lt, le}

  -- `if key in positions and positions[key].size > 0`
  abbrev is_held : Option (Position F) → Bool
  is_held none = false
  is_held (some p) = lt nought p.size

  abbrev pub position_state : Reversion F T W → Option (Positions F) → PositionState
  position_state s none = flat
  position_state s (some positions) =
      if is_held (lookup (s.market_slug, up) positions)
      then long_up
      else if is_held (lookup (s.market_slug, down) positions)
      then long_down
      else flat

  abbrev warmup_candles : Reversion F T W → ℕ
  warmup_candles s = max_ℕ (max_ℕ s.anchor_window s.atr_window) s.ema_slow

  -- The last of each series; an empty one would raise.
  abbrev pub reading_of :
      F → Option (Candle F T) → Option F → Option F → Result String (Option (Reading F T))
  reading_of vol (some c) (some anchor) (some trend) = ok (
      some (record {
        z = deviation_z sum_of c.close anchor vol;
        trend_strength = trend;
        ts_start = c.ts_start;
      }))
  reading_of _ _ _ _ = err "list index out of range"

  abbrev read_last :
      F
      → List (Candle F T)
      → Result String (List F)
      → Result String (List F)
      → Result String (Option (Reading F T))
  read_last vol cs (err e) _ = err e
  read_last vol cs (ok _) (err e) = err e
  read_last vol cs (ok anchors) (ok trends) = reading_of vol (last cs) (last anchors) (last trends)

  abbrev read_at :
      Reversion F T W → List (Candle F T) → List F → Option F → Result String (Option (Reading F T))
  read_at s cs vols none = ok none
  read_at s cs vols (some vol) =
      if le vol nought
      then ok none
      else read_last vol cs (fair_price_anchor sum_of cs "rolling_mean" s.anchor_window)
          (trend_strength_ema_gap sum_of (closes cs) s.ema_fast s.ema_slow vols)

  abbrev read_volatility :
      Reversion F T W
      → List (Candle F T)
      → Result String (List F)
      → Result String (Option (Reading F T))
  read_volatility s cs (err e) = err e
  read_volatility s cs (ok vols) = read_at s cs vols (last vols)

  abbrev read_candles :
      Reversion F T W → Result String (List (Candle F T)) → Result String (Option (Reading F T))
  read_candles s (err e) = err e
  read_candles s (ok cs) =
      if ltb (length cs) (warmup_candles s)
      then ok none
      else read_volatility s cs (atr sum_of (highs cs) (lows cs) (closes cs) s.atr_window)

  -- The indicators of a history; `none` where the strategy has too few candles or no volatility.
  unfoldable pub measure : Reversion F T W → List (Tick F) → Result String (Option (Reading F T))
  measure s history =
      read_candles s
        (aggregate_ticks_to_candles timing history s.interval_minutes s.interval_seconds)

  abbrev pub is_exit : PositionState → F → F → Bool
  is_exit long_down z exit_z = le z exit_z
  is_exit long_up z exit_z = le (neg exit_z) z
  is_exit flat z exit_z = false

  abbrev pub entry_outcome : Reversion F T W → F → Option Outcome
  entry_outcome s z =
      if le s.entry_z z then some down else if le z (neg s.entry_z) then some up else none

  abbrev pub chance : Bool → F
  chance favoured = if favoured then ratio 4 5 else ratio 1 5

  abbrev pub is_up : Outcome → Bool
  is_up up = true
  is_up down = false

  abbrev pub reversion_signal :
      EventMeta F → Reversion F T W → MarketDataEvent F → F → Outcome → SignalEvent F
  reversion_signal meta s m z outcome = record {
    meta = meta;
    market_slug = m.market_slug;
    outcome = outcome;
    p_up = chance (is_up outcome);
    p_down = chance (not (is_up outcome));
    edge = sub (abs z) s.exit_z;
    confidence = min_of (div (abs z) (max_of s.entry_z (ratio 1 1000000000))) one;
    model_id = "volatility_filtered_mean_reversion";
  }

  abbrev pub quote_key : MarketDataEvent F → Key
  quote_key m = (m.market_slug, m.outcome)

  abbrev pub record_signal :
      W
      → MarketDataEvent F
      → T
      → Result String (SignalEvent F)
      → Reversion F T W
      → Result String (Option (SignalEvent F)) × Reversion F T W
  record_signal now m ts (err e) s = (err e, s)
  record_signal now m ts (ok signal) s = (
    ok (some signal),
    record s {
      signal_times = s.signal_times ++ (now ∷ []);
      last_candle_ts_start = insert (quote_key m) ts s.last_candle_ts_start;
    },
  )

  abbrev pub enter :
      EventMeta F
      → W
      → MarketDataEvent F
      → Reading F T
      → Option Outcome
      → Reversion F T W
      → Result String (Option (SignalEvent F)) × Reversion F T W
  enter meta now m r none s = (ok none, s)
  enter meta now m r (some outcome) s =
      record_signal now m r.ts_start (new_signal (reversion_signal meta s m r.z outcome)) s

  abbrev pub is_last : T → Option T → Bool
  is_last ts none = false
  is_last ts (some t) = t == ts

  -- From the throttle on; the old signal times are dropped in any case.
  abbrev pub throttled :
      EventMeta F
      → W
      → MarketDataEvent F
      → PositionState
      → Reading F T
      → Reversion F T W
      → Result String (Option (SignalEvent F)) × Reversion F T W
  throttled meta now m state r s =
      if leb s.max_trades_per_hour (length s.signal_times)
      then (ok none, s)
      else if is_last r.ts_start (lookup (quote_key m) s.last_candle_ts_start)
      then (ok none, s)
      else if not (is_flat state)
      then (ok none, s)
      else enter meta now m r (entry_outcome s r.z) s

  abbrev pub recent : W → Reversion F T W → Reversion F T W
  recent now s = record s { signal_times = keep_if (in_last_hour now) s.signal_times }

  abbrev pub judge :
      EventMeta F
      → W
      → MarketDataEvent F
      → PositionState
      → Result String (Option (Reading F T))
      → Reversion F T W
      → Result String (Option (SignalEvent F)) × Reversion F T W
  judge meta now m state (err e) s = (err e, s)
  judge meta now m state (ok none) s = (ok none, s)
  judge meta now m state (ok (some r)) s =
      if is_exit state r.z s.exit_z
      then (ok none, s)
      else if not (le r.trend_strength s.trend_threshold)
      then (ok none, s)
      else throttled meta now m state r (recent now s)

  unfoldable pub evaluate :
      EventMeta F
      → W
      → List (Tick F)
      → MarketDataEvent F
      → Option (Positions F)
      → Reversion F T W
      → Result String (Option (SignalEvent F)) × Reversion F T W
  evaluate meta now history m positions s =
      if not (m.market_slug == s.market_slug)
      then (ok none, s)
      else judge meta now m (position_state s positions) (measure s history) s
