-- ===== src/Strategies/Reversion/Sound.antt =====
-- When the strategy of polytrader/strategies/volatility_filtered_mean_reversion/strategy.py
-- signals, and what the portfolio makes of it.
use polytrader.Prelude.{
  String, ◌≤◌, ◌≡◌, Bool, true, false, Option, none, some, List, [], ◌∷◌, ◌++◌, length, keep_if,
  HasEq, ◌==◌, string_eq, pair_eq,
}
use polytrader.Float.{Float, IsOrdered, nought}
use polytrader.Dict.{lookup}
use polytrader.Effect.{Result, ok, err}
use polytrader.Events.{Outcome, up, down, MarketDataEvent, outcome_eq}
use polytrader.Indicators.Candles.{Timing}
use polytrader.Portfolio.{SignalEvent, Position, Positions, Texts, favoured}
use polytrader.Strategies.Reversion.{Reversion, Reading}

module _ {F T W : Type 0} ⦃fl : Float F⦄ ⦃eq : HasEq T⦄ (timing : Timing T) (sum_of : List F → F)
    (in_last_hour : W → W → Bool) (o : IsOrdered F) (texts : Texts F) where
  open fl use {neg, lt, le}

  -- A property of the signal and of the strategy after it, if there is a signal.
  abbrev pub OnSignal :
      (SignalEvent F → Reversion F T W → Type 0)
      → Result String (Option (SignalEvent F)) × Reversion F T W
      → Type 0
  OnSignal P (ok (some signal), s) = P signal s
  OnSignal P (ok none, s) = Unit
  OnSignal P (err e, s) = Unit

  -- No position with a size in either outcome of the market.
  abbrev pub IsUnheld : String → Option (Positions F) → Type 0
  IsUnheld slug none = Unit
  IsUnheld slug (some positions) =
      (outcome : Outcome) (p : Position F)
      → lookup (slug, outcome) positions ≡ some p
      → lt nought p.size ≡ false

  -- The distance of the last price from the anchor, and its side: DOWN is bought above the anchor,
  -- UP below it.
  abbrev pub IsFar : Outcome → F → F → Type 0
  IsFar down entry_z z = le entry_z z ≡ true
  IsFar up entry_z z = (le entry_z z ≡ false) × (le z (neg entry_z) ≡ true)

  -- Why a signal is given: a quiet market, far from the anchor, without a position, within the
  -- hourly limit; and the portfolio buys what it is for. The signal times after it are those of the
  -- last hour and this one.
  abbrev pub IsJustified :
      W
      → MarketDataEvent F
      → Option (Positions F)
      → Result String (Option (Reading F T))
      → Reversion F T W
      → SignalEvent F
      → Reversion F T W
      → Type 0
  IsJustified now m positions reading s signal after =
      (r : Reading F T) × (reading ≡ ok (some r))
      × IsUnheld s.market_slug positions
      × (le r.trend_strength s.trend_threshold ≡ true)
      × IsFar signal.outcome s.entry_z r.z
      × ((ts : T)
          → lookup (m.market_slug, m.outcome) s.last_candle_ts_start ≡ some ts
          → (ts == r.ts_start) ≡ false)
      × (after.signal_times ≡ keep_if (in_last_hour now) s.signal_times ++ (now ∷ []))
      × (length after.signal_times ≤ s.max_trades_per_hour)
      × (favoured texts signal ≡ signal.outcome)
