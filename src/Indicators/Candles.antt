-- ===== src/Indicators/Candles.antt =====
-- polytrader/indicators/candles: `Candle` and `aggregate_ticks_to_candles`. `Timing` is what the
-- code asks of `datetime` and of `str`, for times T of one time zone. Ticks come with their
-- `ts_wall`.
use polytrader.Prelude.{
  String, ℕ, Bool, ◌&&◌, List, [], ◌∷◌, ◌++◌, HasEq, ltb, if◌then◌else◌, ◌+◌, ◌*◌, ◌/◌, ◌%◌,
}
use polytrader.Float.{Float, max_of, min_of}
use polytrader.Dict.{Dict, lookup, insert}
use polytrader.Effect.{Result, ok, err}
use polytrader.Events.{MarketDataEvent, mid}
use polytrader.Market.Store.{found}

pub record Candle (F T : Type 0) : Type 0 where
  pub open_price : F
  pub high : F
  pub low : F
  pub close : F
  pub ts_start : T

-- `with_utc` is `dt.replace(tzinfo=UTC)`, `at_time` is `dt.replace(hour, minute, second,
-- microsecond=0)`, and `with_offset` is `ts_wall.replace("Z", "+00:00")`.
pub record Timing (T : Type 0) : Type 0 where
  pub with_offset : String → String
  pub fromisoformat : String → Result String T
  pub is_naive : T → Bool
  pub with_utc : T → T
  pub hour : T → ℕ
  pub minute : T → ℕ
  pub second : T → ℕ
  pub at_time : T → ℕ → ℕ → ℕ → T
  pub earlier : T → T → Bool
  pub text_lt : String → String → Bool

module _ {T : Type 0} (timing : Timing T) where
  open timing use {with_offset, fromisoformat, is_naive, with_utc, hour, minute, second, at_time}

  abbrev aware : Result String T → Result String T
  aware (ok dt) = ok (if is_naive dt then with_utc dt else dt)
  aware (err e) = err e

  unfoldable pub parse_ts_wall : String → Result String T
  parse_ts_wall ts_wall = aware (fromisoformat (with_offset ts_wall))

  -- The start of the interval of the day that holds the time; no minutes is a `ZeroDivisionError`,
  -- which the caller has ruled out.
  abbrev truncate_to_interval : T → ℕ → T
  truncate_to_interval dt interval_minutes =
      let total = hour dt * 60 + minute dt in
      let truncated = total / interval_minutes * interval_minutes in
      at_time dt (truncated / 60) (truncated % 60) 0

  abbrev truncate_to_interval_seconds : T → ℕ → T
  truncate_to_interval_seconds dt interval_seconds =
      let total = hour dt * 3600 + minute dt * 60 + second dt in
      let truncated = total / interval_seconds * interval_seconds in
      at_time dt (truncated / 3600) (truncated % 3600 / 60) (truncated % 60)

  abbrev truncated : ℕ → ℕ → Result String T → Result String T
  truncated minutes seconds (err e) = err e
  truncated minutes seconds (ok dt) = ok (
      if ltb seconds 1
      then truncate_to_interval dt minutes
      else truncate_to_interval_seconds dt seconds)

  -- Seconds count when there are any.
  unfoldable pub bucket_start : ℕ → ℕ → String → Result String T
  bucket_start minutes seconds ts_wall = truncated minutes seconds (parse_ts_wall ts_wall)

abbrev pub Tick : Type 0 → Type 0
Tick F = String × MarketDataEvent F

-- `sorted` by a strict order, which keeps the order of items that are not ordered.
unfoldable pub place {ℓ} : {A : Type ℓ} → (A → A → Bool) → A → List A → List A
place before x [] = x ∷ []
place before x (y ∷ ys) = if before y x then y ∷ place before x ys else x ∷ y ∷ ys

unfoldable pub sorted {ℓ} : {A : Type ℓ} → (A → A → Bool) → List A → List A
sorted before [] = []
sorted before (x ∷ xs) = place before x (sorted before xs)

-- The middle prices of each start.
abbrev pub Buckets : Type 0 → Type 0 → Type 0
Buckets F T = Dict T (List F)

abbrev pub cons_ok :
    {A : Type 0} → Result String A → Result String (List A) → Result String (List A)
cons_ok (ok a) (ok rest) = ok (a ∷ rest)
cons_ok (err e) _ = err e
cons_ok (ok _) (err e) = err e

module _ {F T : Type 0} ⦃fl : Float F⦄ ⦃eq : HasEq T⦄ (timing : Timing T) where
  -- `buckets[start].append(event)`, of which the candles read `mid`.
  abbrev pub add_to : T → F → Buckets F T → Buckets F T
  add_to start x buckets = insert start (found (lookup start buckets) ++ (x ∷ [])) buckets

  -- `max(mids)` and `min(mids)`, from the first on.
  unfoldable pub highest : F → List F → F
  highest x [] = x
  highest x (y ∷ ys) = highest (max_of x y) ys

  unfoldable pub lowest : F → List F → F
  lowest x [] = x
  lowest x (y ∷ ys) = lowest (min_of x y) ys

  abbrev pub last_of : F → List F → F
  last_of x [] = x
  last_of x (y ∷ ys) = last_of y ys

  -- `mids[0]` of an empty bucket would raise.
  abbrev pub candle_of : T → List F → Result String (Candle F T)
  candle_of start [] = err "list index out of range"
  candle_of start (x ∷ xs) = ok (record {
    open_price = x;
    high = highest x xs;
    low = lowest x xs;
    close = last_of x xs;
    ts_start = start;
  })

  unfoldable pub candles_of : List (T × List F) → Result String (List (Candle F T))
  candles_of [] = ok []
  candles_of ((start, mids) ∷ rest) = cons_ok (candle_of start mids) (candles_of rest)

  -- The loop over the sorted events.
  unfoldable pub bucket_all : ℕ → ℕ → List (Tick F) → Buckets F T → Result String (Buckets F T)
  bucket_all minutes seconds [] buckets = ok buckets
  bucket_all minutes seconds ((ts_wall, event) ∷ ticks) buckets =
      elim (bucket_start timing minutes seconds ts_wall) [
        | ok start ↦ bucket_all minutes seconds ticks (add_to start (mid event) buckets)
        | err e ↦ err e
      ]

  -- `buckets` in the order of its keys.
  abbrev pub by_start : Buckets F T → List (T × List F)
  by_start buckets = sorted (λ p q. timing.earlier p.0 q.0) buckets

  abbrev pub finish : Result String (Buckets F T) → Result String (List (Candle F T))
  finish (ok buckets) = candles_of (by_start buckets)
  finish (err e) = err e

  -- `interval_seconds` counts when it is positive.
  unfoldable pub aggregate_ticks_to_candles :
      List (Tick F) → ℕ → ℕ → Result String (List (Candle F T))
  aggregate_ticks_to_candles events interval_minutes interval_seconds =
      if ltb interval_seconds 1 && ltb interval_minutes 1
      then err "interval_minutes must be >= 1"
      else finish (
          bucket_all interval_minutes interval_seconds
            (sorted (λ p q. timing.text_lt p.0 q.0) events) [])
