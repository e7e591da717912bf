-- ===== src/Strategies/Threshold.antt =====
-- polytrader/strategies/simple_threshold/strategy.py: `SimpleThresholdStrategy`. `history` is the
-- store's; `meta` is what the new event gets. Metrics and logs are left out.
pub mod Once
use polytrader.Prelude.{
  String, ℕ, zero, suc, ◌+◌, ◌≤◌, ◌≡◌, refl, Bool, true, false, not, ◌&&◌, Option, none, some, List,
  [], ◌∷◌, length, ltb, leb, if◌then◌else◌, string_eq, pair_eq, ◌==◌, eq_of_==, ==_refl, Bool-cases,
  Option-cases, inl, inr, arith,
}
use polytrader.Float.{Float, nought, one, min_of, max_of}
use polytrader.Dict.{Dict, lookup, insert, contains, lookup-insert}
use polytrader.Effect.{Result, ok, err}
use polytrader.Events.{Outcome, up, EventMeta, MarketDataEvent, mid, outcome_eq}
use polytrader.Market.Store.{Key}
use polytrader.Execution.Pricing.{clamp}
use polytrader.Portfolio.{SignalEvent}

-- A key that was once set to `None` is in the dict with `none`.
pub record SimpleThreshold (F : Type 0) : Type 0 where
  pub market_slug : String
  pub buy_threshold : F
  pub min_history : ℕ
  pub last_signal_sent : Dict Key (Option (SignalEvent F))

-- What `evaluate` returns or raises, and the strategy after it.
abbrev pub Evaluated : Type 0 → Type 0
Evaluated F = Result String (Option (SignalEvent F)) × SimpleThreshold F

-- `self._last_signal_sent.get(key)`
abbrev pub sent : {A : Type 0} → Option (Option A) → Option A
sent none = none
sent (some o) = o

module _ {F : Type 0} ⦃fl : Float F⦄ where
  open fl use {add, sub, div, lt, le}

  abbrev is_unit : F → Bool
  is_unit x = le nought x && le x one

  -- Building a `SignalEvent` validates its probabilities and its confidence.
  abbrev pub is_valid_signal : SignalEvent F → Bool
  is_valid_signal s = is_unit s.p_up && (is_unit s.p_down && is_unit s.confidence)

  abbrev pub new_signal : SignalEvent F → Result String (SignalEvent F)
  new_signal s = if is_valid_signal s then ok s else err "invalid signal"

  -- `p / total if total > 0`
  abbrev share : F → F → F
  share p total = if lt nought total then div p total else p

  abbrev pub threshold_signal : EventMeta F → F → MarketDataEvent F → SignalEvent F
  threshold_signal meta threshold m =
      let p_up = clamp (sub one (mid m)) in
      let p_down = clamp (mid m) in
      let total = add p_up p_down in
      let edge = sub threshold (mid m) in
      record {
        meta = meta;
        market_slug = m.market_slug;
        outcome = up;
        p_up = share p_up total;
        p_down = share p_down total;
        edge = edge;
        confidence = if lt nought threshold then min_of (div edge threshold) one else nought;
        model_id = "simple_threshold";
      }

  abbrev pub remember : Key → Option (SignalEvent F) → SimpleThreshold F → SimpleThreshold F
  remember key o s = record s { last_signal_sent = insert key o s.last_signal_sent }

  abbrev pub emit : Key → Result String (SignalEvent F) → SimpleThreshold F → Evaluated F
  emit key (ok signal) s = (ok (some signal), remember key (some signal) s)
  emit key (err e) s = (err e, s)

  -- Below the threshold: once, until the price was at the threshold or above.
  abbrev pub below :
      Key → Result String (SignalEvent F) → Option (SignalEvent F) → SimpleThreshold F → Evaluated F
  below key signal (some _) s = (ok none, s)
  below key signal none s = emit key signal s

  abbrev pub above : Key → SimpleThreshold F → Evaluated F
  above key s = (ok none, if contains key s.last_signal_sent then remember key none s else s)

  abbrev pub key_of : MarketDataEvent F → Key
  key_of m = (m.market_slug, m.outcome)

  abbrev pub is_watched :
      (String → Outcome → List (MarketDataEvent F)) → MarketDataEvent F → SimpleThreshold F → Bool
  is_watched history m s =
      m.market_slug == s.market_slug && leb s.min_history (length (history m.market_slug m.outcome))

  unfoldable pub evaluate :
      EventMeta F
      → (String → Outcome → List (MarketDataEvent F))
      → MarketDataEvent F
      → SimpleThreshold F
      → Evaluated F
  evaluate meta history m s =
      if not (is_watched history m s)
      then (ok none, s)
      else if lt (mid m) s.buy_threshold
      then below (key_of m) (new_signal (threshold_signal meta s.buy_threshold m))
          (sent (lookup (key_of m) s.last_signal_sent)) s
      else above (key_of m) s
