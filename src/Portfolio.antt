-- ===== src/Portfolio.antt =====
-- polytrader/portfolio: from a signal to a target and a proposal (targets.py, sizing.py,
-- intents.py, models.py, and `PortfolioService._process_signal` of service.py). The texts that are
-- printed from numbers are an interface. Metrics and logs are left out; the bus is the list
-- `published`.
pub mod Proposals
mod Tests
use polytrader.Prelude.{
  String, Bool, true, false, not, ◌&&◌, ◌||◌, Option, none, some, List, [], ◌∷◌, ◌++◌,
  if◌then◌else◌, string_eq, pair_eq,
}
use polytrader.Float.{Float, nought, one, max_of, ratio}
use polytrader.Dict.{Dict, lookup}
use polytrader.Effect.{
  Result, ok, err, Action, Done, pure, gets, lift, modify, raise_if, ◌>>=◌, ◌>>◌,
}
use polytrader.Events.{
  Outcome, up, down, buy, EventMeta, event_meta, MarketDataEvent, OrderIntentEvent, mid, is_price,
  is_size, outcome_eq,
}
use polytrader.Market.Store.{Key, last}

pub record SignalEvent (F : Type 0) : Type 0 where
  pub meta : EventMeta F
  pub open meta use *
  pub market_slug : String
  pub outcome : Outcome
  pub p_up : F
  pub p_down : F
  pub edge : F
  pub confidence : F
  pub model_id : String

-- `Target`, less what only explains it.
pub record Target (F : Type 0) : Type 0 where
  pub market_slug : String
  pub outcome : Outcome
  pub target_exposure : F
  pub rationale : String

pub record TargetEvent (F : Type 0) : Type 0 where
  pub meta : EventMeta F
  pub open meta use *
  pub market_slug : String
  pub outcome : Outcome
  pub target_exposure : F
  pub target_rationale : String

pub record Position (F : Type 0) : Type 0 where
  pub market_slug : String
  pub outcome : Outcome
  pub size : F
  pub target_price : F
  pub entry_price : F
  pub entry_time : F
  pub order_id : Option String

abbrev pub Positions : Type 0 → Type 0
Positions F = Dict Key (Position F)

-- The f-strings of `convert_signal_to_target` and `convert_target_to_intent`.
pub record Texts (F : Type 0) : Type 0 where
  pub rationale_text : F → F → F → String
  pub reason_text : String → F → F → String

-- `IPositionManager`: the calls that the service makes; `none` is `None`.
pub record IPositionManager (F : Type 0) : Type 0 where
  pub get_positions : Option (Positions F)
  pub get_positions_for_strategy : String → Option (Positions F)

-- Each class on the topic of its name: TARGETS and PROPOSALS.
pub data PortfolioMessage (F : Type 0) : Type 0 where
  target : TargetEvent F → PortfolioMessage F
  proposal : OrderIntentEvent F → PortfolioMessage F

-- `PortfolioService`: `history` is the store's.
pub record Portfolio (F : Type 0) : Type 0 where
  pub history : String → Outcome → List (MarketDataEvent F)
  pub position_manager : Option (IPositionManager F)
  pub fixed_size_usd : F
  pub published : List (PortfolioMessage F)

module _ {F : Type 0} ⦃fl : Float F⦄ (texts : Texts F) where
  open fl use {of_nat, sub, lt, le}

  -- Building a `Target` raises on a negative exposure.
  abbrev new_target : Target F → Result String (Option (Target F))
  new_target t =
      if lt t.target_exposure nought then err "target_exposure must be >= 0.0" else ok (some t)

  abbrev pub favoured : SignalEvent F → Outcome
  favoured signal = if lt signal.p_down signal.p_up then up else down

  abbrev pub target_of : SignalEvent F → F → Target F
  target_of signal fixed_size_usd = record {
    market_slug = signal.market_slug;
    outcome = favoured signal;
    target_exposure = fixed_size_usd;
    rationale = texts.rationale_text signal.edge signal.confidence fixed_size_usd;
  }

  abbrev pub is_weak : SignalEvent F → Bool
  is_weak signal = le signal.edge nought || le signal.confidence nought

  unfoldable pub convert_signal_to_target : SignalEvent F → F → Result String (Option (Target F))
  convert_signal_to_target signal fixed_size_usd =
      if is_weak signal then ok none else new_target (target_of signal fixed_size_usd)

  abbrev pub calculate_size : Target F → Option (Position F) → F
  calculate_size t none = t.target_exposure
  calculate_size t (some p) = max_of nought (sub t.target_exposure p.size)

  -- Building an `OrderIntentEvent` validates its prices and size.
  abbrev pub is_valid_intent : OrderIntentEvent F → Bool
  is_valid_intent i = is_price i.target_price && (is_price i.limit_price && is_size i.size)

  abbrev new_intent : OrderIntentEvent F → Result String (Option (OrderIntentEvent F))
  new_intent i = if is_valid_intent i then ok (some i) else err "invalid order intent"

  abbrev pub target_price_at : MarketDataEvent F → F
  target_price_at m = if le (mid m) nought || lt one (mid m) then m.best_ask else mid m

  abbrev pub intent_of :
      EventMeta F → Target F → MarketDataEvent F → SignalEvent F → F → OrderIntentEvent F
  intent_of meta t m signal size = record {
    meta = meta;
    market_slug = t.market_slug;
    outcome = t.outcome;
    side = buy;
    target_price = target_price_at m;
    limit_price = m.best_ask;
    size = size;
    reason = texts.reason_text t.rationale size m.best_ask;
    strategy_id = signal.model_id;
    ttl_s = of_nat 60;
  }

  unfoldable pub convert_target_to_intent :
      EventMeta F
      → Target F
      → MarketDataEvent F
      → SignalEvent F
      → F
      → Result String (Option (OrderIntentEvent F))
  convert_target_to_intent meta t m signal size =
      if le size nought
      then ok none
      else if le m.best_ask nought
      then ok none
      else new_intent (intent_of meta t m signal size)

  -- `_get_current_market_data`: the newest of the history.
  abbrev pub get_current_market_data : SignalEvent F → Portfolio F → Option (MarketDataEvent F)
  get_current_market_data signal s = last (s.history signal.market_slug signal.outcome)

  abbrev position_in : Key → Option (Positions F) → Option (Position F)
  position_in key none = none
  position_in key (some positions) = lookup key positions

  abbrev or_else : {A : Type 0} → Option A → Option A → Option A
  or_else none o = o
  or_else (some a) o = some a

  abbrev position_from : SignalEvent F → Option (IPositionManager F) → Option (Position F)
  position_from signal none = none
  position_from signal (some manager) =
      position_in (signal.market_slug, signal.outcome)
        (or_else (manager.get_positions_for_strategy signal.model_id) manager.get_positions)

  abbrev pub get_current_position : SignalEvent F → Portfolio F → Option (Position F)
  get_current_position signal s = position_from signal s.position_manager

  abbrev pub Step : Type 0 → Type 0
  Step A = Action String (Portfolio F) A

  abbrev publish : PortfolioMessage F → Step Done
  publish msg = modify (λ s. record s { published = s.published ++ (msg ∷ []) })

  abbrev pub target_event : EventMeta F → Target F → PortfolioMessage F
  target_event meta t = target (record {
    meta = meta;
    market_slug = t.market_slug;
    outcome = t.outcome;
    target_exposure = t.target_exposure;
    target_rationale = t.rationale;
  })

  -- Building a `TargetEvent` validates its exposure, which also refuses NaN.
  abbrev pub is_valid_target : Target F → Bool
  is_valid_target t = le nought t.target_exposure

  module _ (metas : EventMeta F × EventMeta F) (signal : SignalEvent F) where
    abbrev publish_intent : Option (OrderIntentEvent F) → Step Done
    publish_intent none = pure tt
    publish_intent (some i) = publish (proposal i)

    abbrev pub size_at : Target F → Portfolio F → F
    size_at t s = calculate_size t (get_current_position signal s)

    abbrev propose : Target F → Option (MarketDataEvent F) → F → Step Done
    propose t none size = pure tt
    propose t (some m) size =
        if le size nought
        then pure tt
        else lift (convert_target_to_intent metas.1 t m signal size) >>= publish_intent

    abbrev pursue : Option (Target F) → Step Done
    pursue none = pure tt
    pursue (some t) =
        raise_if (not (is_valid_target t)) "invalid target event"
        >> publish (target_event metas.0 t)
        >> gets (get_current_market_data signal)
        >>= λ m. gets (size_at t) >>= propose t m

    -- The body of the `try` of `_process_signal`.
    abbrev pub attempt : Step Done
    attempt s = (lift (convert_signal_to_target signal s.fixed_size_usd) >>= pursue) s

    -- The `except` only counts and logs.
    unfoldable pub process_signal : Portfolio F → Portfolio F
    process_signal s = (attempt s).1
