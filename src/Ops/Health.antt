-- ===== src/Ops/Health.antt =====
-- polytrader/ops/health.py: `HealthService`, which evaluates the health of the system and the gates
-- that enable execution. The check of the tick storage, which asks the database, is an argument:
-- what it reports. The f-strings of the failed gates are the functions of `Texts`, and `now` is the
-- reading of `time.monotonic()` in the call.
pub mod Failures
pub mod Gates
mod Tests
use polytrader.Prelude.{
  String, ℕ, Bool, true, false, not, ◌&&◌, Option, none, some, List, [], ◌∷◌, ◌++◌, length, any,
  keep_if, leb, ltb, is_truthy, string_eq, pair_eq, if◌then◌else◌,
}
use polytrader.Float.{Float}
use polytrader.Events.{Outcome, outcome_eq, MarketDataEvent}
use polytrader.Market.Store.{Key}
use polytrader.Ops.Control.{Divergence, no_divergence, ReconcileEvent, Ops, is_triggered}

pub record HealthStatus (F : Type 0) : Type 0 where
  pub market_data_fresh : Bool
  pub market_data_staleness_seconds : Option F
  pub user_stream_connected : Bool
  pub reconciliation_healthy : Bool
  pub reconciliation_divergence_count : ℕ
  pub error_rate_ok : Bool
  pub error_rate : Option F
  pub circuit_breaker_triggered : Bool
  pub kill_switch_active : Bool
  pub tick_storage_healthy : Option Bool
  pub tick_storage_error : Option String

pub record HealthGateThresholds (F : Type 0) : Type 0 where
  pub max_market_data_staleness_seconds : F
  pub max_reconciliation_divergences : ℕ
  pub max_error_rate : F
  pub require_user_stream : Bool

-- What is read of the adapter of the user stream.
pub record UserStream : Type 0 where
  pub is_running : Bool
  pub has_ws : Bool

-- What the check of the tick storage returns, or the text of what it raises.
pub data TickReport : Type 0 where
  reported : Bool → Bool → Bool → Option String → TickReport
  raised : String → TickReport

-- The fields of the service, but for `_execution_control`, which nothing reads. `all_markets` is
-- `none` where the store has no `get_all_markets`; `tick_storage` is `none` without a repository.
pub record HealthService (F : Type 0) : Type 0 where
  pub all_markets : Option (List Key)
  pub latest : Key → Option (MarketDataEvent F)
  pub thresholds : HealthGateThresholds F
  pub user_stream_adapter : Option UserStream
  pub breaker : Option Ops
  pub kill_switch : Bool
  pub rate : Option F
  pub recent_reconcile_events : List ReconcileEvent
  pub tick_storage : Option TickReport

-- The f-strings with a number or an error in them.
pub record Texts (F : Type 0) : Type 0 where
  pub stale_text : F → String
  pub divergences_text : ℕ → String
  pub rate_text : F → String
  pub tick_text : String → String
  pub raised_text : String → String

abbrev pub diverges : Divergence → Bool
diverges no_divergence = false
diverges _ = true

-- `not xs` of a list
abbrev pub is_empty {ℓ} : {A : Type ℓ} → List A → Bool
is_empty [] = true
is_empty (x ∷ xs) = false

module _ {F : Type 0} ⦃fl : Float F⦄ (now : F) where
  open fl use {lt, le, sub}

  -- The larger of the staleness so far and of this market.
  abbrev worst : Option F → F → Option F
  worst none x = some x
  worst (some y) x = if lt y x then some x else some y

  abbrev look : F → Option (MarketDataEvent F) → Bool × Option F → Bool × Option F
  look limit none (fresh, stale) = (false, stale)
  look limit (some m) (fresh, stale) =
      let age = sub now m.ts_mono in (if lt limit age then false else fresh, worst stale age)

  -- The loop over the markets.
  unfoldable pub look_at :
      F → (Key → Option (MarketDataEvent F)) → List Key → Bool × Option F → Bool × Option F
  look_at limit latest [] seen = seen
  look_at limit latest (k ∷ ks) seen = look_at limit latest ks (look limit (latest k) seen)

  abbrev look_at_one : F → Option (MarketDataEvent F) → Bool × Option F
  look_at_one limit none = (false, none)
  look_at_one limit (some m) = let age = sub now m.ts_mono in (le age limit, some age)

  abbrev look_at_all : HealthService F → Option (List Key) → Bool × Option F
  look_at_all s none = (false, none)
  look_at_all s (some []) = (false, none)
  look_at_all s (some (k ∷ ks)) =
      look_at s.thresholds.max_market_data_staleness_seconds s.latest (k ∷ ks) (true, none)

  unfoldable pub check_market_data_freshness :
      Option String → Option Outcome → HealthService F → Bool × Option F
  check_market_data_freshness (some slug) (some outcome) s =
      look_at_one s.thresholds.max_market_data_staleness_seconds (s.latest (slug, outcome))
  check_market_data_freshness (some slug) none s = look_at_all s s.all_markets
  check_market_data_freshness none outcome s = look_at_all s s.all_markets

abbrev connected : Option UserStream → Bool
connected none = true
connected (some a) = a.is_running && a.has_ws

abbrev triggered_in : Option Ops → Bool
triggered_in none = false
triggered_in (some b) = is_triggered b

module _ {F : Type 0} where
  unfoldable pub check_user_stream_connection : HealthService F → Bool
  check_user_stream_connection s = connected s.user_stream_adapter

  abbrev pub actual_divergences : HealthService F → List ReconcileEvent
  actual_divergences s = keep_if (λ e. diverges e.divergence_type) s.recent_reconcile_events

  unfoldable pub check_reconciliation_health : HealthService F → Bool × ℕ
  check_reconciliation_health s =
      let count = length (actual_divergences s) in
      (
        leb count s.thresholds.max_reconciliation_divergences
            && not (any (λ e. e.is_error) (actual_divergences s)),
        count,
      )

  unfoldable pub check_circuit_breaker : HealthService F → Bool
  check_circuit_breaker s = triggered_in s.breaker

  abbrev pub check_kill_switch : HealthService F → Bool
  check_kill_switch s = s.kill_switch

  abbrev tick_health : Texts F → Option TickReport → Option Bool × Option String
  tick_health texts none = (none, none)
  tick_health texts (some (reported connected writes reads error)) =
      (some (connected && (writes && reads)), error)
  tick_health texts (some (raised e)) = (some false, some (texts.raised_text e))

  unfoldable pub check_tick_storage_health : Texts F → HealthService F → Option Bool × Option String
  check_tick_storage_health texts s = tick_health texts s.tick_storage

module _ {F : Type 0} ⦃fl : Float F⦄ where
  open fl use {le}

  abbrev rate_ok : F → Option F → Bool
  rate_ok limit none = true
  rate_ok limit (some r) = le r limit

  unfoldable pub check_error_rate : HealthService F → Bool
  check_error_rate s = rate_ok s.thresholds.max_error_rate s.rate

  unfoldable pub evaluate :
      F → Texts F → Option String → Option Outcome → HealthService F → HealthStatus F
  evaluate now texts slug outcome s =
      let (fresh, staleness) = check_market_data_freshness now slug outcome s in
      let (healthy, count) = check_reconciliation_health s in
      let (ticks, tick_error) = check_tick_storage_health texts s in
      record {
        market_data_fresh = fresh;
        market_data_staleness_seconds = staleness;
        user_stream_connected = check_user_stream_connection s;
        reconciliation_healthy = healthy;
        reconciliation_divergence_count = count;
        error_rate_ok = check_error_rate s;
        error_rate = s.rate;
        circuit_breaker_triggered = check_circuit_breaker s;
        kill_switch_active = check_kill_switch s;
        tick_storage_healthy = ticks;
        tick_storage_error = tick_error;
      }

-- `if bad: failed_gates.append(gate)`, with the gates that the branch goes on to append
abbrev pub fails : Bool → String → List String → List String
fails bad gate more = if bad then gate ∷ more else []

abbrev pub detail {ℓ} : {A : Type ℓ} → (A → String) → Option A → List String
detail show none = []
detail show (some x) = show x ∷ []

-- `if health_status.tick_storage_error`, which an empty text fails
abbrev truthy_detail : (String → String) → Option String → List String
truthy_detail show none = []
truthy_detail show (some x) = if is_truthy x then show x ∷ [] else []

-- `tick_storage_healthy is False`
abbrev pub is_false : Option Bool → Bool
is_false (some false) = true
is_false _ = false

module _ {F : Type 0} (texts : Texts F) (t : HealthGateThresholds F) where
  unfoldable pub failed_gates : HealthStatus F → List String
  failed_gates h =
      fails (not h.market_data_fresh) "market_data_freshness"
        (detail texts.stale_text h.market_data_staleness_seconds)
      ++ (fails (t.require_user_stream && not h.user_stream_connected) "user_stream_disconnected" []
          ++ (fails (not h.reconciliation_healthy) "reconciliation_unhealthy" []
              ++ (fails (ltb t.max_reconciliation_divergences h.reconciliation_divergence_count)
                    (texts.divergences_text h.reconciliation_divergence_count) []
                  ++ (fails (not h.error_rate_ok) "error_rate_high"
                        (detail texts.rate_text h.error_rate)
                      ++ (fails h.circuit_breaker_triggered "circuit_breaker_triggered" []
                          ++ (fails h.kill_switch_active "kill_switch_active" []
                              ++ fails (is_false h.tick_storage_healthy) "tick_storage_unhealthy"
                                  (truthy_detail texts.tick_text h.tick_storage_error)))))))

  unfoldable pub check_gates : HealthStatus F → Bool × List String
  check_gates h = (is_empty (failed_gates h), failed_gates h)
