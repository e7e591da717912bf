-- ===== src/Risk/Models.antt =====
-- polytrader/risk/models.py: reason codes, results, limits and the context of a check.
use polytrader.Prelude.{ℕ, String, Bool, true, Option, List, HasEq, ◌≡◌, ◌↔◌, ◌&&◌, leb, arith}
use polytrader.Dict.{Dict}
use polytrader.Events.{Outcome, OrderIntentEvent, MarketDataEvent}

pub data RiskReasonCode : Type 0 where
  proposal_expired invalid_size max_position max_notional : RiskReasonCode
  order_too_large insufficient_tokens insufficient_balance : RiskReasonCode
  price_out_of_bounds rate_limit data_stale kill_switch : RiskReasonCode
  reconcile_divergence strategy_not_active risk_allowed : RiskReasonCode

abbrev code_number : RiskReasonCode → ℕ
code_number proposal_expired = 0
code_number invalid_size = 1
code_number max_position = 2
code_number max_notional = 3
code_number order_too_large = 4
code_number insufficient_tokens = 5
code_number insufficient_balance = 6
code_number price_out_of_bounds = 7
code_number rate_limit = 8
code_number data_stale = 9
code_number kill_switch = 10
code_number reconcile_divergence = 11
code_number strategy_not_active = 12
code_number risk_allowed = 13

-- It stays shut, so that proofs meet it as one test.
unfoldable pub same_code : RiskReasonCode → RiskReasonCode → Bool
same_code a b = leb (code_number a) (code_number b) && leb (code_number b) (code_number a)

pub same_code_iff : (a b : RiskReasonCode) → (same_code a b ≡ true) ↔ (a ≡ b)
unfolding same_code
same_code_iff a b = (λ h. ground arith, λ h. ground arith)

instance abbrev pub code_eq : HasEq RiskReasonCode
code_eq = record { equal = same_code; equal_iff = same_code_iff }

-- What a metadata or projections entry holds.
pub data Value (F : Type 0) : Type 0 where
  number : F → Value F
  count : ℕ → Value F
  text : String → Value F
  flag : Bool → Value F
  outcome_value : Outcome → Value F
  texts : List String → Value F

pub record RiskResult (F : Type 0) : Type 0 where
  pub allowed : Bool
  pub reason_codes : List RiskReasonCode
  pub projections : Dict String (Value F)
  pub metadata : Dict String (Value F)

pub record RiskLimits (F : Type 0) : Type 0 where
  pub version : String
  pub max_position_per_market : F
  pub max_position_global : F
  pub max_notional_exposure : F
  pub max_order_size : F
  pub max_trades_per_market : ℕ
  pub order_rate_limit_per_minute : ℕ
  pub cancel_rate_limit_per_minute : ℕ
  pub max_data_staleness_seconds : F
  pub price_deviation_threshold : F

-- A market and an outcome, and a strategy with them; a set is a list of its members.
abbrev pub Holding : Type 0
Holding = String × Outcome

abbrev pub Trade : Type 0
Trade = String × Holding

pub record RiskContext (F : Type 0) : Type 0 where
  pub intent : OrderIntentEvent F
  pub current_positions : Dict Holding F
  pub global_position : F
  pub open_orders : List Holding
  pub executed_trades : List Trade
  pub market_data : Option (MarketDataEvent F)
  pub owned_tokens : List Holding
  pub kill_switch_active : Bool
  pub circuit_breaker_active : Bool
  pub reconciliation_healthy : Bool
  pub order_count_last_minute : ℕ
  pub cancel_count_last_minute : ℕ
  pub limits_version : String
  pub active_strategies : List String
  pub is_paper_mode : Bool
