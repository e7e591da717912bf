-- ===== src/Risk/Engine.antt =====
-- polytrader/risk/engine.py: `RiskEngine`, which runs the policies in a fixed order and puts their
-- results together.
pub mod Aggregate
pub mod Exact
use polytrader.Prelude.{
  String, ℕ, suc, Bool, true, false, not, ◌&&◌, List, [], ◌∷◌, ◌++◌, string_eq, member,
  if◌then◌else◌,
}
use polytrader.Float.{Float}
use polytrader.Dict.{Dict, insert}
use polytrader.Risk.Models.{RiskReasonCode, code_eq, Value, RiskResult, RiskLimits, RiskContext}
use polytrader.Risk.Policies.{
  check_proposal_validity, check_system_health, check_data_freshness, check_token_ownership,
  check_strategy_activation, check_max_trades_per_market, check_rate_limits,
}
use polytrader.Risk.Policies.Price.{
  check_price_sanity, max_buy_price, min_sell_price, price_against,
}
use polytrader.Risk.Policies.Position.{
  check_position_limits, new_position, new_global_position, or_nought,
}

-- A policy with the clock as its last argument, or one without.
pub data RiskPolicy (F : Type 0) : Type 0 where
  clocked : (F → RiskContext F → RiskLimits F → RiskResult F) → RiskPolicy F
  plain : (RiskContext F → RiskLimits F → RiskResult F) → RiskPolicy F

-- The loop that keeps the first occurrence of a code; `seen` and `unique` hold the same codes.
unfoldable pub unique_from : List RiskReasonCode → List RiskReasonCode → List RiskReasonCode
unique_from unique [] = unique
unique_from unique (reason ∷ reasons) =
    if member reason unique
    then unique_from unique reasons
    else unique_from (unique ++ (reason ∷ [])) reasons

module _ {F : Type 0} where
  abbrev pub run_policy : RiskPolicy F → F → RiskContext F → RiskLimits F → RiskResult F
  run_policy (clocked p) now context limits = p now context limits
  run_policy (plain p) now context limits = p context limits

  -- `d.update(e)`
  abbrev pub update_dict : Dict String (Value F) → Dict String (Value F) → Dict String (Value F)
  update_dict d [] = d
  update_dict d ((k, v) ∷ e) = update_dict (insert k v d) e

  -- One turn of the loop, on the four accumulators.
  abbrev pub aggregate : RiskResult F → RiskResult F → RiskResult F
  aggregate all result = record {
    allowed = if not result.allowed then false else all.allowed;
    reason_codes = all.reason_codes ++ result.reason_codes;
    projections = update_dict all.projections result.projections;
    metadata = update_dict all.metadata result.metadata;
  }

  -- The loop; `now i` is the clock's reading for the policy with number `i`.
  unfoldable pub run_policies :
      (ℕ → F) → RiskContext F → RiskLimits F → List (RiskPolicy F) → RiskResult F → RiskResult F
  run_policies now context limits [] all = all
  run_policies now context limits (p ∷ policies) all =
      run_policies (λ i. now (suc i)) context limits policies
        (aggregate all (run_policy p (now 0) context limits))

  abbrev pub no_result : RiskResult F
  no_result = record { allowed = true; reason_codes = []; projections = []; metadata = [] }

  -- `RiskEngine.check`
  unfoldable pub check : List (RiskPolicy F) → (ℕ → F) → RiskContext F → RiskLimits F → RiskResult F
  unfolding run_policies unique_from
  check policies now context limits =
      let all = run_policies now context limits policies no_result in
      record all { reason_codes = unique_from [] all.reason_codes }

module _ {F : Type 0} ⦃fl : Float F⦄ where
  abbrev pub default_policies : List (RiskPolicy F)
  default_policies =
      clocked check_proposal_validity
      ∷ plain check_system_health
      ∷ clocked check_data_freshness
      ∷ plain check_token_ownership
      ∷ plain check_strategy_activation
      ∷ plain check_max_trades_per_market
      ∷ plain check_position_limits
      ∷ plain check_price_sanity
      ∷ plain check_rate_limits
      ∷ []
