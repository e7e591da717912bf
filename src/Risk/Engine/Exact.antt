-- ===== src/Risk/Engine/Exact.antt =====
-- The decision of polytrader/risk/engine.py with its nine default policies, against a description
-- of the acceptable orders that names no policy.
use polytrader.Prelude.{ℕ, ◌<◌, ◌≡◌, ◌↔◌, true}
use polytrader.Float.{Float}
use polytrader.Risk.Models.{RiskLimits, RiskContext}
use polytrader.Risk.Policies.Exact.{
  IsTimely, IsHealthy, IsFresh, IsCovered, IsActive, IsFirst, IsBounded, IsPriced,
  check_proposal_validity-allowed, check_system_health-allowed, check_data_freshness-allowed,
  check_token_ownership-allowed, check_strategy_activation-allowed,
  check_max_trades_per_market-allowed, check_position_limits-allowed, check_price_sanity-allowed,
  check_rate_limits-allowed,
}
use polytrader.Risk.Engine.{check, default_policies}
use polytrader.Risk.Engine.Aggregate.{check_allowed_iff}

module _ {F : Type 0} ⦃fl : Float F⦄ where
  -- `now 0` and `now 2` are the clock readings of the first and the third policy.
  pub record IsAcceptable (now : ℕ → F) (context : RiskContext F) (limits : RiskLimits F)
      : Type 0 where
    pub timely : IsTimely (now 0) context limits
    pub healthy : IsHealthy context
    pub fresh : IsFresh (now 2) context limits
    pub covered : IsCovered context
    pub active : IsActive context
    pub first : IsFirst context
    pub bounded : IsBounded context limits
    pub priced : IsPriced context limits
    pub within_rate : context.order_count_last_minute < limits.order_rate_limit_per_minute

  -- With its default policies, the engine allows an order exactly when the order is acceptable: not
  -- expired, of a size above zero and up to the limit; the system healthy; the market data there
  -- and fresh; a SELL covered by tokens, a BUY the first of its strategy in the market and outcome;
  -- the strategy active; the positions after it within the limits; the price in its band; and fewer
  -- orders counted than the rate limit.
  pub check_exact :
      (now : ℕ → F) (context : RiskContext F) (limits : RiskLimits F)
      → ((check default_policies now context limits).allowed ≡ true)
        ↔ IsAcceptable now context limits
  check_exact now context limits =
      let all = check_allowed_iff default_policies now context limits in
      (
        λ h.
            let (a, (b, (c, (d, (e, (f, (g, (i, (j, _))))))))) = all.0 h in
            record {
              timely = (check_proposal_validity-allowed (now 0) context limits).0 a;
              healthy = (check_system_health-allowed context limits).0 b;
              fresh = (check_data_freshness-allowed (now 2) context limits).0 c;
              covered = (check_token_ownership-allowed context limits).0 d;
              active = (check_strategy_activation-allowed context limits).0 e;
              first = (check_max_trades_per_market-allowed context limits).0 f;
              bounded = (check_position_limits-allowed context limits).0 g;
              priced = (check_price_sanity-allowed context limits).0 i;
              within_rate = (check_rate_limits-allowed context limits).0 j;
            },
        λ v. all.1 (
          (check_proposal_validity-allowed (now 0) context limits).1 v.timely,
          (
            (check_system_health-allowed context limits).1 v.healthy,
            (
              (check_data_freshness-allowed (now 2) context limits).1 v.fresh,
              (
                (check_token_ownership-allowed context limits).1 v.covered,
                (
                  (check_strategy_activation-allowed context limits).1 v.active,
                  (
                    (check_max_trades_per_market-allowed context limits).1 v.first,
                    (
                      (check_position_limits-allowed context limits).1 v.bounded,
                      (
                        (check_price_sanity-allowed context limits).1 v.priced,
                        ((check_rate_limits-allowed context limits).1 v.within_rate, tt),
                      ),
                    ),
                  ),
                ),
              ),
            ),
          ),
        ),
      )
