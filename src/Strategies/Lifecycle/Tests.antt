-- ===== src/Strategies/Lifecycle/Tests.antt =====
-- The theorems about the life cycle of a strategy at one that runs.
use polytrader.Prelude.{String, ℕ, true, none, some, []}
use polytrader.Effect.{err}
use polytrader.Strategies.Lifecycle.{running, stopped, InvalidTransitionError}
use polytrader.Strategies.Lifecycle.Manager.{StrategyRecord, another, Session, Flush}

abbrev strategy : StrategyRecord ℕ
strategy = record {
  strategy_id = "s";
  desired_state = stopped;
  actual_state = running;
  last_transition_at = none;
  last_error = none;
  deployment_id = some "d";
}

-- The caller's object is a copy.
abbrev session : Session ℕ
session = record { strategy = strategy; found = another strategy; flushes = true; published = [] }

-- The read of the expired record raises.
abbrev failing : Flush ℕ
failing s = (err "pending rollback", s)

abbrev text_of : InvalidTransitionError → String
text_of e = e.reason
