-- ===== src/Strategies/Lifecycle.antt =====
-- polytrader/strategies/lifecycle.py and lifecycle_models.py: the legal transitions of a strategy.
pub mod Manager
pub mod Edges
pub mod Audit
mod Tests
use polytrader.Prelude.{
  String, Bool, true, false, not, ◌&&◌, ◌||◌, Option, none, some, List, [], ◌∷◌, any, is_truthy,
  if◌then◌else◌,
}
use polytrader.Effect.{Result, ok, err}

pub data StrategyLifecycleState : Type 0 where
  stopped starting running paused draining stopping error : StrategyLifecycleState

abbrev pub state_eq : StrategyLifecycleState → StrategyLifecycleState → Bool
state_eq stopped stopped = true
state_eq starting starting = true
state_eq running running = true
state_eq paused paused = true
state_eq draining draining = true
state_eq stopping stopping = true
state_eq error error = true
state_eq _ _ = false

pub record InvalidTransitionError : Type 0 where
  pub from_state : StrategyLifecycleState
  pub to_state : StrategyLifecycleState
  pub reason : String

-- `_get_valid_transitions`, whose set lists DRAINING → STOPPING twice
abbrev pub valid_transitions : List (StrategyLifecycleState × StrategyLifecycleState)
valid_transitions =
    (stopped, starting)
    ∷ (starting, running)
    ∷ (starting, error)
    ∷ (running, paused)
    ∷ (paused, running)
    ∷ (running, draining)
    ∷ (draining, stopping)
    ∷ (stopping, stopped)
    ∷ (running, error)
    ∷ (paused, error)
    ∷ (error, stopped)
    ∷ (running, stopping)
    ∷ (paused, stopping)
    ∷ []

abbrev joins :
    StrategyLifecycleState
    → StrategyLifecycleState
    → StrategyLifecycleState × StrategyLifecycleState
    → Bool
joins from to (a, b) = state_eq from a && state_eq to b

unfoldable pub can_transition : StrategyLifecycleState → StrategyLifecycleState → Bool
can_transition from to = if state_eq from to then true else any (joins from to) valid_transitions

-- `reason or "Transition not allowed by FSM"`
abbrev reason_or_default : Option String → String
reason_or_default none = "Transition not allowed by FSM"
reason_or_default (some r) = if is_truthy r then r else "Transition not allowed by FSM"

unfoldable pub transition_strategy_state :
    StrategyLifecycleState
    → StrategyLifecycleState
    → Option String
    → Result InvalidTransitionError StrategyLifecycleState
transition_strategy_state current new reason =
    if state_eq current new
    then ok new
    else if not (can_transition current new)
    then err (record { from_state = current; to_state = new; reason = reason_or_default reason })
    else ok new

unfoldable pub is_terminal_state : StrategyLifecycleState → Bool
is_terminal_state s = state_eq s stopped || state_eq s error
