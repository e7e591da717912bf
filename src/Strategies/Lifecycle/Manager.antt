-- ===== src/Strategies/Lifecycle/Manager.antt =====
-- polytrader/platform/strategy_lifecycle.py: `StrategyLifecycleManager`. The database session is
-- seen through what it answers: which record the query finds, and whether the flush succeeds. What
-- SQLAlchemy does to the session where a flush fails (it rolls back and expires the objects), and
-- what the log line after it then meets when it reads the record, is the parameter `on_failure`,
-- which may raise. Texts in the columns of states are states. The text of an error is the function
-- `text_of`, `now` is the reading of the wall clock, and the bus is the list `published`; logs are
-- left out.
use polytrader.Prelude.{
  String, Bool, true, false, Option, none, some, List, [], ◌∷◌, ◌++◌, is_truthy, if◌then◌else◌,
}
use polytrader.Effect.{Result, ok, err, Action, Done, raise}
use polytrader.Strategies.Lifecycle.{
  StrategyLifecycleState, error, state_eq, InvalidTransitionError, transition_strategy_state,
}

pub record StrategyRecord (T : Type 0) : Type 0 where
  pub strategy_id : String
  pub desired_state : StrategyLifecycleState
  pub actual_state : StrategyLifecycleState
  pub last_transition_at : Option T
  pub last_error : Option String
  pub deployment_id : Option String

pub record StrategyStateTransitionEvent : Type 0 where
  pub strategy_id : String
  pub from_state : StrategyLifecycleState
  pub to_state : StrategyLifecycleState
  pub reason : Option String
  pub deployment_id : Option String

-- What `select ... where strategy_id == ...` finds: no record, the object that the caller holds
-- (the session has it already), or another object.
pub data Found (T : Type 0) : Type 0 where
  missing : Found T
  held : Found T
  another : StrategyRecord T → Found T

-- `strategy` is the object of the caller, `published` the topic SYSTEM_LIFECYCLE.
pub record Session (T : Type 0) : Type 0 where
  pub strategy : StrategyRecord T
  pub found : Found T
  pub flushes : Bool
  pub published : List StrategyStateTransitionEvent

-- What a transition raises: the refusal of the state machine, or what came out of the session.
pub data TransitionError : Type 0 where
  invalid : InvalidTransitionError → TransitionError
  database_error : String → TransitionError

abbrev pub Call : Type 0 → Type 0
Call T = Action TransitionError (Session T) StrategyLifecycleState

-- A call on the session that may raise.
abbrev pub Flush : Type 0 → Type 0
Flush T = Action String (Session T) Done

-- `if error_message: ... elif new_state != ERROR: ...`
abbrev error_after : Option String → StrategyLifecycleState → Option String → Option String
error_after none new old = if state_eq new error then old else none
error_after (some e) new old =
    if is_truthy e then some e else if state_eq new error then old else none

module _ {T : Type 0} where
  abbrev pub record_of : StrategyRecord T → Found T → Option (StrategyRecord T)
  record_of mine missing = none
  record_of mine held = some mine
  record_of mine (another r) = some r

  -- The record that the query finds.
  abbrev pub strategy_record : Session T → Option (StrategyRecord T)
  strategy_record s = record_of s.strategy s.found

  abbrev write_found : StrategyRecord T → Found T → Session T → Session T
  write_found r missing s = s
  write_found r held s = record s { strategy = r }
  write_found r (another old) s = record s { found = another r }

  abbrev write : StrategyRecord T → Session T → Session T
  write r s = write_found r s.found s

  abbrev pub updated :
      T → StrategyLifecycleState → Option String → StrategyRecord T → StrategyRecord T
  updated now new message r = record r {
    actual_state = new;
    last_transition_at = some now;
    last_error = error_after message new r.last_error;
  }

  abbrev pub transition_event :
      StrategyLifecycleState → Option String → StrategyRecord T → StrategyStateTransitionEvent
  transition_event new reason r = record {
    strategy_id = r.strategy_id;
    from_state = r.actual_state;
    to_state = new;
    reason = reason;
    deployment_id = r.deployment_id;
  }

  abbrev emit : StrategyStateTransitionEvent → Session T → Session T
  emit event s = record s { published = s.published ++ (event ∷ []) }

module _ {T : Type 0} (on_failure : Flush T) where
  -- `flush`; the event, or the handler of the exception, which returns.
  abbrev flush_and_emit : Bool → StrategyStateTransitionEvent → Flush T
  flush_and_emit true event s = (ok tt, emit event s)
  flush_and_emit false event s = on_failure s

  abbrev update_found :
      T
      → StrategyLifecycleState
      → Option String
      → Option String
      → Option (StrategyRecord T)
      → Flush T
  update_found now new reason message none s = (ok tt, s)
  update_found now new reason message (some r) s =
      flush_and_emit s.flushes (transition_event new reason r) (write (updated now new message r) s)

  unfoldable pub update_strategy_state :
      T → StrategyLifecycleState → Option String → Option String → Flush T
  update_strategy_state now new reason message s =
      update_found now new reason message (strategy_record s) s

-- What a transition comes to after the update of the record.
abbrev after_update :
    {T : Type 0} → Result TransitionError StrategyLifecycleState → Result String Done → Call T
after_update answer (ok _) s = (answer, s)
after_update answer (err text) s = raise (database_error text) s

module _ {T : Type 0} (on_failure : Flush T) (now : T)
    (text_of prefixed : InvalidTransitionError → String) where
  -- The update of the record, and then the answer.
  abbrev update_then :
      Result TransitionError StrategyLifecycleState
      → StrategyLifecycleState
      → Option String
      → Option String
      → Call T
  update_then answer new reason message s =
      let (r, t) = update_strategy_state on_failure now new reason message s in
      after_update answer r t

  -- The transition to ERROR, if the state machine has it; the reason that it is asked with is not
  -- read.
  abbrev record_failure :
      InvalidTransitionError → Result InvalidTransitionError StrategyLifecycleState → Call T
  record_failure e (err _) s = raise (invalid e) s
  record_failure e (ok new) s =
      update_then (err (invalid e)) new (some (prefixed e)) (some (text_of e)) s

  abbrev refuse : InvalidTransitionError → Call T
  refuse e s =
      let current = s.strategy.actual_state in
      if state_eq current error
      then raise (invalid e) s
      else record_failure e (transition_strategy_state current error none) s

  abbrev settle : Option String → Result InvalidTransitionError StrategyLifecycleState → Call T
  settle reason (ok new) s = update_then (ok new) new reason none s
  settle reason (err e) s = refuse e s

  unfoldable pub transition_to_desired_state : Option String → Call T
  transition_to_desired_state reason s =
      let current = s.strategy.actual_state in
      let desired = s.strategy.desired_state in
      if state_eq current desired
      then (ok current, s)
      else settle reason (transition_strategy_state current desired reason) s

  abbrev move :
      StrategyLifecycleState
      → Option String
      → Result InvalidTransitionError StrategyLifecycleState
      → Call T
  move target reason (err e) s = raise (invalid e) s
  move target reason (ok new) s =
      update_then (ok new) new reason none
        (record s { strategy = record s.strategy { desired_state = target } })

  unfoldable pub transition_to_state : StrategyLifecycleState → Option String → Call T
  transition_to_state target reason s =
      let current = s.strategy.actual_state in
      if state_eq current target
      then (ok current, s)
      else move target reason (transition_strategy_state current target reason) s
