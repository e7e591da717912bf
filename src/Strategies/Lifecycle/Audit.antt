-- ===== src/Strategies/Lifecycle/Audit.antt =====
-- What the transitions of polytrader/platform/strategy_lifecycle.py leave in the record and on the
-- bus.
use polytrader.Prelude.{◌≡◌, ◌⊎◌, false, some, [], ◌∷◌, ◌++◌}
use polytrader.Effect.{Result, ok, is_ok}
use polytrader.Strategies.Lifecycle.{StrategyLifecycleState, error}
use polytrader.Strategies.Lifecycle.Manager.{
  StrategyRecord, StrategyStateTransitionEvent, Session, strategy_record, TransitionError,
}
use polytrader.Strategies.Lifecycle.Edges.{◌⇢◌}

abbrev pub Answer : Type 0
Answer = Result TransitionError StrategyLifecycleState

module _ {T : Type 0} where
  -- One event is published, of a legal transition from the state of the record before to the one
  -- after.
  pub record Moves (r : StrategyRecord T) (s t : Session T) : Type 0 where
    pub event : StrategyStateTransitionEvent
    pub after : StrategyRecord T
    pub named : event.strategy_id ≡ after.strategy_id
    pub announced : t.published ≡ s.published ++ (event ∷ [])
    pub recorded : strategy_record t ≡ some after
    pub from : event.from_state ≡ r.actual_state
    pub to : event.to_state ≡ after.actual_state
    pub is_legal : event.from_state ⇢ event.to_state

  -- A call moves the record to the target or, where it raises, to ERROR; or it changes nothing, and
  -- returns only if the target was reached before.
  abbrev pub Audited :
      StrategyLifecycleState → StrategyRecord T → Session T → Answer × Session T → Type 0
  Audited target r s (answer, t) =
      ((m : Moves r s t) × (((answer ≡ ok target) × (m.after.actual_state ≡ target))
          ⊎ ((is_ok answer ≡ false) × (m.after.actual_state ≡ error))))
      ⊎ ((t ≡ s) × (((answer ≡ ok target) × (r.actual_state ≡ target)) ⊎ (is_ok answer ≡ false)))
