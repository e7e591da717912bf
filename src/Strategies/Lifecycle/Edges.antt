-- ===== src/Strategies/Lifecycle/Edges.antt =====
-- The transition table of polytrader/strategies/lifecycle.py as a relation.
use polytrader.Prelude.{◌≡◌, inl, inr, String, true, false, Option, Bool-cases, arith}
use polytrader.Effect.{ok}
use polytrader.Strategies.Lifecycle.{
  StrategyLifecycleState, stopped, starting, running, paused, draining, stopping, error, state_eq,
  can_transition, transition_strategy_state,
}

infix 40 ◌⇢◌
pub data ◌⇢◌ : StrategyLifecycleState → StrategyLifecycleState → Type 0 where
  start : stopped ⇢ starting
  come_up : starting ⇢ running
  fail_start : starting ⇢ error
  pause : running ⇢ paused
  resume : paused ⇢ running
  drain : running ⇢ draining
  drained : draining ⇢ stopping
  stop : stopping ⇢ stopped
  fail : running ⇢ error
  fail_paused : paused ⇢ error
  recover : error ⇢ stopped
  stop_now : running ⇢ stopping
  stop_paused : paused ⇢ stopping

ruleset edges = (
  start, come_up, fail_start, pause, resume, drain, drained, stop, fail, fail_paused, recover,
  stop_now, stop_paused,
)

legal : (a b : StrategyLifecycleState) → state_eq a b ≡ false → can_transition a b ≡ true → a ⇢ b
unfolding can_transition
legal a b d h = grind (arith, edges)

pub state_eq-eq : (a b : StrategyLifecycleState) → state_eq a b ≡ true → a ≡ b
state_eq-eq a b h = ground arith

-- A transition that is not to the same state follows an edge.
pub allowed_edge :
    (a b : StrategyLifecycleState) (reason : Option String) {c : StrategyLifecycleState}
    → state_eq a b ≡ false
    → transition_strategy_state a b reason ≡ ok c
    → (c ≡ b) × (a ⇢ c)
unfolding transition_strategy_state
allowed_edge a b reason {c} d h = elim (Bool-cases (can_transition a b)) [
  | inl allowed ↦
      let same : c ≡ b = ground (arith, d, allowed, h) in (same, rw same (legal a b d allowed))
  | inr refused ↦ cc (rw (d, refused) at h)
]
