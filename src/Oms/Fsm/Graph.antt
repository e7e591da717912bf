-- ===== src/Oms/Fsm/Graph.antt =====
-- The shape of the order's state machine: which calls succeed, where it ends, how long it runs.
use polytrader.Prelude.{
  ℕ, suc, ◌+◌, ◌≤◌, ◌<◌, String, ◌≡◌, ◌↔◌, ◌⊎◌, inl, inr, refl, true, ◌||◌, Option, [], arith,
}
use polytrader.Effect.{err, is_ok}
use polytrader.Oms.Models.{
  Order, OrderState, new, pending_submit, submitted, acked, partially_filled, state_eq,
}
use polytrader.Oms.Fsm.{
  OmsError, invalid_transition, can_transition, get_valid_transitions, is_terminal_state,
  transition_order_state,
}
use polytrader.Oms.Fsm.Paths.{
  ◌⟶◌, ◌⟶*◌, here, step, allowed-⟶, ⟶-allowed, create, submit, withdraw, acknowledge, refuse,
  part_fill, fill_at_once, fill_rest, cancel, cancel_rest,
}

state_eq-eq_or_edge :
    (a b : OrderState)
    → (state_eq a b || can_transition a b) ≡ true
    → (a ≡ b) ⊎ (can_transition a b ≡ true)
state_eq-eq_or_edge a b h = ground arith

eq_or_edge-true :
    (a b : OrderState)
    → (a ≡ b) ⊎ (can_transition a b ≡ true)
    → (state_eq a b || can_transition a b) ≡ true
eq_or_edge-true a b h = ground arith

module _ {F : Type 0} where
  is_ok-transition :
      (now : F) (o : Order F) (s : OrderState) (reason : Option String)
      → is_ok (transition_order_state now o s reason)
        ≡ (state_eq o.state s || can_transition o.state s)
  unfolding transition_order_state
  is_ok-transition now o s reason = ground arith

  -- A transition succeeds exactly when the order is in the new state already, or an edge of the
  -- state machine leads there.
  pub transition_exact :
      (now : F) (o : Order F) (s : OrderState) (reason : Option String)
      → (is_ok (transition_order_state now o s reason) ≡ true) ↔ ((o.state ≡ s) ⊎ (o.state ⟶ s))
  transition_exact now o s reason = (
    λ h. elim (state_eq-eq_or_edge o.state s (rw (← is_ok-transition now o s reason) h)) [
      | inl same ↦ inl same
      | inr allowed ↦ inr (allowed-⟶ o.state s allowed)
    ],
    λ h. rw (is_ok-transition now o s reason) (elim h [
      | inl same ↦ eq_or_edge-true o.state s (inl same)
      | inr edge ↦ eq_or_edge-true o.state s (inr (⟶-allowed edge))
    ]),
  )

  -- A refused transition raises `InvalidTransitionError` with the two states.
  pub transition_error :
      (now : F) (o : Order F) (s : OrderState) (reason : Option String) {e : OmsError}
      → transition_order_state now o s reason ≡ err e
      → e ≡ invalid_transition o.state s
  unfolding transition_order_state
  transition_error now o s reason h = ground arith

-- The number of transitions that an order has left, at most.
abbrev pub height : OrderState → ℕ
height new = 5
height pending_submit = 4
height submitted = 3
height acked = 2
height partially_filled = 1
height _ = 0

abbrev pub steps : {a b : OrderState} → a ⟶* b → ℕ
steps here = 0
steps (step e p) = suc (steps p)

height-⟶ : {a b : OrderState} → a ⟶ b → height b < height a
height-⟶ create = omega arith
height-⟶ submit = omega arith
height-⟶ withdraw = omega arith
height-⟶ acknowledge = omega arith
height-⟶ refuse = omega arith
height-⟶ part_fill = omega arith
height-⟶ fill_at_once = omega arith
height-⟶ fill_rest = omega arith
height-⟶ cancel = omega arith
height-⟶ cancel_rest = omega arith

steps-le-height : {a b : OrderState} (p : a ⟶* b) → steps p + height b ≤ height a
steps-le-height here = omega arith
steps-le-height (step e p) = omega (arith, height-⟶ e, steps-le-height p)

height-le : (a : OrderState) → height a ≤ 5
height-le a = ground arith

-- No order makes more than five transitions, so the state machine has no cycle.
pub steps-le-five : {a b : OrderState} (p : a ⟶* b) → steps p ≤ 5
steps-le-five {a} p = omega (arith, steps-le-height p, height-le a)

-- A state is terminal exactly when no transition leaves it.
pub terminal_exact :
    (a : OrderState) → (is_terminal_state a ≡ true) ↔ (get_valid_transitions a ≡ [])
unfolding is_terminal_state get_valid_transitions
terminal_exact a = ground arith

no_edge : (a : OrderState) {b : OrderState} → is_terminal_state a ≡ true → ¬ (a ⟶ b)
unfolding is_terminal_state
no_edge a t create = cc
no_edge a t submit = cc
no_edge a t withdraw = cc
no_edge a t acknowledge = cc
no_edge a t refuse = cc
no_edge a t part_fill = cc
no_edge a t fill_at_once = cc
no_edge a t fill_rest = cc
no_edge a t cancel = cc
no_edge a t cancel_rest = cc

-- From a terminal state a path leads nowhere else.
pub terminal_absorbs : {a b : OrderState} → is_terminal_state a ≡ true → a ⟶* b → b ≡ a
terminal_absorbs t here = refl
terminal_absorbs {a} t (step e p) = absurd (no_edge a t e)
