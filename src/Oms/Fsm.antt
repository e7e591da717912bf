-- ===== src/Oms/Fsm.antt =====
-- polytrader/oms/fsm.py: the legal transitions of an order.
pub mod Paths
pub mod Graph
use polytrader.Prelude.{
  String, Bool, true, false, not, Option, none, some, List, [], ◌∷◌, ◌&&◌, ◌||◌, any, keep_if, map,
  is_truthy, if◌then◌else◌,
}
use polytrader.Effect.{Result, ok, err}
use polytrader.Oms.Models.{
  Order, OrderState, new, pending_submit, submitted, acked, partially_filled, filled, cancelled,
  rejected, state_eq,
}

-- Every exception of the OMS: `InvalidTransitionError`, the messages of the `ValueError`s, and the
-- ones that Python and pydantic raise themselves.
pub data OmsError : Type 0 where
  invalid_transition : OrderState → OrderState → OmsError
  update_refused : OrderState → OrderState → OmsError
  not_in_store not_found fill_exceeds_size already_terminal already_mapped : OmsError
  key_error validation_error zero_division : OmsError

-- `_get_valid_transitions`
abbrev pub valid_transitions : List (OrderState × OrderState)
valid_transitions =
    (new, pending_submit)
    ∷ (pending_submit, submitted)
    ∷ (pending_submit, cancelled)
    ∷ (submitted, acked)
    ∷ (submitted, rejected)
    ∷ (acked, partially_filled)
    ∷ (acked, filled)
    ∷ (partially_filled, filled)
    ∷ (acked, cancelled)
    ∷ (partially_filled, cancelled)
    ∷ []

abbrev joins : OrderState → OrderState → OrderState × OrderState → Bool
joins from to (a, b) = state_eq from a && state_eq to b

unfoldable pub can_transition : OrderState → OrderState → Bool
can_transition from to = any (joins from to) valid_transitions

abbrev leaves : OrderState → OrderState × OrderState → Bool
leaves from (a, _) = state_eq a from

abbrev target : OrderState × OrderState → OrderState
target (_, b) = b

pub get_valid_transitions : OrderState → List OrderState
get_valid_transitions s = map target (keep_if (leaves s) valid_transitions)

unfoldable pub is_terminal_state : OrderState → Bool
is_terminal_state s = state_eq s filled || state_eq s cancelled || state_eq s rejected

-- `if new_state == REJECTED and reason`, which a reason that is `None` or empty fails
abbrev gives_reason : OrderState → Option String → Bool
gives_reason s none = false
gives_reason s (some r) = state_eq s rejected && is_truthy r

module _ {F : Type 0} where
  -- `now` is the reading of `time.monotonic()` in this call.
  unfoldable pub transition_order_state :
      F → Order F → OrderState → Option String → Result OmsError (Order F)
  unfolding can_transition
  transition_order_state now order new_state reason =
      let moved = record order { state = new_state; updated_at = now } in
      if state_eq order.state new_state
      then ok (record order { updated_at = now })
      else if not (can_transition order.state new_state)
      then err (invalid_transition order.state new_state)
      else if gives_reason new_state reason
      then ok (record moved { reject_reason = reason })
      else ok moved
