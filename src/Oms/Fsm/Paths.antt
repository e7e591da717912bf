-- ===== src/Oms/Fsm/Paths.antt =====
-- The transition table of polytrader/oms/fsm.py as a relation, its paths, and what one call of
-- `transition_order_state` does to an order.
use polytrader.Prelude.{String, ◌≡◌, ◌⊎◌, inl, inr, refl, true, Option, arith}
use polytrader.Effect.{ok}
use polytrader.Oms.Models.{
  Order, OrderState, new, pending_submit, submitted, acked, partially_filled, filled, cancelled,
  rejected, state_eq,
}
use polytrader.Oms.Fsm.{can_transition, transition_order_state}

infix 40 ◌⟶◌ ◌⟶*◌
pub data ◌⟶◌ : OrderState → OrderState → Type 0 where
  create : new ⟶ pending_submit
  submit : pending_submit ⟶ submitted
  withdraw : pending_submit ⟶ cancelled
  acknowledge : submitted ⟶ acked
  refuse : submitted ⟶ rejected
  part_fill : acked ⟶ partially_filled
  fill_at_once : acked ⟶ filled
  fill_rest : partially_filled ⟶ filled
  cancel : acked ⟶ cancelled
  cancel_rest : partially_filled ⟶ cancelled

pub data ◌⟶*◌ : OrderState → OrderState → Type 0 where
  here : {a : OrderState} → a ⟶* a
  step : {a b c : OrderState} → a ⟶ b → b ⟶* c → a ⟶* c

pub ruleset edges = (
  create, submit, withdraw, acknowledge, refuse, part_fill, fill_at_once, fill_rest, cancel,
  cancel_rest,
)

pub ⟶*-trans : {a b c : OrderState} → a ⟶* b → b ⟶* c → a ⟶* c
⟶*-trans here q = q
⟶*-trans (step e p) q = step e (⟶*-trans p q)

pub allowed-⟶ : (a b : OrderState) → can_transition a b ≡ true → a ⟶ b
unfolding can_transition
allowed-⟶ a b h = grind (arith, edges)

pub ⟶-allowed : {a b : OrderState} → a ⟶ b → can_transition a b ≡ true
unfolding can_transition
⟶-allowed create = refl
⟶-allowed submit = refl
⟶-allowed withdraw = refl
⟶-allowed acknowledge = refl
⟶-allowed refuse = refl
⟶-allowed part_fill = refl
⟶-allowed fill_at_once = refl
⟶-allowed fill_rest = refl
⟶-allowed cancel = refl
⟶-allowed cancel_rest = refl

pub state_eq-eq : (a b : OrderState) → state_eq a b ≡ true → a ≡ b
state_eq-eq a b h = ground arith

-- What no transition changes.
pub record SameOrder {F : Type 0} (o o' : Order F) : Type 0 where
  pub order_id : o'.order_id ≡ o.order_id
  pub client_order_id : o'.client_order_id ≡ o.client_order_id
  pub intent : o'.intent ≡ o.intent
  pub market_slug : o'.market_slug ≡ o.market_slug
  pub outcome : o'.outcome ≡ o.outcome
  pub side : o'.side ≡ o.side
  pub size : o'.size ≡ o.size
  pub limit_price : o'.limit_price ≡ o.limit_price
  pub created_at : o'.created_at ≡ o.created_at
  pub correlation_id : o'.correlation_id ≡ o.correlation_id

-- What a transition leaves to the venue's handlers.
pub record SameFills {F : Type 0} (o o' : Order F) : Type 0 where
  pub filled_size : o'.filled_size ≡ o.filled_size
  pub avg_fill_price : o'.avg_fill_price ≡ o.avg_fill_price
  pub venue_order_id : o'.venue_order_id ≡ o.venue_order_id

module _ {F : Type 0} where
  pub transition-SameOrder :
      (now : F) (o : Order F) (s : OrderState) (reason : Option String) {o' : Order F}
      → transition_order_state now o s reason ≡ ok o'
      → SameOrder o o'
  unfolding transition_order_state
  transition-SameOrder now o s reason h = ground arith

  pub transition-SameFills :
      (now : F) (o : Order F) (s : OrderState) (reason : Option String) {o' : Order F}
      → transition_order_state now o s reason ≡ ok o'
      → SameFills o o'
  unfolding transition_order_state
  transition-SameFills now o s reason h = ground arith

  pub transition-state :
      (now : F) (o : Order F) (s : OrderState) (reason : Option String) {o' : Order F}
      → transition_order_state now o s reason ≡ ok o'
      → o'.state ≡ s
  unfolding transition_order_state
  transition-state now o s reason h = ground arith

  transition_allowed :
      (now : F) (o : Order F) (s : OrderState) (reason : Option String) {o' : Order F}
      → transition_order_state now o s reason ≡ ok o'
      → (o.state ≡ s) ⊎ (can_transition o.state s ≡ true)
  unfolding transition_order_state
  transition_allowed now o s reason h = ground arith

  pub transition-⟶* :
      (now : F) (o : Order F) (s : OrderState) (reason : Option String) {o' : Order F}
      → transition_order_state now o s reason ≡ ok o'
      → o.state ⟶* o'.state
  transition-⟶* now o s reason h =
      rw (transition-state now o s reason h) (elim (transition_allowed now o s reason h) [
        | inl same ↦ rw same here
        | inr allowed ↦ step (allowed-⟶ o.state s allowed) here
      ])
