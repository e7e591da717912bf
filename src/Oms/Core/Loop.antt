-- ===== src/Oms/Core/Loop.antt =====
-- polytrader/oms/core.py: the loops of `run` that serve the user stream. An exception of a handler
-- is logged, and the loop goes on with what the handler has changed.
pub mod Invariant
use polytrader.Prelude.{ℕ, suc, List, [], ◌∷◌}
use polytrader.Float.{Float}
use polytrader.Effect.{Done}
use polytrader.Oms.Core.{Core, Env, Op}
use polytrader.Oms.Core.Canonical.{
  CanonicalOrderAck, CanonicalOrderReject, CanonicalFill, CanonicalCancel, handle_canonical_ack,
  handle_canonical_reject, handle_canonical_fill, handle_canonical_cancel,
}

-- What the four queues of the user stream bring.
pub data UserMessage (F : Type 0) : Type 0 where
  order_acked : CanonicalOrderAck → UserMessage F
  order_refused : CanonicalOrderReject → UserMessage F
  order_fill : CanonicalFill F → UserMessage F
  order_cancel : CanonicalCancel → UserMessage F

module _ {F : Type 0} ⦃fl : Float F⦄ where
  unfoldable pub handle_message : Env F → UserMessage F → Op F Done
  handle_message env (order_acked m) = handle_canonical_ack env m
  handle_message env (order_refused m) = handle_canonical_reject env m
  handle_message env (order_fill m) = handle_canonical_fill env m
  handle_message env (order_cancel m) = handle_canonical_cancel env m

  -- The messages in the order in which the four loops take them.
  unfoldable pub serve : (ℕ → Env F) → List (UserMessage F) → Core F → Core F
  unfolding handle_message
  serve envs [] c = c
  serve envs (m ∷ ms) c = serve (λ k. envs (suc k)) ms (handle_message (envs 0) m c).1
