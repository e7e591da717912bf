-- ===== src/Execution/Router/Answers.antt =====
-- What the router of polytrader/execution/router.py answers to a command to submit an order.
use polytrader.Prelude.{
  String, ℕ, ◌≡◌, refl, Bool, true, false, not, ◌&&◌, ◌||◌, List, ◌++◌, length, ==_refl, keep_if,
  text_eq, string_eq, if◌then◌else◌, Bool-cases, inl, inr, arith,
}
use polytrader.Float.{Float}
use polytrader.Effect.{Result, ok, err}
use polytrader.Events.{OrderIntentEvent}
use polytrader.Oms.Core.{SubmitOrderCommand, Env}
use polytrader.Execution.Paper.{VenueResponse, Raised, IVenueAdapter}
use polytrader.Execution.Router.{
  ExecutionMessage, order_ack, order_reject, Router, is_filled, type_of, is_valid_fill,
  handle_submit_command,
}
use polytrader.Execution.Router.Messages.{
  on_answer, sent, venue_answer, is_allowed, is_open, messages, handle-published,
}

fatal_eq : text_eq "fatal" "fatal" ≡ true
fatal_eq = ==_refl {A = String} "fatal"

-- A message by which the OMS learns that the venue has the order, or that it has not.
abbrev pub is_answer : {F : Type 0} → ExecutionMessage F → Bool
is_answer (order_ack _) = true
is_answer (order_reject _) = true
is_answer _ = false

abbrev pub answers : {F : Type 0} → List (ExecutionMessage F) → ℕ
answers ms = length (keep_if is_answer ms)

-- Those among them that name the order.
abbrev pub names : {F : Type 0} → String → ExecutionMessage F → Bool
names order_id (order_ack m) = text_eq m.order_id order_id
names order_id (order_reject m) = text_eq m.order_id order_id
names order_id _ = false

abbrev pub answers_to : {F : Type 0} → String → List (ExecutionMessage F) → ℕ
answers_to order_id ms = length (keep_if (names order_id) ms)

module _ {F A : Type 0} ⦃fl : Float F⦄ (venue : IVenueAdapter F A) (env : Env F)
    (validation_text : String) (c : SubmitOrderCommand F) where
  -- The venue answered with an exception that is not fatal.
  abbrev pub is_retryable : Result Raised (VenueResponse F) → Bool
  is_retryable (ok _) = false
  is_retryable (err e) = not (text_eq (type_of e) "fatal")

  abbrev pub is_unanswered : Router F A → Bool
  is_unanswered s =
      is_open venue env validation_text c s
      && (not (is_allowed venue env validation_text c s)
          || is_retryable (venue_answer venue env validation_text c s))

  answers-on_answer :
      (intent : OrderIntentEvent F) (a : Result Raised (VenueResponse F))
      → answers (on_answer venue env validation_text c intent a) ≡ (if is_retryable a then 0 else 1)
  answers-on_answer intent (ok r) = elim (Bool-cases (is_filled r)) [
    | inl h ↦ elim (Bool-cases (is_valid_fill venue env validation_text c intent r)) [
      | inl v ↦ rw (h, v) refl
      | inr v ↦ rw (h, v, fatal_eq) refl
    ]
    | inr h ↦ rw (h) refl
  ]
  answers-on_answer intent (err e) = ground arith

  own_id : text_eq c.order_id c.order_id ≡ true
  own_id = ==_refl {A = String} c.order_id

  answers_to-on_answer :
      (intent : OrderIntentEvent F) (a : Result Raised (VenueResponse F))
      → let new = on_answer venue env validation_text c intent a in
        answers_to c.order_id new ≡ answers new
  answers_to-on_answer intent (ok r) = ground (arith, own_id, fatal_eq)
  answers_to-on_answer intent (err e) = ground (arith, own_id)

  answers-messages :
      (s : Router F A)
      → answers (messages venue env validation_text c s) ≡ (if is_unanswered s then 0 else 1)
  answers-messages s = elim (Bool-cases (is_open venue env validation_text c s)) [
    | inr h ↦ rw (h) refl
    | inl h ↦ elim (Bool-cases (is_allowed venue env validation_text c s)) [
      | inr k ↦ rw (h, k) refl
      | inl k ↦
          rw (h, k)
            (answers-on_answer (sent venue env validation_text c s)
              (venue_answer venue env validation_text c s))
    ]
  ]

  answers_to-messages :
      (s : Router F A)
      → let new = messages venue env validation_text c s in answers_to c.order_id new ≡ answers new
  answers_to-messages s = ground (
    arith,
    own_id,
    answers_to-on_answer (sent venue env validation_text c s)
        (venue_answer venue env validation_text c s),
  )

  -- A command to submit an order is answered once: what the router publishes holds exactly one ack
  -- or reject, which names the order, unless the command passed the gate and then either the
  -- throttle refused it or the venue raised an error that is not fatal, when it holds none. What
  -- was published before stays.
  pub handle_submit_command-Answered :
      (s : Router F A)
      → (new : List (ExecutionMessage F)) × ((handle_submit_command venue env validation_text c
            s).published
          ≡ s.published ++ new)
        × (answers new ≡ (if is_unanswered s then 0 else 1))
        × (answers_to c.order_id new ≡ answers new)
  handle_submit_command-Answered s = (
    messages venue env validation_text c s,
    handle-published venue env validation_text c s,
    answers-messages s,
    answers_to-messages s,
  )
