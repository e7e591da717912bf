-- ===== src/Execution/Router/Messages.antt =====
-- The messages that the router of polytrader/execution/router.py publishes for a command to submit
-- an order, case by case.
use Prim.Native.String.{◌++◌ as ◌⧺◌}
use polytrader.Prelude.{
  String, ◌≡◌, refl, ◌∙◌, Bool, true, false, not, ◌&&◌, List, [], ◌∷◌, ◌++◌, append-three, text_eq,
  if◌then◌else◌, Bool-cases, inl, inr,
}
use mathlib.Core.List.{append_assoc}
use polytrader.Float.{Float}
use polytrader.Effect.{Result, ok, err, Done, ◌>>=◌}
use polytrader.Events.{OrderIntentEvent}
use polytrader.Oms.Core.{SubmitOrderCommand, Env}
use polytrader.Execution.Throttle.{check_order_throttle}
use polytrader.Execution.Paper.{VenueResponse, Raised, IVenueAdapter}
use polytrader.Execution.Router.{
  ExecutionMessage, Router, is_filled, type_of, invalid_fill, request_event, response_event,
  error_event, reject_event, ack_event, fill_event, modified_intent, is_valid_fill, report, place,
  attempt, recover, settled, is_disabled, is_inactive, handle_submit_command,
}

module _ {F A : Type 0} ⦃fl : Float F⦄ (venue : IVenueAdapter F A) (env : Env F)
    (validation_text : String) (c : SubmitOrderCommand F) where
  abbrev pub error_of : String → String → ExecutionMessage F
  error_of = error_event venue env validation_text c

  abbrev pub reject_of : String → ExecutionMessage F
  reject_of = reject_event venue env validation_text c

  abbrev pub on_error : Raised → List (ExecutionMessage F)
  on_error e =
      error_of (type_of e) e.text
      ∷ (if text_eq (type_of e) "fatal" then reject_of e.text ∷ [] else [])

  abbrev pub on_response : OrderIntentEvent F → VenueResponse F → List (ExecutionMessage F)
  on_response intent r =
      let ack = ack_event venue env validation_text c r in
      response_event venue env validation_text c r
      ∷ (if is_filled r
          then (if is_valid_fill venue env validation_text c intent r
              then fill_event venue env validation_text c intent r ∷ ack ∷ []
              else on_error (invalid_fill validation_text))
          else ack ∷ [])

  abbrev settle_of : Result Raised Done × Router F A → Router F A
  settle_of = settled venue env validation_text c

  recover-published :
      (e : Raised) (s : Router F A)
      → (recover venue env validation_text c e s).published ≡ s.published ++ on_error e
  recover-published e s = elim (Bool-cases (text_eq (type_of e) "fatal")) [
    | inl h ↦
        rw (h) (append_assoc s.published (error_of (type_of e) e.text ∷ []) (reject_of e.text ∷ []))
    | inr h ↦ rw (h) refl
  ]

  report-published :
      (intent : OrderIntentEvent F) (r : VenueResponse F) (s : Router F A)
      → (settle_of (report venue env validation_text c intent r s)).published
        ≡ s.published ++ on_response intent r
  report-published intent r s =
      let told = response_event venue env validation_text c r in
      let filled = fill_event venue env validation_text c intent r in
      let ack = ack_event venue env validation_text c r in
      elim (Bool-cases (is_filled r)) [
        | inl h ↦ elim (Bool-cases (is_valid_fill venue env validation_text c intent r)) [
          | inl v ↦ rw (h, v) (append-three s.published told filled ack)
          | inr v ↦
              rw (h, v)
                (recover-published (invalid_fill validation_text)
                    (record s { published = s.published ++ (told ∷ []) })
                  ∙ append_assoc s.published (told ∷ []) (on_error (invalid_fill validation_text)))
        ]
        | inr h ↦ rw (h) (append_assoc s.published (told ∷ []) (ack ∷ []))
      ]

  -- The intent as it is sent, and the venue's answer to it.
  abbrev pub sent : Router F A → OrderIntentEvent F
  sent s = modified_intent venue env validation_text c s

  abbrev pub venue_answer : Router F A → Result Raised (VenueResponse F)
  venue_answer s = (venue.submit_order c.client_order_id (sent s) s.adapter).0

  abbrev pub is_allowed : Router F A → Bool
  is_allowed s = (check_order_throttle (env.now 2) c.client_order_id s.throttle).0

  abbrev pub throttled_error : ExecutionMessage F
  throttled_error = error_of "fatal" ("Order throttled: " ⧺ c.client_order_id)

  abbrev pub on_answer :
      OrderIntentEvent F → Result Raised (VenueResponse F) → List (ExecutionMessage F)
  on_answer intent (ok r) = on_response intent r
  on_answer intent (err e) = on_error e

  abbrev pub asked : ExecutionMessage F
  asked = request_event venue env validation_text c

  -- What follows the venue's answer, given that answer.
  answered-published :
      (intent : OrderIntentEvent F) (a : Result Raised (VenueResponse F)) (s t : Router F A)
      → (settle_of (((λ _. (a, s)) >>= report venue env validation_text c intent) t)).published
        ≡ s.published ++ on_answer intent a
  answered-published intent (ok r) s t = report-published intent r s
  answered-published intent (err e) s t = recover-published e s

  place-published :
      (allowed : Bool) (s : Router F A)
      → (settle_of (place venue env validation_text c allowed s)).published
        ≡ s.published
          ++ (if allowed then on_answer (sent s) (venue_answer s) else throttled_error ∷ [])
  place-published false s = refl
  place-published true s =
      let (a, t) = venue.submit_order c.client_order_id (sent s) s.adapter in
      answered-published (sent s) a (record s { adapter = t }) s

  -- The messages of a command that passes the router's gate.
  abbrev pub attempt_messages : Router F A → List (ExecutionMessage F)
  attempt_messages s =
      asked ∷ (if is_allowed s then on_answer (sent s) (venue_answer s) else throttled_error ∷ [])

  attempt-published :
      (s : Router F A)
      → (settle_of (attempt venue env validation_text c s)).published
        ≡ s.published ++ attempt_messages s
  attempt-published s =
      let (allowed, t) = check_order_throttle (env.now 2) c.client_order_id s.throttle in
      place-published allowed (record s { throttle = t; published = s.published ++ (asked ∷ []) })
      ∙ append_assoc s.published (asked ∷ [])
          (if allowed then on_answer (sent s) (venue_answer s) else throttled_error ∷ [])

  -- The command passes the gate: execution is enabled, and the strategy is active or the mode
  -- paper.
  abbrev pub is_open : Router F A → Bool
  is_open s =
      not (is_disabled venue env validation_text c s)
      && not (is_inactive venue env validation_text c s)

  abbrev pub gate_reason : Router F A → String
  gate_reason s =
      if is_disabled venue env validation_text c s
      then "Execution disabled"
      else "Strategy not active for live trading"

  abbrev pub messages : Router F A → List (ExecutionMessage F)
  messages s = if is_open s then attempt_messages s else reject_of (gate_reason s) ∷ []

  pub handle-published :
      (s : Router F A)
      → (handle_submit_command venue env validation_text c s).published ≡ s.published ++ messages s
  unfolding handle_submit_command
  handle-published s = elim (Bool-cases (is_disabled venue env validation_text c s)) [
    | inl h ↦ rw (h) refl
    | inr h ↦ elim (Bool-cases (is_inactive venue env validation_text c s)) [
      | inl k ↦ rw (h, k) refl
      | inr k ↦ rw (h, k) (attempt-published s)
    ]
  ]
