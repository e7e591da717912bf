-- ===== src/Execution/Router/Contradiction.antt =====
-- Two opposite reports on one order by the router of polytrader/execution/router.py: its response
-- is published before the fill is built, and so validated.
use polytrader.Prelude.{
  String, ◌≡◌, Bool, true, false, not, ◌&&◌, List, ◌++◌, any, ==_refl, text_eq, string_eq,
  if◌then◌else◌, inl, inr, arith, Option-cases, Option, none, some,
}
use polytrader.Float.{Float, nought, one}
use polytrader.Effect.{Result, ok, err}
use polytrader.Events.{OrderIntentEvent}
use polytrader.Oms.Core.{SubmitOrderCommand, Env}
use polytrader.Execution.Paper.{VenueResponse, Raised, IVenueAdapter}
use polytrader.Execution.Router.{
  ExecutionMessage, response, order_reject, fill, Router, handle_submit_command,
}
use polytrader.Execution.Router.Messages.{
  on_answer, sent, venue_answer, is_allowed, is_open, messages, handle-published,
}

module _ {F : Type 0} (order_id : String) where
  -- A response that says of the order that it was submitted successfully.
  abbrev pub is_success : ExecutionMessage F → Bool
  is_success (response m) = text_eq m.order_id order_id && m.success
  is_success _ = false

  abbrev pub is_refusal : ExecutionMessage F → Bool
  is_refusal (order_reject m) = text_eq m.order_id order_id
  is_refusal _ = false

  abbrev pub is_fill : ExecutionMessage F → Bool
  is_fill (fill m) = text_eq m.order_id order_id
  is_fill _ = false

  -- The order is reported as submitted, and refused.
  abbrev pub contradict : List (ExecutionMessage F) → Bool
  contradict ms = any is_success ms && any is_refusal ms

module _ {F : Type 0} ⦃fl : Float F⦄ where
  open fl use {lt, le}

  -- The price is in (0, 1] and the size above 0.
  abbrev pub is_sound : F → F → Bool
  is_sound price size = lt nought price && le price one && lt nought size

  abbrev pub price_filled : OrderIntentEvent F → Option F → F
  price_filled intent none = intent.limit_price
  price_filled intent (some p) = p

  -- The venue filled the order, and the fill is sound or, with `false`, is not.
  abbrev pub fills : Bool → OrderIntentEvent F → Result Raised (VenueResponse F) → Bool
  fills wanted intent (err e) = false
  fills wanted intent (ok r) =
      let sound = is_sound (price_filled intent r.fill_price) intent.size in
      text_eq r.status "FILLED" && (if wanted then sound else not sound)

module _ {F A : Type 0} ⦃fl : Float F⦄ (venue : IVenueAdapter F A) (env : Env F)
    (validation_text : String) (c : SubmitOrderCommand F) where
  open fl use {le}

  -- What the router makes of the venue's answer.
  answer-reports :
      (intent : OrderIntentEvent F) (a : Result Raised (VenueResponse F))
      → le nought nought ≡ true
      → let new = on_answer venue env validation_text c intent a in
        (contradict c.order_id new ≡ fills false intent a)
        × (any (is_fill c.order_id) new ≡ fills true intent a)
  answer-reports intent (err e) zero = ground arith
  answer-reports intent (ok r) zero =
      let own : text_eq c.order_id c.order_id ≡ true = ==_refl {A = String} c.order_id in
      let fatal : text_eq "fatal" "fatal" ≡ true = ==_refl {A = String} "fatal" in
      elim (Option-cases r.fill_price) [
        | inl unset ↦ rw unset (ground (arith, own, fatal, zero))
        | inr (p, set) ↦ rw set (ground (arith, own, fatal, zero))
      ]

  -- The order of a command to submit is reported as submitted successfully and is also refused
  -- exactly when the command passes the gate and the throttle, and the venue fills it at a price
  -- out of (0, 1] or with a size that is not above 0; and a fill of it is published exactly when it
  -- is filled at a price and a size that are sound. 0 ≤ 0 holds of the numbers.
  pub handle_submit_command-Contradicts :
      (s : Router F A)
      → le nought nought ≡ true
      → let open_for =
          is_open venue env validation_text c s && is_allowed venue env validation_text c s in
        let intent = sent venue env validation_text c s in
        let answer = venue_answer venue env validation_text c s in
        (new : List (ExecutionMessage F)) × ((handle_submit_command venue env validation_text c
            s).published
          ≡ s.published ++ new)
        × (contradict c.order_id new ≡ (open_for && fills false intent answer))
        × (any (is_fill c.order_id) new ≡ (open_for && fills true intent answer))
  handle_submit_command-Contradicts s zero =
      let (told, filled) =
        answer-reports (sent venue env validation_text c s)
          (venue_answer venue env validation_text c s) zero in
      (
        messages venue env validation_text c s,
        handle-published venue env validation_text c s,
        ground (arith, told),
        ground (arith, filled),
      )
