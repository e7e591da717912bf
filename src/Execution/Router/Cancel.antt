-- ===== src/Execution/Router/Cancel.antt =====
-- `_handle_cancel_command` of polytrader/execution/router.py, and what it reports.
use Prim.Native.String.{◌++◌ as ◌⧺◌}
use polytrader.Prelude.{
  String, ◌≡◌, refl, Bool, true, false, Option, none, some, List, [], ◌∷◌, ◌++◌, length, keep_if,
}
use mathlib.Core.List.{append_assoc}
use polytrader.Float.{Float}
use polytrader.Effect.{Result, ok, err, Done, raise, ◌>>=◌, ◌>>◌}
use polytrader.Oms.Core.{CancelOrderCommand, Env}
use polytrader.Execution.Throttle.{check_cancel_throttle}
use polytrader.Execution.Paper.{VenueResponse, Raised, IVenueAdapter}
use polytrader.Execution.Router.{
  ExecutionMessage, request, response, failure, Router, Step, type_of, publish, stamp, latency,
}
use polytrader.Execution.Router.Answers.{answers}

abbrev pub is_report : {F : Type 0} → ExecutionMessage F → Bool
is_report (response _) = true
is_report (failure _) = true
is_report _ = false

-- Messages that report once and answer nothing.
abbrev pub IsReport : {F : Type 0} → List (ExecutionMessage F) → Type 0
IsReport ms = (length (keep_if is_report ms) ≡ 1) × (answers ms ≡ 0)

module _ {F A : Type 0} ⦃fl : Float F⦄ (venue : IVenueAdapter F A) (env : Env F)
    (c : CancelOrderCommand) where
  open fl use {sub, mul, of_nat}

  abbrev cancel_request : ExecutionMessage F
  cancel_request = request (record {
    meta = stamp venue env "" 1 c.correlation_id;
    order_id = c.order_id;
    client_order_id = c.client_order_id;
    request_type = "cancel";
  })

  abbrev cancel_response : VenueResponse F → ExecutionMessage F
  cancel_response r = response (record {
    meta = stamp venue env "" 4 c.correlation_id;
    order_id = c.order_id;
    client_order_id = c.client_order_id;
    venue_order_id = r.venue_order_id;
    latency_ms = latency venue env "" 3;
    success = true;
  })

  abbrev cancel_failure : Raised → ExecutionMessage F
  cancel_failure e = failure (record {
    meta = stamp venue env "" 8 c.correlation_id;
    order_id = c.order_id;
    client_order_id = c.client_order_id;
    error_type = type_of e;
    error_message = e.text;
  })

  abbrev cancel_throttled : Raised
  cancel_throttled = record { error_type = none; text = "Cancel throttled: " ⧺ c.client_order_id }

  abbrev check_cancel_now : Step F A Bool
  check_cancel_now s =
      let (allowed, t) = check_cancel_throttle (env.now 2) c.client_order_id s.throttle in
      (ok allowed, record s { throttle = t })

  -- `command.venue_order_id or ""`
  abbrev or_empty : Option String → String
  or_empty none = ""
  or_empty (some v) = v

  abbrev cancel_at_venue : Step F A (VenueResponse F)
  cancel_at_venue s =
      let (r, a) = venue.cancel_order c.client_order_id (or_empty c.venue_order_id) s.adapter in
      (r, record s { adapter = a })

  abbrev cancel_allowed : Bool → Step F A Done
  cancel_allowed false = raise cancel_throttled
  cancel_allowed true =
      publish cancel_request >> cancel_at_venue >>= λ r. publish (cancel_response r)

  abbrev cancel_settled : Result Raised Done × Router F A → Router F A
  cancel_settled (ok _, s) = s
  cancel_settled (err e, s) = (publish (cancel_failure e) s).1

  unfoldable pub handle_cancel_command : Router F A → Router F A
  handle_cancel_command s = cancel_settled ((check_cancel_now >>= cancel_allowed) s)

  abbrev Reported : Router F A → Router F A → Type 0
  Reported s t =
      (new : List (ExecutionMessage F)) × (t.published ≡ s.published ++ new) × IsReport new

  venue-Reported :
      (a : Result Raised (VenueResponse F)) (s told t : Router F A)
      → told.published ≡ s.published ++ (cancel_request ∷ [])
      → Reported s (cancel_settled (((λ _. (a, told)) >>= λ r. publish (cancel_response r)) t))
  venue-Reported (ok r) s told t h = (
    cancel_request ∷ cancel_response r ∷ [],
    rw (h) (append_assoc s.published (cancel_request ∷ []) (cancel_response r ∷ [])),
    (refl, refl),
  )
  venue-Reported (err e) s told t h = (
    cancel_request ∷ cancel_failure e ∷ [],
    rw (h) (append_assoc s.published (cancel_request ∷ []) (cancel_failure e ∷ [])),
    (refl, refl),
  )

  allowed-Reported :
      (allowed : Bool) (s : Router F A) → Reported s (cancel_settled (cancel_allowed allowed s))
  allowed-Reported false s = (cancel_failure cancel_throttled ∷ [], refl, (refl, refl))
  allowed-Reported true s =
      let told = record s { published = s.published ++ (cancel_request ∷ []) } in
      let (a, t) = venue.cancel_order c.client_order_id (or_empty c.venue_order_id) s.adapter in
      venue-Reported a s (record told { adapter = t }) told refl

  -- Every command to cancel an order is reported once, by a response or an error, whether the
  -- throttle refuses it, the venue raises or the venue answers; and the router acks and rejects no
  -- order on account of it.
  pub handle_cancel_command-Reported :
      (s : Router F A)
      → (new : List (ExecutionMessage F)) × ((handle_cancel_command s).published
          ≡ s.published ++ new)
        × IsReport new
  unfolding handle_cancel_command
  handle_cancel_command-Reported s =
      let (allowed, t) = check_cancel_throttle (env.now 2) c.client_order_id s.throttle in
      allowed-Reported allowed (record s { throttle = t })
