-- ===== src/Execution/Paper.antt =====
-- polytrader/execution/adapter.py and polytrader/execution/paper.py: what the router asks of a
-- venue, and the simulated venue that answers it. The sleep of `latency_ms` changes no state.
use Prim.Native.String.{◌++◌}
use polytrader.Prelude.{String, Bool, not, ◌&&◌, Option, none, some, if◌then◌else◌}
use polytrader.Float.{Float, nought, one}
use polytrader.Effect.{Result, ok, err}
use polytrader.Events.{OrderIntentEvent, MarketDataEvent, Outcome}
use polytrader.Execution.Pricing.{FillModel, calculate_fill_price, happens}

-- `VenueResponse`; of `raw_response` the key that the router reads.
pub record VenueResponse (F : Type 0) : Type 0 where
  pub venue_order_id : String
  pub status : String
  pub fill_price : Option F

-- An exception: its `error_type`, if it has one (a `VenueError` has), and its text.
pub record Raised : Type 0 where
  pub error_type : Option String
  pub text : String

-- `IVenueAdapter`, with the state A.
pub record IVenueAdapter (F A : Type 0) : Type 0 where
  pub submit_order : String → OrderIntentEvent F → A → Result Raised (VenueResponse F) × A
  pub cancel_order : String → String → A → Result Raised (VenueResponse F) × A

-- `PaperExecutionAdapter`; G is the state of `rng`.
pub record PaperVenue (F G : Type 0) : Type 0 where
  pub fill_model : FillModel
  pub fill_probability : F
  pub rejection_probability : F
  pub slippage_bps : F
  pub rng : G

module _ {F : Type 0} ⦃fl : Float F⦄ where
  abbrev is_probability : F → Bool
  is_probability p = fl.le nought p && fl.le p one

  -- `__init__` raises `ValueError` on a probability outside of 0 to 1.
  unfoldable pub paper_venue :
      {G : Type 0} → FillModel → F → F → F → G → Result Raised (PaperVenue F G)
  paper_venue model fill_probability rejection_probability slippage_bps rng =
      if not (is_probability fill_probability && is_probability rejection_probability)
      then err (record { error_type = none; text = "probability must be in [0, 1]" })
      else ok (record {
        fill_model = model;
        fill_probability = fill_probability;
        rejection_probability = rejection_probability;
        slippage_bps = slippage_bps;
        rng = rng;
      })

  -- `random` is `rng.random`, `latest` the store's, `hex` the first eight digits of a new `uuid4`.
  module _ {G : Type 0} (random : G → F × G)
      (latest : String → Outcome → Option (MarketDataEvent F)) (hex : String) where
    abbrev with_rng : G → PaperVenue F G → PaperVenue F G
    with_rng g v = record v { rng = g }

    abbrev rejected_response : Result Raised (VenueResponse F)
    rejected_response =
        err (record { error_type = some "fatal"; text = "Simulated venue rejection" })

    abbrev pending_response : String → Result Raised (VenueResponse F)
    pending_response client_order_id = ok (record {
      venue_order_id = "paper-pending-" ++ client_order_id;
      status = "PENDING";
      fill_price = none;
    })

    abbrev pub filled_response :
        OrderIntentEvent F → PaperVenue F G → Result Raised (VenueResponse F)
    filled_response intent v = ok (record {
      venue_order_id = "paper-" ++ hex;
      status = "FILLED";
      fill_price = some (
          calculate_fill_price v.fill_model intent (latest intent.market_slug intent.outcome)
            v.slippage_bps);
    })

    unfoldable pub paper_submit :
        String
        → OrderIntentEvent F
        → PaperVenue F G
        → Result Raised (VenueResponse F) × PaperVenue F G
    paper_submit client_order_id intent v =
        let (rejects, g) = happens random v.rejection_probability v.rng in
        let (fills, g') = happens random v.fill_probability g in
        if rejects then (rejected_response, with_rng g v) else (
          if fills then filled_response intent v else pending_response client_order_id,
          with_rng g' v,
        )

    abbrev paper_cancel :
        String → String → PaperVenue F G → Result Raised (VenueResponse F) × PaperVenue F G
    paper_cancel client_order_id venue_order_id v = (
      ok (record { venue_order_id = venue_order_id; status = "CANCELLED"; fill_price = none }),
      v,
    )

    abbrev pub paper_adapter : IVenueAdapter F (PaperVenue F G)
    paper_adapter = record { submit_order = paper_submit; cancel_order = paper_cancel }
