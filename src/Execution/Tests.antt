-- ===== src/Execution/Tests.antt =====
-- The theorems about polytrader/execution at concrete orders.
use polytrader.Prelude.{
  any, String, ℕ, ◌≡◌, refl, true, false, Option, none, some, List, [], ◌∷◌, text_eq, arith,
}
use polytrader.Float.Fixed.{ℤ, pos, fixed_float}
use polytrader.Dict.{lookup}
use polytrader.Events.{Outcome, up, buy, event_meta, OrderIntentEvent, MarketDataEvent, mid}
use polytrader.Oms.Core.{SubmitOrderCommand, CancelOrderCommand, Env}
use polytrader.Execution.Pricing.{mid_price, calculate_fill_price}
use polytrader.Execution.Throttle.{is_recent, check_throttle}
use polytrader.Execution.Throttle.Window.{IsAging, Stamp, decisions, decisions-reference}
use polytrader.Execution.Paper.{
  VenueResponse, IVenueAdapter, PaperVenue, paper_submit, paper_adapter,
}
use polytrader.Execution.Router.{ExecutionMessage, Router, handle_submit_command}
use polytrader.Execution.Router.Answers.{answers, answers_to, handle_submit_command-Answered}
use polytrader.Execution.Router.Contradiction.{
  contradict, is_fill, handle_submit_command-Contradicts,
}
use polytrader.Execution.Router.Cancel.{
  IsReport, handle_cancel_command, handle_cancel_command-Reported,
}

aging_le_trans :
    (x y z : ℤ) → fixed_float.le x y ≡ true → fixed_float.le y z ≡ true → fixed_float.le x z ≡ true
aging_le_trans x y z h k = ground arith

aging_stays_old :
    (ts x y : ℤ) → fixed_float.le x y ≡ true → is_recent x ts ≡ false → is_recent y ts ≡ false
aging_stays_old ts x y h k = ground arith

ℤ-IsAging : IsAging ℤ
ℤ-IsAging = record { le_trans = aging_le_trans; stays_old = aging_stays_old }

-- Two orders a second, of two ids; the third of "a" is half a second late, the fourth a second.
abbrev stamps : List (Stamp ℤ)
stamps = ("a", pos 0) ∷ ("b", pos 0) ∷ ("a", pos 1000) ∷ ("a", pos 5000) ∷ ("a", pos 10000) ∷ []

decisions-reference_example :
    decisions (pos 20000) stamps [] ≡ true ∷ true ∷ true ∷ false ∷ true ∷ []
unfolding text_eq
decisions-reference_example =
    decisions-reference ℤ-IsAging (pos 20000) (pos 0) stamps
      (refl, (refl, (refl, (refl, (refl, tt)))))

abbrev intent : OrderIntentEvent ℤ
intent = record {
  meta = event_meta "intent" (pos 0) "decision";
  market_slug = "btc";
  outcome = up;
  side = buy;
  target_price = pos 5000;
  limit_price = pos 5000;
  size = pos 100000;
  reason = "r";
  strategy_id = "s";
  ttl_s = pos 20000;
}

abbrev quote : ℤ → ℤ → MarketDataEvent ℤ
quote bid ask = record {
  meta = event_meta "tick" (pos 0) "tick";
  market_slug = "btc";
  outcome = up;
  best_bid = bid;
  best_ask = ask;
}

-- A paper venue that always fills at the middle of an empty book.
abbrev venue : PaperVenue ℤ ℕ
venue = record {
  fill_model = mid_price;
  fill_probability = pos 10000;
  rejection_probability = pos 0;
  slippage_bps = pos 0;
  rng = 0;
}

abbrev random : ℕ → ℤ × ℕ
random n = (pos 0, n)

abbrev latest : String → Outcome → Option (MarketDataEvent ℤ)
latest slug outcome = some (quote (pos 0) (pos 0))

abbrev paper : IVenueAdapter ℤ (PaperVenue ℤ ℕ)
paper = paper_adapter random latest "0a1b2c3d"

abbrev env : Env ℤ
env = record { now = λ n. pos n; uuid = λ n. "u" }

abbrev command : SubmitOrderCommand ℤ
command = record {
  order_id = "o";
  client_order_id = "c";
  intent = intent;
  correlation_id = "decision";
}

abbrev router : Router ℤ (PaperVenue ℤ ℕ)
router = record {
  throttle = record {
    order_timestamps = [];
    cancel_timestamps = [];
    max_orders_per_second = pos 100000;
    max_cancels_per_second = pos 200000;
  };
  max_buy_slippage_bps = pos 500000;
  max_sell_slippage_bps = pos 500000;
  enabled = none;
  active_strategies = [];
  is_paper_mode = true;
  adapter = venue;
  published = [];
}

abbrev paper_response : VenueResponse ℤ
paper_response = record {
  venue_order_id = "paper-0a1b2c3d";
  status = "FILLED";
  fill_price = some (pos 0);
}

handle_submit_command-Answered_example :
    (new : List (ExecutionMessage ℤ)) × ((handle_submit_command paper env "no price" command
        router).published
      ≡ new)
    × (answers new ≡ 1)
    × (answers_to "o" new ≡ answers new)
unfolding check_throttle paper_submit lookup
handle_submit_command-Answered_example =
    handle_submit_command-Answered paper env "no price" command router

handle_submit_command-Contradicts_example :
    (new : List (ExecutionMessage ℤ)) × ((handle_submit_command paper env "no price" command
        router).published
      ≡ new)
    × (contradict "o" new ≡ true)
    × (any (is_fill "o") new ≡ false)
unfolding check_throttle paper_submit lookup calculate_fill_price text_eq mid
handle_submit_command-Contradicts_example =
    handle_submit_command-Contradicts paper env "no price" command router refl

abbrev cancellation : CancelOrderCommand
cancellation = record {
  order_id = "o";
  client_order_id = "c";
  venue_order_id = none;
  reason = none;
  correlation_id = "decision";
}

handle_cancel_command-Reported_example :
    (new : List (ExecutionMessage ℤ)) × ((handle_cancel_command paper env cancellation
        router).published
      ≡ new)
    × IsReport new
handle_cancel_command-Reported_example =
    handle_cancel_command-Reported paper env cancellation router
