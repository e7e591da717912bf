-- ===== src/Oms/Idempotency.antt =====
-- polytrader/oms/idempotency.py: the client's order id of an intent, and the table that finds an
-- order again by it. What hashlib and Python's printing of numbers compute is a parameter.
pub mod Fields
pub mod Laws
use Prim.Native.String.{◌++◌}
use polytrader.Prelude.{String, Bool, Option, none, some, if◌then◌else◌, ◌==◌, string_eq}
use polytrader.Dict.{Dict, lookup, contains, insert}
use polytrader.Effect.{Action, Done, ok, err}
use polytrader.Events.{OrderIntentEvent, Outcome, up, down, Side, buy, sell}
use polytrader.Oms.Fsm.{OmsError, already_mapped}

-- `str(x)` of a float, and the first 16 digits of the SHA-256 digest of a text.
pub record Printing (F : Type 0) : Type 0 where
  pub show : F → String
  pub digest : String → String

abbrev pub outcome_text : Outcome → String
outcome_text up = "UP"
outcome_text down = "DOWN"

abbrev pub side_text : Side → String
side_text buy = "BUY"
side_text sell = "SELL"

abbrev pub with_colon : String → String → String
with_colon a b = a ++ (":" ++ b)

module _ {F : Type 0} (printing : Printing F) where
  open printing use {show, digest}

  -- The fields that `_hash_intent` joins.
  abbrev pub intent_text : OrderIntentEvent F → String
  intent_text i = with_colon i.strategy_id (
      with_colon i.market_slug (
        with_colon (outcome_text i.outcome) (
          with_colon (side_text i.side)
            (with_colon (show i.target_price) (with_colon (show i.limit_price) (show i.size))))))

  -- `_hash_intent`
  abbrev pub hash_intent : OrderIntentEvent F → String
  hash_intent i = digest (intent_text i)

  unfoldable pub generate_client_order_id : String → OrderIntentEvent F → String
  generate_client_order_id run_id i =
      run_id ++ ("-" ++ (i.correlation_id ++ ("-" ++ hash_intent i)))

-- `IdempotencyStore._mappings`
abbrev pub Mappings : Type 0
Mappings = Dict String String

abbrev pub record_found : String → String → Option String → Action OmsError Mappings Done
record_found c order_id none m = (ok tt, insert c order_id m)
record_found c order_id (some existing) m =
    if existing == order_id then (ok tt, m) else (err already_mapped, m)

unfoldable pub record_order : String → String → Action OmsError Mappings Done
record_order c order_id m = record_found c order_id (lookup c m) m

unfoldable pub get_order_id : String → Mappings → Option String
get_order_id c m = lookup c m

pub is_duplicate : String → Mappings → Bool
is_duplicate c m = contains c m
