-- ===== src/Execution/Throttle.antt =====
-- polytrader/execution/throttle.py: `ExecutionThrottle`. The clock's reading is an argument. A key
-- that the `defaultdict` lacks stands for the empty list that a look-up would store.
pub mod Window
use polytrader.Prelude.{
  String, ℕ, ◌≡◌, refl, Bool, true, false, not, ◌&&◌, Option, none, some, List, [], ◌∷◌, ◌++◌,
  length, keep_if, map, if◌then◌else◌, ◌==◌, string_eq,
}
use polytrader.Float.{Float, nought, one}
use polytrader.Dict.{Dict, lookup, insert}

pub record ExecutionThrottle (F : Type 0) : Type 0 where
  pub order_timestamps : Dict String (List F)
  pub cancel_timestamps : Dict String (List F)
  pub max_orders_per_second : F
  pub max_cancels_per_second : F

module _ {F : Type 0} ⦃fl : Float F⦄ where
  open fl use {of_nat, sub, lt, le}

  abbrev pub stamps_of : Option (List F) → List F
  stamps_of none = []
  stamps_of (some ts) = ts

  -- A timestamp of the last second.
  abbrev pub is_recent : F → F → Bool
  is_recent now ts = lt (sub now ts) one

  -- The body that the two checks share, on the timestamps of one kind.
  abbrev pub timestamps_at : F → String → Dict String (List F) → List F
  timestamps_at now client_order_id d =
      keep_if (is_recent now) (stamps_of (lookup client_order_id d))

  -- `n >= limit`
  abbrev pub is_throttled : F → ℕ → Bool
  is_throttled limit n = le limit (of_nat n)

  unfoldable pub check_throttle :
      F → F → String → Dict String (List F) → Bool × Dict String (List F)
  check_throttle limit now client_order_id d =
      let ts = timestamps_at now client_order_id d in
      if is_throttled limit (length ts)
      then (false, insert client_order_id ts d)
      else (true, insert client_order_id (ts ++ (now ∷ [])) d)

  abbrev pub check_order_throttle : F → String → ExecutionThrottle F → Bool × ExecutionThrottle F
  check_order_throttle now client_order_id t =
      let (allowed, d) =
        check_throttle t.max_orders_per_second now client_order_id t.order_timestamps in
      (allowed, record t { order_timestamps = d })

  abbrev pub check_cancel_throttle : F → String → ExecutionThrottle F → Bool × ExecutionThrottle F
  check_cancel_throttle now client_order_id t =
      let (allowed, d) =
        check_throttle t.max_cancels_per_second now client_order_id t.cancel_timestamps in
      (allowed, record t { cancel_timestamps = d })

  abbrev pub reset : ExecutionThrottle F → ExecutionThrottle F
  reset t = record t { order_timestamps = []; cancel_timestamps = [] }
