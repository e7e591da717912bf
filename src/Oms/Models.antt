-- ===== src/Oms/Models.antt =====
-- polytrader/oms/models.py: the order, and the states of its life.
use polytrader.Prelude.{ℕ, String, Bool, not, Option, if◌then◌else◌, ◌&&◌, ◌||◌, leb}
use polytrader.Float.{Float, nought}
use polytrader.Events.{OrderIntentEvent, Outcome, Side}

pub data OrderState : Type 0 where
  new pending_submit submitted acked partially_filled filled cancelled rejected : OrderState

pub record Order (F : Type 0) : Type 0 where
  pub order_id : String
  pub client_order_id : String
  pub venue_order_id : Option String
  pub state : OrderState
  pub intent : OrderIntentEvent F
  pub market_slug : String
  pub outcome : Outcome
  pub side : Side
  pub size : F
  pub limit_price : F
  pub filled_size : F
  pub avg_fill_price : Option F
  pub created_at : F
  pub updated_at : F
  pub reject_reason : Option String
  pub correlation_id : String
  pub strategy_id : Option String

abbrev rank : OrderState → ℕ
rank new = 0
rank pending_submit = 1
rank submitted = 2
rank acked = 3
rank partially_filled = 4
rank filled = 5
rank cancelled = 6
rank rejected = 7

-- `==` of two states
abbrev pub state_eq : OrderState → OrderState → Bool
state_eq a b = leb (rank a) (rank b) && leb (rank b) (rank a)

-- `Order.is_terminal`
abbrev pub is_terminal_order : {F : Type 0} → Order F → Bool
is_terminal_order o =
    state_eq o.state filled || state_eq o.state cancelled || state_eq o.state rejected

-- `Order.is_open`
abbrev pub is_open : {F : Type 0} → Order F → Bool
is_open o = not (is_terminal_order o)

module _ {F : Type 0} ⦃fl : Float F⦄ where
  open fl use {sub, div, eq}

  pub remaining_size : Order F → F
  remaining_size o = sub o.size o.filled_size

  pub fill_percentage : Order F → F
  fill_percentage o = if eq o.size nought then nought else div o.filled_size o.size
