-- ===== src/PositionManager/Outcomes.antt =====
-- polytrader/position_manager/outcome_tracker.py and performance_metrics.py. `sum_of` is Python's
-- `sum` of floats. The gauges that `update_metrics` sets are its result.
use polytrader.Prelude.{
  ℕ, String, Bool, true, false, Option, none, some, List, [], ◌∷◌, ◌++◌, map, length, keep_if,
  if◌then◌else◌,
}
use polytrader.Float.{Float, nought}
use polytrader.Events.{Outcome}

pub data Verdict : Type 0 where
  win loss breakeven : Verdict

abbrev pub is_win : Verdict → Bool
is_win win = true
is_win _ = false

abbrev pub is_loss : Verdict → Bool
is_loss loss = true
is_loss _ = false

pub record ClosedPosition (F : Type 0) : Type 0 where
  pub market_slug : String
  pub outcome : Outcome
  pub entry_price : F
  pub exit_price : F
  pub size : F
  pub pnl : F
  pub pnl_pct : F
  pub duration_seconds : F
  pub entry_time : F
  pub exit_time : F
  pub result : Verdict

-- What a position is closed with, the arguments of `record_closed_position`.
pub record Closing (F : Type 0) : Type 0 where
  pub market_slug : String
  pub outcome : Outcome
  pub entry_price : F
  pub exit_price : F
  pub size : F
  pub entry_time : F
  pub exit_time : F

pub record OutcomeTracker (F : Type 0) : Type 0 where
  pub closed_positions : List (ClosedPosition F)

abbrev pub new_tracker : {F : Type 0} → OutcomeTracker F
new_tracker = record { closed_positions = [] }

module _ {F : Type 0} ⦃fl : Float F⦄ where
  open fl use {add, sub, mul, div, lt, of_nat}

  abbrev pub gain : F → F → F → F
  gain exit entry size = mul (sub exit entry) size

  abbrev verdict_of : F → Verdict
  verdict_of pnl = if lt nought pnl then win else if lt pnl nought then loss else breakeven

  abbrev percentage : F → F → F
  percentage exit entry =
      if lt nought entry then mul (div (sub exit entry) entry) (of_nat 100) else nought

  unfoldable pub from_position_close : Closing F → ClosedPosition F
  from_position_close c = record {
    market_slug = c.market_slug;
    outcome = c.outcome;
    entry_price = c.entry_price;
    exit_price = c.exit_price;
    size = c.size;
    pnl = gain c.exit_price c.entry_price c.size;
    pnl_pct = percentage c.exit_price c.entry_price;
    duration_seconds = sub c.exit_time c.entry_time;
    entry_time = c.entry_time;
    exit_time = c.exit_time;
    result = verdict_of (gain c.exit_price c.entry_price c.size);
  }

  abbrev pub record_closed_position : Closing F → OutcomeTracker F → OutcomeTracker F
  record_closed_position c t = record t {
    closed_positions = t.closed_positions ++ (from_position_close c ∷ []);
  }

module _ {F : Type 0} where
  abbrev pub get_total_trades : OutcomeTracker F → ℕ
  get_total_trades t = length t.closed_positions

  abbrev pub get_wins : OutcomeTracker F → List (ClosedPosition F)
  get_wins t = keep_if (λ p. is_win p.result) t.closed_positions

  abbrev pub get_losses : OutcomeTracker F → List (ClosedPosition F)
  get_losses t = keep_if (λ p. is_loss p.result) t.closed_positions

  abbrev pub pnls : List (ClosedPosition F) → List F
  pnls ps = map (λ p. p.pnl) ps

module _ {F : Type 0} (sum_of : List F → F) where
  abbrev pub get_total_realized_pnl : OutcomeTracker F → F
  get_total_realized_pnl t = sum_of (pnls t.closed_positions)

module _ {F : Type 0} ⦃fl : Float F⦄ where
  open fl use {sub, lt}

  -- `_calculate_drawdown`: the drawdown, and the new `_peak_equity`.
  unfoldable pub calculate_drawdown : F → F → F × F
  calculate_drawdown equity peak =
      if lt peak equity then (nought, equity) else (sub peak equity, peak)

module _ {F : Type 0} ⦃fl : Float F⦄ (sum_of : List F → F) where
  open fl use {add, mul, div, lt, of_nat}

  -- The two gauges `pnl_realized` and `drawdown`, and the new peak.
  unfoldable pub update_metrics : OutcomeTracker F → F → (F × F) × F
  update_metrics t peak =
      let total = get_total_realized_pnl sum_of t in
      let (drawdown, peak') = calculate_drawdown total peak in ((total, drawdown), peak')

  abbrev average_of : List (ClosedPosition F) → F
  average_of [] = nought
  average_of (p ∷ ps) = div (sum_of (pnls (p ∷ ps))) (of_nat (length (p ∷ ps)))

  abbrev pub get_average_pnl : OutcomeTracker F → F
  get_average_pnl t = average_of t.closed_positions

  abbrev pub get_average_win : OutcomeTracker F → F
  get_average_win t = average_of (get_wins t)

  abbrev pub get_average_loss : OutcomeTracker F → F
  get_average_loss t = average_of (get_losses t)

module _ {F : Type 0} ⦃fl : Float F⦄ where
  open fl use {mul, div, lt, of_nat}

  abbrev rate_of : List (ClosedPosition F) → F
  rate_of [] = nought
  rate_of (p ∷ ps) =
      let wins = keep_if (λ p. is_win p.result) (p ∷ ps) in
      mul (div (of_nat (length wins)) (of_nat (length (p ∷ ps)))) (of_nat 100)

  abbrev pub get_win_rate : OutcomeTracker F → F
  get_win_rate t = rate_of t.closed_positions

  -- `max(positions, key=...)` and `min`: the first of the best.
  abbrev best_from : ClosedPosition F → List (ClosedPosition F) → ClosedPosition F
  best_from b [] = b
  best_from b (p ∷ ps) = best_from (if lt b.pnl p.pnl then p else b) ps

  abbrev worst_from : ClosedPosition F → List (ClosedPosition F) → ClosedPosition F
  worst_from w [] = w
  worst_from w (p ∷ ps) = worst_from (if lt p.pnl w.pnl then p else w) ps

  abbrev best_of : List (ClosedPosition F) → Option (ClosedPosition F)
  best_of [] = none
  best_of (p ∷ ps) = some (best_from p ps)

  abbrev worst_of : List (ClosedPosition F) → Option (ClosedPosition F)
  worst_of [] = none
  worst_of (p ∷ ps) = some (worst_from p ps)

  abbrev pub get_best_trade : OutcomeTracker F → Option (ClosedPosition F)
  get_best_trade t = best_of t.closed_positions

  abbrev pub get_worst_trade : OutcomeTracker F → Option (ClosedPosition F)
  get_worst_trade t = worst_of t.closed_positions

-- What `get_summary` returns.
pub record Summary (F : Type 0) : Type 0 where
  pub total_trades : ℕ
  pub win_rate_pct : F
  pub total_realized_pnl : F
  pub unrealized_pnl : F
  pub average_pnl : F
  pub average_win : F
  pub average_loss : F
  pub best_trade_pnl : Option F
  pub worst_trade_pnl : Option F
  pub drawdown : F
  pub peak_equity : F
  pub current_equity : F

module _ {F : Type 0} where
  abbrev pnl_of : Option (ClosedPosition F) → Option F
  pnl_of none = none
  pnl_of (some p) = some p.pnl

module _ {F : Type 0} ⦃fl : Float F⦄ (sum_of : List F → F) where
  open fl use {add, lt}

  -- A summary moves the peak too, to an equity that has the starting one in it.
  unfoldable pub get_summary : OutcomeTracker F → F → F → F → Summary F × F
  get_summary t starting unrealized peak =
      let realized = get_total_realized_pnl sum_of t in
      let equity = add (add starting realized) unrealized in
      let (drawdown, peak') = calculate_drawdown equity peak in
      (
        record {
          total_trades = get_total_trades t;
          win_rate_pct = get_win_rate t;
          total_realized_pnl = realized;
          unrealized_pnl = unrealized;
          average_pnl = get_average_pnl sum_of t;
          average_win = get_average_win sum_of t;
          average_loss = get_average_loss sum_of t;
          best_trade_pnl = pnl_of (get_best_trade t);
          worst_trade_pnl = pnl_of (get_worst_trade t);
          drawdown = drawdown;
          peak_equity = if lt nought peak' then peak' else equity;
          current_equity = equity;
        },
        peak',
      )
