-- ===== src/PositionManager/Paper/Loop.antt =====
-- `PaperPositionManager.run` of polytrader/position_manager/paper.py: three loops, each of which
-- serves one queue and ends at its first exception, while the others go on.
use polytrader.Prelude.{String, Bool, true, Option, List, [], ◌∷◌, if◌then◌else◌}
use polytrader.Float.{Float}
use polytrader.Effect.{Done, is_ok}
use polytrader.Events.{EventMeta, FillEvent, MarketDataEvent}
use polytrader.Oms.Models.{Order}
use polytrader.PositionManager.Paper.{
  PaperManager, MarketChangeEvent, Step, new_manager, handle_fill,
}
use polytrader.PositionManager.Paper.Market.{handle_market_data, handle_market_change}

-- What arrives: a fill with what the order store has for its order, a quote with what a proposal
-- would be stamped with, or a change of market at a time.
pub data Arrival (F : Type 0) : Type 0 where
  fill : Option (Order F) → FillEvent F → Arrival F
  quote : EventMeta F → MarketDataEvent F → Arrival F
  change : F → MarketChangeEvent → Arrival F

pub record PaperRun (F : Type 0) : Type 0 where
  pub manager : PaperManager F
  pub fills_run : Bool
  pub quotes_run : Bool
  pub changes_run : Bool

module _ {F : Type 0} ⦃fl : Float F⦄ where
  abbrev pub new_run : F → PaperRun F
  new_run starting = record {
    manager = new_manager starting;
    fills_run = true;
    quotes_run = true;
    changes_run = true;
  }

module _ {F : Type 0} ⦃fl : Float F⦄ (sum_of : List F → F) (reason_text : F → F → F → String) where
  abbrev pub call_of : Arrival F → Step F Done
  call_of (fill order f) = handle_fill sum_of order f
  call_of (quote meta m) = handle_market_data sum_of reason_text meta m
  call_of (change time e) = handle_market_change sum_of time e

  abbrev pub is_served : Arrival F → PaperRun F → Bool
  is_served (fill _ _) r = r.fills_run
  is_served (quote _ _) r = r.quotes_run
  is_served (change _ _) r = r.changes_run

  abbrev pub after : Arrival F → Bool → PaperManager F → PaperRun F → PaperRun F
  after (fill _ _) going s r = record r { manager = s; fills_run = going }
  after (quote _ _) going s r = record r { manager = s; quotes_run = going }
  after (change _ _) going s r = record r { manager = s; changes_run = going }

  unfoldable pub process : Arrival F → PaperRun F → PaperRun F
  process a r =
      let (result, s) = call_of a r.manager in
      if is_served a r then after a (is_ok result) s r else r

  unfoldable pub run : List (Arrival F) → PaperRun F → PaperRun F
  run [] r = r
  run (a ∷ later) r = run later (process a r)
