-- ===== src/Bus/EventStore/Read.antt =====
-- `read_stream`, `replay` and `clear` of `MemoryEventStore` (polytrader/events/store.py). A filter
-- that is `None` or, for a time or an id, false (0.0, "") does not count.
use polytrader.Prelude.{
  String, Bool, true, not, ◌&&◌, ◌||◌, Option, none, some, List, [], ◌∷◌, keep_if, is_truthy,
  text_eq, if◌then◌else◌,
}
use polytrader.Float.{Float, nought}
use polytrader.Bus.EventStore.{MemoryEventStore}

pub record Filter (F M : Type 0) : Type 0 where
  pub event_type : Option (M → Bool)
  pub from_ts : Option F
  pub to_ts : Option F
  pub correlation_id : Option String

module _ {F M : Type 0} ⦃fl : Float F⦄ (ts_of : M → F) (correlation_of : M → String) where
  open fl use {lt, eq}

  abbrev is_of : Option (M → Bool) → M → Bool
  is_of none event = true
  is_of (some test) event = test event

  abbrev is_after : Option F → M → Bool
  is_after none event = true
  is_after (some t) event = eq t nought || not (lt (ts_of event) t)

  abbrev is_before : Option F → M → Bool
  is_before none event = true
  is_before (some t) event = eq t nought || not (lt t (ts_of event))

  abbrev is_correlated : Option String → M → Bool
  is_correlated none event = true
  is_correlated (some id) event = not (is_truthy id) || text_eq (correlation_of event) id

  abbrev passes : Filter F M → M → Bool
  passes f event =
      is_of f.event_type event
      && (is_after f.from_ts event
          && (is_before f.to_ts event && is_correlated f.correlation_id event))

  abbrev read_stream : Filter F M → MemoryEventStore M → List M
  read_stream f s = keep_if (passes f) s.events

  -- `sorted(..., key=ts_mono)` keeps the order of equal times.
  abbrev place_by_time : M → List M → List M
  place_by_time x [] = x ∷ []
  place_by_time x (y ∷ ys) =
      let rest = place_by_time x ys in if lt (ts_of y) (ts_of x) then y ∷ rest else x ∷ y ∷ ys

  abbrev sort_by_ts : List M → List M
  sort_by_ts [] = []
  sort_by_ts (x ∷ xs) = place_by_time x (sort_by_ts xs)

  abbrev replay_events : Option (M → Bool) → Option F → Option F → MemoryEventStore M → List M
  replay_events event_type from_ts to_ts s = sort_by_ts (
      read_stream
        (record {
          event_type = event_type;
          from_ts = from_ts;
          to_ts = to_ts;
          correlation_id = none;
        })
        s)

abbrev clear : {M : Type 0} → MemoryEventStore M → MemoryEventStore M
clear s = record s { events = []; event_ids = [] }
