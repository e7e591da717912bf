-- ===== src/Market/Composite.antt =====
-- `CompositeMarketDataStore` of polytrader/store.py. A store is its state with `IMarketDataStore`;
-- it may lack `flush` and `close`. What a secondary store raises is logged and goes no further.
use polytrader.Prelude.{String, ◌≡◌, refl, ap, Option, none, some, List, [], ◌∷◌}
use polytrader.Effect.{ok, err, Action, Done, pure}
use polytrader.Events.{Outcome, MarketDataEvent}
use polytrader.Market.Store.{Key}

pub record IMarketDataStore (E F S : Type 0) : Type 0 where
  pub add : MarketDataEvent F → Action E S Done
  pub latest : String → Outcome → S → Option (MarketDataEvent F)
  pub history : String → Outcome → S → List (MarketDataEvent F)
  pub get_all_markets : S → List Key
  pub flush : Option (Action E S Done)
  pub close : Option (Action E S Done)

pub record CompositeStore (P S : Type 0) : Type 0 where
  pub primary : P
  pub secondary : List S

module _ {E F P S : Type 0} (main : IMarketDataStore E F P) (other : IMarketDataStore E F S) where
  -- One call on each secondary store, whatever the others raised.
  abbrev pub on_each : Action E S Done → List S → List S
  on_each call [] = []
  on_each call (s ∷ ss) = (call s).1 ∷ on_each call ss

  -- The call on the primary store, and then, unless it raised, on the others.
  abbrev pub on_all : Action E P Done → Action E S Done → Action E (CompositeStore P S) Done
  on_all first rest c =
      let (r, p) = first c.primary in
      (
        r,
        record {
          primary = p;
          secondary = elim r [ ok _ ↦ on_each rest c.secondary | err _ ↦ c.secondary ];
        },
      )

  -- `hasattr(store, "flush")`
  abbrev if_any : {T : Type 0} → Option (Action E T Done) → Action E T Done
  if_any none = pure tt
  if_any (some call) = call

  unfoldable pub composite_add : MarketDataEvent F → Action E (CompositeStore P S) Done
  composite_add e = on_all (main.add e) (other.add e)

  abbrev composite_latest : String → Outcome → CompositeStore P S → Option (MarketDataEvent F)
  composite_latest slug outcome c = main.latest slug outcome c.primary

  unfoldable pub composite_history :
      String → Outcome → CompositeStore P S → List (MarketDataEvent F)
  composite_history slug outcome c = main.history slug outcome c.primary

  abbrev composite_markets : CompositeStore P S → List Key
  composite_markets c = main.get_all_markets c.primary

  abbrev composite_flush : Action E (CompositeStore P S) Done
  composite_flush = on_all (if_any main.flush) (if_any other.flush)

  abbrev composite_close : Action E (CompositeStore P S) Done
  composite_close = on_all (if_any main.close) (if_any other.close)

  abbrev composite_add_all : List (MarketDataEvent F) → CompositeStore P S → CompositeStore P S
  composite_add_all [] c = c
  composite_add_all (e ∷ es) c = composite_add_all es (composite_add e c).1

  abbrev main_add_all : List (MarketDataEvent F) → P → P
  main_add_all [] p = p
  main_add_all (e ∷ es) p = main_add_all es (main.add e p).1

  primary-add_all :
      (es : List (MarketDataEvent F)) (c : CompositeStore P S)
      → (composite_add_all es c).primary ≡ main_add_all es c.primary
  unfolding composite_add
  primary-add_all [] c = refl
  primary-add_all (e ∷ es) c = primary-add_all es (composite_add e c).1

  -- After any events, the history is that of the primary store alone, whatever the secondary stores
  -- are and raise.
  history-composite :
      (es : List (MarketDataEvent F)) (c : CompositeStore P S) (slug : String) (outcome : Outcome)
      → composite_history slug outcome (composite_add_all es c)
        ≡ main.history slug outcome (main_add_all es c.primary)
  unfolding composite_history
  history-composite es c slug outcome = ap (main.history slug outcome) (primary-add_all es c)
