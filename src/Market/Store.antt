-- ===== src/Market/Store.antt =====
-- polytrader/store.py: `MemoryMarketDataStore` and `PatternKeyedMarketDataStore`, which differ in
-- the key of a slug (`key_of`: the slug itself, or its pattern), `DualViewMarketDataStore`
-- and `resolve_store_view`.
use Prim.Native.Char.{Char}
use polytrader.Prelude.{
  ℕ, String, Bool, true, false, Option, none, some, List, [], ◌∷◌, ◌++◌, length, ltb, map,
  if◌then◌else◌, string_eq, pair_eq,
}
use polytrader.Dict.{Dict, lookup, insert}
use polytrader.Events.{Outcome, MarketDataEvent, outcome_eq}
use polytrader.Market.Pattern.{slug_to_pattern}

-- A `deque` keeps its newest items: an append to a full one drops the oldest.
unfoldable pub drop_first {ℓ} : {A : Type ℓ} → List A → List A
drop_first [] = []
drop_first (x ∷ xs) = xs

unfoldable pub push {ℓ} : {A : Type ℓ} → ℕ → List A → A → List A
push maxlen d x = if ltb (length d) maxlen then d ++ (x ∷ []) else drop_first (d ++ (x ∷ []))

-- `d[-1] if d else None`
unfoldable pub last {ℓ} : {A : Type ℓ} → List A → Option A
last [] = none
last (x ∷ []) = some x
last (x ∷ y ∷ ys) = last (y ∷ ys)

abbrev pub Key : Type 0
Key = String × Outcome

pub record MarketStore (F : Type 0) : Type 0 where
  pub window : ℕ
  pub events : Dict Key (List (MarketDataEvent F))

-- `self._events.get(key, [])`, also what `setdefault` finds.
abbrev pub found {ℓ} : {A : Type ℓ} → Option (List A) → List A
found none = []
found (some d) = d

-- The slug is its own key.
abbrev pub same : String → String
same slug = slug

module _ {F : Type 0} where
  abbrev pub empty_market_store : ℕ → MarketStore F
  empty_market_store window = record { window = window; events = [] }

  module _ (key_of : String → String) where
    abbrev pub event_key : MarketDataEvent F → Key
    event_key e = (key_of e.market_slug, e.outcome)

    unfoldable pub add : MarketDataEvent F → MarketStore F → MarketStore F
    add e s =
        let key = event_key e in
        record s { events = insert key (push s.window (found (lookup key s.events)) e) s.events }

    unfoldable pub history : String → Outcome → MarketStore F → List (MarketDataEvent F)
    history slug outcome s = found (lookup (key_of slug, outcome) s.events)

    unfoldable pub latest : String → Outcome → MarketStore F → Option (MarketDataEvent F)
    latest slug outcome s = elim (lookup (key_of slug, outcome) s.events) [
      | none ↦ none
      | some d ↦ last d
    ]

  abbrev pub get_all_markets : MarketStore F → List Key
  get_all_markets s = map (λ p. p.0) s.events

-- `DualViewMarketDataStore`
pub record DualStore (F : Type 0) : Type 0 where
  pub slug_store : MarketStore F
  pub pattern_store : MarketStore F

module _ {F : Type 0} where
  abbrev pub empty_dual : ℕ → DualStore F
  empty_dual window = record {
    slug_store = empty_market_store window;
    pattern_store = empty_market_store window;
  }

  unfoldable pub add_dual : (Char → Bool) → MarketDataEvent F → DualStore F → DualStore F
  add_dual is_decimal e s = record {
    slug_store = add same e s.slug_store;
    pattern_store = add (slug_to_pattern is_decimal) e s.pattern_store;
  }

  -- `resolve_store_view` of a dual store, then `history` of the view.
  unfoldable pub view_history :
      (Char → Bool) → Bool → String → Outcome → DualStore F → List (MarketDataEvent F)
  view_history is_decimal use_pattern_history slug outcome s = elim use_pattern_history [
    | true ↦ history (slug_to_pattern is_decimal) slug outcome s.pattern_store
    | false ↦ history same slug outcome s.slug_store
  ]
