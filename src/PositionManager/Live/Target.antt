-- ===== src/PositionManager/Live/Target.antt =====
-- How often polytrader/position_manager/__init__.py proposes the sale of one position.
use polytrader.Prelude.{
  ◌≡◌, refl, sym, ap, ◌∙◌, String, true, some, List, [], ◌∷◌, ◌++◌, All, map, string_eq, pair_eq,
}
use mathlib.Core.List.{append-nil, append_assoc}
use polytrader.Float.{Float}
use polytrader.Dict.{lookup}
use polytrader.Events.{outcome_eq, EventMeta, MarketDataEvent, mid}
use polytrader.Market.Store.{Key}
use polytrader.Portfolio.{Position}
use polytrader.PositionManager.Live.{LiveManager, sale, is_valid_sale, check_target_prices}

module _ {F : Type 0} ⦃fl : Float F⦄ (reason_text : F → F → F → String) where
  -- A quote, and what a proposal would be stamped with.
  abbrev pub Quote : Type 0
  Quote = EventMeta F × MarketDataEvent F

  -- The loop of `run` catches what a quote raises.
  abbrev pub check_all : List Quote → LiveManager F → LiveManager F
  check_all [] s = s
  check_all ((meta, m) ∷ qs) s = check_all qs (check_target_prices reason_text meta m s).1

  abbrev pub IsAtTarget : Key → Position F → Quote → Type 0
  IsAtTarget key p (meta, m) =
      ((m.market_slug, m.outcome) ≡ key)
      × (fl.le p.target_price (mid m) ≡ true)
      × (is_valid_sale reason_text meta (sale reason_text meta m p) ≡ true)

  proposes :
      (key : Key) (p : Position F) (meta : EventMeta F) (m : MarketDataEvent F) (s : LiveManager F)
      → lookup key s.positions ≡ some p
      → IsAtTarget key p (meta, m)
      → (check_target_prices reason_text meta m s).1
        ≡ record s { published = s.published ++ (sale reason_text meta m p ∷ []) }
  unfolding check_target_prices
  proposes key p meta m s at (same, reached, valid) = rw (same, at, reached, valid) refl

  -- A position whose target is reached by every one of a sequence of quotes (and for which each
  -- proposal is valid) is proposed for sale at every one of them: `_positions` does not remember
  -- that a sale was proposed.
  pub sales-Repeated :
      (key : Key) (p : Position F) (qs : List Quote) (s : LiveManager F)
      → lookup key s.positions ≡ some p
      → All (IsAtTarget key p) qs
      → (check_all qs s).published ≡ s.published ++ map (λ q. sale reason_text q.0 q.1 p) qs
  sales-Repeated key p [] s at reached = sym (append-nil s.published)
  sales-Repeated key p ((meta, m) ∷ qs) s at (now, later) =
      ap (λ t. (check_all qs t).published) (proposes key p meta m s at now)
      ∙ (sales-Repeated key p qs
            (record s { published = s.published ++ (sale reason_text meta m p ∷ []) }) at later
          ∙ append_assoc s.published (sale reason_text meta m p ∷ [])
              (map (λ q. sale reason_text q.0 q.1 p) qs))
