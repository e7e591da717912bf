-- ===== src/PositionManager/Paper/Settlement.antt =====
-- polytrader/position_manager/paper.py: at which prices `_handle_market_change` settles a market in
-- which both outcomes are held.
use polytrader.Prelude.{
  ◌≡◌, refl, String, true, none, some, List, [], ◌∷◌, ◌++◌, is_truthy, string_eq, pair_eq, ==_refl,
  ◌∙◌, sym, subst, arith,
}
use mathlib.Core.List.{append_assoc}
use polytrader.Float.{Float, one, ratio}
use polytrader.Dict.{Dict, lookup, erase, lookup-erase}
use polytrader.Effect.{ok, pure, modify, ◌>>◌, bind_ok, Keeps, >>=_keeps, >>-Keeps, modify-Keeps}
use polytrader.Events.{up, down, outcome_eq}
use polytrader.Market.Store.{Key}
use polytrader.Portfolio.{Position}
use polytrader.PositionManager.Outcomes.{Closing, from_position_close}
use polytrader.PositionManager.PerStrategy.{closing_of}
use polytrader.PositionManager.Paper.{
  PaperManager, MarketChangeEvent, StrategyClosedTradeEvent, trade_event, is_valid_trade,
  publish_trade, trade,
}
use polytrader.PositionManager.Paper.Keys.{announced, publish_trade_keeps}
use polytrader.PositionManager.Paper.Market.{
  determine_settlement_price, positions_in, opener_of, drop_settled, record_settlement,
  settle_position, settle_all, finish_settlement, handle_market_change,
}

module _ {F : Type 0} ⦃fl : Float F⦄ where
  -- The two prices decide, and UP wins.
  up_settled :
      (slug : String) (s : PaperManager F) (u d : F)
      → lookup (slug, up) s.latest_prices ≡ some u
      → lookup (slug, down) s.latest_prices ≡ some d
      → fl.lt d u ≡ true
      → determine_settlement_price (slug, up) s ≡ one
  unfolding determine_settlement_price
  up_settled slug s u d hu hd h = rw (hu, hd, h) refl

  -- Without the price of UP, that of DOWN decides alone.
  down_settled :
      (slug : String) (s : PaperManager F) (d : F)
      → lookup (slug, up) s.latest_prices ≡ none
      → lookup (slug, down) s.latest_prices ≡ some d
      → fl.lt (ratio 1 2) d ≡ true
      → determine_settlement_price (slug, down) s ≡ one
  unfolding determine_settlement_price
  down_settled slug s d hu hd h = rw (hu, hd, h) refl

  price_gone : (key : Key) (d : Dict Key F) → lookup key (erase key d) ≡ none
  price_gone key d = lookup-erase key key d ∙ rw (==_refl {A = Key} key) refl

  down_kept :
      (slug : String) (d : Dict Key F)
      → lookup (slug, down) (erase (slug, up) d) ≡ lookup (slug, down) d
  down_kept slug d = lookup-erase (slug, up) (slug, down) d ∙ ground arith

module _ {F : Type 0} ⦃fl : Float F⦄ (sum_of : List F → F) (slug : String) (time : F) (id : String)
    (s : PaperManager F) (p q : Position F) (u d : F)
    (hu : lookup (slug, up) s.latest_prices ≡ some u)
    (hd : lookup (slug, down) s.latest_prices ≡ some d) (higher : fl.lt d u ≡ true)
    (high : fl.lt (ratio 1 2) d ≡ true) where
  abbrev up_closing : Closing F
  up_closing = closing_of (slug, up) p one time

  abbrev down_closing : Closing F
  down_closing = closing_of (slug, down) q one time

  abbrev up_event : StrategyClosedTradeEvent F
  up_event =
      trade_event sum_of (opener_of sum_of time id (slug, up) s) (from_position_close up_closing) ""
        "" id

  -- What the manager is after the first of the two.
  abbrev half_settled : PaperManager F
  half_settled =
      drop_settled sum_of time id (slug, up)
        (announced (trade up_event) (record_settlement sum_of time id (slug, up) up_closing s))

  first_settled :
      is_valid_trade up_event ≡ true
      → settle_position sum_of time id (slug, up) p s ≡ (ok tt, half_settled)
  unfolding settle_position publish_trade
  first_settled v = rw (up_settled slug s u d hu hd higher, v) refl

  abbrev BothWin : PaperManager F → Type 0
  BothWin t =
      t.outcomes.closed_positions
      ≡ s.outcomes.closed_positions
        ++ (from_position_close up_closing ∷ from_position_close down_closing ∷ [])

  second_price : determine_settlement_price (slug, down) half_settled ≡ one
  second_price =
      down_settled slug half_settled d (price_gone (slug, up) s.latest_prices)
        (down_kept slug s.latest_prices ∙ hd) high

  trade-BothWin : (e : StrategyClosedTradeEvent F) → Keeps BothWin (publish_trade e)
  trade-BothWin e = record { keeps = λ t h. publish_trade_keeps BothWin t h e h }

  abbrev down_event : StrategyClosedTradeEvent F
  down_event =
      trade_event sum_of (opener_of sum_of time id (slug, down) half_settled)
        (from_position_close down_closing) "" "" id

  second_settled : BothWin (settle_position sum_of time id (slug, down) q half_settled).1
  unfolding settle_position
  second_settled = rw second_price (
      (>>-Keeps (trade-BothWin down_event)
          (modify-Keeps {f = drop_settled sum_of time id (slug, down)} (λ t h. h))).keeps
        _
        (append_assoc s.outcomes.closed_positions (from_position_close up_closing ∷ [])
          (from_position_close down_closing ∷ [])))

  both_settled :
      is_valid_trade up_event ≡ true
      → BothWin (settle_all sum_of time id (((slug, up), p) ∷ ((slug, down), q) ∷ []) s).1
  unfolding settle_all
  both_settled v =
      let last = settle_position sum_of time id (slug, down) q >> pure tt in
      subst (λ r. BothWin r.1)
        (sym
          (bind_ok (settle_position sum_of time id (slug, up) p) (λ _. last) s (first_settled v)))
        (>>=_keeps BothWin (settle_position sum_of time id (slug, down) q) (λ _. pure tt)
          half_settled second_settled (λ _ _. second_settled))

  -- The market's two positions, UP first, with the price of UP above that of DOWN and that of DOWN
  -- above a half. (The event of the first closing is valid.) When the market changes, both outcomes
  -- are closed at 1, though only one of them can win.
  pub both_win :
      (event : MarketChangeEvent)
      → event.old_market ≡ some slug
      → event.correlation_id ≡ id
      → is_truthy slug ≡ true
      → positions_in sum_of slug s ≡ ((slug, up), p) ∷ ((slug, down), q) ∷ []
      → is_valid_trade up_event ≡ true
      → (handle_market_change sum_of time event s).1.outcomes.closed_positions
        ≡ s.outcomes.closed_positions
          ++ (from_position_close up_closing ∷ from_position_close down_closing ∷ [])
  unfolding handle_market_change
  both_win event old same truthy at v =
      rw (old, same, truthy, at)
        (>>=_keeps BothWin (settle_all sum_of time id _) (λ _. modify (finish_settlement sum_of)) s
          (both_settled v) (λ _ _. both_settled v))
