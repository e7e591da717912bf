-- ===== src/Portfolio/Proposals.antt =====
-- Which targets and proposals polytrader/portfolio/service.py publishes for a signal.
use polytrader.Prelude.{
  ◌≡◌, ◌≤◌, ℕ, Bool, not, keep_if, refl, true, false, some, List, [], ◌∷◌, ◌++◌, All, length, arith,
}
use mathlib.Core.List.{append_assoc}
use polytrader.Float.{Float, IsOrdered, nought, one}
use polytrader.Effect.{ok}
use polytrader.Events.{EventMeta, MarketDataEvent, buy, mid, is_price}
use polytrader.Portfolio.{
  SignalEvent, Target, Texts, Portfolio, PortfolioMessage, target, proposal, favoured, target_of,
  is_weak, convert_signal_to_target, is_valid_intent, target_price_at, intent_of,
  convert_target_to_intent, get_current_market_data, size_at, is_valid_target, target_event,
  process_signal,
}

module _ {F : Type 0} ⦃fl : Float F⦄ (texts : Texts F) (metas : EventMeta F × EventMeta F)
    (signal : SignalEvent F) where
  open fl use {lt, le}

  abbrev aim : Portfolio F → Target F
  aim s = target_of texts signal s.fixed_size_usd

  -- A target follows the signal. A proposal buys the outcome that the signal favours, at the best
  -- ask of the newest quote of the signal's own outcome, with prices above 0 and at most 1 and a
  -- positive size.
  abbrev pub IsSound : Portfolio F → PortfolioMessage F → Type 0
  IsSound s (target e) =
      (is_weak texts signal ≡ false)
      × (e.market_slug ≡ signal.market_slug)
      × (e.outcome ≡ favoured texts signal)
      × (e.target_exposure ≡ s.fixed_size_usd)
  IsSound s (proposal i) =
      (m : MarketDataEvent F) × (get_current_market_data texts signal s ≡ some m)
      × (i.market_slug ≡ signal.market_slug)
      × (i.outcome ≡ favoured texts signal)
      × (i.side ≡ buy)
      × (i.limit_price ≡ m.best_ask)
      × (is_valid_intent texts i ≡ true)

  abbrev is_target : PortfolioMessage F → Bool
  is_target (target _) = true
  is_target (proposal _) = false

  abbrev pub targets : List (PortfolioMessage F) → ℕ
  targets ms = length (keep_if is_target ms)

  abbrev pub proposals : List (PortfolioMessage F) → ℕ
  proposals ms = length (keep_if (λ msg. not (is_target msg)) ms)

  abbrev Extends : Portfolio F → List (PortfolioMessage F) → Portfolio F → Type 0
  Extends s before t =
      (new : List (PortfolioMessage F)) × (t.published ≡ before ++ new)
      × All (IsSound s) new
      × (targets new ≡ 0)
      × (proposals new ≤ 1)

  convert_aim :
      (s : Portfolio F)
      → is_weak texts signal ≡ false
      → lt s.fixed_size_usd nought ≡ false
      → convert_signal_to_target texts signal s.fixed_size_usd ≡ ok (some (aim s))
  unfolding convert_signal_to_target
  convert_aim s h k = rw (h, k) refl

  -- A value that is not NaN.
  abbrev pub IsNumber : F → Type 0
  IsNumber x = le x x ≡ true

  -- A signal with a positive edge and confidence, a fixed size of at least 0, a newest quote whose
  -- best ask is above 0 and at most 1, and a size that the position leaves open: exactly a target
  -- and a proposal of that size are published, whatever the middle price of the quote.
  pub process_signal-Proposes :
      IsOrdered F
      → (s : Portfolio F) (m : MarketDataEvent F) → is_weak texts signal ≡ false
      → is_valid_target texts (aim s) ≡ true
      → get_current_market_data texts signal s ≡ some m
      → lt nought (size_at texts metas signal (aim s) s) ≡ true
      → lt nought m.best_ask ≡ true
      → le m.best_ask one ≡ true
      → IsNumber nought
        × IsNumber one
        × IsNumber (mid m)
        × IsNumber m.best_ask
        × IsNumber (size_at texts metas signal (aim s) s)
      → let size = size_at texts metas signal (aim s) s in
        (process_signal texts metas signal s).published
        ≡ s.published
          ++ (target_event texts metas.0 (aim s)
              ∷ proposal (intent_of texts metas.1 (aim s) m signal size)
              ∷ [])
  unfolding process_signal convert_target_to_intent
  process_signal-Proposes o s m h k q open_size ask ask_one (n0, n1, nm, na, ns) =
      let size = size_at texts metas signal (aim s) s in
      let not_negative : lt s.fixed_size_usd nought ≡ false =
        ground
          (arith, o.lt_of_le_lt nought s.fixed_size_usd nought k, o.lt_asymm nought nought, k) in
      let size_given : le size nought ≡ false =
        ground (arith, o.not_lt size nought ns n0, open_size) in
      let ask_given : le m.best_ask nought ≡ false =
        ground (arith, o.not_lt m.best_ask nought na n0, ask) in
      let target_valid : is_price (target_price_at texts m) ≡ true =
        ground (arith, o.not_lt (mid m) nought nm n0, o.not_lt (mid m) one nm n1, ask, ask_one) in
      let valid : is_valid_intent texts (intent_of texts metas.1 (aim s) m signal size) ≡ true =
        ground (arith, target_valid, ask, ask_one, open_size) in
      rw (process_signal, convert_aim s h not_negative, k, q, size_given, ask_given, valid)
        (append_assoc s.published (target_event texts metas.0 (aim s) ∷ [])
          (proposal (intent_of texts metas.1 (aim s) m signal size) ∷ []))
