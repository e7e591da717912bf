-- ===== src/Risk/Checker/Log.antt =====
-- The published notices of polytrader/risk/engine.py `RiskChecker`: how many approvals, and of
-- which trades.
use polytrader.Prelude.{
  ℕ, suc, ◌+◌, ◌≡◌, refl, ap, inl, inr, true, false, List, [], ◌∷◌, ◌++◌, string_eq, pair_eq, arith,
  Bool-cases,
}
use polytrader.Float.{Float}
use polytrader.Events.{outcome_eq, is_buy, OrderIntentEvent}
use polytrader.Risk.Models.{RiskResult, Trade}
use polytrader.Risk.Policies.{trade_of}
use polytrader.Risk.Checker.{Notice, risk_check, approved}

module _ {F : Type 0} where
  -- How many intents were approved.
  abbrev pub approvals : List (Notice F) → ℕ
  approvals [] = 0
  approvals (risk_check _ _ ∷ ns) = approvals ns
  approvals (approved _ ∷ ns) = suc (approvals ns)

  pub approvals-checked :
      (ns : List (Notice F)) (i : OrderIntentEvent F) (r : RiskResult F)
      → approvals (ns ++ (risk_check i r ∷ [])) ≡ approvals ns
  approvals-checked [] i r = refl
  approvals-checked (risk_check _ _ ∷ ns) i r = approvals-checked ns i r
  approvals-checked (approved _ ∷ ns) i r = ap (λ k. suc k) (approvals-checked ns i r)

  pub approvals-approved :
      (ns : List (Notice F)) (i : OrderIntentEvent F)
      → approvals (ns ++ (approved i ∷ [])) ≡ approvals ns + 1
  approvals-approved [] i = refl
  approvals-approved (risk_check _ _ ∷ ns) i = approvals-approved ns i
  approvals-approved (approved _ ∷ ns) i = omega (arith, approvals-approved ns i)

module _ {F : Type 0} ⦃fl : Float F⦄ where
  -- The trades of the approved BUY intents, in order.
  abbrev pub bought : List (Notice F) → List Trade
  bought [] = []
  bought (risk_check _ _ ∷ ns) = bought ns
  bought (approved i ∷ ns) = elim (is_buy i.side) [
    | true ↦ trade_of i ∷ bought ns
    | false ↦ bought ns
  ]

  pub bought-checked :
      (ns : List (Notice F)) (i : OrderIntentEvent F) (r : RiskResult F)
      → bought (ns ++ (risk_check i r ∷ [])) ≡ bought ns
  bought-checked [] i r = refl
  bought-checked (risk_check _ _ ∷ ns) i r = bought-checked ns i r
  bought-checked (approved j ∷ ns) i r = ground (arith, bought-checked ns i r)

  pub bought-bought :
      (ns : List (Notice F)) (i : OrderIntentEvent F)
      → is_buy i.side ≡ true
      → bought (ns ++ (approved i ∷ [])) ≡ bought ns ++ (trade_of i ∷ [])
  bought-bought [] i h = rw (h, bought) refl
  bought-bought (risk_check _ _ ∷ ns) i h = bought-bought ns i h
  bought-bought (approved j ∷ ns) i h = elim (Bool-cases (is_buy j.side)) [
    | inl buys ↦ rw (buys, bought) (ap (λ ts. trade_of j ∷ ts) (bought-bought ns i h))
    | inr sells ↦ rw (sells, bought) (bought-bought ns i h)
  ]

  pub bought-sold :
      (ns : List (Notice F)) (i : OrderIntentEvent F)
      → is_buy i.side ≡ false
      → bought (ns ++ (approved i ∷ [])) ≡ bought ns
  bought-sold [] i h = rw (h, bought) refl
  bought-sold (risk_check _ _ ∷ ns) i h = bought-sold ns i h
  bought-sold (approved j ∷ ns) i h = elim (Bool-cases (is_buy j.side)) [
    | inl buys ↦ rw (buys, bought) (ap (λ ts. trade_of j ∷ ts) (bought-sold ns i h))
    | inr sells ↦ rw (sells, bought) (bought-sold ns i h)
  ]
