-- ===== src/Oms/Idempotency/Fields.antt =====
-- The text that polytrader/oms/idempotency.py hashes determines the fields that it joins.
use Prim.Native.Char.{Char, code}
use Prim.Native.String.{◌++◌}
use Prim.Native.String.append
use text.Mathlib.TextLemmas.{append_cancel_left}
use polytrader.Prelude.{
  String, ◌≡◌, refl, sym, ◌∙◌, ap, Bool, true, not, ◌&&◌, leb, if◌then◌else◌, arith,
}
use polytrader.Events.{OrderIntentEvent, Outcome, up, down, Side, buy, sell}
use polytrader.Oms.Idempotency.{Printing, outcome_text, side_text, with_colon, intent_text}

abbrev is_colon : Char → Bool
is_colon c = leb 58 (code c) && leb (code c) 58

-- The text holds no colon.
abbrev pub has_no_colon : String → Bool
has_no_colon String.[] = true
has_no_colon (String.◌∷◌ c s) = not (is_colon c) && has_no_colon s

unfoldable before_colon : String → String
before_colon String.[] = String.[]
before_colon (String.◌∷◌ c s) =
    let rest = before_colon s in if is_colon c then String.[] else String.◌∷◌ c rest

before-with_colon : (a x : String) → has_no_colon a ≡ true → before_colon (with_colon a x) ≡ a
unfolding before_colon
before-with_colon String.[] x h =
    ap before_colon (append.nil (":" ++ x) ∙ append.cons ":" String.[] x)
before-with_colon (String.◌∷◌ c s) x h =
    rw (append.cons c s (":" ++ x)) (ground (arith, before-with_colon s x (ground (arith, h)), h))

-- The first colon ends the first field.
with_colon-split :
    (a b x y : String)
    → has_no_colon a ≡ true
    → has_no_colon b ≡ true
    → with_colon a x ≡ with_colon b y
    → (a ≡ b) × (x ≡ y)
with_colon-split a b x y h k e =
    let same : a ≡ b =
      sym (before-with_colon a x h) ∙ ap before_colon e ∙ before-with_colon b y k in
    let tails : a ++ (":" ++ x) ≡ a ++ (":" ++ y) = e ∙ ap (λ c. with_colon c y) (sym same) in
    (same, append_cancel_left ":" x y (append_cancel_left a (":" ++ x) (":" ++ y) tails))

outcome_text-clear : (o : Outcome) → has_no_colon (outcome_text o) ≡ true
outcome_text-clear up = refl
outcome_text-clear down = refl

side_text-clear : (s : Side) → has_no_colon (side_text s) ≡ true
side_text-clear buy = refl
side_text-clear sell = refl

outcome_text-eq : (o p : Outcome) → outcome_text o ≡ outcome_text p → o ≡ p
outcome_text-eq up up h = refl
outcome_text-eq up down h = cc h
outcome_text-eq down up h = cc h
outcome_text-eq down down h = refl

side_text-eq : (s t : Side) → side_text s ≡ side_text t → s ≡ t
side_text-eq buy buy h = refl
side_text-eq buy sell h = cc h
side_text-eq sell buy h = cc h
side_text-eq sell sell h = refl

module _ {F : Type 0} (printing : Printing F) where
  open printing use {show}

  -- No colon is in the texts before the last one.
  pub record IsClear (i : OrderIntentEvent F) : Type 0 where
    pub strategy : has_no_colon i.strategy_id ≡ true
    pub market : has_no_colon i.market_slug ≡ true
    pub target : has_no_colon (show i.target_price) ≡ true
    pub limit : has_no_colon (show i.limit_price) ≡ true

  -- The intents agree in what they trade; numbers agree as they are printed.
  pub record SameTrade (i j : OrderIntentEvent F) : Type 0 where
    pub strategy : i.strategy_id ≡ j.strategy_id
    pub market : i.market_slug ≡ j.market_slug
    pub outcome : i.outcome ≡ j.outcome
    pub side : i.side ≡ j.side
    pub target : show i.target_price ≡ show j.target_price
    pub limit : show i.limit_price ≡ show j.limit_price
    pub size : show i.size ≡ show j.size

  pub intent_text-SameTrade :
      (i j : OrderIntentEvent F)
      → IsClear i
      → IsClear j
      → intent_text printing i ≡ intent_text printing j
      → SameTrade i j
  intent_text-SameTrade i j p q e =
      let (strategy, e) = with_colon-split _ _ _ _ p.strategy q.strategy e in
      let (market, e) = with_colon-split _ _ _ _ p.market q.market e in
      let (outcome, e) =
        with_colon-split _ _ _ _ (outcome_text-clear i.outcome) (outcome_text-clear j.outcome) e in
      let (side, e) =
        with_colon-split _ _ _ _ (side_text-clear i.side) (side_text-clear j.side) e in
      let (target, e) = with_colon-split _ _ _ _ p.target q.target e in
      let (limit, size) = with_colon-split _ _ _ _ p.limit q.limit e in
      record {
        strategy = strategy;
        market = market;
        outcome = outcome_text-eq i.outcome j.outcome outcome;
        side = side_text-eq i.side j.side side;
        target = target;
        limit = limit;
        size = size;
      }

  pub SameTrade-intent_text :
      (i j : OrderIntentEvent F) → SameTrade i j → intent_text printing i ≡ intent_text printing j
  SameTrade-intent_text i j t =
      let strategy = t.strategy in
      let market = t.market in
      let outcome = t.outcome in
      let side = t.side in
      let target = t.target in
      let limit = t.limit in
      let size = t.size in rw (strategy, market, outcome, side, target, limit, size) refl
