-- ===== src/PositionManager/Paper/Pending.antt =====
-- polytrader/position_manager/paper.py proposes the sale of a position once: `_sell_pending` holds
-- its key until it is closed. What each call keeps of the count.
use polytrader.Prelude.{
  ◌≡◌, ◌≤◌, ◌+◌, ℕ, refl, String, Bool, true, false, Option, none, some, List, [], ◌∷◌, ◌++◌, ap,
  sym, subst, ◌∙◌, discard_item, eq_of_==, ==_refl, ◌==◌, inl, inr, Bool-cases, Option-cases,
  member, member-discard_item, is_truthy, string_eq, pair_eq, if◌then◌else◌, arith,
}
use polytrader.Float.{Float, nought}
use polytrader.Dict.{lookup}
use polytrader.Effect.{
  Result, ok, err, Done, Keeps, >>-Keeps, modify, modify-Keeps, pure-Keeps, >>=_keeps,
}
use polytrader.Events.{outcome_eq, Side, buy, sell, FillEvent}
use polytrader.Market.Store.{Key}
use polytrader.Oms.Models.{Order}
use polytrader.Portfolio.{Position, Positions}
use polytrader.PositionManager.Outcomes.{ClosedPosition}
use polytrader.PositionManager.Paper.{
  PaperManager, PaperMessage, position, pnl, trade, proposal, UpdateType, closed,
  PositionUpdatedEvent, StrategyClosedTradeEvent, UpdateReason, position_update, publish_update,
  publish_trade, emit_pnl_event, handle_buy_fill, handle_sell_fill, close_position, sold_position,
  drop_position, record_outcome, is_valid_update, pnl_event, publish_closed, track_sale,
  fill_of_order, handle_fill, key_of,
}
use polytrader.PositionManager.Paper.Market.{
  drop_settled, finish_settlement, settle_position, settle_all, settle_market, leave_market,
  positions_in,
}
use polytrader.PositionManager.Paper.Keys.{announced, publish_update_keeps, publish_trade_keeps}

abbrev pub one_if : Bool → ℕ
one_if b = if b then 1 else 0

pub one_if-le : (b : Bool) → one_if b ≤ 1
one_if-le true = omega arith
one_if-le false = omega arith

abbrev pub count {ℓ} : {A : Type ℓ} → (A → Bool) → List A → ℕ
count p [] = 0
count p (x ∷ xs) = one_if (p x) + count p xs

pub count-append {ℓ} :
    {A : Type ℓ} (p : A → Bool) (xs : List A) (x : A)
    → count p (xs ++ (x ∷ [])) ≡ count p xs + one_if (p x)
count-append p [] x = ground arith
count-append p (y ∷ ys) x = ground (arith, count-append p ys x)

refused :
    {a : Done} {text : String} {A : Type 0} → ◌≡◌ {A = Result String Done} (err text) (ok a) → A
refused h = absurd (cc h)

abbrev pub is_closed : UpdateType → Bool
is_closed closed = true
is_closed _ = false

module _ {F : Type 0} (key : Key) where
  abbrev pub is_sale : PaperMessage F → Bool
  is_sale (proposal i) = key == (i.market_slug, i.outcome)
  is_sale _ = false

  abbrev pub is_close : PaperMessage F → Bool
  is_close (position e) =
      if is_closed e.update_type then key == (e.market_slug, e.outcome) else false
  is_close _ = false

  abbrev pub sales : List (PaperMessage F) → ℕ
  sales ms = count is_sale ms

  abbrev pub closes : List (PaperMessage F) → ℕ
  closes ms = count is_close ms

  -- A sale that no closing has followed is pending.
  abbrev pub IsPaired : PaperManager F → Type 0
  IsPaired s = sales s.published ≤ closes s.published + one_if (member key s.sell_pending)

  pub announced-IsPaired :
      (msg : PaperMessage F) (s : PaperManager F)
      → is_sale msg ≡ false
      → IsPaired s
      → IsPaired (announced msg s)
  announced-IsPaired msg s h v = omega (
    arith,
    count-append is_sale s.published msg,
    count-append is_close s.published msg,
    ap one_if h,
    v,
  )

module _ {F : Type 0} ⦃fl : Float F⦄ (key : Key) where
  update-Keeps : (e : PositionUpdatedEvent F) → Keeps (IsPaired key) (publish_update e)
  update-Keeps e = record {
    keeps = λ s v.
        publish_update_keeps (IsPaired key) s v e (announced-IsPaired key (position e) s refl v);
  }

  trade-Keeps : (e : StrategyClosedTradeEvent F) → Keeps (IsPaired key) (publish_trade e)
  trade-Keeps e = record {
    keeps =
        λ s v. publish_trade_keeps (IsPaired key) s v e (announced-IsPaired key (trade e) s refl v);
  }

  -- The event that was published counts as a closing of its key.
  update_returns :
      (e : PositionUpdatedEvent F) (s : PaperManager F) (a : Done)
      → (publish_update e s).0 ≡ ok a
      → (publish_update e s).1 ≡ announced (position e) s
  unfolding publish_update
  update_returns e s a h = elim (Bool-cases (is_valid_update e)) [
    | inl v ↦ rw v refl
    | inr v ↦ refused (rw (v, publish_update) at h)
  ]

module _ {F : Type 0} ⦃fl : Float F⦄ (sum_of : List F → F) (key : Key) where
  pub pnl-Keeps : (r : UpdateReason) → Keeps (IsPaired key) (emit_pnl_event sum_of r)
  unfolding emit_pnl_event
  pnl-Keeps r = record {
    keeps = λ s v. announced-IsPaired key (pnl (pnl_event sum_of r s)) s refl v;
  }

  buy-Keeps :
      (order : Order F) (f : FillEvent F) → Keeps (IsPaired key) (fill_of_order sum_of buy order f)
  unfolding handle_buy_fill
  buy-Keeps order f = record {
    keeps = λ s v. (>>-Keeps (update-Keeps key _) (pnl-Keeps position_update)).keeps _ v;
  }

  -- Dropping the key is paid by the closing.
  dropped-IsPaired :
      (k : Key) (e : PositionUpdatedEvent F) (s : PaperManager F)
      → (e.market_slug, e.outcome) ≡ k
      → e.update_type ≡ closed
      → IsPaired key s
      → IsPaired key (drop_position sum_of k (announced (position e) s))
  dropped-IsPaired k e s h c v =
      let sold = count-append (is_sale key) s.published (position e) in
      let gone = count-append (is_close key) s.published (position e) in
      elim (Bool-cases (k == key)) [
        | inl same ↦
            let paid : is_close key (position e) ≡ true =
              rw c (subst (λ j. (key == j) ≡ true) (sym (h ∙ eq_of_== k key same)) (==_refl key)) in
            omega (arith, sold, gone, ap one_if paid, one_if-le (member key s.sell_pending), v)
        | inr other ↦
            let left : member key (discard_item k s.sell_pending) ≡ member key s.sell_pending =
              member-discard_item k key s.sell_pending ∙ rw other refl in
            omega (arith, sold, gone, ap one_if left, v)
      ]

  close-Keeps :
      (k : Key) (p : Position F) (f : FillEvent F)
      → Keeps (IsPaired key) (close_position sum_of k p f)
  unfolding close_position
  close-Keeps k p f =
      >>-Keeps
        (record {
          keeps = λ s v.
              let t = record_outcome sum_of _ s in
              >>=_keeps (IsPaired key) (publish_update _) (λ _. modify (drop_position sum_of k)) t
                ((update-Keeps key _).keeps t v)
                (λ a h.
                  subst (λ u. IsPaired key (drop_position sum_of k u))
                    (sym (update_returns key _ t a h)) (dropped-IsPaired k _ t refl refl v));
        })
        (pnl-Keeps position_update)

  sold-Keeps :
      (k : Key) (p : Position F) (f : FillEvent F)
      → Keeps (IsPaired key) (sold_position sum_of k p f)
  sold-Keeps k p f = elim (Bool-cases (fl.le p.size nought)) [
    | inl h ↦ rw h (close-Keeps k p f)
    | inr h ↦ rw h (update-Keeps key _)
  ]

  sell-Keeps : (k : Key) (f : FillEvent F) → Keeps (IsPaired key) (handle_sell_fill sum_of k f)
  unfolding handle_sell_fill
  sell-Keeps k f = record {
    keeps = λ s v. elim (Option-cases (lookup k s.positions)) [
      | inl h ↦ rw h v
      | inr (p, h) ↦ rw h ((sold-Keeps k (record p { size = fl.sub p.size f.size }) f).keeps _ v)
    ];
  }

  publish_closed-Keeps :
      (id : String) (order : Order F) (f : FillEvent F) (c : Option (ClosedPosition F))
      → Keeps (IsPaired key) (publish_closed sum_of id order f c)
  publish_closed-Keeps id order f none = pure-Keeps
  publish_closed-Keeps id order f (some c) = trade-Keeps key _

  track_sale-Keeps :
      (k : Key) (id : String) (f : FillEvent F) (order : Order F)
      → Keeps (IsPaired key) (track_sale sum_of k id f order)
  unfolding track_sale
  track_sale-Keeps k id f order = record {
    keeps = λ s v. (publish_closed-Keeps _ order f _).keeps _ v;
  }

  fill_of_order-Keeps :
      (side : Side) (order : Order F) (f : FillEvent F)
      → Keeps (IsPaired key) (fill_of_order sum_of side order f)
  fill_of_order-Keeps buy order f = buy-Keeps order f
  fill_of_order-Keeps sell order f =
      >>-Keeps (track_sale-Keeps _ _ f order) (sell-Keeps (key_of sum_of order) f)

  pub handle_fill-Keeps :
      (found : Option (Order F)) (f : FillEvent F)
      → Keeps (IsPaired key) (handle_fill sum_of found f)
  unfolding handle_fill
  handle_fill-Keeps none f = pure-Keeps
  handle_fill-Keeps (some order) f = fill_of_order-Keeps order.side order f

  settle_position-Keeps :
      (time : F) (id : String) (k : Key) (p : Position F)
      → Keeps (IsPaired key) (settle_position sum_of time id k p)
  unfolding settle_position
  settle_position-Keeps time id k p = record {
    keeps = λ s v.
        (>>-Keeps (trade-Keeps key _)
            (modify-Keeps {f = drop_settled sum_of time id k} (λ t w. w))).keeps
          _ v;
  }

  settle_all-Keeps :
      (time : F) (id : String) (ps : Positions F)
      → Keeps (IsPaired key) (settle_all sum_of time id ps)
  unfolding settle_all
  settle_all-Keeps time id [] = pure-Keeps
  settle_all-Keeps time id ((k, p) ∷ ps) =
      >>-Keeps (settle_position-Keeps time id k p) (settle_all-Keeps time id ps)

  settle_market-Keeps :
      (time : F) (id : String) (ps : Positions F)
      → Keeps (IsPaired key) (settle_market sum_of time id ps)
  settle_market-Keeps time id [] = pure-Keeps
  settle_market-Keeps time id (e ∷ es) =
      >>-Keeps (settle_all-Keeps time id (e ∷ es))
        (modify-Keeps {f = finish_settlement sum_of} (λ s v. v))

  pub leave_market-Keeps :
      (time : F) (id : String) (old : Option String)
      → Keeps (IsPaired key) (leave_market sum_of time id old)
  leave_market-Keeps time id none = pure-Keeps
  leave_market-Keeps time id (some slug) = record {
    keeps = λ s v. elim (Bool-cases (is_truthy slug)) [
      | inl h ↦ rw h ((settle_market-Keeps time id (positions_in sum_of slug s)).keeps s v)
      | inr h ↦ rw h v
    ];
  }
