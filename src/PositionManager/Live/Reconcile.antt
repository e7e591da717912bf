-- ===== src/PositionManager/Live/Reconcile.antt =====
-- What the reconciliation of polytrader/position_manager/__init__.py makes of each position.
use polytrader.Prelude.{
  ◌≡◌, refl, sym, ap, subst, ◌∙◌, true, false, Option, none, some, List, [], ◌∷◌, ◌++◌, ◌==◌,
  eq_of_==, inl, inr, Bool-cases, Option-cases, keep_if, string_eq, pair_eq, if◌then◌else◌,
}
use polytrader.Float.{Float}
use polytrader.Dict.{lookup, contains, lookup-insert, lookup-erase}
use polytrader.Events.{outcome_eq, is_buy}
use polytrader.Market.Store.{Key}
use polytrader.Portfolio.{Position}
use polytrader.PositionManager.PerStrategy.{get_or}
use polytrader.PositionManager.Live.{
  ExternalOrder, External, LiveManager, is_filled, is_cancelled, with_status, external_position,
  discover, settle_orders, drop_cancelled, remove_position, group_orders, reconcile_market,
  reconcile_all, reconcile_positions,
}
use polytrader.PositionManager.Live.Grouping.{
  orders_at, grouped, NoRepeat, nothing_at, absent, grouped-NoRepeat,
}

module _ {F : Type 0} ⦃fl : Float F⦄ (now : F) (key : Key) where
  abbrev pub opened_by : List (ExternalOrder F) → Option (Position F)
  opened_by [] = none
  opened_by (o ∷ os) = some (external_position now key o)

  -- A position by its filled and its cancelled orders, and by what it was before.
  abbrev pub settled :
      List (ExternalOrder F) → List (ExternalOrder F) → Option (Position F) → Option (Position F)
  settled [] [] before = before
  settled [] (c ∷ cs) before = none
  settled (f ∷ fs) cs (some p) = some p
  settled (f ∷ fs) cs none = opened_by (keep_if (λ o. is_buy o.side) (f ∷ fs))

  -- What reconciliation makes of a position, by the orders of its market and outcome.
  abbrev pub reconciled : List (ExternalOrder F) → Option (Position F) → Option (Position F)
  reconciled os before =
      settled (with_status now is_filled os) (with_status now is_cancelled os) before

  module _ (k : Key) where
    at_key : {A : Type 0} → Option A → Option A → Option A
    at_key x y = if key == k then x else y

    at_key_same : {A : Type 0} (x y : Option A) → (key == k) ≡ true → at_key x y ≡ x
    unfolding at_key
    at_key_same x y h = rw h refl

    at_key_other : {A : Type 0} (x y : Option A) → (key == k) ≡ false → at_key x y ≡ y
    unfolding at_key
    at_key_other x y h = rw h refl

    same_value :
        (s : LiveManager F) (x : Option (Position F))
        → lookup key s.positions ≡ x
        → lookup k s.positions ≡ at_key x (lookup k s.positions)
    unfolding at_key
    same_value s x h = elim (Bool-cases (key == k)) [
      | inl same ↦ rw same (rw (← eq_of_== key k same) h)
      | inr other ↦ rw other refl
    ]

    removed :
        (s : LiveManager F)
        → lookup k (remove_position key s).positions ≡ at_key none (lookup k s.positions)
    unfolding remove_position at_key
    removed s = elim (Option-cases (lookup key s.positions)) [
      | inl h ↦ rw h (same_value s none h)
      | inr (p, h) ↦ rw h (lookup-erase key k s.positions)
    ]

    discovered :
        (os : List (ExternalOrder F)) (o : Option (Position F)) (s : LiveManager F)
        → lookup key s.positions ≡ o
        → lookup k (discover now o key os s).positions
          ≡ at_key (elim o [ some p ↦ some p | none ↦ opened_by os ]) (lookup k s.positions)
    unfolding at_key
    discovered os (some p) s h = same_value s (some p) h
    discovered [] none s h = same_value s none h
    discovered (o ∷ os) none s h = lookup-insert key k (external_position now key o) s.positions

    dropped :
        (cs : List (ExternalOrder F)) (s : LiveManager F)
        → lookup k (drop_cancelled now cs key s).positions
          ≡ at_key (settled [] cs (lookup key s.positions)) (lookup k s.positions)
    dropped [] s = same_value s (lookup key s.positions) refl
    dropped (c ∷ cs) s = removed s

    settled-filled :
        (f : ExternalOrder F) (fs cs : List (ExternalOrder F)) (o : Option (Position F))
        → settled (f ∷ fs) cs o ≡ elim o as (λ _. Option (Position F)) [
          | some p ↦ some p
          | none ↦ opened_by (keep_if (λ o. is_buy o.side) (f ∷ fs))
        ]
    settled-filled f fs cs (some p) = refl
    settled-filled f fs cs none = refl

    settled_at :
        (fs os : List (ExternalOrder F)) (s : LiveManager F)
        → lookup k (settle_orders now fs key os s).positions
          ≡ at_key
              (settled fs (with_status now is_cancelled os) (lookup key s.positions))
              (lookup k s.positions)
    settled_at [] os s = dropped (with_status now is_cancelled os) s
    settled_at (f ∷ fs) os s =
        discovered (keep_if (λ o. is_buy o.side) (f ∷ fs)) (lookup key s.positions) s refl
        ∙ ap (λ x. at_key x (lookup k s.positions))
            (sym (settled-filled f fs (with_status now is_cancelled os) (lookup key s.positions)))

    market_at :
        (os : List (ExternalOrder F)) (s : LiveManager F)
        → lookup k (reconcile_market now key os s).positions
          ≡ at_key (reconciled os (lookup key s.positions)) (lookup k s.positions)
    unfolding reconcile_market
    market_at os s = settled_at (with_status now is_filled os) os s

module _ {F : Type 0} ⦃fl : Float F⦄ (now : F) (k : Key) where
  all_at :
      (d : External F) (s : LiveManager F)
      → NoRepeat d
      → lookup k (reconcile_all now d s).positions
        ≡ reconciled now k (get_or [] (lookup k d)) (lookup k s.positions)
  unfolding reconcile_all lookup
  all_at [] s n = refl
  all_at ((key, os) ∷ d) s (fresh, n) =
      let s' = reconcile_market now key os s in
      let rest = all_at d s' n in
      let here = market_at now key k os s in
      elim (Bool-cases (key == k)) [
        | inl same ↦
            let same_key : key ≡ k = eq_of_== key k same in
            let gone : lookup k d ≡ none =
              absent _ k d (subst (λ j. contains j d ≡ false) same_key fresh) in
            rw same (
              rest
              ∙ ap (λ x. reconciled now k (get_or [] x) (lookup k s'.positions)) gone
              ∙ here
              ∙ at_key_same now key k (reconciled now key os (lookup key s.positions))
                  (lookup k s.positions) same
              ∙ ap (λ j. reconciled now j os (lookup j s.positions)) same_key)
        | inr other ↦ rw other (
            rest
            ∙ ap (λ x. reconciled now k (get_or [] (lookup k d)) x)
                (here
                  ∙ at_key_other now key k (reconciled now key os (lookup key s.positions))
                      (lookup k s.positions) other))
      ]

  -- Reconciliation with the venue's orders decides each position by the orders of its own market
  -- and outcome alone, in the venue's order. With a filled order, an open position stays as it is,
  -- and the first filled BUY opens one where there is none; without a filled order, a cancelled one
  -- removes the position; else it stays. Orders of unknown tokens change nothing.
  pub reconcile_positions-Reconciled :
      (os : List (ExternalOrder F)) (s : LiveManager F)
      → lookup k (reconcile_positions now os s).positions
        ≡ reconciled now k (orders_at s.token_to_market k os) (lookup k s.positions)
  unfolding reconcile_positions
  reconcile_positions-Reconciled os s =
      all_at (group_orders s.token_to_market os []) s (grouped-NoRepeat s.token_to_market os [] tt)
      ∙ ap (λ xs. reconciled now k xs (lookup k s.positions))
          (grouped s.token_to_market k os []
            ∙ ap (λ o. get_or [] o ++ orders_at s.token_to_market k os)
                (absent _ k [] (nothing_at _ k)))
