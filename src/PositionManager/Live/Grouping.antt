-- ===== src/PositionManager/Live/Grouping.antt =====
-- How the reconciliation of polytrader/position_manager/__init__.py groups the orders of the venue.
use polytrader.Prelude.{
  ◌≡◌, refl, sym, ap, subst, ◌∙◌, String, Bool, true, false, Option, none, some, List, [], ◌∷◌,
  ◌++◌, ◌==◌, ==_refl, eq_of_==, inl, inr, Bool-cases, Option-cases, keep_if, keep_if-cons,
  string_eq, pair_eq, if◌then◌else◌,
}
use mathlib.Core.List.{append-nil, append_assoc}
use polytrader.Dict.{Dict, lookup, contains, insert, lookup-insert, contains-insert}
use polytrader.Events.{outcome_eq}
use polytrader.Market.Store.{Key}
use polytrader.PositionManager.PerStrategy.{get_or}
use polytrader.PositionManager.Live.{ExternalOrder, External, group_orders}

abbrev is_at : Key → Option Key → Bool
is_at k none = false
is_at k (some key) = key == k

module _ {F : Type 0} where
  -- The orders of one market and outcome.
  abbrev pub orders_at : Dict String Key → Key → List (ExternalOrder F) → List (ExternalOrder F)
  orders_at tokens k os = keep_if (λ o. is_at k (lookup o.token_id tokens)) os

  found_after :
      (k : Key) (key : Key) (o : ExternalOrder F) (d : External F)
      → get_or [] (lookup k (insert key (get_or [] (lookup key d) ++ (o ∷ [])) d))
        ≡ (if key == k then get_or [] (lookup k d) ++ (o ∷ []) else get_or [] (lookup k d))
  found_after k key o d = elim (Bool-cases (key == k)) [
    | inl same ↦
        ap (get_or []) (lookup-insert key k (get_or [] (lookup key d) ++ (o ∷ [])) d)
        ∙ rw (same, eq_of_== key k same) refl
    | inr other ↦
        ap (get_or []) (lookup-insert key k (get_or [] (lookup key d) ++ (o ∷ [])) d)
        ∙ rw other refl
  ]

  orders_at-cons :
      (tokens : Dict String Key) (k : Key) (o : ExternalOrder F) (os : List (ExternalOrder F))
      (b : Bool)
      → is_at k (lookup o.token_id tokens) ≡ b
      → orders_at tokens k (o ∷ os)
        ≡ (if b then o ∷ orders_at tokens k os else orders_at tokens k os)
  orders_at-cons tokens k o os b h =
      keep_if-cons (λ o. is_at k (lookup o.token_id tokens)) o os ∙ rw h refl

  -- The grouping keeps every order of a market, in order.
  pub grouped :
      (tokens : Dict String Key) (k : Key) (os : List (ExternalOrder F)) (d : External F)
      → get_or [] (lookup k (group_orders tokens os d))
        ≡ get_or [] (lookup k d) ++ orders_at tokens k os
  unfolding group_orders
  grouped tokens k [] d = sym (append-nil _)
  grouped tokens k (o ∷ os) d = elim (Option-cases (lookup o.token_id tokens)) [
    | inl h ↦ rw (h, orders_at-cons tokens k o os false (ap (is_at k) h)) (grouped tokens k os d)
    | inr (key, h) ↦
        let d' = insert key (get_or [] (lookup key d) ++ (o ∷ [])) d in
        let rest = grouped tokens k os d' in
        elim (Bool-cases (key == k)) [
          | inl same ↦
              let at = orders_at-cons tokens k o os true (ap (is_at k) h ∙ same) in
              let found : get_or [] (lookup k d') ≡ get_or [] (lookup k d) ++ (o ∷ []) =
                found_after k key o d ∙ rw same refl in
              rw h (
                rest
                ∙ ap (λ xs. xs ++ orders_at tokens k os) found
                ∙ append_assoc (get_or [] (lookup k d)) (o ∷ []) (orders_at tokens k os)
                ∙ ap (λ xs. get_or [] (lookup k d) ++ xs) (sym at))
          | inr other ↦
              let at = orders_at-cons tokens k o os false (ap (is_at k) h ∙ other) in
              let found : get_or [] (lookup k d') ≡ get_or [] (lookup k d) =
                found_after k key o d ∙ rw other refl in
              rw h (
                rest
                ∙ ap (λ xs. xs ++ orders_at tokens k os) found
                ∙ ap (λ xs. get_or [] (lookup k d) ++ xs) (sym at))
        ]
  ]

-- No key twice, as in a `dict`.
abbrev pub NoRepeat : {V : Type 0} → Dict Key V → Type 0
NoRepeat [] = Unit
NoRepeat ((key, _) ∷ d) = (contains key d ≡ false) × NoRepeat d

pub nothing_at : (V : Type 0) (key : Key) → contains {V = V} key [] ≡ false
unfolding lookup
nothing_at V key = refl

pub absent :
    (V : Type 0) (key : Key) (d : Dict Key V) → contains key d ≡ false → lookup key d ≡ none
absent V key d h = elim (Option-cases (lookup key d)) [
  | inl e ↦ e
  | inr (v, e) ↦ absurd (cc (let known : contains key d ≡ true = rw (e, contains) refl in known, h))
]

ne_sym : (j k : Key) → (j == k) ≡ false → (k == j) ≡ false
ne_sym j k h = elim (Bool-cases (k == j)) [
  | inl e ↦
      absurd (cc (subst (λ x. (x == k) ≡ false) (sym (eq_of_== k j e)) h, ==_refl {A = Key} k))
  | inr e ↦ e
]

insert-NoRepeat :
    {V : Type 0} (key : Key) (v : V) (d : Dict Key V) → NoRepeat d → NoRepeat (insert key v d)
unfolding insert
insert-NoRepeat key v [] n = (nothing_at _ key, tt)
insert-NoRepeat key v ((j, w) ∷ d) (fresh, n) = elim (Bool-cases (j == key)) [
  | inl same ↦ rw same (subst (λ x. contains x d ≡ false) (eq_of_== j key same) fresh, n)
  | inr other ↦
      rw other
        (contains-insert key j v d ∙ rw (ne_sym j key other) fresh, insert-NoRepeat key v d n)
]

module _ {F : Type 0} where
  pub grouped-NoRepeat :
      (tokens : Dict String Key) (os : List (ExternalOrder F)) (d : External F)
      → NoRepeat d
      → NoRepeat (group_orders tokens os d)
  unfolding group_orders
  grouped-NoRepeat tokens [] d n = n
  grouped-NoRepeat tokens (o ∷ os) d n = elim (Option-cases (lookup o.token_id tokens)) [
    | inl h ↦ rw h (grouped-NoRepeat tokens os d n)
    | inr (key, h) ↦ rw h (grouped-NoRepeat tokens os _ (insert-NoRepeat key _ d n))
  ]
