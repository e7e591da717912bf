-- ===== src/Market/Refinement.antt =====
-- What the stores of polytrader/store.py promise: the history of a key is the newest part of the
-- log of all events, less those of other keys.
use Prim.Native.Char.{Char}
use polytrader.Prelude.{
  ℕ, suc, ◌≤◌, String, ◌≡◌, refl, ap, subst, ◌∙◌, Bool, true, false, List, [], ◌∷◌, ◌++◌, length,
  length-append, keep_if, keep_if-append, leb, arith, Bool-cases, inl, inr, if◌then◌else◌, ◌==◌,
  eq_of_==, string_eq, pair_eq,
}
use mathlib.Core.List.{append-nil, append_assoc}
use polytrader.Dict.{lookup, lookup-insert}
use polytrader.Events.{Outcome, MarketDataEvent, outcome_eq}
use polytrader.Market.Pattern.{slug_to_pattern}
use polytrader.Market.Store.{
  drop_first, push, last, Key, MarketStore, found, empty_market_store, event_key, add, history,
  latest, same, DualStore, empty_dual, add_dual, view_history,
}

-- The last n items.
unfoldable pub last_n {ℓ} : {A : Type ℓ} → ℕ → List A → List A
last_n n [] = []
last_n n (x ∷ xs) = let rest = last_n n xs in if leb (length (x ∷ xs)) n then x ∷ xs else rest

module _ {A : Type 0} where
  last_n-short : (n : ℕ) (xs : List A) → length xs ≤ n → last_n n xs ≡ xs
  unfolding last_n
  last_n-short n [] h = refl
  last_n-short n (x ∷ xs) h = ground (arith, h)

  pub length-last_n : (n : ℕ) (xs : List A) → length (last_n n xs) ≤ n
  unfolding last_n
  length-last_n n [] = omega arith
  length-last_n n (x ∷ xs) = ground (arith, length-last_n n xs)

  push-last_n : (n : ℕ) (xs : List A) (x : A) → push n (last_n n xs) x ≡ last_n n (xs ++ (x ∷ []))
  unfolding push last_n drop_first
  push-last_n n [] x = ground arith
  push-last_n n (y ∷ ys) x =
      ground (arith, push-last_n n ys x, length-append ys (x ∷ []), last_n-short n (ys ++ (x ∷ [])))

  last-last_n : (n : ℕ) (xs : List A) → last (last_n (suc n) xs) ≡ last xs
  unfolding last last_n
  last-last_n n [] = refl
  last-last_n n (x ∷ []) = ground arith
  last-last_n n (x ∷ y ∷ ys) = ground (arith, last-last_n n (y ∷ ys))

-- The events of a key in a log.
module _ {F : Type 0} (key_of : String → String) where
  abbrev pub events_of : Key → List (MarketDataEvent F) → List (MarketDataEvent F)
  events_of key log = keep_if (λ e. event_key key_of e == key) log

  -- The abstract view: what each key holds is the newest part of what the log holds of it.
  abbrev Refines : MarketStore F → List (MarketDataEvent F) → Type 0
  Refines s log = (key : Key) → found (lookup key s.events) ≡ last_n s.window (events_of key log)

  abbrev pub add_all : List (MarketDataEvent F) → MarketStore F → MarketStore F
  add_all [] s = s
  add_all (e ∷ es) s = add_all es (add key_of e s)

  add-Refines :
      (e : MarketDataEvent F) (s : MarketStore F) (log : List (MarketDataEvent F))
      → Refines s log
      → Refines (add key_of e s) (log ++ (e ∷ []))
  unfolding add
  add-Refines e s log r key =
      let k = event_key key_of e in
      rw
        (
          lookup-insert k key (push s.window (found (lookup k s.events)) e) s.events,
          keep_if-append (λ x. event_key key_of x == key) log e,
        )
        (elim (Bool-cases (k == key)) [
          | inl h ↦ rw (h, eq_of_== k key h, r key) (push-last_n s.window (events_of key log) e)
          | inr h ↦ rw (h) (r key)
        ])

  window-add_all :
      (es : List (MarketDataEvent F)) (s : MarketStore F) → (add_all es s).window ≡ s.window
  unfolding add
  window-add_all [] s = refl
  window-add_all (e ∷ es) s = window-add_all es (add key_of e s)

  add_all-Refines :
      (es log : List (MarketDataEvent F)) (s : MarketStore F)
      → Refines s log
      → Refines (add_all es s) (log ++ es)
  add_all-Refines [] log s r = rw (append-nil log) r
  add_all-Refines (e ∷ es) log s r =
      subst (Refines (add_all es (add key_of e s))) (append_assoc log (e ∷ []) es)
        (add_all-Refines es (log ++ (e ∷ [])) (add key_of e s) (add-Refines e s log r))

  -- After any sequence of `add`s to an empty store, the history of a slug and an outcome is the
  -- events of that key among those added, in their order, less all but the newest `window` of them.
  pub history-add_all :
      (window : ℕ) (log : List (MarketDataEvent F)) (slug : String) (outcome : Outcome)
      → history key_of slug outcome (add_all log (empty_market_store window))
        ≡ last_n window (events_of (key_of slug, outcome) log)
  unfolding history last_n lookup
  history-add_all window log slug outcome =
      add_all-Refines log [] (empty_market_store window) (λ key. refl) (key_of slug, outcome)
      ∙ ap (λ w. last_n w (events_of (key_of slug, outcome) log))
          (window-add_all log (empty_market_store window))

  latest-history :
      (slug : String) (outcome : Outcome) (s : MarketStore F)
      → latest key_of slug outcome s ≡ last (history key_of slug outcome s)
  unfolding latest history last
  latest-history slug outcome s = ground arith

  -- After any sequence of `add`s to an empty store whose window is positive, `latest` is the last
  -- added event of that key, and it is `None` when none was added.
  pub latest-add_all :
      (window : ℕ) (log : List (MarketDataEvent F)) (slug : String) (outcome : Outcome)
      → latest key_of slug outcome (add_all log (empty_market_store (suc window)))
        ≡ last (events_of (key_of slug, outcome) log)
  latest-add_all window log slug outcome =
      latest-history slug outcome (add_all log (empty_market_store (suc window)))
      ∙ ap last (history-add_all (suc window) log slug outcome)
      ∙ last-last_n window (events_of (key_of slug, outcome) log)

abbrev pub add_all_dual :
    {F : Type 0} → (Char → Bool) → List (MarketDataEvent F) → DualStore F → DualStore F
add_all_dual dec [] s = s
add_all_dual dec (e ∷ es) s = add_all_dual dec es (add_dual dec e s)

module _ {F : Type 0} (dec : Char → Bool) where
  add_all_dual-pair :
      (es : List (MarketDataEvent F)) (s t : MarketStore F)
      → add_all_dual dec es (record { slug_store = s; pattern_store = t }) ≡ record {
        slug_store = add_all same es s;
        pattern_store = add_all (slug_to_pattern dec) es t;
      }
  unfolding add_dual
  add_all_dual-pair [] s t = refl
  add_all_dual-pair (e ∷ es) s t =
      add_all_dual-pair es (add same e s) (add (slug_to_pattern dec) e t)

  -- The two views of a dual store hold the same log: after any sequence of `add`s, the slug view of
  -- a slug is the newest events of that very slug, and the pattern view the newest events of all
  -- slugs that have its pattern.
  pub view_history-add_all :
      (window : ℕ) (log : List (MarketDataEvent F)) (slug : String) (outcome : Outcome)
      → let s = add_all_dual dec log (empty_dual window) in
        (view_history dec false slug outcome s ≡ last_n window (events_of same (slug, outcome) log))
        × (view_history dec true slug outcome s
            ≡ last_n window
                (events_of (slug_to_pattern dec) (slug_to_pattern dec slug, outcome) log))
  unfolding view_history
  view_history-add_all window log slug outcome =
      rw (add_all_dual-pair log (empty_market_store window) (empty_market_store window)) (
        history-add_all same window log slug outcome,
        history-add_all (slug_to_pattern dec) window log slug outcome,
      )
