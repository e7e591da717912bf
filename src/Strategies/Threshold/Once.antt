-- ===== src/Strategies/Threshold/Once.antt =====
-- How often polytrader/strategies/simple_threshold/strategy.py signals.
use polytrader.Prelude.{
  String, ℕ, ◌+◌, ◌≤◌, ◌≡◌, refl, subst, not, ◌&&◌, Option, none, some, List, [], ◌∷◌,
  if◌then◌else◌, string_eq, pair_eq, ◌==◌, eq_of_==, Bool-cases, inl, inr, arith,
}
use polytrader.Float.{Float}
use polytrader.Dict.{lookup, contains, lookup-insert}
use polytrader.Effect.{Result, ok, err}
use polytrader.Events.{Outcome, EventMeta, MarketDataEvent, mid, outcome_eq}
use polytrader.Market.Store.{Key}
use polytrader.Portfolio.{SignalEvent}
use polytrader.Strategies.Threshold.{
  SimpleThreshold, Evaluated, sent, new_signal, threshold_signal, remember, below, above, key_of,
  is_watched, evaluate,
}

-- One tick: the event's metadata, the store that the strategy reads, and the quote.
abbrev pub Tick : Type 0 → Type 0
Tick F = EventMeta F × (String → Outcome → List (MarketDataEvent F)) × MarketDataEvent F

module _ {F : Type 0} ⦃fl : Float F⦄ where
  open fl use {lt}

  abbrev is_signal : Result String (Option (SignalEvent F)) → ℕ
  is_signal (ok (some _)) = 1
  is_signal (ok none) = 0
  is_signal (err _) = 0

  abbrev is_armed : Option (SignalEvent F) → ℕ
  is_armed none = 1
  is_armed (some _) = 0

  abbrev armed : Key → SimpleThreshold F → ℕ
  armed k s = is_armed (sent (lookup k s.last_signal_sent))

  abbrev signals_by : Key → MarketDataEvent F → Result String (Option (SignalEvent F)) → ℕ
  signals_by k m r = if key_of m == k then is_signal r else 0

  -- A quote of the key at the threshold or above.
  abbrev pub rises_by : F → Key → MarketDataEvent F → ℕ
  rises_by threshold k m = if (key_of m == k) && not (lt (mid m) threshold) then 1 else 0

  armed-remember :
      (k key : Key) (o : Option (SignalEvent F)) (s : SimpleThreshold F)
      → armed k (remember key o s) ≡ (if key == k then is_armed o else armed k s)
  armed-remember k key o s = ground (arith, lookup-insert key k o s.last_signal_sent)

  -- One call: a signal uses up the arming, which only a rise brings back.
  abbrev IsPaid : Key → MarketDataEvent F → ℕ → SimpleThreshold F → Evaluated F → Type 0
  IsPaid k m rise s r = signals_by k m r.0 + armed k r.1 ≤ armed k s + rise

  below-IsPaid :
      (k : Key) (m : MarketDataEvent F) (r : Result String (SignalEvent F))
      (o : Option (SignalEvent F)) (s : SimpleThreshold F)
      → sent (lookup (key_of m) s.last_signal_sent) ≡ o
      → IsPaid k m 0 s (below (key_of m) r o s)
  below-IsPaid k m r (some _) s h = ground arith
  below-IsPaid k m (err e) none s h = ground arith
  below-IsPaid k m (ok signal) none s h =
      rw (armed-remember k (key_of m) (some signal) s) (elim (Bool-cases (key_of m == k)) [
        | inl e ↦
            let fresh : sent (lookup k s.last_signal_sent) ≡ none =
              subst (λ x. sent (lookup x s.last_signal_sent) ≡ none) (eq_of_== (key_of m) k e) h in
            rw (e, fresh) (omega arith)
        | inr e ↦ rw (e) (omega arith)
      ])

  above-IsPaid :
      (k : Key) (m : MarketDataEvent F) (s : SimpleThreshold F)
      → IsPaid k m (if key_of m == k then 1 else 0) s (above (key_of m) s)
  above-IsPaid k m s = elim (Bool-cases (contains (key_of m) s.last_signal_sent)) [
    | inl c ↦
        rw (c, armed-remember k (key_of m) none s)
          (elim (Bool-cases (key_of m == k)) [
            | inl e ↦ rw (e) (omega arith)
            | inr e ↦ rw (e) (omega arith)
          ])
    | inr c ↦ rw (c) (ground arith)
  ]

  evaluate-IsPaid :
      (k : Key) (t : Tick F) (s : SimpleThreshold F)
      → IsPaid k t.2 (rises_by s.buy_threshold k t.2) s (evaluate t.0 t.1 t.2 s)
  unfolding evaluate
  evaluate-IsPaid k (meta, history, m) s = elim (Bool-cases (is_watched history m s)) [
    | inr h ↦ rw (h) (ground arith)
    | inl h ↦ elim (Bool-cases (lt (mid m) s.buy_threshold)) [
      | inl b ↦
          rw (h, b)
            (ground (
              arith,
              below-IsPaid k m (new_signal (threshold_signal meta s.buy_threshold m))
                  (sent (lookup (key_of m) s.last_signal_sent)) s refl,
            ))
      | inr b ↦ rw (h, b) (ground (arith, above-IsPaid k m s))
    ]
  ]

  below-threshold :
      (key : Key) (r : Result String (SignalEvent F)) (o : Option (SignalEvent F))
      (s : SimpleThreshold F)
      → (below key r o s).1.buy_threshold ≡ s.buy_threshold
  below-threshold key r (some _) s = refl
  below-threshold key (ok _) none s = refl
  below-threshold key (err _) none s = refl

  evaluate-threshold :
      (t : Tick F) (s : SimpleThreshold F)
      → (evaluate t.0 t.1 t.2 s).1.buy_threshold ≡ s.buy_threshold
  unfolding evaluate
  evaluate-threshold (meta, history, m) s = elim (Bool-cases (is_watched history m s)) [
    | inr h ↦ rw (h) refl
    | inl h ↦ elim (Bool-cases (lt (mid m) s.buy_threshold)) [
      | inl b ↦
          rw (h, b)
            (below-threshold (key_of m) (new_signal (threshold_signal meta s.buy_threshold m))
              (sent (lookup (key_of m) s.last_signal_sent)) s)
      | inr b ↦ elim (Bool-cases (contains (key_of m) s.last_signal_sent)) [
        | inl c ↦ rw (h, b, c) refl
        | inr c ↦ rw (h, b, c) refl
      ]
    ]
  ]

  -- The signals on a key over a sequence of ticks, and the ticks of the key at the threshold or
  -- above.
  abbrev pub signals : Key → List (Tick F) → SimpleThreshold F → ℕ
  signals k [] s = 0
  signals k ((meta, history, m) ∷ ts) s =
      let (r, s') = evaluate meta history m s in signals_by k m r + signals k ts s'

  abbrev pub rises : F → Key → List (Tick F) → ℕ
  rises threshold k [] = 0
  rises threshold k ((_, _, m) ∷ ts) = rises_by threshold k m + rises threshold k ts

  signals-armed :
      (k : Key) (ts : List (Tick F)) (s : SimpleThreshold F)
      → signals k ts s ≤ armed k s + rises s.buy_threshold k ts
  signals-armed k [] s = omega arith
  signals-armed k ((meta, history, m) ∷ ts) s =
      let after = (evaluate meta history m s).1 in
      let later : signals k ts after ≤ armed k after + rises s.buy_threshold k ts =
        subst (λ x. signals k ts after ≤ armed k after + rises x k ts)
          (evaluate-threshold (meta, history, m) s) (signals-armed k ts after) in
      omega (arith, evaluate-IsPaid k (meta, history, m) s, later)

  -- Over any sequence of ticks of any markets, whatever the store holds at each, the strategy
  -- signals on a market and an outcome at most once more often than a quote of it is at the
  -- threshold or above: it does not repeat a signal while the price stays below.
  pub signals-Once :
      (k : Key) (ts : List (Tick F)) (s : SimpleThreshold F)
      → signals k ts s ≤ 1 + rises s.buy_threshold k ts
  signals-Once k ts s =
      let few : armed k s ≤ 1 = ground arith in omega (arith, signals-armed k ts s, few)
