-- ===== src/Ops/Health/Gates.antt =====
-- When the gates of polytrader/ops/health.py let execution start.
use polytrader.Prelude.{
  ◌≡◌, ◌≢◌, ◌≤◌, ◌↔◌, ap, refl, ◌⊎◌, inl, inr, String, true, false, not, ◌&&◌, Option, none, some,
  List, [], ◌∷◌, length, any, All, ltb, Bool-cases, Option-cases, arith,
}
use polytrader.Float.{Float}
use polytrader.Events.{MarketDataEvent}
use polytrader.Market.Store.{Key}
use polytrader.Ops.Control.{Ops, ReconcileEvent}
use polytrader.Ops.Health.{
  HealthStatus, HealthService, UserStream, TickReport, reported, raised, Texts, is_false, look_at,
  check_market_data_freshness, check_user_stream_connection, actual_divergences,
  check_reconciliation_health, check_error_rate, check_circuit_breaker, check_tick_storage_health,
  evaluate, check_gates,
}
use polytrader.Ops.Health.Failures.{Passes, gates-Passes, Passes-gates}

-- No event is both a divergence and an error.
keeps_error_free :
    (es : List ReconcileEvent)
    → (any (λ e. e.is_error) es ≡ false) ↔ All (λ e. e.is_error ≡ false) es
keeps_error_free [] = ((λ h. tt), (λ h. refl))
keeps_error_free (e ∷ es) =
    let rest = keeps_error_free es in
    elim (Bool-cases e.is_error) [
      | inl bad ↦ ((λ h. cc (rw bad at h)), (λ h. cc (h.0, bad)))
      | inr fine ↦ ((λ h. (fine, rest.0 (rw fine at h))), (λ h. rw fine (rest.1 h.1)))
    ]

module _ {F : Type 0} ⦃fl : Float F⦄ (now : F) where
  open fl use {lt, le, sub}

  -- The last quote of a market is there, and not older than the limit.
  abbrev pub IsFresh : F → Option (MarketDataEvent F) → Type 0
  IsFresh limit latest =
      (m : MarketDataEvent F) × (latest ≡ some m) × (lt limit (sub now m.ts_mono) ≡ false)

  look_at-false :
      (limit : F) (latest : Key → Option (MarketDataEvent F)) (ks : List Key) (stale : Option F)
      → (look_at now limit latest ks (false, stale)).0 ≡ false
  unfolding look_at
  look_at-false limit latest [] stale = refl
  look_at-false limit latest (k ∷ ks) stale =
      let rest = look_at-false limit latest ks in
      elim (Option-cases (latest k)) [
        | inl missing ↦ rw (look_at, missing) (rest stale)
        | inr (m, found) ↦ elim (Bool-cases (lt limit (sub now m.ts_mono))) [
          | inl old ↦ rw (look_at, found, old) (rest _)
          | inr young ↦ rw (look_at, found, young) (rest _)
        ]
      ]

  look_at-IsFresh :
      (limit : F) (latest : Key → Option (MarketDataEvent F)) (ks : List Key) (stale : Option F)
      → ((look_at now limit latest ks (true, stale)).0 ≡ true)
        ↔ All (λ k. IsFresh limit (latest k)) ks
  unfolding look_at
  look_at-IsFresh limit latest [] stale = ((λ h. tt), (λ h. refl))
  look_at-IsFresh limit latest (k ∷ ks) stale = elim (Option-cases (latest k)) [
    | inl missing ↦
        rw (look_at, missing) ((λ h. cc (h, look_at-false limit latest ks stale)), (λ h. cc h.0.1))
    | inr (m, found) ↦ elim (Bool-cases (lt limit (sub now m.ts_mono))) [
      | inl old ↦
          rw (look_at, found, old)
            ((λ h. cc (h, look_at-false limit latest ks _)), (λ h. cc (h.0.1, h.0.2, old)))
      | inr young ↦
          let rest = look_at-IsFresh limit latest ks _ in
          rw (look_at, found, young) ((λ h. ((m, refl, young), rest.0 h)), (λ h. rest.1 h.1))
    ]
  ]

-- The adapter, if there is one, runs and has its connection.
abbrev pub IsConnected : Option UserStream → Type 0
IsConnected none = Unit
IsConnected (some a) = (a.is_running ≡ true) × (a.has_ws ≡ true)

abbrev pub IsStored : Option TickReport → Type 0
IsStored none = Unit
IsStored (some r) = (error : Option String) × (r ≡ reported true true true error)

abbrev pub IsUntriggered : Option Ops → Type 0
IsUntriggered none = Unit
IsUntriggered (some b) = b.triggered ≡ false

module _ {F : Type 0} ⦃fl : Float F⦄ (now : F) (s : HealthService F) where
  open fl use {le}

  -- What the gates stand for.
  pub record IsHealthy : Type 0 where
    pub markets : List Key
    pub known : s.all_markets ≡ some markets
    pub some_market : markets ≢ []
    pub fresh :
        All (λ k. IsFresh now s.thresholds.max_market_data_staleness_seconds (s.latest k)) markets
    pub stream : (s.thresholds.require_user_stream ≡ false) ⊎ IsConnected s.user_stream_adapter
    pub few : length (actual_divergences s) ≤ s.thresholds.max_reconciliation_divergences
    pub no_error : All (λ e. e.is_error ≡ false) (actual_divergences s)
    pub errors : (r : F) → s.rate ≡ some r → le r s.thresholds.max_error_rate ≡ true
    pub untriggered : IsUntriggered s.breaker
    pub switch_off : s.kill_switch ≡ false
    pub stored : IsStored s.tick_storage

  markets-IsFresh :
      (check_market_data_freshness now none none s).0 ≡ true
      → (ks : List Key) × (s.all_markets ≡ some ks)
        × (ks ≢ [])
        × All (λ k. IsFresh now s.thresholds.max_market_data_staleness_seconds (s.latest k)) ks
  unfolding check_market_data_freshness
  markets-IsFresh h = elim (Option-cases s.all_markets) [
    | inl unknown ↦ cc (rw unknown at h)
    | inr ([], listed) ↦ cc (rw listed at h)
    | inr (k ∷ ks, listed) ↦ (
      k ∷ ks,
      listed,
      (λ e. cc e),
      (look_at-IsFresh now s.thresholds.max_market_data_staleness_seconds s.latest (k ∷ ks) none).0
          (rw listed at h),
    )
  ]

  IsFresh-markets :
      (ks : List Key)
      → s.all_markets ≡ some ks
      → ks ≢ []
      → All (λ k. IsFresh now s.thresholds.max_market_data_staleness_seconds (s.latest k)) ks
      → (check_market_data_freshness now none none s).0 ≡ true
  unfolding check_market_data_freshness
  IsFresh-markets [] listed some_market fresh = absurd (some_market refl)
  IsFresh-markets (k ∷ ks) listed some_market fresh = rw listed (
      (look_at-IsFresh now s.thresholds.max_market_data_staleness_seconds s.latest (k ∷ ks) none).1
        fresh)

  stream_iff :
      ((s.thresholds.require_user_stream && not (check_user_stream_connection s)) ≡ false)
      ↔ ((s.thresholds.require_user_stream ≡ false) ⊎ IsConnected s.user_stream_adapter)
  unfolding check_user_stream_connection
  stream_iff = elim (Option-cases s.user_stream_adapter) [
    | inl missing ↦ rw missing ground arith
    | inr (a, there) ↦ rw there ground arith
  ]

  rate_iff :
      (check_error_rate s ≡ true)
      ↔ ((r : F) → s.rate ≡ some r → le r s.thresholds.max_error_rate ≡ true)
  unfolding check_error_rate
  rate_iff = elim (Option-cases s.rate) [
    | inl missing ↦ rw missing ((λ h r e. cc e), (λ h. refl))
    | inr (x, there) ↦ rw there ((λ h r e. cc (h, e)), (λ h. h x refl))
  ]

  breaker_iff : (check_circuit_breaker s ≡ false) ↔ IsUntriggered s.breaker
  unfolding check_circuit_breaker
  breaker_iff = elim (Option-cases s.breaker) [
    | inl missing ↦ rw missing ((λ h. tt), (λ h. refl))
    | inr (b, there) ↦ rw there ((λ h. h), (λ h. h))
  ]

  stored_iff :
      (texts : Texts F)
      → (is_false (check_tick_storage_health texts s).0 ≡ false) ↔ IsStored s.tick_storage
  unfolding check_tick_storage_health
  stored_iff texts = elim (Option-cases s.tick_storage) [
    | inl missing ↦ rw missing ((λ h. tt), (λ h. refl))
    | inr (reported a b c e, there) ↦ rw there ground arith
    | inr (raised e, there) ↦ rw there ((λ h. cc h), (λ h. cc h.1))
  ]

  reconciled_iff :
      ((not (check_reconciliation_health s).0 ≡ false)
        × (ltb s.thresholds.max_reconciliation_divergences (check_reconciliation_health s).1
            ≡ false))
      ↔ ((length (actual_divergences s) ≤ s.thresholds.max_reconciliation_divergences)
          × (any (λ e. e.is_error) (actual_divergences s) ≡ false))
  unfolding check_reconciliation_health
  reconciled_iff = ground arith

  module _ (texts : Texts F) where
    status : HealthStatus F
    status = evaluate now texts none none s

    IsHealthy-Passes : Passes s.thresholds status → IsHealthy
    unfolding status evaluate
    IsHealthy-Passes p =
        let (a, b, c, d, e, f, g, i) = p in
        let (markets, known, some_market, fresh) = markets-IsFresh (ground (arith, a)) in
        let (few, none_bad) = reconciled_iff.0 (c, d) in
        record {
          markets = markets;
          known = known;
          some_market = some_market;
          fresh = fresh;
          stream = stream_iff.0 b;
          few = few;
          no_error = (keeps_error_free _).0 none_bad;
          errors = rate_iff.0 (ground (arith, e));
          untriggered = breaker_iff.0 f;
          switch_off = g;
          stored = (stored_iff texts).0 i;
        }

    Passes-IsHealthy : IsHealthy → Passes s.thresholds status
    unfolding status evaluate
    Passes-IsHealthy p =
        let (c, d) = reconciled_iff.1 (p.few, (keeps_error_free _).1 p.no_error) in
        (
          ap not (IsFresh-markets p.markets p.known p.some_market p.fresh),
          stream_iff.1 p.stream,
          c,
          d,
          ap not (rate_iff.1 p.errors),
          breaker_iff.1 p.untriggered,
          p.switch_off,
          (stored_iff texts).1 p.stored,
        )

    -- The gates of all markets pass exactly when the service is healthy: the store lists at least
    -- one market and each of them has a quote that is not older than the limit; the user stream is
    -- not required, has no adapter, or its adapter runs with a connection; the divergences are not
    -- more than the limit and none of them is an error; the error rate, if known, is not above its
    -- limit; the breaker, if there is one, is not triggered; the kill switch given to the service
    -- is off; and the tick storage, if there is one, is connected, written and read.
    pub check_gates_exact :
        ((check_gates texts s.thresholds (evaluate now texts none none s)).0 ≡ true) ↔ IsHealthy
    unfolding status
    check_gates_exact = (
      (λ h. IsHealthy-Passes (gates-Passes s.thresholds texts status h)),
      (λ h. Passes-gates s.thresholds texts status (Passes-IsHealthy h)),
    )
