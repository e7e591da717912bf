-- ===== src/Ops/Health/Failures.antt =====
-- The failed gates of polytrader/ops/health.py: none where each of its tests passes.
use polytrader.Prelude.{◌≡◌, ◌↔◌, refl, String, Bool, true, false, not, ◌&&◌, List, ◌++◌, ltb}
use polytrader.Ops.Health.{
  HealthStatus, HealthGateThresholds, Texts, is_empty, fails, is_false, failed_gates, check_gates,
}

fails-append :
    (bad : Bool) (gate : String) (more rest : List String)
    → (is_empty (fails bad gate more ++ rest) ≡ true) ↔ ((bad ≡ false) × (is_empty rest ≡ true))
fails-append true gate more rest = ((λ h. cc), (λ h. cc))
fails-append false gate more rest = ((λ h. (refl, h)), (λ h. h.1))

fails-last :
    (bad : Bool) (gate : String) (more : List String)
    → (is_empty (fails bad gate more) ≡ true) ↔ (bad ≡ false)
fails-last true gate more = ((λ h. cc), (λ h. cc))
fails-last false gate more = ((λ h. refl), (λ h. refl))

module _ {F : Type 0} (t : HealthGateThresholds F) where
  -- What the gates read of a status; the number of divergences is not above the limit.
  abbrev pub Passes : HealthStatus F → Type 0
  Passes h =
      (not h.market_data_fresh ≡ false)
      × ((t.require_user_stream && not h.user_stream_connected) ≡ false)
      × (not h.reconciliation_healthy ≡ false)
      × (ltb t.max_reconciliation_divergences h.reconciliation_divergence_count ≡ false)
      × (not h.error_rate_ok ≡ false)
      × (h.circuit_breaker_triggered ≡ false)
      × (h.kill_switch_active ≡ false)
      × (is_false h.tick_storage_healthy ≡ false)

  pub gates-Passes :
      (texts : Texts F) (h : HealthStatus F) → (check_gates texts t h).0 ≡ true → Passes h
  unfolding check_gates failed_gates
  gates-Passes texts h p =
      let (a, p1) = (fails-append _ _ _ _).0 p in
      let (b, p2) = (fails-append _ _ _ _).0 p1 in
      let (c, p3) = (fails-append _ _ _ _).0 p2 in
      let (d, p4) = (fails-append _ _ _ _).0 p3 in
      let (e, p5) = (fails-append _ _ _ _).0 p4 in
      let (f, p6) = (fails-append _ _ _ _).0 p5 in
      let (g, p7) = (fails-append _ _ _ _).0 p6 in (a, b, c, d, e, f, g, (fails-last _ _ _).0 p7)

  pub Passes-gates :
      (texts : Texts F) (h : HealthStatus F) → Passes h → (check_gates texts t h).0 ≡ true
  unfolding check_gates failed_gates
  Passes-gates texts h (a, b, c, d, e, f, g, i) = rw (a, b, c, d, e, f, g, i) refl
