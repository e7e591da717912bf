-- ===== src/Ops/Control/Latch.antt =====
-- When the circuit breaker of polytrader/ops/control.py triggers, and what that stops.
use polytrader.Prelude.{
  ◌≡◌, ◌≢◌, ◌≤◌, ◌<◌, ◌+◌, ℕ, refl, ◌⊎◌, inl, inr, String, Bool, true, false, not, Option, none,
  some, List, [], ◌∷◌, ◌++◌, length, keep_if, any, Bool-cases, arith,
}
use polytrader.Ops.Control.{
  Divergence, phantom_order, orphan_order, fill_mismatch, no_divergence, ReconcileEvent, Thresholds,
  PermitType, Actor, Counts, OpsMessage, Ops, enable, enable_with_permit, disable, set_kill_switch,
  is_enabled, count_event, count_from, no_counts, should_trigger, check, reset,
}

abbrev pub same_divergence : Divergence → Divergence → Bool
same_divergence phantom_order phantom_order = true
same_divergence orphan_order orphan_order = true
same_divergence fill_mismatch fill_mismatch = true
same_divergence no_divergence no_divergence = true
same_divergence _ _ = false

-- How many events are of a type, and how many are errors.
abbrev pub number : Divergence → List ReconcileEvent → ℕ
number d es = length (keep_if (λ e. same_divergence d e.divergence_type) es)

abbrev pub errors : List ReconcileEvent → ℕ
errors es = length (keep_if (λ e. e.is_error) es)

module _ (c : Counts) (es : List ReconcileEvent) where
  abbrev Totals : Counts → Type 0
  Totals r =
      (r.phantom_count ≡ c.phantom_count + number phantom_order es)
      × (r.orphan_count ≡ c.orphan_count + number orphan_order es)
      × (r.fill_mismatch_count ≡ c.fill_mismatch_count + number fill_mismatch es)
      × (r.error_severity_count ≡ c.error_severity_count + errors es)

count_from-Totals : (c : Counts) (es : List ReconcileEvent) → Totals c es (count_from c es)
unfolding count_from
count_from-Totals c [] = omega arith
count_from-Totals c (e ∷ es) = ground (arith, count_from-Totals (count_event e c) es)

-- What calls for the breaker: a threshold is reached, and there is an error where one is wanted.
abbrev pub IsSevere : Thresholds → List ReconcileEvent → Type 0
IsSevere t es =
    (es ≢ [])
    × ((t.max_phantom_orders ≤ number phantom_order es)
        ⊎ ((t.max_orphan_orders ≤ number orphan_order es)
            ⊎ (t.max_fill_mismatches ≤ number fill_mismatch es)))
    × ((t.require_error_severity ≡ false) ⊎ (0 < errors es))

counts-IsSevere :
    (t : Thresholds) (e : ReconcileEvent) (es : List ReconcileEvent)
    → should_trigger t (count_from no_counts (e ∷ es)) ≡ true
    → IsSevere t (e ∷ es)
unfolding should_trigger
counts-IsSevere t e es h =
    let totals = count_from-Totals no_counts (e ∷ es) in
    (λ p. cc p, ground (arith, totals, h), ground (arith, totals, h))

severe_counts :
    (t : Thresholds) (e : ReconcileEvent) (es : List ReconcileEvent)
    → IsSevere t (e ∷ es)
    → should_trigger t (count_from no_counts (e ∷ es)) ≡ true
unfolding should_trigger
severe_counts t e es (_, reached, wanted) =
    let totals = count_from-Totals no_counts (e ∷ es) in ground (arith, totals, reached, wanted)

-- Execution is disabled, and one event is published, which the call returns.
pub record Trips (s : Ops) (result : Option OpsMessage × Ops) : Type 0 where
  pub message : OpsMessage
  pub returned : result.0 ≡ some message
  pub published : result.1.published ≡ s.published ++ (message ∷ [])
  pub disabled : result.1.execution_enabled ≡ false
  pub triggered : result.1.triggered ≡ true

module _ (reason_text : Thresholds → Counts → String) (t : Thresholds) where
  -- A check that finds the breaker off: it trips exactly when there is an event, a threshold is
  -- reached (by the number of phantom orders, orphan orders or fill mismatches among the events)
  -- and, where an error is wanted, an event is an error. Otherwise it changes nothing.
  pub check-Severe :
      (es : List ReconcileEvent) (s : Ops)
      → s.triggered ≡ false
      → (IsSevere t es × Trips s (check reason_text t es s))
        ⊎ ((¬ IsSevere t es) × (check reason_text t es s ≡ (none, s)))
  unfolding check disable
  check-Severe [] s off = inr (λ h. h.0 refl, rw off refl)
  check-Severe (e ∷ es) s off =
      elim (Bool-cases (should_trigger t (count_from no_counts (e ∷ es)))) [
        | inl fires ↦ inl (
          counts-IsSevere t e es fires,
          rw (off, fires)
              (record {
                message = _;
                returned = refl;
                published = refl;
                disabled = refl;
                triggered = refl;
              }),
        )
        | inr stays ↦ inr (λ h. cc (severe_counts t e es h, stays), rw (off, stays) refl)
      ]

-- The calls of the operator and of the reconciliation.
pub data Call : Type 0 where
  enables : Call
  permits : PermitType → String → String → Actor → Call
  disables : Call
  switches : Bool → String → Bool → Actor → Call
  checks : Thresholds → List ReconcileEvent → Call
  resets : Call

module _ (reason_text : Thresholds → Counts → String) where
  abbrev pub perform : Call → Ops → Ops
  perform enables s = enable s
  perform (permits kind reason health by) s = enable_with_permit kind reason health by s
  perform disables s = disable s
  perform (switches active reason cancel by) s = set_kill_switch active reason cancel by s
  perform (checks t es) s = (check reason_text t es s).1
  perform resets s = (reset s).1

  abbrev pub perform_all : List Call → Ops → Ops
  perform_all [] s = s
  perform_all (c ∷ cs) s = perform_all cs (perform c s)

abbrev pub enabling : Call → Bool
enabling enables = true
enabling (permits _ _ _ _) = true
enabling _ = false

module _ (reason_text : Thresholds → Counts → String) where
  disabled_stays :
      (c : Call) (s : Ops)
      → enabling c ≡ false
      → s.execution_enabled ≡ false
      → (perform reason_text c s).execution_enabled ≡ false
  unfolding disable set_kill_switch check reset
  disabled_stays enables s h v = cc
  disabled_stays (permits _ _ _ _) s h v = cc
  disabled_stays disables s h v = refl
  disabled_stays (switches active reason cancel by) s h v = ground arith
  disabled_stays (checks t []) s h v = ground arith
  disabled_stays (checks t (e ∷ es)) s h v = ground arith
  disabled_stays resets s h v = v

  disabled_run :
      (cs : List Call) (s : Ops)
      → any enabling cs ≡ false
      → s.execution_enabled ≡ false
      → (perform_all reason_text cs s).execution_enabled ≡ false
  disabled_run [] s h v = v
  disabled_run (c ∷ cs) s h v = elim (Bool-cases (enabling c)) [
    | inl on ↦ cc (rw on at h)
    | inr off ↦ disabled_run cs (perform reason_text c s) (rw off at h) (disabled_stays c s off v)
  ]

  -- After a check that trips, execution is off whatever calls follow, resets and kill switches
  -- among them, as long as none of them enables it. One `enable` turns it on again where the kill
  -- switch is off, and it leaves the breaker as it is, on if nothing has reset it.
  pub trip-Latched :
      (t : Thresholds) (es : List ReconcileEvent) (s : Ops) (cs : List Call)
      → s.triggered ≡ false
      → IsSevere t es
      → any enabling cs ≡ false
      → let later = perform_all reason_text cs (check reason_text t es s).1 in
        (is_enabled later ≡ false)
        × (is_enabled (enable later) ≡ not later.kill_switch_active)
        × ((enable later).triggered ≡ later.triggered)
  unfolding enable
  trip-Latched t es s cs off severe none_enables =
      let tripped : Trips s (check reason_text t es s) =
        elim (check-Severe reason_text t es s off) [
          | inl (_, trips) ↦ trips
          | inr (mild, _) ↦ absurd (mild severe)
        ] in
      let stays = disabled_run cs (check reason_text t es s).1 none_enables tripped.disabled in
      (rw stays refl, refl, refl)
