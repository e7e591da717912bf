-- ===== src/Ops/Control/Tests.antt =====
-- The theorems about polytrader/ops/control.py at a phantom order with a fill mismatch.
use polytrader.Prelude.{◌≡◌, ◌⊎◌, inr, refl, String, true, false, not, none, List, [], ◌∷◌, arith}
use polytrader.Ops.Control.{
  phantom_order, fill_mismatch, ReconcileEvent, Thresholds, default_thresholds, operator, Counts,
  new_ops, enable, is_enabled, check,
}
use polytrader.Ops.Control.Latch.{
  IsSevere, Trips, check-Severe, resets, switches, perform_all, trip-Latched,
}

abbrev reason : Thresholds → Counts → String
reason t c = "divergence"

abbrev events : List ReconcileEvent
events =
    record { divergence_type = phantom_order; is_error = false }
    ∷ record { divergence_type = fill_mismatch; is_error = true }
    ∷ []

check-Severe_example :
    (IsSevere default_thresholds events
      × Trips (new_ops true) (check reason default_thresholds events (new_ops true)))
    ⊎ ((¬ IsSevere default_thresholds events)
        × (check reason default_thresholds events (new_ops true) ≡ (none, new_ops true)))
check-Severe_example = check-Severe reason default_thresholds events (new_ops true) refl

events-IsSevere : IsSevere default_thresholds events
events-IsSevere = (λ h. cc, inr (inr (omega arith)), inr (omega arith))

trip-Latched_example :
    let later =
      perform_all reason
        (resets ∷ switches false "over" false operator ∷ [])
        (check reason default_thresholds events (new_ops true)).1 in
    (is_enabled later ≡ false)
    × (is_enabled (enable later) ≡ not later.kill_switch_active)
    × ((enable later).triggered ≡ later.triggered)
trip-Latched_example =
    trip-Latched reason default_thresholds events (new_ops true)
      (resets ∷ switches false "over" false operator ∷ []) refl events-IsSevere refl
