-- ===== src/Ops/Control.antt =====
-- polytrader/ops/control.py: `ExecutionControl` with its kill switch, and `CircuitBreaker`, which
-- disables it on divergences between the orders and the venue. The bus is the list `published`, on
-- the topics SYSTEM_LIFECYCLE and CIRCUIT_BREAKER; metrics and logs are left out. The f-strings and
-- the snapshot of a permit, which nothing reads, are texts.
pub mod Latch
mod Tests
use polytrader.Prelude.{
  String, ℕ, suc, ◌+◌, Bool, true, false, not, ◌&&◌, ◌||◌, Option, none, some, List, [], ◌∷◌, ◌++◌,
  length, leb, if◌then◌else◌,
}

pub data Divergence : Type 0 where
  phantom_order orphan_order fill_mismatch no_divergence : Divergence

-- `ReconcileEvent`: the type, and whether the severity is ERROR.
pub record ReconcileEvent : Type 0 where
  pub divergence_type : Divergence
  pub is_error : Bool

pub record Thresholds : Type 0 where
  pub max_phantom_orders : ℕ
  pub max_orphan_orders : ℕ
  pub max_fill_mismatches : ℕ
  pub require_error_severity : Bool

abbrev pub default_thresholds : Thresholds
default_thresholds = record {
  max_phantom_orders = 3;
  max_orphan_orders = 3;
  max_fill_mismatches = 1;
  require_error_severity = true;
}

pub data PermitType : Type 0 where
  boot manual health_reset : PermitType

pub data Actor : Type 0 where
  system operator circuit_breaker : Actor

-- The counts of a `check`, which are the details of its event.
pub record Counts : Type 0 where
  pub phantom_count : ℕ
  pub orphan_count : ℕ
  pub fill_mismatch_count : ℕ
  pub error_severity_count : ℕ
  pub total_divergences : ℕ

pub data OpsMessage : Type 0 where
  permit : PermitType → String → String → Actor → OpsMessage
  kill_switch : Bool → String → Bool → Actor → OpsMessage
  breaker : Bool → String → Option Counts → OpsMessage

-- `ExecutionControl` and `CircuitBreaker`, which shares it. `has_bus` says whether the control was
-- given the bus; the breaker always is.
pub record Ops : Type 0 where
  pub execution_enabled : Bool
  pub kill_switch_active : Bool
  pub has_bus : Bool
  pub triggered : Bool
  pub published : List OpsMessage

abbrev pub new_ops : Bool → Ops
new_ops has_bus = record {
  execution_enabled = false;
  kill_switch_active = false;
  has_bus = has_bus;
  triggered = false;
  published = [];
}

abbrev pub tell : OpsMessage → Ops → Ops
tell msg s = record s { published = s.published ++ (msg ∷ []) }

-- `if self._bus is not None`
abbrev tell_if_bus : OpsMessage → Ops → Ops
tell_if_bus msg s = if s.has_bus then tell msg s else s

unfoldable pub enable : Ops → Ops
enable s = record s { execution_enabled = true }

unfoldable pub enable_with_permit : PermitType → String → String → Actor → Ops → Ops
enable_with_permit kind reason health issued_by s =
    tell_if_bus (permit kind reason health issued_by) (record s { execution_enabled = true })

unfoldable pub disable : Ops → Ops
disable s = record s { execution_enabled = false }

abbrev switched : Bool → Ops → Ops
switched active s =
    let t = record s { kill_switch_active = active } in
    if active then record t { execution_enabled = false } else t

unfoldable pub set_kill_switch : Bool → String → Bool → Actor → Ops → Ops
set_kill_switch active reason cancel_open_orders triggered_by s =
    tell_if_bus (kill_switch active reason cancel_open_orders triggered_by) (switched active s)

abbrev pub is_enabled : Ops → Bool
is_enabled s = s.execution_enabled && not s.kill_switch_active

abbrev count_event : ReconcileEvent → Counts → Counts
count_event e c = record c {
  phantom_count = elim e.divergence_type [
    | phantom_order ↦ suc c.phantom_count
    | _ ↦ c.phantom_count
  ];
  orphan_count = elim e.divergence_type [ orphan_order ↦ suc c.orphan_count | _ ↦ c.orphan_count ];
  fill_mismatch_count = elim e.divergence_type [
    | fill_mismatch ↦ suc c.fill_mismatch_count
    | _ ↦ c.fill_mismatch_count
  ];
  error_severity_count = if e.is_error then suc c.error_severity_count else c.error_severity_count;
  total_divergences = suc c.total_divergences;
}

-- The loop that counts; `total_divergences` is `len(reconcile_events)`.
unfoldable pub count_from : Counts → List ReconcileEvent → Counts
count_from c [] = c
count_from c (e ∷ es) = count_from (count_event e c) es

abbrev pub no_counts : Counts
no_counts = record {
  phantom_count = 0;
  orphan_count = 0;
  fill_mismatch_count = 0;
  error_severity_count = 0;
  total_divergences = 0;
}

abbrev pub exceeds : Thresholds → Counts → Bool
exceeds t c =
    leb t.max_phantom_orders c.phantom_count
    || (leb t.max_orphan_orders c.orphan_count || leb t.max_fill_mismatches c.fill_mismatch_count)

abbrev has_no_error : Counts → Bool
has_no_error c = leb c.error_severity_count 0

unfoldable pub should_trigger : Thresholds → Counts → Bool
should_trigger t c = if t.require_error_severity && has_no_error c then false else exceeds t c

module _ (reason_text : Thresholds → Counts → String) where
  abbrev breaker_event : Thresholds → Counts → OpsMessage
  breaker_event t c = breaker true (reason_text t c) (some c)

  abbrev trip : Thresholds → Counts → Ops → Ops
  trip t c s = tell (breaker_event t c) (record (disable s) { triggered = true })

  abbrev check_counts : Thresholds → Counts → Ops → Option OpsMessage × Ops
  check_counts t c s =
      if should_trigger t c then (some (breaker_event t c), trip t c s) else (none, s)

  abbrev check_events : Thresholds → List ReconcileEvent → Ops → Option OpsMessage × Ops
  check_events t [] s = (none, s)
  check_events t (e ∷ es) s = check_counts t (count_from no_counts (e ∷ es)) s

  unfoldable pub check : Thresholds → List ReconcileEvent → Ops → Option OpsMessage × Ops
  check t es s = if s.triggered then (none, s) else check_events t es s

abbrev reset_event : OpsMessage
reset_event = breaker false "Circuit breaker reset by operator" none

unfoldable pub reset : Ops → OpsMessage × Ops
reset s = (reset_event, tell reset_event (record s { triggered = false }))

abbrev pub is_triggered : Ops → Bool
is_triggered s = s.triggered
