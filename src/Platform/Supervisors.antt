-- ===== src/Platform/Supervisors.antt =====
-- polytrader/platform/supervisor_registry.py: `MarketSupervisorRegistry`. A supervisor is the
-- number of its creation, its constructor and `start` are that and an answer: whether it starts.
-- Logs are left out. A count in the map is above 0 between two steps, so that one less is a number
-- again.
pub mod Steps
pub mod Counting
pub mod Overlap
mod Tests
use polytrader.Prelude.{
  String, ℕ, zero, suc, ◌-◌, Bool, true, false, not, Option, none, some, List, [], ◌∷◌, ◌++◌,
  string_eq, if◌then◌else◌,
}
use polytrader.Dict.{Dict, lookup, contains, insert, erase, values}
use polytrader.Effect.{Action, Done, pure, raise, gets, modify, raise_if, ◌>>=◌, ◌>>◌}

-- `made` counts the supervisors that were created, `stopped` has those that were stopped.
pub record Registry : Type 0 where
  pub supervisors : Dict String ℕ
  pub ref_counts : Dict String ℕ
  pub made : ℕ
  pub stopped : List ℕ

abbrev pub new_registry : Registry
new_registry = record { supervisors = []; ref_counts = []; made = 0; stopped = [] }

pub data RegistryError : Type 0 where
  key_error not_started : RegistryError

abbrev pub Step : Type 0 → Type 0
Step A = Action RegistryError Registry A

-- `MarketSupervisor(...)`
abbrev make : Step ℕ
make s = pure s.made (record s { made = suc s.made })

abbrev count_up : String → Option ℕ → Step Done
count_up pattern none = raise key_error
count_up pattern (some n) =
    modify (λ s. record s { ref_counts = insert pattern (suc n) s.ref_counts })

-- `self._ref_counts[pattern] += 1`
abbrev acquire : String → Step Done
acquire pattern s = count_up pattern (lookup pattern s.ref_counts) s

abbrev store_started : String → ℕ → Registry → Registry
store_started pattern id s = record s {
  supervisors = insert pattern id s.supervisors;
  ref_counts = insert pattern 0 s.ref_counts;
}

-- `get_or_create` up to `await supervisor.start()`, where other calls can come between; `none`
-- where the pattern has a supervisor.
unfoldable pub begin : String → Step (Option ℕ)
begin pattern s =
    if contains pattern s.supervisors then pure none s else (make >>= λ id. pure (some id)) s

abbrev store_made : String → Bool → Option ℕ → Step Done
store_made pattern starts none = pure tt
store_made pattern starts (some id) =
    raise_if (not starts) not_started >> modify (store_started pattern id)

abbrev found : Option ℕ → Step ℕ
found none = raise key_error
found (some id) = pure id

-- The rest of it; `starts` says whether the new supervisor starts.
unfoldable pub finish : String → Bool → Option ℕ → Step ℕ
finish pattern starts new =
    store_made pattern starts new
    >> acquire pattern
    >> (gets (λ s. lookup pattern s.supervisors) >>= found)

unfoldable pub get_or_create : String → Bool → Step ℕ
get_or_create pattern starts = begin pattern >>= finish pattern starts

-- `supervisor = self._supervisors.pop(pattern)` and what follows
abbrev drop : String → Option ℕ → Step Done
drop pattern none = raise key_error
drop pattern (some id) = modify (λ s. record s {
  supervisors = erase pattern s.supervisors;
  ref_counts = erase pattern s.ref_counts;
  stopped = s.stopped ++ (id ∷ []);
})

abbrev drop_at_zero : String → ℕ → Step Done
drop_at_zero pattern zero s = drop pattern (lookup pattern s.supervisors) s
drop_at_zero pattern (suc n) s = pure tt s

abbrev count_down : String → Option ℕ → Step Done
count_down pattern none = pure tt
count_down pattern (some n) =
    modify (λ s. record s { ref_counts = insert pattern (n - 1) s.ref_counts })
    >> drop_at_zero pattern (n - 1)

unfoldable pub release : String → Step Done
release pattern s = count_down pattern (lookup pattern s.ref_counts) s

unfoldable pub stop_all : Step Done
stop_all = modify (λ s. record s {
  supervisors = [];
  ref_counts = [];
  stopped = s.stopped ++ values s.supervisors;
})

abbrev or_zero : Option ℕ → ℕ
or_zero none = 0
or_zero (some n) = n

unfoldable pub get_ref_count : String → Registry → ℕ
get_ref_count pattern s = or_zero (lookup pattern s.ref_counts)
