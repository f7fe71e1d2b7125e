-- ===== src/Freshness/Observations.antt =====
-- src/cache/slot_observations.rs: how often slots change, and when one is fetched again.
--
-- The thresholds that are `f64` and the arithmetic on them are the fields of `Float`, of which
-- nothing is assumed. The counters are `u32` and wrap, as in a release build. The file on disk is
-- not modelled.
use evm_fork_cache.Prelude.{
  ℕ, ◌+◌, ◌-◌, ◌%◌, ◌^◌, Bool, true, false, not, Option, none, some, List, [], ◌∷◌, ◌++◌, ltb, leb,
  ◌==◌, if◌then◌else◌, filter_by,
}
use evm_fork_cache.Prelude.Eq.{pair_eq}
use evm_fork_cache.Prelude.Map.{Map, get, insert, map_option, retain}
use evm_fork_cache.Word.{Address, U256}

-- `f64`: what the code uses of it
pub record Float : Type 1 where
  pub F64 : Type 0
  pub of_int : ℕ → F64
  pub div : F64 → F64 → F64
  pub mul : F64 → F64 → F64
  pub max : F64 → F64 → F64
  pub gt : F64 → F64 → Bool

-- `struct FreshnessParams`
pub record FreshnessParams (float : Float) : Type 0 where
  pub min_observations : ℕ
  pub max_reuse : ℕ
  pub cycle_interval : ℕ
  pub always_refetch_rate : float.F64
  pub staleness_threshold : float.F64

-- `struct SlotObservation`
pub record SlotObservation : Type 0 where
  pub last_seen : U256
  pub observation_count : ℕ
  pub change_count : ℕ
  pub last_checked : ℕ
  pub last_changed : ℕ

-- `struct SlotObservationTracker`; a pair is a `SlotKey`
pub record SlotObservationTracker : Type 0 where
  pub observations : Map (Address × U256) SlotObservation
  pub skipped_this_cycle : List (Address × U256)
  pub dirty : Bool

-- `SlotObservationTracker::new`
unfoldable pub new_tracker : SlotObservationTracker
new_tracker = record { observations = []; skipped_this_cycle = []; dirty = false }

-- the `Some` arm of `observe`
unfoldable pub observe_again : SlotObservation → U256 → ℕ → SlotObservation
observe_again obs value now =
    let counted = record obs {
      observation_count = (obs.observation_count + 1) % 2 ^ 32;
      last_checked = now;
    } in
    if obs.last_seen == value then counted else record counted {
      change_count = (obs.change_count + 1) % 2 ^ 32;
      last_changed = now;
      last_seen = value;
    }

-- `SlotObservationTracker::observe`
unfoldable pub observe :
    SlotObservationTracker → Address → U256 → U256 → ℕ → SlotObservationTracker × Bool
observe t a s value now = elim (get (a, s) t.observations) [
  | some obs ↦ (
    record t {
      observations = insert (a, s) (observe_again obs value now) t.observations;
      dirty = true;
    },
    not (obs.last_seen == value),
  )
  | none ↦ (
    record t {
      observations =
          insert (a, s)
            (record {
              last_seen = value;
              observation_count = 1;
              change_count = 0;
              last_checked = now;
              last_changed = 0;
            })
            t.observations;
      dirty = true;
    },
    false,
  )
]

-- `u64::max(1)`
abbrev at_least_one : ℕ → ℕ
at_least_one n = if leb 1 n then n else 1

module _ (float : Float) where
  -- the rates of `should_refetch`, for a slot that has changed
  unfoldable pub is_stale : SlotObservation → ℕ → FreshnessParams float → Bool
  is_stale obs now params =
      let change_rate =
        float.div (float.of_int obs.change_count) (float.of_int obs.observation_count) in
      let units_elapsed = float.of_int (now - obs.last_checked) in
      let cycle_interval = float.of_int (at_least_one params.cycle_interval) in
      let cycles_elapsed = float.max (float.div units_elapsed cycle_interval) (float.of_int 1) in
      let expected_changes = float.mul change_rate cycles_elapsed in
      if float.gt change_rate params.always_refetch_rate
      then true
      else float.gt expected_changes params.staleness_threshold

  -- `SlotObservationTracker::should_refetch`, for a slot that was observed
  unfoldable pub refetch_observed : SlotObservation → ℕ → FreshnessParams float → Bool
  refetch_observed obs now params =
      if ltb obs.observation_count params.min_observations
      then true
      else if ltb params.max_reuse (now - obs.last_checked)
      then true
      else if obs.change_count == 0
      then false
      else is_stale obs now params

  -- `SlotObservationTracker::should_refetch`
  unfoldable pub should_refetch :
      SlotObservationTracker → Address → U256 → ℕ → FreshnessParams float → Bool
  should_refetch t a s now params = elim (get (a, s) t.observations) [
    | none ↦ true
    | some obs ↦ refetch_observed obs now params
  ]

  -- `ObservationDriven::select`, a policy; `AlwaysVerify::select` and `NeverVerify::select` return
  -- all of the candidates and none
  unfoldable pub select_observation_driven :
      List (Address × U256)
      → SlotObservationTracker
      → ℕ
      → FreshnessParams float
      → List (Address × U256)
  select_observation_driven candidates t now params =
      filter_by (λ k. should_refetch t k.0 k.1 now params) candidates

-- `SlotObservationTracker::record_skip`
unfoldable pub record_skip : SlotObservationTracker → Address → U256 → SlotObservationTracker
record_skip t a s = record t { skipped_this_cycle = t.skipped_this_cycle ++ (a, s) ∷ [] }

-- `SlotObservationTracker::take_skipped`
unfoldable pub take_skipped :
    SlotObservationTracker → SlotObservationTracker × List (Address × U256)
take_skipped t = (record t { skipped_this_cycle = [] }, t.skipped_this_cycle)

-- `SlotObservationTracker::reset_contract`
unfoldable pub reset_contract : SlotObservationTracker → Address → SlotObservationTracker
reset_contract t a = record t {
  observations = retain (λ k. not (k.0 == a)) t.observations;
  dirty = true;
}

-- `SlotObservationTracker::begin_cycle`
unfoldable pub begin_cycle : SlotObservationTracker → SlotObservationTracker
begin_cycle t = record t { skipped_this_cycle = [] }

-- `SlotObservationTracker::last_value`
unfoldable pub last_value : SlotObservationTracker → Address → U256 → Option U256
last_value t a s = map_option (λ o. o.last_seen) (get (a, s) t.observations)
