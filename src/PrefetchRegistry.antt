-- ===== src/PrefetchRegistry.antt =====
-- src/prefetch_registry.rs: the slots that earlier cycles touched, by phase, and their batched
-- prefetch into layer 2. A phase's name is of a type `Name` with equality; the installed batch
-- fetcher and the cache's block are arguments. The file on disk is not modelled.
pub mod Requests
pub mod Reads
use evm_fork_cache.Prelude.{
  ℕ, suc, Bool, Option, none, some, List, [], ◌∷◌, is_empty, length, if◌then◌else◌, get_or,
}
use evm_fork_cache.Prelude.Eq.{Eq, nat_eq, pair_eq}
use evm_fork_cache.Prelude.Map.{Map, get, insert}
use evm_fork_cache.Prelude.Set.{add_each}
use evm_fork_cache.Word.{Address, U256}
use evm_fork_cache.Cache.State.{EvmCache}
use evm_fork_cache.Cache.Slots.{inject_storage_batch}
use evm_fork_cache.Cache.Account.{Result, ok, err}
use evm_fork_cache.Cache.Verify.{Key, Fetched, BlockId, StorageBatchFetchFn}
use evm_fork_cache.AccessSet.{StorageAccessList, difference}

-- `struct PrefetchRegistry`
pub record PrefetchRegistry (Name : Type 0) : Type 0 where
  pub phases : Map Name StorageAccessList
  pub keyed_phases : Map Name (Map Address StorageAccessList)

-- the slots that `prefetch_keyed` collects of a phase's map
unfoldable pub keyed_slots : Map Address StorageAccessList → List Address → List Key → List Key
keyed_slots keyed_map [] exclude = []
keyed_slots keyed_map (addr ∷ keys) exclude =
    let rest = keyed_slots keyed_map keys exclude in
    elim (get addr keyed_map) [
      | none ↦ rest
      | some al ↦ add_each (difference al.slots exclude) rest
    ]

module _ {Name : Type 0} ⦃e : Eq Name⦄ where
  -- `PrefetchRegistry::record`
  unfoldable pub record_phase :
      PrefetchRegistry Name → Name → StorageAccessList → PrefetchRegistry Name
  record_phase r phase access_list = record r { phases = insert phase access_list r.phases }

  -- `PrefetchRegistry::record_keyed`
  unfoldable pub record_keyed :
      PrefetchRegistry Name → Name → Address → StorageAccessList → PrefetchRegistry Name
  record_keyed r phase key access_list = record r {
    keyed_phases =
        insert phase (insert key access_list (get_or (get phase r.keyed_phases) [])) r.keyed_phases;
  }

  -- `PrefetchRegistry::phase_slots`
  unfoldable pub phase_slots : PrefetchRegistry Name → Name → List Key
  phase_slots r phase = elim (get phase r.phases) [ none ↦ [] | some al ↦ al.slots ]

module _ {E : Type 0} where
  -- the loop over the results: the successes and the number of errors
  unfoldable pub split_results : List (Fetched E) → List (Address × (U256 × U256)) × ℕ
  split_results [] = ([], 0)
  split_results ((k, err e) ∷ results) =
      let (successes, errors) = split_results results in (successes, suc errors)
  split_results ((k, ok v) ∷ results) =
      let (successes, errors) = split_results results in ((k.0, (k.1, v)) ∷ successes, errors)

  -- `fn batch_prefetch`
  unfoldable pub batch_prefetch :
      Option (StorageBatchFetchFn E) → BlockId → EvmCache → List Key → EvmCache × (ℕ × ℕ)
  batch_prefetch fetcher block c requests =
      if is_empty requests then (c, (0, 0)) else elim fetcher [
        | none ↦ (c, (0, 0))
        | some fetch ↦
            let (successes, errors) = split_results (fetch requests block) in
            (inject_storage_batch c successes, (length successes, errors))
      ]

  module _ {Name : Type 0} ⦃e : Eq Name⦄ where
    -- `PrefetchRegistry::prefetch_phase`
    unfoldable pub prefetch_phase :
        PrefetchRegistry Name
        → Name
        → Option (StorageBatchFetchFn E)
        → BlockId
        → EvmCache
        → EvmCache × (ℕ × ℕ)
    prefetch_phase r phase fetcher block c = elim (get phase r.phases) [
      | none ↦ (c, (0, 0))
      | some access_list ↦
          if is_empty access_list.slots
          then (c, (0, 0))
          else batch_prefetch fetcher block c access_list.slots
    ]

    -- `PrefetchRegistry::prefetch_keyed`
    unfoldable pub prefetch_keyed :
        PrefetchRegistry Name
        → Name
        → List Address
        → List Key
        → Option (StorageBatchFetchFn E)
        → BlockId
        → EvmCache
        → EvmCache × (ℕ × ℕ)
    prefetch_keyed r phase keys exclude fetcher block c = elim (get phase r.keyed_phases) [
      | none ↦ (c, (0, 0))
      | some keyed_map ↦
          let slots = keyed_slots keyed_map keys exclude in
          if is_empty slots then (c, (0, 0)) else batch_prefetch fetcher block c slots
    ]
