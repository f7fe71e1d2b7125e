-- ===== src/Cache/Verify.antt =====
-- src/cache/mod.rs: the verification of cached slots against freshly fetched ones. The installed
-- batch fetcher is an argument, as is the type `E` of its errors, whose text the code keeps.
pub mod Outcomes
pub mod Reconciled
use evm_fork_cache.Prelude.{
  ℕ, suc, ◌≡◌, Bool, true, false, not, ◌&&◌, Option, none, some, List, [], ◌∷◌, map, length,
  filter_by, is_empty, ◌==◌, if◌then◌else◌, get_or,
}
use evm_fork_cache.Prelude.Eq.{nat_eq, pair_eq}
use evm_fork_cache.Prelude.Map.{Map, get, insert}
use evm_fork_cache.Word.{Address, U256, B256}
use evm_fork_cache.StateUpdate.{StateUpdate}
use evm_fork_cache.StateUpdate.Diff.{SlotChange}
use evm_fork_cache.Cache.State.{Layers, EvmCache, Revm}
use evm_fork_cache.Cache.Slots.{cached_storage_value}
use evm_fork_cache.Cache.Account.{Result, ok, err}
use evm_fork_cache.Cache.Batch.{apply_updates}

abbrev pub Key : Type 0
Key = Address × U256

-- `enum SlotFetch`
pub data SlotFetch (E : Type 0) : Type 0 where
  value : U256 → SlotFetch E
  zero_value : SlotFetch E
  fetch_failed : E → SlotFetch E
  not_attempted : SlotFetch E

-- `struct SlotOutcome`
pub record SlotOutcome (E : Type 0) : Type 0 where
  pub key : Key
  pub fetch : SlotFetch E

-- the `CacheError`s of these operations
pub data CacheError : Type 0 where
  missing_storage_batch_fetcher : CacheError
  reconcile_fetch_failed : ℕ → CacheError

abbrev pub Fetched : Type 0 → Type 0
Fetched E = Key × Result U256 E

-- alloy's `BlockId`: a number (or tag), or a hash
pub data BlockId : Type 0 where
  number : ℕ → BlockId
  hash : B256 → BlockId

-- `StorageBatchFetchFn`
abbrev pub StorageBatchFetchFn : Type 0 → Type 0
StorageBatchFetchFn E = List Key → BlockId → List (Fetched E)

-- the update that `inject_storage_batch_fresh` makes of a tuple
abbrev pub fresh_update : Key × U256 → StateUpdate
fresh_update (k, v) = StateUpdate.slot k.0 k.1 v

-- `EvmCache::inject_storage_batch_fresh`
unfoldable pub inject_storage_batch_fresh : Revm → EvmCache → List (Key × U256) → EvmCache
inject_storage_batch_fresh revm c results = (apply_updates revm c (map fresh_update results)).0

-- `cached`, the values before the fetch
unfoldable pub baseline : Layers → List Key → Map Key (Option U256)
baseline l [] = []
baseline l (k ∷ slots) = insert k (cached_storage_value l k.0 k.1) (baseline l slots)

-- `cached.get(&(addr, slot)).copied().flatten().unwrap_or(U256::ZERO)`
unfoldable pub old_value : Map Key (Option U256) → Key → U256
old_value cached k = elim (get k cached) [ none ↦ 0 | some found ↦ get_or found 0 ]

-- The variables of the loop over the results.
pub record Verified (E : Type 0) : Type 0 where
  pub changed : List SlotChange
  pub outcomes : List (SlotOutcome E)
  pub to_inject : List (Key × U256)

module _ {E : Type 0} where
  -- `EvmCache::classify`
  unfoldable pub classify : Result U256 E → SlotFetch E
  classify (ok v) = if v == 0 then zero_value else value v
  classify (err e) = fetch_failed e

  -- the second read of a result: what it adds to `to_inject` and `changed`
  unfoldable pub detect : Map Key (Option U256) → Key → Result U256 E → Verified E → Verified E
  detect cached k (err e) rest = rest
  detect cached k (ok fresh) rest =
      let old = old_value cached k in
      if fresh == old then rest else record rest {
        to_inject = (k, fresh) ∷ rest.to_inject;
        changed = (record { address = k.0; slot = k.1; old = old; new = fresh }) ∷ rest.changed;
      }

  -- the loop over the results
  unfoldable pub verify_loop : Map Key (Option U256) → List (Fetched E) → Verified E
  verify_loop cached [] = record { changed = []; outcomes = []; to_inject = [] }
  verify_loop cached ((k, fetched) ∷ results) =
      let rest = detect cached k fetched (verify_loop cached results) in
      record rest { outcomes = (record { key = k; fetch = classify fetched }) ∷ rest.outcomes }

  -- `matches!(o.fetch, SlotFetch::Value(_) | SlotFetch::Zero)`
  unfoldable pub is_fetched : SlotFetch E → Bool
  is_fetched (value v) = true
  is_fetched zero_value = true
  is_fetched (fetch_failed e) = false
  is_fetched not_attempted = false

module _ {E : Type 0} (revm : Revm) (fetcher : Option (StorageBatchFetchFn E))
    (block : BlockId) where
  abbrev pub Verdict : Type 0
  Verdict = List SlotChange × List (SlotOutcome E)

  -- `EvmCache::verify_slots_core`, and its alias `verify_slots_with_outcomes`
  unfoldable pub verify_slots_core : EvmCache → List Key → EvmCache × Result Verdict CacheError
  verify_slots_core c [] = (c, ok ([], []))
  verify_slots_core c (k ∷ slots) = elim fetcher [
    | none ↦ (c, err missing_storage_batch_fetcher)
    | some fetch ↦
        let v = verify_loop (baseline c.layers (k ∷ slots)) (fetch (k ∷ slots) block) in
        (
          (if is_empty v.to_inject then c else inject_storage_batch_fresh revm c v.to_inject),
          ok (v.changed, v.outcomes),
        )
  ]

  abbrev fetched_ok : List (SlotOutcome E) → ℕ
  fetched_ok outcomes = length (filter_by (λ o. is_fetched o.fetch) outcomes)

  abbrev inner_of : Result Verdict CacheError → Result (List SlotChange × ℕ) CacheError
  inner_of (ok v) = ok (v.0, fetched_ok v.1)
  inner_of (err e) = err e

  -- `EvmCache::verify_slots_inner`
  unfoldable pub verify_slots_inner :
      EvmCache → List Key → EvmCache × Result (List SlotChange × ℕ) CacheError
  verify_slots_inner c slots = let r = verify_slots_core c slots in (r.0, inner_of r.1)

  abbrev changed_of : Result (List SlotChange × ℕ) CacheError → Result (List SlotChange) CacheError
  changed_of (ok v) = ok v.0
  changed_of (err e) = err e

  -- `EvmCache::verify_slots`
  unfoldable pub verify_slots : EvmCache → List Key → EvmCache × Result (List SlotChange) CacheError
  verify_slots c slots = let r = verify_slots_inner c slots in (r.0, changed_of r.1)

  abbrev reconciled_of :
      List Key → Result (List SlotChange × ℕ) CacheError → Result (List SlotChange) CacheError
  reconciled_of slots (err e) = err e
  reconciled_of slots (ok v) =
      if not (is_empty slots) && (v.1 == 0)
      then err (reconcile_fetch_failed (length slots))
      else ok v.0

  -- `EvmCache::reconcile_slots`
  unfoldable pub reconcile_slots :
      EvmCache → List Key → EvmCache × Result (List SlotChange) CacheError
  reconcile_slots c slots = let r = verify_slots_inner c slots in (r.0, reconciled_of slots r.1)
