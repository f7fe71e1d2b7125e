-- ===== src/Tests/Prefetch.antt =====
-- One run of a prefetch of two recorded keys, with one slot excluded, by a fetcher that fails on the
-- second slot it is asked for.
use evm_fork_cache.Prelude.{
  ℕ, ◌+◌, ◌≡◌, refl, not, ◌&&◌, some, List, [], ◌∷◌, if◌then◌else◌, is_empty, length,
}
use evm_fork_cache.Prelude.Eq.{nat_eq, pair_eq}
use evm_fork_cache.Prelude.Map.{get, insert}
use evm_fork_cache.Prelude.Set.{contains, add, add_each}
use evm_fork_cache.Cache.Slots.{backend_value}
use evm_fork_cache.Cache.Verify.{Key, BlockId}
use evm_fork_cache.Cache.Verify.Reconciled.{Answers}
use evm_fork_cache.AccessSet.{StorageAccessList, difference}
use evm_fork_cache.PrefetchRegistry.{PrefetchRegistry, keyed_slots, record_keyed, prefetch_keyed}
use evm_fork_cache.PrefetchRegistry.Requests.{requested, is_recorded}
use evm_fork_cache.PrefetchRegistry.Reads.{landed, prefetch_keyed-reads}
use evm_fork_cache.Tests.Data.{cache}
use evm_fork_cache.Tests.Caches.{fetch, asked, fetch-Answers}

abbrev slots_of : List Key → StorageAccessList
slots_of slots = record { accounts = []; code_hashes = []; slots = slots; block_numbers = [] }

abbrev registry : PrefetchRegistry ℕ
registry =
    record_keyed
      (record_keyed (record { phases = []; keyed_phases = [] }) 7 1
        (slots_of ((1, 5) ∷ (2, 6) ∷ [])))
      7 2 (slots_of ((3, 5) ∷ []))

abbrev excluded : List Key
excluded = (2, 6) ∷ []

recorded_slots : requested registry 7 (1 ∷ 2 ∷ []) excluded ≡ asked
unfolding record_keyed keyed_slots get insert add_each add contains difference
recorded_slots = refl

recorded-Answers : Answers ℕ fetch (requested registry 7 (1 ∷ 2 ∷ []) excluded) (BlockId.number 9)
recorded-Answers = rw recorded_slots fetch-Answers

prefetch_keyed-reads_example :
    let slots = requested registry 7 (1 ∷ 2 ∷ []) excluded in
    let after =
      prefetch_keyed registry 7 (1 ∷ 2 ∷ []) excluded (some fetch) (BlockId.number 9) cache in
    (backend_value after.0.storage 1 5 ≡ (
      if is_recorded registry 7 (1 ∷ 2 ∷ []) (1, 5) && not (contains (1, 5) excluded)
      then landed (backend_value cache.storage 1 5) (get (1, 5) (fetch slots (BlockId.number 9)))
      else backend_value cache.storage 1 5))
    × (after.0.overlay ≡ cache.overlay)
    × (after.1.0 + after.1.1
        ≡ (if is_empty slots then 0 else length (fetch slots (BlockId.number 9))))
prefetch_keyed-reads_example =
    prefetch_keyed-reads fetch (BlockId.number 9) registry 7 (1 ∷ 2 ∷ []) excluded cache (1, 5)
      recorded-Answers
