-- ===== src/Tests/Caches.antt =====
-- One run of each result on whole caches: histories, snapshots and verifications.
use evm_fork_cache.Prelude.{
  if◌then◌else◌, ℕ, get_or, is_some, ◌≡◌, refl, true, none, some, List, [], ◌∷◌, arith, Bool-cases,
  inl, inr, ◌⊎◌,
}
use evm_fork_cache.Prelude.Eq.{nat_eq, pair_eq, pair_beq}
use evm_fork_cache.Prelude.Map.{get}
use evm_fork_cache.Prelude.Set.{contains}
use evm_fork_cache.StateUpdate.{StateUpdate}
use evm_fork_cache.Cache.State.{EvmCache}
use evm_fork_cache.Cache.Account.{ok, err}
use evm_fork_cache.Cache.Apply.{apply_update}
use evm_fork_cache.Cache.Batch.{apply_updates}
use evm_fork_cache.Cache.Snapshot.{snapshot, storage_value, account_info}
use evm_fork_cache.Cache.DeepClone.{snapshot_deep_clone}
use evm_fork_cache.Cache.DeepClone.Agree.{snapshot_deep_clone-Agree}
use evm_fork_cache.Cache.Snapshot.History.{
  updated, batched, snapshotted, Reach, start, next, Inv, Step-Inv,
}
use evm_fork_cache.Cache.Snapshot.Faithful.{IsFaithful, snapshot-IsFaithful}
use evm_fork_cache.Cache.Verify.{
  BlockId, Key, Fetched, reconcile_fetch_failed, verify_slots_core, reconcile_slots,
}
use evm_fork_cache.Cache.Verify.Outcomes.{reconcile_slots-eq}
use evm_fork_cache.Cache.Verify.Reconciled.{read_key, settled, Answers, verify_slots_core-reads}
use evm_fork_cache.Cache.Slots.{cached_storage_value}
use evm_fork_cache.Cache.Overlay.{new_overlay, storage}
use evm_fork_cache.Cache.Overlay.Reads.{storage-cached}
use evm_fork_cache.Tests.Data.{revm, cache, updates}

-- a snapshot, a batch, and one more update after it
abbrev later : EvmCache
later =
    (apply_update revm (apply_updates revm (snapshot cache).0 updates).0
      (StateUpdate.slot 1 6 61)).0

later-Reach : Reach revm later
unfolding get
later-Reach =
    next
      (next (next (start cache refl ((refl, (refl, tt)))) (snapshotted refl))
        (batched updates refl))
      (updated (StateUpdate.slot 1 6 61) refl)

snapshot-IsFaithful_example : IsFaithful revm later
snapshot-IsFaithful_example = snapshot-IsFaithful revm later later-Reach

cache-Inv : Inv cache
unfolding get
cache-Inv = record { coherent = inr (λ b e. cc); keyed = (refl, (refl, tt)) }

Step-Inv_example : Inv (snapshot cache).0
Step-Inv_example = Step-Inv revm cache (snapshot cache).0 (snapshotted refl) cache-Inv

-- a fetcher that fails on the second slot it is asked for
abbrev pub fetch : List Key → BlockId → List (Fetched ℕ)
fetch slots block = ((1, 5), ok 77) ∷ ((3, 5), err 404) ∷ []

abbrev pub asked : List Key
asked = (1, 5) ∷ (3, 5) ∷ []

fetched_requested :
    (k : Key) → (get k (fetch asked (BlockId.number 9)) ≡ none) ⊎ (contains k asked ≡ true)
unfolding get contains
fetched_requested k = elim (Bool-cases (pair_beq (1, 5) k)) [
  | inl first ↦ inr (rw first refl)
  | inr other ↦ elim (Bool-cases (pair_beq (3, 5) k)) [
    | inl second ↦ inr (ground arith)
    | inr neither ↦ inl (ground arith)
  ]
]

pub fetch-Answers : Answers ℕ fetch asked (BlockId.number 9)
unfolding get
fetch-Answers = record { distinct = (refl, (refl, tt)); requested = fetched_requested }

verify_slots_core-reads_example :
    read_key (verify_slots_core revm (some fetch) (BlockId.number 9) cache asked).0.layers (3, 5)
    ≡ settled (read_key cache.layers (3, 5)) (get (3, 5) (fetch asked (BlockId.number 9)))
verify_slots_core-reads_example =
    verify_slots_core-reads revm fetch (BlockId.number 9) cache asked (3, 5) fetch-Answers

-- every fetch fails
abbrev dead : List Key → BlockId → List (Fetched ℕ)
dead slots block = ((1, 5), err 404) ∷ []

reconcile_slots-eq_example :
    (reconcile_slots revm (some dead) (BlockId.number 9) cache ((1, 5) ∷ [])).1
    ≡ err (reconcile_fetch_failed 1)
reconcile_slots-eq_example =
    reconcile_slots-eq revm (BlockId.number 9) (some dead) cache ((1, 5) ∷ [])

abbrev taken : IsFaithful revm later
taken = snapshot-IsFaithful revm later later-Reach

storage-cached_example :
    let r = storage {E = ℕ} (new_overlay taken.0 [] none) 1 6 in
    let cached = cached_storage_value later.layers 1 6 in
    (r.1 ≡ ok (get_or cached 0))
    × (r.0.missing_state ≡ record {
      accounts = [];
      code_hashes = [];
      missing_storage = if is_some cached then [] else (1, 6) ∷ [];
      block_hashes = [];
    })
storage-cached_example = storage-cached revm later taken.0 [] 1 6 later-Reach taken.1

snapshot_deep_clone-Agree_example :
    (storage_value (snapshot_deep_clone later) 1 6 ≡ storage_value taken.0 1 6)
    × (account_info (snapshot_deep_clone later) 1 ≡ account_info taken.0 1)
snapshot_deep_clone-Agree_example =
    snapshot_deep_clone-Agree revm later taken.0 1 6 later-Reach taken.1
