-- ===== src/Cache/Snapshot/History.antt =====
-- Every history of a cache: its own mutations, snapshots, lazy fetches that the backend makes
-- behind its back, and any change of the layer-1 overlay by EVM execution or `restore`.
use evm_fork_cache.Prelude.{◌≡◌, refl, sym, subst, ap, inl, inr, none, List, [], ◌∷◌}
use evm_fork_cache.Prelude.Eq.{nat_eq}
use evm_fork_cache.Prelude.Map.{Map, get, Unique}
use evm_fork_cache.Word.{Address, U256}
use evm_fork_cache.StateUpdate.{StateUpdate}
use evm_fork_cache.StateUpdate.Diff.{StateDiff, empty_diff}
use evm_fork_cache.Cache.State.{
  AccountInfo, DbAccount, Layers, EvmCache, Revm, bump_snapshot_generation, invalidate_base,
}
use evm_fork_cache.Cache.Slots.{inject_storage_batch, mark_base_dirty, inject_writes, inject_marks}
use evm_fork_cache.Cache.Purge.{purge_contracts_storage, purge_all_storage}
use evm_fork_cache.Cache.Apply.{apply_update}
use evm_fork_cache.Cache.Batch.{apply_updates}
use evm_fork_cache.Cache.Batch.Sequential.{apply_updates-layers}
use evm_fork_cache.Cache.Snapshot.{refresh_base, snapshot}
use evm_fork_cache.Cache.Snapshot.Coherent.{
  read, IsCoherent, IsFresh-IsCoherent, refresh_base-IsFresh, refresh_base-layers,
}
use evm_fork_cache.Cache.Snapshot.Mutations.{Marked, apply_arm-Marked, inject_storage_batch-Marked}
use evm_fork_cache.Cache.Snapshot.Keys.{
  IsKeyed, apply_arm-IsKeyed, purge_contracts_loop-IsKeyed, clear_all-Unique,
}
use evm_fork_cache.Cache.Snapshot.Effects.{
  Marked-IsCoherent, fetch_slot, fetch_account, fetch_slot-BaseTracks, fetch_account-BaseTracks,
  SameMemo, apply_updates-SameMemo, sequential-Marked, sequential-IsKeyed,
}

-- One step of a cache. A lazy fetch answers from the store what is there, so it inserts only what
-- is not.
pub data Step (revm : Revm) (c d : EvmCache) : Type 0 where
  updated : (u : StateUpdate) → d ≡ (apply_update revm c u).0 → Step revm c d
  batched : (us : List StateUpdate) → d ≡ (apply_updates revm c us).0 → Step revm c d
  prefetched :
      (results : List (Address × (U256 × U256)))
      → d ≡ inject_storage_batch c results
      → Step revm c d
  purged_contracts :
      (addresses : List Address) → d ≡ (purge_contracts_storage c addresses).0 → Step revm c d
  purged_all : d ≡ (purge_all_storage c).0 → Step revm c d
  invalidated : d ≡ invalidate_base c → Step revm c d
  fetched_slot :
      (a : Address) (s v : U256)
      → read (get a c.storage) s ≡ none
      → d ≡ fetch_slot c a s v
      → Step revm c d
  fetched_account :
      (a : Address) (i : AccountInfo)
      → get a c.accounts ≡ none
      → d ≡ fetch_account c a i
      → Step revm c d
  executed :
      (overlay : Map Address DbAccount)
      → Unique overlay
      → d ≡ record c { layers = record (c.layers) { overlay = overlay } }
      → Step revm c d
  snapshotted : d ≡ (snapshot c).0 → Step revm c d

-- A history from a cache that has no memoized base yet, as every constructor leaves it.
pub data Reach (revm : Revm) : EvmCache → Type 0 where
  start : (c : EvmCache) → c.base ≡ none → Unique c.overlay → Reach revm c
  next : {c d : EvmCache} → Reach revm c → Step revm c d → Reach revm d

-- The memo is coherent with layer 2, and the overlay's keys are distinct.
pub record Inv (c : EvmCache) : Type 0 where
  pub coherent : IsCoherent c
  pub keyed : IsKeyed c.layers

-- a step that leaves the memo alone and marks what it changes
Marked-Inv :
    (c d : EvmCache) → SameMemo c d → Marked c.layers d.layers → IsKeyed d.layers → Inv c → Inv d
Marked-Inv c d same m k inv = record {
  coherent = Marked-IsCoherent c d same.0 same.1 same.2 m inv.coherent;
  keyed = k;
}

updated-Inv : (revm : Revm) (c : EvmCache) (u : StateUpdate) → Inv c → Inv (apply_update revm c u).0
unfolding apply_update bump_snapshot_generation
updated-Inv revm c u inv =
    Marked-Inv c (apply_update revm c u).0 (refl, refl, refl) (apply_arm-Marked revm c.layers u)
      (apply_arm-IsKeyed revm c.layers u inv.keyed) inv

batched-Inv :
    (revm : Revm) (c : EvmCache) (us : List StateUpdate) → Inv c → Inv (apply_updates revm c us).0
batched-Inv revm c us inv =
    let e = sym (ap (λ (r : Layers × StateDiff). r.0) (apply_updates-layers revm c us)) in
    Marked-Inv c (apply_updates revm c us).0 (apply_updates-SameMemo revm c us)
      (subst (Marked c.layers) e (sequential-Marked revm c.layers us empty_diff))
      (subst IsKeyed e (sequential-IsKeyed revm c.layers us empty_diff inv.keyed)) inv

inject_marks-overlay :
    (results : List (Address × (U256 × U256))) (l : Layers)
    → (inject_marks results l).overlay ≡ l.overlay
unfolding inject_marks mark_base_dirty
inject_marks-overlay [] l = refl
inject_marks-overlay ((a, r) ∷ results) l = inject_marks-overlay results (mark_base_dirty l a)

prefetched-Inv :
    (c : EvmCache) (results : List (Address × (U256 × U256)))
    → Inv c
    → Inv (inject_storage_batch c results)
unfolding inject_storage_batch
prefetched-Inv c results inv =
    Marked-Inv c (inject_storage_batch c results) (refl, refl, refl)
      (inject_storage_batch-Marked c results)
      (subst Unique
        (sym (
          inject_marks-overlay results
            (record (c.layers) { storage = inject_writes results c.storage })))
        inv.keyed)
      inv

purged_contracts-Inv :
    (c : EvmCache) (addresses : List Address) → Inv c → Inv (purge_contracts_storage c addresses).0
unfolding purge_contracts_storage invalidate_base
purged_contracts-Inv c addresses inv = record {
  coherent = inl refl;
  keyed = purge_contracts_loop-IsKeyed c.layers addresses 0 inv.keyed;
}

purged_all-Inv : (c : EvmCache) → Inv c → Inv (purge_all_storage c).0
unfolding purge_all_storage invalidate_base
purged_all-Inv c inv = record { coherent = inl refl; keyed = clear_all-Unique c.overlay inv.keyed }

invalidated-Inv : (c : EvmCache) → Inv c → Inv (invalidate_base c)
unfolding invalidate_base
invalidated-Inv c inv = record { coherent = inl refl; keyed = inv.keyed }

fetched_slot-Inv :
    (c : EvmCache) (a : Address) (s v : U256)
    → read (get a c.storage) s ≡ none
    → Inv c
    → Inv (fetch_slot c a s v)
unfolding fetch_slot
fetched_slot-Inv c a s v new inv = record { coherent = coherent inv.coherent; keyed = inv.keyed }
  where
    coherent : IsCoherent c → IsCoherent (fetch_slot c a s v)
    coherent (inl full) = inl full
    coherent (inr tracks) = inr (λ b e d. fetch_slot-BaseTracks c b a d s v new (tracks b e d))

fetched_account-Inv :
    (c : EvmCache) (a : Address) (i : AccountInfo)
    → get a c.accounts ≡ none
    → Inv c
    → Inv (fetch_account c a i)
unfolding fetch_account
fetched_account-Inv c a i new inv = record { coherent = coherent inv.coherent; keyed = inv.keyed }
  where
    coherent : IsCoherent c → IsCoherent (fetch_account c a i)
    coherent (inl full) = inl full
    coherent (inr tracks) = inr (λ b e d. fetch_account-BaseTracks c b a d i new (tracks b e d))

executed-Inv :
    (c : EvmCache) (overlay : Map Address DbAccount)
    → Unique overlay
    → Inv c
    → Inv (record c { layers = record (c.layers) { overlay = overlay } })
executed-Inv c overlay u inv = record { coherent = inv.coherent; keyed = u }

snapshotted-Inv : (c : EvmCache) → Inv c → Inv (snapshot c).0
unfolding snapshot
snapshotted-Inv c inv =
    let (b, fresh) = refresh_base-IsFresh c inv.coherent in
    record {
      coherent = IsFresh-IsCoherent (refresh_base c) b fresh;
      keyed = subst Unique (sym (refresh_base-layers c).0) inv.keyed;
    }

-- Every step keeps the memoized base coherent with layer 2: a full rebuild is pending, or an address
-- that is not marked dirty is tracked, so that it reads the same in both or the next scan has reason
-- to mark it. It keeps the keys of the overlay distinct.
pub Step-Inv : (revm : Revm) (c d : EvmCache) → Step revm c d → Inv c → Inv d
Step-Inv revm c d (updated u e) inv = subst Inv (sym e) (updated-Inv revm c u inv)
Step-Inv revm c d (batched us e) inv = subst Inv (sym e) (batched-Inv revm c us inv)
Step-Inv revm c d (prefetched results e) inv = subst Inv (sym e) (prefetched-Inv c results inv)
Step-Inv revm c d (purged_contracts addresses e) inv =
    subst Inv (sym e) (purged_contracts-Inv c addresses inv)
Step-Inv revm c d (purged_all e) inv = subst Inv (sym e) (purged_all-Inv c inv)
Step-Inv revm c d (invalidated e) inv = subst Inv (sym e) (invalidated-Inv c inv)
Step-Inv revm c d (fetched_slot a s v new e) inv =
    subst Inv (sym e) (fetched_slot-Inv c a s v new inv)
Step-Inv revm c d (fetched_account a i new e) inv =
    subst Inv (sym e) (fetched_account-Inv c a i new inv)
Step-Inv revm c d (executed overlay u e) inv = subst Inv (sym e) (executed-Inv c overlay u inv)
Step-Inv revm c d (snapshotted e) inv = subst Inv (sym e) (snapshotted-Inv c inv)

pub Reach-Inv : (revm : Revm) (c : EvmCache) → Reach revm c → Inv c
Reach-Inv revm c (start _ unset u) = record { coherent = inr (λ b e. cc); keyed = u }
Reach-Inv revm d (next {c} r s) = Step-Inv revm c d s (Reach-Inv revm c r)
