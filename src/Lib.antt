-- ===== src/Lib.antt =====
-- evm-fork-cache: an in-memory fork of an EVM chain, of which this library models the two-layer
-- state cache, its targeted updates, its snapshots, the event pipeline that feeds it, the bulk
-- extraction of storage, the simulation of bundles over a snapshot, its freshness bookkeeping, and the
-- validation of the canonical chain that a delivery of events is checked against.
--
-- `EvmCache` (src/cache/mod.rs) keeps two layers: revm's `CacheDB` overlay, which wins, and the
-- backend's maps of accounts and storage, which are fetched lazily. Targeted updates write through
-- both; `snapshot` folds the overlay over a memoized copy of the backend that it refreshes from a
-- set of dirty addresses and a scan; the freshness registry and the slot observations decide what is
-- fetched again, and `verify_slots` compares fetched values with cached ones. `EventPipeline` decodes
-- a block's logs into updates, applies them, and remembers what they touched, to purge it on a reorg.
-- An `EvmOverlay` reads a snapshot for one simulation, and `simulate_bundle` runs transactions on it.
-- The bulk fetcher answers `verify_slots` and the prefetches by planned calls of many slots each.
--
-- The files:
-- - Prelude, Word: lists, options, association lists for hash maps, lists for hash sets, and 256-bit
--   words as natural numbers with their saturating and bitwise operations.
-- - StateUpdate, StateUpdate/Diff (src/state_update.rs): `StateUpdate`, `SlotDelta`, `AccountPatch`,
--   `PurgeScope`, `StateDiff` and its operations; StateUpdate/Merge has the laws.
-- - Cache/State (src/cache/mod.rs, src/cache/snapshot.rs, src/cache/code_seeds.rs): the state. `Layers`
--   has the maps that an update writes, `EvmCache` adds the snapshot memo and the generation.
-- - Cache/Slots, Cache/Account, Cache/Purge, Cache/Apply, Cache/Batch: the functions of the same names
--   of `EvmCache`, from the layered reads to `apply_update` and `apply_updates`. A function that
--   changes the cache returns the new one. The child modules prove what they do.
-- - Cache/Snapshot (src/cache/mod.rs, src/cache/snapshot.rs): `refresh_base`, `build_base_full`,
--   `snapshot` and the reads of `EvmSnapshot`. Refresh, Coherent, Mutations, Keys, Effects, History
--   and Faithful build up from one rebuilt address to every history of a cache, a step relation.
-- - Cache/DeepClone (src/cache/mod.rs): `snapshot_deep_clone`. Merge and Agree are the proofs.
-- - Cache/Verify (src/cache/mod.rs): `verify_slots_core`, `verify_slots`, `reconcile_slots`.
-- - Events (src/events/mod.rs): `DecoderRegistry` and `EventPipeline`. Changes says what the diff of an
--   update names, Tracking what an ingestion notes of it, Reorg what a reorg purges, Horizon how long
--   the rings are.
-- - BulkStorage (src/bulk_storage.rs): `BulkCallConfig`, `plan_calls` and `group_plans_for_call_many`;
--   Words has the packed words, Calls one call and its response, Fetch `fetch_slots_bulk` and the
--   fetcher of `make_fetcher`. Planning, Limits, Bundles,
--   Answers, Latch and Overlap are the proofs; in Overlap the atomic steps of calls interleave.
-- - Cache/Overlay (src/cache/overlay.rs): `EvmOverlay` as revm's database over a snapshot, with its
--   `MissingState`. Cases, Reads, Missing and Commit are the proofs.
-- - Bundle (src/bundle.rs, src/cache/overlay.rs): `simulate_bundle` and its types. Outcome is about what
--   it returns, Isolation about the overlay that it leaves.
-- - Freshness (src/freshness.rs): `FreshnessRegistry`; Freshness/Observations
--   (src/cache/slot_observations.rs): `SlotObservationTracker`.
-- - Reactive (src/reactive/mod.rs): `CanonicalSequenceState`, its validation, the checks of every
--   `ChainControl` and the change that a control or a canonical block makes. Checks, Snapshot,
--   Canonical and Control are the functions, and Accept a turn of the loop over an envelope's controls;
--   Heads, Finality, Wellformed, Ordering, Identities, Retained and Rewind are the proofs.
-- - AccessSet (src/access_set.rs): `StorageAccessList`. PrefetchRegistry (src/prefetch_registry.rs): the
--   registry and its batched prefetch. Cancellation (src/cancellation.rs):
--   `SimulationCancellationToken`, whose atomic operations are steps.
-- - Tests: concrete caches, registries and chains.
--
-- What is a parameter: revm's `insert_account_info`, `Bytecode` and its hash, with the laws that the
-- code relies on (`Revm`); the batch fetcher and its errors; the arithmetic on `f64` (`Float`); the
-- decoders of events, which are trait objects in the code; the provider's answers, the ABI coding of
-- `aggregate3` and the bytes of a word (`Rpc`, `WordBytes`); the external database of an overlay
-- (`SharedBackend`); and revm's execution of a bundle (`Evm`), which may be taken to do no more to the
-- database under its journal than read it (`OnlyReads`).
-- Fuel: `updates_loop` runs on the number of updates, and each turn consumes one at least; the result
-- on `apply_updates` is proved with the fuel that `apply_updates` gives. `chunks` runs on the length
-- of its list, and each chunk takes an element at least.
-- Integers: a `U256` is a natural number, and only the saturating operations bound it; the generation
-- wraps at 2^64 and the observation counters at 2^32.
--
-- Not modelled: execution of transactions, which is revm's, with single calls and inspectors; the
-- provider, threads, files and logging; block environment fields; the rest of the reactive runtime, in
-- which a batch's records and reorgs are staged; cold start, transaction access lists and persistence.
pub mod Prelude
pub mod Word
pub mod StateUpdate
pub mod Cache
pub mod Events
pub mod BulkStorage
pub mod Bundle
pub mod Freshness
pub mod Reactive
pub mod AccessSet
pub mod PrefetchRegistry
pub mod Cancellation
pub mod Tests
