-- ===== src/Events.antt =====
-- src/events/mod.rs: the pipeline that decodes a block's logs, applies the updates, and remembers
-- what it touched for a reorg. A decoder is any function, as in the code a trait object is.
pub mod Horizon
pub mod Changes
pub mod Tracking
pub mod Reorg
use evm_fork_cache.Prelude.{
  ℕ, ◌+◌, Bool, not, Option, List, [], ◌∷◌, ◌++◌, length, is_empty, filter_by, ltb, leb, map,
  if◌then◌else◌, get_or, for_each,
}
use evm_fork_cache.Prelude.Eq.{nat_eq, pair_eq}
use evm_fork_cache.Prelude.Map.{Map, get, insert}
use evm_fork_cache.Prelude.Set.{contains, add, add_each}
use evm_fork_cache.Word.{Address, U256, B256}
use evm_fork_cache.StateUpdate.{StateUpdate, PurgeScope}
use evm_fork_cache.StateUpdate.Diff.{
  StateDiff, SlotChange, AccountChange, PurgeRecord, SkippedDelta, SkippedBalanceDelta, SkippedMask,
  SkippedAccountPatch, empty_diff, merge,
}
use evm_fork_cache.Cache.State.{EvmCache, Revm}
use evm_fork_cache.Cache.Slots.{cached_storage_value}
use evm_fork_cache.Cache.Account.{Result, ok, err}
use evm_fork_cache.Cache.Batch.{apply_updates}
use evm_fork_cache.Cache.Verify.{Key, StorageBatchFetchFn, CacheError, reconcile_slots, BlockId}

-- alloy's `Log`
pub record Log : Type 0 where
  pub address : Address
  pub topics : List B256
  pub log_data : List ℕ

-- `trait StateView`, and its implementation for the cache
abbrev pub StateView : Type 0
StateView = Address → U256 → Option U256

-- `trait EventDecoder`
abbrev pub EventDecoder : Type 0
EventDecoder = Log → StateView → List StateUpdate

-- `struct DecoderRegistry`
pub record DecoderRegistry : Type 0 where
  pub global : List EventDecoder
  pub per_address : Map Address (List EventDecoder)

-- `DecoderRegistry::new`
abbrev pub no_decoders : DecoderRegistry
no_decoders = record { global = []; per_address = [] }

-- `DecoderRegistry::register`
unfoldable pub register : DecoderRegistry → EventDecoder → DecoderRegistry
register r decoder = record r { global = r.global ++ decoder ∷ [] }

-- `DecoderRegistry::register_for_address`
unfoldable pub register_for_address : DecoderRegistry → Address → EventDecoder → DecoderRegistry
register_for_address r a decoder =
    let decoders = get_or (get a r.per_address) [] ++ decoder ∷ [] in
    record r { per_address = insert a decoders r.per_address }

-- `for decoder in decoders { out.extend(decoder.decode(log, view)) }`
unfoldable pub decode_all : List EventDecoder → Log → StateView → List StateUpdate
decode_all [] log view = []
decode_all (decoder ∷ decoders) log view = decoder log view ++ decode_all decoders log view

-- `DecoderRegistry::decode`
unfoldable pub decode : DecoderRegistry → Log → StateView → List StateUpdate
decode r log view =
    decode_all (get_or (get log.address r.per_address) []) log view ++ decode_all r.global log view

-- `struct ReorgConfig`
pub record ReorgConfig : Type 0 where
  pub depth : ℕ
  pub scope : PurgeScope

-- `ReorgConfig::default`
abbrev pub default_reorg_config : ReorgConfig
default_reorg_config = record { depth = 64; scope = PurgeScope.all_storage }

-- `struct BlockDigest`
pub record BlockDigest : Type 0 where
  pub block : ℕ
  pub applied : StateDiff
  pub decoded_logs : ℕ
  pub touched_slots : List Key

-- `struct ReconcileReport`
pub record ReconcileReport : Type 0 where
  pub checked : ℕ
  pub mismatched : List SlotChange

-- `struct EventPipeline`, its rings oldest first
pub record EventPipeline : Type 0 where
  pub registry : DecoderRegistry
  pub reorg : ReorgConfig
  pub touched : List (ℕ × List Address)
  pub derived : List (ℕ × List Key)

-- `EventPipeline::new`
unfoldable pub new_pipeline : DecoderRegistry → EventPipeline
new_pipeline registry = record {
  registry = registry;
  reorg = default_reorg_config;
  touched = [];
  derived = [];
}

-- `EventPipeline::with_reorg_config`
unfoldable pub with_reorg_config : EventPipeline → ReorgConfig → EventPipeline
with_reorg_config p cfg = record p { reorg = cfg }

-- The variables of the loop of `ingest_logs`.
pub record Ingested : Type 0 where
  pub digest : BlockDigest
  pub touched_addrs : List Address
  pub block_derived : List Key

-- `touched_addrs.insert(address)`
unfoldable pub touch : Address → Ingested → Ingested
touch a i = record i { touched_addrs = add a i.touched_addrs }

-- `EventPipeline::note_touched_slot`
unfoldable pub note_touched_slot : Address → U256 → Ingested → Ingested
note_touched_slot a s i =
    let slots = i.digest.touched_slots in
    record i {
      block_derived = add (a, s) i.block_derived;
      digest = record (i.digest) {
        touched_slots = if contains (a, s) slots then slots else slots ++ (a, s) ∷ [];
      };
    }

-- The seven loops of `ingest_logs` over the categories of a diff.
unfoldable pub note_diff : StateDiff → Ingested → Ingested
note_diff d i =
    let slots =
      for_each (λ (x : SlotChange) i. note_touched_slot x.address x.slot (touch x.address i))
        d.slots i in
    let accounts = for_each (λ (x : AccountChange) i. touch x.address i) d.accounts slots in
    let purged = for_each (λ (x : PurgeRecord) i. touch x.address i) d.purged accounts in
    let skipped =
      for_each (λ (x : SkippedDelta) i. note_touched_slot x.address x.slot (touch x.address i))
        d.skipped purged in
    let balances =
      for_each (λ (x : SkippedBalanceDelta) i. touch x.address i) d.skipped_balances skipped in
    let masks =
      for_each (λ (x : SkippedMask) i. note_touched_slot x.address x.slot (touch x.address i))
        d.skipped_masks balances in
    for_each (λ (x : SkippedAccountPatch) i. touch x.address i) d.skipped_accounts masks

-- `trim_ring`, on one ring
unfoldable pub trim {ℓ} : {A : Type ℓ} → ℕ → List A → List A
trim depth [] = []
trim depth (x ∷ xs) = if ltb depth (length (x ∷ xs)) then trim depth xs else x ∷ xs

-- `EventPipeline::trim_ring`
unfoldable pub trim_ring : EventPipeline → EventPipeline
trim_ring p = record p {
  touched = trim p.reorg.depth p.touched;
  derived = trim p.reorg.depth p.derived;
}

-- the end of `ingest_logs`, for what the loop collected
unfoldable pub push_block : EventPipeline → ℕ → Ingested → EventPipeline
push_block p block i =
    if is_empty i.touched_addrs
    then p
    else trim_ring (record p {
      touched = p.touched ++ (block, i.touched_addrs) ∷ [];
      derived =
          if is_empty i.block_derived
          then p.derived
          else p.derived ++ (block, i.block_derived) ∷ [];
    })

-- `to_purge`, the addresses touched after the new head
unfoldable pub touched_after : ℕ → List (ℕ × List Address) → List Address
touched_after new_head [] = []
touched_after new_head ((block, addrs) ∷ ring) =
    let rest = touched_after new_head ring in
    if ltb new_head block then add_each addrs rest else rest

-- the test of `retain`
abbrev pub at_most {ℓ} : {A : Type ℓ} → ℕ → ℕ × A → Bool
at_most new_head entry = leb entry.0 new_head

-- the variables before the loop
abbrev pub nothing_ingested : ℕ → Ingested
nothing_ingested block = record {
  digest = record { block = block; applied = empty_diff; decoded_logs = 0; touched_slots = [] };
  touched_addrs = [];
  block_derived = [];
}

module _ (revm : Revm) where
  -- the body of the loop of `ingest_logs`
  unfoldable pub ingest_log : DecoderRegistry → EvmCache → Ingested → Log → EvmCache × Ingested
  ingest_log registry c i log =
      let updates = decode registry log (cached_storage_value c.layers) in
      let (c', diff) = apply_updates revm c updates in
      let counted = record i {
        digest = record (i.digest) { decoded_logs = i.digest.decoded_logs + 1 };
      } in
      let noted = note_diff diff counted in
      let merged = record noted {
        digest = record (noted.digest) { applied = merge noted.digest.applied diff };
      } in
      if is_empty updates then (c, i) else (c', merged)

  unfoldable pub ingest_loop :
      DecoderRegistry → EvmCache → Ingested → List Log → EvmCache × Ingested
  ingest_loop registry c i [] = (c, i)
  ingest_loop registry c i (log ∷ logs) =
      let r = ingest_log registry c i log in ingest_loop registry r.0 r.1 logs

  -- `EventPipeline::ingest_logs`
  unfoldable pub ingest_logs :
      EventPipeline → EvmCache → ℕ → List Log → EventPipeline × EvmCache × BlockDigest
  ingest_logs p c block logs =
      let r = ingest_loop p.registry c (nothing_ingested block) logs in
      (push_block p block r.1, r.0, r.1.digest)

  -- `EventPipeline::reorg_to`
  unfoldable pub reorg_to : EventPipeline → EvmCache → ℕ → EventPipeline × EvmCache × StateDiff
  reorg_to p c new_head =
      let to_purge = touched_after new_head p.touched in
      let kept = record p {
        touched = filter_by (at_most new_head) p.touched;
        derived = filter_by (at_most new_head) p.derived;
      } in
      let r = apply_updates revm c (map (λ a. StateUpdate.purge a p.reorg.scope) to_purge) in
      (kept, r.0, r.1)

  abbrev report_of : ℕ → Result (List SlotChange) CacheError → Result ReconcileReport CacheError
  report_of checked (ok changes) = ok (record { checked = checked; mismatched = changes })
  report_of checked (err e) = err e

  -- `EventPipeline::reconcile`, which leaves the pipeline as it is
  unfoldable pub reconcile :
      {E : Type 0} (fetcher : Option (StorageBatchFetchFn E))
      → BlockId
      → EvmCache
      → List Key
      → EvmCache × Result ReconcileReport CacheError
  reconcile fetcher block c slots =
      let r = reconcile_slots revm fetcher block c slots in (r.0, report_of (length slots) r.1)

-- `EventPipeline::derived_slots`
unfoldable pub derived_in : List (ℕ × List Key) → List Key
derived_in [] = []
derived_in ((block, pairs) ∷ ring) = add_each pairs (derived_in ring)

unfoldable pub derived_slots : EventPipeline → List Key
derived_slots p = derived_in p.derived
