-- ===== src/Tests/Pipeline.antt =====
-- One run of each result on the event pipeline: a decoder that sets a slot of the emitter, and a
-- decoder that adds to another.
use evm_fork_cache.Prelude.{ℕ, ◌≡◌, ◌⊎◌, List, [], ◌∷◌, arith, if◌then◌else◌}
use evm_fork_cache.Prelude.Eq.{nat_eq, pair_eq}
use evm_fork_cache.Prelude.Set.{add}
use evm_fork_cache.StateUpdate.{StateUpdate, SlotDelta, PurgeScope}
use evm_fork_cache.Cache.Slots.{cached_storage_value}
use evm_fork_cache.Cache.Apply.Purges.{value_after}
use evm_fork_cache.Events.{EventDecoder, Log, EventPipeline, ingest_logs, reorg_to}
use evm_fork_cache.Events.Horizon.{IsBounded, PipelineCall, calls, calls-IsBounded}
use evm_fork_cache.Events.Changes.{value_of}
use evm_fork_cache.Events.Reorg.{is_touched_above, reorg_to-reads, reorg_to-ingest_logs}
use evm_fork_cache.Tests.Data.{revm, cache}

-- sets slot 5 of the emitter to the first byte of the data
abbrev set_first : EventDecoder
set_first log view = elim log.log_data [
  | [] ↦ []
  | byte ∷ rest ↦ StateUpdate.slot log.address 5 byte ∷ []
]

abbrev add_one : EventDecoder
add_one log view = StateUpdate.slot_delta log.address 6 (SlotDelta.add 1) ∷ []

abbrev log_of : ℕ → ℕ → Log
log_of a byte = record { address = a; topics = []; log_data = byte ∷ [] }

abbrev pipeline : EventPipeline
pipeline = record {
  registry = record { global = set_first ∷ []; per_address = (1, add_one ∷ []) ∷ [] };
  reorg = record { depth = 2; scope = PurgeScope.all_storage };
  touched = (7, 3 ∷ []) ∷ [];
  derived = [];
}

abbrev logs : List Log
logs = log_of 1 77 ∷ log_of 3 30 ∷ []

calls-IsBounded_example :
    IsBounded
      (calls revm
        (pipeline, cache)
        (PipelineCall.ingest 8 logs ∷ PipelineCall.reorg 7 ∷ PipelineCall.ingest 8 logs ∷ [])).0
calls-IsBounded_example =
    calls-IsBounded revm (pipeline, cache)
      (PipelineCall.ingest 8 logs ∷ PipelineCall.reorg 7 ∷ PipelineCall.ingest 8 logs ∷ [])
      (omega arith, omega arith)

reorg_to-reads_example : cached_storage_value (reorg_to revm pipeline cache 6).1.layers 3 5 ≡ (
    if is_touched_above 6 pipeline.touched 3
    then value_after pipeline.reorg.scope cache.layers 3 5
    else cached_storage_value cache.layers 3 5)
reorg_to-reads_example = reorg_to-reads revm pipeline cache 6 3 5

reorg_to-ingest_logs_example :
    let ingested = ingest_logs revm pipeline cache 8 logs in
    let reorged = reorg_to revm ingested.0 ingested.1 7 in
    (cached_storage_value reorged.1.layers 1 5
      ≡ value_after pipeline.reorg.scope ingested.1.layers 1 5)
    ⊎ (value_of reorged.1.layers 1 5 ≡ value_of cache.layers 1 5)
reorg_to-ingest_logs_example =
    reorg_to-ingest_logs revm pipeline cache 8 7 logs 1 5 (omega arith) (omega arith)
