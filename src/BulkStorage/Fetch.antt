-- ===== src/BulkStorage/Fetch.antt =====
-- src/bulk_storage.rs: the fetch of many slots, and the fetcher with its fallback and latch. The code
-- runs the calls concurrently and promises no order of the results; the model has them in the order
-- of the plan.
use evm_fork_cache.Prelude.{
  ℕ, ◌+◌, Bool, true, false, not, ◌||◌, Option, none, some, List, [], ◌∷◌, ◌++◌, length, is_empty,
  ltb, leb, ◌==◌, map, if◌then◌else◌, filter_by, any_by,
}
use evm_fork_cache.Prelude.Eq.{nat_eq}
use evm_fork_cache.Prelude.Map.{insert}
use evm_fork_cache.Prelude.Chunks.{flat_map}
use evm_fork_cache.Cache.Account.{Result, ok, err}
use evm_fork_cache.Cache.Verify.{Key, BlockId, StorageBatchFetchFn}
use evm_fork_cache.BulkStorage.{
  Bytes, multicall3_address, CallDispatch, BulkCallConfig, normalized, CallPlan, plan_calls,
  group_plans_for_call_many,
}
use evm_fork_cache.BulkStorage.Calls.{
  StorageFetchError, Row, CallManyEntry, StateOverride, Rpc, overrides_for_plan, plan_call_parts,
  decode_plan_response, plan_error_results, execute_plan,
}

-- `STORAGE_EXTRACTOR_CODE`
abbrev pub storage_extractor_code : Bytes
storage_extractor_code =
    0x5f ∷ 0x5b ∷ 0x80 ∷ 0x36 ∷ 0x14 ∷ 0x60 ∷ 0x13 ∷ 0x57 ∷ 0x80 ∷ 0x35 ∷ 0x54 ∷ 0x81 ∷ 0x52 ∷ 0x60
    ∷ 0x20 ∷ 0x01 ∷ 0x60 ∷ 0x01 ∷ 0x56 ∷ 0x5b ∷ 0x36 ∷ 0x5f ∷ 0xf3 ∷ []

-- `STORAGE_EXTRACTOR_CODE_PRE_SHANGHAI`
abbrev pub storage_extractor_code_pre_shanghai : Bytes
storage_extractor_code_pre_shanghai =
    0x60 ∷ 0x00 ∷ 0x5b ∷ 0x80 ∷ 0x36 ∷ 0x14 ∷ 0x60 ∷ 0x14 ∷ 0x57 ∷ 0x80 ∷ 0x35 ∷ 0x54 ∷ 0x81 ∷ 0x52
    ∷ 0x60 ∷ 0x20 ∷ 0x01 ∷ 0x60 ∷ 0x02 ∷ 0x56 ∷ 0x5b ∷ 0x36 ∷ 0x60 ∷ 0x00 ∷ 0xf3 ∷ []

-- `BulkCallConfig::extractor`
unfoldable pub extractor : BulkCallConfig → Bytes
extractor cfg =
    if cfg.pre_shanghai_extractor
    then storage_extractor_code_pre_shanghai
    else storage_extractor_code

-- `call_many_number`
abbrev pub call_many_number : CallDispatch → BlockId → Option ℕ
call_many_number CallDispatch.call_many (BlockId.number n) = some n
call_many_number CallDispatch.call_many (BlockId.hash h) = none
call_many_number CallDispatch.per_call block = none

-- a plan that targets the dispatcher itself
abbrev pub is_conflicting : CallPlan → Bool
is_conflicting (CallPlan.single a slots) = a == multicall3_address
is_conflicting (CallPlan.multi targets) = false

-- `overrides.insert(address, account)` for each override of a plan
unfoldable pub merge_overrides : StateOverride → StateOverride → StateOverride
merge_overrides [] overrides = overrides
merge_overrides ((a, code) ∷ more) overrides = merge_overrides more (insert a code overrides)

-- the results of a bundle, `plans.iter().zip(entries)`
unfoldable pub decode_entries : Rpc → List CallPlan → List CallManyEntry → List Row
decode_entries rpc [] entries = []
decode_entries rpc (plan ∷ plans) [] = []
decode_entries rpc (plan ∷ plans) (entry ∷ entries) =
    (elim entry.value [
      | some data_bytes ↦ decode_plan_response rpc plan data_bytes
      | none ↦ plan_error_results plan StorageFetchError.custom
    ])
    ++ decode_entries rpc plans entries

module _ (rpc : Rpc) where
  unfoldable pub bundle_overrides : Bytes → List CallPlan → StateOverride → StateOverride
  bundle_overrides code [] overrides = overrides
  bundle_overrides code (plan ∷ plans) overrides =
      bundle_overrides code plans (merge_overrides (overrides_for_plan rpc plan code) overrides)

  -- `execute_plans_call_many`
  unfoldable pub execute_plans_call_many :
      ℕ → Bytes → List CallPlan → Result (List Row) StorageFetchError
  execute_plans_call_many number code plans =
      elim (rpc.eth_call_many (map (λ plan. plan_call_parts rpc plan) plans)
        (bundle_overrides code plans []) number) [
          | none ↦ err StorageFetchError.provider
          | some response ↦
              let entries = flat_map (λ row. row) response in
              if length entries == length plans
              then ok (decode_entries rpc plans entries)
              else err StorageFetchError.custom
        ]

  -- one group, called again plan by plan if the request fails
  unfoldable pub execute_group : BlockId → ℕ → Bytes → List CallPlan → List Row
  execute_group block number code group = elim (execute_plans_call_many number code group) [
    | ok results ↦ results
    | err e ↦ flat_map (λ plan. execute_plan rpc block code plan) group
  ]

  -- `fetch_slots_bulk`
  unfoldable pub fetch_slots_bulk : List Key → BlockId → BulkCallConfig → List Row
  fetch_slots_bulk [] block cfg = []
  fetch_slots_bulk (k ∷ requests) block cfg =
      let n = normalized cfg in
      let plans = plan_calls (k ∷ requests) n in
      elim (call_many_number n.dispatch block) [
        | none ↦ flat_map (λ plan. execute_plan rpc block (extractor n) plan) plans
        | some number ↦
            let bundleable = filter_by (λ plan. not (is_conflicting plan)) plans in
            let conflicting = filter_by is_conflicting plans in
            flat_map (λ group. execute_group block number (extractor n) group)
              (group_plans_for_call_many bundleable n.max_slots_per_request)
            ++ flat_map (λ plan. execute_plan rpc block (extractor n) plan) conflicting
      ]

-- `struct BulkFetcherStatus`
pub record BulkFetcherStatus : Type 0 where
  pub consecutive_failures : ℕ
  pub latch_threshold : ℕ

-- `BulkFetcherStatus::fallback_latched`
unfoldable pub fallback_latched : BulkFetcherStatus → Bool
fallback_latched s = leb s.latch_threshold s.consecutive_failures

abbrev pub override_failure_latch : ℕ
override_failure_latch = 2

-- the status that `make_fetcher` returns
abbrev pub new_status : BulkFetcherStatus
new_status = record { consecutive_failures = 0; latch_threshold = override_failure_latch }

abbrev pub is_ok : Row → Bool
is_ok (k, ok v) = true
is_ok (k, err e) = false

abbrev pub is_provider_error : Row → Bool
is_provider_error (k, err StorageFetchError.provider) = true
is_provider_error (k, err StorageFetchError.runtime) = false
is_provider_error (k, err StorageFetchError.serialization) = false
is_provider_error (k, err StorageFetchError.batch_send) = false
is_provider_error (k, err StorageFetchError.custom) = false
is_provider_error (k, ok v) = false

-- the latch bookkeeping
unfoldable pub count_failure : BulkFetcherStatus → List Row → BulkFetcherStatus
count_failure s results =
    if any_by is_ok results
    then record s { consecutive_failures = 0 }
    else if any_by is_provider_error results
    then record s { consecutive_failures = s.consecutive_failures + 1 }
    else s

-- the keys of the failed results
unfoldable pub failed_keys : List Row → List Key
failed_keys [] = []
failed_keys (r ∷ results) = let rest = failed_keys results in if is_ok r then rest else r.0 ∷ rest

-- `block_in_place_handle` failed: an error for every requested slot
abbrev pub runtime_errors : List Key → List Row
runtime_errors requests = map (λ k. (k, err StorageFetchError.runtime)) requests

-- `bulk_results`, on a thread that has a runtime to run the calls on or has not
unfoldable pub bulk_results : Rpc → Bool → BulkCallConfig → List Key → BlockId → List Row
bulk_results rpc has_runtime cfg requests block =
    if has_runtime
    then fetch_slots_bulk rpc requests block (normalized cfg)
    else runtime_errors requests

-- the repair of the failed results by the fallback
unfoldable pub repair : StorageBatchFetchFn StorageFetchError → BlockId → List Row → List Row
repair back block results =
    let failed = failed_keys results in
    filter_by is_ok results ++ (if is_empty failed then [] else back failed block)

-- the load of the atomic, with the other test that routes a request straight to the fallback
unfoldable pub routes_to_fallback : BulkCallConfig → BulkFetcherStatus → List Key → Bool
routes_to_fallback cfg s requests =
    ltb (length requests) (normalized cfg).point_read_threshold
    || leb override_failure_latch s.consecutive_failures

-- `fetcher`, the closure that `make_fetcher` returns, called alone: no other call changes the atomic
-- between its load and its store. Overlap has the calls that overlap.
module _ (rpc : Rpc) (has_runtime : Bool)
    (fallback : Option (StorageBatchFetchFn StorageFetchError)) (cfg : BulkCallConfig) where
  unfoldable pub fetcher : BulkFetcherStatus → List Key → BlockId → BulkFetcherStatus × List Row
  fetcher s [] block = (s, [])
  fetcher s (k ∷ requests) block =
      let results = bulk_results rpc has_runtime cfg (k ∷ requests) block in
      elim fallback [
        | none ↦ (s, results)
        | some back ↦
            if routes_to_fallback cfg s (k ∷ requests)
            then (s, back (k ∷ requests) block)
            else (count_failure s results, repair back block results)
      ]
