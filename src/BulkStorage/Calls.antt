-- ===== src/BulkStorage/Calls.antt =====
-- src/bulk_storage.rs: one planned call, as it is sent and as its response is decoded. What the
-- provider answers, and the ABI coding of `aggregate3`, are arguments. The texts of errors are not
-- modelled.
use evm_fork_cache.Prelude.{
  ℕ, Bool, true, Option, none, some, List, [], ◌∷◌, ◌++◌, length, ◌==◌, map, if◌then◌else◌,
}
use evm_fork_cache.Prelude.Eq.{nat_eq}
use evm_fork_cache.Prelude.Map.{Map, insert}
use evm_fork_cache.Prelude.Chunks.{flat_map}
use evm_fork_cache.Word.{Address, U256}
use evm_fork_cache.Cache.Account.{ok, err}
use evm_fork_cache.Cache.Verify.{Fetched, BlockId}
use evm_fork_cache.BulkStorage.{Bytes, multicall3_address, Target, CallPlan}
use evm_fork_cache.BulkStorage.Words.{WordBytes, pack_slots_calldata, decode_packed_values}

-- src/errors.rs, `enum StorageFetchError`
pub data StorageFetchError : Type 0 where
  runtime : StorageFetchError
  provider : StorageFetchError
  serialization : StorageFetchError
  batch_send : StorageFetchError
  custom : StorageFetchError

-- a result tuple
abbrev pub Row : Type 0
Row = Fetched StorageFetchError

-- `IMulticall3::Call3` and `IMulticall3::Result`
pub record Call3 : Type 0 where
  pub target : Address
  pub allow_failure : Bool
  pub call_data : Bytes

pub record CallResult : Type 0 where
  pub success : Bool
  pub return_data : Bytes

-- one entry of an `eth_callMany` response; only the presence of a value decides
pub record CallManyEntry : Type 0 where
  pub value : Option Bytes

-- `StateOverride`, of which the code sets the code of accounts
abbrev pub StateOverride : Type 0
StateOverride = Map Address Bytes

-- What is not this crate's: alloy's bytes of a word and its ABI coding, the fixture with the runtime
-- code of Multicall3, and the provider, whose failed requests are `none`.
pub record Rpc : Type 0 where
  pub words : WordBytes
  pub abi_encode : List Call3 → Bytes
  pub abi_decode_returns : Bytes → Option (List CallResult)
  pub multicall3_runtime_code : Bytes
  pub eth_call : Address → Bytes → StateOverride → BlockId → Option Bytes
  pub eth_call_many :
      List (Address × Bytes) → StateOverride → ℕ → Option (List (List CallManyEntry))

abbrev pub fail_slots : Address → List U256 → StorageFetchError → List Row
fail_slots a slots e = map (λ s. ((a, s), err e)) slots

-- `per_target_errors`
unfoldable pub per_target_errors : List Target → StorageFetchError → List Row
per_target_errors targets e = flat_map (λ (x : Target). fail_slots x.0 x.1 e) targets

-- `slots.iter().zip(values).map(…)`
unfoldable pub zip_values : Address → List U256 → List U256 → List Row
zip_values a [] values = []
zip_values a (s ∷ slots) [] = []
zip_values a (s ∷ slots) (v ∷ values) = ((a, s), ok v) ∷ zip_values a slots values

-- `plan_error_results`
unfoldable pub plan_error_results : CallPlan → StorageFetchError → List Row
plan_error_results (CallPlan.single a slots) e = fail_slots a slots e
plan_error_results (CallPlan.multi targets) e =
    flat_map (λ (x : Target). fail_slots x.0 x.1 e) targets

module _ (rpc : Rpc) where
  -- `encode_multi_target_calldata`
  unfoldable pub encode_multi_target_calldata : List Target → Bytes
  encode_multi_target_calldata targets = rpc.abi_encode (
      map
        (λ (x : Target). record {
          target = x.0;
          allow_failure = true;
          call_data = pack_slots_calldata rpc.words x.1;
        })
        targets)

  -- the values of one extractor, or an error for each slot
  unfoldable pub decode_slots : Address → List U256 → Bytes → List Row
  decode_slots a slots data_bytes =
      elim (decode_packed_values rpc.words data_bytes (length slots)) [
        | some values ↦ zip_values a slots values
        | none ↦ fail_slots a slots StorageFetchError.custom
      ]

  -- the loop over `targets.iter().zip(decoded)`
  unfoldable pub decode_results : List Target → List CallResult → List Row
  decode_results [] results = []
  decode_results (x ∷ targets) [] = []
  decode_results ((a, slots) ∷ targets) (r ∷ results) =
      (if r.success
        then decode_slots a slots r.return_data
        else fail_slots a slots StorageFetchError.custom)
      ++ decode_results targets results

  -- `decode_multi_target_response`
  unfoldable pub decode_multi_target_response : List Target → Bytes → List Row
  decode_multi_target_response targets response = elim (rpc.abi_decode_returns response) [
    | none ↦ per_target_errors targets StorageFetchError.custom
    | some results ↦
        if length results == length targets
        then decode_results targets results
        else per_target_errors targets StorageFetchError.custom
  ]

  -- `overrides.insert(target, extractor)` for each target
  unfoldable pub override_targets : Bytes → List Target → StateOverride → StateOverride
  override_targets extractor [] overrides = overrides
  override_targets extractor ((a, slots) ∷ targets) overrides =
      override_targets extractor targets (insert a extractor overrides)

  -- `overrides_for_plan`
  unfoldable pub overrides_for_plan : CallPlan → Bytes → StateOverride
  overrides_for_plan (CallPlan.single a slots) extractor = insert a extractor []
  overrides_for_plan (CallPlan.multi targets) extractor =
      override_targets extractor targets (insert multicall3_address rpc.multicall3_runtime_code [])

  -- `plan_call_parts`
  unfoldable pub plan_call_parts : CallPlan → Address × Bytes
  plan_call_parts (CallPlan.single a slots) = (a, pack_slots_calldata rpc.words slots)
  plan_call_parts (CallPlan.multi targets) =
      (multicall3_address, encode_multi_target_calldata targets)

  -- `decode_plan_response`
  unfoldable pub decode_plan_response : CallPlan → Bytes → List Row
  decode_plan_response (CallPlan.single a slots) data_bytes = decode_slots a slots data_bytes
  decode_plan_response (CallPlan.multi targets) data_bytes =
      decode_multi_target_response targets data_bytes

  -- `execute_plan`
  unfoldable pub execute_plan : BlockId → Bytes → CallPlan → List Row
  execute_plan block extractor plan =
      let (to, input) = plan_call_parts plan in
      elim (rpc.eth_call to input (overrides_for_plan plan extractor) block) [
        | some response ↦ decode_plan_response plan response
        | none ↦ plan_error_results plan StorageFetchError.provider
      ]
