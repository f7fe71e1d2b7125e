-- ===== src/BulkStorage/Answers.antt =====
-- src/bulk_storage.rs: whatever the provider answers, each request has exactly one result.
use evm_fork_cache.Prelude.{
  ℕ, ◌+◌, ◌≡◌, refl, sym, ap, ap₂, ◌∙◌, Bool, true, false, not, Option, none, some, List, [], ◌∷◌,
  ◌++◌, arith, length, ◌==◌, map, filter_by, if◌then◌else◌, inl, inr, Bool-cases, Option-cases,
}
use evm_fork_cache.Prelude.Eq.{pair_eq}
use evm_fork_cache.Prelude.Chunks.{flat_map, flat_map-append, count, count-append}
use evm_fork_cache.Word.{Address, U256}
use evm_fork_cache.Cache.Verify.{Key, BlockId}
use evm_fork_cache.BulkStorage.{
  Bytes, BulkCallConfig, normalized, Target, CallPlan, plan_calls, group_plans_for_call_many,
}
use evm_fork_cache.BulkStorage.Words.{decode_packed_values, length-decode_packed_values}
use evm_fork_cache.BulkStorage.Planning.{pairs_of_target, pairs_of, planned, count-plan_calls}
use evm_fork_cache.BulkStorage.Bundles.{unbundled, group_plans-unbundled}
use evm_fork_cache.BulkStorage.Limits.{normalized-IsUsable}
use evm_fork_cache.BulkStorage.Calls.{
  StorageFetchError, Row, CallResult, CallManyEntry, Rpc, fail_slots, per_target_errors, zip_values,
  plan_error_results, decode_slots, decode_results, decode_multi_target_response,
  overrides_for_plan, plan_call_parts, decode_plan_response, execute_plan,
}
use evm_fork_cache.BulkStorage.Fetch.{
  extractor, call_many_number, is_conflicting, decode_entries, bundle_overrides,
  execute_plans_call_many, execute_group, fetch_slots_bulk,
}

-- the keys of the results
abbrev pub keys : List Row → List Key
keys rows = map (λ r. r.0) rows

pub keys-append : (xs ys : List Row) → keys (xs ++ ys) ≡ keys xs ++ keys ys
keys-append [] ys = refl
keys-append (x ∷ xs) ys = ap (λ zs. x.0 ∷ zs) (keys-append xs ys)

keys-flat_map {ℓ} :
    {A : Type ℓ} (f : A → List Row) (g : A → List Key)
    → ((x : A) → keys (f x) ≡ g x)
    → (xs : List A) → keys (flat_map f xs) ≡ flat_map g xs
unfolding flat_map
keys-flat_map f g h [] = refl
keys-flat_map f g h (x ∷ xs) =
    keys-append (f x) (flat_map f xs) ∙ ap₂ (λ ys zs. ys ++ zs) (h x) (keys-flat_map f g h xs)

keys-fail_slots :
    (a : Address) (slots : List U256) (e : StorageFetchError)
    → keys (fail_slots a slots e) ≡ pairs_of_target (a, slots)
keys-fail_slots a [] e = refl
keys-fail_slots a (s ∷ slots) e = ap (λ zs. (a, s) ∷ zs) (keys-fail_slots a slots e)

keys-fail_targets :
    (targets : List Target) (e : StorageFetchError)
    → keys (flat_map (λ (x : Target). fail_slots x.0 x.1 e) targets)
      ≡ flat_map pairs_of_target targets
keys-fail_targets targets e =
    keys-flat_map (λ (x : Target). fail_slots x.0 x.1 e) pairs_of_target
      (λ x. keys-fail_slots x.0 x.1 e) targets

keys-plan_error_results :
    (plan : CallPlan) (e : StorageFetchError) → keys (plan_error_results plan e) ≡ pairs_of plan
unfolding plan_error_results
keys-plan_error_results (CallPlan.single a slots) e = keys-fail_slots a slots e
keys-plan_error_results (CallPlan.multi targets) e = keys-fail_targets targets e

keys-zip_values :
    (a : Address) (slots values : List U256)
    → length values ≡ length slots
    → keys (zip_values a slots values) ≡ pairs_of_target (a, slots)
unfolding zip_values
keys-zip_values a [] values h = refl
keys-zip_values a (s ∷ slots) [] h = absurd (omega (arith, h))
keys-zip_values a (s ∷ slots) (v ∷ values) h =
    ap (λ zs. (a, s) ∷ zs) (keys-zip_values a slots values (omega (arith, h)))

module _ (rpc : Rpc) where
  keys-decode_slots :
      (a : Address) (slots : List U256) (data_bytes : Bytes)
      → keys (decode_slots rpc a slots data_bytes) ≡ pairs_of_target (a, slots)
  unfolding decode_slots
  keys-decode_slots a slots data_bytes =
      elim (Option-cases (decode_packed_values rpc.words data_bytes (length slots))) [
        | inl wrong ↦ rw (wrong, decode_slots) (keys-fail_slots a slots StorageFetchError.custom)
        | inr (values, right) ↦
            rw (right, decode_slots)
              (keys-zip_values a slots values
                (length-decode_packed_values rpc.words data_bytes (length slots) values right))
      ]

  keys-decode_results :
      (targets : List Target) (results : List CallResult)
      → length results ≡ length targets
      → keys (decode_results rpc targets results) ≡ flat_map pairs_of_target targets
  unfolding decode_results flat_map
  keys-decode_results [] results h = refl
  keys-decode_results (x ∷ targets) [] h = absurd (omega (arith, h))
  keys-decode_results ((a, slots) ∷ targets) (r ∷ results) h =
      let here =
        if r.success
        then decode_slots rpc a slots r.return_data
        else fail_slots a slots StorageFetchError.custom in
      keys-append here (decode_results rpc targets results)
      ∙ ap₂ (λ ys zs. ys ++ zs) (one r.success)
          (keys-decode_results targets results (omega (arith, h)))
    where
      one :
          (success : Bool)
          → keys (
              if success
              then decode_slots rpc a slots r.return_data
              else fail_slots a slots StorageFetchError.custom)
            ≡ pairs_of_target (a, slots)
      one true = keys-decode_slots a slots r.return_data
      one false = keys-fail_slots a slots StorageFetchError.custom

  keys-decode_plan_response :
      (plan : CallPlan) (data_bytes : Bytes)
      → keys (decode_plan_response rpc plan data_bytes) ≡ pairs_of plan
  unfolding decode_plan_response decode_multi_target_response per_target_errors
  keys-decode_plan_response (CallPlan.single a slots) data_bytes =
      keys-decode_slots a slots data_bytes
  keys-decode_plan_response (CallPlan.multi targets) data_bytes =
      elim (Option-cases (rpc.abi_decode_returns data_bytes)) [
        | inl wrong ↦
            rw (wrong, decode_plan_response, decode_multi_target_response)
              (keys-fail_targets targets StorageFetchError.custom)
        | inr (results, right) ↦
            rw (right, decode_plan_response, decode_multi_target_response)
              (elim (Bool-cases (length results == length targets)) [
                | inl same ↦ rw same (keys-decode_results targets results (ground arith))
                | inr other ↦ rw other (keys-fail_targets targets StorageFetchError.custom)
              ])
      ]

  keys-execute_plan :
      (block : BlockId) (code : Bytes) (plan : CallPlan)
      → keys (execute_plan rpc block code plan) ≡ pairs_of plan
  unfolding execute_plan
  keys-execute_plan block code plan =
      let parts = plan_call_parts rpc plan in
      elim (Option-cases (rpc.eth_call parts.0 parts.1 (overrides_for_plan rpc plan code) block)) [
        | inl failed ↦
            rw (failed, execute_plan) (keys-plan_error_results plan StorageFetchError.provider)
        | inr (response, answered) ↦
            rw (answered, execute_plan) (keys-decode_plan_response plan response)
      ]

  keys-execute_plans :
      (block : BlockId) (code : Bytes) (plans : List CallPlan)
      → keys (flat_map (λ plan. execute_plan rpc block code plan) plans) ≡ planned plans
  keys-execute_plans block code plans =
      keys-flat_map (λ plan. execute_plan rpc block code plan) pairs_of
        (λ plan. keys-execute_plan block code plan) plans

  keys-decode_entries :
      (plans : List CallPlan) (entries : List CallManyEntry)
      → length entries ≡ length plans
      → keys (decode_entries rpc plans entries) ≡ planned plans
  unfolding decode_entries flat_map
  keys-decode_entries [] entries h = refl
  keys-decode_entries (plan ∷ plans) [] h = absurd (omega (arith, h))
  keys-decode_entries (plan ∷ plans) (entry ∷ entries) h =
      keys-append _ (decode_entries rpc plans entries)
      ∙ ap₂ (λ ys zs. ys ++ zs) (one entry.value)
          (keys-decode_entries plans entries (omega (arith, h)))
    where
      one :
          (value : Option Bytes)
          → keys (elim value [
            | some data_bytes ↦ decode_plan_response rpc plan data_bytes
            | none ↦ plan_error_results plan StorageFetchError.custom
          ])
            ≡ pairs_of plan
      one (some data_bytes) = keys-decode_plan_response plan data_bytes
      one none = keys-plan_error_results plan StorageFetchError.custom

  keys-execute_group :
      (block : BlockId) (number : ℕ) (code : Bytes) (group : List CallPlan)
      → keys (execute_group rpc block number code group) ≡ planned group
  unfolding execute_group execute_plans_call_many
  keys-execute_group block number code group =
      let parts = map (λ plan. plan_call_parts rpc plan) group in
      elim (Option-cases (rpc.eth_call_many parts (bundle_overrides rpc code group []) number)) [
        | inl failed ↦
            rw (failed, execute_group, execute_plans_call_many)
              (keys-execute_plans block code group)
        | inr (response, answered) ↦
            rw (answered, execute_group, execute_plans_call_many)
              (elim (Bool-cases (length (flat_map (λ row. row) response) == length group)) [
                | inl same ↦
                    rw (same, execute_group)
                      (keys-decode_entries group (flat_map (λ row. row) response) (ground arith))
                | inr other ↦ rw (other, execute_group) (keys-execute_plans block code group)
              ])
      ]

-- the calls of the groups are those of the list that they were made of
planned-unbundled :
    (groups : List (List CallPlan)) → flat_map planned groups ≡ planned (unbundled groups)
unfolding flat_map
planned-unbundled [] = refl
planned-unbundled (group ∷ groups) =
    ap (λ zs. planned group ++ zs) (planned-unbundled groups)
    ∙ sym (flat_map-append pairs_of group (unbundled groups))

count-partition :
    (k : Key) (p : CallPlan → Bool) (plans : List CallPlan)
    → count k (planned (filter_by (λ plan. not (p plan)) plans))
        + count k (planned (filter_by p plans))
      ≡ count k (planned plans)
unfolding flat_map count
count-partition k p [] = refl
count-partition k p (plan ∷ plans) = ground (
  arith,
  count-partition k p plans,
  count-append k (pairs_of plan) (planned plans),
  count-append k (pairs_of plan) (planned (filter_by p plans)),
  count-append k (pairs_of plan) (planned (filter_by (λ q. not (p q)) plans)),
)

-- Whatever the provider and the configuration, bulk extraction returns for every address and slot
-- exactly as many results as the requests have it: one for each request, and no other, also when
-- calls fail or return what does not decode.
pub count-fetch_slots_bulk :
    (rpc : Rpc) (requests : List Key) (block : BlockId) (cfg : BulkCallConfig) (k : Key)
    → count k (keys (fetch_slots_bulk rpc requests block cfg)) ≡ count k requests
unfolding fetch_slots_bulk
count-fetch_slots_bulk rpc [] block cfg k = refl
count-fetch_slots_bulk rpc (j ∷ requests) block cfg k =
    let n = normalized cfg in
    let plans = plan_calls (j ∷ requests) n in
    let all = count-plan_calls (j ∷ requests) n k (normalized-IsUsable cfg).0 in
    elim (Option-cases (call_many_number n.dispatch block)) [
      | inl per_call ↦
          rw (per_call, fetch_slots_bulk)
            (ap (count k) (keys-execute_plans rpc block (extractor n) plans) ∙ all)
      | inr (number, many) ↦
          rw (many, fetch_slots_bulk)
            (let bundleable = filter_by (λ plan. not (is_conflicting plan)) plans in
              let conflicting = filter_by is_conflicting plans in
              let groups = group_plans_for_call_many bundleable n.max_slots_per_request in
              let grouped =
                flat_map (λ group. execute_group rpc block number (extractor n) group) groups in
              let single =
                flat_map (λ plan. execute_plan rpc block (extractor n) plan) conflicting in
              ap (count k) (
                keys-append grouped single
                ∙ ap₂ (λ ys zs. ys ++ zs)
                    (keys-flat_map (λ group. execute_group rpc block number (extractor n) group)
                        planned (λ group. keys-execute_group rpc block number (extractor n) group)
                        groups
                      ∙ planned-unbundled groups
                      ∙ ap planned (group_plans-unbundled bundleable n.max_slots_per_request).0)
                    (keys-execute_plans rpc block (extractor n) conflicting))
              ∙ count-append k (planned bundleable) (planned conflicting)
              ∙ count-partition k is_conflicting plans
              ∙ all)
    ]
