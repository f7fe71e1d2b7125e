-- ===== src/BulkStorage/Latch.antt =====
-- src/bulk_storage.rs: the fetcher answers each request once, whatever fails.
use evm_fork_cache.Prelude.{
  ◌+◌, ◌≡◌, refl, ap, ◌∙◌, Bool, Option, none, some, List, [], ◌∷◌, arith, is_empty, filter_by,
  if◌then◌else◌, inl, inr, Bool-cases,
}
use evm_fork_cache.Prelude.Eq.{pair_eq}
use evm_fork_cache.Prelude.Chunks.{count, count-append}
use evm_fork_cache.Cache.Verify.{Key, BlockId, StorageBatchFetchFn}
use evm_fork_cache.BulkStorage.{BulkCallConfig, normalized}
use evm_fork_cache.BulkStorage.Answers.{keys, keys-append, count-fetch_slots_bulk}
use evm_fork_cache.BulkStorage.Calls.{StorageFetchError, Row, Rpc}
use evm_fork_cache.BulkStorage.Fetch.{
  BulkFetcherStatus, routes_to_fallback, is_ok, failed_keys, runtime_errors, bulk_results, repair,
  fetcher,
}

-- the failed results and the others are all of them
count-repair :
    (k : Key) (results : List Row)
    → count k (keys (filter_by is_ok results)) + count k (failed_keys results)
      ≡ count k (keys results)
unfolding failed_keys count
count-repair k [] = refl
count-repair k (r ∷ results) = ground (arith, count-repair k results)

keys-runtime_errors : (requests : List Key) → keys (runtime_errors requests) ≡ requests
keys-runtime_errors [] = refl
keys-runtime_errors (k ∷ requests) = ap (λ zs. k ∷ zs) (keys-runtime_errors requests)

-- A fetcher that returns one result for each request.
abbrev pub IsComplete : StorageBatchFetchFn StorageFetchError → Type 0
IsComplete fetch =
    (requests : List Key) (block : BlockId) (k : Key)
    → count k (keys (fetch requests block)) ≡ count k requests

abbrev pub IsCompleteOrNone : Option (StorageBatchFetchFn StorageFetchError) → Type 0
IsCompleteOrNone none = Unit
IsCompleteOrNone (some back) = IsComplete back

module _ (rpc : Rpc) (has_runtime : Bool) (cfg : BulkCallConfig) where
  count-bulk_results :
      (requests : List Key) (block : BlockId) (k : Key)
      → count k (keys (bulk_results rpc has_runtime cfg requests block)) ≡ count k requests
  unfolding bulk_results
  count-bulk_results requests block k = elim (Bool-cases has_runtime) [
    | inl runs ↦ rw runs (count-fetch_slots_bulk rpc requests block (normalized cfg) k)
    | inr stuck ↦ rw stuck (ap (count k) (keys-runtime_errors requests))
  ]

  count-repaired :
      (back : StorageBatchFetchFn StorageFetchError) (results : List Row) (block : BlockId)
      (k : Key)
      → IsComplete back
      → count k (keys (repair back block results)) ≡ count k (keys results)
  unfolding repair count
  count-repaired back results block k complete =
      let repaired =
        if is_empty (failed_keys results) then [] else back (failed_keys results) block in
      ap (count k) (keys-append (filter_by is_ok results) repaired)
      ∙ count-append k (keys (filter_by is_ok results)) (keys repaired)
      ∙ omega (arith, count-repair k results, by_failed (failed_keys results))
    where
      by_failed :
          (failed : List Key)
          → count k (keys (if is_empty failed then [] else back failed block)) ≡ count k failed
      by_failed [] = refl
      by_failed (j ∷ failed) = complete (j ∷ failed) block k

  -- The fetcher returns exactly one result for each request, whatever the provider answers, with or
  -- without a runtime and in any state of the latch, if its fallback, where it has one, does.
  pub count-fetcher :
      (fallback : Option (StorageBatchFetchFn StorageFetchError))
      → IsCompleteOrNone fallback
      → (s : BulkFetcherStatus) (requests : List Key) (block : BlockId) (k : Key)
      → count k (keys (fetcher rpc has_runtime fallback cfg s requests block).1) ≡ count k requests
  unfolding fetcher
  count-fetcher fallback complete s [] block k = refl
  count-fetcher none complete s (j ∷ requests) block k = count-bulk_results (j ∷ requests) block k
  count-fetcher (some back) complete s (j ∷ requests) block k =
      elim (Bool-cases (routes_to_fallback cfg s (j ∷ requests))) [
        | inl direct ↦ rw direct (complete (j ∷ requests) block k)
        | inr bulk ↦ rw bulk (
            count-repaired back (bulk_results rpc has_runtime cfg (j ∷ requests) block) block k
              complete
            ∙ count-bulk_results (j ∷ requests) block k)
      ]
