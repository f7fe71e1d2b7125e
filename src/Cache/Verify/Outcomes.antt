-- ===== src/Cache/Verify/Outcomes.antt =====
-- The results of a verification, on every path.
use evm_fork_cache.Prelude.{
  ◌≡◌, refl, ap, ◌∙◌, Bool, true, false, not, Option, none, some, List, [], ◌∷◌, arith, map, length,
  filter_by, any_by, ◌==◌, if◌then◌else◌,
}
use evm_fork_cache.Prelude.Map.{Map}
use evm_fork_cache.Word.{U256}
use evm_fork_cache.StateUpdate.Diff.{SlotChange}
use evm_fork_cache.Cache.State.{EvmCache, Revm}
use evm_fork_cache.Cache.Account.{Result, ok, err}
use evm_fork_cache.Cache.Verify.{
  Key, SlotOutcome, CacheError, missing_storage_batch_fetcher, reconcile_fetch_failed, Fetched,
  BlockId, StorageBatchFetchFn, classify, Verified, detect, verify_loop, is_fetched,
  verify_slots_core, verify_slots_inner, verify_slots, reconcile_slots,
}

module _ {E : Type 0} where
  detect-outcomes :
      (cached : Map Key (Option U256)) (k : Key) (r : Result U256 E) (v : Verified E)
      → (detect cached k r v).outcomes ≡ v.outcomes
  unfolding detect
  detect-outcomes cached k (ok fresh) v = ground arith
  detect-outcomes cached k (err e) v = refl

  abbrev pub outcome_of : Fetched E → SlotOutcome E
  outcome_of (k, r) = record { key = k; fetch = classify r }

  -- A verification has one outcome for each result of the fetcher, in its order, failed ones
  -- included.
  pub verify_loop-outcomes :
      (cached : Map Key (Option U256)) (results : List (Fetched E))
      → (verify_loop cached results).outcomes ≡ map outcome_of results
  unfolding verify_loop
  verify_loop-outcomes cached [] = refl
  verify_loop-outcomes cached ((k, r) ∷ results) =
      ap (λ o. record { key = k; fetch = classify r } ∷ o)
        (detect-outcomes cached k r (verify_loop cached results)
          ∙ verify_loop-outcomes cached results)

  abbrev pub succeeded : Fetched E → Bool
  succeeded (k, ok v) = true
  succeeded (k, err e) = false

  fetched-succeeded : (r : Fetched E) → is_fetched (classify r.1) ≡ succeeded r
  unfolding is_fetched classify
  fetched-succeeded (k, ok v) = ground arith
  fetched-succeeded (k, err e) = refl

  none_fetched :
      (results : List (Fetched E))
      → (length (filter_by (λ o. is_fetched o.fetch) (map outcome_of results)) == 0)
        ≡ not (any_by succeeded results)
  none_fetched [] = refl
  none_fetched (r ∷ results) = ground (arith, fetched-succeeded r, none_fetched results)

module _ {E : Type 0} (revm : Revm) (block : BlockId) where
  -- What `reconcile_slots` is to return.
  abbrev pub reconciled :
      Option (StorageBatchFetchFn E) → EvmCache → List Key → Result (List SlotChange) CacheError
  reconciled fetcher c [] = ok []
  reconciled none c (k ∷ slots) = err missing_storage_batch_fetcher
  reconciled (some fetch) c (k ∷ slots) =
      if any_by succeeded (fetch (k ∷ slots) block)
      then (verify_slots revm (some fetch) block c (k ∷ slots)).1
      else err (reconcile_fetch_failed (length (k ∷ slots)))

  -- A reconciliation of no slots is `Ok`; without a fetcher it fails; where the fetcher returns no
  -- value for any slot it fails with the number of slots; otherwise it is what `verify_slots` is.
  pub reconcile_slots-eq :
      (fetcher : Option (StorageBatchFetchFn E)) (c : EvmCache) (slots : List Key)
      → (reconcile_slots revm fetcher block c slots).1 ≡ reconciled fetcher c slots
  unfolding reconcile_slots verify_slots verify_slots_inner verify_slots_core
  reconcile_slots-eq fetcher c [] = refl
  reconcile_slots-eq none c (k ∷ slots) = refl
  reconcile_slots-eq (some fetch) c (k ∷ slots) =
      let results = fetch (k ∷ slots) block in
      rw verify_loop-outcomes (ground (arith, none_fetched results))
