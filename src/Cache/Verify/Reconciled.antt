-- ===== src/Cache/Verify/Reconciled.antt =====
-- What the cache reads after a verification.
use evm_fork_cache.Prelude.{
  ◌≡◌, refl, ap, ◌∙◌, ◌⊎◌, inl, inr, true, false, Option, none, some, List, [], ◌∷◌, arith, map,
  is_empty, ◌==◌, if◌then◌else◌, Bool-cases, get_or,
}
use evm_fork_cache.Prelude.Eq.{nat_eq, pair_eq, pair_beq, pair_beq_iff}
use evm_fork_cache.Prelude.Map.{Map, get, get-insert, Unique}
use evm_fork_cache.Prelude.Set.{contains}
use evm_fork_cache.Word.{U256}
use evm_fork_cache.StateUpdate.Diff.{StateDiff, empty_diff, merge}
use evm_fork_cache.Cache.State.{Layers, EvmCache, Revm}
use evm_fork_cache.Cache.Slots.{cached_storage_value}
use evm_fork_cache.Cache.Account.{Result, ok, err}
use evm_fork_cache.Cache.Apply.{apply_arm}
use evm_fork_cache.Cache.Apply.Reads.{set, apply_arm-on_slot}
use evm_fork_cache.Cache.Batch.Sequential.{sequential, apply_updates-layers}
use evm_fork_cache.Cache.Verify.{
  Key, Fetched, BlockId, StorageBatchFetchFn, fresh_update, inject_storage_batch_fresh, baseline,
  old_value, detect, verify_loop, verify_slots_core,
}

abbrev pub read_key : Layers → Key → Option U256
read_key l k = cached_storage_value l k.0 k.1

-- the value that an injected slot reads as, and any other as before
abbrev pub or_before : Option U256 → Option U256 → Option U256
or_before none before = before
or_before (some v) before = some v

module _ (revm : Revm) where
  sequential-fresh :
      (l : Layers) (results : List (Key × U256)) (diff : StateDiff) (k : Key)
      → Unique results
      → read_key (sequential revm l (map fresh_update results) diff).0 k
        ≡ or_before (get k results) (read_key l k)
  unfolding get
  sequential-fresh l [] diff k u = refl
  sequential-fresh l ((j, v) ∷ results) diff k u =
      let next = apply_arm revm l (fresh_update (j, v)) in
      sequential-fresh next.0 results (merge diff next.1) k u.1 ∙ step (Bool-cases (pair_beq j k))
    where
      step :
          (pair_beq j k ≡ true) ⊎ (pair_beq j k ≡ false)
          → or_before (get k results) (read_key (apply_arm revm l (fresh_update (j, v))).0 k)
            ≡ or_before (get k ((j, v) ∷ results)) (read_key l k)
      step (inl here) =
          let e : j ≡ k = (pair_beq_iff j k).0 here in
          ground (arith, apply_arm-on_slot revm l j.0 k.0 j.1 k.1 (set v), u.0, e)
      step (inr other) = ground (arith, apply_arm-on_slot revm l j.0 k.0 j.1 k.1 (set v))

  -- Injected values read back, from either layer; every other slot reads as before.
  pub inject-reads :
      (c : EvmCache) (results : List (Key × U256)) (k : Key)
      → Unique results
      → read_key (inject_storage_batch_fresh revm c results).layers k
        ≡ or_before (get k results) (read_key c.layers k)
  unfolding inject_storage_batch_fresh
  inject-reads c results k u =
      ap (λ (r : Layers × StateDiff). read_key r.0 k)
        (apply_updates-layers revm c (map fresh_update results))
      ∙ sequential-fresh c.layers results empty_diff k u

get-baseline :
    (l : Layers) (slots : List Key) (k : Key)
    → contains k slots ≡ true
    → get k (baseline l slots) ≡ some (read_key l k)
unfolding baseline contains
get-baseline l [] k h = cc
get-baseline l (j ∷ slots) k h = elim (Bool-cases (pair_beq j k)) [
  | inl here ↦
      let e : j ≡ k = (pair_beq_iff j k).0 here in
      ground (
        arith,
        get-insert j k (cached_storage_value l j.0 j.1) (baseline l slots),
        ap (read_key l) e,
      )
  | inr other ↦ ground (
    arith,
    get-insert j k (cached_storage_value l j.0 j.1) (baseline l slots),
    get-baseline l slots k,
  )
]

old_value-baseline :
    (l : Layers) (slots : List Key) (k : Key)
    → contains k slots ≡ true
    → old_value (baseline l slots) k ≡ get_or (read_key l k) 0
unfolding old_value
old_value-baseline l slots k h = ground (arith, get-baseline l slots k h)

module _ {E : Type 0} where
  -- the value that a result injects
  abbrev injected : U256 → Option (Result U256 E) → Option U256
  injected old none = none
  injected old (some (err e)) = none
  injected old (some (ok fresh)) = if fresh == old then none else some fresh

  get-to_inject :
      (cached : Map Key (Option U256)) (results : List (Fetched E)) (k : Key)
      → Unique results
      → get k (verify_loop cached results).to_inject ≡ injected (old_value cached k) (get k results)
  unfolding verify_loop detect get
  get-to_inject cached [] k u = refl
  get-to_inject cached ((j, err e) ∷ results) k u = elim (Bool-cases (pair_beq j k)) [
    | inl here ↦
        let e : j ≡ k = (pair_beq_iff j k).0 here in
        ground (arith, get-to_inject cached results k u.1, u.0, e)
    | inr other ↦ ground (arith, get-to_inject cached results k u.1)
  ]
  get-to_inject cached ((j, ok fresh) ∷ results) k u = elim (Bool-cases (pair_beq j k)) [
    | inl here ↦
        let e : j ≡ k = (pair_beq_iff j k).0 here in
        ground (arith, get-to_inject cached results k u.1, u.0, e, ap (old_value cached) e)
    | inr other ↦ ground (arith, get-to_inject cached results k u.1)
  ]

  Unique-to_inject :
      (cached : Map Key (Option U256)) (results : List (Fetched E))
      → Unique results
      → Unique (verify_loop cached results).to_inject
  unfolding verify_loop detect
  Unique-to_inject cached [] u = tt
  Unique-to_inject cached ((j, err e) ∷ results) u = Unique-to_inject cached results u.1
  Unique-to_inject cached ((j, ok fresh) ∷ results) u =
      elim (Bool-cases (fresh == old_value cached j)) [
        | inl same ↦ rw same (Unique-to_inject cached results u.1)
        | inr differs ↦ rw differs (
          ground (arith, get-to_inject cached results j u.1, u.0),
          Unique-to_inject cached results u.1,
        )
      ]

-- What a slot reads as, of what it read as and what was fetched for it.
module _ {E : Type 0} where
  abbrev pub settled : Option U256 → Option (Result U256 E) → Option U256
  settled before none = before
  settled before (some (err e)) = before
  settled before (some (ok fresh)) = if fresh == get_or before 0 then before else some fresh

-- The fetcher answers each requested slot at most once and no other slot.
pub record Answers (E : Type 0) (fetch : StorageBatchFetchFn E) (slots : List Key) (block : BlockId)
    : Type 0 where
  pub distinct : Unique (fetch slots block)
  pub requested : (k : Key) → (get k (fetch slots block) ≡ none) ⊎ (contains k slots ≡ true)

after_inject :
    (revm : Revm) (c : EvmCache) (to_inject : List (Key × U256)) (k : Key)
    → Unique to_inject
    → read_key
        (if is_empty to_inject then c else inject_storage_batch_fresh revm c to_inject).layers
        k
      ≡ or_before (get k to_inject) (read_key c.layers k)
unfolding get
after_inject revm c [] k u = refl
after_inject revm c (r ∷ rs) k u = inject-reads revm c (r ∷ rs) k u

module _ {E : Type 0} (revm : Revm) where
  settled-injected :
      (before : Option U256) (r : Option (Result U256 E)) (old : U256)
      → (r ≡ none) ⊎ (old ≡ get_or before 0)
      → or_before (injected old r) before ≡ settled before r
  settled-injected before none old h = refl
  settled-injected before (some (err e)) old h = refl
  settled-injected before (some (ok fresh)) old (inl h) = cc
  settled-injected before (some (ok fresh)) old (inr h) = ground arith

  -- After a verification, by a fetcher that answers each requested slot at most once and no other,
  -- each slot reads as the fetched value, where that differs from what it read as, an uncached slot counting as zero; a slot that was not fetched, or failed, reads as before.
  pub verify_slots_core-reads :
      (fetch : StorageBatchFetchFn E) (block : BlockId) (c : EvmCache) (slots : List Key) (k : Key)
      → Answers E fetch slots block
      → read_key (verify_slots_core revm (some fetch) block c slots).0.layers k
        ≡ settled (read_key c.layers k) (get k (fetch slots block))
  unfolding verify_slots_core contains
  verify_slots_core-reads fetch block c [] k answers = unasked (answers.requested k)
    where
      unasked :
          (get k (fetch [] block) ≡ none) ⊎ (false ≡ true)
          → read_key c.layers k ≡ settled (read_key c.layers k) (get k (fetch [] block))
      unasked (inl unfetched) = rw unfetched refl
      unasked (inr h) = cc
  verify_slots_core-reads fetch block c (j ∷ slots) k answers =
      let cached = baseline c.layers (j ∷ slots) in
      let results = fetch (j ∷ slots) block in
      after_inject revm c (verify_loop cached results).to_inject k
        (Unique-to_inject cached results answers.distinct)
      ∙ ap (λ o. or_before o (read_key c.layers k))
          (get-to_inject cached results k answers.distinct)
      ∙ settled-injected (read_key c.layers k) (get k results) (old_value cached k)
          (old_known (answers.requested k))
    where
      old_known :
          (get k (fetch (j ∷ slots) block) ≡ none) ⊎ (contains k (j ∷ slots) ≡ true)
          → (get k (fetch (j ∷ slots) block) ≡ none)
            ⊎ (old_value (baseline c.layers (j ∷ slots)) k ≡ get_or (read_key c.layers k) 0)
      old_known (inl unfetched) = inl unfetched
      old_known (inr asked) = inr (old_value-baseline c.layers (j ∷ slots) k asked)

  -- After a verification by such a fetcher every slot that was fetched reads as the fetched value, an uncached slot counting as zero.
  pub verify_slots_core-converges :
      (fetch : StorageBatchFetchFn E) (block : BlockId) (c : EvmCache) (slots : List Key) (k : Key)
      (fresh : U256)
      → Answers E fetch slots block
      → get k (fetch slots block) ≡ some (ok fresh)
      → get_or (read_key (verify_slots_core revm (some fetch) block c slots).0.layers k) 0 ≡ fresh
  verify_slots_core-converges fetch block c slots k fresh answers fetched =
      ground (arith, verify_slots_core-reads fetch block c slots k answers)
