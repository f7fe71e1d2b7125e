-- ===== src/PrefetchRegistry/Reads.antt =====
-- src/prefetch_registry.rs: what a prefetch leaves in layer 2.
use evm_fork_cache.Prelude.{
  ℕ, ◌+◌, ◌≡◌, refl, sym, ap, ◌∙◌, subst, Bool, false, not, ◌&&◌, Option, none, some, List, [], ◌∷◌,
  arith, inl, inr, if◌then◌else◌, is_empty, length, Bool-cases,
}
use evm_fork_cache.Prelude.Eq.{Eq, nat_eq, pair_eq, pair_beq, pair_beq_iff}
use evm_fork_cache.Prelude.Map.{Map, get, Unique}
use evm_fork_cache.Prelude.Set.{contains}
use evm_fork_cache.Word.{Address, U256}
use evm_fork_cache.Cache.State.{Layers, EvmCache}
use evm_fork_cache.Cache.Slots.{
  backend_value, entry_insert, inject_writes, inject_marks, inject_storage_batch, mark_base_dirty,
}
use evm_fork_cache.Cache.Slots.ReadWrite.{backend_value-entry_insert}
use evm_fork_cache.Cache.Account.{Result, ok, err}
use evm_fork_cache.Cache.Verify.{Key, Fetched, BlockId, StorageBatchFetchFn}
use evm_fork_cache.Cache.Verify.Reconciled.{Answers}
use evm_fork_cache.PrefetchRegistry.{
  PrefetchRegistry, split_results, batch_prefetch, prefetch_keyed,
}
use evm_fork_cache.PrefetchRegistry.Requests.{requested, is_recorded, contains-requested}

inject_marks-keeps_maps :
    (results : List (Address × (U256 × U256))) (l : Layers)
    → ((inject_marks results l).overlay ≡ l.overlay)
      × ((inject_marks results l).storage ≡ l.storage)
unfolding inject_marks mark_base_dirty
inject_marks-keeps_maps [] l = (refl, refl)
inject_marks-keeps_maps ((a, r) ∷ results) l = inject_marks-keeps_maps results (mark_base_dirty l a)

module _ {E : Type 0} where
  -- what layer 2 has of a slot after an answer for it, or none
  abbrev pub landed : Option U256 → Option (Result U256 E) → Option U256
  landed before none = before
  landed before (some (err e)) = before
  landed before (some (ok v)) = some v

  writes-landed :
      (results : List (Fetched E)) (storage : Map Address (Map U256 U256)) (k : Key)
      → Unique results
      → backend_value (inject_writes (split_results results).0 storage) k.0 k.1
        ≡ landed (backend_value storage k.0 k.1) (get k results)
  unfolding inject_writes split_results get
  writes-landed [] storage k u = refl
  writes-landed ((j, err e) ∷ results) storage k u = elim (Bool-cases (pair_beq j k)) [
    | inl here ↦
        let same : j ≡ k = (pair_beq_iff j k).0 here in
        ground (arith, here, writes-landed results storage k u.1, u.0, same)
    | inr other ↦ ground (arith, other, writes-landed results storage k u.1)
  ]
  writes-landed ((j, ok v) ∷ results) storage k u =
      let later = writes-landed results (entry_insert j.0 j.1 v storage) k u.1 in
      let written = backend_value-entry_insert storage j.0 k.0 j.1 k.1 v in
      elim (Bool-cases (pair_beq j k)) [
        | inl here ↦
            let same : j ≡ k = (pair_beq_iff j k).0 here in
            ground (arith, here, later, written, u.0, same)
        | inr other ↦ ground (arith, other, later, written)
      ]

  counts-split :
      (results : List (Fetched E))
      → length (split_results results).0 + (split_results results).1 ≡ length results
  unfolding split_results
  counts-split [] = refl
  counts-split ((j, err e) ∷ results) = omega (arith, counts-split results)
  counts-split ((j, ok v) ∷ results) = omega (arith, counts-split results)

  -- the effect of a prefetch of some slots
  abbrev pub Prefetched :
      StorageBatchFetchFn E → BlockId → EvmCache → List Key → EvmCache × (ℕ × ℕ) → Key → Type 0
  Prefetched fetch block c slots r k =
      (backend_value r.0.storage k.0 k.1 ≡ (
        if contains k slots
        then landed (backend_value c.storage k.0 k.1) (get k (fetch slots block))
        else backend_value c.storage k.0 k.1))
      × (r.0.overlay ≡ c.overlay)
      × (r.1.0 + r.1.1 ≡ (if is_empty slots then 0 else length (fetch slots block)))

  unasked :
      (fetch : StorageBatchFetchFn E) (block : BlockId) (slots : List Key) (k : Key)
      → Answers E fetch slots block
      → contains k slots ≡ false
      → get k (fetch slots block) ≡ none
  unasked fetch block slots k answers h = elim (answers.requested k) [
    | inl unfetched ↦ unfetched
    | inr asked ↦ ground (arith, h, asked)
  ]

  batch_prefetch-Prefetched :
      (fetch : StorageBatchFetchFn E) (block : BlockId) (c : EvmCache) (slots : List Key) (k : Key)
      → Answers E fetch slots block
      → Prefetched fetch block c slots (batch_prefetch (some fetch) block c slots) k
  unfolding batch_prefetch inject_storage_batch contains
  batch_prefetch-Prefetched fetch block c [] k answers = (refl, refl, refl)
  batch_prefetch-Prefetched fetch block c (j ∷ slots) k answers =
      let results = fetch (j ∷ slots) block in
      let successes = (split_results results).0 in
      let written = record (c.layers) { storage = inject_writes successes c.storage } in
      let kept = inject_marks-keeps_maps successes written in
      let landing =
        ap (λ m. backend_value m k.0 k.1) kept.1
        ∙ writes-landed results c.storage k answers.distinct in
      (
        elim (Bool-cases (contains k (j ∷ slots))) [
          | inl asked ↦ landing ∙ ground (arith, asked)
          | inr other ↦
              landing
              ∙ ap (landed (backend_value c.storage k.0 k.1))
                  (unasked fetch block (j ∷ slots) k answers other)
              ∙ ground (arith, other)
        ],
        kept.0,
        counts-split results,
      )

  module _ {Name : Type 0} ⦃e : Eq Name⦄ where
    prefetch_keyed-batch_prefetch :
        (fetcher : Option (StorageBatchFetchFn E)) (block : BlockId) (r : PrefetchRegistry Name)
        (phase : Name) (keys : List Address) (exclude : List Key) (c : EvmCache)
        → prefetch_keyed r phase keys exclude fetcher block c
          ≡ batch_prefetch fetcher block c (requested r phase keys exclude)
    unfolding prefetch_keyed batch_prefetch
    prefetch_keyed-batch_prefetch fetcher block r phase keys exclude c = ground arith

    -- After a prefetch of some keys of a phase, by a fetcher that answers each requested slot at most
    -- once and no other, layer 2 has the fetched value of each slot that is recorded for one of the
    -- keys and not excluded, where its fetch succeeded; it has every other slot, and layer 1 is, as
    -- before. The two counts add up to the number of results.
    pub prefetch_keyed-reads :
        (fetch : StorageBatchFetchFn E) (block : BlockId) (r : PrefetchRegistry Name) (phase : Name)
        (keys : List Address) (exclude : List Key) (c : EvmCache) (k : Key)
        → Answers E fetch (requested r phase keys exclude) block
        → let slots = requested r phase keys exclude in
          let after = prefetch_keyed r phase keys exclude (some fetch) block c in
          let before = backend_value c.storage k.0 k.1 in
          (backend_value after.0.storage k.0 k.1 ≡ (
            if is_recorded r phase keys k && not (contains k exclude)
            then landed before (get k (fetch slots block))
            else before))
          × (after.0.overlay ≡ c.overlay)
          × (after.1.0 + after.1.1 ≡ (if is_empty slots then 0 else length (fetch slots block)))
    prefetch_keyed-reads fetch block r phase keys exclude c k answers =
        let slots = requested r phase keys exclude in
        let (value, overlay, counts) =
          subst (λ x. Prefetched fetch block c slots x k)
            (sym (prefetch_keyed-batch_prefetch (some fetch) block r phase keys exclude c))
            (batch_prefetch-Prefetched fetch block c slots k answers) in
        (
          value
              ∙ ap
                  (λ (b : Bool).
                    if b
                    then landed (backend_value c.storage k.0 k.1) (get k (fetch slots block))
                    else backend_value c.storage k.0 k.1)
                  (contains-requested r phase keys exclude k),
          overlay,
          counts,
        )
