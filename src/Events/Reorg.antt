-- ===== src/Events/Reorg.antt =====
-- src/events/mod.rs: what a reorg drops from the cache.
use evm_fork_cache.Prelude.{
  Bool, ◌&&◌, any_by, ℕ, suc, ◌≤◌, ◌<◌, ◌≡◌, ◌⊎◌, refl, ◌∙◌, ap, true, false, Option, List, [], ◌∷◌,
  ◌++◌, arith, ◌==◌, ltb, map, length, if◌then◌else◌, is_empty, inl, inr, Bool-cases, get_or,
}
use evm_fork_cache.Prelude.Eq.{nat_eq}
use evm_fork_cache.Prelude.Map.{get}
use evm_fork_cache.Prelude.Set.{
  contains, contains-empty, contains-is_empty, contains-add_each, Distinct, Distinct-add_each,
}
use evm_fork_cache.Word.{Address, U256}
use evm_fork_cache.StateUpdate.{StateUpdate, PurgeScope}
use evm_fork_cache.StateUpdate.Diff.{StateDiff, empty_diff, merge}
use evm_fork_cache.Cache.State.{Layers, EvmCache, Revm}
use evm_fork_cache.Cache.Slots.{cached_storage_value, backend_value}
use evm_fork_cache.Cache.Purge.{apply_purge}
use evm_fork_cache.Cache.Apply.{apply_arm}
use evm_fork_cache.Cache.Apply.Frame.{apply_arm-Framed}
use evm_fork_cache.Cache.Apply.Purges.{value_after, emptied, cached_storage_value-apply_purge}
use evm_fork_cache.Cache.Batch.Sequential.{sequential, apply_updates-layers}
use evm_fork_cache.Events.{
  EventPipeline, ReorgConfig, Ingested, Log, trim, trim_ring, push_block, touched_after,
  ingest_logs, ingest_loop, nothing_ingested, reorg_to,
}
use evm_fork_cache.Events.Changes.{value_of}
use evm_fork_cache.Events.Tracking.{ingest_loop-Untouched}

-- Both layers have the same entries of storage at the address.
abbrev SameStorage : Layers → Layers → Address → Type 0
SameStorage l l' a = (get a l'.overlay ≡ get a l.overlay) × (get a l'.storage ≡ get a l.storage)

SameStorage-reads :
    (l l' : Layers) (a : Address) (t : U256)
    → SameStorage l l' a
    → cached_storage_value l' a t ≡ cached_storage_value l a t
unfolding cached_storage_value backend_value
SameStorage-reads l l' a t h = ground (arith, h)

SameStorage-value_after :
    (scope : PurgeScope) (l l' : Layers) (a : Address) (t : U256)
    → SameStorage l l' a
    → value_after scope l' a t ≡ value_after scope l a t
SameStorage-value_after PurgeScope.account l l' a t h = refl
SameStorage-value_after PurgeScope.all_storage l l' a t h = ap emptied h.0
SameStorage-value_after (PurgeScope.slots slots) l l' a t h =
    ground (arith, SameStorage-reads l l' a t h, ap emptied h.0)

Distinct-touched_after : (h : ℕ) (ring : List (ℕ × List Address)) → Distinct (touched_after h ring)
unfolding touched_after
Distinct-touched_after h [] = tt
Distinct-touched_after h ((block, addrs) ∷ ring) = elim (Bool-cases (ltb h block)) [
  | inl after ↦ rw after (Distinct-add_each addrs _ (Distinct-touched_after h ring))
  | inr before ↦ rw before (Distinct-touched_after h ring)
]

module _ (revm : Revm) (scope : PurgeScope) where
  abbrev purges : List Address → List StateUpdate
  purges addresses = map (λ a. StateUpdate.purge a scope) addresses

  purge-SameStorage :
      (l : Layers) (a b : Address) → (a == b) ≡ false → SameStorage l (apply_purge l a scope).0 b
  unfolding apply_arm
  purge-SameStorage l a b h =
      let frame = (apply_arm-Framed revm l (StateUpdate.purge a scope) b).0 h in (frame.0, frame.1)

  contains-same : (a b : Address) (s : List Address) → a ≡ b → contains a s ≡ contains b s
  contains-same a b s e = ap (λ x. contains x s) e

  sequential-purges :
      (addresses : List Address) (l : Layers) (d : StateDiff) (b : Address) (t : U256)
      → Distinct addresses
      → cached_storage_value (sequential revm l (purges addresses) d).0 b t
        ≡ (if contains b addresses then value_after scope l b t else cached_storage_value l b t)
  unfolding contains apply_arm
  sequential-purges [] l d b t h = refl
  sequential-purges (a ∷ addresses) l d b t h =
      let later =
        sequential-purges addresses (apply_purge l a scope).0
          (merge d (apply_arm revm l (StateUpdate.purge a scope)).1) b t h.1 in
      elim (Bool-cases (a == b)) [
        | inl here ↦
            let same : a ≡ b = ground arith in
            later
            ∙ ground (
              arith,
              here,
              h.0,
              contains-same a b addresses same,
              cached_storage_value-apply_purge l a scope t,
              ap (λ x. cached_storage_value (apply_purge l a scope).0 x t) same,
              ap (λ x. value_after scope l x t) same,
            )
        | inr other ↦
            let frame = purge-SameStorage l a b other in
            later
            ∙ ground (
              arith,
              other,
              SameStorage-reads l (apply_purge l a scope).0 b t frame,
              SameStorage-value_after scope l (apply_purge l a scope).0 b t frame,
            )
      ]

-- A retained block above the head touched the address.
abbrev pub is_touched_above : ℕ → List (ℕ × List Address) → Address → Bool
is_touched_above head ring b = any_by (λ x. ltb head x.0 && contains b x.1) ring

contains-touched_after :
    (head : ℕ) (ring : List (ℕ × List Address)) (b : Address)
    → contains b (touched_after head ring) ≡ is_touched_above head ring b
unfolding touched_after
contains-touched_after head [] b = contains-empty b
contains-touched_after head ((block, addrs) ∷ ring) b =
    ground (
      arith,
      contains-touched_after head ring b,
      contains-add_each addrs (touched_after head ring) b,
    )

-- After a reorg, the slots of each address that a retained block with a number above the new head
-- touched read as after a purge by the configured scope, and every other slot reads as before.
pub reorg_to-reads :
    (revm : Revm) (p : EventPipeline) (c : EvmCache) (new_head : ℕ) (b : Address) (t : U256)
    → cached_storage_value (reorg_to revm p c new_head).1.layers b t ≡ (
        if is_touched_above new_head p.touched b
        then value_after p.reorg.scope c.layers b t
        else cached_storage_value c.layers b t)
unfolding reorg_to
reorg_to-reads revm p c new_head b t =
    ap (λ (r : Layers × StateDiff). cached_storage_value r.0 b t)
      (apply_updates-layers revm c (purges revm p.reorg.scope (touched_after new_head p.touched)))
    ∙ sequential-purges revm p.reorg.scope (touched_after new_head p.touched) c.layers empty_diff b
        t (Distinct-touched_after new_head p.touched)
    ∙ ap
        (λ (found : Bool).
          if found
          then value_after p.reorg.scope c.layers b t
          else cached_storage_value c.layers b t)
        (contains-touched_after new_head p.touched b)

touched_after-cons :
    (h n : ℕ) (xs : List Address) (ring : List (ℕ × List Address)) (b : Address)
    → contains b (touched_after h ring) ≡ true
    → contains b (touched_after h ((n, xs) ∷ ring)) ≡ true
unfolding touched_after
touched_after-cons h n xs ring b there =
    ground (arith, contains-add_each xs (touched_after h ring) b)

touched_after-newest :
    (h block : ℕ) (addrs : List Address) (ring : List (ℕ × List Address)) (b : Address)
    → h < block
    → contains b addrs ≡ true
    → contains b (touched_after h (ring ++ (block, addrs) ∷ [])) ≡ true
unfolding touched_after
touched_after-newest h block addrs [] b above there = ground (arith, contains-add_each addrs [] b)
touched_after-newest h block addrs ((n, xs) ∷ ring) b above there =
    touched_after-cons h n xs (ring ++ (block, addrs) ∷ []) b
      (touched_after-newest h block addrs ring b above there)

-- The addresses of the newest entry of a ring are found, also once it is trimmed.
touched_after-trim :
    (h depth block : ℕ) (addrs : List Address) (ring : List (ℕ × List Address)) (b : Address)
    → h < block
    → 1 ≤ depth
    → contains b addrs ≡ true
    → contains b (touched_after h (trim depth (ring ++ (block, addrs) ∷ []))) ≡ true
unfolding trim touched_after
touched_after-trim h depth block addrs [] b above deep there =
    ground (arith, contains-add_each addrs [] b)
touched_after-trim h depth block addrs ((n, xs) ∷ ring) b above deep there =
    elim (Bool-cases (ltb depth (suc (length (ring ++ (block, addrs) ∷ []))))) [
      | inl long ↦ rw long (touched_after-trim h depth block addrs ring b above deep there)
      | inr short ↦ rw short (
          touched_after-cons h n xs (ring ++ (block, addrs) ∷ []) b
            (touched_after-newest h block addrs ring b above there))
    ]

touched_after-push_block :
    (p : EventPipeline) (block h : ℕ) (i : Ingested) (b : Address)
    → h < block
    → 1 ≤ p.reorg.depth
    → contains b i.touched_addrs ≡ true
    → contains b (touched_after h (push_block p block i).touched) ≡ true
unfolding push_block trim_ring
touched_after-push_block p block h i b above deep there =
    elim (Bool-cases (is_empty i.touched_addrs)) [
      | inl nothing ↦ absurd (ground (arith, contains-is_empty b i.touched_addrs nothing))
      | inr some_touched ↦
          rw some_touched
            (touched_after-trim h p.reorg.depth block i.touched_addrs p.touched b above deep there)
    ]

reorg-push_block :
    (p : EventPipeline) (block : ℕ) (i : Ingested) → (push_block p block i).reorg ≡ p.reorg
unfolding push_block trim_ring
reorg-push_block p block i = ground arith

-- Once a block is ingested, with a horizon of at least one block, after a reorg to a head below it
-- each slot reads either as after a purge of its address by the configured scope, which keeps what
-- the block left in a slot that a scope of listed slots does not list, or as before the block, an
-- uncached slot counting as zero.
pub reorg_to-ingest_logs :
    (revm : Revm) (p : EventPipeline) (c : EvmCache) (block new_head : ℕ) (logs : List Log)
    (b : Address) (t : U256)
    → new_head < block
    → 1 ≤ p.reorg.depth
    → let ingested = ingest_logs revm p c block logs in
      let reorged = reorg_to revm ingested.0 ingested.1 new_head in
      (cached_storage_value reorged.1.layers b t ≡ value_after p.reorg.scope ingested.1.layers b t)
      ⊎ (value_of reorged.1.layers b t ≡ value_of c.layers b t)
unfolding ingest_logs
reorg_to-ingest_logs revm p c block new_head logs b t above deep =
    let r = ingest_loop revm p.registry c (nothing_ingested block) logs in
    let after = push_block p block r.1 in
    let reads = reorg_to-reads revm after r.0 new_head b t in
    let scope_kept =
      ap (λ (cfg : ReorgConfig). value_after cfg.scope r.0.layers b t)
        (reorg-push_block p block r.1) in
    elim (Bool-cases (is_touched_above new_head after.touched b)) [
      | inl found ↦ inl (reads ∙ ground (arith, found, scope_kept))
      | inr absent ↦ inr (
          ap (λ (o : Option U256). get_or o 0) {y = cached_storage_value r.0.layers b t}
            (reads ∙ ground (arith, absent))
          ∙ (ingest_loop-Untouched revm p.registry b t c (nothing_ingested block) logs (
              ground (
                arith,
                absent,
                contains-touched_after new_head after.touched b,
                touched_after-push_block p block new_head r.1 b above deep,
              ))).1)
    ]
