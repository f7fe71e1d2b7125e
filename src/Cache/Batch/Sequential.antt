-- ===== src/Cache/Batch/Sequential.antt =====
-- The fast path of `apply_updates` against one `apply_update` after the other.
use evm_fork_cache.Prelude.{
  ℕ, zero, suc, ◌≤◌, ◌≡◌, refl, sym, ◌∙◌, ap, ap₂, true, Option, none, some, List, [], ◌∷◌, ◌++◌,
  arith, All, length, inl, inr, Bool-cases, Option-cases, append-nil, get_or,
}
use evm_fork_cache.Prelude.Eq.{nat_eq}
use evm_fork_cache.Prelude.Set.{add}
use evm_fork_cache.Word.{Address, U256}
use evm_fork_cache.StateUpdate.{StateUpdate, SlotDelta, apply as apply_delta}
use evm_fork_cache.StateUpdate.Diff.{StateDiff, SlotChange, SkippedDelta, empty_diff, merge}
use evm_fork_cache.Cache.State.{Layers, EvmCache, Revm, bump_snapshot_generation}
use evm_fork_cache.Cache.Slots.{
  mark_base_dirty, read_slot_account_state_aware, cached_storage_value, write_slot_into,
  write_slot_through, slot_change, apply_slot,
}
use evm_fork_cache.Cache.Slots.ReadWrite.{read_slot_account_state_aware-eq}
use evm_fork_cache.Cache.Apply.{push_slot, apply_arm, apply_update}
use evm_fork_cache.Cache.Batch.{
  is_slot_write, Run, run_write, run_step, run_loop, mark_all, apply_slot_run, slot_run, after_run,
  updates_loop, apply_updates,
}

-- the addresses that a run dirtied, added in order
add_all : List Address → List Address → List Address
add_all [] s = s
add_all (a ∷ dirtied) s = add_all dirtied (add a s)

add_all-snoc :
    (dirtied s : List Address) (a : Address)
    → add_all (dirtied ++ a ∷ []) s ≡ add a (add_all dirtied s)
unfolding add_all
add_all-snoc [] s a = refl
add_all-snoc (b ∷ dirtied) s a = add_all-snoc dirtied (add b s) a

mark_all-add_all :
    (l : Layers) (dirtied : List Address)
    → mark_all l dirtied ≡ record l { base_dirty = add_all dirtied l.base_dirty }
unfolding mark_all mark_base_dirty add_all
mark_all-add_all l [] = refl
mark_all-add_all l (a ∷ dirtied) = mark_all-add_all (mark_base_dirty l a) dirtied

-- The cache's layers once the guard of a run is dropped.
flush : Layers → Run → Layers
flush l r = record l {
  overlay = r.overlay;
  storage = r.storage;
  base_dirty = add_all r.dirtied l.base_dirty;
}

run_write-flush :
    (l : Layers) (r : Run) (a : Address) (s old new : U256)
    → flush l (run_write r a s old new) ≡ write_slot_through (flush l r) a s new
unfolding flush run_write write_slot_into write_slot_through mark_base_dirty
run_write-flush l r a s old new = rw add_all-snoc

push_slot-merge :
    (change : Option SlotChange) (diff : StateDiff)
    → push_slot change diff ≡ merge diff (push_slot change empty_diff)
unfolding merge
push_slot-merge none diff = simp append-nil
push_slot-merge (some change) diff = simp append-nil

push_skipped-merge :
    (skipped : SkippedDelta) (diff : StateDiff)
    → record diff { skipped = diff.skipped ++ skipped ∷ [] }
      ≡ merge diff (record empty_diff { skipped = skipped ∷ [] })
unfolding merge
push_skipped-merge skipped diff = simp append-nil

run_write-diff :
    (r : Run) (a : Address) (s old new : U256)
    → (run_write r a s old new).diff ≡ merge r.diff (push_slot (slot_change a s old new) empty_diff)
unfolding run_write
run_write-diff r a s old new = push_slot-merge (slot_change a s old new) r.diff

same_read :
    (l : Layers) (r : Run) (a : Address) (s : U256)
    → read_slot_account_state_aware r.overlay r.storage a s ≡ cached_storage_value (flush l r) a s
unfolding flush
same_read l r a s = read_slot_account_state_aware-eq (flush l r) a s

module _ (revm : Revm) where
  abbrev pub sequential : Layers → List StateUpdate → StateDiff → Layers × StateDiff
  sequential l [] diff = (l, diff)
  sequential l (u ∷ us) diff = let r = apply_arm revm l u in sequential r.0 us (merge diff r.1)

  -- a step of a run is the arm of its update, seen through `flush`
  abbrev Follows : Layers → Run → StateUpdate → Type 0
  Follows l r u =
      (flush l (run_step r u) ≡ (apply_arm revm (flush l r) u).0)
      × ((run_step r u).diff ≡ merge r.diff (apply_arm revm (flush l r) u).1)

  slot-Follows :
      (l : Layers) (r : Run) (a : Address) (s v : U256) → Follows l r (StateUpdate.slot a s v)
  unfolding run_step apply_arm apply_slot
  slot-Follows l r a s v =
      let read = get_or (read_slot_account_state_aware r.overlay r.storage a s) 0 in
      (
        run_write-flush l r a s read v,
        run_write-diff r a s read v
            ∙ ap (λ o. merge r.diff (push_slot (slot_change a s (get_or o 0) v) empty_diff))
                (same_read l r a s),
      )

  slot_delta-Follows :
      (l : Layers) (r : Run) (a : Address) (s : U256) (d : SlotDelta)
      → Follows l r (StateUpdate.slot_delta a s d)
  unfolding run_step apply_arm flush
  slot_delta-Follows l r a s d = elim (Option-cases (cached_storage_value (flush l r) a s)) [
    | inl cold ↦
        rw (same_read l r a s, cold, run_step, apply_arm) (refl, push_skipped-merge _ r.diff)
    | inr (v, hot) ↦
        rw (same_read l r a s, hot, run_step, apply_arm)
          (run_write-flush l r a s v (apply_delta d v), run_write-diff r a s v (apply_delta d v))
  ]

  run_step-Follows :
      (l : Layers) (r : Run) (u : StateUpdate) → is_slot_write u ≡ true → Follows l r u
  run_step-Follows l r (StateUpdate.slot a s v) h = slot-Follows l r a s v
  run_step-Follows l r (StateUpdate.slot_delta a s d) h = slot_delta-Follows l r a s d
  run_step-Follows l r _ h = cc

  run_loop-sequential :
      (l : Layers) (r : Run) (run : List StateUpdate)
      → All (λ u. is_slot_write u ≡ true) run
      → ◌≡◌ {A = Layers × StateDiff}
          (flush l (run_loop r run), (run_loop r run).diff)
          (sequential (flush l r) run r.diff)
  unfolding run_loop
  run_loop-sequential l r [] h = refl
  run_loop-sequential l r (u ∷ run) h =
      let follows = run_step-Follows l r u h.0 in
      run_loop-sequential l (run_step r u) run h.1
      ∙ ap₂ (λ x d. sequential x run d) follows.0 follows.1

  apply_slot_run-sequential :
      (l : Layers) (run : List StateUpdate) (diff : StateDiff)
      → All (λ u. is_slot_write u ≡ true) run
      → apply_slot_run l run diff ≡ sequential l run diff
  unfolding apply_slot_run flush add_all
  apply_slot_run-sequential l run diff h =
      let start : Run = record {
        overlay = l.overlay;
        storage = l.storage;
        dirtied = [];
        diff = diff;
      } in
      let end = run_loop start run in
      rw (mark_all-add_all (record l { overlay = end.overlay; storage = end.storage }) end.dirtied)
        (run_loop-sequential l start run h)

  sequential-append :
      (l : Layers) (xs ys : List StateUpdate) (diff : StateDiff)
      → sequential l (xs ++ ys) diff ≡ (let r = sequential l xs diff in sequential r.0 ys r.1)
  sequential-append l [] ys diff = refl
  sequential-append l (u ∷ xs) ys diff =
      sequential-append (apply_arm revm l u).0 xs ys (merge diff (apply_arm revm l u).1)

slot_run-append-after_run : (us : List StateUpdate) → slot_run us ++ after_run us ≡ us
unfolding slot_run after_run
slot_run-append-after_run [] = refl
slot_run-append-after_run (u ∷ us) = ground (arith, slot_run-append-after_run us)

slot_run-All : (us : List StateUpdate) → All (λ u. is_slot_write u ≡ true) (slot_run us)
unfolding slot_run
slot_run-All [] = tt
slot_run-All (u ∷ us) = elim (Bool-cases (is_slot_write u)) [
  | inl write ↦ rw write (write, slot_run-All us)
  | inr stop ↦ rw stop tt
]

length-after_run : (us : List StateUpdate) → length (after_run us) ≤ length us
unfolding after_run
length-after_run [] = omega arith
length-after_run (u ∷ us) = ground (arith, length-after_run us)

length-after_run_cons :
    (u : StateUpdate) (us : List StateUpdate)
    → is_slot_write u ≡ true
    → length (after_run (u ∷ us)) ≤ length us
unfolding after_run
length-after_run_cons u us write = rw write (length-after_run us)

module _ (revm : Revm) where
  -- the rest of the updates after a batched run
  after_batch :
      (l : Layers) (us : List StateUpdate) (diff : StateDiff)
      → (let r = apply_slot_run l (slot_run us) diff in sequential revm r.0 (after_run us) r.1)
        ≡ sequential revm l us diff
  after_batch l us diff =
      ap (λ (r : Layers × StateDiff). sequential revm r.0 (after_run us) r.1)
        (apply_slot_run-sequential revm l (slot_run us) diff (slot_run-All us))
      ∙ sym (sequential-append revm l (slot_run us) (after_run us) diff)
      ∙ ap (λ x. sequential revm l x diff) (slot_run-append-after_run us)

  updates_loop-sequential :
      (fuel : ℕ) (c : EvmCache) (us : List StateUpdate) (diff : StateDiff)
      → length us ≤ fuel
      → ◌≡◌ {A = Layers × StateDiff}
          ((updates_loop revm fuel c us diff).0.layers, (updates_loop revm fuel c us diff).1)
          (sequential revm c.layers us diff)
  unfolding updates_loop apply_update
  updates_loop-sequential fuel c [] diff h = refl
  updates_loop-sequential zero c (u ∷ us) diff h = absurd (omega arith)
  updates_loop-sequential (suc fuel) c (u ∷ us) diff h = elim (Bool-cases (is_slot_write u)) [
    | inl write ↦ rw write (
        updates_loop-sequential fuel
          (record c { layers = (apply_slot_run c.layers (slot_run (u ∷ us)) diff).0 })
          (after_run (u ∷ us)) (apply_slot_run c.layers (slot_run (u ∷ us)) diff).1
          (omega (arith, length-after_run_cons u us write))
        ∙ after_batch c.layers (u ∷ us) diff)
    | inr single ↦ rw single (
        updates_loop-sequential fuel (apply_update revm c u).0 us
          (merge diff (apply_update revm c u).1) (omega arith))
  ]

  pub apply_updates-layers :
      (c : EvmCache) (us : List StateUpdate)
      → ◌≡◌ {A = Layers × StateDiff}
          ((apply_updates revm c us).0.layers, (apply_updates revm c us).1)
          (sequential revm c.layers us empty_diff)
  unfolding apply_updates bump_snapshot_generation
  apply_updates-layers c [] = updates_loop-sequential 0 c [] empty_diff (omega arith)
  apply_updates-layers c (u ∷ us) =
      updates_loop-sequential (length (u ∷ us)) (bump_snapshot_generation c) (u ∷ us) empty_diff
        (omega arith)

  -- `apply_update` folded over the updates, with `StateDiff::merge`
  abbrev pub one_by_one : EvmCache → List StateUpdate → StateDiff → EvmCache × StateDiff
  one_by_one c [] diff = (c, diff)
  one_by_one c (u ∷ us) diff = let r = apply_update revm c u in one_by_one r.0 us (merge diff r.1)

  one_by_one-layers :
      (c : EvmCache) (us : List StateUpdate) (diff : StateDiff)
      → ◌≡◌ {A = Layers × StateDiff}
          ((one_by_one c us diff).0.layers, (one_by_one c us diff).1)
          (sequential revm c.layers us diff)
  unfolding apply_update
  one_by_one-layers c [] diff = refl
  one_by_one-layers c (u ∷ us) diff =
      one_by_one-layers (apply_update revm c u).0 us (merge diff (apply_update revm c u).1)

  -- The batched `apply_updates` leaves both layers, the dirty set and the code-seed marks as
  -- folding `apply_update` over the updates does, and returns the same diff.
  pub apply_updates-one_by_one :
      (c : EvmCache) (us : List StateUpdate)
      → ◌≡◌ {A = Layers × StateDiff}
          ((apply_updates revm c us).0.layers, (apply_updates revm c us).1)
          ((one_by_one c us empty_diff).0.layers, (one_by_one c us empty_diff).1)
  apply_updates-one_by_one c us =
      apply_updates-layers c us ∙ sym (one_by_one-layers c us empty_diff)
