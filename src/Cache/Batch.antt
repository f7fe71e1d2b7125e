-- ===== src/Cache/Batch.antt =====
-- src/cache/mod.rs: `apply_updates`, with its fast path for a run of slot writes.
pub mod Sequential
use evm_fork_cache.Prelude.{
  ℕ, zero, suc, Bool, false, true, Option, none, some, List, [], ◌∷◌, ◌++◌, get_or, length,
  is_empty, if◌then◌else◌,
}
use evm_fork_cache.Prelude.Map.{Map}
use evm_fork_cache.Word.{Address, U256}
use evm_fork_cache.StateUpdate.{StateUpdate, apply as apply_delta}
use evm_fork_cache.StateUpdate.Diff.{StateDiff, empty_diff, merge}
use evm_fork_cache.Cache.State.{DbAccount, Layers, EvmCache, Revm, bump_snapshot_generation}
use evm_fork_cache.Cache.Slots.{
  read_slot_account_state_aware, write_slot_into, slot_change, mark_base_dirty,
}
use evm_fork_cache.Cache.Apply.{push_slot, apply_update}

-- `matches!(u, Slot { .. } | SlotDelta { .. })`
abbrev pub is_slot_write : StateUpdate → Bool
is_slot_write (StateUpdate.slot a s v) = true
is_slot_write (StateUpdate.slot_delta a s d) = true
is_slot_write (StateUpdate.slot_masked a s m v) = false
is_slot_write (StateUpdate.balance_delta a d) = false
is_slot_write (StateUpdate.account a p) = false
is_slot_write (StateUpdate.account_upsert a p) = false
is_slot_write (StateUpdate.purge a p) = false

-- The variables of the loop of `apply_slot_run`: the two borrowed layers, `dirtied`, and `diff`.
pub record Run : Type 0 where
  pub overlay : Map Address DbAccount
  pub storage : Map Address (Map U256 U256)
  pub dirtied : List Address
  pub diff : StateDiff

-- the end of the loop body, after `(address, slot, old, new)` is resolved
unfoldable pub run_write : Run → Address → U256 → U256 → U256 → Run
run_write r a s old new =
    let (overlay, storage) = write_slot_into r.overlay r.storage a s new in
    record {
      overlay = overlay;
      storage = storage;
      dirtied = r.dirtied ++ a ∷ [];
      diff = push_slot (slot_change a s old new) r.diff;
    }

-- the body of the loop of `apply_slot_run`; any other update is `unreachable!`
unfoldable pub run_step : Run → StateUpdate → Run
run_step r (StateUpdate.slot a s v) =
    run_write r a s (get_or (read_slot_account_state_aware r.overlay r.storage a s) 0) v
run_step r (StateUpdate.slot_delta a s delta) =
    elim (read_slot_account_state_aware r.overlay r.storage a s) [
      | some current ↦ run_write r a s current (apply_delta delta current)
      | none ↦ record r {
        diff = record (r.diff) {
          skipped = r.diff.skipped ++ record { address = a; slot = s; delta = delta } ∷ [];
        };
      }
    ]
run_step r _ = r

unfoldable pub run_loop : Run → List StateUpdate → Run
run_loop r [] = r
run_loop r (u ∷ run) = run_loop (run_step r u) run

-- `for address in dirtied { self.mark_base_dirty(address) }`
unfoldable pub mark_all : Layers → List Address → Layers
mark_all l [] = l
mark_all l (a ∷ dirtied) = mark_all (mark_base_dirty l a) dirtied

-- `EvmCache::apply_slot_run`
unfoldable pub apply_slot_run : Layers → List StateUpdate → StateDiff → Layers × StateDiff
apply_slot_run l run diff =
    let r =
      run_loop (record { overlay = l.overlay; storage = l.storage; dirtied = []; diff = diff })
        run in
    (mark_all (record l { overlay = r.overlay; storage = r.storage }) r.dirtied, r.diff)

-- `updates[i..run_end]` and what follows it, for a run that starts at `i`
unfoldable pub slot_run : List StateUpdate → List StateUpdate
slot_run [] = []
slot_run (u ∷ us) = if is_slot_write u then u ∷ slot_run us else []

unfoldable pub after_run : List StateUpdate → List StateUpdate
after_run [] = []
after_run (u ∷ us) = if is_slot_write u then after_run us else u ∷ us

module _ (revm : Revm) where
  -- The `while i < updates.len()` loop, on the updates from `i` on. Each round takes at least one
  -- update, so their number is fuel enough.
  unfoldable pub updates_loop : ℕ → EvmCache → List StateUpdate → StateDiff → EvmCache × StateDiff
  updates_loop fuel c [] diff = (c, diff)
  updates_loop zero c (u ∷ us) diff = (c, diff)
  updates_loop (suc fuel) c (u ∷ us) diff =
      let run_result = apply_slot_run c.layers (slot_run (u ∷ us)) diff in
      let batched =
        updates_loop fuel (record c { layers = run_result.0 }) (after_run (u ∷ us)) run_result.1 in
      let single = apply_update revm c u in
      let alone = updates_loop fuel single.0 us (merge diff single.1) in
      if is_slot_write u then batched else alone

  -- `EvmCache::apply_updates`
  unfoldable pub apply_updates : EvmCache → List StateUpdate → EvmCache × StateDiff
  apply_updates c updates =
      let started = if is_empty updates then c else bump_snapshot_generation c in
      updates_loop (length updates) started updates empty_diff
