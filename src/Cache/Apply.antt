-- ===== src/Cache/Apply.antt =====
-- src/cache/mod.rs: `apply_update`, one targeted mutation and the diff of what it changed.
pub mod Reads
pub mod Report
pub mod Accounts
pub mod Skips
pub mod Frame
pub mod Purges
pub mod Modify
use evm_fork_cache.Prelude.{ℕ, false, true, Option, none, some, List, [], ◌∷◌, ◌++◌}
use evm_fork_cache.Word.{Address, U256, masked}
use evm_fork_cache.StateUpdate.{StateUpdate, PurgeScope, apply as apply_delta}
use evm_fork_cache.StateUpdate.Diff.{
  StateDiff, empty_diff, SlotChange, AccountChange, SkippedBalanceDelta, SkippedAccountPatch,
}
use evm_fork_cache.Cache.State.{Layers, EvmCache, Revm, bump_snapshot_generation}
use evm_fork_cache.Cache.Slots.{cached_storage_value, write_slot_through, slot_change, apply_slot}
use evm_fork_cache.Cache.Account.{Result, ok, err, apply_balance_delta, apply_account_patch}
use evm_fork_cache.Cache.Purge.{apply_purge}

-- `if let Some(change) = … { diff.slots.push(change) }`
abbrev pub push_slot : Option SlotChange → StateDiff → StateDiff
push_slot none diff = diff
push_slot (some change) diff = record diff { slots = diff.slots ++ change ∷ [] }

abbrev pub push_account : Option AccountChange → StateDiff → StateDiff
push_account none diff = diff
push_account (some change) diff = record diff { accounts = diff.accounts ++ change ∷ [] }

abbrev push_balance : Result (Option AccountChange) SkippedBalanceDelta → StateDiff
push_balance (ok change) = push_account change empty_diff
push_balance (err skipped) = record empty_diff { skipped_balances = skipped ∷ [] }

abbrev push_patch : Result (Option AccountChange) SkippedAccountPatch → StateDiff
push_patch (ok change) = push_account change empty_diff
push_patch (err skipped) = record empty_diff { skipped_accounts = skipped ∷ [] }

-- The arm of each update. An upsert never returns `err`, so its `expect` is the `ok` case of
-- `push_patch`.
module _ (revm : Revm) where
  unfoldable pub apply_arm : Layers → StateUpdate → Layers × StateDiff
  apply_arm l (StateUpdate.slot a s v) =
      let (l', change) = apply_slot l a s v in (l', push_slot change empty_diff)
  apply_arm l (StateUpdate.slot_delta a s delta) = elim (cached_storage_value l a s) [
    | some current ↦
        let new = apply_delta delta current in
        (write_slot_through l a s new, push_slot (slot_change a s current new) empty_diff)
    | none ↦
        (l, record empty_diff { skipped = record { address = a; slot = s; delta = delta } ∷ [] })
  ]
  apply_arm l (StateUpdate.slot_masked a s mask value) = elim (cached_storage_value l a s) [
    | some old ↦
        let new = masked old mask value in
        (write_slot_through l a s new, push_slot (slot_change a s old new) empty_diff)
    | none ↦ (
      l,
      record empty_diff {
        skipped_masks = record { address = a; slot = s; mask = mask; value = value } ∷ [];
      },
    )
  ]
  apply_arm l (StateUpdate.balance_delta a delta) =
      let (l', result) = apply_balance_delta revm l a delta in (l', push_balance result)
  apply_arm l (StateUpdate.account a patch) =
      let (l', result) = apply_account_patch revm l a patch false in (l', push_patch result)
  apply_arm l (StateUpdate.account_upsert a patch) =
      let (l', result) = apply_account_patch revm l a patch true in (l', push_patch result)
  apply_arm l (StateUpdate.purge a scope) =
      let (l', purged) = apply_purge l a scope in (l', record empty_diff { purged = purged ∷ [] })

  -- `EvmCache::apply_update`
  unfoldable pub apply_update : EvmCache → StateUpdate → EvmCache × StateDiff
  apply_update c update =
      let (l, diff) = apply_arm c.layers update in
      (record (bump_snapshot_generation c) { layers = l }, diff)

  -- `.purged.first().map(|rec| rec.slots_removed).unwrap_or(0)`
  abbrev first_removed : StateDiff → ℕ
  first_removed diff = elim diff.purged [ [] ↦ 0 | rec ∷ rest ↦ rec.slots_removed ]

  -- `EvmCache::purge_account`
  unfoldable pub purge_account : EvmCache → Address → EvmCache
  purge_account c a = (apply_update c (StateUpdate.purge a PurgeScope.account)).0

  -- `EvmCache::purge_contract_storage`
  unfoldable pub purge_contract_storage : EvmCache → Address → EvmCache × ℕ
  purge_contract_storage c a =
      let (c', diff) = apply_update c (StateUpdate.purge a PurgeScope.all_storage) in
      (c', first_removed diff)

  -- `EvmCache::purge_contract_slots`
  unfoldable pub purge_contract_slots : EvmCache → Address → List U256 → EvmCache × ℕ
  purge_contract_slots c a slots =
      let (c', diff) = apply_update c (StateUpdate.purge a (PurgeScope.slots slots)) in
      (c', first_removed diff)
