-- ===== src/Cache/Purge.antt =====
-- src/cache/mod.rs: the purges, which drop cached state from both layers.
use evm_fork_cache.Prelude.{
  ℕ, ◌+◌, Bool, false, ◌||◌, Option, none, some, List, [], ◌∷◌, if◌then◌else◌,
}
use evm_fork_cache.Prelude.Eq.{nat_eq}
use evm_fork_cache.Prelude.Map.{Map, len, get, remove, update, contains_key}
use evm_fork_cache.Word.{Address, U256}
use evm_fork_cache.StateUpdate.{PurgeScope}
use evm_fork_cache.StateUpdate.Diff.{PurgeRecord}
use evm_fork_cache.Cache.State.{DbAccount, Layers, EvmCache, invalidate_base}
use evm_fork_cache.Cache.Slots.{mark_base_dirty}

-- the number of slots that a removed storage map held
abbrev pub slot_count : Option (Map U256 U256) → ℕ
slot_count none = 0
slot_count (some slots) = len slots

-- `EvmCache::purge_account_inner`
unfoldable pub purge_account_inner : Layers → Address → Layers × (ℕ × Bool)
unfolding mark_base_dirty
purge_account_inner l a =
    let overlay_removed = contains_key a l.overlay in
    let backend_account_removed = contains_key a l.accounts in
    let slots_removed = slot_count (get a l.storage) in
    let purged = record l {
      code_seeds = remove a l.code_seeds;
      overlay = remove a l.overlay;
      accounts = remove a l.accounts;
      storage = remove a l.storage;
    } in
    (mark_base_dirty purged a, (slots_removed, overlay_removed || backend_account_removed))

-- `db_account.storage.clear()`
unfoldable pub clear_storage : DbAccount → DbAccount
clear_storage d = record d { storage = [] }

-- `EvmCache::purge_contract_storage_inner`
unfoldable pub purge_contract_storage_inner : Layers → Address → Layers × ℕ
unfolding clear_storage mark_base_dirty
purge_contract_storage_inner l a =
    let backend_cleared = slot_count (get a l.storage) in
    let purged = record l {
      overlay = update a clear_storage l.overlay;
      storage = remove a l.storage;
    } in
    (mark_base_dirty purged a, backend_cleared)

-- `for slot in slots { if storage.remove(slot).is_some() { removed += 1 } }`
unfoldable pub remove_slots : List U256 → Map U256 U256 → Map U256 U256 × ℕ
remove_slots [] m = (m, 0)
remove_slots (s ∷ slots) m =
    let rest = remove_slots slots (remove s m) in
    (rest.0, if contains_key s m then rest.1 + 1 else rest.1)

unfoldable pub drop_slots : List U256 → DbAccount → DbAccount
unfolding remove_slots
drop_slots slots d = record d { storage = (remove_slots slots d.storage).0 }

-- `EvmCache::purge_contract_slots_inner`
unfoldable pub purge_contract_slots_inner : Layers → Address → List U256 → Layers × ℕ
unfolding remove_slots drop_slots mark_base_dirty
purge_contract_slots_inner l a slots =
    let backend_removed : ℕ = elim (get a l.storage) [
      | none ↦ 0
      | some m ↦ (remove_slots slots m).1
    ] in
    let purged = record l {
      overlay = update a (drop_slots slots) l.overlay;
      storage = update a (λ m. (remove_slots slots m).0) l.storage;
    } in
    (mark_base_dirty purged a, backend_removed)

-- `EvmCache::apply_purge`
unfoldable pub apply_purge : Layers → Address → PurgeScope → Layers × PurgeRecord
unfolding purge_account_inner purge_contract_storage_inner purge_contract_slots_inner
apply_purge l a PurgeScope.account =
    let (l', (slots_removed, account_removed)) = purge_account_inner l a in
    (
      l',
      record {
        address = a;
        scope = PurgeScope.account;
        slots_removed = slots_removed;
        account_removed = account_removed;
      },
    )
apply_purge l a PurgeScope.all_storage =
    let (l', slots_removed) = purge_contract_storage_inner l a in
    (
      l',
      record {
        address = a;
        scope = PurgeScope.all_storage;
        slots_removed = slots_removed;
        account_removed = false;
      },
    )
apply_purge l a (PurgeScope.slots slots) =
    let (l', slots_removed) = purge_contract_slots_inner l a slots in
    (
      l',
      record {
        address = a;
        scope = PurgeScope.slots slots;
        slots_removed = slots_removed;
        account_removed = false;
      },
    )

-- the loop of `EvmCache::purge_contracts_storage`, with its running total
unfoldable pub purge_contracts_loop : Layers → List Address → ℕ → Layers × ℕ
unfolding clear_storage
purge_contracts_loop l [] total = (l, total)
purge_contracts_loop l (a ∷ addresses) total =
    purge_contracts_loop
      (record l { overlay = update a clear_storage l.overlay; storage = remove a l.storage })
      addresses (total + slot_count (get a l.storage))

-- `EvmCache::purge_contracts_storage`
unfoldable pub purge_contracts_storage : EvmCache → List Address → EvmCache × ℕ
unfolding purge_contracts_loop invalidate_base
purge_contracts_storage c addresses =
    let (l, total) = purge_contracts_loop c.layers addresses 0 in
    (invalidate_base (record c { layers = l }), total)

-- the `values_mut` loop of `EvmCache::purge_all_storage`
unfoldable pub clear_all : Map Address DbAccount → Map Address DbAccount
unfolding clear_storage
clear_all [] = []
clear_all ((a, d) ∷ m) = (a, clear_storage d) ∷ clear_all m

-- `storage.values().map(|s| s.len()).sum()`
unfoldable pub total_slots : Map Address (Map U256 U256) → ℕ
total_slots [] = 0
total_slots ((a, slots) ∷ m) = len slots + total_slots m

-- `EvmCache::purge_all_storage`
unfoldable pub purge_all_storage : EvmCache → EvmCache × ℕ
unfolding clear_all total_slots invalidate_base
purge_all_storage c =
    let l = record (c.layers) { overlay = clear_all c.overlay; storage = [] } in
    (invalidate_base (record c { layers = l }), total_slots c.storage)
