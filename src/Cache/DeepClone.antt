-- ===== src/Cache/DeepClone.antt =====
-- src/cache/mod.rs: `snapshot_deep_clone`, the reference that `snapshot` is tested against. It merges
-- both layers into flat maps that it makes new. Its block hashes and block context are copies of
-- fields and are not modelled.
pub mod Merge
pub mod Agree
use evm_fork_cache.Prelude.{ℕ, Option, none, some, List, [], ◌∷◌, if◌then◌else◌, get_or}
use evm_fork_cache.Prelude.Eq.{nat_eq}
use evm_fork_cache.Prelude.Map.{Map, get, insert, remove, collect}
use evm_fork_cache.Prelude.Set.{add}
use evm_fork_cache.Word.{Address, U256, B256}
use evm_fork_cache.Cache.State.{
  Bytecode, AccountInfo, DbAccount, Layers, EvmCache, is_cleared, is_not_existing,
}
use evm_fork_cache.Cache.Snapshot.{copy, code_index, EvmSnapshot}

-- the local maps and sets of `snapshot_deep_clone`
pub record Merged : Type 0 where
  pub accounts : Map Address AccountInfo
  pub storage : Map Address (Map U256 U256)
  pub code_by_hash : Map B256 Bytecode
  pub overlay_storage : Map Address (Map U256 U256)
  pub storage_cleared : List Address
  pub accounts_not_existing : List Address

-- step 1: the maps after layer 2
unfoldable pub load_backend : Layers → Merged
load_backend l = record {
  accounts = copy l.accounts;
  storage = collect copy l.storage;
  code_by_hash = code_index l.accounts;
  overlay_storage = [];
  storage_cleared = [];
  accounts_not_existing = [];
}

-- `for (slot, value) in &db_account.storage`
unfoldable pub merge_slots : Map U256 U256 → Map U256 U256 → Map U256 U256
merge_slots [] storage = storage
merge_slots ((s, v) ∷ slots) storage = insert s v (merge_slots slots storage)

-- the account half of the loop body
unfoldable pub merge_info : Address → DbAccount → Merged → Merged
merge_info a d m =
    if is_not_existing d.account_state
    then record m {
      accounts_not_existing = add a m.accounts_not_existing;
      accounts = remove a m.accounts;
    }
    else record m {
      code_by_hash = elim d.info.code [
        | none ↦ m.code_by_hash
        | some code ↦ insert d.info.code_hash code m.code_by_hash
      ];
      accounts = insert a d.info m.accounts;
    }

-- the storage half
unfoldable pub merge_storage : Address → DbAccount → Merged → Merged
merge_storage a d m =
    if is_cleared d.account_state
    then record m {
      storage_cleared = add a m.storage_cleared;
      storage = remove a m.storage;
      overlay_storage = insert a (copy d.storage) m.overlay_storage;
    }
    else record m {
      storage = insert a (merge_slots d.storage (get_or (get a m.storage) [])) m.storage;
    }

-- step 2: `for (addr, db_account) in &self.db.cache.accounts`
unfoldable pub merge_overlay : Layers → Map Address DbAccount → Merged
merge_overlay l [] = load_backend l
merge_overlay l ((a, d) ∷ overlay) = merge_storage a d (merge_info a d (merge_overlay l overlay))

-- `EvmCache::snapshot_deep_clone`
unfoldable pub snapshot_deep_clone : EvmCache → EvmSnapshot
snapshot_deep_clone c =
    let m = merge_overlay c.layers c.overlay in
    record {
      base = record { accounts = m.accounts; storage = m.storage; code_by_hash = m.code_by_hash };
      folded = record {
        overlay_accounts = [];
        overlay_storage = m.overlay_storage;
        overlay_code_by_hash = [];
        storage_cleared = m.storage_cleared;
        accounts_not_existing = m.accounts_not_existing;
      };
    }
