-- ===== src/Cache/Snapshot.antt =====
-- src/cache/mod.rs and src/cache/snapshot.rs: the memoized copy-on-write base of layer 2, and the
-- snapshot that folds layer 1 over it. A map that the code copies entry by entry is `collect`ed.
-- A loop over a map visits each key once, so the `entry(…).or_default()` of such a loop is new.
-- The snapshot's block hashes and block context are copies of fields and are not modelled.
pub mod Fold
pub mod Refresh
pub mod Coherent
pub mod Mutations
pub mod Keys
pub mod Effects
pub mod History
pub mod Faithful
use evm_fork_cache.Prelude.{
  ℕ, Bool, false, true, not, Option, none, some, List, [], ◌∷◌, ◌==◌, ◌||◌, is_none, is_empty,
  if◌then◌else◌,
}
use evm_fork_cache.Prelude.Eq.{nat_eq}
use evm_fork_cache.Prelude.Map.{Map, len, get, contains_key, insert, remove, collect}
use evm_fork_cache.Prelude.Set.{contains, add}
use evm_fork_cache.Word.{Address, U256, B256}
use evm_fork_cache.Cache.State.{
  Bytecode, AccountInfo, DbAccount, Layers, EvmCache, BaseState, is_cleared, is_not_existing,
}
use evm_fork_cache.Cache.Slots.{backend_value}

-- `slots.iter().map(|(k, v)| (*k, *v)).collect()`
unfoldable pub copy {κ} : {V : Type κ} → Map ℕ V → Map ℕ V
copy m = collect (λ v. v) m

-- `EvmCache::code_index`
unfoldable pub code_index : Map Address AccountInfo → Map B256 Bytecode
code_index [] = []
code_index ((a, info) ∷ m) =
    let rest = code_index m in
    elim info.code [ none ↦ rest | some code ↦ insert info.code_hash code rest ]

-- `EvmCache::build_base_full`, with the `base_storage_lens` that it records
unfoldable pub build_base_full : Layers → BaseState × Map Address ℕ
build_base_full l =
    let accounts = copy l.accounts in
    (
      record {
        accounts = accounts;
        storage = collect copy l.storage;
        code_by_hash = code_index accounts;
      },
      collect (λ slots. len (copy slots)) l.storage,
    )

-- `self.base_storage_lens.get(addr).copied() != Some(slots.len())`
unfoldable pub len_differs : Option ℕ → ℕ → Bool
len_differs none n = true
len_differs (some r) n = not (r == n)

-- the scan over layer-2 storage: case 2 of `refresh_base`
unfoldable pub scan_storage :
    Map Address ℕ → Map Address (Map U256 U256) → List Address → List Address
scan_storage lens [] dirty = dirty
scan_storage lens ((a, slots) ∷ m) dirty =
    scan_storage lens m (if len_differs (get a lens) (len slots) then add a dirty else dirty)

-- the scan over layer-2 accounts
unfoldable pub scan_accounts : BaseState → Map Address AccountInfo → List Address → List Address
scan_accounts base [] dirty = dirty
scan_accounts base ((a, info) ∷ m) dirty =
    scan_accounts base m (if contains_key a base.accounts then dirty else add a dirty)

-- The variables of the rebuild loop, case 4 of `refresh_base`.
pub record Rebuild : Type 0 where
  pub accounts : Map Address AccountInfo
  pub storage : Map Address (Map U256 U256)
  pub lens : Map Address ℕ

unfoldable pub rebuild_account :
    Layers → Address → Map Address AccountInfo → Map Address AccountInfo
rebuild_account l a accounts = elim (get a l.accounts) [
  | none ↦ remove a accounts
  | some info ↦ insert a info accounts
]

unfoldable pub rebuild_storage :
    Layers → Address → Map Address (Map U256 U256) → Map Address (Map U256 U256)
rebuild_storage l a storage = elim (get a l.storage) [
  | none ↦ remove a storage
  | some slots ↦ insert a (copy slots) storage
]

unfoldable pub rebuild_lens : Layers → Address → Map Address ℕ → Map Address ℕ
rebuild_lens l a lens = elim (get a l.storage) [
  | none ↦ remove a lens
  | some slots ↦ insert a (len (copy slots)) lens
]

unfoldable pub rebuild_loop : Layers → List Address → Rebuild → Rebuild
rebuild_loop l [] r = r
rebuild_loop l (a ∷ dirty) r = rebuild_loop l dirty (record {
  accounts = rebuild_account l a r.accounts;
  storage = rebuild_storage l a r.storage;
  lens = rebuild_lens l a r.lens;
})

-- cases 2 to 4 of `refresh_base`, on a base that is there
unfoldable pub refresh_some : EvmCache → BaseState → EvmCache
refresh_some c prev =
    let dirty =
      scan_accounts prev c.accounts (scan_storage c.base_storage_lens c.storage c.base_dirty) in
    let r =
      rebuild_loop c.layers dirty
        (record { accounts = prev.accounts; storage = prev.storage; lens = c.base_storage_lens }) in
    let next : BaseState = record {
      accounts = r.accounts;
      storage = r.storage;
      code_by_hash = code_index r.accounts;
    } in
    if is_empty dirty then c else record c {
      layers = record (c.layers) { base_dirty = [] };
      base = some next;
      base_storage_lens = r.lens;
    }

-- case 1 of `refresh_base`
unfoldable pub refresh_full : EvmCache → EvmCache
refresh_full c =
    let (base, lens) = build_base_full c.layers in
    record c {
      layers = record (c.layers) { base_dirty = [] };
      base = some base;
      base_full_rebuild = false;
      base_storage_lens = lens;
    }

-- `EvmCache::refresh_base`
unfoldable pub refresh_base : EvmCache → EvmCache
refresh_base c = elim c.base [
  | none ↦ refresh_full c
  | some prev ↦ if c.base_full_rebuild then refresh_full c else refresh_some c prev
]

-- The layer-1 part of `struct EvmSnapshot`.
pub record Folded : Type 0 where
  pub overlay_accounts : Map Address AccountInfo
  pub overlay_storage : Map Address (Map U256 U256)
  pub overlay_code_by_hash : Map B256 Bytecode
  pub storage_cleared : List Address
  pub accounts_not_existing : List Address

-- `struct EvmSnapshot`
pub record EvmSnapshot : Type 0 where
  pub base : BaseState
  pub folded : Folded
  pub open folded use *

-- the account half of the loop body of `snapshot`
unfoldable pub fold_info : Address → DbAccount → Folded → Folded
fold_info a d f =
    if is_not_existing d.account_state
    then record f { accounts_not_existing = add a f.accounts_not_existing }
    else record f {
      overlay_code_by_hash = elim d.info.code [
        | none ↦ f.overlay_code_by_hash
        | some code ↦ insert d.info.code_hash code f.overlay_code_by_hash
      ];
      overlay_accounts = insert a d.info f.overlay_accounts;
    }

-- the storage half
unfoldable pub fold_storage : Address → DbAccount → Folded → Folded
fold_storage a d f =
    if is_cleared d.account_state
    then record f {
      storage_cleared = add a f.storage_cleared;
      overlay_storage = insert a (copy d.storage) f.overlay_storage;
    }
    else if is_empty d.storage
    then f
    else record f { overlay_storage = insert a (copy d.storage) f.overlay_storage }

-- `for (addr, db_account) in &self.db.cache.accounts`
unfoldable pub fold_overlay : Map Address DbAccount → Folded
fold_overlay [] = record {
  overlay_accounts = [];
  overlay_storage = [];
  overlay_code_by_hash = [];
  storage_cleared = [];
  accounts_not_existing = [];
}
fold_overlay ((a, d) ∷ m) = fold_storage a d (fold_info a d (fold_overlay m))

-- `EvmCache::snapshot`; `None` would be the failed `expect`
unfoldable pub snapshot : EvmCache → EvmCache × Option EvmSnapshot
snapshot c =
    let c' = refresh_base c in
    (
      c',
      elim c'.base [
        | none ↦ none
        | some base ↦ some (record { base = base; folded = fold_overlay c'.overlay })
      ],
    )

-- `EvmSnapshot::storage_value`
unfoldable pub storage_value : EvmSnapshot → Address → U256 → Option U256
storage_value snap a s = elim (get a snap.overlay_storage) [
  | none ↦ backend_value snap.base.storage a s
  | some slots ↦ elim (get s slots) [
    | some v ↦ some v
    | none ↦ if contains a snap.storage_cleared then some 0 else backend_value snap.base.storage a s
  ]
]

-- `EvmSnapshot::account_info`
unfoldable pub account_info : EvmSnapshot → Address → Option AccountInfo
account_info snap a =
    if contains a snap.accounts_not_existing then none else elim (get a snap.overlay_accounts) [
      | some info ↦ some info
      | none ↦ get a snap.base.accounts
    ]

-- `EvmSnapshot::code`
unfoldable pub code : EvmSnapshot → B256 → Option Bytecode
code snap h = elim (get h snap.overlay_code_by_hash) [
  | some found ↦ some found
  | none ↦ get h snap.base.code_by_hash
]
