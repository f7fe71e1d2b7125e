-- ===== src/Cache/Overlay.antt =====
-- src/cache/overlay.rs: the per-simulation overlay over a snapshot, as revm's database. The external
-- database is an argument, with the type `E` of its errors, and so is revm's empty bytecode. A
-- `LocalContext` buffer and the block environment have no effect on what is read.
pub mod Cases
pub mod Reads
pub mod Missing
pub mod Commit
use evm_fork_cache.Prelude.{
  ℕ, Bool, false, true, ◌&&◌, Option, none, some, List, [], ◌∷◌, ◌==◌, is_empty as list_is_empty,
  if◌then◌else◌, get_or,
}
use evm_fork_cache.Prelude.Eq.{nat_eq, pair_eq}
use evm_fork_cache.Prelude.Map.{Map, get, insert}
use evm_fork_cache.Prelude.Set.{contains, add}
use evm_fork_cache.Word.{Address, U256, B256}
use evm_fork_cache.Cache.State.{Bytecode, AccountInfo}
use evm_fork_cache.Cache.Slots.{backend_value, entry_insert}
use evm_fork_cache.Cache.Account.{Result, ok, err}
use evm_fork_cache.Cache.Snapshot.{EvmSnapshot, storage_value, account_info, code}
use evm_fork_cache.AccessSet.{StorageAccessList}

-- `SharedBackend`, an immutable view of the chain at one block
pub record SharedBackend (E : Type 0) : Type 0 where
  pub basic_ref : Address → Result (Option AccountInfo) E
  pub code_by_hash_ref : B256 → Result Bytecode E
  pub storage_ref : Address → U256 → Result U256 E
  pub block_hash_ref : ℕ → Result B256 E

-- `struct MissingState`
pub record MissingState : Type 0 where
  pub accounts : List Address
  pub code_hashes : List B256
  pub missing_storage : List (Address × U256)
  pub block_hashes : List ℕ

-- `MissingState::default`, derived
abbrev pub nothing_missing : MissingState
nothing_missing = record {
  accounts = [];
  code_hashes = [];
  missing_storage = [];
  block_hashes = [];
}

-- `MissingState::is_empty`
unfoldable pub is_empty : MissingState → Bool
is_empty m =
    list_is_empty m.accounts
    && (list_is_empty m.code_hashes
        && (list_is_empty m.missing_storage && list_is_empty m.block_hashes))

-- `MissingState::as_read_set`
unfoldable pub as_read_set : MissingState → StorageAccessList
as_read_set m = record {
  accounts = m.accounts;
  code_hashes = m.code_hashes;
  slots = m.missing_storage;
  block_numbers = m.block_hashes;
}

-- `struct EvmOverlay`, with the block hashes of its snapshot
pub record EvmOverlay (E : Type 0) : Type 0 where
  pub snapshot : EvmSnapshot
  pub snapshot_block_hashes : Map ℕ B256
  pub dirty_accounts : Map Address AccountInfo
  pub dirty_storage : Map Address (Map U256 U256)
  pub ext_db : Option (SharedBackend E)
  pub blockhash_zero_fallback : Bool
  pub missing_state : MissingState

-- what a commit of revm reads of an `Account`: its info and the present values of its storage
pub record Account : Type 0 where
  pub info : AccountInfo
  pub storage : Map U256 U256

-- `for (slot, value) in account.storage { storage.insert(slot, value.present_value) }`
unfoldable pub insert_all : Map U256 U256 → Map U256 U256 → Map U256 U256
insert_all [] storage = storage
insert_all ((s, v) ∷ values) storage = insert_all values (insert s v storage)

-- the loop over `dirty_accounts.values()`
unfoldable pub dirty_code : B256 → Map Address AccountInfo → Option Bytecode
dirty_code h [] = none
dirty_code h ((a, info) ∷ m) =
    let rest = dirty_code h m in
    if info.code_hash == h then elim info.code [ some found ↦ some found | none ↦ rest ] else rest

module _ {E : Type 0} where
  -- `EvmOverlay::new`
  unfoldable pub new_overlay : EvmSnapshot → Map ℕ B256 → Option (SharedBackend E) → EvmOverlay E
  new_overlay snapshot block_hashes ext_db = record {
    snapshot = snapshot;
    snapshot_block_hashes = block_hashes;
    dirty_accounts = [];
    dirty_storage = [];
    ext_db = ext_db;
    blockhash_zero_fallback = false;
    missing_state = nothing_missing;
  }

  -- `EvmOverlay::reset`
  unfoldable pub reset : EvmOverlay E → EvmOverlay E
  reset o = record o {
    dirty_accounts = [];
    dirty_storage = [];
    blockhash_zero_fallback = false;
    missing_state = nothing_missing;
  }

  -- `EvmOverlay::override_slot`
  unfoldable pub override_slot : EvmOverlay E → Address → U256 → U256 → EvmOverlay E
  override_slot o a s v = record o { dirty_storage = entry_insert a s v o.dirty_storage }

  -- the body of the loop of `commit`
  unfoldable pub commit_account : EvmOverlay E → Address → Account → EvmOverlay E
  commit_account o a account = record o {
    dirty_accounts = insert a account.info o.dirty_accounts;
    dirty_storage =
        insert a (insert_all account.storage (get_or (get a o.dirty_storage) [])) o.dirty_storage;
  }

  -- `DatabaseCommit::commit`
  unfoldable pub commit : EvmOverlay E → Map Address Account → EvmOverlay E
  commit o [] = o
  commit o ((a, account) ∷ changes) = commit (commit_account o a account) changes

  -- `Database::basic`
  unfoldable pub basic : EvmOverlay E → Address → EvmOverlay E × Result (Option AccountInfo) E
  basic o a = elim (get a o.dirty_accounts) [
    | some info ↦ (o, ok (some info))
    | none ↦
        if contains a o.snapshot.accounts_not_existing
        then (o, ok none)
        else elim (account_info o.snapshot a) [
          | some info ↦ (o, ok (some info))
          | none ↦ elim o.ext_db [
            | some ext_db ↦ elim (ext_db.basic_ref a) [
              | err e ↦ (o, err e)
              | ok none ↦ (o, ok none)
              | ok (some info) ↦
                  (record o { dirty_accounts = insert a info o.dirty_accounts }, ok (some info))
            ]
            | none ↦ (
              record o {
                missing_state = record (o.missing_state) {
                  accounts = add a o.missing_state.accounts;
                };
              },
              ok none,
            )
          ]
        ]
  ]

  -- `Database::code_by_hash`, with `Bytecode::default`
  unfoldable pub code_by_hash : Bytecode → EvmOverlay E → B256 → EvmOverlay E × Result Bytecode E
  code_by_hash default_code o h = elim (dirty_code h o.dirty_accounts) [
    | some found ↦ (o, ok found)
    | none ↦ elim (code o.snapshot h) [
      | some found ↦ (o, ok found)
      | none ↦ elim o.ext_db [
        | some ext_db ↦ (o, ext_db.code_by_hash_ref h)
        | none ↦ (
          record o {
            missing_state = record (o.missing_state) {
              code_hashes = add h o.missing_state.code_hashes;
            };
          },
          ok default_code,
        )
      ]
    ]
  ]

  -- `Database::storage`
  unfoldable pub storage : EvmOverlay E → Address → U256 → EvmOverlay E × Result U256 E
  storage o a s = elim (backend_value o.dirty_storage a s) [
    | some v ↦ (o, ok v)
    | none ↦ elim (storage_value o.snapshot a s) [
      | some v ↦ (o, ok v)
      | none ↦ elim o.ext_db [
        | some ext_db ↦ elim (ext_db.storage_ref a s) [
          | err e ↦ (o, err e)
          | ok v ↦ (record o { dirty_storage = entry_insert a s v o.dirty_storage }, ok v)
        ]
        | none ↦ (
          record o {
            missing_state = record (o.missing_state) {
              missing_storage = add (a, s) o.missing_state.missing_storage;
            };
          },
          ok 0,
        )
      ]
    ]
  ]

  -- `Database::block_hash`
  unfoldable pub block_hash : EvmOverlay E → ℕ → EvmOverlay E × Result B256 E
  block_hash o number = elim (get number o.snapshot_block_hashes) [
    | some hash ↦ (o, ok hash)
    | none ↦ elim o.ext_db [
      | some ext_db ↦ (o, ext_db.block_hash_ref number)
      | none ↦ (
        record o {
          blockhash_zero_fallback = true;
          missing_state = record (o.missing_state) {
            block_hashes = add number o.missing_state.block_hashes;
          };
        },
        ok 0,
      )
    ]
  ]

-- What revm asks of its database, in the order of the asking, and the caller's overrides.
pub data Access : Type 0 where
  read_account : Address → Access
  read_code : B256 → Access
  read_slot : Address → U256 → Access
  read_block_hash : ℕ → Access
  write_slot : Address → U256 → U256 → Access
  write_changes : Map Address Account → Access

module _ {E : Type 0} (default_code : Bytecode) where
  abbrev pub step : EvmOverlay E → Access → EvmOverlay E
  step o (read_account a) = (basic o a).0
  step o (read_code h) = (code_by_hash default_code o h).0
  step o (read_slot a s) = (storage o a s).0
  step o (read_block_hash n) = (block_hash o n).0
  step o (write_slot a s v) = override_slot o a s v
  step o (write_changes changes) = commit o changes

  abbrev pub run : EvmOverlay E → List Access → EvmOverlay E
  run o [] = o
  run o (x ∷ xs) = run (step o x) xs
