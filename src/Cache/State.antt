-- ===== src/Cache/State.antt =====
-- src/cache/mod.rs: the state of `EvmCache` that its mutations and snapshots read and write.
--
-- `AccountInfo`, `AccountState` and `DbAccount` are revm's structs, of which the model has what the
-- code reads: the two account states that it tells apart, and any other. A `Bytecode` is told apart
-- by equality only. The functions of revm that the code calls are the fields of `Revm`.
use evm_fork_cache.Prelude.{ℕ, ◌+◌, ◌%◌, ◌^◌, ◌≡◌, Bool, false, true, Option, List}
use evm_fork_cache.Prelude.Map.{Map}
use evm_fork_cache.Word.{Address, U256, B256}

abbrev pub Bytecode : Type 0
Bytecode = ℕ

-- revm `AccountInfo`
pub record AccountInfo : Type 0 where
  pub balance : U256
  pub nonce : ℕ
  pub code_hash : B256
  pub code : Option Bytecode

-- revm `AccountState`
pub data AccountState : Type 0 where
  not_existing : AccountState
  storage_cleared : AccountState
  other : AccountState

-- revm `DbAccount`
pub record DbAccount : Type 0 where
  pub info : AccountInfo
  pub account_state : AccountState
  pub storage : Map U256 U256

-- What the code calls of revm: `AccountInfo::default`, `KECCAK_EMPTY`, `Bytecode::new_raw`,
-- `Bytecode::hash_slow`, and the effect of `CacheDB::insert_account_info` on an account that is
-- there. The last keeps the account's storage and state, and stores the balance and nonce.
pub record Revm : Type 0 where
  pub default_info : AccountInfo
  pub keccak_empty : B256
  pub new_raw : List ℕ → Bytecode
  pub hash_slow : Bytecode → B256
  pub insert_info : DbAccount → AccountInfo → DbAccount
  pub insert_info-storage :
      (d : DbAccount) (i : AccountInfo) → (insert_info d i).storage ≡ d.storage
  pub insert_info-state :
      (d : DbAccount) (i : AccountInfo) → (insert_info d i).account_state ≡ d.account_state
  pub insert_info-balance :
      (d : DbAccount) (i : AccountInfo) → (insert_info d i).info.balance ≡ i.balance
  pub insert_info-nonce : (d : DbAccount) (i : AccountInfo) → (insert_info d i).info.nonce ≡ i.nonce

-- src/cache/code_seeds.rs, `enum CodeSeedState`
pub data CodeSeedState : Type 0 where
  pending : B256 → CodeSeedState
  verified : B256 → ℕ → CodeSeedState
  etched : B256 → CodeSeedState

-- The maps that a targeted mutation writes: layer 1 (`db.cache.accounts`), layer 2
-- (`blockchain_db.accounts()` and `.storage()`), the code-seed marks and `base_dirty`.
pub record Layers : Type 0 where
  pub overlay : Map Address DbAccount
  pub accounts : Map Address AccountInfo
  pub storage : Map Address (Map U256 U256)
  pub code_seeds : Map Address CodeSeedState
  pub base_dirty : List Address

-- src/cache/snapshot.rs, `struct BaseState`; the `Arc`s share and do not change what is read
pub record BaseState : Type 0 where
  pub accounts : Map Address AccountInfo
  pub storage : Map Address (Map U256 U256)
  pub code_by_hash : Map B256 Bytecode

-- `struct EvmCache`, less its fetchers and its block context
pub record EvmCache : Type 0 where
  pub layers : Layers
  pub open layers use *
  pub snapshot_generation : ℕ
  pub base : Option BaseState
  pub base_full_rebuild : Bool
  pub base_storage_lens : Map Address ℕ

-- `EvmCache::bump_snapshot_generation`, a wrapping `u64`
unfoldable pub bump_snapshot_generation : EvmCache → EvmCache
bump_snapshot_generation c = record c { snapshot_generation = (c.snapshot_generation + 1) % 2 ^ 64 }

-- `EvmCache::invalidate_base`
unfoldable pub invalidate_base : EvmCache → EvmCache
invalidate_base c = record c { base_full_rebuild = true }

-- `matches!(state, StorageCleared | NotExisting)`
abbrev pub is_cleared : AccountState → Bool
is_cleared not_existing = true
is_cleared storage_cleared = true
is_cleared other = false

-- `matches!(state, NotExisting)`
abbrev pub is_not_existing : AccountState → Bool
is_not_existing not_existing = true
is_not_existing storage_cleared = false
is_not_existing other = false
