-- ===== src/Tests/Data.antt =====
-- Test data: a stand-in for revm, a cache with an account in both layers, and some updates.
use evm_fork_cache.Prelude.{refl, false, none, some, List, [], ◌∷◌, length}
use evm_fork_cache.StateUpdate.{StateUpdate, SlotDelta}
use evm_fork_cache.Cache.State.{AccountInfo, AccountState, Revm, Layers, EvmCache}

abbrev pub no_info : AccountInfo
no_info = record { balance = 0; nonce = 0; code_hash = 7; code = none }

abbrev pub revm : Revm
revm = record {
  default_info = no_info;
  keccak_empty = 7;
  new_raw = λ code. length code;
  hash_slow = λ code. code;
  insert_info = λ d i. record d { info = i };
  insert_info-storage = λ d i. refl;
  insert_info-state = λ d i. refl;
  insert_info-balance = λ d i. refl;
  insert_info-nonce = λ d i. refl;
}

abbrev pub rich : AccountInfo
rich = record { balance = 100; nonce = 3; code_hash = 9; code = some 9 }

-- account 1 is in both layers, account 2 is cleared in the overlay, account 3 in the backend only
abbrev pub layers : Layers
layers = record {
  overlay =
      (1, record { info = rich; account_state = AccountState.other; storage = (5, 50) ∷ [] })
      ∷ (2, record { info = no_info; account_state = AccountState.storage_cleared; storage = [] })
      ∷ [];
  accounts = (1, rich) ∷ (3, rich) ∷ [];
  storage = (1, (5, 40) ∷ (6, 60) ∷ []) ∷ (2, (5, 20) ∷ []) ∷ (3, (5, 30) ∷ []) ∷ [];
  code_seeds = [];
  base_dirty = [];
}

abbrev pub cache : EvmCache
cache = record {
  layers = layers;
  snapshot_generation = 0;
  base = none;
  base_full_rebuild = false;
  base_storage_lens = [];
}

abbrev pub updates : List StateUpdate
updates =
    StateUpdate.slot 1 5 51
    ∷ StateUpdate.slot_delta 3 5 (SlotDelta.add 4)
    ∷ StateUpdate.slot_delta 4 5 (SlotDelta.sub 1)
    ∷ StateUpdate.balance_delta 1 (SlotDelta.sub 30)
    ∷ StateUpdate.slot 3 6 1
    ∷ []
