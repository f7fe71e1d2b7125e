-- ===== src/StateUpdate.antt =====
-- src/state_update.rs: the vocabulary of targeted state mutations. The diff that an application of
-- them returns is in `Diff`. `Bytes` is a list of byte values.
pub mod Diff
pub mod Merge
use evm_fork_cache.Prelude.{ℕ, Option, none, some, List}
use evm_fork_cache.Word.{Address, U256, saturating_add, saturating_sub}

-- `enum SlotDelta`
pub data SlotDelta : Type 0 where
  add : U256 → SlotDelta
  sub : U256 → SlotDelta

-- `SlotDelta::apply`
unfoldable pub apply : SlotDelta → U256 → U256
unfolding saturating_add saturating_sub
apply (add amount) current = saturating_add current amount
apply (sub amount) current = saturating_sub current amount

-- `struct AccountPatch`
pub record AccountPatch : Type 0 where
  pub balance : Option U256
  pub nonce : Option ℕ
  pub code : Option (List ℕ)

-- `AccountPatch::default`, derived
abbrev pub empty_patch : AccountPatch
empty_patch = record { balance = none; nonce = none; code = none }

-- The builders `AccountPatch::{balance, nonce, code}`.
unfoldable pub with_balance : AccountPatch → U256 → AccountPatch
with_balance p v = record p { balance = some v }

unfoldable pub with_nonce : AccountPatch → ℕ → AccountPatch
with_nonce p v = record p { nonce = some v }

unfoldable pub with_code : AccountPatch → List ℕ → AccountPatch
with_code p v = record p { code = some v }

-- `enum PurgeScope`
pub data PurgeScope : Type 0 where
  account : PurgeScope
  all_storage : PurgeScope
  slots : List U256 → PurgeScope

-- `enum StateUpdate`
pub data StateUpdate : Type 0 where
  slot : Address → U256 → U256 → StateUpdate
  slot_delta : Address → U256 → SlotDelta → StateUpdate
  balance_delta : Address → SlotDelta → StateUpdate
  slot_masked : Address → U256 → U256 → U256 → StateUpdate
  account : Address → AccountPatch → StateUpdate
  account_upsert : Address → AccountPatch → StateUpdate
  purge : Address → PurgeScope → StateUpdate
