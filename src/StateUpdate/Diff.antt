-- ===== src/StateUpdate/Diff.antt =====
-- src/state_update.rs: `StateDiff` and the records that it holds; `SlotChange` is from
-- src/freshness.rs.
use evm_fork_cache.Prelude.{
  ℕ, ◌+◌, Bool, not, ◌&&◌, ◌||◌, Option, List, [], ◌++◌, length, is_empty as list_is_empty,
}
use evm_fork_cache.Word.{Address, U256, B256}
use evm_fork_cache.StateUpdate.{SlotDelta, AccountPatch, PurgeScope}

-- `struct SlotChange`
pub record SlotChange : Type 0 where
  pub address : Address
  pub slot : U256
  pub old : U256
  pub new : U256

-- `struct AccountChange`: a field is there only if it changed
pub record AccountChange : Type 0 where
  pub address : Address
  pub balance : Option (U256 × U256)
  pub nonce : Option (ℕ × ℕ)
  pub code_hash : Option (B256 × B256)

-- `struct PurgeRecord`
pub record PurgeRecord : Type 0 where
  pub address : Address
  pub scope : PurgeScope
  pub slots_removed : ℕ
  pub account_removed : Bool

-- `struct SkippedDelta`
pub record SkippedDelta : Type 0 where
  pub address : Address
  pub slot : U256
  pub delta : SlotDelta

-- `struct SkippedBalanceDelta`
pub record SkippedBalanceDelta : Type 0 where
  pub address : Address
  pub delta : SlotDelta

-- `struct SkippedMask`
pub record SkippedMask : Type 0 where
  pub address : Address
  pub slot : U256
  pub mask : U256
  pub value : U256

-- `struct SkippedAccountPatch`
pub record SkippedAccountPatch : Type 0 where
  pub address : Address
  pub patch : AccountPatch

-- `struct StateDiff`
pub record StateDiff : Type 0 where
  pub slots : List SlotChange
  pub accounts : List AccountChange
  pub purged : List PurgeRecord
  pub skipped : List SkippedDelta
  pub skipped_balances : List SkippedBalanceDelta
  pub skipped_masks : List SkippedMask
  pub skipped_accounts : List SkippedAccountPatch

-- `StateDiff::default`, derived
abbrev pub empty_diff : StateDiff
empty_diff = record {
  slots = [];
  accounts = [];
  purged = [];
  skipped = [];
  skipped_balances = [];
  skipped_masks = [];
  skipped_accounts = [];
}

-- `StateDiff::is_empty`
unfoldable pub is_empty : StateDiff → Bool
is_empty d = list_is_empty d.slots && (list_is_empty d.accounts && list_is_empty d.purged)

-- `StateDiff::len`
unfoldable pub len : StateDiff → ℕ
len d = length d.slots + length d.accounts + length d.purged

-- `StateDiff::has_skipped`
unfoldable pub has_skipped : StateDiff → Bool
has_skipped d =
    not (list_is_empty d.skipped)
    || (not (list_is_empty d.skipped_balances)
        || (not (list_is_empty d.skipped_masks) || not (list_is_empty d.skipped_accounts)))

-- `StateDiff::skipped_len`
unfoldable pub skipped_len : StateDiff → ℕ
skipped_len d =
    length d.skipped
    + length d.skipped_balances
    + length d.skipped_masks
    + length d.skipped_accounts

-- `StateDiff::is_fully_applied`
unfoldable pub is_fully_applied : StateDiff → Bool
unfolding has_skipped
is_fully_applied d = not (has_skipped d)

-- `StateDiff::merge`
unfoldable pub merge : StateDiff → StateDiff → StateDiff
merge d other = record {
  slots = d.slots ++ other.slots;
  accounts = d.accounts ++ other.accounts;
  purged = d.purged ++ other.purged;
  skipped = d.skipped ++ other.skipped;
  skipped_balances = d.skipped_balances ++ other.skipped_balances;
  skipped_masks = d.skipped_masks ++ other.skipped_masks;
  skipped_accounts = d.skipped_accounts ++ other.skipped_accounts;
}
