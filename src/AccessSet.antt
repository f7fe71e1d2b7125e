-- ===== src/AccessSet.antt =====
-- src/access_set.rs: the touch sets of a simulation. The conversion to a transaction's access list
-- is not modelled.
pub mod Coverage
use evm_fork_cache.Prelude.{
  ℕ, ◌+◌, ◌*◌, Bool, true, false, not, ◌&&◌, List, [], ◌∷◌, length, is_empty as list_is_empty,
  filter_by, if◌then◌else◌,
}
use evm_fork_cache.Prelude.Eq.{Eq, nat_eq, pair_eq}
use evm_fork_cache.Prelude.Set.{contains, add}
use evm_fork_cache.Word.{Address, U256, B256}

-- `struct StorageAccessList`
pub record StorageAccessList : Type 0 where
  pub accounts : List Address
  pub code_hashes : List B256
  pub slots : List (Address × U256)
  pub block_numbers : List ℕ

module _ {ℓ} {K : Type ℓ} ⦃e : Eq K⦄ where
  -- `HashSet::extend`
  unfoldable pub union : List K → List K → List K
  union s [] = s
  union s (k ∷ other) = union (add k s) other

  -- `HashSet::difference`
  unfoldable pub difference : List K → List K → List K
  difference s other = filter_by (λ k. not (contains k other)) s

  -- `HashSet::intersection`
  unfoldable pub intersection : List K → List K → List K
  intersection s other = filter_by (λ k. contains k other) s

  -- `HashSet::is_subset`
  unfoldable pub is_subset : List K → List K → Bool
  is_subset [] other = true
  is_subset (k ∷ s) other = contains k other && is_subset s other

-- `StorageAccessList::is_empty`
unfoldable pub is_empty : StorageAccessList → Bool
is_empty l =
    list_is_empty l.accounts
    && (list_is_empty l.code_hashes && (list_is_empty l.slots && list_is_empty l.block_numbers))

-- `StorageAccessList::extend`
unfoldable pub extend : StorageAccessList → StorageAccessList → StorageAccessList
extend l other = record {
  accounts = union l.accounts other.accounts;
  code_hashes = union l.code_hashes other.code_hashes;
  slots = union l.slots other.slots;
  block_numbers = union l.block_numbers other.block_numbers;
}

-- `StorageAccessList::missing_from`
unfoldable pub missing_from : StorageAccessList → StorageAccessList → StorageAccessList
missing_from l available = record {
  accounts = difference l.accounts available.accounts;
  code_hashes = difference l.code_hashes available.code_hashes;
  slots = difference l.slots available.slots;
  block_numbers = difference l.block_numbers available.block_numbers;
}

-- `StorageAccessList::is_covered_by`
unfoldable pub is_covered_by : StorageAccessList → StorageAccessList → Bool
is_covered_by l available =
    is_subset l.accounts available.accounts
    && (is_subset l.code_hashes available.code_hashes
        && (is_subset l.slots available.slots && is_subset l.block_numbers available.block_numbers))

-- `StorageAccessList::marginal_gas_savings`; the product of a count and its price is far below 2^64
unfoldable pub marginal_gas_savings : StorageAccessList → StorageAccessList → ℕ
marginal_gas_savings l warm =
    length (intersection l.accounts warm.accounts) * 2500
    + length (intersection l.slots warm.slots) * 2000
