-- ===== src/Freshness.antt =====
-- src/freshness.rs: the registry of how long cached state is trusted, the clock, and the policies
-- that select what is verified. Block numbers are `u64` values. The wall clock, the controller and
-- the background validator are not modelled.
pub mod Registry
pub mod Observations
pub mod Stability
use evm_fork_cache.Prelude.{
  ℕ, ◌≡◌, Bool, true, false, Option, none, some, List, [], ltb, leb, filter_by, if◌then◌else◌,
}
use evm_fork_cache.Prelude.Eq.{nat_eq, pair_eq}
use evm_fork_cache.Prelude.Map.{Map, get, insert, map_values}
use evm_fork_cache.Word.{Address, U256}

-- `enum Validity`
pub data Validity : Type 0 where
  pinned : Validity
  volatile : Validity
  valid_through_block : ℕ → Validity

-- `struct FreshnessRegistry`
pub record FreshnessRegistry : Type 0 where
  pub fallback : Validity
  pub accounts : Map Address Validity
  pub slots : Map (Address × U256) Validity

-- `FreshnessRegistry::with_default`
unfoldable pub with_default : Validity → FreshnessRegistry
with_default fallback = record { fallback = fallback; accounts = []; slots = [] }

-- `FreshnessRegistry::new`
unfoldable pub new : FreshnessRegistry
new = record { fallback = volatile; accounts = []; slots = [] }

-- `FreshnessRegistry::set_account`
unfoldable pub set_account : FreshnessRegistry → Address → Validity → FreshnessRegistry
set_account r a v = record r { accounts = insert a v r.accounts }

-- `FreshnessRegistry::set_slot`
unfoldable pub set_slot : FreshnessRegistry → Address → U256 → Validity → FreshnessRegistry
set_slot r a s v = record r { slots = insert (a, s) v r.slots }

-- `FreshnessRegistry::{pin, pin_slot, mark_volatile, mark_volatile_slot, valid_through,
-- valid_through_slot}`
unfoldable pub pin : FreshnessRegistry → Address → FreshnessRegistry
unfolding set_account
pin r a = set_account r a pinned

unfoldable pub pin_slot : FreshnessRegistry → Address → U256 → FreshnessRegistry
unfolding set_slot
pin_slot r a s = set_slot r a s pinned

unfoldable pub mark_volatile : FreshnessRegistry → Address → FreshnessRegistry
unfolding set_account
mark_volatile r a = set_account r a volatile

unfoldable pub mark_volatile_slot : FreshnessRegistry → Address → U256 → FreshnessRegistry
unfolding set_slot
mark_volatile_slot r a s = set_slot r a s volatile

unfoldable pub valid_through : FreshnessRegistry → Address → ℕ → FreshnessRegistry
unfolding set_account
valid_through r a n = set_account r a (valid_through_block n)

unfoldable pub valid_through_slot : FreshnessRegistry → Address → U256 → ℕ → FreshnessRegistry
unfolding set_slot
valid_through_slot r a s n = set_slot r a s (valid_through_block n)

-- the closure of `invalidate_valid_through_from`
unfoldable pub invalidate : ℕ → Validity → Validity
invalidate first_dropped_block pinned = pinned
invalidate first_dropped_block volatile = volatile
invalidate first_dropped_block (valid_through_block block) =
    if leb first_dropped_block block then volatile else valid_through_block block

-- `FreshnessRegistry::invalidate_valid_through_from`
unfoldable pub invalidate_valid_through_from : FreshnessRegistry → ℕ → FreshnessRegistry
invalidate_valid_through_from r first_dropped_block = record {
  fallback = invalidate first_dropped_block r.fallback;
  accounts = map_values (invalidate first_dropped_block) r.accounts;
  slots = map_values (invalidate first_dropped_block) r.slots;
}

-- `FreshnessRegistry::validity`
unfoldable pub validity : FreshnessRegistry → Address → U256 → Validity
validity r a s = elim (get (a, s) r.slots) [
  | some v ↦ v
  | none ↦ elim (get a r.accounts) [ some v ↦ v | none ↦ r.fallback ]
]

-- the `match` of `is_volatile`
unfoldable pub is_volatile_at : Validity → ℕ → Bool
is_volatile_at pinned now = false
is_volatile_at volatile now = true
is_volatile_at (valid_through_block m) now = ltb m now

-- `FreshnessRegistry::is_volatile`
unfoldable pub is_volatile : FreshnessRegistry → Address → U256 → ℕ → Bool
is_volatile r a s now = is_volatile_at (validity r a s) now
