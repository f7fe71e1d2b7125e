-- ===== src/Cache/Apply/Modify.antt =====
-- The closures `modify_slot` and `modify_account_balance` against the relative updates.
use evm_fork_cache.Prelude.{◌≡◌, refl, inl, inr, arith, Option-cases}
use evm_fork_cache.Prelude.Map.{map_option}
use evm_fork_cache.Word.{Address, U256}
use evm_fork_cache.StateUpdate.{StateUpdate, SlotDelta, apply as apply_delta}
use evm_fork_cache.StateUpdate.Diff.{empty_diff}
use evm_fork_cache.Cache.State.{EvmCache, Layers, Revm}
use evm_fork_cache.Cache.Slots.{cached_storage_value, modify_slot}
use evm_fork_cache.Cache.Account.{loaded_account_info, modify_account_balance, apply_balance_delta}
use evm_fork_cache.Cache.Apply.{apply_arm, apply_update, push_slot, push_account}

-- `modify_slot` with the closure that applies a delta to a value that is cached changes the layers
-- as the relative update of the slot does, and returns the change that its diff reports.
pub modify_slot-slot_delta :
    (revm : Revm) (c : EvmCache) (a : Address) (s : U256) (d : SlotDelta)
    → let r = modify_slot c a s (map_option (apply_delta d)) in
      let u = apply_update revm c (StateUpdate.slot_delta a s d) in
      (r.0.layers ≡ u.0.layers) × ((push_slot r.1 empty_diff).slots ≡ u.1.slots)
unfolding modify_slot apply_update apply_arm
modify_slot-slot_delta revm c a s d = elim (Option-cases (cached_storage_value c.layers a s)) [
  | inl cold ↦ ground arith
  | inr (v, hot) ↦ ground arith
]

-- `modify_account_balance` with the closure that applies a delta to a balance that is known changes
-- the layers as the relative update of the balance does, and returns the change that its diff
-- reports.
pub modify_account_balance-balance_delta :
    (revm : Revm) (l : Layers) (a : Address) (d : SlotDelta)
    → let r = modify_account_balance revm l a (map_option (apply_delta d)) in
      let u = apply_arm revm l (StateUpdate.balance_delta a d) in
      (r.0 ≡ u.0) × ((push_account r.1 empty_diff).accounts ≡ u.1.accounts)
unfolding modify_account_balance apply_arm apply_balance_delta
modify_account_balance-balance_delta revm l a d =
    elim (Option-cases (loaded_account_info revm l a)) [
      | inl cold ↦ rw (cold, modify_account_balance, apply_balance_delta) (refl, refl)
      | inr (info, hot) ↦ ground arith
    ]
