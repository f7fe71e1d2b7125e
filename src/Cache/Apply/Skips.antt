-- ===== src/Cache/Apply/Skips.antt =====
-- When an update is skipped, and that a skipped update writes nothing.
use evm_fork_cache.Prelude.{
  ◌≡◌, refl, inl, inr, Bool, true, false, not, ◌&&◌, arith, Option-cases, Bool-cases, is_none,
}
use evm_fork_cache.Word.{Address}
use evm_fork_cache.StateUpdate.{StateUpdate, AccountPatch}
use evm_fork_cache.StateUpdate.Diff.{StateDiff, empty_diff, has_skipped}
use evm_fork_cache.Cache.State.{AccountInfo, Layers, Revm}
use evm_fork_cache.Cache.Slots.{cached_storage_value, apply_slot, slot_change}
use evm_fork_cache.Cache.Account.{
  loaded_account_info, apply_balance_delta, account_patch_is_empty, apply_account_patch,
  balance_change, patch_loaded,
}
use evm_fork_cache.Cache.Apply.{apply_arm, push_account}

-- Whether the update needs cached state that is not there.
abbrev pub needs_cold : Revm → Layers → StateUpdate → Bool
needs_cold revm l (StateUpdate.slot a s v) = false
needs_cold revm l (StateUpdate.slot_delta a s d) = is_none (cached_storage_value l a s)
needs_cold revm l (StateUpdate.slot_masked a s mask v) = is_none (cached_storage_value l a s)
needs_cold revm l (StateUpdate.balance_delta a d) = is_none (loaded_account_info revm l a)
needs_cold revm l (StateUpdate.account a p) =
    is_none (loaded_account_info revm l a) && not (account_patch_is_empty p)
needs_cold revm l (StateUpdate.account_upsert a p) = false
needs_cold revm l (StateUpdate.purge a scope) = false

-- the layers after the update, and whether its diff has a skip, against `cold`
abbrev Skipped : Layers → Layers × StateDiff → Bool → Type 0
Skipped l r cold = (has_skipped r.1 ≡ cold) × (cold ≡ true → r.0 ≡ l)

module _ (revm : Revm) where
  patch_loaded-Skipped :
      (l : Layers) (a : Address) (p : AccountPatch) (i : AccountInfo)
      → has_skipped (push_account (patch_loaded revm l a p i).1 empty_diff) ≡ false
  unfolding has_skipped
  patch_loaded-Skipped l a p i = ground arith

  account-Skipped :
      (l : Layers) (a : Address) (p : AccountPatch)
      → Skipped l
          (apply_arm revm l (StateUpdate.account a p))
          (needs_cold revm l (StateUpdate.account a p))
  unfolding apply_arm apply_account_patch has_skipped
  account-Skipped l a p = elim (Option-cases (loaded_account_info revm l a)) [
    | inl cold ↦ elim (Bool-cases (account_patch_is_empty p)) [
      | inl empty ↦ rw (cold, empty, apply_account_patch) (refl, λ h. cc)
      | inr full ↦ rw (cold, full, apply_account_patch) (refl, λ h. refl)
    ]
    | inr (i, hot) ↦ rw (hot, apply_account_patch) (patch_loaded-Skipped l a p i, λ h. cc)
  ]

  upsert-Skipped :
      (l : Layers) (a : Address) (p : AccountPatch)
      → has_skipped (apply_arm revm l (StateUpdate.account_upsert a p)).1 ≡ false
  unfolding apply_arm apply_account_patch has_skipped
  upsert-Skipped l a p = elim (Option-cases (loaded_account_info revm l a)) [
    | inl cold ↦ elim (Bool-cases (account_patch_is_empty p)) [
      | inl empty ↦ rw (cold, empty, apply_account_patch) refl
      | inr full ↦
          rw (cold, full, apply_account_patch) (patch_loaded-Skipped l a p revm.default_info)
    ]
    | inr (i, hot) ↦ rw (hot, apply_account_patch) (patch_loaded-Skipped l a p i)
  ]

  -- An update reports a skip exactly when it is relative, or a patch that names a field, and the
  -- slot or the account that it needs is not cached; it then writes nothing.
  pub has_skipped-apply_arm :
      (l : Layers) (u : StateUpdate)
      → (has_skipped (apply_arm revm l u).1 ≡ needs_cold revm l u)
        × (needs_cold revm l u ≡ true → (apply_arm revm l u).0 ≡ l)
  unfolding apply_arm apply_slot slot_change apply_balance_delta balance_change has_skipped
  has_skipped-apply_arm l (StateUpdate.slot a s v) = (ground arith, λ h. cc)
  has_skipped-apply_arm l (StateUpdate.slot_delta a s d) =
      elim (Option-cases (cached_storage_value l a s)) [
        | inl cold ↦ rw (cold, apply_arm) (refl, λ h. refl)
        | inr (v, hot) ↦ rw (hot, apply_arm) (ground arith, λ h. cc)
      ]
  has_skipped-apply_arm l (StateUpdate.slot_masked a s mask v) =
      elim (Option-cases (cached_storage_value l a s)) [
        | inl cold ↦ rw (cold, apply_arm) (refl, λ h. refl)
        | inr (w, hot) ↦ rw (hot, apply_arm) (ground arith, λ h. cc)
      ]
  has_skipped-apply_arm l (StateUpdate.balance_delta a d) =
      elim (Option-cases (loaded_account_info revm l a)) [
        | inl cold ↦ rw (cold, apply_arm, apply_balance_delta) (refl, λ h. refl)
        | inr (i, hot) ↦ rw (hot, apply_arm, apply_balance_delta) (ground arith, λ h. cc)
      ]
  has_skipped-apply_arm l (StateUpdate.account a p) = account-Skipped l a p
  has_skipped-apply_arm l (StateUpdate.account_upsert a p) = (upsert-Skipped l a p, λ h. cc)
  has_skipped-apply_arm l (StateUpdate.purge a scope) = (refl, λ h. cc)
