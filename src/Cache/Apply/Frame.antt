-- ===== src/Cache/Apply/Frame.antt =====
-- What an update leaves alone: every other address, and the set of overlay accounts.
use evm_fork_cache.Prelude.{
  ◌≡◌, refl, inl, inr, Bool, true, false, none, arith, ◌==◌, if◌then◌else◌, Option-cases,
  Bool-cases, get_or, [],
}
use evm_fork_cache.Prelude.Eq.{nat_eq}
use evm_fork_cache.Prelude.Map.{get, insert, get-insert, get-update, get-remove}
use evm_fork_cache.Word.{Address, U256, masked}
use evm_fork_cache.StateUpdate.{StateUpdate, AccountPatch, PurgeScope, apply as apply_delta}
use evm_fork_cache.Cache.State.{AccountInfo, Layers, Revm}
use evm_fork_cache.Cache.Slots.{
  cached_storage_value, entry_insert, write_slot_through, apply_slot, mark_base_dirty, set_slot,
}
use evm_fork_cache.Cache.Account.{
  loaded_account_info, normalize_code_hash, write_account_info_through, apply_balance_delta,
  account_patch_is_empty, apply_account_patch, patch_loaded, patch_info, info_change, is_no_change,
  lift_ok, ok, err,
}
use evm_fork_cache.Cache.Purge.{
  apply_purge, purge_account_inner, purge_contract_storage_inner, purge_contract_slots_inner,
  clear_storage, drop_slots, remove_slots,
}
use evm_fork_cache.Cache.Apply.{apply_arm}

abbrev pub address_of : StateUpdate → Address
address_of (StateUpdate.slot a s v) = a
address_of (StateUpdate.slot_delta a s d) = a
address_of (StateUpdate.balance_delta a d) = a
address_of (StateUpdate.slot_masked a s mask v) = a
address_of (StateUpdate.account a p) = a
address_of (StateUpdate.account_upsert a p) = a
address_of (StateUpdate.purge a scope) = a

-- The entries of an address in both layers are as before, unless it is the target, which gets no
-- overlay account that it did not have.
abbrev pub Framed : Address → Layers → Layers → Address → Type 0
Framed a l l' b =
    ((a == b) ≡ false
      → (get b l'.overlay ≡ get b l.overlay)
        × (get b l'.storage ≡ get b l.storage)
        × (get b l'.accounts ≡ get b l.accounts))
    × (get b l.overlay ≡ none → get b l'.overlay ≡ none)

Framed-refl : (a : Address) (l : Layers) (b : Address) → Framed a l l b
Framed-refl a l b = (λ h. (refl, refl, refl), λ h. h)

write_slot_through-Framed :
    (l : Layers) (a : Address) (s v : U256) (b : Address)
    → Framed a l (write_slot_through l a s v) b
unfolding write_slot_through mark_base_dirty entry_insert
write_slot_through-Framed l a s v b = (
  λ h. ground (
    arith,
    get-insert a b (insert s v (get_or (get a l.storage) [])) l.storage,
    get-update a b (set_slot s v) l.overlay,
  ),
  λ h. ground (arith, get-update a b (set_slot s v) l.overlay),
)

write_account_info_through-Framed :
    (revm : Revm) (l : Layers) (a : Address) (i : AccountInfo) (b : Address)
    → Framed a l (write_account_info_through revm l a i) b
unfolding write_account_info_through mark_base_dirty
write_account_info_through-Framed revm l a i b =
    let n = normalize_code_hash revm i in
    (
      λ h. ground (
        arith,
        get-insert a b n l.accounts,
        get-update a b (λ d. revm.insert_info d n) l.overlay,
      ),
      λ h. ground (arith, get-update a b (λ d. revm.insert_info d n) l.overlay),
    )

purge-Framed :
    (l : Layers) (a : Address) (scope : PurgeScope) (b : Address)
    → Framed a l (apply_purge l a scope).0 b
unfolding apply_purge purge_account_inner purge_contract_storage_inner purge_contract_slots_inner
    mark_base_dirty
purge-Framed l a PurgeScope.account b = (
  λ h.
      ground (arith, get-remove a b l.overlay, get-remove a b l.storage, get-remove a b l.accounts),
  λ h. ground (arith, get-remove a b l.overlay),
)
purge-Framed l a PurgeScope.all_storage b = (
  λ h. ground (arith, get-update a b clear_storage l.overlay, get-remove a b l.storage),
  λ h. ground (arith, get-update a b clear_storage l.overlay),
)
purge-Framed l a (PurgeScope.slots slots) b = (
  λ h. ground (
    arith,
    get-update a b (drop_slots slots) l.overlay,
    get-update a b (λ m. (remove_slots slots m).0) l.storage,
  ),
  λ h. ground (arith, get-update a b (drop_slots slots) l.overlay),
)

module _ (revm : Revm) where
  patch_loaded-Framed :
      (l : Layers) (a : Address) (p : AccountPatch) (i : AccountInfo) (b : Address)
      → Framed a l (patch_loaded revm l a p i).0 b
  unfolding patch_loaded
  patch_loaded-Framed l a p i b =
      elim (Bool-cases (is_no_change revm (info_change revm a i (patch_info revm p i)))) [
        | inl same ↦ rw same (Framed-refl a l b)
        | inr changed ↦
            rw changed (write_account_info_through-Framed revm l a (patch_info revm p i) b)
      ]

  apply_account_patch-Framed :
      (l : Layers) (a : Address) (p : AccountPatch) (upsert : Bool) (b : Address)
      → Framed a l (apply_account_patch revm l a p upsert).0 b
  unfolding apply_account_patch
  apply_account_patch-Framed l a p upsert b = elim (Option-cases (loaded_account_info revm l a)) [
    | inl cold ↦ rw (cold, apply_account_patch) (cold_cases (account_patch_is_empty p) upsert)
    | inr (info, hot) ↦ rw (hot, apply_account_patch) (patch_loaded-Framed l a p info b)
  ]
    where
      cold_cases :
          (empty allowed : Bool)
          → Framed a l
              (if empty
                then (l, ok none)
                else if allowed
                then lift_ok revm (patch_loaded revm l a p revm.default_info)
                else (l, err (record { address = a; patch = p }))).0
              b
      cold_cases true allowed = Framed-refl a l b
      cold_cases false true = patch_loaded-Framed l a p revm.default_info b
      cold_cases false false = Framed-refl a l b

  -- An update changes entries of its own address only, in either layer, and never brings an
  -- account into the overlay that was not there.
  pub apply_arm-Framed :
      (l : Layers) (u : StateUpdate) (b : Address)
      → Framed (address_of u) l (apply_arm revm l u).0 b
  unfolding apply_arm apply_slot apply_balance_delta
  apply_arm-Framed l (StateUpdate.slot a s v) b = write_slot_through-Framed l a s v b
  apply_arm-Framed l (StateUpdate.slot_delta a s d) b =
      elim (Option-cases (cached_storage_value l a s)) [
        | inl cold ↦ rw (cold, apply_arm) (Framed-refl a l b)
        | inr (v, hot) ↦ rw (hot, apply_arm) (write_slot_through-Framed l a s (apply_delta d v) b)
      ]
  apply_arm-Framed l (StateUpdate.slot_masked a s mask value) b =
      elim (Option-cases (cached_storage_value l a s)) [
        | inl cold ↦ rw (cold, apply_arm) (Framed-refl a l b)
        | inr (v, hot) ↦
            rw (hot, apply_arm) (write_slot_through-Framed l a s (masked v mask value) b)
      ]
  apply_arm-Framed l (StateUpdate.balance_delta a d) b =
      elim (Option-cases (loaded_account_info revm l a)) [
        | inl cold ↦ rw (cold, apply_arm, apply_balance_delta) (Framed-refl a l b)
        | inr (i, hot) ↦
            rw (hot, apply_arm, apply_balance_delta)
              (write_account_info_through-Framed revm l a
                (record i { balance = apply_delta d i.balance }) b)
      ]
  apply_arm-Framed l (StateUpdate.account a p) b = apply_account_patch-Framed l a p false b
  apply_arm-Framed l (StateUpdate.account_upsert a p) b = apply_account_patch-Framed l a p true b
  apply_arm-Framed l (StateUpdate.purge a scope) b = purge-Framed l a scope b
