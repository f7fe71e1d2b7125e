-- ===== src/Tests/Updates.antt =====
-- One run of each result on updates.
use evm_fork_cache.Prelude.{
  ℕ, ◌≡◌, refl, ap, subst, ◌==◌, if◌then◌else◌, true, false, some, List, [], ◌∷◌, get_or, arith,
}
use evm_fork_cache.Prelude.Eq.{nat_eq}
use evm_fork_cache.Prelude.Map.{get, Unique}
use evm_fork_cache.Word.{masked}
use evm_fork_cache.Word.Bits.{bit, bit-masked}
use evm_fork_cache.StateUpdate.{StateUpdate, SlotDelta, AccountPatch, PurgeScope, empty_patch}
use evm_fork_cache.StateUpdate.Diff.{StateDiff, empty_diff, has_skipped}
use evm_fork_cache.Cache.State.{Layers}
use evm_fork_cache.Cache.Slots.{cached_storage_value}
use evm_fork_cache.Cache.Account.{loaded_account_info, normalize_code_hash, apply_account_patch}
use evm_fork_cache.Cache.Purge.{apply_purge}
use evm_fork_cache.Cache.Apply.{apply_arm}
use evm_fork_cache.Cache.Apply.Reads.{shift, set_bits, on_slot, becomes, apply_arm-on_slot}
use evm_fork_cache.Cache.Apply.Report.{slots-apply_arm}
use evm_fork_cache.Cache.Apply.Accounts.{HoldsInfo, apply_account_patch-HoldsInfo}
use evm_fork_cache.Cache.Apply.Skips.{needs_cold, has_skipped-apply_arm}
use evm_fork_cache.Cache.Apply.Frame.{Framed, apply_arm-Framed}
use evm_fork_cache.Cache.Apply.Purges.{value_after, cached_storage_value-apply_purge}
use evm_fork_cache.Cache.Batch.{apply_updates}
use evm_fork_cache.Cache.Batch.Sequential.{one_by_one, apply_updates-one_by_one}
use evm_fork_cache.Tests.Data.{revm, rich, layers, cache, updates}

bit-masked_example : bit 3 (masked 5 8 10) ≡ (if bit 3 8 == 1 then bit 3 10 else bit 3 5)
bit-masked_example = bit-masked 3 5 8 10 (omega arith) (omega arith)

apply_updates-one_by_one_example :
    ◌≡◌ {A = Layers × StateDiff}
      ((apply_updates revm cache updates).0.layers, (apply_updates revm cache updates).1)
      (
        (one_by_one revm cache updates empty_diff).0.layers,
        (one_by_one revm cache updates empty_diff).1,
      )
apply_updates-one_by_one_example = apply_updates-one_by_one revm cache updates

-- the overlay wins in account 1
apply_arm-on_slot_example :
    cached_storage_value (apply_arm revm layers (on_slot 1 5 (shift (SlotDelta.add 2)))).0 1 5
    ≡ becomes (shift (SlotDelta.add 2)) (cached_storage_value layers 1 5)
apply_arm-on_slot_example = apply_arm-on_slot revm layers 1 1 5 5 (shift (SlotDelta.add 2))

apply_arm-Framed_example : Framed 3 layers (apply_arm revm layers (StateUpdate.slot 3 6 1)).0 1
apply_arm-Framed_example = apply_arm-Framed revm layers (StateUpdate.slot 3 6 1) 1

has_skipped-apply_arm_example :
    (has_skipped (apply_arm revm layers (StateUpdate.slot_delta 4 5 (SlotDelta.sub 1))).1
      ≡ needs_cold revm layers (StateUpdate.slot_delta 4 5 (SlotDelta.sub 1)))
    × (needs_cold revm layers (StateUpdate.slot_delta 4 5 (SlotDelta.sub 1)) ≡ true
        → (apply_arm revm layers (StateUpdate.slot_delta 4 5 (SlotDelta.sub 1))).0 ≡ layers)
has_skipped-apply_arm_example =
    has_skipped-apply_arm revm layers (StateUpdate.slot_delta 4 5 (SlotDelta.sub 1))

slots-apply_arm_example :
    let after = apply_arm revm layers (on_slot 1 5 (set_bits 15 3)) in
    let before = get_or (cached_storage_value layers 1 5) 0 in
    let now = get_or (cached_storage_value after.0 1 5) 0 in
    after.1.slots
    ≡ (if before == now then [] else record { address = 1; slot = 5; old = before; new = now } ∷ [])
slots-apply_arm_example = slots-apply_arm revm layers 1 5 (set_bits 15 3)

abbrev patch : AccountPatch
patch = record empty_patch { nonce = some 4 }

apply_account_patch-HoldsInfo_example :
    HoldsInfo revm (apply_account_patch revm layers 3 patch false).0 3 100 4
unfolding loaded_account_info get normalize_code_hash
apply_account_patch-HoldsInfo_example =
    apply_account_patch-HoldsInfo revm layers 3 patch false rich refl

cached_storage_value-apply_purge_example :
    cached_storage_value (apply_purge layers 1 (PurgeScope.slots (5 ∷ []))).0 1 5
    ≡ value_after (PurgeScope.slots (5 ∷ [])) layers 1 5
cached_storage_value-apply_purge_example =
    cached_storage_value-apply_purge layers 1 (PurgeScope.slots (5 ∷ [])) 5

only_slot-Unique : {m : List (ℕ × ℕ)} → some ((5, 30) ∷ []) ≡ some m → Unique m
unfolding get
only_slot-Unique e = subst Unique (ap (λ o. get_or o []) e) (refl, tt)

abbrev one_skip : StateDiff
one_skip = record empty_diff {
  skipped = record { address = 4; slot = 5; delta = SlotDelta.sub 1 } ∷ [];
}

abbrev one_slot : StateDiff
one_slot = record empty_diff { slots = record { address = 1; slot = 5; old = 50; new = 51 } ∷ [] }
