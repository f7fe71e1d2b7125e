-- ===== src/Cache/Apply/Report.antt =====
-- What the diff of one targeted update reports.
use evm_fork_cache.Prelude.{
  if◌then◌else◌, ◌∷◌, ◌≡◌, refl, ap, ◌∙◌, inl, inr, true, Option, none, List, [], arith, ◌==◌,
  ==_refl, Option-cases, get_or,
}
use evm_fork_cache.Word.{Address, U256}
use evm_fork_cache.StateUpdate.{StateUpdate}
use evm_fork_cache.StateUpdate.Diff.{SlotChange, empty_diff, is_empty}
use evm_fork_cache.Cache.State.{Layers, Revm}
use evm_fork_cache.Cache.Slots.{cached_storage_value, apply_slot, slot_change}
use evm_fork_cache.Cache.Apply.{push_slot, apply_arm}
use evm_fork_cache.Cache.Apply.Reads.{
  SlotWrite, set, shift, set_bits, on_slot, becomes, apply-shifted, apply_arm-on_slot,
}

-- the diff with the change of one slot from `old` to `new`, if it changed
abbrev one_change : Address → U256 → Option U256 → Option U256 → List SlotChange
one_change a s old new =
    (push_slot (slot_change a s (get_or old 0) (get_or new 0)) empty_diff).slots

one_change-cold : (a : Address) (s : U256) → one_change a s none none ≡ []
unfolding slot_change
one_change-cold a s = refl

one_change-listed :
    (a : Address) (s old new : U256)
    → (push_slot (slot_change a s old new) empty_diff).slots
      ≡ (if old == new then [] else record { address = a; slot = s; old = old; new = new } ∷ [])
unfolding slot_change
one_change-listed a s old new = ground arith

slots-push_slot :
    (a : Address) (s old new : U256)
    → is_empty (push_slot (slot_change a s old new) empty_diff) ≡ (old == new)
unfolding slot_change is_empty
slots-push_slot a s old new = ground arith

module _ (revm : Revm) where
  reported :
      (l : Layers) (a : Address) (s : U256) (w : SlotWrite)
      → let old = cached_storage_value l a s in
        (apply_arm revm l (on_slot a s w)).1.slots ≡ one_change a s old (becomes w old)
  unfolding apply_arm apply_slot
  reported l a s (set v) = refl
  reported l a s (shift d) = elim (Option-cases (cached_storage_value l a s)) [
    | inl cold ↦ rw (cold, apply_arm, one_change-cold a s) refl
    | inr (v, hot) ↦ rw (hot, apply_arm, apply-shifted d v) refl
  ]
  reported l a s (set_bits mask v) = elim (Option-cases (cached_storage_value l a s)) [
    | inl cold ↦ rw (cold, apply_arm, one_change-cold a s) refl
    | inr (old, hot) ↦ rw (hot, apply_arm) refl
  ]

  read_back :
      (l : Layers) (a : Address) (s : U256) (w : SlotWrite)
      → cached_storage_value (apply_arm revm l (on_slot a s w)).0 a s
        ≡ becomes w (cached_storage_value l a s)
  read_back l a s w = ground (arith, apply_arm-on_slot revm l a a s s w)

  -- A write of a slot reports, where the slot reads differently after it than before it, an uncached
  -- slot counting as zero, one slot change, with the address and the slot, what it read as before as
  -- the old value, and what it reads as after as the new one; otherwise it reports none.
  pub slots-apply_arm :
      (l : Layers) (a : Address) (s : U256) (w : SlotWrite)
      → let after = apply_arm revm l (on_slot a s w) in
        let before = get_or (cached_storage_value l a s) 0 in
        let now = get_or (cached_storage_value after.0 a s) 0 in
        after.1.slots ≡ (
          if before == now
          then []
          else record { address = a; slot = s; old = before; new = now } ∷ [])
  unfolding slot_change
  slots-apply_arm l a s w = rw (read_back l a s w) (
      reported l a s w
      ∙ one_change-listed a s (get_or (cached_storage_value l a s) 0)
          (get_or (becomes w (cached_storage_value l a s)) 0))

  -- Writing an absolute value a second time reports no change.
  pub is_empty-apply_arm :
      (l : Layers) (a : Address) (s v : U256)
      → let once = (apply_arm revm l (StateUpdate.slot a s v)).0 in
        is_empty (apply_arm revm once (StateUpdate.slot a s v)).1 ≡ true
  unfolding apply_arm apply_slot
  is_empty-apply_arm l a s v =
      let once = (apply_arm revm l (StateUpdate.slot a s v)).0 in
      slots-push_slot a s (get_or (cached_storage_value once a s) 0) v
      ∙ ap (λ (o : Option U256). get_or o 0 == v) (read_back l a s (set v))
      ∙ ==_refl v
