-- ===== src/Cache/Apply/Reads.antt =====
-- What every slot reads as after one targeted update.
use evm_fork_cache.Prelude.{
  ◌≡◌, refl, inl, inr, ◌&&◌, Option, none, some, arith, ◌==◌, if◌then◌else◌, Option-cases,
  Bool-cases,
}
use evm_fork_cache.Prelude.Eq.{nat_eq}
use evm_fork_cache.Prelude.Map.{map_option}
use evm_fork_cache.Word.{Address, U256, masked, saturating_add, saturating_sub}
use evm_fork_cache.StateUpdate.{StateUpdate, SlotDelta, apply as apply_delta}
use evm_fork_cache.Cache.State.{Layers, Revm}
use evm_fork_cache.Cache.Slots.{cached_storage_value, apply_slot}
use evm_fork_cache.Cache.Slots.ReadWrite.{cached_storage_value-write_slot_through}
use evm_fork_cache.Cache.Apply.{apply_arm}

-- A write of one slot: absolute, relative, or of the bits of a mask.
pub data SlotWrite : Type 0 where
  set : U256 → SlotWrite
  shift : SlotDelta → SlotWrite
  set_bits : U256 → U256 → SlotWrite

-- the update that asks for it
abbrev pub on_slot : Address → U256 → SlotWrite → StateUpdate
on_slot a s (set v) = StateUpdate.slot a s v
on_slot a s (shift d) = StateUpdate.slot_delta a s d
on_slot a s (set_bits mask v) = StateUpdate.slot_masked a s mask v

-- the saturated sum, or the difference that stops at zero
abbrev pub shifted : SlotDelta → U256 → U256
shifted (SlotDelta.add amount) old = saturating_add old amount
shifted (SlotDelta.sub amount) old = saturating_sub old amount

pub apply-shifted : (d : SlotDelta) (v : U256) → apply_delta d v ≡ shifted d v
unfolding apply_delta
apply-shifted (SlotDelta.add amount) v = refl
apply-shifted (SlotDelta.sub amount) v = refl

-- The value that it leaves, of the value found; a cold slot stays cold unless the write is absolute.
abbrev pub becomes : SlotWrite → Option U256 → Option U256
becomes (set v) found = some v
becomes (shift d) found = map_option (shifted d) found
becomes (set_bits mask v) found = map_option (λ old. masked old mask v) found

unwritten :
    (l : Layers) (a b : Address) (s t : U256) (o : Option U256)
    → cached_storage_value l a s ≡ o
    → cached_storage_value l b t ≡ (if (a == b) && (s == t) then o else cached_storage_value l b t)
unwritten l a b s t o cold = elim (Bool-cases ((a == b) && (s == t))) [
  | inl here ↦ let ea : a ≡ b = ground arith in let es : s ≡ t = ground arith in cc
  | inr there ↦ rw there refl
]

module _ (revm : Revm) where
  -- After a write of a slot the slot reads as the write says: the new value, the saturated sum or
  -- difference, the masked bits replaced, or still cold. Every other slot reads as before.
  pub apply_arm-on_slot :
      (l : Layers) (a b : Address) (s t : U256) (w : SlotWrite)
      → cached_storage_value (apply_arm revm l (on_slot a s w)).0 b t ≡ (
          if (a == b) && (s == t)
          then becomes w (cached_storage_value l a s)
          else cached_storage_value l b t)
  unfolding apply_arm apply_slot
  apply_arm-on_slot l a b s t (set v) = cached_storage_value-write_slot_through l a b s t v
  apply_arm-on_slot l a b s t (shift d) = elim (Option-cases (cached_storage_value l a s)) [
    | inl cold ↦ rw (cold, apply_arm) (unwritten l a b s t none cold)
    | inr (v, hot) ↦
        rw (hot, apply_arm, apply-shifted d v)
          (cached_storage_value-write_slot_through l a b s t (shifted d v))
  ]
  apply_arm-on_slot l a b s t (set_bits mask v) = elim (Option-cases (cached_storage_value l a s)) [
    | inl cold ↦ rw (cold, apply_arm) (unwritten l a b s t none cold)
    | inr (old, hot) ↦
        rw (hot, apply_arm) (cached_storage_value-write_slot_through l a b s t (masked old mask v))
  ]
