-- ===== src/Events/Tracking.antt =====
-- src/events/mod.rs: what an ingestion remembers of what it changed.
use evm_fork_cache.Prelude.{
  ◌+◌, ◌≡◌, refl, ◌∙◌, Bool, false, ◌||◌, ◌&&◌, List, [], ◌∷◌, arith, ◌==◌, any_by, any_by-weaken,
  for_each, for_each-any_by, is_empty, inl, inr, Bool-cases,
}
use evm_fork_cache.Prelude.Eq.{nat_eq, pair_eq}
use evm_fork_cache.Prelude.Set.{contains, contains-add}
use evm_fork_cache.Word.{Address, U256}
use evm_fork_cache.StateUpdate.Diff.{
  StateDiff, SlotChange, AccountChange, PurgeRecord, SkippedDelta, SkippedMask, SkippedBalanceDelta,
  SkippedAccountPatch,
}
use evm_fork_cache.Cache.State.{EvmCache, Revm}
use evm_fork_cache.Cache.Slots.{cached_storage_value}
use evm_fork_cache.Cache.Batch.{apply_updates}
use evm_fork_cache.Events.{
  DecoderRegistry, Ingested, Log, touch, note_touched_slot, note_diff, decode, ingest_log,
  ingest_loop,
}
use evm_fork_cache.Events.Changes.{names_purge, Unnamed, value_of, apply_updates-Unnamed}

-- The digest lists the slot.
abbrev lists : Address → U256 → Ingested → Bool
lists b t i = contains (b, t) i.digest.touched_slots

-- The loops over records with an address, and with an address and a slot.
module _ {A : Type 0} (address_of : A → Address) where
  abbrev touch_each : List A → Ingested → Ingested
  touch_each xs i = for_each (λ x j. touch (address_of x) j) xs i

  touched-touch_each :
      (b : Address) (xs : List A) (i : Ingested)
      → contains b (touch_each xs i).touched_addrs
        ≡ (any_by (λ x. address_of x == b) xs || contains b i.touched_addrs)
  unfolding touch
  touched-touch_each b xs i =
      for_each-any_by (λ x j. touch (address_of x) j) (λ (j : Ingested). contains b j.touched_addrs)
        (λ x. address_of x == b) (λ x j. contains-add (address_of x) b j.touched_addrs) xs i

  module _ (slot_of : A → U256) where
    abbrev note_each : List A → Ingested → Ingested
    note_each xs i =
        for_each (λ x j. note_touched_slot (address_of x) (slot_of x) (touch (address_of x) j)) xs i

    touched-note_each :
        (b : Address) (xs : List A) (i : Ingested)
        → contains b (note_each xs i).touched_addrs
          ≡ (any_by (λ x. address_of x == b) xs || contains b i.touched_addrs)
    unfolding touch note_touched_slot
    touched-note_each b xs i =
        for_each-any_by
          (λ x j. note_touched_slot (address_of x) (slot_of x) (touch (address_of x) j))
          (λ (j : Ingested). contains b j.touched_addrs) (λ x. address_of x == b)
          (λ x j. contains-add (address_of x) b j.touched_addrs) xs i

-- The diff names the address in a record of a slot or a purge.
abbrev names_address : Address → StateDiff → Bool
names_address b d =
    any_by (λ (x : SlotChange). x.address == b) d.slots
    || (any_by (λ (x : SkippedDelta). x.address == b) d.skipped
        || (any_by (λ (x : SkippedMask). x.address == b) d.skipped_masks || names_purge b d))

touched-note_diff :
    (b : Address) (d : StateDiff) (i : Ingested)
    → contains b (note_diff d i).touched_addrs ≡ false
    → (names_address b d ≡ false) × (contains b i.touched_addrs ≡ false)
unfolding note_diff
touched-note_diff b d i =
    rw
      (
        touched-touch_each (λ (x : SkippedAccountPatch). x.address) b,
        touched-note_each (λ (x : SkippedMask). x.address) (λ x. x.slot) b,
        touched-touch_each (λ (x : SkippedBalanceDelta). x.address) b,
        touched-note_each (λ (x : SkippedDelta). x.address) (λ x. x.slot) b,
        touched-touch_each (λ (x : PurgeRecord). x.address) b,
        touched-touch_each (λ (x : AccountChange). x.address) b,
        touched-note_each (λ (x : SlotChange). x.address) (λ x. x.slot) b,
      )
      (λ h. ground (arith, h))

names_address-Unnamed :
    (b : Address) (t : U256) (d : StateDiff) → names_address b d ≡ false → Unnamed b t d
names_address-Unnamed b t d h = ground (
  arith,
  any_by-weaken (λ (x : SlotChange). (x.address == b) && (x.slot == t)) (λ x. x.address == b)
      (λ x e. ground arith) d.slots,
  any_by-weaken (λ (x : SkippedDelta). (x.address == b) && (x.slot == t)) (λ x. x.address == b)
      (λ x e. ground arith) d.skipped,
  any_by-weaken (λ (x : SkippedMask). (x.address == b) && (x.slot == t)) (λ x. x.address == b)
      (λ x e. ground arith) d.skipped_masks,
)

-- Nothing that was noted so far concerns the slot.
abbrev pub Unlisted : Address → U256 → Ingested → Type 0
Unlisted b t i = (lists b t i ≡ false) × (names_purge b i.digest.applied ≡ false)

abbrev pub Untouched : Address → Ingested → Type 0
Untouched b i = contains b i.touched_addrs ≡ false

module _ (revm : Revm) (registry : DecoderRegistry) (b : Address) (t : U256) where
  ingest_log-Untouched :
      (c : EvmCache) (i : Ingested) (log : Log)
      → let r = ingest_log revm registry c i log in
        Untouched b r.1 → Untouched b i × (value_of r.0.layers b t ≡ value_of c.layers b t)
  unfolding ingest_log
  ingest_log-Untouched c i log =
      let updates = decode registry log (cached_storage_value c.layers) in
      let diff = (apply_updates revm c updates).1 in
      let counted : Ingested = record i {
        digest = record (i.digest) { decoded_logs = i.digest.decoded_logs + 1 };
      } in
      elim (Bool-cases (is_empty updates)) [
        | inl nothing ↦ rw nothing (λ h. (h, refl))
        | inr decoded ↦ rw decoded (λ h.
            let (unnamed, before) = touched-note_diff b diff counted h in
            (
              before,
              apply_updates-Unnamed revm c updates b t (names_address-Unnamed b t diff unnamed),
            ))
      ]

  pub ingest_loop-Untouched :
      (c : EvmCache) (i : Ingested) (logs : List Log)
      → let r = ingest_loop revm registry c i logs in
        Untouched b r.1 → Untouched b i × (value_of r.0.layers b t ≡ value_of c.layers b t)
  unfolding ingest_loop
  ingest_loop-Untouched c i [] = λ h. (h, refl)
  ingest_loop-Untouched c i (log ∷ logs) = λ h.
      let r = ingest_log revm registry c i log in
      let later = ingest_loop-Untouched r.0 r.1 logs h in
      let first = ingest_log-Untouched c i log later.0 in (first.0, later.1 ∙ first.1)
