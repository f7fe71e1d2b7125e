-- ===== src/Events/Changes.antt =====
-- src/events/mod.rs: the diffs that a pipeline reads name every slot whose value an update changes.
use evm_fork_cache.Prelude.{
  subst, ◌≡◌, refl, ◌∙◌, ap, Bool, true, false, ◌||◌, ◌&&◌, none, Option, List, [], ◌∷◌, arith,
  ◌==◌, if◌then◌else◌, any_by, any_by-append, inl, inr, Bool-cases, Option-cases, get_or,
}
use evm_fork_cache.Prelude.Eq.{nat_eq, pair_eq}
use evm_fork_cache.Prelude.Map.{get, get-update}
use evm_fork_cache.Word.{Address, U256, masked}
use evm_fork_cache.StateUpdate.{
  StateUpdate, SlotDelta, AccountPatch, PurgeScope, apply as apply_delta,
}
use evm_fork_cache.StateUpdate.Diff.{
  StateDiff, SlotChange, PurgeRecord, SkippedDelta, SkippedMask, empty_diff, merge,
}
use evm_fork_cache.Cache.State.{AccountInfo, Layers, EvmCache, Revm}
use evm_fork_cache.Cache.Slots.{
  cached_storage_value, backend_value, write_slot_through, apply_slot, slot_change, mark_base_dirty,
}
use evm_fork_cache.Cache.Slots.ReadWrite.{cached_storage_value-write_slot_through}
use evm_fork_cache.Cache.Account.{
  loaded_account_info, normalize_code_hash, write_account_info_through, apply_balance_delta,
  apply_account_patch, account_patch_is_empty, patch_loaded, patch_info, is_no_change, info_change,
  lift_ok, ok, err,
}
use evm_fork_cache.Cache.Purge.{apply_purge}
use evm_fork_cache.Cache.Apply.{apply_arm, push_slot}
use evm_fork_cache.Cache.Apply.Frame.{apply_arm-Framed}
use evm_fork_cache.Cache.Batch.{apply_updates}
use evm_fork_cache.Cache.Batch.Sequential.{sequential, apply_updates-layers}

-- The diff names the slot, as changed or as skipped.
abbrev pub names_slot : Address → U256 → StateDiff → Bool
names_slot a s d =
    any_by (λ (x : SlotChange). (x.address == a) && (x.slot == s)) d.slots
    || (any_by (λ (x : SkippedDelta). (x.address == a) && (x.slot == s)) d.skipped
        || any_by (λ (x : SkippedMask). (x.address == a) && (x.slot == s)) d.skipped_masks)

abbrev pub names_purge : Address → StateDiff → Bool
names_purge a d = any_by (λ (x : PurgeRecord). x.address == a) d.purged

-- what a slot reads as, an uncached one counting as zero
abbrev pub value_of : Layers → Address → U256 → U256
value_of l a s = get_or (cached_storage_value l a s) 0

abbrev pub Unnamed : Address → U256 → StateDiff → Type 0
Unnamed a s d = (names_slot a s d ≡ false) × (names_purge a d ≡ false)

pub Unnamed-merge :
    (a : Address) (s : U256) (d e : StateDiff)
    → Unnamed a s (merge d e)
    → Unnamed a s d × Unnamed a s e
unfolding merge
Unnamed-merge a s d e h = ground (
  arith,
  any_by-append (λ (x : SlotChange). (x.address == a) && (x.slot == s)) d.slots e.slots,
  any_by-append (λ (x : SkippedDelta). (x.address == a) && (x.slot == s)) d.skipped e.skipped,
  any_by-append (λ (x : SkippedMask). (x.address == a) && (x.slot == s)) d.skipped_masks
      e.skipped_masks,
  any_by-append (λ (x : PurgeRecord). x.address == a) d.purged e.purged,
)

-- An account's info is written beside its storage.
cached_storage_value-write_account_info_through :
    (revm : Revm) (l : Layers) (a b : Address) (i : AccountInfo) (t : U256)
    → cached_storage_value (write_account_info_through revm l a i) b t ≡ cached_storage_value l b t
unfolding write_account_info_through mark_base_dirty cached_storage_value
cached_storage_value-write_account_info_through revm l a b i t =
    elim (Option-cases (get b l.overlay)) [
      | inl absent ↦
          ground
            (arith, get-update a b (λ d. revm.insert_info d (normalize_code_hash revm i)) l.overlay)
      | inr (d, there) ↦ ground (
        arith,
        get-update a b (λ d. revm.insert_info d (normalize_code_hash revm i)) l.overlay,
        revm.insert_info-storage d (normalize_code_hash revm i),
        revm.insert_info-state d (normalize_code_hash revm i),
      )
    ]

value_of-write_slot_through :
    (l : Layers) (a b : Address) (s t v : U256)
    → Unnamed b t (push_slot (slot_change a s (value_of l a s) v) empty_diff)
    → value_of (write_slot_through l a s v) b t ≡ value_of l b t
unfolding slot_change
value_of-write_slot_through l a b s t v h = elim (Bool-cases ((a == b) && (s == t))) [
  | inl here ↦
      let same_address : a ≡ b = ground arith in
      let same_slot : s ≡ t = ground arith in
      ground (
        arith,
        cached_storage_value-write_slot_through l a b s t v,
        ap (λ x. value_of l x s) same_address,
        ap (λ x. value_of l b x) same_slot,
      )
  | inr other ↦ ground (arith, cached_storage_value-write_slot_through l a b s t v)
]

module _ (revm : Revm) where
  cached_storage_value-patch_loaded :
      (l : Layers) (a b : Address) (p : AccountPatch) (i : AccountInfo) (t : U256)
      → cached_storage_value (patch_loaded revm l a p i).0 b t ≡ cached_storage_value l b t
  unfolding patch_loaded
  cached_storage_value-patch_loaded l a b p i t =
      elim (Bool-cases (is_no_change revm (info_change revm a i (patch_info revm p i)))) [
        | inl same ↦ rw same refl
        | inr changed ↦
            rw changed
              (cached_storage_value-write_account_info_through revm l a b (patch_info revm p i) t)
      ]

  cached_storage_value-apply_account_patch :
      (l : Layers) (a b : Address) (p : AccountPatch) (upsert : Bool) (t : U256)
      → cached_storage_value (apply_account_patch revm l a p upsert).0 b t
        ≡ cached_storage_value l b t
  unfolding apply_account_patch
  cached_storage_value-apply_account_patch l a b p upsert t =
      elim (Option-cases (loaded_account_info revm l a)) [
        | inl cold ↦ rw (cold, apply_account_patch) (cold_cases (account_patch_is_empty p) upsert)
        | inr (info, hot) ↦
            rw (hot, apply_account_patch) (cached_storage_value-patch_loaded l a b p info t)
      ]
    where
      cold_cases :
          (empty allowed : Bool)
          → cached_storage_value
              (if empty
                then (l, ok none)
                else if allowed
                then lift_ok revm (patch_loaded revm l a p revm.default_info)
                else (l, err (record { address = a; patch = p }))).0
              b
              t
            ≡ cached_storage_value l b t
      cold_cases true allowed = refl
      cold_cases false true = cached_storage_value-patch_loaded l a b p revm.default_info t
      cold_cases false false = refl

  cached_storage_value-balance_delta :
      (l : Layers) (a b : Address) (d : SlotDelta) (t : U256)
      → cached_storage_value (apply_balance_delta revm l a d).0 b t ≡ cached_storage_value l b t
  unfolding apply_balance_delta
  cached_storage_value-balance_delta l a b d t =
      elim (Option-cases (loaded_account_info revm l a)) [
        | inl cold ↦ rw (cold, apply_balance_delta) refl
        | inr (i, hot) ↦
            rw (hot, apply_balance_delta)
              (cached_storage_value-write_account_info_through revm l a b
                (record i { balance = apply_delta d i.balance }) t)
      ]

  cached_storage_value-purge_other :
      (l : Layers) (a b : Address) (scope : PurgeScope) (t : U256)
      → (a == b) ≡ false
      → cached_storage_value (apply_purge l a scope).0 b t ≡ cached_storage_value l b t
  unfolding apply_arm cached_storage_value backend_value
  cached_storage_value-purge_other l a b scope t h =
      let frame = (apply_arm-Framed revm l (StateUpdate.purge a scope) b).0 h in
      ground (arith, frame)

  purged_address :
      (l : Layers) (a : Address) (scope : PurgeScope) → (apply_purge l a scope).1.address ≡ a
  unfolding apply_purge
  purged_address l a PurgeScope.account = refl
  purged_address l a PurgeScope.all_storage = refl
  purged_address l a (PurgeScope.slots slots) = refl

  slot_delta-Unnamed :
      (l : Layers) (a : Address) (s : U256) (d : SlotDelta) (b : Address) (t : U256)
      → let r = apply_arm revm l (StateUpdate.slot_delta a s d) in
        Unnamed b t r.1 → value_of r.0 b t ≡ value_of l b t
  unfolding apply_arm
  slot_delta-Unnamed l a s d b t = elim (Option-cases (cached_storage_value l a s)) [
    | inl cold ↦ rw (cold, apply_arm) (λ h. refl)
    | inr (v, hot) ↦
        rw (hot, apply_arm)
          (λ h. value_of-write_slot_through l a b s t (apply_delta d v) (ground (arith, h, hot)))
  ]

  slot_masked-Unnamed :
      (l : Layers) (a : Address) (s mask value : U256) (b : Address) (t : U256)
      → let r = apply_arm revm l (StateUpdate.slot_masked a s mask value) in
        Unnamed b t r.1 → value_of r.0 b t ≡ value_of l b t
  unfolding apply_arm
  slot_masked-Unnamed l a s mask value b t = elim (Option-cases (cached_storage_value l a s)) [
    | inl cold ↦ rw (cold, apply_arm) (λ h. refl)
    | inr (v, hot) ↦
        rw (hot, apply_arm)
          (λ h.
            value_of-write_slot_through l a b s t (masked v mask value) (ground (arith, h, hot)))
  ]

  -- A slot that the diff of an update does not name reads as before.
  apply_arm-Unnamed :
      (l : Layers) (u : StateUpdate) (b : Address) (t : U256)
      → Unnamed b t (apply_arm revm l u).1
      → value_of (apply_arm revm l u).0 b t ≡ value_of l b t
  unfolding apply_arm apply_slot
  apply_arm-Unnamed l (StateUpdate.slot a s v) b t h = value_of-write_slot_through l a b s t v h
  apply_arm-Unnamed l (StateUpdate.slot_delta a s d) b t h = slot_delta-Unnamed l a s d b t h
  apply_arm-Unnamed l (StateUpdate.slot_masked a s mask value) b t h =
      slot_masked-Unnamed l a s mask value b t h
  apply_arm-Unnamed l (StateUpdate.balance_delta a d) b t h =
      ap (λ (o : Option U256). get_or o 0) (cached_storage_value-balance_delta l a b d t)
  apply_arm-Unnamed l (StateUpdate.account a p) b t h =
      ap (λ (o : Option U256). get_or o 0)
        (cached_storage_value-apply_account_patch l a b p false t)
  apply_arm-Unnamed l (StateUpdate.account_upsert a p) b t h =
      ap (λ (o : Option U256). get_or o 0) (cached_storage_value-apply_account_patch l a b p true t)
  apply_arm-Unnamed l (StateUpdate.purge a scope) b t h =
      ap (λ (o : Option U256). get_or o 0)
        (cached_storage_value-purge_other l a b scope t
          (ground (arith, h, purged_address l a scope)))

  sequential-merges :
      (l : Layers) (us : List StateUpdate) (d : StateDiff) (b : Address) (t : U256)
      → Unnamed b t (sequential revm l us d).1
      → Unnamed b t d × (value_of (sequential revm l us d).0 b t ≡ value_of l b t)
  sequential-merges l [] d b t h = (h, refl)
  sequential-merges l (u ∷ us) d b t h =
      let (l', e) = apply_arm revm l u in
      let later = sequential-merges l' us (merge d e) b t h in
      let named = Unnamed-merge b t d e later.0 in
      (named.0, later.1 ∙ apply_arm-Unnamed l u b t named.1)

  -- A slot that the diff of a batch of updates does not name reads as before.
  pub apply_updates-Unnamed :
      (c : EvmCache) (us : List StateUpdate) (b : Address) (t : U256)
      → Unnamed b t (apply_updates revm c us).1
      → value_of (apply_updates revm c us).0.layers b t ≡ value_of c.layers b t
  apply_updates-Unnamed c us b t h =
      let e = apply_updates-layers revm c us in
      let (_, same) =
        sequential-merges c.layers us empty_diff b t
          (subst (λ (r : Layers × StateDiff). Unnamed b t r.1) e h) in
      ap (λ (r : Layers × StateDiff). value_of r.0 b t) e ∙ same
