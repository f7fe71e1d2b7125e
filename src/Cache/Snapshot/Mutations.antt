-- ===== src/Cache/Snapshot/Mutations.antt =====
-- Every mutation marks each address whose layer-2 entries it changes.
use evm_fork_cache.Prelude.{
  ◌≡◌, refl, ◌∙◌, ◌⊎◌, inl, inr, Bool, false, true, ◌||◌, none, List, [], ◌∷◌, arith, ◌==◌,
  if◌then◌else◌, Option-cases, Bool-cases, get_or,
}
use evm_fork_cache.Prelude.Eq.{nat_eq}
use evm_fork_cache.Prelude.Map.{Map, get, insert, get-insert, get-remove, get-update}
use evm_fork_cache.Prelude.Set.{contains, contains-add}
use evm_fork_cache.Word.{Address, U256, masked}
use evm_fork_cache.StateUpdate.{
  StateUpdate, SlotDelta, AccountPatch, PurgeScope, apply as apply_delta,
}
use evm_fork_cache.Cache.State.{AccountInfo, Layers, EvmCache, Revm}
use evm_fork_cache.Cache.Slots.{
  cached_storage_value, entry_insert, mark_base_dirty, write_slot_through, apply_slot,
  inject_writes, inject_marks, inject_storage_batch,
}
use evm_fork_cache.Cache.Account.{
  loaded_account_info, normalize_code_hash, write_account_info_through, apply_balance_delta,
  apply_account_patch, account_patch_is_empty, patch_loaded, patch_info, is_no_change, info_change,
  lift_ok, ok, err,
}
use evm_fork_cache.Cache.Purge.{
  purge_account_inner, purge_contract_storage_inner, purge_contract_slots_inner, remove_slots,
  apply_purge,
}
use evm_fork_cache.Cache.Apply.{apply_arm}

-- At address `b` the layers are as before, or `b` is marked.
abbrev pub MarkedAt : Layers → Layers → Address → Type 0
MarkedAt l l' b =
    (contains b l'.base_dirty ≡ true)
    ⊎ ((contains b l'.base_dirty ≡ contains b l.base_dirty)
        × (get b l'.storage ≡ get b l.storage)
        × (get b l'.accounts ≡ get b l.accounts))

abbrev pub Marked : Layers → Layers → Type 0
Marked l l' = (b : Address) → MarkedAt l l' b

pub Marked-refl : (l : Layers) → Marked l l
Marked-refl l b = inr (refl, refl, refl)

pub Marked-trans : (l m n : Layers) → Marked l m → Marked m n → Marked l n
Marked-trans l m n p q b = both (p b) (q b)
  where
    both : MarkedAt l m b → MarkedAt m n b → MarkedAt l n b
    both x (inl d) = inl d
    both (inl d) (inr y) = inl (y.0 ∙ d)
    both (inr x) (inr y) = inr (y.0 ∙ x.0, y.1 ∙ x.1, y.2 ∙ x.2)

pub write_slot_through-Marked :
    (l : Layers) (a : Address) (s v : U256) → Marked l (write_slot_through l a s v)
unfolding write_slot_through mark_base_dirty entry_insert
write_slot_through-Marked l a s v b = ground (
  arith,
  contains-add a b l.base_dirty,
  get-insert a b (insert s v (get_or (get a l.storage) [])) l.storage,
)

write_account_info_through-Marked :
    (revm : Revm) (l : Layers) (a : Address) (i : AccountInfo)
    → Marked l (write_account_info_through revm l a i)
unfolding write_account_info_through mark_base_dirty
write_account_info_through-Marked revm l a i b =
    ground
      (arith, contains-add a b l.base_dirty, get-insert a b (normalize_code_hash revm i) l.accounts)

purge_account_inner-Marked : (l : Layers) (a : Address) → Marked l (purge_account_inner l a).0
unfolding purge_account_inner mark_base_dirty
purge_account_inner-Marked l a b =
    ground
      (arith, contains-add a b l.base_dirty, get-remove a b l.accounts, get-remove a b l.storage)

purge_contract_storage_inner-Marked :
    (l : Layers) (a : Address) → Marked l (purge_contract_storage_inner l a).0
unfolding purge_contract_storage_inner mark_base_dirty
purge_contract_storage_inner-Marked l a b =
    ground (arith, contains-add a b l.base_dirty, get-remove a b l.storage)

purge_contract_slots_inner-Marked :
    (l : Layers) (a : Address) (slots : List U256)
    → Marked l (purge_contract_slots_inner l a slots).0
unfolding purge_contract_slots_inner mark_base_dirty
purge_contract_slots_inner-Marked l a slots b =
    ground (
      arith,
      contains-add a b l.base_dirty,
      get-update a b (λ m. (remove_slots slots m).0) l.storage,
    )

pub apply_purge-Marked :
    (l : Layers) (a : Address) (scope : PurgeScope) → Marked l (apply_purge l a scope).0
unfolding apply_purge
apply_purge-Marked l a PurgeScope.account = purge_account_inner-Marked l a
apply_purge-Marked l a PurgeScope.all_storage = purge_contract_storage_inner-Marked l a
apply_purge-Marked l a (PurgeScope.slots slots) = purge_contract_slots_inner-Marked l a slots

if-Marked :
    {X : Type 0} (t : Bool) (x y : X) (l m : Layers)
    → Marked l m
    → Marked l (if◌then◌else◌ {A = Layers × X} t (l, x) (m, y)).0
if-Marked true x y l m h = Marked-refl l
if-Marked false x y l m h = h

patch_loaded-Marked :
    (revm : Revm) (l : Layers) (a : Address) (p : AccountPatch) (i : AccountInfo)
    → Marked l (patch_loaded revm l a p i).0
unfolding patch_loaded
patch_loaded-Marked revm l a p i =
    if-Marked (is_no_change revm (info_change revm a i (patch_info revm p i))) _ _ l _
      (write_account_info_through-Marked revm l a (patch_info revm p i))

apply_account_patch-Marked :
    (revm : Revm) (l : Layers) (a : Address) (p : AccountPatch) (upsert : Bool)
    → Marked l (apply_account_patch revm l a p upsert).0
unfolding apply_account_patch
apply_account_patch-Marked revm l a p upsert = elim (Option-cases (loaded_account_info revm l a)) [
  | inl cold ↦ rw (cold, apply_account_patch) (cold_cases (account_patch_is_empty p) upsert)
  | inr (info, hot) ↦ rw (hot, apply_account_patch) (patch_loaded-Marked revm l a p info)
]
  where
    cold_cases :
        (empty allowed : Bool)
        → Marked l
            (if empty
              then (l, ok none)
              else if allowed
              then lift_ok revm (patch_loaded revm l a p revm.default_info)
              else (l, err (record { address = a; patch = p }))).0
    cold_cases true allowed = Marked-refl l
    cold_cases false true = patch_loaded-Marked revm l a p revm.default_info
    cold_cases false false = Marked-refl l

apply_balance_delta-Marked :
    (revm : Revm) (l : Layers) (a : Address) (d : SlotDelta)
    → Marked l (apply_balance_delta revm l a d).0
unfolding apply_balance_delta
apply_balance_delta-Marked revm l a d = elim (Option-cases (loaded_account_info revm l a)) [
  | inl cold ↦ rw (cold, apply_balance_delta) (Marked-refl l)
  | inr (info, hot) ↦ rw (hot, apply_balance_delta) (write_account_info_through-Marked revm l a _)
]

-- Each update marks every address whose layer-2 account or storage it changes.
pub apply_arm-Marked :
    (revm : Revm) (l : Layers) (u : StateUpdate) → Marked l (apply_arm revm l u).0
unfolding apply_arm apply_slot
apply_arm-Marked revm l (StateUpdate.slot a s v) = write_slot_through-Marked l a s v
apply_arm-Marked revm l (StateUpdate.slot_delta a s d) =
    elim (Option-cases (cached_storage_value l a s)) [
      | inl cold ↦ rw (cold, apply_arm) (Marked-refl l)
      | inr (v, hot) ↦ rw (hot, apply_arm) (write_slot_through-Marked l a s (apply_delta d v))
    ]
apply_arm-Marked revm l (StateUpdate.slot_masked a s mask value) =
    elim (Option-cases (cached_storage_value l a s)) [
      | inl cold ↦ rw (cold, apply_arm) (Marked-refl l)
      | inr (v, hot) ↦ rw (hot, apply_arm) (write_slot_through-Marked l a s (masked v mask value))
    ]
apply_arm-Marked revm l (StateUpdate.balance_delta a d) = apply_balance_delta-Marked revm l a d
apply_arm-Marked revm l (StateUpdate.account a p) = apply_account_patch-Marked revm l a p false
apply_arm-Marked revm l (StateUpdate.account_upsert a p) =
    apply_account_patch-Marked revm l a p true
apply_arm-Marked revm l (StateUpdate.purge a scope) = apply_purge-Marked l a scope

abbrev touches : Address → List (Address × (U256 × U256)) → Bool
touches b [] = false
touches b ((a, r) ∷ results) = (a == b) || touches b results

inject_marks-keeps :
    (results : List (Address × (U256 × U256))) (l : Layers) (b : Address)
    → contains b l.base_dirty ≡ true
    → contains b (inject_marks results l).base_dirty ≡ true
unfolding inject_marks mark_base_dirty
inject_marks-keeps [] l b h = h
inject_marks-keeps ((a, r) ∷ results) l b h =
    inject_marks-keeps results (mark_base_dirty l a) b
      (ground (arith, contains-add a b l.base_dirty))

inject_marks-at :
    (results : List (Address × (U256 × U256))) (l : Layers) (b : Address)
    → (touches b results ≡ true → contains b (inject_marks results l).base_dirty ≡ true)
      × (touches b results ≡ false → MarkedAt l (inject_marks results l) b)
unfolding inject_marks mark_base_dirty
inject_marks-at [] l b = (λ h. cc, λ h. Marked-refl l b)
inject_marks-at ((a, r) ∷ results) l b = elim (Bool-cases (a == b)) [
  | inl here ↦ (
    λ h.
        inject_marks-keeps results (mark_base_dirty l a) b
          (ground (arith, contains-add a b l.base_dirty)),
    λ h. ground arith,
  )
  | inr later ↦ (
    λ h. (inject_marks-at results (mark_base_dirty l a) b).0 (ground arith),
    λ h.
        ground (
          arith,
          (inject_marks-at results (mark_base_dirty l a) b).1,
          contains-add a b l.base_dirty,
        ),
  )
]

inject_writes-at :
    (results : List (Address × (U256 × U256))) (storage : Map Address (Map U256 U256)) (b : Address)
    → touches b results ≡ false
    → get b (inject_writes results storage) ≡ get b storage
unfolding inject_writes entry_insert
inject_writes-at [] storage b h = refl
inject_writes-at ((a, (s, v)) ∷ results) storage b h = ground (
  arith,
  inject_writes-at results (entry_insert a s v storage) b,
  get-insert a b (insert s v (get_or (get a storage) [])) storage,
)

-- A cold prefetch marks the addresses that it writes.
pub inject_storage_batch-Marked :
    (c : EvmCache) (results : List (Address × (U256 × U256)))
    → Marked c.layers (inject_storage_batch c results).layers
unfolding inject_storage_batch
inject_storage_batch-Marked c results b =
    let written = record (c.layers) { storage = inject_writes results c.storage } in
    elim (Bool-cases (touches b results)) [
      | inl hit ↦ inl ((inject_marks-at results written b).0 hit)
      | inr miss ↦ ground (
        arith,
        (inject_marks-at results written b).1 miss,
        inject_writes-at results c.storage b miss,
      )
    ]
