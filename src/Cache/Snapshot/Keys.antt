-- ===== src/Cache/Snapshot/Keys.antt =====
-- Every mutation keeps the keys of the layer-1 overlay distinct, as a `HashMap` does.
use evm_fork_cache.Prelude.{
  ℕ, ◌+◌, ◌≡◌, refl, Bool, false, true, none, List, [], ◌∷◌, arith, if◌then◌else◌, Option-cases,
  Bool-cases, inl, inr,
}
use evm_fork_cache.Prelude.Eq.{nat_eq}
use evm_fork_cache.Prelude.Map.{
  Map, get, contains_key, update, remove, Unique, Unique-remove, Unique-update,
}
use evm_fork_cache.Word.{Address, U256, masked}
use evm_fork_cache.StateUpdate.{
  StateUpdate, SlotDelta, AccountPatch, PurgeScope, apply as apply_delta,
}
use evm_fork_cache.Cache.State.{AccountInfo, DbAccount, Layers, Revm}
use evm_fork_cache.Cache.Slots.{
  cached_storage_value, set_slot, mark_base_dirty, write_slot_through, apply_slot,
}
use evm_fork_cache.Cache.Account.{
  loaded_account_info, normalize_code_hash, write_account_info_through, apply_balance_delta,
  apply_account_patch, account_patch_is_empty, patch_loaded, patch_info, is_no_change, info_change,
  lift_ok, ok, err,
}
use evm_fork_cache.Cache.Purge.{
  purge_account_inner, purge_contract_storage_inner, purge_contract_slots_inner, clear_storage,
  drop_slots, apply_purge, purge_contracts_loop, clear_all, slot_count,
}
use evm_fork_cache.Cache.Apply.{apply_arm}

abbrev pub IsKeyed : Layers → Type 0
IsKeyed l = Unique l.overlay

write_slot_through-IsKeyed :
    (l : Layers) (a : Address) (s v : U256) → IsKeyed l → IsKeyed (write_slot_through l a s v)
unfolding write_slot_through mark_base_dirty
write_slot_through-IsKeyed l a s v u = Unique-update a (set_slot s v) l.overlay u

write_account_info_through-IsKeyed :
    (revm : Revm) (l : Layers) (a : Address) (i : AccountInfo)
    → IsKeyed l
    → IsKeyed (write_account_info_through revm l a i)
unfolding write_account_info_through mark_base_dirty
write_account_info_through-IsKeyed revm l a i u = elim (Bool-cases (contains_key a l.overlay)) [
  | inl there ↦
      rw there (Unique-update a (λ d. revm.insert_info d (normalize_code_hash revm i)) l.overlay u)
  | inr gone ↦ rw gone u
]

apply_purge-IsKeyed :
    (l : Layers) (a : Address) (scope : PurgeScope) → IsKeyed l → IsKeyed (apply_purge l a scope).0
unfolding apply_purge purge_account_inner purge_contract_storage_inner purge_contract_slots_inner
    mark_base_dirty
apply_purge-IsKeyed l a PurgeScope.account u = Unique-remove a l.overlay u
apply_purge-IsKeyed l a PurgeScope.all_storage u = Unique-update a clear_storage l.overlay u
apply_purge-IsKeyed l a (PurgeScope.slots slots) u = Unique-update a (drop_slots slots) l.overlay u

if-IsKeyed :
    {X : Type 0} (t : Bool) (x y : X) (l m : Layers)
    → IsKeyed l
    → IsKeyed m
    → IsKeyed (if◌then◌else◌ {A = Layers × X} t (l, x) (m, y)).0
if-IsKeyed true x y l m h k = h
if-IsKeyed false x y l m h k = k

patch_loaded-IsKeyed :
    (revm : Revm) (l : Layers) (a : Address) (p : AccountPatch) (i : AccountInfo)
    → IsKeyed l
    → IsKeyed (patch_loaded revm l a p i).0
unfolding patch_loaded
patch_loaded-IsKeyed revm l a p i u =
    if-IsKeyed (is_no_change revm (info_change revm a i (patch_info revm p i))) _ _ l _ u
      (write_account_info_through-IsKeyed revm l a (patch_info revm p i) u)

apply_account_patch-IsKeyed :
    (revm : Revm) (l : Layers) (a : Address) (p : AccountPatch) (upsert : Bool)
    → IsKeyed l
    → IsKeyed (apply_account_patch revm l a p upsert).0
unfolding apply_account_patch
apply_account_patch-IsKeyed revm l a p upsert u =
    elim (Option-cases (loaded_account_info revm l a)) [
      | inl cold ↦ rw (cold, apply_account_patch) (cold_cases (account_patch_is_empty p) upsert)
      | inr (info, hot) ↦ rw (hot, apply_account_patch) (patch_loaded-IsKeyed revm l a p info u)
    ]
  where
    cold_cases :
        (empty allowed : Bool)
        → IsKeyed
            (if empty
              then (l, ok none)
              else if allowed
              then lift_ok revm (patch_loaded revm l a p revm.default_info)
              else (l, err (record { address = a; patch = p }))).0
    cold_cases true allowed = u
    cold_cases false true = patch_loaded-IsKeyed revm l a p revm.default_info u
    cold_cases false false = u

apply_balance_delta-IsKeyed :
    (revm : Revm) (l : Layers) (a : Address) (d : SlotDelta)
    → IsKeyed l
    → IsKeyed (apply_balance_delta revm l a d).0
unfolding apply_balance_delta
apply_balance_delta-IsKeyed revm l a d u = elim (Option-cases (loaded_account_info revm l a)) [
  | inl cold ↦ rw (cold, apply_balance_delta) u
  | inr (info, hot) ↦
      rw (hot, apply_balance_delta) (write_account_info_through-IsKeyed revm l a _ u)
]

pub apply_arm-IsKeyed :
    (revm : Revm) (l : Layers) (x : StateUpdate) → IsKeyed l → IsKeyed (apply_arm revm l x).0
unfolding apply_arm apply_slot
apply_arm-IsKeyed revm l (StateUpdate.slot a s v) u = write_slot_through-IsKeyed l a s v u
apply_arm-IsKeyed revm l (StateUpdate.slot_delta a s d) u =
    elim (Option-cases (cached_storage_value l a s)) [
      | inl cold ↦ rw (cold, apply_arm) u
      | inr (v, hot) ↦ rw (hot, apply_arm) (write_slot_through-IsKeyed l a s (apply_delta d v) u)
    ]
apply_arm-IsKeyed revm l (StateUpdate.slot_masked a s mask value) u =
    elim (Option-cases (cached_storage_value l a s)) [
      | inl cold ↦ rw (cold, apply_arm) u
      | inr (v, hot) ↦
          rw (hot, apply_arm) (write_slot_through-IsKeyed l a s (masked v mask value) u)
    ]
apply_arm-IsKeyed revm l (StateUpdate.balance_delta a d) u =
    apply_balance_delta-IsKeyed revm l a d u
apply_arm-IsKeyed revm l (StateUpdate.account a p) u =
    apply_account_patch-IsKeyed revm l a p false u
apply_arm-IsKeyed revm l (StateUpdate.account_upsert a p) u =
    apply_account_patch-IsKeyed revm l a p true u
apply_arm-IsKeyed revm l (StateUpdate.purge a scope) u = apply_purge-IsKeyed l a scope u

pub purge_contracts_loop-IsKeyed :
    (l : Layers) (addresses : List Address) (total : ℕ)
    → IsKeyed l
    → IsKeyed (purge_contracts_loop l addresses total).0
unfolding purge_contracts_loop
purge_contracts_loop-IsKeyed l [] total u = u
purge_contracts_loop-IsKeyed l (a ∷ addresses) total u =
    purge_contracts_loop-IsKeyed
      (record l { overlay = update a clear_storage l.overlay; storage = remove a l.storage })
      addresses (total + slot_count (get a l.storage)) (Unique-update a clear_storage l.overlay u)

get-clear_all :
    (a : Address) (m : Map Address DbAccount) → get a m ≡ none → get a (clear_all m) ≡ none
unfolding clear_all get
get-clear_all a [] h = refl
get-clear_all a ((b, d) ∷ m) h = ground (arith, get-clear_all a m)

pub clear_all-Unique : (m : Map Address DbAccount) → Unique m → Unique (clear_all m)
unfolding clear_all
clear_all-Unique [] u = tt
clear_all-Unique ((b, d) ∷ m) u = (get-clear_all b m u.0, clear_all-Unique m u.1)
