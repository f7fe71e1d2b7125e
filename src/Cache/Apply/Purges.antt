-- ===== src/Cache/Apply/Purges.antt =====
-- What a purge drops, and what it counts.
use evm_fork_cache.Prelude.{
  ◌+◌, ◌≡◌, refl, inl, inr, Option, none, some, List, [], ◌∷◌, arith, ◌==◌, if◌then◌else◌,
  Option-cases, Bool-cases,
}
use evm_fork_cache.Prelude.Eq.{nat_eq}
use evm_fork_cache.Prelude.Map.{
  Map, len, get, contains_key, remove, get-empty, get-update, get-remove, Unique, Unique-remove,
}
use evm_fork_cache.Prelude.Set.{contains}
use evm_fork_cache.Word.{Address, U256}
use evm_fork_cache.StateUpdate.{PurgeScope}
use evm_fork_cache.Cache.State.{AccountInfo, DbAccount, Layers, Revm, is_cleared}
use evm_fork_cache.Cache.Slots.{backend_value, cached_storage_value, mark_base_dirty}
use evm_fork_cache.Cache.Account.{loaded_account_info}
use evm_fork_cache.Cache.Purge.{
  slot_count, purge_account_inner, clear_storage, purge_contract_storage_inner, remove_slots,
  drop_slots, purge_contract_slots_inner, apply_purge,
}

get-remove_slots :
    (t : U256) (slots : List U256) (m : Map U256 U256)
    → get t (remove_slots slots m).0 ≡ (if contains t slots then none else get t m)
unfolding remove_slots contains
get-remove_slots t [] m = refl
get-remove_slots t (s ∷ slots) m =
    ground (arith, get-remove_slots t slots (remove s m), get-remove s t m)

-- What an absent slot of the overlay account reads as when the backend has none: zero where the
-- account's storage is known in full.
abbrev pub emptied : Option DbAccount → Option U256
emptied none = none
emptied (some d) = if is_cleared d.account_state then some 0 else none

-- What a slot of the purged address reads as.
abbrev pub value_after : PurgeScope → Layers → Address → U256 → Option U256
value_after PurgeScope.account l a t = none
value_after PurgeScope.all_storage l a t = emptied (get a l.overlay)
value_after (PurgeScope.slots slots) l a t =
    if contains t slots then emptied (get a l.overlay) else cached_storage_value l a t

-- A purged slot is gone from both layers, so that the next read goes to the backend, or reads zero
-- where the overlay account is marked as cleared; a purge of listed slots leaves every other slot
-- as it reads.
pub cached_storage_value-apply_purge :
    (l : Layers) (a : Address) (scope : PurgeScope) (t : U256)
    → cached_storage_value (apply_purge l a scope).0 a t ≡ value_after scope l a t
unfolding apply_purge purge_account_inner purge_contract_storage_inner purge_contract_slots_inner
    mark_base_dirty cached_storage_value backend_value clear_storage drop_slots
cached_storage_value-apply_purge l a PurgeScope.account t =
    ground (arith, get-remove a a l.overlay, get-remove a a l.storage)
cached_storage_value-apply_purge l a PurgeScope.all_storage t = ground (
  arith,
  get-update a a clear_storage l.overlay,
  get-remove a a l.storage,
  get-empty {V = U256} t,
)
cached_storage_value-apply_purge l a (PurgeScope.slots slots) t =
    elim (Option-cases (get a l.overlay)) [
      | inl absent ↦ elim (Option-cases (get a l.storage)) [
        | inl bare ↦ ground (
          arith,
          get-update a a (drop_slots slots) l.overlay,
          get-update a a (λ m. (remove_slots slots m).0) l.storage,
        )
        | inr (m, held) ↦ ground (
          arith,
          get-update a a (drop_slots slots) l.overlay,
          get-update a a (λ m. (remove_slots slots m).0) l.storage,
          get-remove_slots t slots m,
        )
      ]
      | inr (d, present) ↦ elim (Option-cases (get a l.storage)) [
        | inl bare ↦ ground (
          arith,
          get-update a a (drop_slots slots) l.overlay,
          get-update a a (λ m. (remove_slots slots m).0) l.storage,
          get-remove_slots t slots d.storage,
        )
        | inr (m, held) ↦ ground (
          arith,
          get-update a a (drop_slots slots) l.overlay,
          get-update a a (λ m. (remove_slots slots m).0) l.storage,
          get-remove_slots t slots d.storage,
          get-remove_slots t slots m,
        )
      ]
    ]

-- what the purged address reads as an account
abbrev pub account_after : PurgeScope → Revm → Layers → Address → Option AccountInfo
account_after PurgeScope.account revm l a = none
account_after PurgeScope.all_storage revm l a = loaded_account_info revm l a
account_after (PurgeScope.slots slots) revm l a = loaded_account_info revm l a

-- A purge of the account forgets its info and its code-seed mark; a purge of storage keeps the
-- info.
pub loaded_account_info-apply_purge :
    (revm : Revm) (l : Layers) (a : Address) (scope : PurgeScope)
    → loaded_account_info revm (apply_purge l a scope).0 a ≡ account_after scope revm l a
unfolding apply_purge purge_account_inner purge_contract_storage_inner purge_contract_slots_inner
    mark_base_dirty loaded_account_info clear_storage drop_slots
loaded_account_info-apply_purge revm l a PurgeScope.account =
    ground (arith, get-remove a a l.overlay, get-remove a a l.accounts)
loaded_account_info-apply_purge revm l a PurgeScope.all_storage =
    ground (arith, get-update a a clear_storage l.overlay)
loaded_account_info-apply_purge revm l a (PurgeScope.slots slots) =
    ground (arith, get-update a a (drop_slots slots) l.overlay)

remove-absent : (s : U256) (m : Map U256 U256) → get s m ≡ none → len (remove s m) ≡ len m
unfolding get remove
remove-absent s [] h = refl
remove-absent s ((t, v) ∷ m) h = ground (arith, remove-absent s m)

len-remove :
    (s : U256) (m : Map U256 U256)
    → Unique m
    → len (remove s m) + (if contains_key s m then 1 else 0) ≡ len m
unfolding get remove
len-remove s [] u = refl
len-remove s ((t, v) ∷ m) u = elim (Bool-cases (t == s)) [
  | inl here ↦ let e : t ≡ s = ground arith in ground (arith, remove-absent s m, u.0)
  | inr other ↦ ground (arith, len-remove s m u.1)
]

len-remove_slots :
    (slots : List U256) (m : Map U256 U256)
    → Unique m
    → len (remove_slots slots m).0 + (remove_slots slots m).1 ≡ len m
unfolding remove_slots
len-remove_slots [] m u = omega arith
len-remove_slots (s ∷ slots) m u =
    ground (arith, len-remove_slots slots (remove s m) (Unique-remove s m u), len-remove s m u)

-- The keys of each storage map are distinct.
abbrev pub HasUniqueSlots : Layers → Address → Type 0
HasUniqueSlots l a = (m : Map U256 U256) → get a l.storage ≡ some m → Unique m

-- Where the backend's slot keys of the address are distinct, the number of slots that a purge reports as removed is the number by which the backend's slots
-- of the address became fewer.
pub slots_removed-apply_purge :
    (l : Layers) (a : Address) (scope : PurgeScope)
    → HasUniqueSlots l a
    → let r = apply_purge l a scope in
      slot_count (get a r.0.storage) + r.1.slots_removed ≡ slot_count (get a l.storage)
unfolding apply_purge purge_account_inner purge_contract_storage_inner purge_contract_slots_inner
    mark_base_dirty
slots_removed-apply_purge l a PurgeScope.account u = ground (arith, get-remove a a l.storage)
slots_removed-apply_purge l a PurgeScope.all_storage u = ground (arith, get-remove a a l.storage)
slots_removed-apply_purge l a (PurgeScope.slots slots) u = elim (Option-cases (get a l.storage)) [
  | inl bare ↦ ground (arith, get-update a a (λ m. (remove_slots slots m).0) l.storage)
  | inr (m, held) ↦ ground (
    arith,
    get-update a a (λ m. (remove_slots slots m).0) l.storage,
    len-remove_slots slots m (u m held),
  )
]
