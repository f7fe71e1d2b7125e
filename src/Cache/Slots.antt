-- ===== src/Cache/Slots.antt =====
-- src/cache/mod.rs: reads and writes of one storage slot through the two layers.
pub mod ReadWrite
use evm_fork_cache.Prelude.{
  List, ◌∷◌, Option, none, some, [], get_or, if◌then◌else◌, then_some, not, ◌==◌,
}
use evm_fork_cache.Prelude.Eq.{nat_eq}
use evm_fork_cache.Prelude.Map.{Map, get, insert, update}
use evm_fork_cache.Prelude.Set.{add}
use evm_fork_cache.Word.{Address, U256}
use evm_fork_cache.StateUpdate.Diff.{SlotChange}
use evm_fork_cache.Cache.State.{DbAccount, Layers, EvmCache, bump_snapshot_generation, is_cleared}

-- `storage.get(&address).and_then(|s| s.get(&slot).copied())`
unfoldable pub backend_value : Map Address (Map U256 U256) → Address → U256 → Option U256
backend_value storage a s = elim (get a storage) [ none ↦ none | some slots ↦ get s slots ]

-- `read_slot_account_state_aware`
unfoldable pub read_slot_account_state_aware :
    Map Address DbAccount → Map Address (Map U256 U256) → Address → U256 → Option U256
unfolding backend_value
read_slot_account_state_aware overlay storage a s = elim (get a overlay) [
  | none ↦ backend_value storage a s
  | some d ↦ elim (get s d.storage) [
    | some v ↦ some v
    | none ↦ if is_cleared d.account_state then some 0 else backend_value storage a s
  ]
]

-- `EvmCache::cached_storage_value`
unfoldable pub cached_storage_value : Layers → Address → U256 → Option U256
unfolding backend_value
cached_storage_value l a s = elim (get a l.overlay) [
  | none ↦ backend_value l.storage a s
  | some d ↦ elim (get s d.storage) [
    | some v ↦ some v
    | none ↦ if is_cleared d.account_state then some 0 else backend_value l.storage a s
  ]
]

-- `db_account.storage.insert(slot, value)`
unfoldable pub set_slot : U256 → U256 → DbAccount → DbAccount
set_slot s v d = record d { storage = insert s v d.storage }

-- `storage.entry(address).or_default().insert(slot, value)`
unfoldable pub entry_insert :
    Address → U256 → U256 → Map Address (Map U256 U256) → Map Address (Map U256 U256)
entry_insert a s v storage = insert a (insert s v (get_or (get a storage) [])) storage

-- `write_slot_into`, on the two borrowed layers
unfoldable pub write_slot_into :
    Map Address DbAccount
    → Map Address (Map U256 U256)
    → Address
    → U256
    → U256
    → Map Address DbAccount × Map Address (Map U256 U256)
unfolding set_slot entry_insert
write_slot_into overlay storage a s v =
    (update a (set_slot s v) overlay, entry_insert a s v storage)

-- `EvmCache::mark_base_dirty`
unfoldable pub mark_base_dirty : Layers → Address → Layers
mark_base_dirty l a = record l { base_dirty = add a l.base_dirty }

-- `EvmCache::write_slot_through`
unfoldable pub write_slot_through : Layers → Address → U256 → U256 → Layers
unfolding set_slot entry_insert mark_base_dirty
write_slot_through l a s v =
    let backend = record l { storage = entry_insert a s v l.storage } in
    let both = record backend { overlay = update a (set_slot s v) l.overlay } in
    mark_base_dirty both a

-- a `SlotChange` if the value changed
unfoldable pub slot_change : Address → U256 → U256 → U256 → Option SlotChange
slot_change a s old new =
    then_some (not (old == new)) (record { address = a; slot = s; old = old; new = new })

-- `EvmCache::apply_slot`
unfoldable pub apply_slot : Layers → Address → U256 → U256 → Layers × Option SlotChange
unfolding cached_storage_value write_slot_through slot_change
apply_slot l a s v =
    let old = get_or (cached_storage_value l a s) 0 in
    (write_slot_through l a s v, slot_change a s old v)

-- `EvmCache::modify_slot`
unfoldable pub modify_slot :
    EvmCache → Address → U256 → (Option U256 → Option U256) → EvmCache × Option SlotChange
unfolding cached_storage_value write_slot_through slot_change bump_snapshot_generation
modify_slot c a s f =
    let current = cached_storage_value c.layers a s in
    elim (f current) [
      | none ↦ (c, none)
      | some new ↦ (
        record (bump_snapshot_generation c) { layers = write_slot_through c.layers a s new },
        slot_change a s (get_or current 0) new,
      )
    ]

-- the first loop of `EvmCache::inject_storage_batch`
unfoldable pub inject_writes :
    List (Address × (U256 × U256)) → Map Address (Map U256 U256) → Map Address (Map U256 U256)
unfolding entry_insert
inject_writes [] storage = storage
inject_writes ((a, (s, v)) ∷ results) storage = inject_writes results (entry_insert a s v storage)

-- the second
unfoldable pub inject_marks : List (Address × (U256 × U256)) → Layers → Layers
inject_marks [] l = l
inject_marks ((a, r) ∷ results) l = inject_marks results (mark_base_dirty l a)

-- `EvmCache::inject_storage_batch`
unfoldable pub inject_storage_batch : EvmCache → List (Address × (U256 × U256)) → EvmCache
inject_storage_batch c results = record c {
  layers = inject_marks results (record (c.layers) { storage = inject_writes results c.storage });
}
