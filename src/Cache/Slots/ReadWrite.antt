-- ===== src/Cache/Slots/ReadWrite.antt =====
-- What a slot reads as after a write through the two layers.
use evm_fork_cache.Prelude.{
  ◌≡◌, refl, inl, inr, some, [], arith, ◌==◌, ◌&&◌, if◌then◌else◌, Option-cases, get_or,
}
use evm_fork_cache.Prelude.Eq.{nat_eq}
use evm_fork_cache.Prelude.Map.{Map, get, insert, get-empty, get-insert, get-update}
use evm_fork_cache.Word.{Address, U256}
use evm_fork_cache.Cache.State.{Layers}
use evm_fork_cache.Cache.Slots.{
  backend_value, read_slot_account_state_aware, cached_storage_value, set_slot, entry_insert,
  write_slot_through,
}

-- The read under a held guard is the cache's own read.
pub read_slot_account_state_aware-eq :
    (l : Layers) (a : Address) (s : U256)
    → read_slot_account_state_aware l.overlay l.storage a s ≡ cached_storage_value l a s
unfolding read_slot_account_state_aware cached_storage_value
read_slot_account_state_aware-eq l a s = refl

pub backend_value-entry_insert :
    (storage : Map Address (Map U256 U256)) (a b : Address) (s t v : U256)
    → backend_value (entry_insert a s v storage) b t
      ≡ (if (a == b) && (s == t) then some v else backend_value storage b t)
unfolding backend_value entry_insert
backend_value-entry_insert storage a b s t v = ground (
  arith,
  get-insert a b (insert s v (get_or (get a storage) [])) storage,
  get-insert s t v (get_or (get a storage) []),
  get-empty {V = U256} t,
)

-- A written slot reads back as the value, whatever the state of the overlay account, and every
-- other slot of every address reads as before.
pub cached_storage_value-write_slot_through :
    (l : Layers) (a b : Address) (s t v : U256)
    → cached_storage_value (write_slot_through l a s v) b t
      ≡ (if (a == b) && (s == t) then some v else cached_storage_value l b t)
unfolding cached_storage_value write_slot_through
cached_storage_value-write_slot_through l a b s t v = elim (Option-cases (get b l.overlay)) [
  | inl absent ↦ ground (
    arith,
    get-update a b (set_slot s v) l.overlay,
    backend_value-entry_insert l.storage a b s t v,
  )
  | inr (d, present) ↦ ground (
    arith,
    get-update a b (set_slot s v) l.overlay,
    backend_value-entry_insert l.storage a b s t v,
    get-insert s t v d.storage,
  )
]
