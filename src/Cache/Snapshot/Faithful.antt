-- ===== src/Cache/Snapshot/Faithful.antt =====
-- A snapshot reads as the cache it was taken of, after any history.
use evm_fork_cache.Prelude.{◌≡◌, sym, ap, ◌∙◌, inl, inr, Option, none, some, arith, Option-cases}
use evm_fork_cache.Prelude.Eq.{nat_eq}
use evm_fork_cache.Prelude.Map.{Map, get, map_option}
use evm_fork_cache.Word.{Address, U256}
use evm_fork_cache.Cache.State.{DbAccount, EvmCache, Revm, BaseState}
use evm_fork_cache.Cache.Slots.{backend_value, cached_storage_value}
use evm_fork_cache.Cache.Account.{normalize_code_hash, loaded_account_info}
use evm_fork_cache.Cache.Snapshot.{refresh_base, EvmSnapshot, snapshot, storage_value, account_info}
use evm_fork_cache.Cache.Snapshot.Fold.{snapshot_over, storage_value-fold, account_info-fold}
use evm_fork_cache.Cache.Snapshot.Coherent.{
  read, IsFresh, refresh_base-IsFresh, refresh_base-layers,
}
use evm_fork_cache.Cache.Snapshot.History.{Reach, Reach-Inv}

-- a snapshot over a fresh base
snapshot-eq :
    (c : EvmCache) (b : BaseState)
    → (refresh_base c).base ≡ some b
    → (snapshot c).1 ≡ some (snapshot_over b c.overlay)
unfolding snapshot
snapshot-eq c b e =
    ap (fold_over (refresh_base c).overlay) e
    ∙ ap (λ o. some (snapshot_over b o)) (refresh_base-layers c).0
  where
    fold_over : Map Address DbAccount → Option BaseState → Option EvmSnapshot
    fold_over overlay none = none
    fold_over overlay (some base) = some (snapshot_over base overlay)

backend_value-read :
    (storage : Map Address (Map U256 U256)) (a : Address) (s : U256)
    → backend_value storage a s ≡ read (get a storage) s
unfolding backend_value
backend_value-read storage a s = elim (Option-cases (get a storage)) [
  | inl absent ↦ ground arith
  | inr (slots, present) ↦ ground arith
]

fresh_value :
    (c : EvmCache) (b : BaseState) (a : Address) (s : U256)
    → IsFresh (refresh_base c) b
    → backend_value b.storage a s ≡ backend_value c.storage a s
fresh_value c b a s fresh =
    backend_value-read b.storage a s
    ∙ (fresh.settled a).1 s
    ∙ ap (λ m. read (get a m) s) (refresh_base-layers c).1
    ∙ sym (backend_value-read c.storage a s)

-- A base that reads as layer 2 of the cache.
abbrev pub ReadsAs : EvmCache → BaseState → Type 0
ReadsAs c b =
    ((a : Address) (s : U256) → backend_value b.storage a s ≡ backend_value c.storage a s)
    × ((a : Address) → get a b.accounts ≡ get a c.accounts)

-- After any history, a snapshot is layer 1 over such a base.
pub snapshot-ReadsAs :
    (revm : Revm) (c : EvmCache)
    → Reach revm c
    → (b : BaseState) × ((snapshot c).1 ≡ some (snapshot_over b c.overlay)) × ReadsAs c b
snapshot-ReadsAs revm c r =
    let (b, fresh) = refresh_base-IsFresh c (Reach-Inv revm c r).coherent in
    (
      b,
      snapshot-eq c b fresh.here,
      (
        λ a s. fresh_value c b a s fresh,
        λ a. fresh.accounts_eq a ∙ ap (get a) (refresh_base-layers c).2,
      ),
    )

-- A snapshot is made, and it reads every slot as the cache's two-layer read does, and every
-- account, its code hash normalized, as the cache's lookup does.
abbrev pub IsFaithful : Revm → EvmCache → Type 0
IsFaithful revm c =
    (snap : EvmSnapshot) × ((snapshot c).1 ≡ some snap)
    × ((a : Address) (s : U256) → storage_value snap a s ≡ cached_storage_value c.layers a s)
    × ((a : Address)
        → map_option (normalize_code_hash revm) (account_info snap a)
          ≡ loaded_account_info revm c.layers a)

-- After any history of a cache, of single and batched updates, prefetches, purges, lazy fetches,
-- executions and earlier snapshots, `snapshot` succeeds, and the snapshot reads every slot and
-- every account as the cache itself does, although it rebuilds only what it finds marked or grown.
pub snapshot-IsFaithful : (revm : Revm) (c : EvmCache) → Reach revm c → IsFaithful revm c
snapshot-IsFaithful revm c r =
    let keyed = (Reach-Inv revm c r).keyed in
    let (b, made, (values, accounts)) = snapshot-ReadsAs revm c r in
    (
      snapshot_over b c.overlay,
      made,
      λ a s. storage_value-fold b c.layers a s keyed (values a s),
      λ a. account_info-fold revm b c.layers a keyed (accounts a),
    )
