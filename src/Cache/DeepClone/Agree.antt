-- ===== src/Cache/DeepClone/Agree.antt =====
-- src/cache/mod.rs: the deep clone and the copy-on-write snapshot read the same.
use evm_fork_cache.Prelude.{
  ◌≡◌, sym, ◌∙◌, subst, some, [], arith, inl, inr, get_or, Bool-cases, Option-cases,
}
use evm_fork_cache.Prelude.Eq.{nat_eq}
use evm_fork_cache.Prelude.Map.{get, get-collect, Unique}
use evm_fork_cache.Word.{Address, U256}
use evm_fork_cache.Cache.State.{Layers, EvmCache, Revm, BaseState, is_cleared}
use evm_fork_cache.Cache.Slots.{backend_value, cached_storage_value}
use evm_fork_cache.Cache.Snapshot.{copy, EvmSnapshot, snapshot, storage_value, account_info}
use evm_fork_cache.Cache.Snapshot.Fold.{
  snapshot_over, storage_value-fold, fold-overlay_accounts, fold-not_existing, get-copy,
}
use evm_fork_cache.Cache.Snapshot.History.{Reach, Reach-Inv}
use evm_fork_cache.Cache.Snapshot.Faithful.{snapshot-ReadsAs}
use evm_fork_cache.Cache.DeepClone.{load_backend, snapshot_deep_clone}
use evm_fork_cache.Cache.DeepClone.Merge.{
  get-merge_slots, merge-accounts, merge-not_existing, merge-storage_cleared, merge-overlay_storage,
  merge-storage,
}

get-loaded :
    (l : Layers) (a : Address) (s : U256)
    → backend_value (load_backend l).storage a s ≡ backend_value l.storage a s
unfolding load_backend backend_value
get-loaded l a s = elim (Option-cases (get a l.storage)) [
  | inl absent ↦ ground (arith, absent, get-collect copy a l.storage)
  | inr (slots, present) ↦ ground (arith, present, get-collect copy a l.storage, get-copy s slots)
]

loaded-slot :
    (l : Layers) (a : Address) (s : U256)
    → get s (get_or (get a (load_backend l).storage) []) ≡ backend_value l.storage a s
unfolding backend_value get
loaded-slot l a s = elim (Option-cases (get a (load_backend l).storage)) [
  | inl absent ↦ ground (arith, absent, get-loaded l a s)
  | inr (slots, present) ↦ ground (arith, present, get-loaded l a s)
]

storage_value-deep :
    (c : EvmCache) (a : Address) (s : U256)
    → Unique c.overlay
    → storage_value (snapshot_deep_clone c) a s ≡ cached_storage_value c.layers a s
unfolding storage_value snapshot_deep_clone cached_storage_value backend_value
storage_value-deep c a s u =
    let l = c.layers in
    let kept = merge-overlay_storage l a c.overlay u in
    let flat = merge-storage l a c.overlay u in
    elim (Option-cases (get a c.overlay)) [
      | inl absent ↦ ground (arith, absent, kept, flat, get-loaded l a s)
      | inr (d, present) ↦ elim (Bool-cases (is_cleared d.account_state)) [
        | inl cleared ↦ ground (
          arith,
          present,
          cleared,
          kept,
          merge-storage_cleared l a c.overlay u,
          get-copy s d.storage,
        )
        | inr open_storage ↦ ground (
          arith,
          present,
          open_storage,
          kept,
          flat,
          get-merge_slots s d.storage (get_or (get a (load_backend l).storage) []),
          loaded-slot l a s,
        )
      ]
    ]

account_info-deep :
    (c : EvmCache) (b : BaseState) (a : Address)
    → Unique c.overlay
    → get a b.accounts ≡ get a c.accounts
    → account_info (snapshot_deep_clone c) a ≡ account_info (snapshot_over b c.overlay) a
unfolding account_info snapshot_deep_clone get
account_info-deep c b a u same =
    let flat = merge-accounts c.layers a c.overlay u in
    let gone = merge-not_existing c.layers a c.overlay u in
    let infos = fold-overlay_accounts a c.overlay u in
    let absents = fold-not_existing a c.overlay u in
    elim (Option-cases (get a c.overlay)) [
      | inl absent ↦ ground (arith, absent, flat, gone, infos, absents, same)
      | inr (d, present) ↦ ground (arith, present, flat, gone, infos, absents, same)
    ]

-- The deep clone of a cache with any history reads every slot and every account as the
-- copy-on-write snapshot of it does.
pub snapshot_deep_clone-Agree :
    (revm : Revm) (c : EvmCache) (snap : EvmSnapshot) (a : Address) (s : U256)
    → Reach revm c
    → (snapshot c).1 ≡ some snap
    → (storage_value (snapshot_deep_clone c) a s ≡ storage_value snap a s)
      × (account_info (snapshot_deep_clone c) a ≡ account_info snap a)
snapshot_deep_clone-Agree revm c snap a s reach taken =
    let keyed = (Reach-Inv revm c reach).keyed in
    let (b, made, (values, accounts)) = snapshot-ReadsAs revm c reach in
    let same : snapshot_over b c.overlay ≡ snap = ground (arith, made, taken) in
    subst
      (λ x.
        (storage_value (snapshot_deep_clone c) a s ≡ storage_value x a s)
        × (account_info (snapshot_deep_clone c) a ≡ account_info x a))
      same
      (
        storage_value-deep c a s keyed ∙ sym (storage_value-fold b c.layers a s keyed (values a s)),
        account_info-deep c b a keyed (accounts a),
      )
