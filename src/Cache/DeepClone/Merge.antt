-- ===== src/Cache/DeepClone/Merge.antt =====
-- src/cache/mod.rs: what the maps of `snapshot_deep_clone` hold of each address.
use evm_fork_cache.Prelude.{◌≡◌, refl, Option, none, some, [], ◌∷◌, arith, if◌then◌else◌, get_or}
use evm_fork_cache.Prelude.Eq.{nat_eq}
use evm_fork_cache.Prelude.Map.{Map, get, Unique, get-insert, get-remove, get-collect}
use evm_fork_cache.Prelude.Set.{contains, contains-add, contains-empty}
use evm_fork_cache.Word.{Address, U256}
use evm_fork_cache.Cache.State.{AccountInfo, DbAccount, Layers, is_cleared, is_not_existing}
use evm_fork_cache.Cache.Snapshot.{copy}
use evm_fork_cache.Cache.Snapshot.Fold.{absent_of, cleared_of}
use evm_fork_cache.Cache.DeepClone.{
  load_backend, merge_slots, merge_info, merge_storage, merge_overlay,
}

pub get-merge_slots :
    (t : U256) (slots m : Map U256 U256)
    → get t (merge_slots slots m) ≡ elim (get t slots) [ some v ↦ some v | none ↦ get t m ]
unfolding merge_slots get
get-merge_slots t [] m = refl
get-merge_slots t ((s, v) ∷ slots) m =
    ground (arith, get-merge_slots t slots m, get-insert s t v (merge_slots slots m))

-- the merged storage of an overlay account, over what was loaded
abbrev pub slots_over : Option DbAccount → Option (Map U256 U256) → Option (Map U256 U256)
slots_over none loaded = loaded
slots_over (some d) loaded =
    if is_cleared d.account_state then none else some (merge_slots d.storage (get_or loaded []))

abbrev pub cleared_slots : Option DbAccount → Option (Map U256 U256)
cleared_slots none = none
cleared_slots (some d) = if is_cleared d.account_state then some (copy d.storage) else none

abbrev pub info_over : Option DbAccount → Option AccountInfo → Option AccountInfo
info_over none loaded = loaded
info_over (some d) loaded = if is_not_existing d.account_state then none else some d.info

module _ (l : Layers) (a : Address) where
  pub merge-accounts :
      (m : Map Address DbAccount)
      → Unique m
      → get a (merge_overlay l m).accounts ≡ info_over (get a m) (get a l.accounts)
  unfolding merge_overlay merge_storage merge_info load_backend get copy
  merge-accounts [] u = ground (arith, get-collect (λ v. v) a l.accounts)
  merge-accounts ((b, d) ∷ m) u = ground (
    arith,
    merge-accounts m u.1,
    get-insert b a d.info (merge_overlay l m).accounts,
    get-remove b a (merge_overlay l m).accounts,
  )

  pub merge-not_existing :
      (m : Map Address DbAccount)
      → Unique m
      → contains a (merge_overlay l m).accounts_not_existing ≡ absent_of (get a m)
  unfolding merge_overlay merge_storage merge_info load_backend get
  merge-not_existing [] u = contains-empty a
  merge-not_existing ((b, d) ∷ m) u =
      ground (
        arith,
        merge-not_existing m u.1,
        contains-add b a (merge_overlay l m).accounts_not_existing,
      )

  pub merge-storage_cleared :
      (m : Map Address DbAccount)
      → Unique m
      → contains a (merge_overlay l m).storage_cleared ≡ cleared_of (get a m)
  unfolding merge_overlay merge_storage merge_info load_backend get
  merge-storage_cleared [] u = contains-empty a
  merge-storage_cleared ((b, d) ∷ m) u =
      ground
        (arith, merge-storage_cleared m u.1, contains-add b a (merge_overlay l m).storage_cleared)

  pub merge-overlay_storage :
      (m : Map Address DbAccount)
      → Unique m
      → get a (merge_overlay l m).overlay_storage ≡ cleared_slots (get a m)
  unfolding merge_overlay merge_storage merge_info load_backend get
  merge-overlay_storage [] u = refl
  merge-overlay_storage ((b, d) ∷ m) u = ground (
    arith,
    merge-overlay_storage m u.1,
    get-insert b a (copy d.storage) (merge_overlay l m).overlay_storage,
  )

  pub merge-storage :
      (m : Map Address DbAccount)
      → Unique m
      → get a (merge_overlay l m).storage ≡ slots_over (get a m) (get a (load_backend l).storage)
  unfolding merge_overlay merge_storage merge_info get
  merge-storage [] u = refl
  merge-storage ((b, d) ∷ m) u = ground (
    arith,
    merge-storage m u.1,
    get-insert b a (merge_slots d.storage (get_or (get b (merge_overlay l m).storage) []))
        (merge_overlay l m).storage,
    get-remove b a (merge_overlay l m).storage,
  )
