-- ===== src/Cache/Snapshot/Fold.antt =====
-- What a snapshot's layer-1 part holds of each overlay account.
use evm_fork_cache.Prelude.{
  ◌≡◌, refl, Bool, false, Option, none, some, [], ◌∷◌, arith, if◌then◌else◌, is_empty, Option-cases,
  inl, inr, ◌∙◌,
}
use evm_fork_cache.Prelude.Eq.{nat_eq}
use evm_fork_cache.Prelude.Map.{
  Map, get, Unique, get-insert, get-collect, get-is_empty, map_option, map_option_id,
}
use evm_fork_cache.Prelude.Set.{contains, contains-add, contains-empty}
use evm_fork_cache.Word.{Address, U256}
use evm_fork_cache.Cache.State.{
  AccountInfo, DbAccount, Layers, BaseState, Revm, is_cleared, is_not_existing,
}
use evm_fork_cache.Cache.Slots.{backend_value, cached_storage_value}
use evm_fork_cache.Cache.Account.{normalize_code_hash, loaded_account_info}
use evm_fork_cache.Cache.Snapshot.{
  copy, EvmSnapshot, fold_info, fold_storage, fold_overlay, storage_value, account_info,
}

abbrev pub info_of : Option DbAccount → Option AccountInfo
info_of none = none
info_of (some d) = if is_not_existing d.account_state then none else some d.info

abbrev slots_of : Option DbAccount → Option (Map U256 U256)
slots_of none = none
slots_of (some d) =
    if is_cleared d.account_state
    then some (copy d.storage)
    else if is_empty d.storage
    then none
    else some (copy d.storage)

abbrev pub cleared_of : Option DbAccount → Bool
cleared_of none = false
cleared_of (some d) = is_cleared d.account_state

abbrev pub absent_of : Option DbAccount → Bool
absent_of none = false
absent_of (some d) = is_not_existing d.account_state

pub fold-overlay_accounts :
    (a : Address) (m : Map Address DbAccount)
    → Unique m
    → get a (fold_overlay m).overlay_accounts ≡ info_of (get a m)
unfolding fold_overlay fold_info fold_storage get
fold-overlay_accounts a [] u = refl
fold-overlay_accounts a ((b, d) ∷ m) u =
    ground (
      arith,
      fold-overlay_accounts a m u.1,
      get-insert b a d.info (fold_overlay m).overlay_accounts,
    )

pub fold-not_existing :
    (a : Address) (m : Map Address DbAccount)
    → Unique m
    → contains a (fold_overlay m).accounts_not_existing ≡ absent_of (get a m)
unfolding fold_overlay fold_info fold_storage get
fold-not_existing a [] u = contains-empty a
fold-not_existing a ((b, d) ∷ m) u =
    ground
      (arith, fold-not_existing a m u.1, contains-add b a (fold_overlay m).accounts_not_existing)

fold-storage_cleared :
    (a : Address) (m : Map Address DbAccount)
    → Unique m
    → contains a (fold_overlay m).storage_cleared ≡ cleared_of (get a m)
unfolding fold_overlay fold_info fold_storage get
fold-storage_cleared a [] u = contains-empty a
fold-storage_cleared a ((b, d) ∷ m) u =
    ground (arith, fold-storage_cleared a m u.1, contains-add b a (fold_overlay m).storage_cleared)

fold-overlay_storage :
    (a : Address) (m : Map Address DbAccount)
    → Unique m
    → get a (fold_overlay m).overlay_storage ≡ slots_of (get a m)
unfolding fold_overlay fold_info fold_storage get
fold-overlay_storage a [] u = refl
fold-overlay_storage a ((b, d) ∷ m) u = ground (
  arith,
  fold-overlay_storage a m u.1,
  get-insert b a (copy d.storage) (fold_overlay m).overlay_storage,
)

abbrev pub snapshot_over : BaseState → Map Address DbAccount → EvmSnapshot
snapshot_over base overlay = record { base = base; folded = fold_overlay overlay }

pub get-copy : (s : U256) (slots : Map U256 U256) → get s (copy slots) ≡ get s slots
unfolding copy
get-copy s slots = get-collect (λ v. v) s slots ∙ map_option_id (get s slots)

-- A snapshot over a base that reads as layer 2 reads each slot as the cache does.
pub storage_value-fold :
    (base : BaseState) (l : Layers) (a : Address) (s : U256)
    → Unique l.overlay
    → backend_value base.storage a s ≡ backend_value l.storage a s
    → storage_value (snapshot_over base l.overlay) a s ≡ cached_storage_value l a s
unfolding storage_value cached_storage_value
storage_value-fold base l a s u same = elim (Option-cases (get a l.overlay)) [
  | inl absent ↦ ground (arith, fold-overlay_storage a l.overlay u)
  | inr (d, present) ↦ ground (
    arith,
    fold-overlay_storage a l.overlay u,
    fold-storage_cleared a l.overlay u,
    get-copy s d.storage,
    get-is_empty s d.storage,
  )
]

-- and each account as the cache does, which normalizes the code hash on top.
pub account_info-fold :
    (revm : Revm) (base : BaseState) (l : Layers) (a : Address)
    → Unique l.overlay
    → get a base.accounts ≡ get a l.accounts
    → map_option (normalize_code_hash revm) (account_info (snapshot_over base l.overlay) a)
      ≡ loaded_account_info revm l a
unfolding account_info loaded_account_info
account_info-fold revm base l a u same = elim (Option-cases (get a l.overlay)) [
  | inl absent ↦
      ground (arith, fold-overlay_accounts a l.overlay u, fold-not_existing a l.overlay u)
  | inr (d, present) ↦
      ground (arith, fold-overlay_accounts a l.overlay u, fold-not_existing a l.overlay u)
]
