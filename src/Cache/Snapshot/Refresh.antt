-- ===== src/Cache/Snapshot/Refresh.antt =====
-- What `refresh_base` leaves in the base: the full rebuild, the scans, and the rebuild of the dirty
-- addresses.
use evm_fork_cache.Prelude.{
  ℕ, ◌≤◌, ◌≡◌, refl, ◌∙◌, true, none, some, List, [], ◌∷◌, arith, ◌==◌, if◌then◌else◌, Option-cases,
  Bool-cases, is_some, inl, inr,
}
use evm_fork_cache.Prelude.Eq.{nat_eq}
use evm_fork_cache.Prelude.Map.{
  Map, len, get, map_option, map_option_id, get-insert, get-remove, get-collect, len-collect-le,
}
use evm_fork_cache.Prelude.Set.{contains, add, contains-add}
use evm_fork_cache.Word.{Address, U256}
use evm_fork_cache.Cache.State.{AccountInfo, Layers, BaseState}
use evm_fork_cache.Cache.Snapshot.{
  copy, len_differs, scan_storage, scan_accounts, Rebuild, rebuild_account, rebuild_storage,
  rebuild_lens, rebuild_loop,
}

pub get-copy {κ} : {V : Type κ} (k : ℕ) (m : Map ℕ V) → get k (copy m) ≡ get k m
unfolding copy
get-copy k m = get-collect (λ v. v) k m ∙ map_option_id (get k m)

pub len-copy-le {κ} : {V : Type κ} (m : Map ℕ V) → len (copy m) ≤ len m
unfolding copy
len-copy-le m = len-collect-le (λ v. v) m

-- The scans only add to the dirty set.
pub scan_storage-keeps :
    (a : Address) (lens : Map Address ℕ) (m : Map Address (Map U256 U256)) (dirty : List Address)
    → contains a dirty ≡ true
    → contains a (scan_storage lens m dirty) ≡ true
unfolding scan_storage
scan_storage-keeps a lens [] dirty h = h
scan_storage-keeps a lens ((b, slots) ∷ m) dirty h =
    scan_storage-keeps a lens m
      (if len_differs (get b lens) (len slots) then add b dirty else dirty)
      (ground (arith, contains-add b a dirty))

pub scan_accounts-keeps :
    (a : Address) (base : BaseState) (m : Map Address AccountInfo) (dirty : List Address)
    → contains a dirty ≡ true
    → contains a (scan_accounts base m dirty) ≡ true
unfolding scan_accounts
scan_accounts-keeps a base [] dirty h = h
scan_accounts-keeps a base ((b, info) ∷ m) dirty h =
    scan_accounts-keeps a base m (if is_some (get b base.accounts) then dirty else add b dirty)
      (ground (arith, contains-add b a dirty))

-- An address whose slot count is not the recorded one is marked.
pub scan_storage-marks :
    (a : Address) (lens : Map Address ℕ) (m : Map Address (Map U256 U256)) (dirty : List Address)
    (slots : Map U256 U256)
    → get a m ≡ some slots
    → len_differs (get a lens) (len slots) ≡ true
    → contains a (scan_storage lens m dirty) ≡ true
unfolding scan_storage get
scan_storage-marks a lens [] dirty slots h d = cc
scan_storage-marks a lens ((b, found) ∷ m) dirty slots h d =
    let next = if len_differs (get b lens) (len found) then add b dirty else dirty in
    elim (Bool-cases (b == a)) [
      | inl here ↦ scan_storage-keeps a lens m next (ground (arith, contains-add b a dirty))
      | inr later ↦ scan_storage-marks a lens m next slots (ground arith) d
    ]

-- An account that is not in the base is marked.
pub scan_accounts-marks :
    (a : Address) (base : BaseState) (m : Map Address AccountInfo) (dirty : List Address)
    (info : AccountInfo)
    → get a m ≡ some info
    → get a base.accounts ≡ none
    → contains a (scan_accounts base m dirty) ≡ true
unfolding scan_accounts get
scan_accounts-marks a base [] dirty info h n = cc
scan_accounts-marks a base ((b, found) ∷ m) dirty info h n =
    let next = if is_some (get b base.accounts) then dirty else add b dirty in
    elim (Bool-cases (b == a)) [
      | inl here ↦ scan_accounts-keeps a base m next (ground (arith, contains-add b a dirty))
      | inr later ↦ scan_accounts-marks a base m next info (ground arith) n
    ]

rebuild_account-get :
    (l : Layers) (a b : Address) (m : Map Address AccountInfo)
    → get a (rebuild_account l b m) ≡ (if b == a then get b l.accounts else get a m)
unfolding rebuild_account
rebuild_account-get l a b m = elim (Option-cases (get b l.accounts)) [
  | inl gone ↦ rw (gone, rebuild_account) (get-remove b a m)
  | inr (info, there) ↦ rw (there, rebuild_account) (get-insert b a info m)
]

rebuild_storage-get :
    (l : Layers) (a b : Address) (m : Map Address (Map U256 U256))
    → get a (rebuild_storage l b m)
      ≡ (if b == a then map_option copy (get b l.storage) else get a m)
unfolding rebuild_storage
rebuild_storage-get l a b m = elim (Option-cases (get b l.storage)) [
  | inl gone ↦ rw (gone, rebuild_storage) (get-remove b a m)
  | inr (slots, there) ↦ rw (there, rebuild_storage) (get-insert b a (copy slots) m)
]

rebuild_lens-get :
    (l : Layers) (a b : Address) (m : Map Address ℕ)
    → get a (rebuild_lens l b m)
      ≡ (if b == a then map_option (λ slots. len (copy slots)) (get b l.storage) else get a m)
unfolding rebuild_lens
rebuild_lens-get l a b m = elim (Option-cases (get b l.storage)) [
  | inl gone ↦ rw (gone, rebuild_lens) (get-remove b a m)
  | inr (slots, there) ↦ rw (there, rebuild_lens) (get-insert b a (len (copy slots)) m)
]

-- After the loop a dirty address is as in layer 2, and any other as before.
pub rebuild_loop-accounts :
    (l : Layers) (a : Address) (dirty : List Address) (r : Rebuild)
    → get a (rebuild_loop l dirty r).accounts
      ≡ (if contains a dirty then get a l.accounts else get a r.accounts)
unfolding rebuild_loop contains
rebuild_loop-accounts l a [] r = refl
rebuild_loop-accounts l a (b ∷ dirty) r = ground (
  arith,
  rebuild_loop-accounts l a dirty (record {
    accounts = rebuild_account l b r.accounts;
    storage = rebuild_storage l b r.storage;
    lens = rebuild_lens l b r.lens;
  }),
  rebuild_account-get l a b r.accounts,
)

pub rebuild_loop-storage :
    (l : Layers) (a : Address) (dirty : List Address) (r : Rebuild)
    → get a (rebuild_loop l dirty r).storage
      ≡ (if contains a dirty then map_option copy (get a l.storage) else get a r.storage)
unfolding rebuild_loop contains
rebuild_loop-storage l a [] r = refl
rebuild_loop-storage l a (b ∷ dirty) r = ground (
  arith,
  rebuild_loop-storage l a dirty (record {
    accounts = rebuild_account l b r.accounts;
    storage = rebuild_storage l b r.storage;
    lens = rebuild_lens l b r.lens;
  }),
  rebuild_storage-get l a b r.storage,
)

pub rebuild_loop-lens :
    (l : Layers) (a : Address) (dirty : List Address) (r : Rebuild)
    → get a (rebuild_loop l dirty r).lens ≡ (
        if contains a dirty
        then map_option (λ slots. len (copy slots)) (get a l.storage)
        else get a r.lens)
unfolding rebuild_loop contains
rebuild_loop-lens l a [] r = refl
rebuild_loop-lens l a (b ∷ dirty) r = ground (
  arith,
  rebuild_loop-lens l a dirty (record {
    accounts = rebuild_account l b r.accounts;
    storage = rebuild_storage l b r.storage;
    lens = rebuild_lens l b r.lens;
  }),
  rebuild_lens-get l a b r.lens,
)
