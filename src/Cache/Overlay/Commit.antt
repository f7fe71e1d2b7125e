-- ===== src/Cache/Overlay/Commit.antt =====
-- src/cache/overlay.rs: what a commit, an override and a reset leave to be read.
use evm_fork_cache.Prelude.{
  ℕ, ◌≡◌, refl, sym, ap, ◌∙◌, Bool, false, true, Option, none, some, List, [], ◌∷◌, ◌==◌, arith,
  All, if◌then◌else◌, get_or, inl, inr, Bool-cases,
}
use evm_fork_cache.Prelude.Eq.{nat_eq}
use evm_fork_cache.Prelude.Map.{Map, get, insert, get-insert, get-empty, Unique}
use evm_fork_cache.Word.{Address, U256, B256}
use evm_fork_cache.Cache.State.{Bytecode, AccountInfo}
use evm_fork_cache.Cache.Slots.{backend_value}
use evm_fork_cache.Cache.Account.{ok}
use evm_fork_cache.Cache.Snapshot.{EvmSnapshot, storage_value}
use evm_fork_cache.Cache.Overlay.{
  SharedBackend, EvmOverlay, Account, Access, new_overlay, reset, override_slot, insert_all,
  commit_account, commit, basic, code_by_hash, storage, block_hash, read_account, read_code,
  read_slot, read_block_hash, write_slot, write_changes, step, run,
}
use evm_fork_cache.Cache.Overlay.Cases.{
  Leaves, slot_cases, account_cases, code-Leaves, block_hash-Leaves,
}

-- the first that is there
abbrev or_else {ℓ} : {A : Type ℓ} → Option A → Option A → Option A
or_else (some x) y = some x
or_else none y = y

get-insert_all :
    (t : U256) (values m : Map U256 U256)
    → Unique values
    → get t (insert_all values m) ≡ or_else (get t values) (get t m)
unfolding insert_all get
get-insert_all t [] m u = refl
get-insert_all t ((s, v) ∷ values) m u = elim (Bool-cases (s == t)) [
  | inl here ↦
      let same : s ≡ t = ground arith in
      ground (
        arith,
        here,
        get-insert_all t values (insert s v m) u.1,
        get-insert s t v m,
        u.0,
        ap (λ x. get x values) same,
      )
  | inr other ↦
      ground (arith, other, get-insert_all t values (insert s v m) u.1, get-insert s t v m)
]

-- the committed value of a slot
abbrev pub committed : Map Address Account → Address → U256 → Option U256
committed changes b t = elim (get b changes) [ none ↦ none | some account ↦ get t account.storage ]

-- the keys of each account's storage are distinct
abbrev pub HasUniqueStorage : Map Address Account → Type 0
HasUniqueStorage changes = All (λ (x : Address × Account). Unique x.1.storage) changes

-- the committed info of an account
abbrev committed_info : Map Address Account → Address → Option AccountInfo
committed_info changes b = elim (get b changes) [ none ↦ none | some account ↦ some account.info ]

committed-nil : (b : Address) (t : U256) → (committed [] b t ≡ none) × (committed_info [] b ≡ none)
unfolding get
committed-nil b t = (refl, refl)

committed-cons :
    (a b : Address) (account : Account) (changes : Map Address Account) (t : U256)
    → (committed ((a, account) ∷ changes) b t
        ≡ (if a == b then get t account.storage else committed changes b t))
      × (committed_info ((a, account) ∷ changes) b
          ≡ (if a == b then some account.info else committed_info changes b))
unfolding get
committed-cons a b account changes t = (ground arith, ground arith)

-- an account that is not among the changes
committed-absent :
    (changes : Map Address Account) (b : Address) (t : U256)
    → get b changes ≡ none
    → (committed changes b t ≡ none) × (committed_info changes b ≡ none)
committed-absent changes b t h = (ground (arith, h), ground (arith, h))

-- A change over the old value, under later changes that do not have it too.
override_by :
    {A : Type 0} (here : Bool) (rest middle whole old mine : Option A)
    → middle ≡ (if here then or_else mine old else old)
    → whole ≡ (if here then mine else rest)
    → (here ≡ true → rest ≡ none)
    → or_else rest middle ≡ or_else whole old
override_by true rest middle whole old mine m w absent = rw (absent refl, w) m
override_by false rest middle whole old mine m w absent = rw (m, w) refl

module _ {E : Type 0} where
  dirty-commit_account :
      (o : EvmOverlay E) (a : Address) (account : Account) (b : Address) (t : U256)
      → Unique account.storage
      → backend_value (commit_account o a account).dirty_storage b t ≡ (
          if a == b
          then or_else (get t account.storage) (backend_value o.dirty_storage b t)
          else backend_value o.dirty_storage b t)
  unfolding commit_account backend_value
  dirty-commit_account o a account b t u =
      let old = get_or (get a o.dirty_storage) [] in
      elim (Bool-cases (a == b)) [
        | inl here ↦
            let same : a ≡ b = ground arith in
            ground (
              arith,
              here,
              get-insert a b (insert_all account.storage old) o.dirty_storage,
              get-insert_all t account.storage old u,
              get-empty {V = U256} t,
              ap (λ x. get x o.dirty_storage) same,
            )
        | inr other ↦
            ground (arith, other, get-insert a b (insert_all account.storage old) o.dirty_storage)
      ]

  account-commit_account :
      (o : EvmOverlay E) (a : Address) (account : Account) (b : Address)
      → get b (commit_account o a account).dirty_accounts
        ≡ (if a == b then some account.info else get b o.dirty_accounts)
  unfolding commit_account
  account-commit_account o a account b = get-insert a b account.info o.dirty_accounts

  dirty-commit :
      (o : EvmOverlay E) (changes : Map Address Account) (b : Address) (t : U256)
      → Unique changes
      → HasUniqueStorage changes
      → (backend_value (commit o changes).dirty_storage b t
          ≡ or_else (committed changes b t) (backend_value o.dirty_storage b t))
        × (get b (commit o changes).dirty_accounts
            ≡ or_else (committed_info changes b) (get b o.dirty_accounts))
  unfolding commit
  dirty-commit o [] b t u all =
      let (slot, info) = committed-nil b t in
      (
        ap (λ x. or_else x (backend_value o.dirty_storage b t)) (sym slot),
        ap (λ x. or_else x (get b o.dirty_accounts)) (sym info),
      )
  dirty-commit o ((a, account) ∷ changes) b t u all =
      let later = dirty-commit (commit_account o a account) changes b t u.1 all.1 in
      let (slots, infos) = committed-cons a b account changes t in
      let absent : (a == b) ≡ true → get b changes ≡ none =
        λ here. ap (λ x. get x changes) (sym (here_same here)) ∙ u.0 in
      (
        later.0
            ∙ override_by (a == b) (committed changes b t) _ _ _ (get t account.storage)
                (dirty-commit_account o a account b t all.0) slots
                (λ here. (committed-absent changes b t (absent here)).0),
        later.1
            ∙ override_by (a == b) (committed_info changes b) _ _ _ (some account.info)
                (account-commit_account o a account b) infos
                (λ here. (committed-absent changes b t (absent here)).1),
      )
    where
      here_same : (a == b) ≡ true → a ≡ b
      here_same here = ground arith

  commit-sources :
      (o : EvmOverlay E) (changes : Map Address Account)
      → ((commit o changes).snapshot ≡ o.snapshot)
        × ((commit o changes).ext_db ≡ o.ext_db)
        × ((commit o changes).snapshot_block_hashes ≡ o.snapshot_block_hashes)
  unfolding commit commit_account
  commit-sources o [] = (refl, refl, refl)
  commit-sources o ((a, account) ∷ changes) = commit-sources (commit_account o a account) changes

  -- After a commit of changes, which name each account, and of it each slot, at most once, a changed
  -- slot and a changed account read as committed, and every other slot and account as before.
  pub commit-reads :
      (o : EvmOverlay E) (changes : Map Address Account) (b : Address) (t : U256)
      → Unique changes
      → HasUniqueStorage changes
      → ((storage (commit o changes) b t).1
          ≡ elim (committed changes b t) [ none ↦ (storage o b t).1 | some v ↦ ok v ])
        × ((basic (commit o changes) b).1
            ≡ elim (get b changes) [ none ↦ (basic o b).1 | some account ↦ ok (some account.info) ])
  unfolding storage basic
  commit-reads o changes b t u all =
      let (slot, account) = dirty-commit o changes b t u all in
      let (snapshot, ext_db, hashes) = commit-sources o changes in
      (
        ground (arith, slot, snapshot, ext_db, ap (λ x. storage_value x b t) snapshot),
        ground (arith, account, snapshot, ext_db),
      )

module _ {E : Type 0} (default_code : Bytecode) (snap : EvmSnapshot) (hashes : Map ℕ B256)
    (db : Option (SharedBackend E)) where
  reset-Leaves : (o o' : EvmOverlay E) → Leaves o o' → reset o' ≡ reset o
  unfolding reset
  reset-Leaves o o' (m, flag, same) = rw same refl

  reset-commit :
      (o : EvmOverlay E) (changes : Map Address Account) → reset (commit o changes) ≡ reset o
  unfolding reset commit commit_account
  reset-commit o [] = refl
  reset-commit o ((a, account) ∷ changes) = reset-commit (commit_account o a account) changes

  reset-step : (o : EvmOverlay E) (x : Access) → reset (step default_code o x) ≡ reset o
  unfolding reset override_slot
  reset-step o (read_account a) = elim (account_cases o a) [
    | inl leaves ↦ reset-Leaves o (basic o a).0 leaves
    | inr fetches ↦ ap reset fetches.7
  ]
  reset-step o (read_code h) =
      reset-Leaves o (code_by_hash default_code o h).0 (code-Leaves default_code o h)
  reset-step o (read_slot a s) = elim (slot_cases o a s) [
    | inl leaves ↦ reset-Leaves o (storage o a s).0 leaves
    | inr fetches ↦ ap reset fetches.6
  ]
  reset-step o (read_block_hash n) = reset-Leaves o (block_hash o n).0 (block_hash-Leaves o n)
  reset-step o (write_slot a s v) = refl
  reset-step o (write_changes changes) = reset-commit o changes

  reset-from : (o : EvmOverlay E) (xs : List Access) → reset (run default_code o xs) ≡ reset o
  reset-from o [] = refl
  reset-from o (x ∷ xs) = reset-from (step default_code o x) xs ∙ reset-step o x

  -- An overlay that is reset after any reads, overrides and commits is the new overlay over its
  -- snapshot and its external database.
  pub reset-run :
      (xs : List Access)
      → reset (run default_code (new_overlay snap hashes db) xs) ≡ new_overlay snap hashes db
  unfolding reset new_overlay
  reset-run xs = reset-from (new_overlay snap hashes db) xs
