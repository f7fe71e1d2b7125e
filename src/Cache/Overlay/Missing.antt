-- ===== src/Cache/Overlay/Missing.antt =====
-- src/cache/overlay.rs: what an overlay without an external database reports as missing.
use evm_fork_cache.Prelude.{
  ℕ, ◌≡◌, refl, ap, ◌∙◌, Bool, false, true, ◌&&◌, ◌||◌, none, List, [], ◌∷◌,
  is_empty as list_is_empty, arith, is_some,
}
use evm_fork_cache.Prelude.Eq.{Eq, nat_eq, pair_eq}
use evm_fork_cache.Prelude.Map.{Map, get}
use evm_fork_cache.Prelude.Set.{contains, add}
use evm_fork_cache.Word.{Address, U256, B256}
use evm_fork_cache.Cache.State.{Bytecode}
use evm_fork_cache.Cache.Slots.{backend_value}
use evm_fork_cache.Cache.Snapshot.{storage_value, account_info, code}
use evm_fork_cache.Cache.Overlay.{
  is_empty, EvmOverlay, Account, Access, override_slot, commit, commit_account, basic, dirty_code,
  code_by_hash, storage, block_hash, read_account, read_code, read_slot, read_block_hash,
  write_slot, write_changes, step, run,
}

is_empty-add {ℓ} : {K : Type ℓ} ⦃e : Eq K⦄ (k : K) (s : List K) → list_is_empty (add k s) ≡ false
unfolding add contains
is_empty-add k [] = refl
is_empty-add k (j ∷ s) = ground arith

module _ {E : Type 0} (default_code : Bytecode) where
  -- The dirty layer or the snapshot has what is read.
  abbrev pub is_local : EvmOverlay E → Access → Bool
  is_local o (read_account a) =
      is_some (get a o.dirty_accounts)
      || (contains a o.snapshot.accounts_not_existing || is_some (account_info o.snapshot a))
  is_local o (read_code h) = is_some (dirty_code h o.dirty_accounts) || is_some (code o.snapshot h)
  is_local o (read_slot a s) =
      is_some (backend_value o.dirty_storage a s) || is_some (storage_value o.snapshot a s)
  is_local o (read_block_hash n) = is_some (get n o.snapshot_block_hashes)
  is_local o (write_slot a s v) = true
  is_local o (write_changes changes) = true

  -- every access of a run is, in the overlay that it meets
  abbrev pub all_local : EvmOverlay E → List Access → Bool
  all_local o [] = true
  all_local o (x ∷ xs) = is_local o x && all_local (step default_code o x) xs

  -- what an access leaves: no external database, and a report that stays empty for a local one
  abbrev Reports : EvmOverlay E → Access → Type 0
  Reports o x =
      ((step default_code o x).ext_db ≡ none)
      × (is_empty (step default_code o x).missing_state
          ≡ (is_empty o.missing_state && is_local o x))

  account-Reports : (o : EvmOverlay E) (a : Address) → o.ext_db ≡ none → Reports o (read_account a)
  unfolding basic is_empty
  account-Reports o a offline = ground (arith, offline, is_empty-add a o.missing_state.accounts)

  code-Reports : (o : EvmOverlay E) (h : B256) → o.ext_db ≡ none → Reports o (read_code h)
  unfolding code_by_hash is_empty
  code-Reports o h offline = ground (arith, offline, is_empty-add h o.missing_state.code_hashes)

  slot-Reports :
      (o : EvmOverlay E) (a : Address) (s : U256) → o.ext_db ≡ none → Reports o (read_slot a s)
  unfolding storage is_empty
  slot-Reports o a s offline =
      ground (arith, offline, is_empty-add (a, s) o.missing_state.missing_storage)

  block_hash-Reports : (o : EvmOverlay E) (n : ℕ) → o.ext_db ≡ none → Reports o (read_block_hash n)
  unfolding block_hash is_empty
  block_hash-Reports o n offline =
      ground (arith, offline, is_empty-add n o.missing_state.block_hashes)

  commit-keeps :
      (o : EvmOverlay E) (changes : Map Address Account)
      → ((commit o changes).ext_db ≡ o.ext_db)
        × ((commit o changes).missing_state ≡ o.missing_state)
  unfolding commit commit_account
  commit-keeps o [] = (refl, refl)
  commit-keeps o ((a, account) ∷ changes) = commit-keeps (commit_account o a account) changes

  step-Reports : (o : EvmOverlay E) (x : Access) → o.ext_db ≡ none → Reports o x
  unfolding override_slot
  step-Reports o (read_account a) offline = account-Reports o a offline
  step-Reports o (read_code h) offline = code-Reports o h offline
  step-Reports o (read_slot a s) offline = slot-Reports o a s offline
  step-Reports o (read_block_hash n) offline = block_hash-Reports o n offline
  step-Reports o (write_slot a s v) offline = (offline, ground arith)
  step-Reports o (write_changes changes) offline =
      let kept = commit-keeps o changes in (kept.0 ∙ offline, ap is_empty kept.1 ∙ ground arith)

  -- Without an external database, an overlay reports nothing missing after a run of reads and writes
  -- exactly when it reported nothing before, and the dirty layer or the snapshot had all that the
  -- run read, at the time that it was read.
  pub is_empty-run :
      (o : EvmOverlay E) (xs : List Access)
      → o.ext_db ≡ none
      → is_empty (run default_code o xs).missing_state
        ≡ (is_empty o.missing_state && all_local o xs)
  is_empty-run o [] offline = ground arith
  is_empty-run o (x ∷ xs) offline =
      let (still, report) = step-Reports o x offline in
      ground (arith, report, is_empty-run (step default_code o x) xs still)
