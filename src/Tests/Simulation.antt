-- ===== src/Tests/Simulation.antt =====
-- One run of each result on the simulation overlay, over a snapshot with one contract, with an
-- external database that fails for one address.
use evm_fork_cache.Prelude.{ℕ, ◌≡◌, refl, ◌&&◌, none, some, List, [], ◌∷◌, ◌==◌, if◌then◌else◌}
use evm_fork_cache.Prelude.Eq.{nat_eq}
use evm_fork_cache.Prelude.Map.{Map, get}
use evm_fork_cache.Cache.Account.{ok, err}
use evm_fork_cache.Cache.Snapshot.{EvmSnapshot}
use evm_fork_cache.Cache.Overlay.{
  SharedBackend, EvmOverlay, Account, Access, new_overlay, reset, basic, commit, storage,
  read_account, read_code, read_slot, read_block_hash, write_slot, write_changes, is_empty, run,
}
use evm_fork_cache.Cache.Overlay.Missing.{all_local, is_empty-run}
use evm_fork_cache.Cache.Overlay.Reads.{Agree, run-Agree}
use evm_fork_cache.Cache.Overlay.Commit.{committed, commit-reads, reset-run}
use evm_fork_cache.Tests.Data.{rich}

abbrev pub snap : EvmSnapshot
snap = record {
  base = record { accounts = (3, rich) ∷ []; storage = (3, (5, 30) ∷ []) ∷ []; code_by_hash = [] };
  folded = record {
    overlay_accounts = (1, rich) ∷ [];
    overlay_storage = (1, (5, 50) ∷ []) ∷ [];
    overlay_code_by_hash = (9, 9) ∷ [];
    storage_cleared = [];
    accounts_not_existing = [];
  };
}

-- account 8 cannot be fetched
abbrev pub chain : SharedBackend ℕ
chain = record {
  basic_ref = λ a. if a == 8 then err 500 else ok (some rich);
  code_by_hash_ref = λ h. ok h;
  storage_ref = λ a s. if a == 8 then err 500 else ok 7;
  block_hash_ref = λ n. ok n;
}

abbrev pub online : EvmOverlay ℕ
online = new_overlay snap ((90, 1) ∷ []) (some chain)

abbrev offline : EvmOverlay ℕ
offline = new_overlay snap ((90, 1) ∷ []) none

abbrev some_reads : List Access
some_reads = read_slot 4 5 ∷ read_account 8 ∷ read_account 4 ∷ read_code 9 ∷ read_block_hash 91 ∷ []

abbrev changes : Map ℕ Account
changes = (3, record { info = rich; storage = (5, 31) ∷ (6, 1) ∷ [] }) ∷ []

run-Agree_example : Agree online (run 0 online some_reads) 4 5 91
run-Agree_example = run-Agree 0 online some_reads 4 5 91 (refl, (refl, (refl, (refl, (refl, tt)))))

is_empty-run_example :
    is_empty (run 0 offline some_reads).missing_state
    ≡ (is_empty offline.missing_state && all_local 0 offline some_reads)
unfolding new_overlay
is_empty-run_example = is_empty-run 0 offline some_reads refl

commit-reads_example :
    ((storage (commit offline changes) 3 5).1
      ≡ elim (committed changes 3 5) [ none ↦ (storage offline 3 5).1 | some v ↦ ok v ])
    × ((basic (commit offline changes) 3).1 ≡ elim (get 3 changes) [
      | none ↦ (basic offline 3).1
      | some account ↦ ok (some account.info)
    ])
unfolding get
commit-reads_example = commit-reads offline changes 3 5 (refl, tt) ((refl, (refl, tt)), tt)

reset-run_example :
    reset (run 0 online (write_slot 1 5 51 ∷ write_changes changes ∷ some_reads)) ≡ online
reset-run_example =
    reset-run 0 snap ((90, 1) ∷ []) (some chain)
      (write_slot 1 5 51 ∷ write_changes changes ∷ some_reads)
