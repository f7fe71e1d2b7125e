-- ===== src/Tests/Bundles.antt =====
-- One run of each result on bundles, with an execution that reads a slot of its target, adds the
-- target's number to the beneficiary's balance, and reverts for target 8.
use evm_fork_cache.Prelude.{ℕ, ◌+◌, ◌≡◌, refl, true, false, not, some, List, [], ◌∷◌, ◌==◌, inl}
use evm_fork_cache.Prelude.Map.{get, insert}
use evm_fork_cache.Prelude.Set.{contains}
use evm_fork_cache.Word.{saturating_sub}
use evm_fork_cache.Cache.Slots.{backend_value, entry_insert}
use evm_fork_cache.Cache.Snapshot.{account_info, storage_value}
use evm_fork_cache.Cache.Account.{ok}
use evm_fork_cache.Cache.Overlay.{EvmOverlay, read_slot, storage, basic, new_overlay, commit}
use evm_fork_cache.Cache.Overlay.Reads.{Agree}
use evm_fork_cache.Bundle.{
  BundleTx, RevertPolicy, BundleOptions, BundleResult, Evm, default_options, simulate_bundle,
  build_all, simulate_from, bundle_loop, finish, partition_gas, saturating_add_u64, allowed,
}
use evm_fork_cache.Bundle.Outcome.{IsVerdict, simulate_bundle-IsVerdict}
use evm_fork_cache.Bundle.Isolation.{OnlyReads, simulate_bundle-Agree}
use evm_fork_cache.Tests.Simulation.{online}

abbrev Journal : Type 0
Journal = EvmOverlay ℕ × ℕ

abbrev evm : Evm ℕ ℕ Journal ℕ ℕ ℕ
evm = record {
  build_tx = λ tx. ok tx.to;
  default_beneficiary = 0;
  build_evm = λ o. (o, 0);
  database_of = λ j. j.0;
  checkpoint = λ j. (j, j.1);
  checkpoint_revert = λ j c. (j.0, c);
  transact_one = λ j t. (((storage j.0 t 5).0, j.1 + t), ok t);
  balance_of = λ j a. some j.1;
  finalize = λ j. [];
  gas_of = λ t. t;
  is_success = λ t. not (t == 8);
  logs_of = λ t. [];
}

evm-OnlyReads : OnlyReads evm 0
evm-OnlyReads = record {
  build-database = λ o. refl;
  checkpoint-database = λ j. refl;
  revert-database = λ j c. refl;
  transact-database = λ j t. (read_slot t 5 ∷ [], (refl, tt), refl);
}

abbrev tx_to : ℕ → BundleTx ℕ
tx_to a = record { from = 1; to = a; calldata = []; tx = 0 }

abbrev allow_second : BundleOptions
allow_second = record { revert_policy = RevertPolicy.allow_reverts (1 ∷ []); commit_state = true }

abbrev txs : List (BundleTx ℕ)
txs = tx_to 4 ∷ tx_to 8 ∷ tx_to 5 ∷ []

simulate_bundle-Agree_example :
    Agree online (simulate_bundle evm online (some 1) txs default_options).0 4 5 91
simulate_bundle-Agree_example =
    simulate_bundle-Agree evm 0 evm-OnlyReads online (some 1) txs default_options 4 5 91 (inl refl)

-- the second transaction reverts, is allowed to, and its payment is taken back
abbrev paid : BundleResult ℕ
paid = record {
  per_tx =
      (record { result = 4; gas_used = 4; reverted = false; logs = [] })
      ∷ (record { result = 8; gas_used = 8; reverted = true; logs = [] })
      ∷ (record { result = 5; gas_used = 5; reverted = false; logs = [] })
      ∷ [];
  coinbase_payment = 0;
  gas_used = 17;
  successful_tx_gas = 9;
  reverted_tx_gas = 8;
  succeeded = true;
}

paid_bundle : (simulate_bundle evm online (some 1) txs allow_second).1 ≡ ok paid
unfolding simulate_bundle build_all simulate_from bundle_loop finish partition_gas
    saturating_add_u64 allowed contains basic storage account_info storage_value backend_value
    entry_insert insert get new_overlay saturating_sub commit
paid_bundle = refl

simulate_bundle-IsVerdict_example : IsVerdict (RevertPolicy.allow_reverts (1 ∷ [])) 3 paid
simulate_bundle-IsVerdict_example =
    simulate_bundle-IsVerdict evm online (some 1) txs allow_second paid paid_bundle
