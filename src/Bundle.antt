-- ===== src/Bundle.antt =====
-- src/bundle.rs, and `simulate_bundle` of src/cache/overlay.rs: a sequence of transactions on one
-- overlay, with a revert policy. The execution is revm's: its journal, its checkpoints and
-- `transact_one` are the fields of `Evm`.
pub mod Outcome
pub mod Isolation
use evm_fork_cache.Prelude.{
  ℕ, suc, ◌+◌, ◌-◌, ◌^◌, Bool, true, false, not, Option, none, some, List, [], ◌∷◌, ◌++◌, leb,
  if◌then◌else◌, get_or,
}
use evm_fork_cache.Prelude.Eq.{nat_eq}
use evm_fork_cache.Prelude.Map.{Map, map_option}
use evm_fork_cache.Prelude.Set.{contains}
use evm_fork_cache.Word.{Address, U256, saturating_sub}
use evm_fork_cache.Cache.State.{AccountInfo}
use evm_fork_cache.Cache.Account.{Result, ok, err}
use evm_fork_cache.Cache.Overlay.{EvmOverlay, Account, basic, commit}
use evm_fork_cache.Events.{Log}

-- `struct BundleTx`, whose `TxConfig` is of type `Config`
pub record BundleTx (Config : Type 0) : Type 0 where
  pub from : Address
  pub to : Address
  pub calldata : List ℕ
  pub tx : Config

-- `enum RevertPolicy`
pub data RevertPolicy : Type 0 where
  atomic : RevertPolicy
  allow_reverts : List ℕ → RevertPolicy

-- `struct BundleOptions`
pub record BundleOptions : Type 0 where
  pub revert_policy : RevertPolicy
  pub commit_state : Bool

-- `BundleOptions::default`
abbrev pub default_options : BundleOptions
default_options = record { revert_policy = RevertPolicy.atomic; commit_state = false }

-- `struct TxOutcome`, with revm's `ExecutionResult` as `R`
pub record TxOutcome (R : Type 0) : Type 0 where
  pub result : R
  pub gas_used : ℕ
  pub reverted : Bool
  pub logs : List Log

-- `struct BundleResult`
pub record BundleResult (R : Type 0) : Type 0 where
  pub per_tx : List (TxOutcome R)
  pub coinbase_payment : U256
  pub gas_used : ℕ
  pub successful_tx_gas : ℕ
  pub reverted_tx_gas : ℕ
  pub succeeded : Bool

-- `SimHostError`, as far as `simulate_bundle` returns it under `SimError::Other`, with causes of type `E`
pub data SimHostError (E : Type 0) : Type 0 where
  tx_env : E → SimHostError E
  database : E → SimHostError E
  transact : E → SimHostError E

-- revm over an overlay: `J` is the journaled state with the database under it, `C` a checkpoint, `T`
-- a `TxEnv`, and `R` an execution result.
pub record Evm (Config E J C T R : Type 0) : Type 0 where
  pub build_tx : BundleTx Config → Result T E
  pub default_beneficiary : Address
  pub build_evm : EvmOverlay E → J
  pub database_of : J → EvmOverlay E
  pub checkpoint : J → J × C
  pub checkpoint_revert : J → C → J
  pub transact_one : J → T → J × Result R E
  pub balance_of : J → Address → Option U256
  pub finalize : J → Map Address Account
  pub gas_of : R → ℕ
  pub is_success : R → Bool
  pub logs_of : R → List Log

-- `u64::saturating_add`
unfoldable pub saturating_add_u64 : ℕ → ℕ → ℕ
saturating_add_u64 a b = if leb (a + b) (2 ^ 64 - 1) then a + b else 2 ^ 64 - 1

-- a revert at the index is allowed
unfoldable pub allowed : RevertPolicy → ℕ → Bool
allowed RevertPolicy.atomic idx = false
allowed (RevertPolicy.allow_reverts idxs) idx = contains idx idxs

-- the fold that partitions the gas, from successful and reverted gas so far
unfoldable pub partition_gas : {R : Type 0} → List (TxOutcome R) → ℕ × ℕ → ℕ × ℕ
partition_gas [] sums = sums
partition_gas (tx ∷ per_tx) (succ, rev) =
    if tx.reverted
    then partition_gas per_tx (succ, saturating_add_u64 rev tx.gas_used)
    else partition_gas per_tx (saturating_add_u64 succ tx.gas_used, rev)

-- What the loop over the transactions ends with: an error of revm, or the outcomes so far, their gas,
-- and whether the bundle was aborted.
pub data Looped (E J R : Type 0) : Type 0 where
  failed : J → E → Looped E J R
  ended : J → List (TxOutcome R) → ℕ → Bool → Looped E J R

module _ {Config E J C T R : Type 0} (evm : Evm Config E J C T R) where
  -- the collected `TxEnv`s
  unfoldable pub build_all : List (BundleTx Config) → Result (List T) E
  build_all [] = ok []
  build_all (tx ∷ txs) = elim (evm.build_tx tx) [
    | err e ↦ err e
    | ok env ↦ elim (build_all txs) [ err e ↦ err e | ok envs ↦ ok (env ∷ envs) ]
  ]

  abbrev pub outcome_of : R → TxOutcome R
  outcome_of result = record {
    result = result;
    gas_used = evm.gas_of result;
    reverted = not (evm.is_success result);
    logs = evm.logs_of result;
  }

  -- the `'bundle` loop, from an index on
  unfoldable pub bundle_loop :
      RevertPolicy → C → ℕ → List T → J → List (TxOutcome R) → ℕ → Looped E J R
  bundle_loop policy outer idx [] j per_tx total = ended j per_tx total false
  bundle_loop policy outer idx (env ∷ envs) j per_tx total =
      let (started, inner) = evm.checkpoint j in
      let (j', answer) = evm.transact_one started env in
      elim answer [
        | err e ↦ failed (evm.checkpoint_revert (evm.checkpoint_revert j' inner) outer) e
        | ok result ↦
            let outcomes = per_tx ++ outcome_of result ∷ [] in
            let gas = saturating_add_u64 total (evm.gas_of result) in
            elim (evm.is_success result) [
              | true ↦ bundle_loop policy outer (suc idx) envs j' outcomes gas
              | false ↦ elim (allowed policy idx) [
                | true ↦
                    bundle_loop policy outer (suc idx) envs (evm.checkpoint_revert j' inner)
                      outcomes gas
                | false ↦ ended (evm.checkpoint_revert j' outer) outcomes gas true
              ]
            ]
      ]

  -- the result of a bundle, and the overlay that it leaves
  unfoldable pub finish :
      BundleOptions
      → C
      → Address
      → U256
      → Looped E J R
      → EvmOverlay E × Result (BundleResult R) (SimHostError E)
  finish opts outer beneficiary pre (failed j e) =
      (evm.database_of j, err (SimHostError.transact e))
  finish opts outer beneficiary pre (ended j per_tx total true) =
      let (succ, rev) = partition_gas per_tx (0, 0) in
      (
        evm.database_of j,
        ok (record {
          per_tx = per_tx;
          coinbase_payment = 0;
          gas_used = total;
          successful_tx_gas = succ;
          reverted_tx_gas = rev;
          succeeded = false;
        }),
      )
  finish opts outer beneficiary pre (ended j per_tx total false) =
      let (succ, rev) = partition_gas per_tx (0, 0) in
      let post = get_or (evm.balance_of j beneficiary) pre in
      (
        (if opts.commit_state
            then commit (evm.database_of j) (evm.finalize j)
            else evm.database_of (evm.checkpoint_revert j outer)),
        ok (record {
          per_tx = per_tx;
          coinbase_payment = saturating_sub post pre;
          gas_used = total;
          successful_tx_gas = succ;
          reverted_tx_gas = rev;
          succeeded = true;
        }),
      )

  -- the pre-bundle balance of the beneficiary
  abbrev pub balance_or_zero : Option AccountInfo → U256
  balance_or_zero none = 0
  balance_or_zero (some info) = info.balance

  -- the bundle on an overlay whose beneficiary's balance is read
  unfoldable pub simulate_from :
      BundleOptions
      → Address
      → U256
      → List T
      → EvmOverlay E
      → EvmOverlay E × Result (BundleResult R) (SimHostError E)
  simulate_from opts beneficiary pre envs o =
      let (j, outer) = evm.checkpoint (evm.build_evm o) in
      finish opts outer beneficiary pre (bundle_loop opts.revert_policy outer 0 envs j [] 0)

  -- `EvmOverlay::simulate_bundle`, with the `coinbase` of the snapshot
  unfoldable pub simulate_bundle :
      EvmOverlay E
      → Option Address
      → List (BundleTx Config)
      → BundleOptions
      → EvmOverlay E × Result (BundleResult R) (SimHostError E)
  simulate_bundle o coinbase txs opts = elim (build_all txs) [
    | err e ↦ (o, err (SimHostError.tx_env e))
    | ok envs ↦
        let beneficiary = get_or coinbase evm.default_beneficiary in
        let (o', answer) = basic o beneficiary in
        elim answer [
          | err e ↦ (o', err (SimHostError.database e))
          | ok found ↦ simulate_from opts beneficiary (balance_or_zero found) envs o'
        ]
  ]
