-- ===== src/Bundle/Outcome.antt =====
-- src/cache/overlay.rs: the outcomes and the gas of a bundle.
use evm_fork_cache.Prelude.{
  ℕ, subst, suc, ◌+◌, ◌-◌, ◌^◌, ◌≡◌, ◌⊎◌, refl, sym, ap, ◌∙◌, Bool, true, false, not, ◌&&◌, ◌||◌,
  Option, List, [], ◌∷◌, ◌++◌, arith, leb, length, length-append, if◌then◌else◌, get_or, inl, inr,
  Bool-cases,
}
use evm_fork_cache.Word.{Address, U256}
use evm_fork_cache.Cache.Account.{Result, ok}
use evm_fork_cache.Cache.Overlay.{EvmOverlay, basic}
use evm_fork_cache.Cache.Overlay.Cases.{Result-cases}
use evm_fork_cache.Bundle.{
  BundleTx, RevertPolicy, BundleOptions, TxOutcome, BundleResult, Evm, saturating_add_u64, allowed,
  partition_gas, Looped, failed, ended, build_all, outcome_of, bundle_loop, finish, balance_or_zero,
  simulate_from, simulate_bundle,
}

abbrev pub max_u64 : ℕ
max_u64 = 2 ^ 64 - 1

-- a sum that stops at the largest `u64`
abbrev pub capped : ℕ → ℕ
capped n = if leb n max_u64 then n else max_u64

capped-add : (a b : ℕ) → saturating_add_u64 (capped a) b ≡ capped (a + b)
unfolding saturating_add_u64
capped-add a b = ground arith

module _ {R : Type 0} where
  -- the gas of all outcomes
  abbrev pub gas_sum : List (TxOutcome R) → ℕ
  gas_sum [] = 0
  gas_sum (tx ∷ per_tx) = tx.gas_used + gas_sum per_tx

  gas_sum-snoc :
      (per_tx : List (TxOutcome R)) (tx : TxOutcome R)
      → gas_sum (per_tx ++ tx ∷ []) ≡ gas_sum per_tx + tx.gas_used
  gas_sum-snoc [] tx = omega arith
  gas_sum-snoc (x ∷ per_tx) tx = omega (arith, gas_sum-snoc per_tx tx)

  -- the two parts of the gas add up to the rest of the outcomes
  partition_gas-sum :
      (per_tx : List (TxOutcome R)) (succ rev : ℕ)
      → let r = partition_gas per_tx (capped succ, capped rev) in
        saturating_add_u64 r.0 r.1 ≡ capped (succ + rev + gas_sum per_tx)
  unfolding partition_gas saturating_add_u64
  partition_gas-sum [] succ rev = ground arith
  partition_gas-sum (tx ∷ per_tx) succ rev = elim (Bool-cases tx.reverted) [
    | inl reverted ↦
        let same : succ + (rev + tx.gas_used) + gas_sum per_tx
            ≡ succ + rev + gas_sum (tx ∷ per_tx) =
          omega arith in
        rw (reverted, capped-add rev tx.gas_used)
          (partition_gas-sum per_tx succ (rev + tx.gas_used) ∙ ap capped same)
    | inr kept ↦
        let same : succ + tx.gas_used + rev + gas_sum per_tx ≡ succ + rev + gas_sum (tx ∷ per_tx) =
          omega arith in
        rw (kept, capped-add succ tx.gas_used)
          (partition_gas-sum per_tx (succ + tx.gas_used) rev ∙ ap capped same)
  ]

  parts_of :
      (per_tx : List (TxOutcome R))
      → let r = partition_gas per_tx (0, 0) in saturating_add_u64 r.0 r.1 ≡ capped (gas_sum per_tx)
  parts_of per_tx =
      let same : 0 + 0 + gas_sum per_tx ≡ gas_sum per_tx = omega arith in
      partition_gas-sum per_tx 0 0 ∙ ap capped same

  module _ (policy : RevertPolicy) where
    -- every outcome from an index on succeeded or was allowed to revert
    abbrev pub acceptable : ℕ → List (TxOutcome R) → Bool
    acceptable idx [] = true
    acceptable idx (tx ∷ per_tx) =
        (not tx.reverted || allowed policy idx) && acceptable (suc idx) per_tx

    acceptable-snoc :
        (idx : ℕ) (per_tx : List (TxOutcome R)) (tx : TxOutcome R)
        → acceptable idx (per_tx ++ tx ∷ [])
          ≡ (acceptable idx per_tx && (not tx.reverted || allowed policy (idx + length per_tx)))
    acceptable-snoc idx [] tx =
        let same : idx + 0 ≡ idx = omega arith in ground (arith, ap (allowed policy) same)
    acceptable-snoc idx (x ∷ per_tx) tx =
        let same : suc idx + length per_tx ≡ idx + suc (length per_tx) = omega arith in
        ground (arith, acceptable-snoc (suc idx) per_tx tx, ap (allowed policy) same)

    -- A bundle that succeeded ran all its transactions, acceptably; one that did not ended with the
    -- first revert that was not allowed.
    abbrev pub Ended : ℕ → List (TxOutcome R) → Bool → Type 0
    Ended n per_tx true = (acceptable 0 per_tx ≡ true) × (length per_tx ≡ n)
    Ended n per_tx false =
        (before : List (TxOutcome R)) × (last : TxOutcome R) × (per_tx ≡ before ++ last ∷ [])
        × (acceptable 0 before ≡ true)
        × (last.reverted ≡ true)
        × (allowed policy (length before) ≡ false)

module _ {Config E J C T R : Type 0} (evm : Evm Config E J C T R) where
  -- a loop that ended did so in good order, and counted its gas
  abbrev LoopedWell : RevertPolicy → ℕ → Looped E J R → Type 0
  LoopedWell policy n (failed j e) = Unit
  LoopedWell policy n (ended j per_tx total aborted) =
      Ended policy n per_tx (not aborted) × (total ≡ capped (gas_sum per_tx))

  module _ (policy : RevertPolicy) (outer : C) where
    Collected : List (TxOutcome R) → ℕ → Type 0
    Collected per_tx total = (acceptable policy 0 per_tx ≡ true) × (total ≡ capped (gas_sum per_tx))

    capped-snoc :
        (per_tx : List (TxOutcome R)) (total : ℕ) (result : R)
        → total ≡ capped (gas_sum per_tx)
        → saturating_add_u64 total (evm.gas_of result)
          ≡ capped (gas_sum (per_tx ++ outcome_of evm result ∷ []))
    capped-snoc per_tx total result gas =
        ap (λ g. saturating_add_u64 g (evm.gas_of result)) gas
        ∙ capped-add (gas_sum per_tx) (evm.gas_of result)
        ∙ ap capped (sym (gas_sum-snoc per_tx (outcome_of evm result)))

    Collected-snoc :
        (per_tx : List (TxOutcome R)) (total : ℕ) (result : R)
        → Collected per_tx total
        → (evm.is_success result ≡ true) ⊎ (allowed policy (length per_tx) ≡ true)
        → Collected
            (per_tx ++ outcome_of evm result ∷ [])
            (saturating_add_u64 total (evm.gas_of result))
    unfolding Collected
    Collected-snoc per_tx total result (fine, gas) good = (
      ground (arith, acceptable-snoc policy 0 per_tx (outcome_of evm result), fine, good),
      capped-snoc per_tx total result gas,
    )

    bundle_loop-LoopedWell :
        (envs : List T) (n : ℕ) (j : J) (per_tx : List (TxOutcome R)) (total : ℕ)
        → Collected per_tx total
        → length per_tx + length envs ≡ n
        → LoopedWell policy n (bundle_loop evm policy outer (length per_tx) envs j per_tx total)
    unfolding bundle_loop Collected
    bundle_loop-LoopedWell [] n j per_tx total h size = ((h.0, omega (arith, size)), h.1)
    bundle_loop-LoopedWell (env ∷ envs) n j per_tx total h size =
        let start = evm.checkpoint j in
        elim (Result-cases (evm.transact_one start.0 env).1) [
          | inr (e, error) ↦ rw (error, bundle_loop) tt
          | inl (result, done) ↦
              let outcomes = per_tx ++ outcome_of evm result ∷ [] in
              let gas = saturating_add_u64 total (evm.gas_of result) in
              let longer : length outcomes ≡ suc (length per_tx) =
                omega (arith, length-append per_tx (outcome_of evm result ∷ [])) in
              rw (done, bundle_loop)
                (elim (Bool-cases (evm.is_success result)) [
                  | inl fine ↦ rw fine (
                      subst
                        (λ m. LoopedWell policy n (
                          bundle_loop evm policy outer m envs (evm.transact_one start.0 env).0
                            outcomes gas))
                        longer
                        (bundle_loop-LoopedWell envs n (evm.transact_one start.0 env).0 outcomes gas
                          (Collected-snoc per_tx total result h (inl fine))
                          (omega (arith, size, longer))))
                  | inr reverted ↦ elim (Bool-cases (allowed policy (length per_tx))) [
                    | inl forgiven ↦
                        rw (reverted, forgiven)
                          (subst
                            (λ m. LoopedWell policy n (
                              bundle_loop evm policy outer m envs
                                (evm.checkpoint_revert (evm.transact_one start.0 env).0 start.1)
                                outcomes gas))
                            longer
                            (bundle_loop-LoopedWell envs n
                              (evm.checkpoint_revert (evm.transact_one start.0 env).0 start.1)
                              outcomes gas (Collected-snoc per_tx total result h (inr forgiven))
                              (omega (arith, size, longer))))
                    | inr refused ↦
                        rw (reverted, refused)
                          (
                            (per_tx, outcome_of evm result, refl, h.0, ap not reverted, refused),
                            capped-snoc per_tx total result h.1,
                          )
                  ]
                ])
        ]

ok-injective : {A E : Type 0} {x y : A} → ◌≡◌ {A = Result A E} (ok x) (ok y) → x ≡ y
ok-injective h = cc

-- a bundle that did not succeed pays nothing
abbrev pub IsPaid : Bool → U256 → Type 0
IsPaid true payment = Unit
IsPaid false payment = payment ≡ 0

-- what a result says of a bundle of `n` transactions
abbrev pub IsVerdict : {R : Type 0} → RevertPolicy → ℕ → BundleResult R → Type 0
IsVerdict policy n r =
    Ended policy n r.per_tx r.succeeded
    × (r.gas_used ≡ capped (gas_sum r.per_tx))
    × (saturating_add_u64 r.successful_tx_gas r.reverted_tx_gas ≡ r.gas_used)
    × IsPaid r.succeeded r.coinbase_payment

module _ {Config E J C T R : Type 0} (evm : Evm Config E J C T R) where
  length-build_all :
      (txs : List (BundleTx Config)) (envs : List T)
      → build_all evm txs ≡ ok envs
      → length envs ≡ length txs
  unfolding build_all
  length-build_all [] envs h = let same : [] ≡ envs = ground (arith, h) in ap length (sym same)
  length-build_all (tx ∷ txs) envs h = elim (Result-cases (evm.build_tx tx)) [
    | inr (e, error) ↦ absurd (ground (arith, h, error))
    | inl (env, built) ↦ elim (Result-cases (build_all evm txs)) [
      | inr (e, error) ↦ absurd (ground (arith, h, built, error))
      | inl (rest, all) ↦
          let same : env ∷ rest ≡ envs = ground (arith, h, built, all) in
          ap length (sym same) ∙ ap suc (length-build_all txs rest all)
    ]
  ]

  finish-IsVerdict :
      (opts : BundleOptions) (outer : C) (beneficiary : Address) (pre : U256) (n : ℕ)
      (looped : Looped E J R) (r : BundleResult R)
      → LoopedWell evm opts.revert_policy n looped
      → (finish evm opts outer beneficiary pre looped).1 ≡ ok r
      → IsVerdict opts.revert_policy n r
  unfolding finish
  finish-IsVerdict opts outer beneficiary pre n (failed j e) r well h = absurd (ground (arith, h))
  finish-IsVerdict opts outer beneficiary pre n (ended j per_tx total true) r (shape, gas) h =
      subst (IsVerdict opts.revert_policy n) (ok-injective h)
        (shape, gas, parts_of per_tx ∙ sym gas, refl)
  finish-IsVerdict opts outer beneficiary pre n (ended j per_tx total false) r (shape, gas) h =
      subst (IsVerdict opts.revert_policy n) (ok-injective h)
        (shape, gas, parts_of per_tx ∙ sym gas, tt)

  simulate_from-IsVerdict :
      (opts : BundleOptions) (beneficiary : Address) (pre : U256) (envs : List T) (o : EvmOverlay E)
      (r : BundleResult R)
      → (simulate_from evm opts beneficiary pre envs o).1 ≡ ok r
      → IsVerdict opts.revert_policy (length envs) r
  unfolding simulate_from Collected
  simulate_from-IsVerdict opts beneficiary pre envs o r h =
      let start = evm.checkpoint (evm.build_evm o) in
      finish-IsVerdict opts start.1 beneficiary pre (length envs)
        (bundle_loop evm opts.revert_policy start.1 0 envs start.0 [] 0) r
        (bundle_loop-LoopedWell evm opts.revert_policy start.1 envs (length envs) start.0 [] 0
          (refl, refl) (omega arith))
        h

  -- A bundle that returns a result either succeeded, with an outcome for each transaction, each
  -- reverted one at an index that the policy allows, or it ended with the first revert at an index
  -- that the policy does not allow, and pays nothing. Its gas is the sum of the outcomes' gas, up to
  -- the largest u64, and the gas of the successful and of the reverted ones, added up to the largest
  -- u64 too, is the same.
  pub simulate_bundle-IsVerdict :
      (o : EvmOverlay E) (coinbase : Option Address) (txs : List (BundleTx Config))
      (opts : BundleOptions) (r : BundleResult R)
      → (simulate_bundle evm o coinbase txs opts).1 ≡ ok r
      → IsVerdict opts.revert_policy (length txs) r
  unfolding simulate_bundle
  simulate_bundle-IsVerdict o coinbase txs opts r = elim (Result-cases (build_all evm txs)) [
    | inr (e, error) ↦ rw (error, simulate_bundle) (λ h. absurd (ground (arith, h)))
    | inl (envs, built) ↦
        let beneficiary = get_or coinbase evm.default_beneficiary in
        let read = basic o beneficiary in
        elim (Result-cases read.1) [
          | inr (e, error) ↦ rw (built, simulate_bundle, error) (λ h. absurd (ground (arith, h)))
          | inl (found, fetched) ↦
              rw (built, simulate_bundle, fetched)
                (λ h.
                  subst (λ n. IsVerdict opts.revert_policy n r) (length-build_all txs envs built)
                    (simulate_from-IsVerdict opts beneficiary (balance_or_zero evm found) envs
                      read.0 r h))
        ]
  ]
