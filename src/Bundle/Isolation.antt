-- ===== src/Bundle/Isolation.antt =====
-- src/cache/overlay.rs: a bundle that is not committed leaves the overlay as it reads.
use evm_fork_cache.Prelude.{
  ℕ, subst, suc, ◌≡◌, ◌⊎◌, refl, sym, ap, ◌∙◌, true, false, Option, List, [], ◌∷◌, ◌++◌, arith, All,
  All-append, get_or, inl, inr, Bool-cases,
}
use evm_fork_cache.Word.{Address, U256}
use evm_fork_cache.Cache.State.{Bytecode}
use evm_fork_cache.Cache.Account.{Result, ok}
use evm_fork_cache.Cache.Overlay.{EvmOverlay, Access, read_account, basic, step, run}
use evm_fork_cache.Cache.Overlay.Reads.{Agree, is_read, run-Agree}
use evm_fork_cache.Cache.Overlay.Cases.{Result-cases}
use evm_fork_cache.Bundle.{
  BundleTx, RevertPolicy, BundleOptions, TxOutcome, BundleResult, SimHostError, Evm,
  saturating_add_u64, allowed, Looped, failed, ended, build_all, outcome_of, bundle_loop, finish,
  balance_or_zero, simulate_from, simulate_bundle,
}

module _ {E : Type 0} (default_code : Bytecode) where
  -- the second overlay is the first after some reads
  abbrev pub ReadsOf : EvmOverlay E → EvmOverlay E → Type 0
  ReadsOf o o' = (xs : List Access) × All (λ x. is_read x ≡ true) xs × (o' ≡ run default_code o xs)

  run-append :
      (o : EvmOverlay E) (xs ys : List Access)
      → run default_code o (xs ++ ys) ≡ run default_code (run default_code o xs) ys
  run-append o [] ys = refl
  run-append o (x ∷ xs) ys = run-append (step default_code o x) xs ys

  ReadsOf-refl : (o o' : EvmOverlay E) → o' ≡ o → ReadsOf o o'
  ReadsOf-refl o o' same = ([], tt, same)

  ReadsOf-trans : (o p q : EvmOverlay E) → ReadsOf o p → ReadsOf p q → ReadsOf o q
  ReadsOf-trans o p q (xs, all_xs, first) (ys, all_ys, second) = (
    xs ++ ys,
    All-append (λ x. is_read x ≡ true) xs ys all_xs all_ys,
    second ∙ ap (λ r. run default_code r ys) first ∙ sym (run-append o xs ys),
  )

  ReadsOf-Agree :
      (o o' : EvmOverlay E) (a : Address) (s : U256) (n : ℕ) → ReadsOf o o' → Agree o o' a s n
  ReadsOf-Agree o o' a s n (xs, all, same) =
      subst (λ p. Agree o p a s n) (sym same) (run-Agree default_code o xs a s n all)

-- revm's database access: the journal buffers what a transaction writes, so that the database under
-- it is only read.
pub record OnlyReads {Config E J C T R : Type 0} (evm : Evm Config E J C T R)
    (default_code : Bytecode) : Type 0 where
  pub build-database : (o : EvmOverlay E) → evm.database_of (evm.build_evm o) ≡ o
  pub checkpoint-database : (j : J) → evm.database_of (evm.checkpoint j).0 ≡ evm.database_of j
  pub revert-database :
      (j : J) (c : C) → evm.database_of (evm.checkpoint_revert j c) ≡ evm.database_of j
  pub transact-database :
      (j : J) (t : T)
      → ReadsOf default_code (evm.database_of j) (evm.database_of (evm.transact_one j t).0)

module _ {Config E J C T R : Type 0} (evm : Evm Config E J C T R) (default_code : Bytecode)
    (reads : OnlyReads evm default_code) where
  abbrev Reached : EvmOverlay E → J → Type 0
  Reached o j = ReadsOf default_code o (evm.database_of j)

  Reached-same :
      (o : EvmOverlay E) (j j' : J)
      → evm.database_of j' ≡ evm.database_of j
      → Reached o j
      → Reached o j'
  Reached-same o j j' same (xs, all, here) = (xs, all, same ∙ here)

  Reached-revert :
      (o : EvmOverlay E) (j : J) (c : C) → Reached o j → Reached o (evm.checkpoint_revert j c)
  Reached-revert o j c h =
      Reached-same o j (evm.checkpoint_revert j c) (reads.revert-database j c) h

  -- one transaction, from its checkpoint on
  Reached-transact :
      (o : EvmOverlay E) (j : J) (t : T)
      → Reached o j
      → Reached o (evm.transact_one (evm.checkpoint j).0 t).0
  Reached-transact o j t h =
      let started = (evm.checkpoint j).0 in
      ReadsOf-trans default_code o (evm.database_of started)
        (evm.database_of (evm.transact_one started t).0)
        (Reached-same o j started (reads.checkpoint-database j) h)
        (reads.transact-database started t)

  LoopReached : EvmOverlay E → Looped E J R → Type 0
  LoopReached o (failed j e) = Reached o j
  LoopReached o (ended j per_tx total aborted) = Reached o j

  bundle_loop-LoopReached :
      (policy : RevertPolicy) (outer : C) (o : EvmOverlay E) (idx : ℕ) (envs : List T) (j : J)
      (per_tx : List (TxOutcome R)) (total : ℕ)
      → Reached o j
      → LoopReached o (bundle_loop evm policy outer idx envs j per_tx total)
  unfolding bundle_loop LoopReached
  bundle_loop-LoopReached policy outer o idx [] j per_tx total h = h
  bundle_loop-LoopReached policy outer o idx (env ∷ envs) j per_tx total h =
      let start = evm.checkpoint j in
      let ran = (evm.transact_one start.0 env).0 in
      let here = Reached-transact o j env h in
      elim (Result-cases (evm.transact_one start.0 env).1) [
        | inr (e, error) ↦
            rw (error, bundle_loop)
              (Reached-revert o (evm.checkpoint_revert ran start.1) outer
                (Reached-revert o ran start.1 here))
        | inl (result, done) ↦
            let outcomes = per_tx ++ outcome_of evm result ∷ [] in
            let gas = saturating_add_u64 total (evm.gas_of result) in
            rw (done, bundle_loop)
              (elim (Bool-cases (evm.is_success result)) [
                | inl fine ↦
                    rw fine
                      (bundle_loop-LoopReached policy outer o (suc idx) envs ran outcomes gas here)
                | inr reverted ↦ elim (Bool-cases (allowed policy idx)) [
                  | inl forgiven ↦
                      rw (reverted, forgiven)
                        (bundle_loop-LoopReached policy outer o (suc idx) envs
                          (evm.checkpoint_revert ran start.1) outcomes gas
                          (Reached-revert o ran start.1 here))
                  | inr refused ↦ rw (reverted, refused) (Reached-revert o ran outer here)
                ]
              ])
      ]

  -- nothing is to be committed, or no bundle that succeeded is returned
  abbrev pub KeepsNothing : BundleOptions → Result (BundleResult R) (SimHostError E) → Type 0
  KeepsNothing opts answer =
      (opts.commit_state ≡ false) ⊎ ((r : BundleResult R) → answer ≡ ok r → r.succeeded ≡ false)

  finish-Reached :
      (opts : BundleOptions) (outer : C) (beneficiary : Address) (pre : U256) (o : EvmOverlay E)
      (looped : Looped E J R)
      → LoopReached o looped
      → KeepsNothing opts (finish evm opts outer beneficiary pre looped).1
      → ReadsOf default_code o (finish evm opts outer beneficiary pre looped).0
  unfolding finish LoopReached
  finish-Reached opts outer beneficiary pre o (failed j e) h keep = h
  finish-Reached opts outer beneficiary pre o (ended j per_tx total true) h keep = h
  finish-Reached opts outer beneficiary pre o (ended j per_tx total false) h (inl evaluate) =
      rw evaluate (Reached-revert o j outer h)
  finish-Reached opts outer beneficiary pre o (ended j per_tx total false) h (inr none_kept) =
      let contradiction : true ≡ false = none_kept _ refl in absurd (ground (arith, contradiction))

  simulate_from-Reached :
      (opts : BundleOptions) (beneficiary : Address) (pre : U256) (envs : List T) (o : EvmOverlay E)
      → KeepsNothing opts (simulate_from evm opts beneficiary pre envs o).1
      → ReadsOf default_code o (simulate_from evm opts beneficiary pre envs o).0
  unfolding simulate_from LoopReached
  simulate_from-Reached opts beneficiary pre envs o keep =
      let built = evm.build_evm o in
      let start = evm.checkpoint built in
      let fresh =
        Reached-same o built start.0 (reads.checkpoint-database built)
          (ReadsOf-refl default_code o (evm.database_of built) (reads.build-database o)) in
      finish-Reached opts start.1 beneficiary pre o
        (bundle_loop evm opts.revert_policy start.1 0 envs start.0 [] 0)
        (bundle_loop-LoopReached opts.revert_policy start.1 o 0 envs start.0 [] 0 fresh) keep

  simulate_bundle-Reached :
      (o : EvmOverlay E) (coinbase : Option Address) (txs : List (BundleTx Config))
      (opts : BundleOptions)
      → KeepsNothing opts (simulate_bundle evm o coinbase txs opts).1
      → ReadsOf default_code o (simulate_bundle evm o coinbase txs opts).0
  unfolding simulate_bundle
  simulate_bundle-Reached o coinbase txs opts = elim (Result-cases (build_all evm txs)) [
    | inr (e, error) ↦ rw (error, simulate_bundle) (λ keep. ReadsOf-refl default_code o o refl)
    | inl (envs, built) ↦
        let beneficiary = get_or coinbase evm.default_beneficiary in
        let read = basic o beneficiary in
        let first : ReadsOf default_code o read.0 =
          (read_account beneficiary ∷ [], (refl, tt), refl) in
        elim (Result-cases read.1) [
          | inr (e, error) ↦ rw (built, simulate_bundle, error) (λ keep. first)
          | inl (found, fetched) ↦
              rw (built, simulate_bundle, fetched)
                (λ keep.
                  ReadsOf-trans default_code o read.0
                    (simulate_from evm opts beneficiary (balance_or_zero evm found) envs read.0).0
                    first
                    (simulate_from-Reached opts beneficiary (balance_or_zero evm found) envs read.0
                      keep))
        ]
  ]

  -- Where revm only reads the database under its journal, a bundle that is not to be committed, or
  -- that fails or does not succeed, leaves every slot, account and block hash of the overlay as it
  -- reads, whatever state it fetched.
  pub simulate_bundle-Agree :
      (o : EvmOverlay E) (coinbase : Option Address) (txs : List (BundleTx Config))
      (opts : BundleOptions) (a : Address) (s : U256) (n : ℕ)
      → KeepsNothing opts (simulate_bundle evm o coinbase txs opts).1
      → Agree o (simulate_bundle evm o coinbase txs opts).0 a s n
  simulate_bundle-Agree o coinbase txs opts a s n keep =
      ReadsOf-Agree default_code o (simulate_bundle evm o coinbase txs opts).0 a s n
        (simulate_bundle-Reached o coinbase txs opts keep)
