-- ===== src/Cache/Overlay/Cases.antt =====
-- src/cache/overlay.rs: what one read does to the overlay: it reports at most, or it caches what the
-- external database has.
use evm_fork_cache.Prelude.{
  ℕ, ◌≡◌, ◌⊎◌, refl, ap, ◌∙◌, Bool, false, true, none, some, arith, inl, inr, Bool-cases,
  Option-cases,
}
use evm_fork_cache.Prelude.Eq.{nat_eq, pair_eq}
use evm_fork_cache.Prelude.Map.{get, insert}
use evm_fork_cache.Prelude.Set.{contains, add}
use evm_fork_cache.Word.{Address, U256, B256}
use evm_fork_cache.Cache.State.{Bytecode, AccountInfo}
use evm_fork_cache.Cache.Slots.{entry_insert, backend_value}
use evm_fork_cache.Cache.Account.{Result, ok, err}
use evm_fork_cache.Cache.Snapshot.{storage_value, account_info, code}
use evm_fork_cache.Cache.Overlay.{
  SharedBackend, MissingState, EvmOverlay, basic, code_by_hash, dirty_code, storage, block_hash,
}

pub Result-cases {ℓ κ} :
    {A : Type ℓ} {E : Type κ} (r : Result A E) → ((a : A) × (r ≡ ok a)) ⊎ ((e : E) × (r ≡ err e))
Result-cases (ok a) = inl (a, refl)
Result-cases (err e) = inr (e, refl)

module _ {E : Type 0} where
  -- a read of a slot reports it or caches what the external database has
  abbrev pub Fetches : EvmOverlay E → Address → U256 → Type 0
  Fetches o b t =
      (v : U256) × (db : SharedBackend E) × (backend_value o.dirty_storage b t ≡ none)
      × (storage_value o.snapshot b t ≡ none)
      × (o.ext_db ≡ some db)
      × (db.storage_ref b t ≡ ok v)
      × ((storage o b t).0 ≡ record o { dirty_storage = entry_insert b t v o.dirty_storage })

  abbrev pub Leaves : EvmOverlay E → EvmOverlay E → Type 0
  Leaves o o' =
      (m : MissingState) × (flag : Bool) × (o'
        ≡ record o { missing_state = m; blockhash_zero_fallback = flag })

  pub slot_cases :
      (o : EvmOverlay E) (b : Address) (t : U256) → Leaves o (storage o b t).0 ⊎ Fetches o b t
  unfolding storage
  slot_cases o b t = elim (Option-cases (backend_value o.dirty_storage b t)) [
    | inr (v, dirty) ↦ inl (o.missing_state, o.blockhash_zero_fallback, ground (arith, dirty))
    | inl clean ↦ elim (Option-cases (storage_value o.snapshot b t)) [
      | inr (v, known) ↦
          inl (o.missing_state, o.blockhash_zero_fallback, ground (arith, clean, known))
      | inl unknown ↦ elim (Option-cases o.ext_db) [
        | inl offline ↦ inl (
          record (o.missing_state) { missing_storage = add (b, t) o.missing_state.missing_storage },
          o.blockhash_zero_fallback,
          ground (arith, clean, unknown, offline),
        )
        | inr (db, online) ↦ elim (Result-cases (db.storage_ref b t)) [
          | inl (v, fetched) ↦ inr (
            v,
            db,
            clean,
            unknown,
            online,
            fetched,
            ground (arith, clean, unknown, online, fetched),
          )
          | inr (e, failed) ↦ inl (
            o.missing_state,
            o.blockhash_zero_fallback,
            ground (arith, clean, unknown, online, failed),
          )
        ]
      ]
    ]
  ]

  -- a read of an account, likewise
  abbrev pub FetchesAccount : EvmOverlay E → Address → Type 0
  FetchesAccount o b =
      (i : AccountInfo) × (db : SharedBackend E) × (get b o.dirty_accounts ≡ none)
      × (contains b o.snapshot.accounts_not_existing ≡ false)
      × (account_info o.snapshot b ≡ none)
      × (o.ext_db ≡ some db)
      × (db.basic_ref b ≡ ok (some i))
      × ((basic o b).0 ≡ record o { dirty_accounts = insert b i o.dirty_accounts })

  pub account_cases : (o : EvmOverlay E) (b : Address) → Leaves o (basic o b).0 ⊎ FetchesAccount o b
  unfolding basic
  account_cases o b = elim (Option-cases (get b o.dirty_accounts)) [
    | inr (i, dirty) ↦ inl (o.missing_state, o.blockhash_zero_fallback, ground (arith, dirty))
    | inl clean ↦ elim (Bool-cases (contains b o.snapshot.accounts_not_existing)) [
      | inl gone ↦ inl (o.missing_state, o.blockhash_zero_fallback, ground (arith, clean, gone))
      | inr there ↦ elim (Option-cases (account_info o.snapshot b)) [
        | inr (i, known) ↦
            inl (o.missing_state, o.blockhash_zero_fallback, ground (arith, clean, there, known))
        | inl unknown ↦ elim (Option-cases o.ext_db) [
          | inl offline ↦ inl (
            record (o.missing_state) { accounts = add b o.missing_state.accounts },
            o.blockhash_zero_fallback,
            ground (arith, clean, there, unknown, offline),
          )
          | inr (db, online) ↦ elim (Result-cases (db.basic_ref b)) [
            | inr (e, failed) ↦ inl (
              o.missing_state,
              o.blockhash_zero_fallback,
              ground (arith, clean, there, unknown, online, failed),
            )
            | inl (found, fetched) ↦ elim (Option-cases found) [
              | inl nobody ↦ inl (
                o.missing_state,
                o.blockhash_zero_fallback,
                ground (arith, clean, there, unknown, online, fetched, nobody),
              )
              | inr (i, somebody) ↦ inr (
                i,
                db,
                clean,
                there,
                unknown,
                online,
                fetched ∙ ap ok somebody,
                ground (arith, clean, there, unknown, online, fetched, somebody),
              )
            ]
          ]
        ]
      ]
    ]
  ]

  pub code-Leaves :
      (default_code : Bytecode) (o : EvmOverlay E) (h : B256)
      → Leaves o (code_by_hash default_code o h).0
  unfolding code_by_hash
  code-Leaves default_code o h = elim (Option-cases (dirty_code h o.dirty_accounts)) [
    | inr (found, dirty) ↦ (o.missing_state, o.blockhash_zero_fallback, ground (arith, dirty))
    | inl clean ↦ elim (Option-cases (code o.snapshot h)) [
      | inr (found, known) ↦
          (o.missing_state, o.blockhash_zero_fallback, ground (arith, clean, known))
      | inl unknown ↦ elim (Option-cases o.ext_db) [
        | inr (db, online) ↦
            (o.missing_state, o.blockhash_zero_fallback, ground (arith, clean, unknown, online))
        | inl offline ↦ (
          record (o.missing_state) { code_hashes = add h o.missing_state.code_hashes },
          o.blockhash_zero_fallback,
          ground (arith, clean, unknown, offline),
        )
      ]
    ]
  ]

  pub block_hash-Leaves : (o : EvmOverlay E) (n : ℕ) → Leaves o (block_hash o n).0
  unfolding block_hash
  block_hash-Leaves o n = elim (Option-cases (get n o.snapshot_block_hashes)) [
    | inr (hash, known) ↦ (o.missing_state, o.blockhash_zero_fallback, ground (arith, known))
    | inl unknown ↦ elim (Option-cases o.ext_db) [
      | inr (db, online) ↦
          (o.missing_state, o.blockhash_zero_fallback, ground (arith, unknown, online))
      | inl offline ↦ (
        record (o.missing_state) { block_hashes = add n o.missing_state.block_hashes },
        true,
        ground (arith, unknown, offline),
      )
    ]
  ]
