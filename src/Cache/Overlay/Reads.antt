-- ===== src/Cache/Overlay/Reads.antt =====
-- src/cache/overlay.rs: reads of an overlay do not disturb each other, and reads over a snapshot are
-- those of the cache that the snapshot was taken of.
use evm_fork_cache.Prelude.{
  Option-cases, if◌then◌else◌, ℕ, subst, ◌≡◌, refl, sym, ◌∙◌, Bool, false, true, ◌&&◌, none, some,
  List, [], ◌∷◌, ◌==◌, arith, All, is_some, get_or, inl, inr, Bool-cases,
}
use evm_fork_cache.Prelude.Eq.{nat_eq, pair_eq}
use evm_fork_cache.Prelude.Map.{Map, get, insert, get-insert}
use evm_fork_cache.Prelude.Set.{contains, add}
use evm_fork_cache.Word.{Address, U256, B256}
use evm_fork_cache.Cache.State.{Bytecode, AccountInfo, EvmCache, Revm}
use evm_fork_cache.Cache.Slots.{entry_insert, backend_value, cached_storage_value}
use evm_fork_cache.Cache.Slots.ReadWrite.{backend_value-entry_insert}
use evm_fork_cache.Cache.Account.{ok}
use evm_fork_cache.Cache.Snapshot.{EvmSnapshot, snapshot, storage_value}
use evm_fork_cache.Cache.Snapshot.History.{Reach}
use evm_fork_cache.Cache.Snapshot.Faithful.{snapshot-IsFaithful}
use evm_fork_cache.Cache.Overlay.{
  SharedBackend, EvmOverlay, Access, new_overlay, basic, code_by_hash, storage, block_hash,
  read_account, read_code, read_slot, read_block_hash, write_slot, write_changes, step, run,
}
use evm_fork_cache.Cache.Overlay.Cases.{
  Leaves, slot_cases, account_cases, code-Leaves, block_hash-Leaves,
}

module _ {E : Type 0} where
  -- the reads of both overlays have the same results
  abbrev pub Agree : EvmOverlay E → EvmOverlay E → Address → U256 → ℕ → Type 0
  Agree o o' a s n =
      ((storage o' a s).1 ≡ (storage o a s).1)
      × ((basic o' a).1 ≡ (basic o a).1)
      × ((block_hash o' n).1 ≡ (block_hash o n).1)

  Leaves-Agree :
      (o o' : EvmOverlay E) (a : Address) (s : U256) (n : ℕ) → Leaves o o' → Agree o o' a s n
  unfolding storage basic block_hash
  Leaves-Agree o o' a s n (m, flag, same) = rw same (ground arith, ground arith, ground arith)

  with_storage : EvmOverlay E → Map Address (Map U256 U256) → EvmOverlay E
  with_storage o m = record o { dirty_storage = m }

  with_storage-keeps :
      (o : EvmOverlay E) (m : Map Address (Map U256 U256)) (a : Address) (n : ℕ)
      → ((basic (with_storage o m) a).1 ≡ (basic o a).1)
        × ((block_hash (with_storage o m) n).1 ≡ (block_hash o n).1)
  unfolding with_storage basic block_hash
  with_storage-keeps o m a n = (ground arith, ground arith)

  fetched_here :
      (o : EvmOverlay E) (b : Address) (t v : U256) (db : SharedBackend E)
      → backend_value o.dirty_storage b t ≡ none
      → storage_value o.snapshot b t ≡ none
      → o.ext_db ≡ some db
      → db.storage_ref b t ≡ ok v
      → (storage (with_storage o (entry_insert b t v o.dirty_storage)) b t).1 ≡ (storage o b t).1
  unfolding with_storage storage
  fetched_here o b t v db clean unknown online fetched =
      ground (
        arith,
        backend_value-entry_insert o.dirty_storage b b t t v,
        clean,
        unknown,
        online,
        fetched,
      )

  fetched_there :
      (o : EvmOverlay E) (b : Address) (t v : U256) (a : Address) (s : U256)
      → ((b == a) && (t == s)) ≡ false
      → (storage (with_storage o (entry_insert b t v o.dirty_storage)) a s).1 ≡ (storage o a s).1
  unfolding with_storage storage
  fetched_there o b t v a s other =
      ground (arith, backend_value-entry_insert o.dirty_storage b a t s v, other)

  slot-Agree :
      (o : EvmOverlay E) (b : Address) (t : U256) (a : Address) (s : U256) (n : ℕ)
      → Agree o (storage o b t).0 a s n
  unfolding with_storage
  slot-Agree o b t a s n = elim (slot_cases o b t) [
    | inl leaves ↦ Leaves-Agree o (storage o b t).0 a s n leaves
    | inr (v, db, clean, unknown, online, fetched, same) ↦
        let o' = with_storage o (entry_insert b t v o.dirty_storage) in
        let (account, hash) = with_storage-keeps o (entry_insert b t v o.dirty_storage) a n in
        let slot : (storage o' a s).1 ≡ (storage o a s).1 =
          elim (Bool-cases ((b == a) && (t == s))) [
            | inl here ↦
                let same_address : b ≡ a = ground arith in
                let same_slot : t ≡ s = ground arith in
                subst (λ x. (storage o' x s).1 ≡ (storage o x s).1) same_address
                  (subst (λ y. (storage o' b y).1 ≡ (storage o b y).1) same_slot
                    (fetched_here o b t v db clean unknown online fetched))
            | inr other ↦ fetched_there o b t v a s other
          ] in
        subst (λ x. Agree o x a s n) (sym same) (slot, account, hash)
  ]

  with_account-keeps :
      (o : EvmOverlay E) (m : Map Address AccountInfo) (a : Address) (s : U256) (n : ℕ)
      → ((storage (record o { dirty_accounts = m }) a s).1 ≡ (storage o a s).1)
        × ((block_hash (record o { dirty_accounts = m }) n).1 ≡ (block_hash o n).1)
  unfolding storage block_hash
  with_account-keeps o m a s n = (ground arith, ground arith)

  account-Agree :
      (o : EvmOverlay E) (b a : Address) (s : U256) (n : ℕ) → Agree o (basic o b).0 a s n
  unfolding basic
  account-Agree o b a s n = elim (account_cases o b) [
    | inl leaves ↦ Leaves-Agree o (basic o b).0 a s n leaves
    | inr (i, db, clean, there, unknown, online, fetched, same) ↦
        let o' : EvmOverlay E = record o { dirty_accounts = insert b i o.dirty_accounts } in
        let (slot, hash) = with_account-keeps o (insert b i o.dirty_accounts) a s n in
        let account : (basic o' a).1 ≡ (basic o a).1 = elim (Bool-cases (b == a)) [
          | inl here ↦
              let same_address : b ≡ a = ground arith in
              subst (λ x. (basic o' x).1 ≡ (basic o x).1) same_address
                (ground (
                  arith,
                  clean,
                  there,
                  unknown,
                  online,
                  fetched,
                  get-insert b b i o.dirty_accounts,
                ))
          | inr other ↦ ground (arith, other, get-insert b a i o.dirty_accounts)
        ] in
        subst (λ x. Agree o x a s n) (sym same) (slot, account, hash)
  ]

-- an access that is a read
abbrev pub is_read : Access → Bool
is_read (read_account a) = true
is_read (read_code h) = true
is_read (read_slot a s) = true
is_read (read_block_hash n) = true
is_read (write_slot a s v) = false
is_read (write_changes changes) = false

module _ {E : Type 0} (default_code : Bytecode) where
  step-Agree :
      (o : EvmOverlay E) (x : Access) (a : Address) (s : U256) (n : ℕ)
      → is_read x ≡ true
      → Agree o (step default_code o x) a s n
  step-Agree o (read_account b) a s n h = account-Agree o b a s n
  step-Agree o (read_code c) a s n h =
      Leaves-Agree o (code_by_hash default_code o c).0 a s n (code-Leaves default_code o c)
  step-Agree o (read_slot b t) a s n h = slot-Agree o b t a s n
  step-Agree o (read_block_hash m) a s n h =
      Leaves-Agree o (block_hash o m).0 a s n (block_hash-Leaves o m)
  step-Agree o _ a s n h = cc

  -- Reads of accounts, code, slots and block hashes, in any order, whether the external database
  -- answers or fails, leave the result of every later read of a slot, an account or a block hash as
  -- it was.
  pub run-Agree :
      (o : EvmOverlay E) (xs : List Access) (a : Address) (s : U256) (n : ℕ)
      → All (λ x. is_read x ≡ true) xs
      → Agree o (run default_code o xs) a s n
  run-Agree o [] a s n h = (refl, refl, refl)
  run-Agree o (x ∷ xs) a s n h =
      let (slot, account, hash) = step-Agree o x a s n h.0 in
      let (slots, accounts, hashes) = run-Agree (step default_code o x) xs a s n h.1 in
      (slots ∙ slot, accounts ∙ account, hashes ∙ hash)

-- A new overlay without an external database, over the snapshot of a cache with any history, reads
-- each slot as the cache reads it, an uncached one as zero, and its report then names exactly that
-- slot, and nothing else, where it is uncached, and nothing where it is cached.
pub storage-cached :
    {E : Type 0} (revm : Revm) (c : EvmCache) (snap : EvmSnapshot) (hashes : Map ℕ B256)
    (a : Address) (s : U256)
    → Reach revm c
    → (snapshot c).1 ≡ some snap
    → let r = storage {E = E} (new_overlay snap hashes none) a s in
      let cached = cached_storage_value c.layers a s in
      (r.1 ≡ ok (get_or cached 0))
      × (r.0.missing_state ≡ record {
        accounts = [];
        code_hashes = [];
        missing_storage = if is_some cached then [] else (a, s) ∷ [];
        block_hashes = [];
      })
unfolding storage new_overlay backend_value get add contains
storage-cached revm c snap hashes a s reach taken =
    let (faithful_snap, made, values, accounts) = snapshot-IsFaithful revm c reach in
    let same : faithful_snap ≡ snap = ground (arith, made, taken) in
    let value : storage_value snap a s ≡ cached_storage_value c.layers a s =
      subst (λ x. storage_value x a s ≡ cached_storage_value c.layers a s) same (values a s) in
    elim (Option-cases (cached_storage_value c.layers a s)) [
      | inl cold ↦ (ground (arith, value, cold), ground (arith, value, cold))
      | inr (v, hot) ↦ (ground (arith, value, hot), ground (arith, value, hot))
    ]
