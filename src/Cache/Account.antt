-- ===== src/Cache/Account.antt =====
-- src/cache/mod.rs: reads and writes of an account's info through the two layers.
use evm_fork_cache.Prelude.{
  ℕ, Bool, ◌&&◌, not, Option, none, some, ◌==◌, if◌then◌else◌, then_some, is_none, get_or,
}
use evm_fork_cache.Prelude.Eq.{nat_eq}
use evm_fork_cache.Prelude.Map.{get, insert, update, contains_key, map_option}
use evm_fork_cache.Word.{Address, U256}
use evm_fork_cache.StateUpdate.{SlotDelta, AccountPatch, apply as apply_delta}
use evm_fork_cache.StateUpdate.Diff.{AccountChange, SkippedBalanceDelta, SkippedAccountPatch}
use evm_fork_cache.Cache.State.{AccountInfo, Layers, Revm, is_not_existing}
use evm_fork_cache.Cache.Slots.{mark_base_dirty}

-- `std::result::Result`
pub data Result {ℓ κ} (A : Type ℓ) (E : Type κ) : Type (ℓ ⊔ κ) where
  ok : A → Result A E
  err : E → Result A E

-- a change of one field, if it changed
unfoldable pub field_change : ℕ → ℕ → Option (ℕ × ℕ)
field_change old new = then_some (not (old == new)) (old, new)

-- `account_patch_is_empty`
unfoldable pub account_patch_is_empty : AccountPatch → Bool
account_patch_is_empty p = is_none p.balance && (is_none p.nonce && is_none p.code)

-- the balance-only `AccountChange`, if the balance changed
unfoldable pub balance_change : Address → U256 → U256 → Option AccountChange
balance_change a old new =
    then_some (not (old == new))
      (record { address = a; balance = some (old, new); nonce = none; code_hash = none })

module _ (revm : Revm) where
  -- a zero code hash denotes empty code
  unfoldable pub normalize_code_hash : AccountInfo → AccountInfo
  normalize_code_hash i = if i.code_hash == 0 then record i { code_hash = revm.keccak_empty } else i

  -- `EvmCache::loaded_account_info`
  unfoldable pub loaded_account_info : Layers → Address → Option AccountInfo
  loaded_account_info l a = elim (get a l.overlay) [
    | none ↦ map_option normalize_code_hash (get a l.accounts)
    | some d ↦ if is_not_existing d.account_state then none else some (normalize_code_hash d.info)
  ]

  -- `EvmCache::write_account_info_through`
  unfoldable pub write_account_info_through : Layers → Address → AccountInfo → Layers
  write_account_info_through l a i =
      let info = normalize_code_hash i in
      let overlay_present = contains_key a l.overlay in
      let backend = record l { accounts = insert a info l.accounts } in
      let both =
        if overlay_present
        then record backend { overlay = update a (λ d. revm.insert_info d info) l.overlay }
        else backend in
      mark_base_dirty both a

  -- `EvmCache::modify_account_balance`
  unfoldable pub modify_account_balance :
      Layers → Address → (Option U256 → Option U256) → Layers × Option AccountChange
  modify_account_balance l a f =
      let base = loaded_account_info l a in
      elim (f (map_option (λ i. i.balance) base)) [
        | none ↦ (l, none)
        | some new_balance ↦
            let info = get_or base revm.default_info in
            (
              write_account_info_through l a (record info { balance = new_balance }),
              balance_change a info.balance new_balance,
            )
      ]

  -- `EvmCache::apply_balance_delta`
  unfoldable pub apply_balance_delta :
      Layers → Address → SlotDelta → Layers × Result (Option AccountChange) SkippedBalanceDelta
  apply_balance_delta l a delta = elim (loaded_account_info l a) [
    | none ↦ (l, err (record { address = a; delta = delta }))
    | some info ↦
        let new_balance = apply_delta delta info.balance in
        (
          write_account_info_through l a (record info { balance = new_balance }),
          ok (balance_change a info.balance new_balance),
        )
  ]

  -- the `if let Some(…) = patch.…` steps of `apply_account_patch`
  unfoldable pub patch_balance : AccountPatch → AccountInfo → AccountInfo
  patch_balance p i = elim p.balance [ none ↦ i | some v ↦ record i { balance = v } ]

  unfoldable pub patch_nonce : AccountPatch → AccountInfo → AccountInfo
  patch_nonce p i = elim p.nonce [ none ↦ i | some v ↦ record i { nonce = v } ]

  unfoldable pub patch_code : AccountPatch → AccountInfo → AccountInfo
  patch_code p i = elim p.code [
    | none ↦ i
    | some code ↦
        let bytecode = revm.new_raw code in
        record i { code_hash = revm.hash_slow bytecode; code = some bytecode }
  ]

  unfoldable pub patch_info : AccountPatch → AccountInfo → AccountInfo
  patch_info p i = patch_code p (patch_nonce p (patch_balance p i))

  -- the change that a patch makes of an info
  unfoldable pub info_change : Address → AccountInfo → AccountInfo → AccountChange
  info_change a old new = record {
    address = a;
    balance = field_change old.balance new.balance;
    nonce = field_change old.nonce new.nonce;
    code_hash = field_change old.code_hash new.code_hash;
  }

  unfoldable pub is_no_change : AccountChange → Bool
  is_no_change c = is_none c.balance && (is_none c.nonce && is_none c.code_hash)

  -- steps 2 to 4 of `apply_account_patch`
  unfoldable pub patch_loaded :
      Layers → Address → AccountPatch → AccountInfo → Layers × Option AccountChange
  patch_loaded l a p old =
      let new = patch_info p old in
      let change = info_change a old new in
      if is_no_change change then (l, none) else (write_account_info_through l a new, some change)

  abbrev pub lift_ok :
      Layers × Option AccountChange → Layers × Result (Option AccountChange) SkippedAccountPatch
  lift_ok r = (r.0, ok r.1)

  -- `EvmCache::apply_account_patch`
  unfoldable pub apply_account_patch :
      Layers
      → Address
      → AccountPatch
      → Bool
      → Layers × Result (Option AccountChange) SkippedAccountPatch
  apply_account_patch l a p allow_cold_upsert = elim (loaded_account_info l a) [
    | some info ↦ lift_ok (patch_loaded l a p info)
    | none ↦
        if account_patch_is_empty p
        then (l, ok none)
        else if allow_cold_upsert
        then lift_ok (patch_loaded l a p revm.default_info)
        else (l, err (record { address = a; patch = p }))
  ]
