-- ===== src/Cache/Apply/Accounts.antt =====
-- What an account reads as after a write of its info, and what the relative updates skip.
use evm_fork_cache.Prelude.{
  ℕ, ◌≡◌, ◌∙◌, inl, inr, Bool, true, some, arith, Option-cases, Bool-cases, get_or,
}
use evm_fork_cache.Prelude.Eq.{nat_eq}
use evm_fork_cache.Prelude.Map.{get, get-insert, get-update}
use evm_fork_cache.Word.{Address}
use evm_fork_cache.StateUpdate.{StateUpdate, SlotDelta, AccountPatch, apply as apply_delta}
use evm_fork_cache.Cache.State.{AccountInfo, Layers, Revm}
use evm_fork_cache.Cache.Slots.{mark_base_dirty}
use evm_fork_cache.Cache.Account.{
  normalize_code_hash, loaded_account_info, write_account_info_through, apply_balance_delta,
  apply_account_patch, patch_loaded, patch_info, patch_balance, patch_nonce, patch_code,
  info_change, is_no_change, field_change,
}
use evm_fork_cache.Cache.Apply.{apply_arm}

-- An account that reads with a balance and a nonce.
pub record HoldsInfo (revm : Revm) (l : Layers) (a : Address) (balance nonce : ℕ) : Type 0 where
  pub info : AccountInfo
  pub loaded : loaded_account_info revm l a ≡ some info
  pub balance_eq : info.balance ≡ balance
  pub nonce_eq : info.nonce ≡ nonce

normalize_keeps :
    (revm : Revm) (i : AccountInfo)
    → ((normalize_code_hash revm i).balance ≡ i.balance)
      × ((normalize_code_hash revm i).nonce ≡ i.nonce)
unfolding normalize_code_hash
normalize_keeps revm i = ground arith

module _ (revm : Revm) where
  -- an info written over one that reads is what reads then
  write-HoldsInfo :
      (l : Layers) (a : Address) (old i : AccountInfo)
      → loaded_account_info revm l a ≡ some old
      → HoldsInfo revm (write_account_info_through revm l a i) a i.balance i.nonce
  unfolding write_account_info_through loaded_account_info mark_base_dirty
  write-HoldsInfo l a old i h = elim (Option-cases (get a l.overlay)) [
    | inl absent ↦
        let n = normalize_code_hash revm i in
        record {
          info = normalize_code_hash revm n;
          loaded = ground (arith, get-insert a a n l.accounts);
          balance_eq = (normalize_keeps revm n).0 ∙ (normalize_keeps revm i).0;
          nonce_eq = (normalize_keeps revm n).1 ∙ (normalize_keeps revm i).1;
        }
    | inr (d, present) ↦
        let n = normalize_code_hash revm i in
        record {
          info = normalize_code_hash revm (revm.insert_info d n).info;
          loaded = ground (
            arith,
            get-update a a (λ d. revm.insert_info d n) l.overlay,
            revm.insert_info-state d n,
          );
          balance_eq =
              (normalize_keeps revm (revm.insert_info d n).info).0
              ∙ revm.insert_info-balance d n
              ∙ (normalize_keeps revm i).0;
          nonce_eq =
              (normalize_keeps revm (revm.insert_info d n).info).1
              ∙ revm.insert_info-nonce d n
              ∙ (normalize_keeps revm i).1;
        }
  ]

  -- A relative balance update of a known account leaves the saturated sum or difference, and the
  -- nonce.
  pub apply_balance_delta-HoldsInfo :
      (l : Layers) (a : Address) (d : SlotDelta) (old : AccountInfo)
      → loaded_account_info revm l a ≡ some old
      → HoldsInfo revm
          (apply_arm revm l (StateUpdate.balance_delta a d)).0
          a
          (apply_delta d old.balance)
          old.nonce
  unfolding apply_arm apply_balance_delta
  apply_balance_delta-HoldsInfo l a d old h =
      rw (h, apply_balance_delta)
        (write-HoldsInfo l a old (record old { balance = apply_delta d old.balance }) h)

  patched :
      (p : AccountPatch) (i : AccountInfo)
      → ((patch_info revm p i).balance ≡ get_or p.balance i.balance)
        × ((patch_info revm p i).nonce ≡ get_or p.nonce i.nonce)
  unfolding patch_info patch_balance patch_nonce patch_code
  patched p i = ground arith

  no_change_keeps :
      (a : Address) (old new : AccountInfo)
      → is_no_change revm (info_change revm a old new) ≡ true
      → (old.balance ≡ new.balance) × (old.nonce ≡ new.nonce)
  unfolding is_no_change info_change field_change
  no_change_keeps a old new h = ground arith

  patch_loaded-HoldsInfo :
      (l : Layers) (a : Address) (p : AccountPatch) (old : AccountInfo)
      → loaded_account_info revm l a ≡ some old
      → HoldsInfo revm
          (patch_loaded revm l a p old).0
          a
          (get_or p.balance old.balance)
          (get_or p.nonce old.nonce)
  unfolding patch_loaded
  patch_loaded-HoldsInfo l a p old h =
      let new = patch_info revm p old in
      elim (Bool-cases (is_no_change revm (info_change revm a old new))) [
        | inl same ↦ rw same (record {
          info = old;
          loaded = h;
          balance_eq = (no_change_keeps a old new same).0 ∙ (patched p old).0;
          nonce_eq = (no_change_keeps a old new same).1 ∙ (patched p old).1;
        })
        | inr changed ↦
            let w = write-HoldsInfo l a old new h in
            rw changed (record {
              info = w.info;
              loaded = w.loaded;
              balance_eq = w.balance_eq ∙ (patched p old).0;
              nonce_eq = w.nonce_eq ∙ (patched p old).1;
            })
      ]

  -- A patch of a known account, by either update, leaves the balance and the nonce that it names
  -- and keeps those that it does not.
  pub apply_account_patch-HoldsInfo :
      (l : Layers) (a : Address) (p : AccountPatch) (upsert : Bool) (old : AccountInfo)
      → loaded_account_info revm l a ≡ some old
      → HoldsInfo revm
          (apply_account_patch revm l a p upsert).0
          a
          (get_or p.balance old.balance)
          (get_or p.nonce old.nonce)
  unfolding apply_account_patch
  apply_account_patch-HoldsInfo l a p upsert old h =
      rw (h, apply_account_patch) (patch_loaded-HoldsInfo l a p old h)
