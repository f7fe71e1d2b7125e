-- ===== src/Cache/Snapshot/Effects.antt =====
-- What each mutation, and a lazy fetch of the backend, does to the memoized base.
use evm_fork_cache.Prelude.{
  ℕ, zero, suc, length, ◌≡◌, refl, sym, subst, ◌∙◌, inl, inr, Option, none, some, List, [], ◌∷◌,
  arith, ◌==◌, Bool-cases, get_or,
}
use evm_fork_cache.Prelude.Eq.{nat_eq}
use evm_fork_cache.Prelude.Map.{len, get, insert, get-insert, len-insert_new}
use evm_fork_cache.Word.{Address, U256}
use evm_fork_cache.StateUpdate.{StateUpdate}
use evm_fork_cache.Cache.State.{
  AccountInfo, Layers, EvmCache, Revm, BaseState, bump_snapshot_generation,
}
use evm_fork_cache.Cache.Slots.{entry_insert}
use evm_fork_cache.Cache.Apply.{apply_arm, apply_update}
use evm_fork_cache.StateUpdate.Diff.{StateDiff, empty_diff, merge}
use evm_fork_cache.Cache.Batch.{is_slot_write, after_run, updates_loop, apply_updates}
use evm_fork_cache.Cache.Batch.Sequential.{sequential}
use evm_fork_cache.Cache.Snapshot.Keys.{IsKeyed, apply_arm-IsKeyed}
use evm_fork_cache.Cache.Snapshot.Coherent.{
  Slots, Tracks, absent, unseen, grown, same, read, BaseTracks, IsCoherent,
}
use evm_fork_cache.Cache.Snapshot.Mutations.{
  MarkedAt, Marked, Marked-refl, Marked-trans, apply_arm-Marked,
}

-- Marked changes of layer 2, with the memo left alone, keep it coherent.
Marked-BaseTracks :
    (c d : EvmCache) (b : BaseState) (a : Address)
    → d.base_storage_lens ≡ c.base_storage_lens
    → MarkedAt c.layers d.layers a
    → BaseTracks c b a
    → BaseTracks d b a
Marked-BaseTracks c d b a lens (inl dirty) t = inl dirty
Marked-BaseTracks c d b a lens (inr kept) (inl dirty) = inl (kept.0 ∙ dirty)
Marked-BaseTracks c d b a lens (inr kept) (inr t) = inr (simp (lens, kept.1, kept.2) t)

pub Marked-IsCoherent :
    (c d : EvmCache)
    → d.base ≡ c.base
    → d.base_full_rebuild ≡ c.base_full_rebuild
    → d.base_storage_lens ≡ c.base_storage_lens
    → Marked c.layers d.layers
    → IsCoherent c
    → IsCoherent d
Marked-IsCoherent c d base full lens m (inl rebuild) = inl (full ∙ rebuild)
Marked-IsCoherent c d base full lens m (inr tracks) =
    inr (λ b e a. Marked-BaseTracks c d b a lens (m a) (tracks b (sym base ∙ e) a))

-- A lazy fetch answers from the store what is there, and inserts only what is not.
unfoldable pub fetch_slot : EvmCache → Address → U256 → U256 → EvmCache
fetch_slot c a s v = record c {
  layers = record (c.layers) { storage = entry_insert a s v c.storage };
}

unfoldable pub fetch_account : EvmCache → Address → AccountInfo → EvmCache
fetch_account c a i = record c { layers = record (c.layers) { accounts = insert a i c.accounts } }

longer :
    (s v : U256) (current : Option Slots) (slots : Slots)
    → current ≡ some slots
    → read current s ≡ none
    → len (insert s v (get_or current [])) ≡ suc (len slots)
longer s v current slots r new = rw r (len-insert_new s v slots (rw r at new))

fetched_Tracks :
    (s v : U256) (built : Option Slots) (count : Option ℕ) (current : Option Slots)
    → read current s ≡ none
    → Tracks built count current
    → Tracks built count (some (insert s v (get_or current [])))
fetched_Tracks s v built count current new (absent p q r) = unseen _ q refl
fetched_Tracks s v built count current new (unseen slots q r) = unseen _ q refl
fetched_Tracks s v built count current new (grown slots k q r l) =
    grown _ k q refl (omega (arith, longer s v current slots r new))
fetched_Tracks s v built count current new (same slots old k p q r l e) =
    grown _ k q refl (omega (arith, longer s v current slots r new))

pub fetch_slot-BaseTracks :
    (c : EvmCache) (b : BaseState) (a d : Address) (s v : U256)
    → read (get a c.storage) s ≡ none
    → BaseTracks c b d
    → BaseTracks (fetch_slot c a s v) b d
unfolding fetch_slot entry_insert
fetch_slot-BaseTracks c b a d s v new (inl dirty) = inl dirty
fetch_slot-BaseTracks c b a d s v new (inr (t, ta)) = elim (Bool-cases (a == d)) [
  | inl here ↦
      let e : a ≡ d = ground arith in
      inr (
        rw (get-insert a d (insert s v (get_or (get a c.storage) [])) c.storage, here)
            (fetched_Tracks s v (get d b.storage) (get d c.base_storage_lens) (get a c.storage) new
              (subst (λ x. Tracks (get d b.storage) (get d c.base_storage_lens) (get x c.storage))
                (sym e) t)),
        ta,
      )
  | inr other ↦
      inr (rw (get-insert a d (insert s v (get_or (get a c.storage) [])) c.storage, other) t, ta)
]

pub fetch_account-BaseTracks :
    (c : EvmCache) (b : BaseState) (a d : Address) (i : AccountInfo)
    → get a c.accounts ≡ none
    → BaseTracks c b d
    → BaseTracks (fetch_account c a i) b d
unfolding fetch_account
fetch_account-BaseTracks c b a d i new (inl dirty) = inl dirty
fetch_account-BaseTracks c b a d i new (inr (t, ta)) =
    inr (t, ground (arith, get-insert a d i c.accounts))

-- Updates leave the memo alone.
abbrev pub SameMemo : EvmCache → EvmCache → Type 0
SameMemo c d =
    (d.base ≡ c.base)
    × (d.base_full_rebuild ≡ c.base_full_rebuild)
    × (d.base_storage_lens ≡ c.base_storage_lens)

updates_loop-SameMemo :
    (revm : Revm) (fuel : ℕ) (c : EvmCache) (us : List StateUpdate) (diff : StateDiff)
    → SameMemo c (updates_loop revm fuel c us diff).0
unfolding updates_loop apply_update bump_snapshot_generation
updates_loop-SameMemo revm fuel c [] diff = (refl, refl, refl)
updates_loop-SameMemo revm zero c (u ∷ us) diff = (refl, refl, refl)
updates_loop-SameMemo revm (suc fuel) c (u ∷ us) diff = elim (Bool-cases (is_slot_write u)) [
  | inl write ↦ rw write (updates_loop-SameMemo revm fuel _ (after_run (u ∷ us)) _)
  | inr single ↦ rw single (updates_loop-SameMemo revm fuel _ us _)
]

pub apply_updates-SameMemo :
    (revm : Revm) (c : EvmCache) (us : List StateUpdate) → SameMemo c (apply_updates revm c us).0
unfolding apply_updates bump_snapshot_generation
apply_updates-SameMemo revm c [] = updates_loop-SameMemo revm 0 c [] empty_diff
apply_updates-SameMemo revm c (u ∷ us) =
    updates_loop-SameMemo revm (length (u ∷ us)) _ (u ∷ us) empty_diff

pub sequential-Marked :
    (revm : Revm) (l : Layers) (us : List StateUpdate) (diff : StateDiff)
    → Marked l (sequential revm l us diff).0
sequential-Marked revm l [] diff = Marked-refl l
sequential-Marked revm l (u ∷ us) diff =
    Marked-trans l (apply_arm revm l u).0
      (sequential revm (apply_arm revm l u).0 us (merge diff (apply_arm revm l u).1)).0
      (apply_arm-Marked revm l u)
      (sequential-Marked revm (apply_arm revm l u).0 us (merge diff (apply_arm revm l u).1))

pub sequential-IsKeyed :
    (revm : Revm) (l : Layers) (us : List StateUpdate) (diff : StateDiff)
    → IsKeyed l
    → IsKeyed (sequential revm l us diff).0
sequential-IsKeyed revm l [] diff k = k
sequential-IsKeyed revm l (u ∷ us) diff k =
    sequential-IsKeyed revm (apply_arm revm l u).0 us (merge diff (apply_arm revm l u).1)
      (apply_arm-IsKeyed revm l u k)
