-- ===== src/StateUpdate/Merge.antt =====
-- Laws of `StateDiff::merge` and of the counts and tests of a diff.
use evm_fork_cache.Prelude.{
  ◌+◌, ◌≡◌, ◌↔◌, true, List, [], ◌∷◌, arith, length, length-append, append_assoc, append-nil,
  is_empty as list_is_empty,
}
use evm_fork_cache.StateUpdate.Diff.{
  StateDiff, empty_diff, is_empty, len, skipped_len, is_fully_applied, merge,
}

pub merge_assoc : (a b c : StateDiff) → merge (merge a b) c ≡ merge a (merge b c)
unfolding merge
merge_assoc a b c = simp append_assoc

pub merge_empty : (a : StateDiff) → merge a empty_diff ≡ a
unfolding merge
merge_empty a = simp append-nil

len-merge : (a b : StateDiff) → len (merge a b) ≡ len a + len b
unfolding merge len
len-merge a b = omega (
  arith,
  length-append a.slots b.slots,
  length-append a.accounts b.accounts,
  length-append a.purged b.purged,
)

skipped_len-merge : (a b : StateDiff) → skipped_len (merge a b) ≡ skipped_len a + skipped_len b
unfolding merge skipped_len
skipped_len-merge a b = omega (
  arith,
  length-append a.skipped b.skipped,
  length-append a.skipped_balances b.skipped_balances,
  length-append a.skipped_masks b.skipped_masks,
  length-append a.skipped_accounts b.skipped_accounts,
)

is_empty_iff {ℓ} : {A : Type ℓ} (xs : List A) → (list_is_empty xs ≡ true) ↔ (length xs ≡ 0)
is_empty_iff [] = ground arith
is_empty_iff (x ∷ xs) = ground arith

is_empty-len : (a : StateDiff) → (is_empty a ≡ true) ↔ (len a ≡ 0)
unfolding is_empty len
is_empty-len a =
    ground (arith, is_empty_iff a.slots, is_empty_iff a.accounts, is_empty_iff a.purged)

is_fully_applied-skipped_len : (a : StateDiff) → (is_fully_applied a ≡ true) ↔ (skipped_len a ≡ 0)
unfolding is_fully_applied skipped_len
is_fully_applied-skipped_len a = ground (
  arith,
  is_empty_iff a.skipped,
  is_empty_iff a.skipped_balances,
  is_empty_iff a.skipped_masks,
  is_empty_iff a.skipped_accounts,
)

-- A diff is empty exactly when it counts no change, is fully applied exactly when it counts no
-- skip, and merging adds up both counts.
pub merge_counts :
    (a b : StateDiff)
    → (len (merge a b) ≡ len a + len b)
      × (skipped_len (merge a b) ≡ skipped_len a + skipped_len b)
      × ((is_empty a ≡ true) ↔ (len a ≡ 0))
      × ((is_fully_applied a ≡ true) ↔ (skipped_len a ≡ 0))
merge_counts a b =
    (len-merge a b, skipped_len-merge a b, is_empty-len a, is_fully_applied-skipped_len a)
