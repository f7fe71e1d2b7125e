-- ===== src/Reactive/Wellformed.antt =====
-- What a snapshot that passes `validate` satisfies, and that accepted controls keep it of the heads.
use evm_fork_cache.Prelude.{
  ℕ, ◌+◌, ◌^◌, ◌≤◌, ◌<◌, ◌≡◌, subst, inl, inr, true, not, ◌&&◌, Option, none, some, List, [], ◌∷◌,
  arith, All, ltb, is_empty, Option-cases,
}
use evm_fork_cache.Word.{B256}
use evm_fork_cache.Reactive.{BlockRef, CanonicalSequenceState, is_next, names_other, is_none_or}
use evm_fork_cache.Reactive.Checks.{validate_sequence_head_within_coverage}
use evm_fork_cache.Reactive.Snapshot.{
  check_history, or_last, last_block, check_coverage, check_head, check_finality,
  validate_canonical_sequence_snapshot,
}

-- The first block is at or below the height of a block that is there.
abbrev pub Behind : Option BlockRef → Option BlockRef → Type 0
Behind none ahead = Unit
Behind (some block) ahead = (head : BlockRef) × (ahead ≡ some head) × (block.number ≤ head.number)

-- Where both are there, the first is not above the second.
abbrev pub NotAbove : Option BlockRef → Option BlockRef → Type 0
NotAbove none safe = Unit
NotAbove (some block) none = Unit
NotAbove (some block) (some safe) = block.number ≤ safe.number

-- Finality is not above safety, and both are covered.
pub record HeadsOrdered (s : CanonicalSequenceState) : Type 0 where
  pub safe_covered : Behind s.safe_head s.coverage_head
  pub finalized_covered : Behind s.finalized_head s.coverage_head
  pub finalized_safe : NotAbove s.finalized_head s.safe_head

-- Numbers ascend, and a block right above its predecessor names no other parent.
abbrev pub Linked : Option BlockRef → List BlockRef → Type 0
Linked prior [] = Unit
Linked none (block ∷ blocks) = Linked (some block) blocks
Linked (some previous) (block ∷ blocks) =
    (previous.number < block.number)
    × (previous.number + 1 ≡ block.number
        → (parent : B256) → block.parent_hash ≡ some parent
        → parent ≡ previous.hash)
    × Linked (some block) blocks

pub record Wellformed (s : CanonicalSequenceState) : Type 0 where
  pub linked : Linked none s.retained_canonical_history
  pub covered :
      (head : BlockRef)
      → s.coverage_head ≡ some head
      → All (λ entry. entry.number ≤ head.number) s.retained_canonical_history
  pub uncovered : s.coverage_head ≡ none → is_empty s.retained_canonical_history ≡ true
  pub heads : HeadsOrdered s

abbrev pub SmallBlocks : List BlockRef → Type 0
SmallBlocks blocks = All (λ block. block.number < 2 ^ 64) blocks

linked_step :
    (previous block : BlockRef)
    → block.number < 2 ^ 64
    → (ltb previous.number block.number
        && not
            (is_next previous.number block.number && names_other block.parent_hash previous.hash))
      ≡ true
    → (previous.number < block.number)
      × (previous.number + 1 ≡ block.number
          → (parent : B256) → block.parent_hash ≡ some parent
          → parent ≡ previous.hash)
unfolding is_next names_other
linked_step previous block small h = (ground arith, λ e parent p. ground arith)

check_history-Linked :
    (prior : Option BlockRef) (blocks : List BlockRef)
    → SmallBlocks blocks
    → check_history prior blocks ≡ true
    → Linked prior blocks
unfolding check_history
check_history-Linked prior [] small h = tt
check_history-Linked none (block ∷ blocks) small h =
    check_history-Linked (some block) blocks small.1 h
check_history-Linked (some previous) (block ∷ blocks) small h =
    let step = linked_step previous block small.0 (ground arith) in
    (step.0, step.1, check_history-Linked (some block) blocks small.1 (ground arith))

-- every entry is at or below the last
below_last :
    (previous : BlockRef) (blocks : List BlockRef) (n : ℕ)
    → Linked (some previous) blocks
    → is_none_or (last_block (previous ∷ blocks)) (λ last. not (ltb n last.number)) ≡ true
    → All (λ entry. entry.number ≤ n) (previous ∷ blocks)
below_last previous [] n linked h = (ground arith, tt)
below_last previous (block ∷ blocks) n (lt, parent, linked) h =
    let rest = below_last block blocks n linked (last_again (last_block blocks) h) in
    (omega (arith, lt, rest.0), rest)
  where
    last_again :
        (o : Option BlockRef)
        → is_none_or (or_last (or_last o block) previous) (λ last. not (ltb n last.number)) ≡ true
        → is_none_or (or_last o block) (λ last. not (ltb n last.number)) ≡ true
    last_again none h = h
    last_again (some b) h = h

coverage-All :
    (history : List BlockRef) (head : BlockRef)
    → Linked none history
    → check_coverage history (some head) ≡ true
    → All (λ entry. entry.number ≤ head.number) history
unfolding check_coverage
coverage-All [] head linked h = tt
coverage-All (block ∷ blocks) head linked h =
    below_last block blocks head.number linked (ground arith)

pub within_coverage :
    (s : CanonicalSequenceState) (block : BlockRef)
    → validate_sequence_head_within_coverage s block ≡ true
    → Behind (some block) s.coverage_head
unfolding validate_sequence_head_within_coverage
within_coverage s block h = elim (Option-cases s.coverage_head) [
  | inl uncovered ↦ absurd (ground arith)
  | inr (head, covered) ↦ (head, covered, ground arith)
]

checked_Behind :
    (s : CanonicalSequenceState) (o : Option BlockRef)
    → is_none_or o (check_head s) ≡ true
    → Behind o s.coverage_head
unfolding check_head
checked_Behind s none h = tt
checked_Behind s (some block) h = within_coverage s block (ground arith)

checked_NotAbove :
    (finalized safe : Option BlockRef)
    → check_finality finalized safe ≡ true
    → NotAbove finalized safe
unfolding check_finality
checked_NotAbove none safe h = tt
checked_NotAbove (some block) none h = tt
checked_NotAbove (some block) (some safe) h = ground arith

covered_All :
    (s : CanonicalSequenceState) (head : BlockRef)
    → s.coverage_head ≡ some head
    → check_coverage s.retained_canonical_history s.coverage_head ≡ true
    → check_coverage s.retained_canonical_history (some head) ≡ true
covered_All s head e h = subst (λ o. check_coverage s.retained_canonical_history o ≡ true) e h

uncovered_empty :
    (s : CanonicalSequenceState)
    → s.coverage_head ≡ none
    → check_coverage s.retained_canonical_history s.coverage_head ≡ true
    → is_empty s.retained_canonical_history ≡ true
unfolding check_coverage
uncovered_empty s e h = ground arith

-- A snapshot with `u64` block numbers that passes `validate` has ascending retained history, in which a block right above
-- its predecessor names no other parent, and which coverage covers; and finality is not above
-- safety, and both are covered.
pub validate_canonical_sequence_snapshot-Wellformed :
    (s : CanonicalSequenceState)
    → SmallBlocks s.retained_canonical_history
    → validate_canonical_sequence_snapshot s ≡ true
    → Wellformed s
unfolding validate_canonical_sequence_snapshot
validate_canonical_sequence_snapshot-Wellformed s small h =
    let linked = check_history-Linked none s.retained_canonical_history small (ground arith) in
    record {
      linked = linked;
      covered = λ head e.
          coverage-All s.retained_canonical_history head linked
            (covered_All s head e (ground arith));
      uncovered = λ e. uncovered_empty s e (ground arith);
      heads = record {
        safe_covered = checked_Behind s s.safe_head (ground arith);
        finalized_covered = checked_Behind s s.finalized_head (ground arith);
        finalized_safe = checked_NotAbove s.finalized_head s.safe_head (ground arith);
      };
    }
