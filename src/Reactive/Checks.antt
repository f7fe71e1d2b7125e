-- ===== src/Reactive/Checks.antt =====
-- src/reactive/mod.rs: the checks of one block reference against the canonical state.
use evm_fork_cache.Prelude.{
  ◌+◌, Bool, true, false, not, ◌&&◌, ◌||◌, Option, none, some, List, [], ◌∷◌, ◌==◌, ltb,
  if◌then◌else◌,
}
use evm_fork_cache.Reactive.{
  BlockRef, CanonicalSequenceState, is_next, names_other, names, are_compatible, is_none_or,
  find_by, known_blocks,
}

-- `validate_sequence_known_hash_height`
unfoldable pub validate_sequence_known_hash_height : CanonicalSequenceState → BlockRef → Bool
validate_sequence_known_hash_height state block =
    is_none_or (find_by (λ known. known.hash == block.hash) (known_blocks state))
      (λ known. known.number == block.number)

-- `validate_sequence_known_parent_height`
unfoldable pub validate_sequence_known_parent_height : CanonicalSequenceState → BlockRef → Bool
validate_sequence_known_parent_height state block = is_none_or block.parent_hash (λ parent.
    is_none_or (find_by (λ known. known.hash == parent) (known_blocks state))
      (λ known. is_next known.number block.number))

-- the coverage head if it is at the block's height, else the retained entry there
unfoldable pub known_at : CanonicalSequenceState → BlockRef → Option BlockRef
known_at state block =
    let retained =
      find_by (λ entry. entry.number == block.number) state.retained_canonical_history in
    elim state.coverage_head [
      | none ↦ retained
      | some head ↦ if head.number == block.number then some head else retained
    ]

-- `validate_sequence_known_identity`
unfoldable pub validate_sequence_known_identity : CanonicalSequenceState → BlockRef → Bool
validate_sequence_known_identity state block =
    validate_sequence_known_hash_height state block
    && (validate_sequence_known_parent_height state block
        && is_none_or (known_at state block) (λ known. are_compatible known block))

-- `validate_sequence_head_within_coverage`
unfoldable pub validate_sequence_head_within_coverage : CanonicalSequenceState → BlockRef → Bool
validate_sequence_head_within_coverage state block = elim state.coverage_head [
  | none ↦ false
  | some coverage ↦ not (
      ltb coverage.number block.number
      || ((block.number == coverage.number) && not (are_compatible block coverage)))
]

-- `validate_reorg_ancestor_against_retained_branch`
unfoldable pub validate_ancestor_loop : BlockRef → List BlockRef → Bool
validate_ancestor_loop ancestor [] = true
validate_ancestor_loop ancestor (retained ∷ blocks) =
    not (is_next ancestor.number retained.number && names_other retained.parent_hash ancestor.hash)
    && (not (
          names retained.parent_hash ancestor.hash && not (is_next ancestor.number retained.number))
        && validate_ancestor_loop ancestor blocks)

-- `validate_sequence_adjacent_parent_identity`
unfoldable pub validate_sequence_adjacent_parent_identity : CanonicalSequenceState → BlockRef → Bool
validate_sequence_adjacent_parent_identity state block = is_none_or block.parent_hash (λ parent.
    (block.number == 0)
    || is_none_or (find_by (λ known. known.number + 1 == block.number) (known_blocks state))
        (λ known. known.hash == parent))

-- `validate_adjacent_finality`
unfoldable pub validate_adjacent_finality : Option BlockRef → Option BlockRef → Bool
validate_adjacent_finality none safe = true
validate_adjacent_finality (some finalized) none = true
validate_adjacent_finality (some finalized) (some safe) =
    not (is_next finalized.number safe.number && not (names safe.parent_hash finalized.hash))

-- `validate_coverage_descends_from_adjacent_head`
unfoldable pub validate_coverage_descends_from_adjacent_head : Option BlockRef → BlockRef → Bool
validate_coverage_descends_from_adjacent_head none head = true
validate_coverage_descends_from_adjacent_head (some coverage) head =
    not (is_next head.number coverage.number && names_other coverage.parent_hash head.hash)
