-- ===== src/Reactive/Snapshot.antt =====
-- src/reactive/mod.rs: `validate_canonical_sequence_snapshot`.
use evm_fork_cache.Prelude.{
  ℕ, ◌-◌, Bool, true, false, not, ◌&&◌, ◌||◌, Option, none, some, List, [], ◌∷◌, ◌==◌, ltb,
  is_empty, if◌then◌else◌,
}
use evm_fork_cache.Prelude.Eq.{nat_eq}
use evm_fork_cache.Prelude.Map.{Map, get, insert}
use evm_fork_cache.Word.{B256}
use evm_fork_cache.Reactive.{
  BlockRef, CanonicalSequenceState, is_next, names_other, are_compatible, enrich_block_ref,
  is_none_or, find_by, known_blocks,
}
use evm_fork_cache.Reactive.Checks.{
  validate_sequence_known_identity, validate_sequence_head_within_coverage,
  validate_adjacent_finality, validate_coverage_descends_from_adjacent_head,
}

-- The maps that the first loop of `validate_known_parent_hash_heights` builds.
pub record KnownHeights : Type 0 where
  pub heights_by_hash : Map B256 ℕ
  pub resolved_by_height : Map ℕ BlockRef

-- the loop over the supplied blocks
unfoldable pub collect_heights : KnownHeights → List BlockRef → Option KnownHeights
collect_heights known [] = some known
collect_heights known (block ∷ blocks) =
    let resolved = get block.number known.resolved_by_height in
    let next : KnownHeights = record {
      heights_by_hash = insert block.hash block.number known.heights_by_hash;
      resolved_by_height =
          insert block.number (elim resolved [ none ↦ block | some r ↦ enrich_block_ref r block ])
            known.resolved_by_height;
    } in
    let rest = collect_heights next blocks in
    if is_none_or (get block.hash known.heights_by_hash) (λ height. height == block.number)
      && is_none_or resolved (λ r. are_compatible r block)
    then rest
    else none

-- the body of the loop over `resolved_by_height`
unfoldable pub check_child : KnownHeights → BlockRef → Bool
check_child known child = is_none_or child.parent_hash (λ parent_hash.
    is_none_or (get parent_hash known.heights_by_hash) (λ height. is_next height child.number)
    && ((child.number == 0)
        || is_none_or (get (child.number - 1) known.resolved_by_height)
            (λ parent. parent.hash == parent_hash)))

unfoldable pub check_children : KnownHeights → Map ℕ BlockRef → Bool
check_children known [] = true
check_children known ((height, child) ∷ m) = check_child known child && check_children known m

-- `validate_known_parent_hash_heights`
unfoldable pub validate_known_parent_hash_heights : List BlockRef → Bool
validate_known_parent_hash_heights blocks =
    elim (collect_heights (record { heights_by_hash = []; resolved_by_height = [] }) blocks) [
      | none ↦ false
      | some known ↦ check_children known known.resolved_by_height
    ]

-- the loop over the retained history, with its `prior`
unfoldable pub check_history : Option BlockRef → List BlockRef → Bool
check_history prior [] = true
check_history prior (block ∷ blocks) =
    is_none_or prior (λ previous.
      ltb previous.number block.number
      && not (is_next previous.number block.number && names_other block.parent_hash previous.hash))
    && check_history (some block) blocks

abbrev pub or_last : Option BlockRef → BlockRef → Option BlockRef
or_last none block = some block
or_last (some last) block = some last

-- `last()`
abbrev pub last_block : List BlockRef → Option BlockRef
last_block [] = none
last_block (block ∷ blocks) = or_last (last_block blocks) block

-- the checks of the coverage head
unfoldable pub check_coverage : List BlockRef → Option BlockRef → Bool
check_coverage history none = is_empty history
check_coverage history (some head) =
    is_none_or (find_by (λ entry. entry.number == head.number) history)
      (λ retained. are_compatible retained head)
    && is_none_or (last_block history) (λ retained.
      not (ltb head.number retained.number)
      && not (is_next retained.number head.number && names_other head.parent_hash retained.hash))

-- the checks of the safe head, and those of the finalized head
unfoldable pub check_head : CanonicalSequenceState → BlockRef → Bool
check_head state head =
    validate_sequence_known_identity state head
    && (validate_sequence_head_within_coverage state head
        && validate_coverage_descends_from_adjacent_head state.coverage_head head)

-- the last check
unfoldable pub check_finality : Option BlockRef → Option BlockRef → Bool
check_finality none safe = true
check_finality (some finalized) none = true
check_finality (some finalized) (some safe) = not (
    ltb safe.number finalized.number
    || ((finalized.number == safe.number) && not (finalized.hash == safe.hash)))

-- `validate_canonical_sequence_snapshot`, and `CanonicalSequenceState::validate`
unfoldable pub validate_canonical_sequence_snapshot : CanonicalSequenceState → Bool
validate_canonical_sequence_snapshot state =
    validate_known_parent_hash_heights (known_blocks state)
    && (check_history none state.retained_canonical_history
        && (check_coverage state.retained_canonical_history state.coverage_head
            && (is_none_or state.safe_head (check_head state)
                && (is_none_or state.finalized_head (check_head state)
                    && (validate_adjacent_finality state.finalized_head state.safe_head
                        && check_finality state.finalized_head state.safe_head)))))
