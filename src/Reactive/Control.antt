-- ===== src/Reactive/Control.antt =====
-- src/reactive/mod.rs: `validate_sequence_control`, and the change that an accepted control makes.
use evm_fork_cache.Prelude.{
  Bool, true, false, not, ◌&&◌, ◌||◌, Option, none, some, List, [], ◌∷◌, ◌++◌, ◌==◌, ltb, is_none,
}
use evm_fork_cache.Reactive.{
  BlockRef, ChainControl, CanonicalSequenceState, is_next, names_other, names, are_compatible,
  is_none_or, known_blocks,
}
use evm_fork_cache.Reactive.Checks.{
  validate_sequence_known_identity, validate_sequence_head_within_coverage,
  validate_sequence_known_hash_height, validate_sequence_known_parent_height,
  validate_ancestor_loop, validate_sequence_adjacent_parent_identity, validate_adjacent_finality,
}
use evm_fork_cache.Reactive.Canonical.{
  SequenceRewind, set_or_enrich_block_ref, apply_sequence_canonical_block,
}

-- `block` is not below `current`, nor another block at its height
unfoldable pub not_behind : BlockRef → BlockRef → Bool
not_behind block current = not (
    ltb block.number current.number
    || ((block.number == current.number) && not (block.hash == current.hash)))

-- the same, and at its height with compatible metadata
unfoldable pub not_behind_compatible : BlockRef → BlockRef → Bool
not_behind_compatible block current = not (
    ltb block.number current.number
    || ((block.number == current.number)
        && (not (block.hash == current.hash) || not (are_compatible block current))))

unfoldable pub validate_safe : CanonicalSequenceState → BlockRef → Bool
validate_safe state block =
    validate_sequence_known_identity state block
    && (validate_sequence_head_within_coverage state block
        && (is_none_or state.safe_head (not_behind_compatible block)
            && (is_none_or state.finalized_head (not_behind block)
                && validate_adjacent_finality state.finalized_head (some block))))

unfoldable pub validate_finalized : CanonicalSequenceState → BlockRef → Bool
validate_finalized state block =
    validate_sequence_known_identity state block
    && (validate_sequence_head_within_coverage state block
        && (is_none_or state.finalized_head (not_behind_compatible block)
            && (is_none_or state.safe_head (λ safe. not_behind safe block)
                && validate_adjacent_finality (some block) state.safe_head)))

unfoldable pub validate_progress : CanonicalSequenceState → BlockRef → Bool
validate_progress state block =
    validate_sequence_known_identity state block
    && (is_none_or state.coverage_head (not_behind block)
        && is_none_or state.coverage_head (λ current.
          not (is_next current.number block.number && names_other block.parent_hash current.hash)))

unfoldable pub validate_log_coverage : CanonicalSequenceState → BlockRef → Bool
validate_log_coverage state block =
    validate_sequence_known_identity state block
    && (is_none_or state.log_coverage_head (not_behind block)
        && is_none_or state.coverage_head (λ coverage. not (ltb coverage.number block.number)))

-- a tip right above the ancestor names it as its parent
unfoldable pub tip_descends : BlockRef → BlockRef → Bool
tip_descends ancestor tip =
    not (is_next ancestor.number tip.number && not (names tip.parent_hash ancestor.hash))

unfoldable pub validate_reorg : CanonicalSequenceState → BlockRef → BlockRef → BlockRef → Bool
validate_reorg state common_ancestor old_tip new_tip =
    validate_sequence_known_identity state common_ancestor
    && (validate_ancestor_loop common_ancestor (known_blocks state)
        && (validate_sequence_known_hash_height state old_tip
            && (validate_sequence_known_hash_height state new_tip
                && (validate_sequence_known_parent_height state old_tip
                    && (validate_sequence_known_parent_height state new_tip
                        && (validate_sequence_adjacent_parent_identity state old_tip
                            && (is_none_or state.coverage_head (λ current.
                                  (old_tip.number == current.number)
                                  && ((old_tip.hash == current.hash)
                                      && are_compatible old_tip current))
                                && (not (
                                      ltb old_tip.number common_ancestor.number
                                      || ltb new_tip.number common_ancestor.number)
                                    && (not (
                                          (common_ancestor.number == old_tip.number)
                                          || (common_ancestor.number == new_tip.number))
                                        && (not (
                                              (old_tip.number == new_tip.number)
                                              && (old_tip.hash == new_tip.hash))
                                            && (tip_descends common_ancestor old_tip
                                                && (tip_descends common_ancestor new_tip
                                                    && is_none_or state.finalized_head
                                                        (not_behind common_ancestor)))))))))))))

-- `validate_sequence_control`
unfoldable pub validate_sequence_control : CanonicalSequenceState → ChainControl → Bool
validate_sequence_control state (ChainControl.safe block) = validate_safe state block
validate_sequence_control state (ChainControl.finalized block) = validate_finalized state block
validate_sequence_control state (ChainControl.canonical_progress block) =
    validate_progress state block
validate_sequence_control state (ChainControl.barrier id (some block)) =
    validate_progress state block
validate_sequence_control state (ChainControl.barrier id none) = true
validate_sequence_control state (ChainControl.log_coverage block) =
    validate_log_coverage state block
validate_sequence_control state (ChainControl.reorg common_ancestor old_tip new_tip) =
    validate_reorg state common_ancestor old_tip new_tip

-- `enum CanonicalSequenceMutation`
pub data CanonicalSequenceMutation : Type 0 where
  rewind : SequenceRewind → CanonicalSequenceMutation
  canonical : BlockRef → CanonicalSequenceMutation
  safe_update : BlockRef → CanonicalSequenceMutation
  finalized_update : BlockRef → CanonicalSequenceMutation
  log_coverage_update : BlockRef → CanonicalSequenceMutation

abbrev pub head_mutation :
    (BlockRef → CanonicalSequenceMutation) → Option BlockRef → List CanonicalSequenceMutation
head_mutation f none = []
head_mutation f (some head) = f head ∷ []

abbrev rewind_mutation : Option SequenceRewind → List CanonicalSequenceMutation
rewind_mutation none = []
rewind_mutation (some r) = rewind r ∷ []

abbrev pub Accepted : Type 0
Accepted = Option (CanonicalSequenceState × List CanonicalSequenceMutation)

-- the arm of canonical coverage, while no reorg anchor is pending
unfoldable pub accept_progress : CanonicalSequenceState → BlockRef → Accepted
accept_progress state block =
    let allow =
      is_none block.parent_hash
      && elim state.coverage_head [ none ↦ false | some head ↦ is_next head.number block.number ] in
    elim (apply_sequence_canonical_block state block allow) [
      | none ↦ none
      | some r ↦ some (r.0, rewind_mutation r.1 ++ canonical block ∷ [])
    ]

-- The `match` on an accepted control of `validate_canonical_sequence_parts`, while no reorg anchor is
-- pending. The phases exclude a reorg control here, which is `none`.
unfoldable pub install_control : CanonicalSequenceState → ChainControl → Accepted
install_control state (ChainControl.safe block) =
    let head = set_or_enrich_block_ref state.safe_head block in
    some (record state { safe_head = head }, head_mutation safe_update head)
install_control state (ChainControl.finalized block) =
    let head = set_or_enrich_block_ref state.finalized_head block in
    some (record state { finalized_head = head }, head_mutation finalized_update head)
install_control state (ChainControl.canonical_progress block) = accept_progress state block
install_control state (ChainControl.barrier id (some block)) = accept_progress state block
install_control state (ChainControl.barrier id none) = some (state, [])
install_control state (ChainControl.log_coverage block) =
    let head = set_or_enrich_block_ref state.log_coverage_head block in
    some (record state { log_coverage_head = head }, head_mutation log_coverage_update head)
install_control state (ChainControl.reorg common_ancestor old_tip new_tip) = none
