-- ===== src/Tests/Chain.antt =====
-- One run of each result on the canonical chain state.
use evm_fork_cache.Prelude.{◌==◌, ℕ, ◌≡◌, refl, true, false, none, some, [], ◌∷◌, arith}
use evm_fork_cache.Prelude.Map.{get, insert}
use evm_fork_cache.Reactive.Checks.{
  validate_sequence_known_identity, validate_sequence_known_hash_height,
  validate_sequence_known_parent_height, known_at, validate_sequence_head_within_coverage,
  validate_adjacent_finality, validate_coverage_descends_from_adjacent_head,
}
use evm_fork_cache.Reactive.{
  is_next, names_other, names, optional_metadata_compatible, are_compatible, enrich_block_ref,
  BlockRef, ChainControl, CanonicalSequenceState,
}
use evm_fork_cache.Reactive.Snapshot.{
  validate_canonical_sequence_snapshot, validate_known_parent_hash_heights, collect_heights,
  check_child, check_children, check_history, check_coverage, check_head, check_finality,
}
use evm_fork_cache.Reactive.Canonical.{
  must_rewind, install_block, upsert_sequence_history, enrich_entry, insert_sorted, sort_by_number,
  advance_or_enrich_coverage, set_or_enrich_block_ref, split_after_last, split_at_first,
  finalized_parent, rewind_of, rewind_state, clear_sequence_heads_above, clear_head, is_above,
  apply_sequence_canonical_block,
}
use evm_fork_cache.Reactive.Control.{
  validate_progress, not_behind, validate_sequence_control, accept_progress, install_control,
  canonical,
}
use evm_fork_cache.Reactive.Finality.{Advances}
use evm_fork_cache.Reactive.Wellformed.{
  Wellformed, HeadsOrdered, validate_canonical_sequence_snapshot-Wellformed,
}
use evm_fork_cache.Reactive.Accept.{
  Envelope, Turn, accept_control, is_not_removed, chain_control_canonical_assertion,
  assert_chain_control_identities, assert_canonical_block_identity, agrees_with_asserted,
  is_normalized, canonical_coverage_control_block, known_coverage, is_known_coverage,
  sequence_block_adds_metadata, check_and_install, normalized_control,
}
use evm_fork_cache.Prelude.Set.{contains}
use evm_fork_cache.Reactive.Identities.{no_more, Turns-agree}
use evm_fork_cache.Reactive.Ordering.{
  Accepts, done, then_control, Accepts-Advances, Accepts-HeadsOrdered,
}
use evm_fork_cache.Reactive.Retained.{Ascending}
use evm_fork_cache.Reactive.Rewind.{apply_sequence_canonical_block-Ascending}

-- a block whose hash is its number, and whose parent is the block below
abbrev block_at : ℕ → ℕ → BlockRef
block_at parent n = record { number = n; hash = n; parent_hash = some parent; timestamp = none }

abbrev state : CanonicalSequenceState
state = record {
  retained_canonical_history = block_at 9 10 ∷ block_at 10 11 ∷ block_at 11 12 ∷ [];
  coverage_head = some (block_at 11 12);
  safe_head = some (block_at 10 11);
  finalized_head = some (block_at 9 10);
  log_coverage_head = none;
}

state-valid : validate_canonical_sequence_snapshot state ≡ true
unfolding validate_canonical_sequence_snapshot validate_known_parent_hash_heights collect_heights
    check_child check_children check_history check_coverage check_head check_finality
    validate_sequence_known_identity validate_sequence_known_hash_height
    validate_sequence_known_parent_height known_at validate_sequence_head_within_coverage
    validate_adjacent_finality validate_coverage_descends_from_adjacent_head is_next names_other
    names optional_metadata_compatible are_compatible enrich_block_ref get insert
state-valid = refl

validate_canonical_sequence_snapshot-Wellformed_example : Wellformed state
validate_canonical_sequence_snapshot-Wellformed_example =
    validate_canonical_sequence_snapshot-Wellformed state
      (omega arith, (omega arith, (omega arith, tt))) state-valid

abbrev progressed : CanonicalSequenceState
progressed = record state {
  retained_canonical_history =
      block_at 9 10 ∷ block_at 10 11 ∷ block_at 11 12 ∷ block_at 12 13 ∷ [];
  coverage_head = some (block_at 12 13);
}

-- an envelope that removes no block, validated with normalization
abbrev envelope : Envelope
envelope = record {
  removed_assertions = [];
  removed_heights_by_hash = [];
  record_proof_control_identities = [];
  normalizes_coverage = true;
}

-- a repeated block, which is normalized away
repeat-accepted :
    accept_control envelope [] state (ChainControl.canonical_progress (block_at 11 12))
    ≡ some (record {
      asserted_blocks = (12, block_at 11 12) ∷ [];
      state = state;
      mutations = [];
      normalized_chain_controls = [];
    })
unfolding accept_control is_not_removed chain_control_canonical_assertion
    assert_chain_control_identities assert_canonical_block_identity agrees_with_asserted
    is_normalized canonical_coverage_control_block known_coverage is_known_coverage
    sequence_block_adds_metadata are_compatible optional_metadata_compatible normalized_control
    contains get insert
repeat-accepted = refl

progress-accepted :
    accept_control envelope [] state (ChainControl.canonical_progress (block_at 12 13))
    ≡ some (record {
      asserted_blocks = (13, block_at 12 13) ∷ [];
      state = progressed;
      mutations = canonical (block_at 12 13) ∷ [];
      normalized_chain_controls = ChainControl.canonical_progress (block_at 12 13) ∷ [];
    })
unfolding accept_control is_not_removed chain_control_canonical_assertion
    assert_chain_control_identities assert_canonical_block_identity agrees_with_asserted
    is_normalized canonical_coverage_control_block known_coverage is_known_coverage
    sequence_block_adds_metadata check_and_install contains get insert validate_sequence_control
    validate_progress install_control accept_progress not_behind validate_sequence_known_identity
    validate_sequence_known_hash_height validate_sequence_known_parent_height known_at is_next
    names_other names optional_metadata_compatible are_compatible enrich_block_ref
    apply_sequence_canonical_block must_rewind install_block upsert_sequence_history enrich_entry
    insert_sorted sort_by_number advance_or_enrich_coverage
progress-accepted = refl

state-HeadsOrdered : HeadsOrdered state
state-HeadsOrdered = record {
  safe_covered = (block_at 11 12, refl, omega arith);
  finalized_covered = (block_at 11 12, refl, omega arith);
  finalized_safe = omega arith;
}

progress-Accepts : Accepts state progressed
progress-Accepts =
    then_control state progressed envelope [] (ChainControl.canonical_progress (block_at 11 12)) _
      (omega arith) repeat-accepted
      (then_control state progressed envelope [] (ChainControl.canonical_progress (block_at 12 13))
        _ (omega arith) progress-accepted (done progressed))

-- the first turn of that envelope, and the second, which continues with what the first asserted
abbrev repeated : Turn
repeated = record {
  asserted_blocks = (12, block_at 11 12) ∷ [];
  state = state;
  mutations = [];
  normalized_chain_controls = [];
}

abbrev continued : Turn
continued = record {
  asserted_blocks = (12, block_at 11 12) ∷ (13, block_at 12 13) ∷ [];
  state = progressed;
  mutations = canonical (block_at 12 13) ∷ [];
  normalized_chain_controls = ChainControl.canonical_progress (block_at 12 13) ∷ [];
}

next-accepted :
    accept_control envelope repeated.asserted_blocks state
      (ChainControl.canonical_progress (block_at 12 13))
    ≡ some continued
unfolding accept_control is_not_removed chain_control_canonical_assertion
    assert_chain_control_identities assert_canonical_block_identity agrees_with_asserted
    is_normalized canonical_coverage_control_block known_coverage is_known_coverage
    sequence_block_adds_metadata check_and_install contains get insert validate_sequence_control
    validate_progress install_control accept_progress not_behind validate_sequence_known_identity
    validate_sequence_known_hash_height validate_sequence_known_parent_height known_at is_next
    names_other names optional_metadata_compatible are_compatible enrich_block_ref
    apply_sequence_canonical_block must_rewind install_block upsert_sequence_history enrich_entry
    insert_sorted sort_by_number advance_or_enrich_coverage
next-accepted = refl

Turns-agree_example : ((block_at 12 13).number == 12) ≡ ((block_at 12 13).hash == 12)
unfolding chain_control_canonical_assertion
Turns-agree_example =
    Turns-agree envelope [] repeated.asserted_blocks state state
      (ChainControl.canonical_progress (block_at 11 12))
      (ChainControl.canonical_progress (block_at 12 13)) repeated continued (block_at 11 12)
      (block_at 12 13) refl refl repeat-accepted (no_more _ _) next-accepted

Accepts-Advances_example : Advances state progressed
Accepts-Advances_example = Accepts-Advances state progressed progress-Accepts

Accepts-HeadsOrdered_example : HeadsOrdered progressed
Accepts-HeadsOrdered_example =
    Accepts-HeadsOrdered state progressed progress-Accepts state-HeadsOrdered

-- a block on another branch, above block 11
abbrev fork : BlockRef
fork = record { number = 12; hash = 112; parent_hash = some 11; timestamp = none }

abbrev forked : CanonicalSequenceState
forked = record state {
  retained_canonical_history = block_at 9 10 ∷ block_at 10 11 ∷ fork ∷ [];
  coverage_head = some fork;
}

fork-applied :
    apply_sequence_canonical_block state fork false
    ≡ some (
      forked,
      some (record { common_ancestor = some (block_at 10 11); dropped = block_at 11 12 ∷ [] }),
    )
unfolding must_rewind install_block upsert_sequence_history enrich_entry insert_sorted
    sort_by_number advance_or_enrich_coverage set_or_enrich_block_ref split_after_last
    split_at_first finalized_parent rewind_of rewind_state clear_sequence_heads_above clear_head
    is_above apply_sequence_canonical_block is_next names_other names optional_metadata_compatible
    are_compatible enrich_block_ref
fork-applied = refl

apply_sequence_canonical_block-Ascending_example : Ascending forked.retained_canonical_history
apply_sequence_canonical_block-Ascending_example =
    apply_sequence_canonical_block-Ascending state forked fork false
      (some (record { common_ancestor = some (block_at 10 11); dropped = block_at 11 12 ∷ [] }))
      fork-applied ((omega arith, (omega arith, tt)), ((omega arith, tt), (tt, tt)))
