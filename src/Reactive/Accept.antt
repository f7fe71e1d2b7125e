-- ===== src/Reactive/Accept.antt =====
-- src/reactive/mod.rs: one turn of the loop over the post-record controls of
-- `validate_canonical_sequence_parts`, while no reorg anchor is pending.
use evm_fork_cache.Prelude.{
  ℕ, Bool, false, not, ◌&&◌, ◌||◌, Option, none, some, List, [], ◌∷◌, ◌++◌, ◌==◌, leb, is_none,
  is_some, any_by, filter_by, if◌then◌else◌,
}
use evm_fork_cache.Prelude.Eq.{nat_eq, pair_eq}
use evm_fork_cache.Prelude.Map.{Map, get, insert}
use evm_fork_cache.Prelude.Set.{contains}
use evm_fork_cache.Word.{B256}
use evm_fork_cache.Reactive.{
  BlockRef, ChainControl, CanonicalSequenceState, is_next, names, are_compatible, enrich_block_ref,
  same_block, is_none_or, find_by, to_list,
}
use evm_fork_cache.Reactive.Control.{
  CanonicalSequenceMutation, validate_sequence_control, install_control,
}

-- What the records of an envelope leave for its controls, with `policy.normalizes_coverage()`.
pub record Envelope : Type 0 where
  pub removed_assertions : List (ℕ × B256)
  pub removed_heights_by_hash : Map B256 ℕ
  pub record_proof_control_identities : List (ℕ × B256)
  pub normalizes_coverage : Bool

-- `canonical_coverage_control_block`
unfoldable pub canonical_coverage_control_block : ChainControl → Option BlockRef
canonical_coverage_control_block (ChainControl.canonical_progress block) = some block
canonical_coverage_control_block (ChainControl.barrier id block) = block
canonical_coverage_control_block (ChainControl.reorg common_ancestor old_tip new_tip) = none
canonical_coverage_control_block (ChainControl.safe block) = none
canonical_coverage_control_block (ChainControl.finalized block) = none
canonical_coverage_control_block (ChainControl.log_coverage block) = none

-- `chain_control_canonical_assertion`
unfoldable pub chain_control_canonical_assertion : ChainControl → Option BlockRef
chain_control_canonical_assertion (ChainControl.safe block) = some block
chain_control_canonical_assertion (ChainControl.finalized block) = some block
chain_control_canonical_assertion (ChainControl.canonical_progress block) = some block
chain_control_canonical_assertion (ChainControl.log_coverage block) = some block
chain_control_canonical_assertion (ChainControl.barrier id block) = block
chain_control_canonical_assertion (ChainControl.reorg common_ancestor old_tip new_tip) = none

-- one turn of the loop over `asserted_blocks.values()`
unfoldable pub agrees_with_asserted : BlockRef → BlockRef → Bool
agrees_with_asserted block asserted =
    not ((asserted.hash == block.hash) && not (asserted.number == block.number))
    && (not (names block.parent_hash asserted.hash && not (is_next asserted.number block.number))
        && not
            (names asserted.parent_hash block.hash && not (is_next block.number asserted.number)))

-- `assert_canonical_block_identity`
unfoldable pub assert_canonical_block_identity : Map ℕ BlockRef → BlockRef → Option (Map ℕ BlockRef)
assert_canonical_block_identity asserted_blocks block =
    if any_by (λ x. not (agrees_with_asserted block x.1)) asserted_blocks
    then none
    else elim (get block.number asserted_blocks) [
      | none ↦ some (insert block.number block asserted_blocks)
      | some known ↦
          if are_compatible known block
          then some (insert block.number (enrich_block_ref known block) asserted_blocks)
          else none
    ]

-- `assert_chain_control_identities`, of the block that a control other than a reorg asserts
abbrev pub assert_optional : Map ℕ BlockRef → Option BlockRef → Option (Map ℕ BlockRef)
assert_optional asserted_blocks none = some asserted_blocks
assert_optional asserted_blocks (some block) = assert_canonical_block_identity asserted_blocks block

-- `assert_chain_control_identities`
unfoldable pub assert_chain_control_identities :
    Map ℕ BlockRef → ChainControl → Option (Map ℕ BlockRef)
assert_chain_control_identities asserted (ChainControl.safe block) =
    assert_canonical_block_identity asserted block
assert_chain_control_identities asserted (ChainControl.finalized block) =
    assert_canonical_block_identity asserted block
assert_chain_control_identities asserted (ChainControl.canonical_progress block) =
    assert_canonical_block_identity asserted block
assert_chain_control_identities asserted (ChainControl.log_coverage block) =
    assert_canonical_block_identity asserted block
assert_chain_control_identities asserted (ChainControl.barrier id block) =
    assert_optional asserted block
assert_chain_control_identities asserted (ChainControl.reorg common_ancestor old_tip new_tip) =
    let kept = filter_by (λ (x : ℕ × BlockRef). leb x.0 common_ancestor.number) asserted in
    elim (assert_canonical_block_identity kept common_ancestor) [
      | none ↦ none
      | some with_ancestor ↦ assert_canonical_block_identity with_ancestor new_tip
    ]

-- `sequence_block_adds_metadata`
unfoldable pub sequence_block_adds_metadata : CanonicalSequenceState → BlockRef → Bool
sequence_block_adds_metadata state incoming =
    any_by
      (λ known.
        same_block known incoming
        && ((is_none known.parent_hash && is_some incoming.parent_hash)
            || (is_none known.timestamp && is_some incoming.timestamp)))
      (to_list state.coverage_head ++ state.retained_canonical_history)

-- neither the identity nor, at another height, the hash of the asserted block is removed
unfoldable pub is_not_removed : Envelope → ChainControl → Bool
is_not_removed env control = is_none_or (chain_control_canonical_assertion control) (λ block.
    not (contains (block.number, block.hash) env.removed_assertions)
    && is_none_or (get block.hash env.removed_heights_by_hash) (λ removed. removed == block.number))

-- `known`: the coverage head, or a retained block, with the identity of a block
unfoldable pub known_coverage : CanonicalSequenceState → BlockRef → Option BlockRef
known_coverage state block =
    find_by (λ entry. same_block entry block)
      (to_list state.coverage_head ++ state.retained_canonical_history)

-- the coverage that a control asserts is known already, at or below the coverage head
unfoldable pub is_known_coverage : CanonicalSequenceState → BlockRef → Bool
is_known_coverage state block = elim state.coverage_head [
  | none ↦ false
  | some head ↦ leb block.number head.number && elim (known_coverage state block) [
    | none ↦ false
    | some known ↦
        are_compatible known block
        && (not (block.number == head.number) || not (sequence_block_adds_metadata state block))
  ]
]

-- whether the control is dropped, or loses its block, as coverage that is known
unfoldable pub is_normalized : Envelope → CanonicalSequenceState → ChainControl → Bool
is_normalized env state control = elim (canonical_coverage_control_block control) [
  | none ↦ false
  | some block ↦
      env.normalizes_coverage
      && (not (contains (block.number, block.hash) env.record_proof_control_identities)
          && is_known_coverage state block)
]

-- what is left of such a control
unfoldable pub normalized_control : ChainControl → List ChainControl
normalized_control (ChainControl.barrier id block) = ChainControl.barrier id none ∷ []
normalized_control (ChainControl.canonical_progress block) = []
normalized_control (ChainControl.safe block) = []
normalized_control (ChainControl.finalized block) = []
normalized_control (ChainControl.log_coverage block) = []
normalized_control (ChainControl.reorg common_ancestor old_tip new_tip) = []

-- The variables of the loop: what one turn leaves in the first two, and adds to the others.
pub record Turn : Type 0 where
  pub asserted_blocks : Map ℕ BlockRef
  pub state : CanonicalSequenceState
  pub mutations : List CanonicalSequenceMutation
  pub normalized_chain_controls : List ChainControl

-- the check of the control against the state, then its change
unfoldable pub check_and_install :
    Map ℕ BlockRef → CanonicalSequenceState → ChainControl → Option Turn
check_and_install asserted state control =
    let installed : Option Turn = elim (install_control state control) [
      | none ↦ none
      | some r ↦ some (record {
        asserted_blocks = asserted;
        state = r.0;
        mutations = r.1;
        normalized_chain_controls = control ∷ [];
      })
    ] in
    if validate_sequence_control state control then installed else none

-- one turn of the loop; `None` is an error
unfoldable pub accept_control :
    Envelope → Map ℕ BlockRef → CanonicalSequenceState → ChainControl → Option Turn
accept_control env asserted_blocks state control =
    if not (is_not_removed env control)
    then none
    else elim (assert_chain_control_identities asserted_blocks control) [
      | none ↦ none
      | some asserted ↦
          if is_normalized env state control
          then some (record {
            asserted_blocks = asserted;
            state = state;
            mutations = [];
            normalized_chain_controls = normalized_control control;
          })
          else check_and_install asserted state control
    ]
