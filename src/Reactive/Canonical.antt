-- ===== src/Reactive/Canonical.antt =====
-- src/reactive/mod.rs: how one canonical block changes the canonical state.
use evm_fork_cache.Prelude.{
  ◌+◌, ◌^◌, Bool, true, false, not, ◌&&◌, ◌||◌, Option, none, some, List, [], ◌∷◌, ◌++◌, ◌==◌, ltb,
  leb, any_by, if◌then◌else◌,
}
use evm_fork_cache.Reactive.{
  BlockRef, CanonicalSequenceState, is_next, names, are_compatible, enrich_block_ref, same_block,
}

-- `set_or_enrich_block_ref`
unfoldable pub set_or_enrich_block_ref : Option BlockRef → BlockRef → Option BlockRef
set_or_enrich_block_ref none incoming = some incoming
set_or_enrich_block_ref (some current) incoming =
    if same_block current incoming then some (enrich_block_ref current incoming) else some incoming

-- `advance_or_enrich_coverage`
unfoldable pub advance_or_enrich_coverage : Option BlockRef → BlockRef → Option BlockRef
advance_or_enrich_coverage none incoming = some incoming
advance_or_enrich_coverage (some current) incoming =
    if same_block current incoming
    then some (enrich_block_ref current incoming)
    else if leb incoming.number current.number
    then some current
    else some incoming

-- one insertion of the stable `sort_by_key(|entry| entry.number)`
unfoldable pub insert_sorted : BlockRef → List BlockRef → List BlockRef
insert_sorted block [] = block ∷ []
insert_sorted block (entry ∷ history) =
    if leb block.number entry.number
    then block ∷ entry ∷ history
    else entry ∷ insert_sorted block history

-- `sort_by_key(|entry| entry.number)`
unfoldable pub sort_by_number : List BlockRef → List BlockRef
sort_by_number [] = []
sort_by_number (entry ∷ history) = insert_sorted entry (sort_by_number history)

-- the entry at the block's height enriched, if it is there and agrees; the Boolean tells whether it
-- is there
unfoldable pub enrich_entry : BlockRef → List BlockRef → Option (Bool × List BlockRef)
enrich_entry block [] = some (false, [])
enrich_entry block (entry ∷ history) =
    let rest = enrich_entry block history in
    if entry.number == block.number
    then if are_compatible entry block
      then some (true, enrich_block_ref entry block ∷ history)
      else none
    else elim rest [ none ↦ none | some r ↦ some (r.0, entry ∷ r.1) ]

-- `upsert_sequence_history`
unfoldable pub upsert_sequence_history : List BlockRef → BlockRef → Option (List BlockRef)
upsert_sequence_history history block = elim (enrich_entry block history) [
  | none ↦ none
  | some r ↦ if r.0 then some r.1 else some (sort_by_number (history ++ block ∷ []))
]

-- whether a head is above the ancestor, or is another block at its height
unfoldable pub is_above : BlockRef → BlockRef → Bool
is_above ancestor head =
    ltb ancestor.number head.number
    || ((head.number == ancestor.number) && not (head.hash == ancestor.hash))

-- one head of `clear_sequence_heads_above`
unfoldable pub clear_head : BlockRef → Option BlockRef → Option BlockRef
clear_head ancestor none = none
clear_head ancestor (some head) = if is_above ancestor head then none else some head

-- `clear_sequence_heads_above`
unfoldable pub clear_sequence_heads_above :
    CanonicalSequenceState → BlockRef → CanonicalSequenceState
clear_sequence_heads_above state ancestor = record state {
  safe_head = clear_head ancestor state.safe_head;
  finalized_head = clear_head ancestor state.finalized_head;
}

-- `rposition` of a test and `split_off` after it: what is kept, the hit, and what is dropped
unfoldable pub split_after_last :
    (BlockRef → Bool) → List BlockRef → Option (List BlockRef × (BlockRef × List BlockRef))
split_after_last p [] = none
split_after_last p (entry ∷ history) = elim (split_after_last p history) [
  | some r ↦ some (entry ∷ r.0, r.1)
  | none ↦ if p entry then some (entry ∷ [], (entry, history)) else none
]

-- `position` of a test and `split_off` at it: what is kept and what is dropped
unfoldable pub split_at_first : (BlockRef → Bool) → List BlockRef → List BlockRef × List BlockRef
split_at_first p [] = ([], [])
split_at_first p (entry ∷ history) =
    let rest = split_at_first p history in
    if p entry then ([], entry ∷ history) else (entry ∷ rest.0, rest.1)

-- `struct SequenceRewind`
pub record SequenceRewind : Type 0 where
  pub common_ancestor : Option BlockRef
  pub dropped : List BlockRef

-- the finalized head, if it is the block's parent
unfoldable pub finalized_parent : CanonicalSequenceState → BlockRef → Option BlockRef
finalized_parent state block = elim state.finalized_head [
  | none ↦ none
  | some finalized ↦
      if is_next finalized.number block.number && names block.parent_hash finalized.hash
      then some finalized
      else none
]

-- the rewind of `apply_sequence_canonical_block`: its ancestor, what history it keeps, and what it
-- drops
unfoldable pub rewind_of :
    CanonicalSequenceState → BlockRef → Option BlockRef × (List BlockRef × List BlockRef)
rewind_of state block =
    elim (split_after_last
      (λ entry. is_next entry.number block.number && names block.parent_hash entry.hash)
      state.retained_canonical_history) [
        | some r ↦ (some (r.1.0), (r.0, r.1.1))
        | none ↦ elim (finalized_parent state block) [
          | some finalized ↦ (
            some finalized,
            split_at_first (λ entry. ltb finalized.number entry.number)
                state.retained_canonical_history,
          )
          | none ↦ (none, ([], state.retained_canonical_history))
        ]
      ]

unfoldable pub rewind_state :
    CanonicalSequenceState
    → Option BlockRef × (List BlockRef × List BlockRef)
    → CanonicalSequenceState
rewind_state state (none, (kept, dropped)) = record state {
  retained_canonical_history = kept;
  coverage_head = none;
  safe_head = none;
  finalized_head = none;
}
rewind_state state (some ancestor, (kept, dropped)) =
    clear_sequence_heads_above
      (record state { retained_canonical_history = kept; coverage_head = some ancestor }) ancestor

-- whether the block leaves the branch of the coverage head: the condition of the rewind
unfoldable pub must_rewind : CanonicalSequenceState → BlockRef → Bool → Bool
must_rewind state block allow_parentless = elim state.coverage_head [
  | none ↦ false
  | some head ↦
      let already_known =
        any_by (λ entry. same_block entry block) state.retained_canonical_history in
      let extends_tip =
        is_next head.number block.number
        && (names block.parent_hash head.hash
            || (allow_parentless
                && elim block.parent_hash [ none ↦ true | some parent ↦ false ])) in
      let forward_gap = ltb (head.number + 1) (2 ^ 64) && ltb (head.number + 1) block.number in
      not already_known && (not (same_block head block) && (not extends_tip && not forward_gap))
]

-- `upsert_sequence_history`, then `advance_or_enrich_coverage`
unfoldable pub install_block : CanonicalSequenceState → BlockRef → Option CanonicalSequenceState
install_block state block = elim (upsert_sequence_history state.retained_canonical_history block) [
  | none ↦ none
  | some history ↦ some (record state {
    retained_canonical_history = history;
    coverage_head = advance_or_enrich_coverage state.coverage_head block;
  })
]

-- `apply_sequence_canonical_block`
unfoldable pub apply_sequence_canonical_block :
    CanonicalSequenceState
    → BlockRef
    → Bool
    → Option (CanonicalSequenceState × Option SequenceRewind)
apply_sequence_canonical_block state block allow_parentless =
    let rewind = rewind_of state block in
    let rewound = install_block (rewind_state state rewind) block in
    let installed = install_block state block in
    if must_rewind state block allow_parentless
    then elim rewound [
      | none ↦ none
      | some s ↦ some (s, some (record { common_ancestor = rewind.0; dropped = rewind.1.1 }))
    ]
    else elim installed [ none ↦ none | some s ↦ some (s, none) ]
