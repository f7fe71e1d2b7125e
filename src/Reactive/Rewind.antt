-- ===== src/Reactive/Rewind.antt =====
-- The retained history under one canonical block: a rewind drops exactly its end, and it stays in
-- ascending order.
use evm_fork_cache.Prelude.{
  ℕ, ◌<◌, ◌≡◌, refl, sym, ap, subst, inl, inr, Bool, ◌&&◌, Option, none, some, List, [], ◌∷◌, ◌++◌,
  arith, All, ltb, Option-cases, Bool-cases,
}
use evm_fork_cache.Reactive.{BlockRef, CanonicalSequenceState, is_next, names}
use evm_fork_cache.Reactive.Canonical.{
  upsert_sequence_history, split_after_last, split_at_first, clear_sequence_heads_above,
  SequenceRewind, finalized_parent, rewind_of, rewind_state, must_rewind, install_block,
  apply_sequence_canonical_block,
}
use evm_fork_cache.Reactive.Retained.{Ascending, upsert-Ascending}

-- a prefix of an ascending history is ascending
prefix-All :
    (P : ℕ → Type 0) (kept dropped : List BlockRef)
    → All (λ b. P b.number) (kept ++ dropped)
    → All (λ b. P b.number) kept
prefix-All P [] dropped a = tt
prefix-All P (b ∷ kept) dropped a = (a.0, prefix-All P kept dropped a.1)

prefix-Ascending : (kept dropped : List BlockRef) → Ascending (kept ++ dropped) → Ascending kept
prefix-Ascending [] dropped a = tt
prefix-Ascending (b ∷ kept) dropped a =
    (prefix-All (λ n. b.number < n) kept dropped a.0, prefix-Ascending kept dropped a.1)

split_at_first-append :
    (p : BlockRef → Bool) (history : List BlockRef)
    → (split_at_first p history).0 ++ (split_at_first p history).1 ≡ history
unfolding split_at_first
split_at_first-append p [] = refl
split_at_first-append p (entry ∷ history) = elim (Bool-cases (p entry)) [
  | inl hit ↦ rw hit refl
  | inr miss ↦ rw miss (ap (λ h. entry ∷ h) (split_at_first-append p history))
]

abbrev Split : Type 0
Split = List BlockRef × (BlockRef × List BlockRef)

moved_split :
    (q r : Split) (history : List BlockRef)
    → ◌≡◌ {A = Option Split} (some q) (some r)
    → q.0 ++ q.1.1 ≡ history
    → r.0 ++ r.1.1 ≡ history
moved_split q r history e h =
    let same : q ≡ r = cc in subst (λ (x : Split). x.0 ++ x.1.1 ≡ history) same h

split_after_last-append :
    (p : BlockRef → Bool) (history : List BlockRef) (r : Split)
    → split_after_last p history ≡ some r
    → r.0 ++ r.1.1 ≡ history
unfolding split_after_last
split_after_last-append p [] r e = cc
split_after_last-append p (entry ∷ history) r e = elim (Option-cases (split_after_last p history)) [
  | inl nowhere ↦ elim (Bool-cases (p entry)) [
    | inl hit ↦ moved_split (entry ∷ [], (entry, history)) r (entry ∷ history) (ground arith) refl
    | inr miss ↦ absurd (ground arith)
  ]
  | inr (q, later) ↦
      moved_split (entry ∷ q.0, q.1) r (entry ∷ history) (ground arith)
        (ap (λ h. entry ∷ h) (split_after_last-append p history q later))
]

-- A rewind keeps a beginning of the retained history and drops exactly the rest.
pub rewind_of-append :
    (s : CanonicalSequenceState) (block : BlockRef)
    → (rewind_of s block).1.0 ++ (rewind_of s block).1.1 ≡ s.retained_canonical_history
unfolding rewind_of
rewind_of-append s block =
    let p : BlockRef → Bool =
      λ entry. is_next entry.number block.number && names block.parent_hash entry.hash in
    elim (Option-cases (split_after_last p s.retained_canonical_history)) [
      | inr (r, found) ↦
          rw (found, rewind_of) (split_after_last-append p s.retained_canonical_history r found)
      | inl nowhere ↦ elim (Option-cases (finalized_parent s block)) [
        | inr (finalized, parent) ↦
            rw (nowhere, parent, rewind_of)
              (split_at_first-append (λ entry. ltb finalized.number entry.number)
                s.retained_canonical_history)
        | inl orphan ↦ rw (nowhere, orphan, rewind_of) refl
      ]
    ]

rewound_history :
    (s : CanonicalSequenceState) (block : BlockRef)
    → (rewind_state s (rewind_of s block)).retained_canonical_history ≡ (rewind_of s block).1.0
unfolding rewind_state clear_sequence_heads_above
rewound_history s block = go (rewind_of s block)
  where
    go :
        (w : Option BlockRef × (List BlockRef × List BlockRef))
        → (rewind_state s w).retained_canonical_history ≡ w.1.0
    go (none, (kept, dropped)) = refl
    go (some ancestor, (kept, dropped)) = refl

install_block-Ascending :
    (s t : CanonicalSequenceState) (block : BlockRef)
    → install_block s block ≡ some t
    → Ascending s.retained_canonical_history
    → Ascending t.retained_canonical_history
unfolding install_block
install_block-Ascending s t block e a =
    elim (Option-cases (upsert_sequence_history s.retained_canonical_history block)) [
      | inl conflict ↦ absurd (ground arith)
      | inr (next, upserted) ↦
          let same : next ≡ t.retained_canonical_history = ground arith in
          subst Ascending same (upsert-Ascending s.retained_canonical_history next block upserted a)
    ]

-- A canonical block, whether it extends the branch, fills a gap, repeats a block or makes the
-- history rewind, leaves a retained history that is in ascending order, one block a height, so.
pub apply_sequence_canonical_block-Ascending :
    (s t : CanonicalSequenceState) (block : BlockRef) (allow : Bool) (r : Option SequenceRewind)
    → apply_sequence_canonical_block s block allow ≡ some (t, r)
    → Ascending s.retained_canonical_history
    → Ascending t.retained_canonical_history
unfolding apply_sequence_canonical_block
apply_sequence_canonical_block-Ascending s t block allow r e a =
    elim (Bool-cases (must_rewind s block allow)) [
      | inl leaves ↦
          install_block-Ascending (rewind_state s (rewind_of s block)) t block (ground arith) (
            subst Ascending (sym (rewound_history s block)) (
              prefix-Ascending (rewind_of s block).1.0 (rewind_of s block).1.1
                (subst Ascending (sym (rewind_of-append s block)) a)))
      | inr stays ↦ install_block-Ascending s t block (ground arith) a
    ]
