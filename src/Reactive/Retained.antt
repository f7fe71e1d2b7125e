-- ===== src/Reactive/Retained.antt =====
-- The retained history stays in ascending order when a block is inserted or enriched.
use evm_fork_cache.Prelude.{
  ℕ, ◌<◌, ◌≡◌, ◌≢◌, sym, subst, inl, inr, Bool, true, false, Option, some, List, [], ◌∷◌, ◌++◌,
  arith, All, All-append, ◌==◌, leb, Option-cases, Bool-cases,
}
use evm_fork_cache.Reactive.{BlockRef, enrich_block_ref, are_compatible}
use evm_fork_cache.Reactive.Canonical.{
  insert_sorted, sort_by_number, enrich_entry, upsert_sequence_history,
}

-- Each block is below every later one.
abbrev pub Ascending : List BlockRef → Type 0
Ascending [] = Unit
Ascending (block ∷ blocks) = All (λ b. block.number < b.number) blocks × Ascending blocks

insert_sorted-All :
    (P : ℕ → Type 0) (block : BlockRef) (history : List BlockRef)
    → P block.number
    → All (λ b. P b.number) history
    → All (λ b. P b.number) (insert_sorted block history)
unfolding insert_sorted
insert_sorted-All P block [] p h = (p, tt)
insert_sorted-All P block (entry ∷ history) p h =
    elim (Bool-cases (leb block.number entry.number)) [
      | inl before ↦ rw before (p, h)
      | inr after ↦ rw after (h.0, insert_sorted-All P block history p h.1)
    ]

sort_by_number-All :
    (P : ℕ → Type 0) (history : List BlockRef)
    → All (λ b. P b.number) history
    → All (λ b. P b.number) (sort_by_number history)
unfolding sort_by_number
sort_by_number-All P [] h = tt
sort_by_number-All P (entry ∷ history) h =
    insert_sorted-All P entry (sort_by_number history) h.0 (sort_by_number-All P history h.1)

weaken_below :
    (m n : ℕ) (blocks : List BlockRef)
    → m < n
    → All (λ b. n < b.number) blocks
    → All (λ b. m < b.number) blocks
weaken_below m n [] h a = tt
weaken_below m n (b ∷ blocks) h a = (omega (arith, h, a.0), weaken_below m n blocks h a.1)

insert_sorted-Ascending :
    (block : BlockRef) (history : List BlockRef)
    → All (λ b. b.number ≢ block.number) history
    → Ascending history
    → Ascending (insert_sorted block history)
unfolding insert_sorted
insert_sorted-Ascending block [] new a = (tt, tt)
insert_sorted-Ascending block (entry ∷ history) new a =
    elim (Bool-cases (leb block.number entry.number)) [
      | inl before ↦
          let lt : block.number < entry.number = ground (arith, new.0) in
          rw before ((lt, weaken_below block.number entry.number history lt a.0), a)
      | inr after ↦ rw after (
        insert_sorted-All (λ n. entry.number < n) block history (ground arith) a.0,
        insert_sorted-Ascending block history new.1 a.1,
      )
    ]

above_new :
    (entry : BlockRef) (history : List BlockRef)
    → All (λ b. entry.number < b.number) history
    → All (λ b. b.number ≢ entry.number) history
above_new entry [] a = tt
above_new entry (b ∷ history) a = (λ e. absurd (omega (arith, a.0, e)), above_new entry history a.1)

sort_by_number-Ascending :
    (history : List BlockRef) (block : BlockRef)
    → Ascending history
    → All (λ b. b.number ≢ block.number) history
    → Ascending (sort_by_number (history ++ block ∷ []))
unfolding sort_by_number
sort_by_number-Ascending [] block a new = insert_sorted-Ascending block [] tt tt
sort_by_number-Ascending (entry ∷ history) block a new =
    insert_sorted-Ascending entry (sort_by_number (history ++ block ∷ []))
      (sort_by_number-All (λ n. n ≢ entry.number) (history ++ block ∷ [])
        (All-append (λ b. b.number ≢ entry.number) history (block ∷ [])
          (above_new entry history a.0) (λ e. new.0 (sym e), tt)))
      (sort_by_number-Ascending history block a.1 new.1)

-- an enriched history is in order, with any bound on its numbers, and where nothing was enriched
-- the block's number is new
record Enriched (block : BlockRef) (history : List BlockRef) (there : Bool) (next : List BlockRef)
    : Type 1 where
  bounds : (P : ℕ → Type 0) → All (λ b. P b.number) history → All (λ b. P b.number) next
  ascending : Ascending history → Ascending next
  is_new : there ≡ false → All (λ b. b.number ≢ block.number) history

here-Enriched :
    (block entry : BlockRef) (history : List BlockRef)
    → Enriched block (entry ∷ history) true (enrich_block_ref entry block ∷ history)
unfolding enrich_block_ref
here-Enriched block entry history = record {
  bounds = λ P a. a;
  ascending = λ a. a;
  is_new = λ e. cc;
}

later-Enriched :
    (block entry : BlockRef) (history next : List BlockRef) (there : Bool)
    → (entry.number == block.number) ≡ false
    → Enriched block history there next
    → Enriched block (entry ∷ history) there (entry ∷ next)
later-Enriched block entry history next there differs r = record {
  bounds = λ P a. (a.0, r.bounds P a.1);
  ascending = λ a. (r.bounds (λ n. entry.number < n) a.0, r.ascending a.1);
  is_new = λ e. (λ h. absurd (ground arith), r.is_new e);
}

transported :
    (block : BlockRef) (history : List BlockRef) (q r : Bool × List BlockRef)
    → ◌≡◌ {A = Option (Bool × List BlockRef)} (some q) (some r)
    → Enriched block history q.0 q.1
    → Enriched block history r.0 r.1
transported block history q r e x =
    let same : q ≡ r = cc in
    subst (λ (p : Bool × List BlockRef). Enriched block history p.0 p.1) same x

enrich_entry-Enriched :
    (block : BlockRef) (history : List BlockRef) (r : Bool × List BlockRef)
    → enrich_entry block history ≡ some r
    → Enriched block history r.0 r.1
unfolding enrich_entry
enrich_entry-Enriched block [] r e =
    transported block [] (false, []) r e
      (record { bounds = λ P a. a; ascending = λ a. a; is_new = λ h. tt })
enrich_entry-Enriched block (entry ∷ history) r e =
    elim (Bool-cases (entry.number == block.number)) [
      | inl here ↦ elim (Bool-cases (are_compatible entry block)) [
        | inl agrees ↦
            transported block (entry ∷ history) (true, enrich_block_ref entry block ∷ history) r
              (ground arith) (here-Enriched block entry history)
        | inr conflicts ↦ absurd (ground arith)
      ]
      | inr differs ↦ elim (Option-cases (enrich_entry block history)) [
        | inl conflict ↦ absurd (ground arith)
        | inr (q, found) ↦
            transported block (entry ∷ history) (q.0, entry ∷ q.1) r (ground arith)
              (later-Enriched block entry history q.1 q.0 differs
                (enrich_entry-Enriched block history q found))
      ]
    ]

pub upsert-Ascending :
    (history next : List BlockRef) (block : BlockRef)
    → upsert_sequence_history history block ≡ some next
    → Ascending history
    → Ascending next
unfolding upsert_sequence_history
upsert-Ascending history next block e a = elim (Option-cases (enrich_entry block history)) [
  | inl conflict ↦ absurd (ground arith)
  | inr (r, found) ↦ elim (Bool-cases r.0) [
    | inl there ↦
        let same : r.1 ≡ next = ground arith in
        subst Ascending same ((enrich_entry-Enriched block history r found).ascending a)
    | inr fresh ↦
        let same : sort_by_number (history ++ block ∷ []) ≡ next = ground arith in
        subst Ascending same (
          sort_by_number-Ascending history block a
            ((enrich_entry-Enriched block history r found).is_new fresh))
  ]
]
