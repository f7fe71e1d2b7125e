-- ===== src/Reactive/Heads.antt =====
-- How the heads of the canonical state move under an accepted control.
use evm_fork_cache.Prelude.{
  ◌^◌, ◌≤◌, ◌<◌, ◌≡◌, refl, sym, ap, ◌∙◌, inl, inr, true, false, ◌&&◌, Option, none, some, arith,
  leb, is_none, Option-cases, Bool-cases,
}
use evm_fork_cache.Reactive.{
  BlockRef, CanonicalSequenceState, is_next, names_other, names, enrich_block_ref, is_none_or,
  same_block,
}
use evm_fork_cache.Reactive.Canonical.{
  set_or_enrich_block_ref, advance_or_enrich_coverage, must_rewind,
}
use evm_fork_cache.Reactive.Control.{not_behind, not_behind_compatible, validate_progress}

-- A head is not lowered, and not replaced by another block at its height.
abbrev pub HeadAdvances : Option BlockRef → Option BlockRef → Type 0
HeadAdvances none after = Unit
HeadAdvances (some head) after =
    (next : BlockRef) × (after ≡ some next)
    × (head.number ≤ next.number)
    × (head.number ≡ next.number → head.hash ≡ next.hash)

pub HeadAdvances-refl : (head : Option BlockRef) → HeadAdvances head head
HeadAdvances-refl none = tt
HeadAdvances-refl (some head) = (head, refl, omega arith, λ h. refl)

pub HeadAdvances-trans :
    (a b c : Option BlockRef) → HeadAdvances a b → HeadAdvances b c → HeadAdvances a c
HeadAdvances-trans none b c p q = tt
HeadAdvances-trans (some x) none c p q = cc
HeadAdvances-trans (some x) (some y) c (n, e, le, same) (m, f, le2, same2) =
    let ny : y ≡ n = some_block e in
    let len : n.number ≡ y.number = ap (λ (b : BlockRef). b.number) (sym ny) in
    let hash : n.hash ≡ y.hash = ap (λ (b : BlockRef). b.hash) (sym ny) in
    (
      m,
      f,
      omega (arith, le, le2, len),
      λ h. same (omega (arith, le, le2, len)) ∙ hash ∙ same2 (omega (arith, le, le2, len)),
    )
  where
    some_block : {u v : BlockRef} → some u ≡ some v → u ≡ v
    some_block h = cc

pub set_or_enrich-HeadAdvances :
    (current : Option BlockRef) (block : BlockRef)
    → is_none_or current (not_behind block) ≡ true
    → HeadAdvances current (set_or_enrich_block_ref current block)
unfolding set_or_enrich_block_ref not_behind enrich_block_ref
set_or_enrich-HeadAdvances none block h = tt
set_or_enrich-HeadAdvances (some head) block h = elim (Bool-cases (same_block head block)) [
  | inl same ↦ rw same (enrich_block_ref head block, refl, omega arith, λ e. refl)
  | inr differs ↦ rw differs (block, refl, ground arith, λ e. ground arith)
]

pub not_behind_compatible-weaken :
    (current : Option BlockRef) (block : BlockRef)
    → is_none_or current (not_behind_compatible block) ≡ true
    → is_none_or current (not_behind block) ≡ true
unfolding not_behind not_behind_compatible
not_behind_compatible-weaken none block h = refl
not_behind_compatible-weaken (some head) block h = ground arith

pub advance_or_enrich-HeadAdvances :
    (current : Option BlockRef) (block : BlockRef)
    → HeadAdvances current (advance_or_enrich_coverage current block)
unfolding advance_or_enrich_coverage enrich_block_ref
advance_or_enrich-HeadAdvances none block = tt
advance_or_enrich-HeadAdvances (some head) block = elim (Bool-cases (same_block head block)) [
  | inl same ↦ rw same (enrich_block_ref head block, refl, omega arith, λ e. refl)
  | inr differs ↦ elim (Bool-cases (leb block.number head.number)) [
    | inl below ↦ rw (differs, below) (head, refl, omega arith, λ e. refl)
    | inr above ↦ rw (differs, above) (block, refl, ground arith, λ e. absurd (ground arith))
  ]
]

-- Accepted progress stays on the branch of the coverage head.
pub must_rewind-accepted :
    (state : CanonicalSequenceState) (block : BlockRef)
    → validate_progress state block ≡ true
    → block.number < 2 ^ 64
    → must_rewind state block (
        is_none block.parent_hash
        && elim state.coverage_head [ none ↦ false | some head ↦ is_next head.number block.number ])
      ≡ false
unfolding must_rewind validate_progress not_behind is_next names names_other
must_rewind-accepted state block h small = elim (Option-cases state.coverage_head) [
  | inl uncovered ↦ ground arith
  | inr (head, covered) ↦ ground arith
]
