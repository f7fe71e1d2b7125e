-- ===== src/Reactive/Ordering.antt =====
-- Accepted controls keep finality at or below safety, and both covered.
use evm_fork_cache.Prelude.{
  ℕ, ◌≡◌, refl, sym, subst, inl, inr, true, Option, none, some, List, arith, Bool-cases,
}
use evm_fork_cache.Prelude.Map.{Map}
use evm_fork_cache.Reactive.{
  BlockRef, ChainControl, CanonicalSequenceState, enrich_block_ref, is_none_or, same_block,
}
use evm_fork_cache.Reactive.Canonical.{set_or_enrich_block_ref}
use evm_fork_cache.Reactive.Control.{
  CanonicalSequenceMutation, not_behind, validate_safe, validate_finalized,
  validate_sequence_control, install_control,
}
use evm_fork_cache.Reactive.Accept.{Envelope, Turn, accept_control}
use evm_fork_cache.Reactive.Heads.{HeadAdvances}
use evm_fork_cache.Reactive.Finality.{
  IsU64, Progressed, accept_progress-Progressed, accept_control-Installs, state_of, Advances,
  accept_control-Advances, Advances-refl, Advances-trans,
}
use evm_fork_cache.Reactive.Wellformed.{Behind, NotAbove, HeadsOrdered, within_coverage}

-- the head that a safe or finalized control leaves has the number of its block
set_or_enrich-number :
    (current : Option BlockRef) (block : BlockRef)
    → (head : BlockRef) × (set_or_enrich_block_ref current block ≡ some head)
      × (head.number ≡ block.number)
unfolding set_or_enrich_block_ref enrich_block_ref
set_or_enrich-number none block = (block, refl, refl)
set_or_enrich-number (some current) block = elim (Bool-cases (same_block current block)) [
  | inl same ↦ rw same (enrich_block_ref current block, refl, ground arith)
  | inr differs ↦ rw differs (block, refl, refl)
]

Behind-advanced :
    (block before after : Option BlockRef)
    → Behind block before
    → HeadAdvances before after
    → Behind block after
Behind-advanced none before after b a = tt
Behind-advanced (some block) none after b a = cc
Behind-advanced (some block) (some head) after (h, e, le) (next, f, le2, same) =
    let number : h.number ≡ head.number = number_of e in (next, f, omega (arith, le, le2, number))
  where
    number_of : {u v : BlockRef} → some u ≡ some v → v.number ≡ u.number
    number_of h = cc

moved_Behind :
    (current coverage : Option BlockRef) (block : BlockRef)
    → Behind (some block) coverage
    → Behind (set_or_enrich_block_ref current block) coverage
moved_Behind current coverage block (head, e, le) =
    let (next, f, number) = set_or_enrich-number current block in
    subst (λ o. Behind o coverage) (sym f) (head, e, omega (arith, le, number))

safe_NotAbove :
    (finalized current : Option BlockRef) (block : BlockRef)
    → is_none_or finalized (not_behind block) ≡ true
    → NotAbove finalized (set_or_enrich_block_ref current block)
unfolding not_behind
safe_NotAbove none current block h = tt
safe_NotAbove (some finalized) current block h =
    let (next, f, number) = set_or_enrich-number current block in
    subst (NotAbove (some finalized)) (sym f) (ground (arith, number))

finalized_NotAbove :
    (safe current : Option BlockRef) (block : BlockRef)
    → is_none_or safe (λ s. not_behind s block) ≡ true
    → NotAbove (set_or_enrich_block_ref current block) safe
unfolding not_behind
finalized_NotAbove none current block h =
    let (next, f, number) = set_or_enrich-number current block in
    subst (λ o. NotAbove o none) (sym f) tt
finalized_NotAbove (some safe) current block h =
    let (next, f, number) = set_or_enrich-number current block in
    subst (λ o. NotAbove o (some safe)) (sym f) (ground (arith, number))

set_safe-HeadsOrdered :
    (s : CanonicalSequenceState) (block : BlockRef)
    → validate_safe s block ≡ true
    → HeadsOrdered s
    → HeadsOrdered (record s { safe_head = set_or_enrich_block_ref s.safe_head block })
unfolding validate_safe
set_safe-HeadsOrdered s block valid o = record {
  safe_covered =
      moved_Behind s.safe_head s.coverage_head block (within_coverage s block (ground arith));
  finalized_covered = o.finalized_covered;
  finalized_safe = safe_NotAbove s.finalized_head s.safe_head block (ground arith);
}

set_finalized-HeadsOrdered :
    (s : CanonicalSequenceState) (block : BlockRef)
    → validate_finalized s block ≡ true
    → HeadsOrdered s
    → HeadsOrdered (record s { finalized_head = set_or_enrich_block_ref s.finalized_head block })
unfolding validate_finalized
set_finalized-HeadsOrdered s block valid o = record {
  safe_covered = o.safe_covered;
  finalized_covered =
      moved_Behind s.finalized_head s.coverage_head block (within_coverage s block (ground arith));
  finalized_safe = finalized_NotAbove s.safe_head s.finalized_head block (ground arith);
}

Progressed-HeadsOrdered :
    (s t : CanonicalSequenceState) (block : BlockRef)
    → Progressed s block t
    → Advances s t
    → HeadsOrdered s
    → HeadsOrdered t
Progressed-HeadsOrdered s t block (coverage, safe, finalized, log) moved o = record {
  safe_covered =
      subst (λ x. Behind x t.coverage_head) (sym safe)
        (Behind-advanced s.safe_head s.coverage_head t.coverage_head o.safe_covered moved.0);
  finalized_covered =
      subst (λ x. Behind x t.coverage_head) (sym finalized)
        (Behind-advanced s.finalized_head s.coverage_head t.coverage_head o.finalized_covered
          moved.0);
  finalized_safe =
      subst (NotAbove t.finalized_head) (sym safe)
        (subst (λ x. NotAbove x s.safe_head) (sym finalized) o.finalized_safe);
}

install_control-HeadsOrdered :
    (s t : CanonicalSequenceState) (control : ChainControl) (ms : List CanonicalSequenceMutation)
    → IsU64 control
    → validate_sequence_control s control ≡ true
    → install_control s control ≡ some (t, ms)
    → Advances s t
    → HeadsOrdered s
    → HeadsOrdered t
unfolding validate_sequence_control install_control
install_control-HeadsOrdered s t (ChainControl.safe block) ms small valid e a o =
    subst HeadsOrdered (state_of e) (set_safe-HeadsOrdered s block valid o)
install_control-HeadsOrdered s t (ChainControl.finalized block) ms small valid e a o =
    subst HeadsOrdered (state_of e) (set_finalized-HeadsOrdered s block valid o)
install_control-HeadsOrdered s t (ChainControl.canonical_progress block) ms small valid e a o =
    Progressed-HeadsOrdered s t block (accept_progress-Progressed s t block ms valid small e) a o
install_control-HeadsOrdered s t (ChainControl.barrier id (some block)) ms small valid e a o =
    Progressed-HeadsOrdered s t block (accept_progress-Progressed s t block ms valid small e) a o
install_control-HeadsOrdered s t (ChainControl.barrier id none) ms small valid e a o =
    subst HeadsOrdered (state_of e) o
install_control-HeadsOrdered s t (ChainControl.log_coverage block) ms small valid e a o =
    subst HeadsOrdered (state_of e) (record {
      safe_covered = o.safe_covered;
      finalized_covered = o.finalized_covered;
      finalized_safe = o.finalized_safe;
    })
install_control-HeadsOrdered s t (ChainControl.reorg ancestor old_tip new_tip) ms small valid e a
      o =
    cc

-- The states that the controls of envelopes lead to, accepted one after the other.
pub data Accepts : CanonicalSequenceState → CanonicalSequenceState → Type 0 where
  done : (s : CanonicalSequenceState) → Accepts s s
  then_control :
      (s t : CanonicalSequenceState) (env : Envelope) (asserted : Map ℕ BlockRef)
      (control : ChainControl) (turn : Turn)
      → IsU64 control
      → accept_control env asserted s control ≡ some turn
      → Accepts turn.state t
      → Accepts s t

-- However many controls with `u64` block numbers are accepted one after the other, while no reorg
-- anchor is pending, whether they are normalized away or change the state, no head of coverage,
-- safety, finality or log coverage is lowered, cleared, or replaced by another block at its height.
pub Accepts-Advances : (s t : CanonicalSequenceState) → Accepts s t → Advances s t
Accepts-Advances s t (done _) = Advances-refl s
Accepts-Advances s t (then_control _ _ env asserted control turn small e rest) =
    Advances-trans s turn.state t (accept_control-Advances env asserted s control turn small e)
      (Accepts-Advances turn.state t rest)

-- From a state with finality at or below safety, and both covered, however many controls with `u64`
-- block numbers are accepted one after the other, while no reorg anchor is pending, finality is at
-- or below safety, and both are covered.
pub Accepts-HeadsOrdered :
    (s t : CanonicalSequenceState) → Accepts s t → HeadsOrdered s → HeadsOrdered t
Accepts-HeadsOrdered s t (done _) o = o
Accepts-HeadsOrdered s t (then_control _ _ env asserted control turn small e rest) o =
    Accepts-HeadsOrdered turn.state t rest
      (elim (accept_control-Installs env asserted s control turn e) [
        | inl same ↦ subst HeadsOrdered (sym same) o
        | inr (ms, valid, installed) ↦
            install_control-HeadsOrdered s turn.state control ms small valid installed
              (accept_control-Advances env asserted s control turn small e) o
      ])
