-- ===== src/Reactive/Finality.antt =====
-- src/reactive/mod.rs: what an accepted control does, and that heads only move forward.
use evm_fork_cache.Prelude.{
  ℕ, [], ◌∷◌, ◌⊎◌, ◌∙◌, ap, Bool-cases, ◌^◌, ◌<◌, ◌≡◌, sym, subst, inl, inr, true, none, some, List,
  arith, Option-cases,
}
use evm_fork_cache.Prelude.Map.{Map}
use evm_fork_cache.Reactive.{BlockRef, ChainControl, CanonicalSequenceState}
use evm_fork_cache.Reactive.Canonical.{
  set_or_enrich_block_ref, advance_or_enrich_coverage, install_block, upsert_sequence_history,
  apply_sequence_canonical_block,
}
use evm_fork_cache.Reactive.Control.{
  CanonicalSequenceMutation, validate_safe, validate_finalized, validate_progress,
  validate_log_coverage, validate_sequence_control, accept_progress, install_control, Accepted,
}
use evm_fork_cache.Reactive.Accept.{
  Envelope, Turn, accept_control, check_and_install, assert_chain_control_identities, is_normalized,
  normalized_control,
}
use evm_fork_cache.Reactive.Heads.{
  HeadAdvances, HeadAdvances-refl, HeadAdvances-trans, set_or_enrich-HeadAdvances,
  not_behind_compatible-weaken, advance_or_enrich-HeadAdvances, must_rewind-accepted,
}

-- Every head advances.
abbrev pub Advances : CanonicalSequenceState → CanonicalSequenceState → Type 0
Advances s t =
    HeadAdvances s.coverage_head t.coverage_head
    × HeadAdvances s.safe_head t.safe_head
    × HeadAdvances s.finalized_head t.finalized_head
    × HeadAdvances s.log_coverage_head t.log_coverage_head

-- Its block's number is a `u64`.
abbrev pub IsU64 : ChainControl → Type 0
IsU64 (ChainControl.reorg ancestor old_tip new_tip) = Unit
IsU64 (ChainControl.safe block) = Unit
IsU64 (ChainControl.finalized block) = Unit
IsU64 (ChainControl.canonical_progress block) = block.number < 2 ^ 64
IsU64 (ChainControl.log_coverage block) = Unit
IsU64 (ChainControl.barrier id none) = Unit
IsU64 (ChainControl.barrier id (some block)) = block.number < 2 ^ 64

-- what accepted progress leaves
abbrev pub Progressed : CanonicalSequenceState → BlockRef → CanonicalSequenceState → Type 0
Progressed s block t =
    (t.coverage_head ≡ advance_or_enrich_coverage s.coverage_head block)
    × (t.safe_head ≡ s.safe_head)
    × (t.finalized_head ≡ s.finalized_head)
    × (t.log_coverage_head ≡ s.log_coverage_head)

pub accept_progress-Progressed :
    (s t : CanonicalSequenceState) (block : BlockRef) (ms : List CanonicalSequenceMutation)
    → validate_progress s block ≡ true
    → block.number < 2 ^ 64
    → accept_progress s block ≡ some (t, ms)
    → Progressed s block t
unfolding accept_progress apply_sequence_canonical_block install_block
accept_progress-Progressed s t block ms valid small h =
    elim (Option-cases (upsert_sequence_history s.retained_canonical_history block)) [
      | inl conflict ↦ ground (arith, must_rewind-accepted s block valid small)
      | inr (history, upserted) ↦ ground (arith, must_rewind-accepted s block valid small)
    ]

Progressed-Advances :
    (s t : CanonicalSequenceState) (block : BlockRef) → Progressed s block t → Advances s t
Progressed-Advances s t block (coverage, safe, finalized, log) = (
  subst (HeadAdvances s.coverage_head) (sym coverage)
      (advance_or_enrich-HeadAdvances s.coverage_head block),
  subst (HeadAdvances s.safe_head) (sym safe) (HeadAdvances-refl s.safe_head),
  subst (HeadAdvances s.finalized_head) (sym finalized) (HeadAdvances-refl s.finalized_head),
  subst (HeadAdvances s.log_coverage_head) (sym log) (HeadAdvances-refl s.log_coverage_head),
)

-- An accepted control leaves the state as it is, or it is valid and changes it.
abbrev pub Installs : CanonicalSequenceState → ChainControl → CanonicalSequenceState → Type 0
Installs s control t =
    (t ≡ s)
    ⊎ ((ms : List CanonicalSequenceMutation) × (validate_sequence_control s control ≡ true)
        × (install_control s control ≡ some (t, ms)))

check_and_install-Installs :
    (asserted : Map ℕ BlockRef) (s : CanonicalSequenceState) (control : ChainControl) (turn : Turn)
    → check_and_install asserted s control ≡ some turn
    → Installs s control turn.state
unfolding check_and_install
check_and_install-Installs asserted s control turn h =
    elim (Option-cases (install_control s control)) [
      | inl failed ↦ absurd (ground (arith, h, failed))
      | inr (r, installed) ↦
          let same : record {
            asserted_blocks = asserted;
            state = r.0;
            mutations = r.1;
            normalized_chain_controls = control ∷ [];
          }
              ≡ turn =
            ground (arith, h, installed) in
          let moved : r.0 ≡ turn.state = ap (λ (x : Turn). x.state) same in
          inr (r.1, ground (arith, h), installed ∙ ap (λ u. some (u, r.1)) moved)
    ]

pub accept_control-Installs :
    (env : Envelope) (asserted : Map ℕ BlockRef) (s : CanonicalSequenceState)
    (control : ChainControl) (turn : Turn)
    → accept_control env asserted s control ≡ some turn
    → Installs s control turn.state
unfolding accept_control
accept_control-Installs env asserted s control turn h =
    elim (Option-cases (assert_chain_control_identities asserted control)) [
      | inl conflict ↦ absurd (ground (arith, h, conflict))
      | inr (asserted', agreed) ↦ elim (Bool-cases (is_normalized env s control)) [
        | inl known ↦
            let same : record {
              asserted_blocks = asserted';
              state = s;
              mutations = [];
              normalized_chain_controls = normalized_control control;
            }
                ≡ turn =
              ground (arith, h, agreed, known) in
            inl (ap (λ (x : Turn). x.state) (sym same))
        | inr unknown ↦
            check_and_install-Installs asserted' s control turn (ground (arith, h, agreed, unknown))
      ]
    ]

pub state_of :
    {s t : CanonicalSequenceState} {ks ms : List CanonicalSequenceMutation}
    → ◌≡◌ {A = Accepted} (some (s, ks)) (some (t, ms))
    → s ≡ t
state_of h = cc

set_safe-Advances :
    (s : CanonicalSequenceState) (block : BlockRef)
    → validate_safe s block ≡ true
    → Advances s (record s { safe_head = set_or_enrich_block_ref s.safe_head block })
unfolding validate_safe
set_safe-Advances s block valid = (
  HeadAdvances-refl s.coverage_head,
  set_or_enrich-HeadAdvances s.safe_head block
      (not_behind_compatible-weaken s.safe_head block (ground arith)),
  HeadAdvances-refl s.finalized_head,
  HeadAdvances-refl s.log_coverage_head,
)

set_finalized-Advances :
    (s : CanonicalSequenceState) (block : BlockRef)
    → validate_finalized s block ≡ true
    → Advances s (record s { finalized_head = set_or_enrich_block_ref s.finalized_head block })
unfolding validate_finalized
set_finalized-Advances s block valid = (
  HeadAdvances-refl s.coverage_head,
  HeadAdvances-refl s.safe_head,
  set_or_enrich-HeadAdvances s.finalized_head block
      (not_behind_compatible-weaken s.finalized_head block (ground arith)),
  HeadAdvances-refl s.log_coverage_head,
)

set_log-Advances :
    (s : CanonicalSequenceState) (block : BlockRef)
    → validate_log_coverage s block ≡ true
    → Advances s
        (record s { log_coverage_head = set_or_enrich_block_ref s.log_coverage_head block })
unfolding validate_log_coverage
set_log-Advances s block valid = (
  HeadAdvances-refl s.coverage_head,
  HeadAdvances-refl s.safe_head,
  HeadAdvances-refl s.finalized_head,
  set_or_enrich-HeadAdvances s.log_coverage_head block (ground arith),
)

pub Advances-refl : (s : CanonicalSequenceState) → Advances s s
Advances-refl s = (
  HeadAdvances-refl s.coverage_head,
  HeadAdvances-refl s.safe_head,
  HeadAdvances-refl s.finalized_head,
  HeadAdvances-refl s.log_coverage_head,
)

pub Advances-trans : (s t u : CanonicalSequenceState) → Advances s t → Advances t u → Advances s u
Advances-trans s t u p q = (
  HeadAdvances-trans s.coverage_head t.coverage_head u.coverage_head p.0 q.0,
  HeadAdvances-trans s.safe_head t.safe_head u.safe_head p.1 q.1,
  HeadAdvances-trans s.finalized_head t.finalized_head u.finalized_head p.2 q.2,
  HeadAdvances-trans s.log_coverage_head t.log_coverage_head u.log_coverage_head p.3 q.3,
)

install_control-Advances :
    (s t : CanonicalSequenceState) (control : ChainControl) (ms : List CanonicalSequenceMutation)
    → IsU64 control
    → validate_sequence_control s control ≡ true
    → install_control s control ≡ some (t, ms)
    → Advances s t
unfolding validate_sequence_control install_control
install_control-Advances s t (ChainControl.safe block) ms small valid e =
    subst (Advances s) (state_of e) (set_safe-Advances s block valid)
install_control-Advances s t (ChainControl.finalized block) ms small valid e =
    subst (Advances s) (state_of e) (set_finalized-Advances s block valid)
install_control-Advances s t (ChainControl.canonical_progress block) ms small valid e =
    Progressed-Advances s t block (accept_progress-Progressed s t block ms valid small e)
install_control-Advances s t (ChainControl.barrier id (some block)) ms small valid e =
    Progressed-Advances s t block (accept_progress-Progressed s t block ms valid small e)
install_control-Advances s t (ChainControl.barrier id none) ms small valid e =
    subst (Advances s) (state_of e) (Advances-refl s)
install_control-Advances s t (ChainControl.log_coverage block) ms small valid e =
    subst (Advances s) (state_of e) (set_log-Advances s block valid)
install_control-Advances s t (ChainControl.reorg ancestor old_tip new_tip) ms small valid e = cc

-- No control with a `u64` block number that is accepted, while no reorg anchor is pending, lowers a
-- head of coverage, safety, finality or log coverage, clears it, or replaces it by another block at
-- its height.
pub accept_control-Advances :
    (env : Envelope) (asserted : Map ℕ BlockRef) (s : CanonicalSequenceState)
    (control : ChainControl) (turn : Turn)
    → IsU64 control
    → accept_control env asserted s control ≡ some turn
    → Advances s turn.state
accept_control-Advances env asserted s control turn small h =
    elim (accept_control-Installs env asserted s control turn h) [
      | inl same ↦ subst (Advances s) (sym same) (Advances-refl s)
      | inr (ms, valid, installed) ↦
          install_control-Advances s turn.state control ms small valid installed
    ]
