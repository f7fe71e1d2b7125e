-- ===== src/Reactive.antt =====
-- src/reactive/mod.rs: the canonical chain state that a delivery is validated against, and the
-- chain controls. A check that returns `Result<(), ReactiveError>` is a test that is true for `Ok`,
-- and a change that may fail returns an `Option`; the messages of errors are not modelled.
pub mod Checks
pub mod Snapshot
pub mod Canonical
pub mod Control
pub mod Accept
pub mod Wellformed
pub mod Heads
pub mod Finality
pub mod Ordering
pub mod Identities
pub mod Retained
pub mod Rewind
use evm_fork_cache.Prelude.{
  ℕ, ◌+◌, ◌-◌, ◌^◌, Bool, true, false, not, ◌&&◌, Option, none, some, List, [], ◌∷◌, ◌++◌, length,
  drop, ◌==◌, ltb, if◌then◌else◌,
}
use evm_fork_cache.Word.{B256}

-- `struct BlockRef`; numbers and time stamps are `u64`
pub record BlockRef : Type 0 where
  pub number : ℕ
  pub hash : B256
  pub parent_hash : Option B256
  pub timestamp : Option ℕ

-- `enum ChainControl`; the opaque identity of a barrier is a list of bytes
pub data ChainControl : Type 0 where
  reorg : BlockRef → BlockRef → BlockRef → ChainControl
  safe : BlockRef → ChainControl
  finalized : BlockRef → ChainControl
  canonical_progress : BlockRef → ChainControl
  log_coverage : BlockRef → ChainControl
  barrier : List ℕ → Option BlockRef → ChainControl

-- `struct CanonicalSequenceState`
pub record CanonicalSequenceState : Type 0 where
  pub retained_canonical_history : List BlockRef
  pub coverage_head : Option BlockRef
  pub safe_head : Option BlockRef
  pub finalized_head : Option BlockRef
  pub log_coverage_head : Option BlockRef

-- `CanonicalSequenceState::retain_recent_history`
unfoldable pub retain_recent_history : CanonicalSequenceState → ℕ → CanonicalSequenceState
retain_recent_history state max_entries = record state {
  retained_canonical_history =
      drop (length state.retained_canonical_history - max_entries) state.retained_canonical_history;
}

-- `left.checked_add(1) == Some(right)`
unfoldable pub is_next : ℕ → ℕ → Bool
is_next left right = ltb (left + 1) (2 ^ 64) && (left + 1 == right)

-- `parent.is_some_and(|parent| parent != hash)`
unfoldable pub names_other : Option B256 → B256 → Bool
names_other none hash = false
names_other (some parent) hash = not (parent == hash)

-- `parent == Some(hash)`
unfoldable pub names : Option B256 → B256 → Bool
names none hash = false
names (some parent) hash = parent == hash

-- `optional_metadata_compatible`
unfoldable pub optional_metadata_compatible : Option ℕ → Option ℕ → Bool
optional_metadata_compatible none right = true
optional_metadata_compatible (some left) none = true
optional_metadata_compatible (some left) (some right) = left == right

-- `optional_block_refs_are_compatible`, on two blocks that are there
unfoldable pub are_compatible : BlockRef → BlockRef → Bool
are_compatible left right =
    (left.number == right.number)
    && ((left.hash == right.hash)
        && (optional_metadata_compatible left.parent_hash right.parent_hash
            && optional_metadata_compatible left.timestamp right.timestamp))

abbrev or_else : Option ℕ → Option ℕ → Option ℕ
or_else none other = other
or_else (some v) other = some v

-- `enrich_block_ref`
unfoldable pub enrich_block_ref : BlockRef → BlockRef → BlockRef
enrich_block_ref retained incoming = record retained {
  parent_hash = or_else retained.parent_hash incoming.parent_hash;
  timestamp = or_else retained.timestamp incoming.timestamp;
}

-- whether two references have one number and one hash
abbrev pub same_block : BlockRef → BlockRef → Bool
same_block left right = (left.number == right.number) && (left.hash == right.hash)

-- `Option::is_none_or`
abbrev pub is_none_or {ℓ} : {A : Type ℓ} → Option A → (A → Bool) → Bool
is_none_or none p = true
is_none_or (some a) p = p a

-- `Iterator::find`
abbrev pub find_by {ℓ} : {A : Type ℓ} → (A → Bool) → List A → Option A
find_by p [] = none
find_by p (x ∷ xs) = if p x then some x else find_by p xs

-- `iter()` of an option
abbrev pub to_list {ℓ} : {A : Type ℓ} → Option A → List A
to_list none = []
to_list (some a) = a ∷ []

-- the retained history, then the coverage, safe and finalized heads
abbrev pub known_blocks : CanonicalSequenceState → List BlockRef
known_blocks state =
    state.retained_canonical_history
    ++ (to_list state.coverage_head ++ (to_list state.safe_head ++ to_list state.finalized_head))
