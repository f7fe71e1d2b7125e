-- ===== src/Reactive/Identities.antt =====
-- src/reactive/mod.rs: the accepted controls of one envelope assert one block at each height.
use evm_fork_cache.Prelude.{
  ℕ, ◌≡◌, refl, sym, ap, ◌∙◌, subst, Bool, false, not, none, some, [], ◌∷◌, ◌==◌, arith, any_by,
  inl, inr, Bool-cases, Option-cases, if◌then◌else◌,
}
use evm_fork_cache.Prelude.Eq.{nat_eq}
use evm_fork_cache.Prelude.Map.{Map, get, insert, get-insert}
use evm_fork_cache.Word.{B256}
use evm_fork_cache.Reactive.{
  BlockRef, ChainControl, CanonicalSequenceState, are_compatible, enrich_block_ref,
}
use evm_fork_cache.Reactive.Control.{install_control}
use evm_fork_cache.Reactive.Accept.{
  Envelope, Turn, accept_control, check_and_install, assert_chain_control_identities,
  assert_canonical_block_identity, agrees_with_asserted, is_normalized,
  chain_control_canonical_assertion, canonical_coverage_control_block,
}

-- The height is asserted, by a block of that height and hash.
abbrev pub Holds : Map ℕ BlockRef → ℕ → B256 → Type 0
Holds m n h = (x : BlockRef) × (get n m ≡ some x) × (x.number ≡ n) × (x.hash ≡ h)

any_by-get :
    (p : ℕ × BlockRef → Bool) (m : Map ℕ BlockRef) (n : ℕ) (x : BlockRef)
    → any_by p m ≡ false
    → get n m ≡ some x
    → (k : ℕ) × (p (k, x) ≡ false)
unfolding get
any_by-get p [] n x clean found = absurd (ground (arith, found))
any_by-get p ((k, y) ∷ m) n x clean found = elim (Bool-cases (k == n)) [
  | inl here ↦ (
    k,
    let same : y ≡ x = ground (arith, found, here) in
        ap (λ z. p (k, z)) (sym same) ∙ ground (arith, clean),
  )
  | inr other ↦ any_by-get p m n x (ground (arith, clean)) (ground (arith, found, other))
]

-- what an accepted assertion inserts, over what was asserted
abbrev Inserts : Map ℕ BlockRef → BlockRef → Map ℕ BlockRef → Type 0
Inserts m block m' =
    (x : BlockRef) × (m' ≡ insert block.number x m)
    × (x.number ≡ block.number)
    × (x.hash ≡ block.hash)
    × (any_by (λ z. not (agrees_with_asserted block z.1)) m ≡ false)
    × ((y : BlockRef) → get block.number m ≡ some y → y.hash ≡ block.hash)

assert-Inserts :
    (m m' : Map ℕ BlockRef) (block : BlockRef)
    → assert_canonical_block_identity m block ≡ some m'
    → Inserts m block m'
unfolding assert_canonical_block_identity are_compatible enrich_block_ref
assert-Inserts m m' block h = elim (Option-cases (get block.number m)) [
  | inl fresh ↦ (
    block,
    ground (arith, h, fresh),
    refl,
    refl,
    ground (arith, h),
    λ y there. absurd (ground (arith, fresh, there)),
  )
  | inr (x, there) ↦ (
    enrich_block_ref x block,
    ground (arith, h, there),
    ground (arith, h, there),
    ground (arith, h, there),
    ground (arith, h),
    λ y found. let same : x ≡ y = ground (arith, there, found) in ground (arith, h, there, same),
  )
]

module _ (m m' : Map ℕ BlockRef) (block : BlockRef)
    (h : assert_canonical_block_identity m block ≡ some m') where
  assert-Holds : Holds m' block.number block.hash
  assert-Holds =
      let (x, inserted, number, hash, agrees, known) = assert-Inserts m m' block h in
      (
        x,
        ap (get block.number) inserted ∙ get-insert block.number block.number x m ∙ ground arith,
        number,
        hash,
      )

  assert-keeps : (n : ℕ) (hash : B256) → Holds m n hash → Holds m' n hash
  assert-keeps n hash (y, found, number, same) =
      let (x, inserted, x_number, x_hash, agrees, known) = assert-Inserts m m' block h in
      let reads : get n m' ≡ (if block.number == n then some x else get n m) =
        ap (get n) inserted ∙ get-insert block.number n x m in
      elim (Bool-cases (block.number == n)) [
        | inl here ↦
            let at : block.number ≡ n = ground arith in
            let there : get block.number m ≡ some y = ap (λ k. get k m) at ∙ found in
            (x, ground (arith, reads, here), x_number ∙ at, x_hash ∙ sym (known y there) ∙ same)
        | inr other ↦ (y, ground (arith, reads, other, found), number, same)
      ]

  -- A block that is asserted on top has the height of an asserted one exactly if it has its hash.
  assert-agrees :
      (n : ℕ) (hash : B256) → Holds m n hash → (block.number == n) ≡ (block.hash == hash)
  unfolding agrees_with_asserted
  assert-agrees n hash (y, found, number, same) =
      let (x, inserted, x_number, x_hash, agrees, known) = assert-Inserts m m' block h in
      let (k, consistent) =
        any_by-get (λ z. not (agrees_with_asserted block z.1)) m n y agrees found in
      elim (Bool-cases (block.number == n)) [
        | inl here ↦
            let at : block.number ≡ n = ground arith in
            let there : get block.number m ≡ some y = ap (λ j. get j m) at ∙ found in
            ground (arith, here, known y there, same)
        | inr other ↦ ground (arith, other, consistent, number, same)
      ]

-- what a control other than a reorg asserts
asserts_one :
    (m : Map ℕ BlockRef) (control : ChainControl) (block : BlockRef)
    → chain_control_canonical_assertion control ≡ some block
    → assert_chain_control_identities m control ≡ assert_canonical_block_identity m block
unfolding chain_control_canonical_assertion assert_chain_control_identities
asserts_one m (ChainControl.safe b) block e = ground (arith, e)
asserts_one m (ChainControl.finalized b) block e = ground (arith, e)
asserts_one m (ChainControl.canonical_progress b) block e = ground (arith, e)
asserts_one m (ChainControl.log_coverage b) block e = ground (arith, e)
asserts_one m (ChainControl.barrier id b) block e = rw e refl
asserts_one m (ChainControl.reorg ancestor old_tip new_tip) block e = cc

module _ (env : Envelope) where
  accept_control-asserts :
      (m : Map ℕ BlockRef) (s : CanonicalSequenceState) (control : ChainControl) (turn : Turn)
      → accept_control env m s control ≡ some turn
      → assert_chain_control_identities m control ≡ some turn.asserted_blocks
  unfolding accept_control check_and_install
  accept_control-asserts m s control turn h =
      elim (Option-cases (assert_chain_control_identities m control)) [
        | inl conflict ↦ absurd (ground (arith, h, conflict))
        | inr (asserted, agreed) ↦
            agreed
            ∙ ap some (elim (Bool-cases (is_normalized env s control)) [
              | inl known ↦ ground (arith, h, agreed, known)
              | inr unknown ↦ elim (Option-cases (install_control s control)) [
                | inl failed ↦ absurd (ground (arith, h, agreed, unknown, failed))
                | inr (r, installed) ↦ ground (arith, h, agreed, unknown, installed)
              ]
            ])
      ]

  accept_control-keeps :
      (m : Map ℕ BlockRef) (s : CanonicalSequenceState) (control : ChainControl) (turn : Turn)
      (n : ℕ) (hash : B256)
      → accept_control env m s control ≡ some turn
      → Holds m n hash
      → Holds turn.asserted_blocks n hash
  unfolding accept_control check_and_install assert_chain_control_identities install_control
      is_normalized canonical_coverage_control_block
  accept_control-keeps m s (ChainControl.safe b) turn n hash h held =
      assert-keeps m turn.asserted_blocks b
        (accept_control-asserts m s (ChainControl.safe b) turn h) n hash held
  accept_control-keeps m s (ChainControl.finalized b) turn n hash h held =
      assert-keeps m turn.asserted_blocks b
        (accept_control-asserts m s (ChainControl.finalized b) turn h) n hash held
  accept_control-keeps m s (ChainControl.canonical_progress b) turn n hash h held =
      assert-keeps m turn.asserted_blocks b
        (accept_control-asserts m s (ChainControl.canonical_progress b) turn h) n hash held
  accept_control-keeps m s (ChainControl.log_coverage b) turn n hash h held =
      assert-keeps m turn.asserted_blocks b
        (accept_control-asserts m s (ChainControl.log_coverage b) turn h) n hash held
  accept_control-keeps m s (ChainControl.barrier id (some b)) turn n hash h held =
      assert-keeps m turn.asserted_blocks b
        (accept_control-asserts m s (ChainControl.barrier id (some b)) turn h) n hash held
  accept_control-keeps m s (ChainControl.barrier id none) turn n hash h held =
      let same : m ≡ turn.asserted_blocks =
        ground (arith, accept_control-asserts m s (ChainControl.barrier id none) turn h) in
      subst (λ x. Holds x n hash) same held
  accept_control-keeps m s (ChainControl.reorg ancestor old_tip new_tip) turn n hash h held =
      elim (Option-cases
        (assert_chain_control_identities m (ChainControl.reorg ancestor old_tip new_tip))) [
          | inl conflict ↦ absurd (ground (arith, h, conflict))
          | inr (asserted, agreed) ↦ absurd (ground (arith, h, agreed))
        ]

  -- More controls of the envelope that are accepted, one after the other.
  pub data Turns
      : Map ℕ BlockRef
        → CanonicalSequenceState
        → Map ℕ BlockRef
        → CanonicalSequenceState
        → Type 0 where
    no_more : (m : Map ℕ BlockRef) (s : CanonicalSequenceState) → Turns m s m s
    then_turn :
        (m : Map ℕ BlockRef) (s : CanonicalSequenceState) (n : Map ℕ BlockRef)
        (u : CanonicalSequenceState) (control : ChainControl) (turn : Turn)
        → accept_control env m s control ≡ some turn
        → Turns turn.asserted_blocks turn.state n u
        → Turns m s n u

  Turns-keeps :
      (m : Map ℕ BlockRef) (s : CanonicalSequenceState) (n : Map ℕ BlockRef)
      (u : CanonicalSequenceState) (height : ℕ) (hash : B256)
      → Turns m s n u
      → Holds m height hash
      → Holds n height hash
  Turns-keeps m s _ _ height hash (no_more _ _) held = held
  Turns-keeps m s n u height hash (then_turn _ _ _ _ control turn h rest) held =
      Turns-keeps turn.asserted_blocks turn.state n u height hash rest
        (accept_control-keeps m s control turn height hash h held)

  -- Of two controls of an envelope that are accepted while no reorg anchor is pending, the second after
  -- any further ones, whatever the records asserted, the blocks that they assert have one height
  -- exactly if they have one hash.
  pub Turns-agree :
      (m n : Map ℕ BlockRef) (s u : CanonicalSequenceState) (first second : ChainControl)
      (turn last : Turn) (block other : BlockRef)
      → chain_control_canonical_assertion first ≡ some block
      → chain_control_canonical_assertion second ≡ some other
      → accept_control env m s first ≡ some turn
      → Turns turn.asserted_blocks turn.state n u
      → accept_control env n u second ≡ some last
      → (other.number == block.number) ≡ (other.hash == block.hash)
  Turns-agree m n s u first second turn last block other e e' h turns h' =
      let asserted = sym (asserts_one m first block e) ∙ accept_control-asserts m s first turn h in
      let asserted' =
        sym (asserts_one n second other e') ∙ accept_control-asserts n u second last h' in
      assert-agrees n last.asserted_blocks other asserted' block.number block.hash (
        Turns-keeps turn.asserted_blocks turn.state n u block.number block.hash turns
          (assert-Holds m turn.asserted_blocks block asserted))
