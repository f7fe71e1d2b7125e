-- ===== src/Freshness/Registry.antt =====
-- How a registry resolves, and what a dropped canonical block does to it.
use evm_fork_cache.Prelude.{
  ℕ, ◌≡◌, refl, ap, ◌∙◌, Bool, false, ◌&&◌, ◌||◌, arith, ◌==◌, leb, if◌then◌else◌, is_some,
}
use evm_fork_cache.Prelude.Eq.{nat_eq, pair_eq}
use evm_fork_cache.Prelude.Map.{get, get-insert, get-map_values}
use evm_fork_cache.Word.{Address, U256}
use evm_fork_cache.Freshness.{
  Validity, FreshnessRegistry, set_account, set_slot, invalidate, invalidate_valid_through_from,
  validity, is_volatile_at, is_volatile, pinned, volatile, valid_through_block,
}

-- A slot's own setting wins over that of its account, and setting one slot or one account leaves
-- the resolution of every other.
pub validity-set_slot :
    (r : FreshnessRegistry) (a b : Address) (s t : U256) (v : Validity)
    → validity (set_slot r a s v) b t ≡ (if (a == b) && (s == t) then v else validity r b t)
unfolding validity set_slot
validity-set_slot r a b s t v = ground (arith, get-insert (a, s) (b, t) v r.slots)

pub validity-set_account :
    (r : FreshnessRegistry) (a b : Address) (t : U256) (v : Validity)
    → validity (set_account r a v) b t ≡ (
        if is_some (get (b, t) r.slots)
        then validity r b t
        else if a == b
        then v
        else validity r b t)
unfolding validity set_account
validity-set_account r a b t v = ground (arith, get-insert a b v r.accounts)

validity-invalidate :
    (r : FreshnessRegistry) (n : ℕ) (a : Address) (s : U256)
    → validity (invalidate_valid_through_from r n) a s ≡ invalidate n (validity r a s)
unfolding validity invalidate_valid_through_from
validity-invalidate r n a s = ground (
  arith,
  get-map_values (invalidate n) (a, s) r.slots,
  get-map_values (invalidate n) a r.accounts,
)

-- whether a horizon reaches the block `n`
abbrev pub reaches : Validity → ℕ → Bool
reaches pinned n = false
reaches volatile n = false
reaches (valid_through_block m) n = leb n m

volatile-invalidate :
    (n now : ℕ) (v : Validity)
    → is_volatile_at (invalidate n v) now ≡ (reaches v n || is_volatile_at v now)
unfolding invalidate is_volatile_at
volatile-invalidate n now pinned = refl
volatile-invalidate n now volatile = refl
volatile-invalidate n now (valid_through_block m) = ground arith

-- After the blocks from `n` on are dropped, the volatile state is what was volatile and what was
-- trusted through `n` or a later block, at every clock value; pinned state and older horizons stay.
pub is_volatile-invalidate_valid_through_from :
    (r : FreshnessRegistry) (n now : ℕ) (a : Address) (s : U256)
    → is_volatile (invalidate_valid_through_from r n) a s now
      ≡ (reaches (validity r a s) n || is_volatile r a s now)
unfolding is_volatile
is_volatile-invalidate_valid_through_from r n now a s =
    ap (λ v. is_volatile_at v now) (validity-invalidate r n a s)
    ∙ volatile-invalidate n now (validity r a s)
