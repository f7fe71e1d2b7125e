-- ===== src/Tests/Trust.antt =====
-- One run of each result on the registry and on the observations.
use evm_fork_cache.Prelude.{ℕ, ◌≡◌, refl, false, ◌||◌, ltb, [], ◌∷◌, arith}
use evm_fork_cache.Prelude.Eq.{nat_eq, pair_eq}
use evm_fork_cache.Prelude.Map.{get}
use evm_fork_cache.Freshness.{
  FreshnessRegistry, pinned, volatile, valid_through_block, validity, is_volatile,
  invalidate_valid_through_from,
}
use evm_fork_cache.Freshness.Registry.{reaches, is_volatile-invalidate_valid_through_from}
use evm_fork_cache.Freshness.Observations.{Float, FreshnessParams, new_tracker, should_refetch}
use evm_fork_cache.Freshness.Stability.{observe_all, should_refetch-observe_all}

abbrev registry : FreshnessRegistry
registry = record {
  fallback = volatile;
  accounts = (1, valid_through_block 20) ∷ [];
  slots = ((1, 5), pinned) ∷ [];
}

is_volatile-invalidate_valid_through_from_example :
    is_volatile (invalidate_valid_through_from registry 15) 1 6 10
    ≡ (reaches (validity registry 1 6) 15 || is_volatile registry 1 6 10)
is_volatile-invalidate_valid_through_from_example =
    is_volatile-invalidate_valid_through_from registry 15 10 1 6

-- whole numbers in the place of `f64`
abbrev whole : Float
whole = record {
  F64 = ℕ;
  of_int = λ n. n;
  div = λ x y. x;
  mul = λ x y. x;
  max = λ x y. x;
  gt = λ x y. ltb y x;
}

abbrev params : FreshnessParams whole
params = record {
  min_observations = 3;
  max_reuse = 100;
  cycle_interval = 1;
  always_refetch_rate = 1;
  staleness_threshold = 1;
}

should_refetch-observe_all_example :
    should_refetch whole (observe_all new_tracker 1 5 42 (10 ∷ 11 ∷ 12 ∷ [])) 1 5 50 params ≡ false
unfolding get new_tracker
should_refetch-observe_all_example =
    should_refetch-observe_all whole params new_tracker 1 5 42 10 50 (11 ∷ 12 ∷ []) refl
      (omega arith)
