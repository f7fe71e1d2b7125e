-- ===== src/AccessSet/Coverage.antt =====
-- What is missing, against what covers.
use evm_fork_cache.Prelude.{
  ◌+◌, ◌*◌, ◌≡◌, refl, true, List, [], ◌∷◌, arith, length, is_empty as list_is_empty,
}
use evm_fork_cache.Prelude.Eq.{Eq, nat_eq, pair_eq}
use evm_fork_cache.Prelude.Set.{contains, add, contains-add}
use evm_fork_cache.AccessSet.{
  StorageAccessList, union, difference, intersection, is_subset, is_empty, extend, missing_from,
  is_covered_by, marginal_gas_savings,
}

module _ {ℓ} {K : Type ℓ} ⦃e : Eq K⦄ where
  is_empty-difference : (s other : List K) → list_is_empty (difference s other) ≡ is_subset s other
  unfolding difference is_subset
  is_empty-difference [] other = refl
  is_empty-difference (k ∷ s) other = ground (arith, is_empty-difference s other)

  union-grows : (s other : List K) (k : K) → contains k s ≡ true → contains k (union s other) ≡ true
  unfolding union
  union-grows s [] k h = h
  union-grows s (j ∷ other) k h = union-grows (add j s) other k (ground (arith, contains-add j k s))

  is_subset-union : (s other : List K) → is_subset other (union s other) ≡ true
  unfolding union is_subset
  is_subset-union s [] = refl
  is_subset-union s (k ∷ other) = ground (
    arith,
    is_subset-union (add k s) other,
    union-grows (add k s) other k (ground (arith, contains-add k k s, (e.beq_iff k k).1 refl)),
  )

  length-split :
      (s other : List K) → length (intersection s other) + length (difference s other) ≡ length s
  unfolding intersection difference
  length-split [] other = refl
  length-split (k ∷ s) other = ground (arith, length-split s other)

-- Nothing is missing exactly when the other list covers the first.
pub is_empty-missing_from :
    (l available : StorageAccessList)
    → is_empty (missing_from l available) ≡ is_covered_by l available
unfolding is_empty missing_from is_covered_by
is_empty-missing_from l available = ground (
  arith,
  is_empty-difference l.accounts available.accounts,
  is_empty-difference l.code_hashes available.code_hashes,
  is_empty-difference l.slots available.slots,
  is_empty-difference l.block_numbers available.block_numbers,
)

-- A list extended by another covers that other.
pub is_covered_by-extend :
    (l other : StorageAccessList) → is_covered_by other (extend l other) ≡ true
unfolding is_covered_by extend
is_covered_by-extend l other = ground (
  arith,
  is_subset-union l.accounts other.accounts,
  is_subset-union l.code_hashes other.code_hashes,
  is_subset-union l.slots other.slots,
  is_subset-union l.block_numbers other.block_numbers,
)

-- The gas that warm entries save is that of every entry but the missing ones.
pub marginal_gas_savings-missing_from :
    (l warm : StorageAccessList)
    → let missing = missing_from l warm in
      marginal_gas_savings l warm + (length missing.accounts * 2500 + length missing.slots * 2000)
      ≡ length l.accounts * 2500 + length l.slots * 2000
unfolding marginal_gas_savings missing_from
marginal_gas_savings-missing_from l warm =
    omega (arith, length-split l.accounts warm.accounts, length-split l.slots warm.slots)
