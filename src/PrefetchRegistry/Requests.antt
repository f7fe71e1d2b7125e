-- ===== src/PrefetchRegistry/Requests.antt =====
-- src/prefetch_registry.rs: which slots a prefetch asks for.
use evm_fork_cache.Prelude.{
  ◌≡◌, refl, Bool, true, false, not, ◌&&◌, ◌||◌, none, some, List, [], ◌∷◌, arith, inl, inr,
  Option-cases,
}
use evm_fork_cache.Prelude.Eq.{Eq, nat_eq, pair_eq}
use evm_fork_cache.Prelude.Map.{Map, get}
use evm_fork_cache.Prelude.Set.{contains, contains-add_each, contains-empty}
use evm_fork_cache.Word.{Address}
use evm_fork_cache.Cache.Verify.{Key}
use evm_fork_cache.AccessSet.{StorageAccessList, difference}
use evm_fork_cache.PrefetchRegistry.{PrefetchRegistry, keyed_slots}

module _ {ℓ} {K : Type ℓ} ⦃e : Eq K⦄ where
  contains-eq : (k j : K) (s : List K) → e.beq j k ≡ true → contains j s ≡ contains k s
  contains-eq k j s h = let same : j ≡ k = (e.beq_iff j k).0 h in ground (arith, same)

  contains-difference :
      (s other : List K) (k : K)
      → contains k (difference s other) ≡ (contains k s && not (contains k other))
  unfolding difference contains
  contains-difference [] other k = refl
  contains-difference (j ∷ s) other k =
      ground (arith, contains-difference s other k, contains-eq k j other)

-- one of the keys has the slot in its list
abbrev pub recorded : Map Address StorageAccessList → List Address → Key → Bool
recorded keyed_map [] k = false
recorded keyed_map (addr ∷ keys) k =
    elim (get addr keyed_map) [ none ↦ false | some al ↦ contains k al.slots ]
    || recorded keyed_map keys k

pub contains-keyed_slots :
    (keyed_map : Map Address StorageAccessList) (keys : List Address) (exclude : List Key) (k : Key)
    → contains k (keyed_slots keyed_map keys exclude)
      ≡ (recorded keyed_map keys k && not (contains k exclude))
unfolding keyed_slots
contains-keyed_slots keyed_map [] exclude k = contains-empty k
contains-keyed_slots keyed_map (addr ∷ keys) exclude k =
    let later = contains-keyed_slots keyed_map keys exclude k in
    elim (Option-cases (get addr keyed_map)) [
      | inl unrecorded ↦ ground (arith, unrecorded, later)
      | inr (al, found) ↦ ground (
        arith,
        found,
        later,
        contains-add_each (difference al.slots exclude) (keyed_slots keyed_map keys exclude) k,
        contains-difference al.slots exclude k,
      )
    ]

module _ {Name : Type 0} ⦃e : Eq Name⦄ where
  -- the slots of the keys that are not excluded
  abbrev pub requested : PrefetchRegistry Name → Name → List Address → List Key → List Key
  requested r phase keys exclude = elim (get phase r.keyed_phases) [
    | none ↦ []
    | some keyed_map ↦ keyed_slots keyed_map keys exclude
  ]

  abbrev pub is_recorded : PrefetchRegistry Name → Name → List Address → Key → Bool
  is_recorded r phase keys k = elim (get phase r.keyed_phases) [
    | none ↦ false
    | some keyed_map ↦ recorded keyed_map keys k
  ]

  pub contains-requested :
      (r : PrefetchRegistry Name) (phase : Name) (keys : List Address) (exclude : List Key)
      (k : Key)
      → contains k (requested r phase keys exclude)
        ≡ (is_recorded r phase keys k && not (contains k exclude))
  contains-requested r phase keys exclude k = elim (Option-cases (get phase r.keyed_phases)) [
    | inl unknown ↦ ground (arith, unknown, contains-empty k)
    | inr (keyed_map, known) ↦ ground (arith, known, contains-keyed_slots keyed_map keys exclude k)
  ]
