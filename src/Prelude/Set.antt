-- ===== src/Prelude/Set.antt =====
-- `std::collections::HashSet` as a list.
use mathlib.Core.Path.{◌≡◌, refl}
use mathlib.Core.Bool.{Bool, true, false, ◌||◌}
use mathlib.Core.List.{List, [], ◌∷◌, ◌++◌}
use native.Mathlib.Omega.{arith}
use mathlib.Core.Logic.{inl, inr}
use evm_fork_cache.Prelude.Tests.{if◌then◌else◌, Bool-cases}
use evm_fork_cache.Prelude.Lists.{is_empty}
use evm_fork_cache.Prelude.Eq.{Eq}

module _ {ℓ} {K : Type ℓ} ⦃e : Eq K⦄ where
  -- `HashSet::contains`
  unfoldable pub contains : K → List K → Bool
  contains k [] = false
  contains k (j ∷ s) = e.beq j k || contains k s

  pub contains-empty : (k : K) → contains k [] ≡ false
  unfolding contains
  contains-empty k = refl

  pub contains-is_empty : (k : K) (s : List K) → is_empty s ≡ true → contains k s ≡ false
  contains-is_empty k [] h = contains-empty k
  contains-is_empty k (j ∷ s) h = cc

  contains-eq : (k j : K) (s : List K) → k ≡ j → contains k s ≡ contains j s
  contains-eq k j s h = cc

  -- `HashSet::insert`
  unfoldable pub add : K → List K → List K
  unfolding contains
  add k s = if contains k s then s else k ∷ s

  pub contains-add : (k j : K) (s : List K) → contains j (add k s) ≡ (e.beq k j || contains j s)
  unfolding add
  contains-add k j s = ground (arith, e.beq_iff k j, contains-eq k j s)

  -- `HashSet::extend`
  unfoldable pub add_each : List K → List K → List K
  add_each [] s = s
  add_each (k ∷ ks) s = add_each ks (add k s)

  pub contains-add_each :
      (ks s : List K) (j : K) → contains j (add_each ks s) ≡ (contains j ks || contains j s)
  unfolding add_each contains
  contains-add_each [] s j = refl
  contains-add_each (k ∷ ks) s j =
      ground (arith, contains-add_each ks (add k s) j, contains-add k j s)

  pub contains-append :
      (j : K) (xs ys : List K) → contains j (xs ++ ys) ≡ (contains j xs || contains j ys)
  unfolding contains
  contains-append j [] ys = refl
  contains-append j (x ∷ xs) ys = ground (arith, contains-append j xs ys)

  -- No element stands twice.
  abbrev pub Distinct : List K → Type 0
  Distinct [] = Unit
  Distinct (k ∷ s) = (contains k s ≡ false) × Distinct s

  Distinct-add : (k : K) (s : List K) → Distinct s → Distinct (add k s)
  unfolding add
  Distinct-add k s d = elim (Bool-cases (contains k s)) [
    | inl there ↦ rw there d
    | inr absent ↦ rw absent (absent, d)
  ]

  pub Distinct-add_each : (ks s : List K) → Distinct s → Distinct (add_each ks s)
  unfolding add_each
  Distinct-add_each [] s d = d
  Distinct-add_each (k ∷ ks) s d = Distinct-add_each ks (add k s) (Distinct-add k s d)
