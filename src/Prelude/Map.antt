-- ===== src/Prelude/Map.antt =====
-- `std::collections::HashMap` as an association list. Where the Rust code iterates over a map it
-- relies on no order, and the model walks the entries in list order.
use Prim.Native.Nat.{ℕ, suc, ◌≤◌}
use mathlib.Core.Path.{◌≡◌, refl, ap}
use mathlib.Core.Logic.{inl, inr}
use mathlib.Core.Bool.{Bool, true}
use mathlib.Core.List.{List, [], ◌∷◌}
use mathlib.Core.Option.{Option, none, some}
use native.Mathlib.Omega.{arith}
use evm_fork_cache.Prelude.Tests.{if◌then◌else◌, is_some, Bool-cases}
use evm_fork_cache.Prelude.Lists.{length, is_empty}
use evm_fork_cache.Prelude.Eq.{Eq}

abbrev pub Map {ℓ κ} : Type ℓ → Type κ → Type (ℓ ⊔ κ)
Map K V = List (K × V)

-- `HashMap::len`
abbrev pub len {ℓ κ} : {K : Type ℓ} {V : Type κ} → Map K V → ℕ
len m = length m

-- `Option::map`
abbrev pub map_option {κ μ} : {V : Type κ} {W : Type μ} → (V → W) → Option V → Option W
map_option f none = none
map_option f (some v) = some (f v)

pub map_option_id {κ} : {V : Type κ} (o : Option V) → map_option (λ v. v) o ≡ o
map_option_id none = refl
map_option_id (some v) = refl

module _ {ℓ κ} {K : Type ℓ} {V : Type κ} ⦃e : Eq K⦄ where
  -- `HashMap::get`
  unfoldable pub get : K → Map K V → Option V
  get k [] = none
  get k ((j, v) ∷ m) = if e.beq j k then some v else get k m

  -- `HashMap::contains_key`
  abbrev pub contains_key : K → Map K V → Bool
  contains_key k m = is_some (get k m)

  -- `HashMap::insert`
  unfoldable pub insert : K → V → Map K V → Map K V
  insert k v [] = (k, v) ∷ []
  insert k v ((j, w) ∷ m) = if e.beq j k then (j, v) ∷ m else (j, w) ∷ insert k v m

  -- `HashMap::remove`
  unfoldable pub remove : K → Map K V → Map K V
  remove k [] = []
  remove k ((j, w) ∷ m) = if e.beq j k then remove k m else (j, w) ∷ remove k m

  -- `if let Some(v) = map.get_mut(&k) { *v = f(*v) }`
  unfoldable pub update : K → (V → V) → Map K V → Map K V
  update k f [] = []
  update k f ((j, w) ∷ m) = if e.beq j k then (j, f w) ∷ m else (j, w) ∷ update k f m

  pub get-empty : (k : K) → get k [] ≡ none
  unfolding get
  get-empty k = refl

  pub get-insert :
      (k j : K) (v : V) (m : Map K V)
      → get j (insert k v m) ≡ (if e.beq k j then some v else get j m)
  unfolding get insert
  get-insert k j v [] = refl
  get-insert k j v ((i, w) ∷ m) =
      ground (arith, e.beq_iff k j, e.beq_iff i k, e.beq_iff i j, get-insert k j v m)

  pub get-remove :
      (k j : K) (m : Map K V) → get j (remove k m) ≡ (if e.beq k j then none else get j m)
  unfolding get remove
  get-remove k j [] = ground arith
  get-remove k j ((i, w) ∷ m) =
      ground (arith, e.beq_iff k j, e.beq_iff i k, e.beq_iff i j, get-remove k j m)

  pub get-update :
      (k j : K) (f : V → V) (m : Map K V)
      → get j (update k f m) ≡ (if e.beq k j then map_option f (get j m) else get j m)
  unfolding get update
  get-update k j f [] = ground arith
  get-update k j f ((i, w) ∷ m) =
      ground (arith, e.beq_iff k j, e.beq_iff i k, e.beq_iff i j, get-update k j f m)

  -- A key that is not there makes the map longer by one.
  pub len-insert_new :
      (k : K) (v : V) (m : Map K V) → get k m ≡ none → len (insert k v m) ≡ suc (len m)
  unfolding get insert
  len-insert_new k v [] h = refl
  len-insert_new k v ((i, w) ∷ m) h = ground (arith, len-insert_new k v m)

  len-insert-le : (k : K) (v : V) (m : Map K V) → len (insert k v m) ≤ suc (len m)
  unfolding insert
  len-insert-le k v [] = omega arith
  len-insert-le k v ((j, w) ∷ m) = ground (arith, len-insert-le k v m)

  pub get-is_empty : (k : K) (m : Map K V) → is_empty m ≡ true → get k m ≡ none
  unfolding get
  get-is_empty k [] h = refl
  get-is_empty k ((j, w) ∷ m) h = cc

  -- No key stands twice: what the type `HashMap` guarantees.
  abbrev pub Unique : Map K V → Type (ℓ ⊔ κ)
  Unique [] = Unit
  Unique ((k, v) ∷ m) = (get k m ≡ none) × Unique m

  get-remove-none : (k j : K) (m : Map K V) → get j m ≡ none → get j (remove k m) ≡ none
  get-remove-none k j m h = ground (arith, get-remove k j m)

  pub Unique-remove : (k : K) (m : Map K V) → Unique m → Unique (remove k m)
  unfolding remove
  Unique-remove k [] u = tt
  Unique-remove k ((j, w) ∷ m) u = elim (Bool-cases (e.beq j k)) [
    | inl here ↦ rw here (Unique-remove k m u.1)
    | inr other ↦ rw other (get-remove-none k j m u.0, Unique-remove k m u.1)
  ]

  get-update-none :
      (k j : K) (f : V → V) (m : Map K V) → get j m ≡ none → get j (update k f m) ≡ none
  get-update-none k j f m h = ground (arith, get-update k j f m)

  pub Unique-update : (k : K) (f : V → V) (m : Map K V) → Unique m → Unique (update k f m)
  unfolding update
  Unique-update k f [] u = tt
  Unique-update k f ((j, w) ∷ m) u = elim (Bool-cases (e.beq j k)) [
    | inl here ↦ rw here u
    | inr other ↦ rw other (get-update-none k j f m u.0, Unique-update k f m u.1)
  ]

module _ {ℓ κ μ} {K : Type ℓ} {V : Type κ} {W : Type μ} ⦃e : Eq K⦄ where
  -- `for (k, v) in map { out.insert(k, f(v)) }`, on an empty `out`
  unfoldable pub collect : (V → W) → Map K V → Map K W
  collect f [] = []
  collect f ((k, v) ∷ m) = insert k (f v) (collect f m)

  pub get-collect : (f : V → W) (k : K) (m : Map K V) → get k (collect f m) ≡ map_option f (get k m)
  unfolding collect get
  get-collect f k [] = refl
  get-collect f k ((j, v) ∷ m) =
      ground (arith, get-insert j k (f v) (collect f m), get-collect f k m)

  pub len-collect-le : (f : V → W) (m : Map K V) → len (collect f m) ≤ len m
  unfolding collect
  len-collect-le f [] = omega arith
  len-collect-le f ((k, v) ∷ m) =
      omega (arith, len-insert-le k (f v) (collect f m), len-collect-le f m)

module _ {ℓ κ} {K : Type ℓ} {V : Type κ} ⦃e : Eq K⦄ where
  -- `for v in map.values_mut() { *v = f(*v) }`
  unfoldable pub map_values : (V → V) → Map K V → Map K V
  map_values f [] = []
  map_values f ((k, v) ∷ m) = (k, f v) ∷ map_values f m

  pub get-map_values :
      (f : V → V) (k : K) (m : Map K V) → get k (map_values f m) ≡ map_option f (get k m)
  unfolding map_values get
  get-map_values f k [] = refl
  get-map_values f k ((j, v) ∷ m) = ground (arith, get-map_values f k m)

  -- `HashMap::retain` with a test on the key
  unfoldable pub retain : (K → Bool) → Map K V → Map K V
  retain p [] = []
  retain p ((k, v) ∷ m) = if p k then (k, v) ∷ retain p m else retain p m

  pub get-retain :
      (p : K → Bool) (k : K) (m : Map K V) → get k (retain p m) ≡ (if p k then get k m else none)
  unfolding retain get
  get-retain p k [] = ground arith
  get-retain p k ((j, v) ∷ m) = elim (Bool-cases (e.beq j k)) [
    | inl here ↦
        let same : j ≡ k = (e.beq_iff j k).0 here in ground (arith, get-retain p k m, ap p same)
    | inr other ↦ ground (arith, get-retain p k m)
  ]
