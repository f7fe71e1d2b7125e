-- ===== src/Prelude/Lists.antt =====
-- Lists measured and indexed by native numbers, and predicates on them.
use Prim.Native.Nat.{ℕ, zero, suc, ◌+◌}
use mathlib.Core.Path.{◌≡◌, refl, ◌∙◌}
use mathlib.Core.Bool.{Bool, true, false, ◌||◌}
use mathlib.Core.List.{List, [], ◌∷◌, ◌++◌}
use mathlib.Core.Option.{Option, none, some}
use native.Mathlib.Omega.{arith}
use evm_fork_cache.Prelude.Tests.{if◌then◌else◌}

module _ {ℓ} {A : Type ℓ} where
  abbrev pub length : List A → ℕ
  length [] = 0
  length (x ∷ xs) = suc (length xs)

  abbrev pub get_elem? : List A → ℕ → Option A
  get_elem? [] i = none
  get_elem? (x ∷ xs) zero = some x
  get_elem? (x ∷ xs) (suc i) = get_elem? xs i

  abbrev pub take : ℕ → List A → List A
  take zero xs = []
  take (suc n) [] = []
  take (suc n) (x ∷ xs) = x ∷ take n xs

  abbrev pub drop : ℕ → List A → List A
  drop zero xs = xs
  drop (suc n) [] = []
  drop (suc n) (x ∷ xs) = drop n xs

  pub length-append : (xs ys : List A) → length (xs ++ ys) ≡ length xs + length ys
  length-append [] ys = omega arith
  length-append (x ∷ xs) ys = omega (arith, length-append xs ys)

  abbrev pub is_empty : List A → Bool
  is_empty [] = true
  is_empty (x ∷ xs) = false

  -- `Iterator::filter` with a Boolean test
  abbrev pub filter_by : (A → Bool) → List A → List A
  filter_by p [] = []
  filter_by p (x ∷ xs) = if p x then x ∷ filter_by p xs else filter_by p xs

  -- `Iterator::any`
  abbrev pub any_by : (A → Bool) → List A → Bool
  any_by p [] = false
  any_by p (x ∷ xs) = p x || any_by p xs

  -- every element satisfies `P`
  abbrev pub All {κ} : (A → Type κ) → List A → Type κ
  All P [] = Unit
  All P (x ∷ xs) = P x × All P xs

  pub All-append {κ} : (P : A → Type κ) (xs ys : List A) → All P xs → All P ys → All P (xs ++ ys)
  All-append P [] ys hx hy = hy
  All-append P (x ∷ xs) ys hx hy = (hx.0, All-append P xs ys hx.1 hy)

  pub any_by-append :
      (p : A → Bool) (xs ys : List A) → any_by p (xs ++ ys) ≡ (any_by p xs || any_by p ys)
  any_by-append p [] ys = refl
  any_by-append p (x ∷ xs) ys = ground (arith, any_by-append p xs ys)

  -- a test that implies another finds no more
  pub any_by-weaken :
      (p q : A → Bool)
      → ((x : A) → q x ≡ false → p x ≡ false)
      → (xs : List A) → any_by q xs ≡ false
      → any_by p xs ≡ false
  any_by-weaken p q imp [] h = refl
  any_by-weaken p q imp (x ∷ xs) h = ground (arith, imp x, any_by-weaken p q imp xs)

module _ {ℓ κ} {A : Type ℓ} {S : Type κ} where
  -- `for x in xs { s = f(x, s) }`
  unfoldable pub for_each : (A → S → S) → List A → S → S
  for_each f [] s = s
  for_each f (x ∷ xs) s = for_each f xs (f x s)

  -- A test that a round makes true for the elements that satisfy `p` only.
  pub for_each-any_by :
      (f : A → S → S) (q : S → Bool) (p : A → Bool)
      → ((x : A) (s : S) → q (f x s) ≡ (p x || q s))
      → (xs : List A) (s : S) → q (for_each f xs s) ≡ (any_by p xs || q s)
  unfolding for_each
  for_each-any_by f q p step [] s = refl
  for_each-any_by f q p step (x ∷ xs) s =
      ground (arith, for_each-any_by f q p step xs (f x s), step x s)

  -- What no round changes is as before.
  pub for_each-keeps {μ} :
      {B : Type μ} (f : A → S → S) (g : S → B)
      → ((x : A) (s : S) → g (f x s) ≡ g s)
      → (xs : List A) (s : S) → g (for_each f xs s) ≡ g s
  unfolding for_each
  for_each-keeps f g step [] s = refl
  for_each-keeps f g step (x ∷ xs) s = for_each-keeps f g step xs (f x s) ∙ step x s
