-- ===== src/Prelude/Chunks.antt =====
-- `slice::chunks`, `Iterator::flat_map`, and how often an element stands in a list.
use Prim.Native.Nat.{ℕ, zero, suc, ◌+◌, ◌-◌, ◌*◌, ◌≤◌}
use mathlib.Core.Path.{◌≡◌, refl, sym, ap, ap₂, ◌∙◌}
use mathlib.Core.List.{List, [], ◌∷◌, ◌++◌, append_assoc}
use native.Mathlib.Omega.{arith}
use evm_fork_cache.Prelude.Tests.{if◌then◌else◌}
use evm_fork_cache.Prelude.Lists.{length, take, drop, All}
use evm_fork_cache.Prelude.Eq.{Eq}

module _ {ℓ} {A : Type ℓ} where
  take-append-drop : (n : ℕ) (xs : List A) → take n xs ++ drop n xs ≡ xs
  take-append-drop zero xs = refl
  take-append-drop (suc n) [] = refl
  take-append-drop (suc n) (x ∷ xs) = ap (λ ys. x ∷ ys) (take-append-drop n xs)

  length-take : (n : ℕ) (xs : List A) → length (take n xs) ≤ n
  length-take zero xs = omega arith
  length-take (suc n) [] = omega arith
  length-take (suc n) (x ∷ xs) = omega (arith, length-take n xs)

  pub length-drop : (n : ℕ) (xs : List A) → length (drop n xs) ≡ length xs - n
  length-drop zero xs = omega arith
  length-drop (suc n) [] = omega arith
  length-drop (suc n) (x ∷ xs) = omega (arith, length-drop n xs)

  pub take-append : (xs ys : List A) → take (length xs) (xs ++ ys) ≡ xs
  take-append [] ys = refl
  take-append (x ∷ xs) ys = ap (λ zs. x ∷ zs) (take-append xs ys)

  pub drop-append : (xs ys : List A) → drop (length xs) (xs ++ ys) ≡ ys
  drop-append [] ys = refl
  drop-append (x ∷ xs) ys = drop-append xs ys

  -- the chunks of at most `n` elements, on fuel
  unfoldable pub chunks_from : ℕ → ℕ → List A → List (List A)
  chunks_from fuel n [] = []
  chunks_from zero n (x ∷ xs) = []
  chunks_from (suc fuel) n (x ∷ xs) = take n (x ∷ xs) ∷ chunks_from fuel n (drop n (x ∷ xs))

  -- `slice::chunks`, which panics for `n` zero; every chunk takes an element
  abbrev pub chunks : ℕ → List A → List (List A)
  chunks n xs = chunks_from (length xs) n xs

  -- a chunk has between 1 and `n` elements
  abbrev pub IsChunk : ℕ → List A → Type 0
  IsChunk n xs = (1 ≤ length xs) × (length xs ≤ n)

  chunks_from-IsChunk : (fuel n : ℕ) (xs : List A) → 1 ≤ n → All (IsChunk n) (chunks_from fuel n xs)
  unfolding chunks_from
  chunks_from-IsChunk fuel n [] h = tt
  chunks_from-IsChunk zero n (x ∷ xs) h = tt
  chunks_from-IsChunk (suc fuel) zero (x ∷ xs) h = absurd (omega arith)
  chunks_from-IsChunk (suc fuel) (suc n) (x ∷ xs) h = (
    (omega arith, omega (arith, length-take n xs)),
    chunks_from-IsChunk fuel (suc n) (drop n xs) h,
  )

  pub chunks-IsChunk : (n : ℕ) (xs : List A) → 1 ≤ n → All (IsChunk n) (chunks n xs)
  chunks-IsChunk n xs h = chunks_from-IsChunk (length xs) n xs h

  -- a chunk that is known to come first
  pub chunks_from-append :
      (fuel : ℕ) (xs ys : List A)
      → 1 ≤ length xs
      → chunks_from (suc fuel) (length xs) (xs ++ ys) ≡ xs ∷ chunks_from fuel (length xs) ys
  unfolding chunks_from
  chunks_from-append fuel [] ys h = absurd (omega arith)
  chunks_from-append fuel (x ∷ xs) ys h =
      ap₂ (λ zs ws. (x ∷ zs) ∷ chunks_from fuel (suc (length xs)) ws) (take-append xs ys)
        (drop-append xs ys)

  -- a list of `m` whole chunks
  pub length-chunks_from :
      (m fuel n : ℕ) (xs : List A)
      → length xs ≡ m * suc n
      → m ≤ fuel
      → length (chunks_from fuel (suc n) xs) ≡ m
  unfolding chunks_from
  length-chunks_from zero fuel n [] h enough = refl
  length-chunks_from zero fuel n (x ∷ xs) h enough = absurd (omega (arith, h))
  length-chunks_from (suc m) fuel n [] h enough = absurd (omega (arith, h))
  length-chunks_from (suc m) zero n (x ∷ xs) h enough = absurd (omega arith)
  length-chunks_from (suc m) (suc fuel) n (x ∷ xs) h enough =
      ap suc
        (length-chunks_from m fuel n (drop n xs) (grind (arith, length-drop n xs)) (omega arith))

module _ {ℓ κ} {A : Type ℓ} {B : Type κ} where
  -- `Iterator::flat_map`
  unfoldable pub flat_map : (A → List B) → List A → List B
  flat_map f [] = []
  flat_map f (x ∷ xs) = f x ++ flat_map f xs

  pub flat_map-append :
      (f : A → List B) (xs ys : List A) → flat_map f (xs ++ ys) ≡ flat_map f xs ++ flat_map f ys
  unfolding flat_map
  flat_map-append f [] ys = refl
  flat_map-append f (x ∷ xs) ys =
      ap (λ zs. f x ++ zs) (flat_map-append f xs ys)
      ∙ sym (append_assoc (f x) (flat_map f xs) (flat_map f ys))

module _ {ℓ} {K : Type ℓ} ⦃e : Eq K⦄ where
  -- how often an element stands in a list
  unfoldable pub count : K → List K → ℕ
  count k [] = 0
  count k (j ∷ s) = if e.beq j k then suc (count k s) else count k s

  pub count-append : (k : K) (xs ys : List K) → count k (xs ++ ys) ≡ count k xs + count k ys
  unfolding count
  count-append k [] ys = omega arith
  count-append k (x ∷ xs) ys = ground (arith, count-append k xs ys)

  -- the total over a list of lists
  abbrev pub count_all : K → List (List K) → ℕ
  count_all k [] = 0
  count_all k (xs ∷ xss) = count k xs + count_all k xss

  count_all-chunks_from :
      (k : K) (fuel n : ℕ) (xs : List K)
      → 1 ≤ n
      → length xs ≤ fuel
      → count_all k (chunks_from fuel n xs) ≡ count k xs
  unfolding chunks_from count
  count_all-chunks_from k fuel n [] h enough = refl
  count_all-chunks_from k zero n (x ∷ xs) h enough = absurd (omega arith)
  count_all-chunks_from k (suc fuel) zero (x ∷ xs) h enough = absurd (omega arith)
  count_all-chunks_from k (suc fuel) (suc n) (x ∷ xs) h enough =
      let whole = ap (count k) (take-append-drop n xs) in
      ground (
        arith,
        whole,
        count-append k (take n xs) (drop n xs),
        count_all-chunks_from k fuel (suc n) (drop n xs) h (omega (arith, length-drop n xs)),
      )

  -- The chunks hold the list's elements, each as often.
  pub count_all-chunks :
      (k : K) (n : ℕ) (xs : List K) → 1 ≤ n → count_all k (chunks n xs) ≡ count k xs
  count_all-chunks k n xs h = count_all-chunks_from k (length xs) n xs h (omega arith)
