-- ===== src/Word/Bits.antt =====
-- Bit by bit: what `&`, `|` and `!` do to each binary digit of a word, and so a masked write.
use Prim.Native.Nat.{min, max, bit_and, bit_or, digits, bit_and-bitwise, bit_or-bitwise}
use native.Mathlib.Nat.{pow-suc}
use evm_fork_cache.Prelude.{
  ℕ, zero, suc, ◌-◌, ◌/◌, ◌%◌, ◌^◌, ◌≤◌, ◌<◌, ◌≡◌, refl, arith, ◌==◌, if◌then◌else◌,
}
use evm_fork_cache.Word.{max_u256, complement, masked}

-- The binary digit `i` of a number.
unfoldable pub bit : ℕ → ℕ → ℕ
bit zero n = n % 2
bit (suc i) n = bit i (n / 2)

bit-lt : (i n : ℕ) → bit i n < 2
unfolding bit
bit-lt zero n = omega arith
bit-lt (suc i) n = bit-lt i (n / 2)

bit-zero : (i : ℕ) → bit i 0 ≡ 0
unfolding bit
bit-zero zero = refl
bit-zero (suc i) = bit-zero i

-- An operation on two digits, taken at every digit of two numbers.
module _ (z : ℕ → ℕ) (f : ℕ → ℕ → ℕ) (small : (x y : ℕ) → x < 2 → y < 2 → f x y < 2)
    (short : (i b : ℕ) → bit i (z b) ≡ f 0 (bit i b)) where
  bit-digits : (i n a b : ℕ) → a ≤ n → bit i (digits z f n a b) ≡ f (bit i a) (bit i b)
  unfolding bit
  bit-digits i zero zero b h = rw (short i b, bit-zero i)
  bit-digits i zero (suc a) b h = absurd (omega arith)
  bit-digits i (suc n) zero b h = rw (short i b, bit-zero i)
  bit-digits zero (suc n) (suc a) b h =
      omega (arith, small (suc a % 2) (b % 2) (omega arith) (omega arith))
  bit-digits (suc i) (suc n) (suc a) b h =
      let halved : digits z f (suc n) (suc a) b / 2 ≡ digits z f n (suc a / 2) (b / 2) =
        omega (arith, small (suc a % 2) (b % 2) (omega arith) (omega arith)) in
      rw halved (bit-digits i n (suc a / 2) (b / 2) (omega arith))

bit-bit_and : (i a b : ℕ) → bit i (bit_and a b) ≡ min (bit i a) (bit i b)
bit-bit_and i a b = rw (bit_and-bitwise a b) (
    bit-digits (λ b. zero) min (λ x y p q. omega arith) (λ j c. rw (bit-zero j) (omega arith)) i a a
      b (omega arith))

bit-bit_or : (i a b : ℕ) → bit i (bit_or a b) ≡ max (bit i a) (bit i b)
bit-bit_or i a b =
    rw (bit_or-bitwise a b)
      (bit-digits (λ b. b) max (λ x y p q. omega arith) (λ j c. omega arith) i a a b (omega arith))

-- `2 ^ k - 1 - x` flips the lowest `k` digits of `x`.
bit-flip : (i k x : ℕ) → i < k → x < 2 ^ k → bit i (2 ^ k - 1 - x) ≡ 1 - bit i x
unfolding bit
bit-flip i zero x h l = absurd (omega arith)
bit-flip zero (suc k) x h l = omega (arith, pow-suc 2 k)
bit-flip (suc i) (suc k) x h l =
    let halved : (2 ^ suc k - 1 - x) / 2 ≡ 2 ^ k - 1 - x / 2 = omega (arith, pow-suc 2 k) in
    rw halved (bit-flip i k (x / 2) (omega arith) (omega (arith, pow-suc 2 k)))

bit-complement : (i x : ℕ) → i < 256 → x ≤ max_u256 → bit i (complement x) ≡ 1 - bit i x
unfolding complement
bit-complement i x h l = bit-flip i 256 x h (omega arith)

-- A masked write, with a mask of 256 bits, takes each of the 256 bits that the mask selects from the value, and keeps every other.
pub bit-masked :
    (i old mask value : ℕ)
    → i < 256
    → mask ≤ max_u256
    → bit i (masked old mask value) ≡ (if bit i mask == 1 then bit i value else bit i old)
unfolding masked
bit-masked i old mask value h l = ground (
  arith,
  bit-bit_or i (bit_and old (complement mask)) (bit_and value mask),
  bit-bit_and i old (complement mask),
  bit-bit_and i value mask,
  bit-complement i mask h l,
  bit-lt i mask,
  bit-lt i value,
  bit-lt i old,
)
