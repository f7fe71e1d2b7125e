-- ===== src/Prelude/Eq.antt =====
-- The `Eq` bound of a map's key: a Boolean test with its law, an instance argument.
use Prim.Native.Nat.{ℕ}
use mathlib.Core.Path.{◌≡◌}
use mathlib.Core.Logic.{◌↔◌}
use mathlib.Core.Bool.{Bool, true, ◌&&◌}
use native.Mathlib.Omega.{arith}
use evm_fork_cache.Prelude.Tests.{◌==◌, ==_iff}

pub record Eq {ℓ} (A : Type ℓ) : Type ℓ where
  pub beq : A → A → Bool
  pub beq_iff : (a b : A) → (beq a b ≡ true) ↔ (a ≡ b)

instance abbrev pub nat_eq : Eq ℕ
nat_eq = record { beq = ◌==◌; beq_iff = ==_iff }

-- a pair of numbers, such as `(Address, U256)`
abbrev pub pair_beq : ℕ × ℕ → ℕ × ℕ → Bool
pair_beq x y = (x.0 == y.0) && (x.1 == y.1)

pub pair_beq_iff : (x y : ℕ × ℕ) → (pair_beq x y ≡ true) ↔ (x ≡ y)
pair_beq_iff x y = ground arith

instance abbrev pub pair_eq : Eq (ℕ × ℕ)
pair_eq = record { beq = pair_beq; beq_iff = pair_beq_iff }
