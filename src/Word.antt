-- ===== src/Word.antt =====
-- 256-bit words, `U256` of alloy_primitives, as native numbers below `2 ^ 256`, and the operations
-- on them that the code uses. Addresses, hashes and `u64` values are native numbers too.
pub mod Bits
use Prim.Native.Nat.{bit_and, bit_or}
use evm_fork_cache.Prelude.{ℕ, ◌+◌, ◌-◌, ◌^◌, leb, if◌then◌else◌}

-- `Address`, `B256` and `Bytecode` values are told apart by equality only.
abbrev pub Address : Type 0
Address = ℕ

abbrev pub U256 : Type 0
U256 = ℕ

abbrev pub B256 : Type 0
B256 = ℕ

-- `U256::MAX`
abbrev pub max_u256 : ℕ
max_u256 = 2 ^ 256 - 1

-- `U256::saturating_add`
unfoldable pub saturating_add : U256 → U256 → U256
saturating_add a b = if leb (a + b) max_u256 then a + b else max_u256

-- `U256::saturating_sub`: subtraction on ℕ stops at 0 by itself
unfoldable pub saturating_sub : U256 → U256 → U256
saturating_sub a b = a - b

-- `!x` on 256 bits
unfoldable pub complement : U256 → U256
complement x = max_u256 - x

-- `(old & !mask) | (value & mask)`
unfoldable pub masked : U256 → U256 → U256 → U256
masked old mask value = bit_or (bit_and old (complement mask)) (bit_and value mask)
