-- ===== src/BulkStorage/Words.antt =====
-- src/bulk_storage.rs: the extractor's calldata and return data, packed words of 32 bytes. The bytes
-- of a word are alloy's, taken with the two laws of a big-endian representation.
use evm_fork_cache.Prelude.{
  ℕ, zero, suc, subst, ap₂, ◌*◌, ◌^◌, ◌<◌, ◌≤◌, ◌≡◌, refl, sym, ap, ◌∙◌, Option, none, some, List,
  [], ◌∷◌, ◌++◌, arith, length, length-append, ◌==◌, map, if◌then◌else◌, inl, inr, Bool-cases, All,
}
use evm_fork_cache.Prelude.Chunks.{chunks, chunks_from, chunks_from-append, length-chunks_from}
use evm_fork_cache.Word.{U256}
use evm_fork_cache.BulkStorage.{Bytes}

-- `U256::to_be_bytes::<32>` and `U256::from_be_slice`
pub record WordBytes : Type 0 where
  pub to_be_bytes : U256 → Bytes
  pub from_be_slice : Bytes → U256
  pub length-to_be_bytes : (x : U256) → length (to_be_bytes x) ≡ 32
  pub from_be_slice-to_be_bytes : (x : U256) → x < 2 ^ 256 → from_be_slice (to_be_bytes x) ≡ x

module _ (w : WordBytes) where
  -- `pack_slots_calldata`
  unfoldable pub pack_slots_calldata : List U256 → Bytes
  pack_slots_calldata [] = []
  pack_slots_calldata (slot ∷ slots) = w.to_be_bytes slot ++ pack_slots_calldata slots

  -- `decode_packed_values`
  unfoldable pub decode_packed_values : Bytes → ℕ → Option (List U256)
  decode_packed_values data_bytes expected =
      if length data_bytes == expected * 32
      then some (map w.from_be_slice (chunks 32 data_bytes))
      else none

  length-pack_slots_calldata :
      (values : List U256) → length (pack_slots_calldata values) ≡ length values * 32
  unfolding pack_slots_calldata
  length-pack_slots_calldata [] = refl
  length-pack_slots_calldata (x ∷ values) = omega (
    arith,
    length-append (w.to_be_bytes x) (pack_slots_calldata values),
    w.length-to_be_bytes x,
    length-pack_slots_calldata values,
  )

  unpack_word :
      (fuel : ℕ) (x : U256) (rest : Bytes)
      → chunks_from (suc fuel) 32 (w.to_be_bytes x ++ rest)
        ≡ w.to_be_bytes x ∷ chunks_from fuel 32 rest
  unpack_word fuel x rest =
      subst
        (λ n.
          chunks_from (suc fuel) n (w.to_be_bytes x ++ rest)
          ≡ w.to_be_bytes x ∷ chunks_from fuel n rest)
        (w.length-to_be_bytes x)
        (chunks_from-append fuel (w.to_be_bytes x) rest (omega (arith, w.length-to_be_bytes x)))

  unpack_words :
      (fuel : ℕ) (values : List U256)
      → length values ≤ fuel
      → All (λ x. x < 2 ^ 256) values
      → map w.from_be_slice (chunks_from fuel 32 (pack_slots_calldata values)) ≡ values
  unfolding pack_slots_calldata chunks_from
  unpack_words fuel [] enough small = refl
  unpack_words zero (x ∷ values) enough small = absurd (omega arith)
  unpack_words (suc fuel) (x ∷ values) enough small =
      ap (map w.from_be_slice) (unpack_word fuel x (pack_slots_calldata values))
      ∙ ap₂ (λ y ys. y ∷ ys) (w.from_be_slice-to_be_bytes x small.0)
          (unpack_words fuel values (omega arith) small.1)

  -- Packed 256-bit words decode to themselves where as many are expected as there are, and to none
  -- where any other number is expected.
  pub decode_packed_values-pack_slots_calldata :
      (values : List U256) (expected : ℕ)
      → All (λ x. x < 2 ^ 256) values
      → decode_packed_values (pack_slots_calldata values) expected
        ≡ (if length values == expected then some values else none)
  unfolding decode_packed_values
  decode_packed_values-pack_slots_calldata values expected small = ground (
    arith,
    length-pack_slots_calldata values,
    unpack_words (length (pack_slots_calldata values)) values
        (omega (arith, length-pack_slots_calldata values)) small,
  )

  length-map {ℓ κ} :
      {A : Type ℓ} {B : Type κ} (f : A → B) (xs : List A) → length (map f xs) ≡ length xs
  length-map f [] = refl
  length-map f (x ∷ xs) = ap suc (length-map f xs)

  -- What decodes has as many values as expected.
  pub length-decode_packed_values :
      (data_bytes : Bytes) (expected : ℕ) (values : List U256)
      → decode_packed_values data_bytes expected ≡ some values
      → length values ≡ expected
  unfolding decode_packed_values
  length-decode_packed_values data_bytes expected values h =
      elim (Bool-cases (length data_bytes == expected * 32)) [
        | inl exact ↦
            let decoded : map w.from_be_slice (chunks 32 data_bytes) ≡ values = ground (arith, h) in
            ap length (sym decoded)
            ∙ length-map w.from_be_slice (chunks 32 data_bytes)
            ∙ length-chunks_from expected (length data_bytes) 31 data_bytes (ground arith)
                (ground arith)
        | inr other ↦ absurd (ground (arith, h))
      ]
