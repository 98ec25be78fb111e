-- ===== src/Signatures/Hex/Masks.antt =====
-- Patterns under a mask (signatures/byte_pattern_signatures.rs).
use zentor.Prelude.{ℕ, zero, suc, ◌+◌, ◌*◌, ◌/◌, ◌<◌, ◌≡◌, refl, List, [], ◌∷◌, All, length, arith}
use zentor.Text.{starts_with, contains}
use zentor.Signatures.Hex.{
  bit_and, masked_prefix, any_masked, any_masked_window, any_window, contains_hex_pattern,
  contains_masked_hex_pattern,
}
use zentor.Signatures.Hex.Codec.{encode_hex, decode_hex-encode_hex}

-- `n` bits that are all set
abbrev ones : ℕ → ℕ
ones zero = 0
ones (suc n) = 1 + 2 * ones n

bit_and-ones : (n a : ℕ) → a < suc (ones n) → bit_and n a (ones n) ≡ a
unfolding bit_and
bit_and-ones zero a h = omega arith
bit_and-ones (suc n) a h =
    rw (odd_half (ones n), bit_and-ones n (a / 2) (omega arith)) (ground arith)
  where
    odd_half : (k : ℕ) → (1 + 2 * k) / 2 ≡ k
    odd_half k = omega arith

bit_and-255 : (a : ℕ) → a < 256 → bit_and 8 a 255 ≡ a
bit_and-255 a h = bit_and-ones 8 a h

-- a mask with every bit set, for a pattern
abbrev full_mask : List ℕ → List ℕ
full_mask [] = []
full_mask (p ∷ pattern) = 255 ∷ full_mask pattern

length-full_mask : (pattern : List ℕ) → length (full_mask pattern) ≡ length pattern
length-full_mask [] = refl
length-full_mask (p ∷ pattern) = omega (arith, length-full_mask pattern)

full_mask-bytes : (pattern : List ℕ) → All (λ b. b < 256) (full_mask pattern)
full_mask-bytes [] = tt
full_mask-bytes (p ∷ pattern) = (omega arith, full_mask-bytes pattern)

masked_prefix-full :
    (bytes pattern : List ℕ)
    → All (λ b. b < 256) bytes
    → All (λ b. b < 256) pattern
    → masked_prefix bytes pattern (full_mask pattern) ≡ starts_with bytes pattern
unfolding masked_prefix starts_with
masked_prefix-full [] [] hb hp = refl
masked_prefix-full (b ∷ bytes) [] hb hp = refl
masked_prefix-full [] (p ∷ pattern) hb hp = refl
masked_prefix-full (b ∷ bytes) (p ∷ pattern) hb hp =
    rw (bit_and-255 b hb.0, bit_and-255 p hp.0, masked_prefix-full bytes pattern hb.1 hp.1)

any_masked-full :
    (bytes : List ℕ) (p : ℕ) (pattern : List ℕ)
    → All (λ b. b < 256) bytes
    → All (λ b. b < 256) (p ∷ pattern)
    → any_masked bytes (p ∷ pattern) (full_mask (p ∷ pattern)) ≡ contains bytes (p ∷ pattern)
unfolding any_masked contains masked_prefix
any_masked-full [] p pattern hb hp = refl
any_masked-full (b ∷ bytes) p pattern hb hp =
    rw (masked_prefix-full (b ∷ bytes) (p ∷ pattern) hb hp, any_masked-full bytes p pattern hb.1 hp)

-- `contains_masked_hex_pattern`: under a mask of the pattern's length with every bit set, the masked
-- search gives on every file what the search without a mask gives.
contains_masked_hex_pattern-full :
    (bytes : List ℕ) (p : ℕ) (pattern : List ℕ)
    → All (λ b. b < 256) bytes
    → All (λ b. b < 256) (p ∷ pattern)
    → contains_masked_hex_pattern bytes
        (encode_hex (p ∷ pattern))
        (encode_hex (full_mask (p ∷ pattern)))
      ≡ contains_hex_pattern bytes (encode_hex (p ∷ pattern))
unfolding contains_masked_hex_pattern contains_hex_pattern any_masked_window any_window
contains_masked_hex_pattern-full bytes p pattern hb hp =
    rw
      (
        decode_hex-encode_hex (p ∷ pattern) hp,
        decode_hex-encode_hex (full_mask (p ∷ pattern)) (full_mask-bytes (p ∷ pattern)),
        length-full_mask (p ∷ pattern),
        any_masked-full bytes p pattern hb hp,
      )
      (ground arith)
