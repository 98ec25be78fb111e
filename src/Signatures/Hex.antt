-- ===== src/Signatures/Hex.antt =====
-- signatures/byte_pattern_signatures.rs: byte patterns written in hexadecimal.
pub mod Codec
pub mod Masks
pub mod Written
use zentor.Prelude.{
  ℕ, zero, suc, ◌+◌, ◌-◌, ◌*◌, ◌/◌, ◌%◌, Bool, true, false, ◌&&◌, ◌||◌, not, Option, none, some,
  List, [], ◌∷◌, leb, ltb, ◌==◌, if◌then◌else◌, length, take, drop, push_some,
}
use zentor.Text.{Text, text_eq, contains, without_fill}
use zentor.Analysis.Zip.{saturating_add}
use zentor.Outcome.{Outcome, ok, panic, ◌>>=◌}

-- `char::to_digit(16)`
unfoldable pub hex_digit : ℕ → Option ℕ
hex_digit c =
    if leb b'0' c && leb c b'9'
    then some (c - b'0')
    else if leb b'a' c && leb c b'f'
    then some (c - b'a' + 10)
    else if leb b'A' c && leb c b'F'
    then some (c - b'A' + 10)
    else none

abbrev pub join_digits : Option ℕ → Option ℕ → Option ℕ
join_digits (some high) (some low) = some (16 * high + low)
join_digits _ _ = none

-- `u8::from_str_radix(pair, 16).ok()`, which takes a sign before one digit
unfoldable pub from_hex_pair : ℕ → ℕ → Option ℕ
unfolding hex_digit
from_hex_pair a b = if a == b'+' then hex_digit b else join_digits (hex_digit a) (hex_digit b)

-- `is_char_boundary` before the text
unfoldable pub at_char : Text → Bool
at_char [] = true
at_char (b ∷ t) = not (leb 128 b && ltb b 192)

abbrev pub then_digits : Option ℕ → Outcome (Option (List ℕ)) → Outcome (Option (List ℕ))
then_digits none later = ok none
then_digits (some n) later =
    later >>= λ found. ok (elim found [ none ↦ none | some ns ↦ some (n ∷ ns) ])

-- The pairs one after the other: a slice inside a character panics, and the first pair that is no
-- number ends the walk.
unfoldable pub decode_pairs : Text → Outcome (Option (List ℕ))
unfolding at_char from_hex_pair
decode_pairs [] = ok (some [])
decode_pairs (a ∷ []) = ok (some [])
decode_pairs (a ∷ b ∷ rest) =
    let later = decode_pairs rest in
    if at_char (a ∷ b ∷ rest) && at_char rest then then_digits (from_hex_pair a b) later else panic

unfoldable pub decode_hex : Text → Outcome (Option (List ℕ))
unfolding without_fill
decode_hex value =
    let clean = without_fill value in if length clean % 2 == 0 then decode_pairs clean else ok none

-- `bytes.windows(pattern.len()).any(|window| window == pattern)`; windows of length 0 panic
unfoldable pub any_window : List ℕ → List ℕ → Outcome Bool
any_window bytes [] = panic
any_window bytes (p ∷ pattern) = ok (contains bytes (p ∷ pattern))

abbrev pub on_pattern {ℓ} : {A : Type ℓ} → A → (List ℕ → Outcome A) → Option (List ℕ) → Outcome A
on_pattern absent use_pattern none = ok absent
on_pattern absent use_pattern (some pattern) = use_pattern pattern

unfoldable pub contains_hex_pattern : List ℕ → Text → Outcome Bool
unfolding any_window
contains_hex_pattern bytes pattern = decode_hex pattern >>= on_pattern false (any_window bytes)

-- `bytes.get(offset..end)` equal to the pattern
unfoldable pub window_at : List ℕ → ℕ → List ℕ → Bool
window_at bytes offset pattern =
    let end = saturating_add offset (length pattern) in
    leb offset end
    && leb end (length bytes)
    && text_eq (take (end - offset) (drop offset bytes)) pattern

unfoldable pub matches_hex_pattern_at : List ℕ → Text → ℕ → Outcome Bool
unfolding window_at
matches_hex_pattern_at bytes pattern offset =
    decode_hex pattern >>= on_pattern false (λ p. ok (window_at bytes offset p))

-- `a & b` on the `n` lowest bits
unfoldable pub bit_and : ℕ → ℕ → ℕ → ℕ
bit_and zero a b = 0
bit_and (suc n) a b = (if a % 2 == 1 && b % 2 == 1 then 1 else 0) + 2 * bit_and n (a / 2) (b / 2)

-- the pattern under its mask at the start of the bytes
unfoldable pub masked_prefix : List ℕ → List ℕ → List ℕ → Bool
unfolding bit_and
masked_prefix (actual ∷ bytes) (p ∷ pattern) (m ∷ mask) =
    bit_and 8 actual m == bit_and 8 p m && masked_prefix bytes pattern mask
masked_prefix [] (p ∷ pattern) mask = false
masked_prefix _ _ _ = true

unfoldable pub any_masked : List ℕ → List ℕ → List ℕ → Bool
unfolding masked_prefix
any_masked [] pattern mask = masked_prefix [] pattern mask
any_masked (b ∷ bytes) pattern mask =
    masked_prefix (b ∷ bytes) pattern mask || any_masked bytes pattern mask

-- the windows under the mask; windows of length 0 panic
unfoldable pub any_masked_window : List ℕ → List ℕ → List ℕ → Outcome Bool
unfolding any_masked
any_masked_window bytes [] mask = panic
any_masked_window bytes (p ∷ pattern) mask = ok (any_masked bytes (p ∷ pattern) mask)

unfoldable pub contains_masked_hex_pattern : List ℕ → Text → Text → Outcome Bool
unfolding any_masked_window
contains_masked_hex_pattern bytes pattern mask =
    decode_hex pattern
    >>= on_pattern false λ p.
      decode_hex mask
      >>= on_pattern false
          λ m. if length p == length m then any_masked_window bytes p m else ok false
