-- ===== src/Signatures/Hex/Codec.antt =====
-- Hexadecimal patterns: what a written pattern decodes to, and where it is found
-- (signatures/byte_pattern_signatures.rs).
use mathlib.Core.Logic.{◌↔◌}
use zentor.Prelude.{
  ℕ, ◌+◌, ◌*◌, ◌/◌, ◌%◌, ◌<◌, ◌≡◌, refl, Bool, true, false, some, List, [], ◌∷◌, ◌++◌, All, length,
  arith, ltb, ◌==◌, if◌then◌else◌,
}
use zentor.Text.{Text, without_fill, contains}
use zentor.Text.Laws.{contains→append, contains-append}
use zentor.Outcome.{ok}
use zentor.Signatures.Hex.{hex_digit, from_hex_pair, at_char, decode_pairs, decode_hex}

-- Two lower-case digits for each byte.
unfoldable pub hex_char : ℕ → ℕ
hex_char d = if ltb d 10 then 48 + d else 87 + d

unfoldable pub encode_hex : List ℕ → Text
encode_hex [] = []
encode_hex (b ∷ bytes) = hex_char (b / 16) ∷ hex_char (b % 16) ∷ encode_hex bytes

hex_digit-hex_char : (d : ℕ) → d < 16 → hex_digit (hex_char d) ≡ some d
unfolding hex_digit hex_char
hex_digit-hex_char d h = ground arith

hex_char-not_sign : (d : ℕ) → (hex_char d == b'+') ≡ false
unfolding hex_char
hex_char-not_sign d = ground arith

at_char-hex_char : (d : ℕ) (t : Text) → d < 16 → at_char (hex_char d ∷ t) ≡ true
unfolding hex_char at_char
at_char-hex_char d t h = ground arith

from_hex_pair-byte :
    (b : ℕ) → b < 256 → from_hex_pair (hex_char (b / 16)) (hex_char (b % 16)) ≡ some b
unfolding from_hex_pair
from_hex_pair-byte b h =
    rw
      (
        hex_char-not_sign (b / 16),
        hex_digit-hex_char (b / 16) (omega arith),
        hex_digit-hex_char (b % 16) (omega arith),
      )
      (ground arith)

at_char_nil : at_char [] ≡ true
unfolding at_char
at_char_nil = refl

at_char-encode_hex : (bytes : List ℕ) → All (λ b. b < 256) bytes → at_char (encode_hex bytes) ≡ true
unfolding encode_hex
at_char-encode_hex [] h = at_char_nil
at_char-encode_hex (b ∷ bytes) h = at_char-hex_char (b / 16) _ (omega arith)

decode_pairs-encode_hex :
    (bytes : List ℕ) → All (λ b. b < 256) bytes → decode_pairs (encode_hex bytes) ≡ ok (some bytes)
unfolding encode_hex decode_pairs
decode_pairs-encode_hex [] h = refl
decode_pairs-encode_hex (b ∷ bytes) h = rw (
  at_char-hex_char (b / 16) (hex_char (b % 16) ∷ encode_hex bytes) (omega arith),
  at_char-encode_hex bytes h.1,
  from_hex_pair-byte b (omega arith),
  decode_pairs-encode_hex bytes h.1,
)

hex_char-not_fill : (d : ℕ) (t : Text) → without_fill (hex_char d ∷ t) ≡ hex_char d ∷ without_fill t
unfolding without_fill hex_char
hex_char-not_fill d t = ground arith

without_fill_nil : without_fill [] ≡ []
unfolding without_fill
without_fill_nil = refl

without_fill-encode_hex : (bytes : List ℕ) → without_fill (encode_hex bytes) ≡ encode_hex bytes
unfolding encode_hex
without_fill-encode_hex [] = without_fill_nil
without_fill-encode_hex (b ∷ bytes) = rw (
  hex_char-not_fill (b / 16) (hex_char (b % 16) ∷ encode_hex bytes),
  hex_char-not_fill (b % 16) (encode_hex bytes),
  without_fill-encode_hex bytes,
)

length-encode_hex : (bytes : List ℕ) → length (encode_hex bytes) ≡ 2 * length bytes
unfolding encode_hex
length-encode_hex [] = omega arith
length-encode_hex (b ∷ bytes) = omega (arith, length-encode_hex bytes)

-- `decode_hex`: a sequence of bytes written with two hexadecimal digits for each byte is read back as
-- it was, and no slice of the text panics.
pub decode_hex-encode_hex :
    (bytes : List ℕ) → All (λ b. b < 256) bytes → decode_hex (encode_hex bytes) ≡ ok (some bytes)
unfolding decode_hex
decode_hex-encode_hex bytes h =
    rw (without_fill-encode_hex bytes, decode_pairs-encode_hex bytes h, length-encode_hex bytes)
      (ground arith)

-- The pattern stands somewhere in the bytes.
abbrev pub Occurs : List ℕ → List ℕ → Type 0
Occurs pattern bytes = (l : List ℕ) × (r : List ℕ) × (bytes ≡ l ++ (pattern ++ r))

pub contains_iff : (bytes pattern : List ℕ) → (contains bytes pattern ≡ true) ↔ Occurs pattern bytes
contains_iff bytes pattern =
    (contains→append bytes pattern, λ h. let (l, r, e) = h in rw e (contains-append l pattern r))

pub ok-inj_true : (b : Bool) → ok b ≡ ok true → b ≡ true
ok-inj_true b h = cc
