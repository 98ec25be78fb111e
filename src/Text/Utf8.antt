-- ===== src/Text/Utf8.antt =====
-- `String::from_utf8_lossy`, and `str::encode_utf16` in little-endian bytes.
use zentor.Prelude.{
  ℕ, zero, suc, ◌+◌, ◌-◌, ◌*◌, ◌/◌, ◌%◌, Bool, ◌&&◌, List, [], ◌∷◌, ◌++◌, leb, ltb, ◌==◌,
  if◌then◌else◌,
}
use zentor.Text.{Text}

-- The decoder between two bytes: at a boundary, or inside a character, with the bytes read of it,
-- the range that its next byte must lie in, and how many bytes follow that one.
pub data Scan : Type 0 where
  boundary : Scan
  inside : Text → ℕ → ℕ → ℕ → Scan

abbrev replacement : Text
replacement = 0xEF ∷ 0xBF ∷ 0xBD ∷ []

abbrev in_range : ℕ → ℕ → ℕ → Bool
in_range lo hi b = leb lo b && leb b hi

-- what the byte at a boundary writes, and the state after it
first_byte : ℕ → Text × Scan
first_byte b =
    if ltb b 0x80
    then (b ∷ [], boundary)
    else if in_range 0xC2 0xDF b
    then ([], inside (b ∷ []) 0x80 0xBF 0)
    else if b == 0xE0
    then ([], inside (b ∷ []) 0xA0 0xBF 1)
    else if b == 0xED
    then ([], inside (b ∷ []) 0x80 0x9F 1)
    else if in_range 0xE1 0xEF b
    then ([], inside (b ∷ []) 0x80 0xBF 1)
    else if b == 0xF0
    then ([], inside (b ∷ []) 0x90 0xBF 2)
    else if in_range 0xF1 0xF3 b
    then ([], inside (b ∷ []) 0x80 0xBF 2)
    else if b == 0xF4
    then ([], inside (b ∷ []) 0x80 0x8F 2)
    else (replacement, boundary)

abbrev accept : Text → ℕ → ℕ → Text × Scan
accept held b zero = (held ++ b ∷ [], boundary)
accept held b (suc more) = ([], inside (held ++ b ∷ []) 0x80 0xBF more)

-- a character that is broken off is replaced, and the byte that broke it off is read afresh
next_byte : Scan → ℕ → Text × Scan
unfolding first_byte
next_byte boundary b = first_byte b
next_byte (inside held lo hi more) b =
    if in_range lo hi b
    then accept held b more
    else (replacement ++ (first_byte b).0, (first_byte b).1)

finish : Scan → Text
finish boundary = []
finish (inside held lo hi more) = replacement

decode_from : Scan → List ℕ → Text
unfolding next_byte finish
decode_from s [] = finish s
decode_from s (b ∷ bytes) = let (out, s') = next_byte s b in out ++ decode_from s' bytes

unfoldable pub from_utf8_lossy : List ℕ → Text
unfolding decode_from
from_utf8_lossy bytes = decode_from boundary bytes

abbrev unit_bytes : ℕ → List ℕ
unit_bytes u = (u % 256) ∷ (u / 256) ∷ []

-- a code point as UTF-16 code units, each as its two bytes, the lower one first
code_point_bytes : ℕ → List ℕ
code_point_bytes c =
    if ltb c 0x1_0000
    then unit_bytes c
    else unit_bytes (0xD800 + (c - 0x1_0000) / 0x400)
      ++ unit_bytes (0xDC00 + (c - 0x1_0000) % 0x400)

-- what a lead byte holds of its code point, and how many continuation bytes follow
lead : ℕ → ℕ × ℕ
lead b =
    if ltb b 0x80
    then (b, 0)
    else if ltb b 0xE0
    then (b % 32, 1)
    else if ltb b 0xF0
    then (b % 16, 2)
    else (b % 8, 3)

abbrev part : ℕ → ℕ → ℕ → ℕ × ℕ
part value zero b = lead b
part value (suc more) b = (value * 64 + b % 64, more)

-- a code point is written when no continuation byte is left
abbrev written : ℕ → ℕ → List ℕ
written value zero = code_point_bytes value
written value (suc more) = []

-- The text is valid UTF-8, as every `str` is, so each lead byte has its continuation bytes.
encode_from : ℕ → ℕ → Text → List ℕ
unfolding lead code_point_bytes
encode_from value more [] = []
encode_from value more (b ∷ t) =
    let (value', more') = part value more b in written value' more' ++ encode_from value' more' t

unfoldable pub encode_utf16_le : Text → List ℕ
unfolding encode_from
encode_utf16_le = encode_from 0 0
