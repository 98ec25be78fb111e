-- ===== src/Signatures/Hex/Written.antt =====
-- Hexadecimal patterns as they may be written, in either case and with spaces or `_` between the
-- digits (signatures/byte_pattern_signatures.rs).
use mathlib.Core.Logic.{◌↔◌}
use zentor.Prelude.{
  ℕ, ◌+◌, ◌-◌, ◌*◌, ◌/◌, ◌%◌, ◌<◌, ◌≤◌, ◌≡◌, refl, ◌⊎◌, inl, inr, true, false, some, List, [], ◌∷◌,
  length, arith, ◌==◌,
}
use zentor.Text.{Text, without_fill}
use zentor.Outcome.{ok}
use zentor.Signatures.Hex.{
  hex_digit, from_hex_pair, at_char, decode_pairs, decode_hex, any_window, contains_hex_pattern,
}
use zentor.Signatures.Hex.Codec.{Occurs, contains_iff, ok-inj_true}

-- what may stand between the digits
abbrev pub IsFill : ℕ → Type 0
IsFill c = (c ≡ b' ') ⊎ (c ≡ b'_')

-- the byte is a digit of that value: `0` to `9`, `a` to `f` or `A` to `F`
abbrev pub Digit : ℕ → ℕ → Type 0
Digit c d =
    ((c ≡ b'0' + d) × (d < 10))
    ⊎ ((d < 16) × (((c ≡ b'a' + d - 10) × (10 ≤ d)) ⊎ ((c ≡ b'A' + d - 10) × (10 ≤ d))))

-- the text has the digits in order, with fill anywhere
abbrev pub HasDigits : Text → List ℕ → Type 0
HasDigits [] ds = ds ≡ []
HasDigits (c ∷ t) ds =
    (IsFill c × HasDigits t ds)
    ⊎ ((d : ℕ) × (later : List ℕ) × (ds ≡ d ∷ later) × Digit c d × HasDigits t later)

-- the high and the low digit of each byte
abbrev pub digits_of : List ℕ → List ℕ
digits_of [] = []
digits_of (b ∷ bytes) = b / 16 ∷ b % 16 ∷ digits_of bytes

hex_digit-Digit : (c d : ℕ) → Digit c d → hex_digit c ≡ some d
unfolding hex_digit
hex_digit-Digit c d h = ground arith

Digit-not_sign : (c d : ℕ) → Digit c d → (c == b'+') ≡ false
Digit-not_sign c d h = ground arith

at_char-Digit : (c d : ℕ) (t : Text) → Digit c d → at_char (c ∷ t) ≡ true
unfolding at_char
at_char-Digit c d t h = ground arith

without_fill-IsFill : (c : ℕ) (t : Text) → IsFill c → without_fill (c ∷ t) ≡ without_fill t
unfolding without_fill
without_fill-IsFill c t h = ground arith

without_fill-Digit : (c d : ℕ) (t : Text) → Digit c d → without_fill (c ∷ t) ≡ c ∷ without_fill t
unfolding without_fill
without_fill-Digit c d t h = ground arith

-- nothing but the digits
abbrev Digits : Text → List ℕ → Type 0
Digits [] ds = ds ≡ []
Digits (c ∷ t) [] = ⊥
Digits (c ∷ t) (d ∷ ds) = Digit c d × Digits t ds

without_fill_nil : Digits (without_fill []) []
unfolding without_fill
without_fill_nil = refl

without_fill-Digits : (t : Text) (ds : List ℕ) → HasDigits t ds → Digits (without_fill t) ds
without_fill-Digits [] ds h = rw h without_fill_nil
without_fill-Digits (c ∷ t) ds (inl (fill, h)) =
    rw (without_fill-IsFill c t fill) (without_fill-Digits t ds h)
without_fill-Digits (c ∷ t) ds (inr (d, later, e, digit, h)) =
    rw (e, without_fill-Digit c d t digit) (digit, without_fill-Digits t later h)

at_char-Digits : (t : Text) (ds : List ℕ) → Digits t ds → at_char t ≡ true
unfolding at_char
at_char-Digits [] ds h = refl
at_char-Digits (c ∷ t) [] h = absurd h
at_char-Digits (c ∷ t) (d ∷ ds) h = at_char-Digit c d t h.0

from_hex_pair-Digit : (a c b : ℕ) → Digit a (b / 16) → Digit c (b % 16) → from_hex_pair a c ≡ some b
unfolding from_hex_pair
from_hex_pair-Digit a c b high low =
    rw (Digit-not_sign a _ high, hex_digit-Digit a _ high, hex_digit-Digit c _ low) (ground arith)

decode_pairs-Digits :
    (bytes : List ℕ) (t : Text)
    → Digits t (digits_of bytes)
    → (decode_pairs t ≡ ok (some bytes)) × (length t ≡ 2 * length bytes)
unfolding decode_pairs
decode_pairs-Digits [] [] h = (refl, refl)
decode_pairs-Digits [] (c ∷ t) h = absurd h
decode_pairs-Digits (b ∷ bytes) [] h = cc
decode_pairs-Digits (b ∷ bytes) (a ∷ []) h = cc
decode_pairs-Digits (b ∷ bytes) (a ∷ c ∷ t) (high, (low, h)) =
    let (rest, even) = decode_pairs-Digits bytes t h in
    (
      rw (
        at_char-Digit a _ (c ∷ t) high,
        at_char-Digits t _ h,
        from_hex_pair-Digit a c b high low,
        rest,
      ),
      omega (arith, even),
    )

-- `decode_hex` reads the bytes back from any way in which they are written.
decode_hex-HasDigits :
    (bytes : List ℕ) (t : Text) → HasDigits t (digits_of bytes) → decode_hex t ≡ ok (some bytes)
unfolding decode_hex
decode_hex-HasDigits bytes t h =
    let (read, even) = decode_pairs-Digits bytes (without_fill t) (without_fill-Digits t _ h) in
    rw (read, even) (ground arith)

-- `contains_hex_pattern`: for a pattern of one byte or more that is written in hexadecimal, two
-- digits for each byte in either case, with spaces or `_` anywhere, the search answers true exactly
-- when the bytes of the pattern stand somewhere in the file.
pub contains_hex_pattern_iff :
    (bytes : List ℕ) (p : ℕ) (pattern : List ℕ) (written : Text)
    → HasDigits written (digits_of (p ∷ pattern))
    → (contains_hex_pattern bytes written ≡ ok true) ↔ Occurs (p ∷ pattern) bytes
unfolding contains_hex_pattern any_window
contains_hex_pattern_iff bytes p pattern written h =
    rw (decode_hex-HasDigits (p ∷ pattern) written h) (
      λ e. (contains_iff bytes (p ∷ pattern)).0 (ok-inj_true _ e),
      λ e. rw ((contains_iff bytes (p ∷ pattern)).1 e),
    )
