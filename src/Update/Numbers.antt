-- ===== src/Update/Numbers.antt =====
-- The numbers of a version that is written with dots (version_parts of update_verifier.rs).
use zentor.Prelude.{
  ℕ, ◌+◌, ◌-◌, ◌*◌, ◌^◌, ◌<◌, ◌≤◌, ◌≡◌, refl, Bool, false, ◌||◌, some, List, [], ◌∷◌, ◌++◌, map,
  All, All-append, ◌==◌, filter_map, arith,
}
use zentor.Text.{Text, text, split_on, trim_start_bytes, join_with, is_empty}
use zentor.Text.Space.{space_width, trim_from, trim_start, trim_end, trim}
use zentor.Update.{parse_from, parse_u64, version_parts}

-- the number that decimal digits denote, after those that give `n`
abbrev pub decimal : ℕ → Text → ℕ
decimal n [] = n
decimal n (c ∷ t) = decimal (10 * n + (c - b'0')) t

abbrev pub IsDigit : ℕ → Type 0
IsDigit c = (b'0' ≤ c) × (c ≤ b'9')

-- one digit or more, and a `u64`
abbrev pub IsNumber : Text → Type 0
IsNumber [] = ⊥
IsNumber (c ∷ t) = All IsDigit (c ∷ t) × (decimal 0 (c ∷ t) < 2 ^ 64)

abbrev pub dotted : List Text → Text
dotted pieces = join_with (text ".") (λ piece. piece) pieces

decimal_ge : (n : ℕ) (t : Text) → n ≤ decimal n t
decimal_ge n [] = omega arith
decimal_ge n (c ∷ t) = omega (arith, decimal_ge (10 * n + (c - b'0')) t)

parse_from-decimal :
    (n : ℕ) (t : Text) → All IsDigit t → decimal n t < 2 ^ 64 → parse_from n t ≡ some (decimal n t)
unfolding parse_from
parse_from-decimal n [] digits small = refl
parse_from-decimal n (c ∷ t) digits small =
    let least = decimal_ge (10 * n + (c - b'0')) t in
    let rest = parse_from-decimal (10 * n + (c - b'0')) t digits.1 small in
    ground (arith, least, rest)

parse_u64-decimal : (t : Text) → IsNumber t → parse_u64 t ≡ some (decimal 0 t)
unfolding parse_u64
parse_u64-decimal [] h = absurd h
parse_u64-decimal (c ∷ t) h = parse_from-decimal 0 (c ∷ t) h.0 h.1

-- a visible ASCII character
abbrev IsVisible : ℕ → Type 0
IsVisible b = (33 ≤ b) × (b ≤ 126)

trim_start-IsVisible : (b : ℕ) (t : Text) → IsVisible b → trim_start (b ∷ t) ≡ b ∷ t
unfolding trim_start trim_from space_width
trim_start-IsVisible b [] h = ground arith
trim_start-IsVisible b (c ∷ []) h = ground arith
trim_start-IsVisible b (c ∷ d ∷ t) h = ground arith

trim_end-IsVisible : (t : Text) → All IsVisible t → trim_end t ≡ t
unfolding trim_end is_empty
trim_end-IsVisible [] h = refl
trim_end-IsVisible (b ∷ t) h = rw (trim_start-IsVisible b t h.0, trim_end-IsVisible t h.1) refl

trim-IsVisible : (b : ℕ) (t : Text) → All IsVisible (b ∷ t) → trim (b ∷ t) ≡ b ∷ t
unfolding trim
trim-IsVisible b t h = rw (trim_start-IsVisible b t h.0) (trim_end-IsVisible (b ∷ t) h)

abbrev is_mark : ℕ → Bool
is_mark b = b == b'.' || b == b'-' || b == b'+'

split_on-piece :
    (piece rest : Text)
    → All IsDigit piece
    → split_on is_mark (piece ++ b'.' ∷ rest) ≡ piece ∷ split_on is_mark rest
unfolding split_on
split_on-piece [] rest h = refl
split_on-piece (c ∷ piece) rest h =
    let later = split_on-piece piece rest h.1 in
    let plain : is_mark c ≡ false = ground arith in rw (plain, later) refl

split_on-last : (piece : Text) → All IsDigit piece → split_on is_mark piece ≡ piece ∷ []
unfolding split_on
split_on-last [] h = refl
split_on-last (c ∷ piece) h =
    let later = split_on-last piece h.1 in
    let plain : is_mark c ≡ false = ground arith in rw (plain, later) refl

number-digits : (t : Text) → IsNumber t → All IsDigit t
number-digits [] h = absurd h
number-digits (c ∷ t) h = h.0

split_on-dotted :
    (piece : Text) (pieces : List Text)
    → All IsNumber (piece ∷ pieces)
    → split_on is_mark (dotted (piece ∷ pieces)) ≡ piece ∷ pieces
unfolding join_with text
split_on-dotted piece [] h = split_on-last piece (number-digits piece h.0)
split_on-dotted piece (next ∷ pieces) h =
    rw
      (
        split_on-piece piece (dotted (next ∷ pieces)) (number-digits piece h.0),
        split_on-dotted next pieces h.1,
      )
      refl

filter_map-decimal :
    (pieces : List Text)
    → All IsNumber pieces
    → filter_map parse_u64 pieces ≡ map (decimal 0) pieces
filter_map-decimal [] h = refl
filter_map-decimal (piece ∷ pieces) h =
    rw (parse_u64-decimal piece h.0, filter_map-decimal pieces h.1) refl

digits-IsVisible : (t : Text) → All IsDigit t → All IsVisible t
digits-IsVisible [] h = tt
digits-IsVisible (c ∷ t) h = ((omega arith, omega arith), digits-IsVisible t h.1)

dotted-IsVisible : (pieces : List Text) → All IsNumber pieces → All IsVisible (dotted pieces)
unfolding join_with text
dotted-IsVisible [] h = tt
dotted-IsVisible (piece ∷ []) h = digits-IsVisible piece (number-digits piece h.0)
dotted-IsVisible (piece ∷ next ∷ pieces) h =
    All-append IsVisible piece (b'.' ∷ dotted (next ∷ pieces))
      (digits-IsVisible piece (number-digits piece h.0))
      ((omega arith, omega arith), dotted-IsVisible (next ∷ pieces) h.1)

abbrev is_label : ℕ → Bool
is_label b = b == b'v' || b == b'V'

trim_start_bytes-digit : (c : ℕ) (t : Text) → IsDigit c → trim_start_bytes is_label (c ∷ t) ≡ c ∷ t
unfolding trim_start_bytes
trim_start_bytes-digit c t h = let plain : is_label c ≡ false = ground arith in rw plain refl

trim_start_bytes-dotted :
    (piece : Text) (pieces : List Text)
    → IsNumber piece
    → trim_start_bytes is_label (dotted (piece ∷ pieces)) ≡ dotted (piece ∷ pieces)
unfolding join_with text
trim_start_bytes-dotted [] pieces h = absurd h
trim_start_bytes-dotted (c ∷ t) [] h = trim_start_bytes-digit c t h.0.0
trim_start_bytes-dotted (c ∷ t) (next ∷ pieces) h = trim_start_bytes-digit c _ h.0.0

trim_start_bytes-label :
    (t : Text) → trim_start_bytes is_label (b'v' ∷ t) ≡ trim_start_bytes is_label t
unfolding trim_start_bytes
trim_start_bytes-label t = refl

-- `version_parts` of numbers with dots between them, after a `v`, gives the numbers.
pub version_parts-dotted :
    (piece : Text) (pieces : List Text)
    → All IsNumber (piece ∷ pieces)
    → version_parts (b'v' ∷ dotted (piece ∷ pieces)) ≡ map (decimal 0) (piece ∷ pieces)
unfolding version_parts
version_parts-dotted piece pieces h =
    rw
      (
        trim-IsVisible b'v' (dotted (piece ∷ pieces))
            ((omega arith, omega arith), dotted-IsVisible (piece ∷ pieces) h),
        trim_start_bytes-label (dotted (piece ∷ pieces)),
        trim_start_bytes-dotted piece pieces h.0,
        split_on-dotted piece pieces h,
      )
      (filter_map-decimal (piece ∷ pieces) h)
