-- ===== src/Update.antt =====
-- core/avorax_update_service/src: which update packages the update service takes for newer.
pub mod Numbers
pub mod Versions
pub mod Package
pub mod Manifest
pub mod Rollback
pub mod Verifier
pub mod Apply
use zentor.Prelude.{
  ℕ, ◌+◌, ◌*◌, ◌-◌, ◌^◌, Bool, true, false, ◌&&◌, ◌||◌, Option, none, some, List, [], ◌∷◌, leb, ltb,
  ◌==◌, filter_map, if◌then◌else◌,
}
use zentor.Prelude.Int.{ℤ, pos, negsuc}
use zentor.Text.{Text, trim_start_bytes, split_on}
use zentor.Text.Space.{trim}

-- `part.parse::<u64>().ok()` for a part without a sign: digits, one at least, in range
abbrev add_digit : ℕ → ℕ → Option ℕ
add_digit n c =
    if leb b'0' c && leb c b'9' && ltb (10 * n + (c - b'0')) (2 ^ 64)
    then some (10 * n + (c - b'0'))
    else none

parse_from : ℕ → Text → Option ℕ
parse_from n [] = some n
parse_from n (c ∷ rest) = elim (add_digit n c) [ none ↦ none | some m ↦ parse_from m rest ]

unfoldable pub parse_u64 : Text → Option ℕ
unfolding parse_from
parse_u64 [] = none
parse_u64 (c ∷ rest) = parse_from 0 (c ∷ rest)

-- The `+` at which a version is split leaves no part that begins with a sign.
unfoldable pub version_parts : Text → List ℕ
unfolding parse_u64
version_parts value = filter_map parse_u64 (
    split_on (λ b. b == b'.' || b == b'-' || b == b'+')
      (trim_start_bytes (λ b. b == b'v' || b == b'V') (trim value)))

-- one round of the loop, before the rest of the parts
abbrev pub part_step : ℕ → ℕ → ℤ → ℤ
part_step left right rest =
    if left == right then rest else if ltb left right then negsuc 0 else pos 1

-- the loop, where a part that is missing is 0
unfoldable pub compare_parts : List ℕ → List ℕ → ℤ
compare_parts [] [] = pos 0
compare_parts (x ∷ xs) [] = part_step x 0 (compare_parts xs [])
compare_parts [] (y ∷ ys) = part_step 0 y (compare_parts [] ys)
compare_parts (x ∷ xs) (y ∷ ys) = part_step x y (compare_parts xs ys)

unfoldable pub compare_versions : Text → Text → ℤ
unfolding version_parts compare_parts
compare_versions left right = compare_parts (version_parts left) (version_parts right)
