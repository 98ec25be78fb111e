-- ===== src/Text/Space.antt =====
-- `str::trim`: the white space of Unicode, in UTF-8.
use zentor.Prelude.{ℕ, zero, suc, Bool, ◌||◌, ◌&&◌, [], ◌∷◌, leb, ◌==◌, if◌then◌else◌}
use zentor.Text.{Text, is_empty}

abbrev is_ascii_space : ℕ → Bool
is_ascii_space b = (leb 9 b && leb b 13) || b == 32

-- U+0085, U+00A0
abbrev is_space2 : ℕ → ℕ → Bool
is_space2 a b = a == 0xC2 && (b == 0x85 || b == 0xA0)

-- U+1680, U+2000 to U+200A, U+2028, U+2029, U+202F, U+205F, U+3000
abbrev is_space3 : ℕ → ℕ → ℕ → Bool
is_space3 a b c =
    (a == 0xE1 && b == 0x9A && c == 0x80)
    || (a == 0xE2
        && b == 0x80
        && ((leb 0x80 c && leb c 0x8A) || c == 0xA8 || c == 0xA9 || c == 0xAF))
    || (a == 0xE2 && b == 0x81 && c == 0x9F)
    || (a == 0xE3 && b == 0x80 && c == 0x80)

-- how many bytes the white-space character at the front has, 0 if none stands there
unfoldable pub space_width : Text → ℕ
space_width [] = 0
space_width (a ∷ []) = if is_ascii_space a then 1 else 0
space_width (a ∷ b ∷ []) = if is_ascii_space a then 1 else if is_space2 a b then 2 else 0
space_width (a ∷ b ∷ c ∷ t) =
    if is_ascii_space a then 1 else if is_space2 a b then 2 else if is_space3 a b c then 3 else 0

-- `skip` bytes of a white-space character are still to be dropped
unfoldable pub trim_from : ℕ → Text → Text
unfolding space_width
trim_from skip [] = []
trim_from (suc skip) (b ∷ t) = trim_from skip t
trim_from zero (b ∷ t) = elim (space_width (b ∷ t)) [ zero ↦ b ∷ t | suc k ↦ trim_from k t ]

unfoldable pub trim_start : Text → Text
unfolding trim_from
trim_start = trim_from 0

-- No white space begins inside a character, so only whole trailing characters are cut.
unfoldable pub trim_end : Text → Text
unfolding trim_start is_empty
trim_end [] = []
trim_end (b ∷ t) = let rest = trim_end t in if is_empty (trim_start (b ∷ t)) then [] else b ∷ rest

unfoldable pub trim : Text → Text
unfolding trim_start trim_end
trim s = trim_end (trim_start s)

-- `s.trim().is_empty()`
unfoldable pub is_blank : Text → Bool
unfolding trim is_empty
is_blank s = is_empty (trim s)
