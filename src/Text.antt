-- ===== src/Text.antt =====
-- Rust's `str` and `String` as their UTF-8 bytes, with the std operations that the sources call.
pub mod Laws
pub mod Space
pub mod Utf8
use Prim.Native.Char.{code}
use zentor.Prelude.{
  zero, ◌-◌, length, suc, u32, ℕ, ◌+◌, Bool, true, false, ◌&&◌, ◌||◌, List, [], ◌∷◌, ◌++◌, map,
  String, not, Option, none, some, ltb, leb, ◌==◌, if◌then◌else◌, any, keep,
}
use mathlib.Core.List.{reverse}

abbrev pub Text : Type 0
Text = List ℕ

-- A literal: its code points are its bytes, since every literal of the sources is ASCII.
unfoldable pub text : String → Text
text String.[] = []
text (String.◌∷◌ c s) = code c ∷ text s

-- `s == t`
unfoldable pub text_eq : Text → Text → Bool
text_eq [] [] = true
text_eq [] (b ∷ t) = false
text_eq (a ∷ s) [] = false
text_eq (a ∷ s) (b ∷ t) = a == b && text_eq s t

unfoldable pub is_empty : Text → Bool
is_empty [] = true
is_empty (b ∷ t) = false

unfoldable pub lower_byte : ℕ → ℕ
lower_byte b = if leb b'A' b && leb b b'Z' then b + 32 else b

unfoldable pub to_ascii_lowercase : Text → Text
unfolding lower_byte
to_ascii_lowercase = map lower_byte

unfoldable pub eq_ignore_ascii_case : Text → Text → Bool
unfolding text_eq to_ascii_lowercase
eq_ignore_ascii_case s t = text_eq (to_ascii_lowercase s) (to_ascii_lowercase t)

-- `s.starts_with(p)`; the prefix comes second, as in the source
unfoldable pub starts_with : Text → Text → Bool
starts_with s [] = true
starts_with [] (p ∷ ps) = false
starts_with (a ∷ s) (p ∷ ps) = a == p && starts_with s ps

unfoldable pub ends_with : Text → Text → Bool
unfolding starts_with
ends_with s p = starts_with (reverse s) (reverse p)

unfoldable pub contains : Text → Text → Bool
unfolding starts_with is_empty
contains [] p = is_empty p
contains (a ∷ s) p = starts_with (a ∷ s) p || contains s p

-- `contains_any(text, needles)`
unfoldable pub contains_any : Text → List Text → Bool
unfolding contains
contains_any s needles = any (contains s) needles

-- `matches!(s, "a" | "b" | …)`
unfoldable pub is_one_of : Text → List Text → Bool
unfolding text_eq
is_one_of s options = any (text_eq s) options

-- `s.replace(from, to)` for single bytes
unfoldable pub replace_byte : ℕ → ℕ → Text → Text
replace_byte from to = map (λ b. if b == from then to else b)

-- `s.replace([' ', '_'], "")`
unfoldable pub without_fill : Text → Text
without_fill = keep (λ b. not (b == b' ' || b == b'_'))

unfoldable pub drop_prefix : Text → Text → Option Text
drop_prefix s [] = some s
drop_prefix [] (p ∷ ps) = none
drop_prefix (a ∷ s) (p ∷ ps) = let rest = drop_prefix s ps in if a == p then rest else none

-- a byte before what is left of the rest
abbrev join_end : Bool → ℕ → Text → Text
join_end true b [] = []
join_end true b (c ∷ t) = b ∷ c ∷ t
join_end false b t = b ∷ t

-- `s.trim_end_matches(p)` for a test on ASCII characters
unfoldable pub trim_end_bytes : (ℕ → Bool) → Text → Text
trim_end_bytes p [] = []
trim_end_bytes p (b ∷ t) = join_end (p b) b (trim_end_bytes p t)

unfoldable pub trim_start_bytes : (ℕ → Bool) → Text → Text
trim_start_bytes p [] = []
trim_start_bytes p (b ∷ t) = let rest = trim_start_bytes p t in if p b then rest else b ∷ t

-- `s.split(p)` for a test on ASCII characters: the pieces between the separators, one at least
abbrev pub push_front : ℕ → List Text → List Text
push_front b [] = (b ∷ []) ∷ []
push_front b (piece ∷ rest) = (b ∷ piece) ∷ rest

unfoldable pub split_on : (ℕ → Bool) → Text → List Text
split_on p [] = [] ∷ []
split_on p (b ∷ t) = let pieces = split_on p t in if p b then [] ∷ pieces else push_front b pieces

-- `items.map(f).collect::<Vec<_>>().join(separator)`
unfoldable pub join_with {ℓ} : {A : Type ℓ} → Text → (A → Text) → List A → Text
join_with separator f [] = []
join_with separator f (a ∷ []) = f a
join_with separator f (a ∷ b ∷ rest) = f a ++ (separator ++ join_with separator f (b ∷ rest))

-- `text.matches(term).count()`, the matches that do not overlap; `skip` bytes of the last match are
-- still to come
unfoldable pub matches_from : Text → ℕ → Text → ℕ
unfolding starts_with
matches_from term skip [] = 0
matches_from term (suc skip) (b ∷ t) = matches_from term skip t
matches_from term zero (b ∷ t) = elim (starts_with (b ∷ t) term) [
  | true ↦ suc (matches_from term (length term - 1) t)
  | false ↦ matches_from term 0 t
]

unfoldable pub count_matches : Text → Text → ℕ
unfolding matches_from
count_matches s term = matches_from term 0 s

-- `terms.iter().map(|term| text.matches(term).count() as u32).sum()`
unfoldable pub count_terms : Text → List Text → ℕ
unfolding count_matches
count_terms s [] = 0
count_terms s (term ∷ rest) = u32 (u32 (count_matches s term) + count_terms s rest)

-- `s.rsplit('.').next()`: what stands behind the last separator
abbrev last_or_empty : List Text → Text
last_or_empty [] = []
last_or_empty (piece ∷ []) = piece
last_or_empty (piece ∷ next ∷ rest) = last_or_empty (next ∷ rest)

unfoldable pub last_piece : (ℕ → Bool) → Text → Text
unfolding split_on
last_piece p s = last_or_empty (split_on p s)

-- `s.trim_start_matches(p)` for a text `p` that is not empty: the copies of it at the front are cut,
-- of which `skip` bytes are still to come
unfoldable pub cut_from : Text → ℕ → Text → Text
unfolding starts_with
cut_from p skip [] = []
cut_from p (suc skip) (b ∷ t) = cut_from p skip t
cut_from p zero (b ∷ t) =
    let rest = cut_from p (length p - 1) t in if starts_with (b ∷ t) p then rest else b ∷ t

unfoldable pub trim_start_matches : Text → Text → Text
unfolding cut_from
trim_start_matches s p = cut_from p 0 s
