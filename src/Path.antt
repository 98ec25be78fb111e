-- ===== src/Path.antt =====
-- `std::path` as compiled on Unix: a path is its UTF-8 text, read through its components.
pub mod Joined
use Prim.Native.Nat.{compare, Ordering}
use zentor.Prelude.{
  ℕ, Bool, true, false, ◌&&◌, Option, none, some, List, [], ◌∷◌, ◌==◌, if◌then◌else◌,
}
use zentor.Text.{Text, text, text_eq, split_on, is_empty, starts_with}

-- The components that a Unix path has; `Prefix` occurs on Windows only.
pub data Component : Type 0 where
  root_dir cur_dir parent_dir : Component
  normal : Text → Component

abbrev pub is_slash : ℕ → Bool
is_slash b = b == b'/'

-- pieces that are empty or a dot say nothing inside a path
abbrev component_of : Text → List Component → List Component
component_of piece rest =
    if is_empty piece
    then rest
    else if text_eq piece (text ".")
    then rest
    else if text_eq piece (text "..")
    then parent_dir ∷ rest
    else normal piece ∷ rest

body : List Text → List Component
unfolding is_empty text_eq text
body [] = []
body (piece ∷ rest) = component_of piece (body rest)

-- a leading dot is kept where no root stands before it
relative : List Text → List Component
unfolding body
relative [] = []
relative (piece ∷ rest) =
    if text_eq piece (text ".") then cur_dir ∷ body rest else body (piece ∷ rest)

unfoldable pub is_absolute : Text → Bool
unfolding starts_with text
is_absolute path = starts_with path (text "/")

unfoldable pub components : Text → List Component
unfolding is_absolute split_on relative
components path =
    if is_absolute path
    then root_dir ∷ body (split_on is_slash path)
    else relative (split_on is_slash path)

abbrev component_eq : Component → Component → Bool
component_eq root_dir root_dir = true
component_eq cur_dir cur_dir = true
component_eq parent_dir parent_dir = true
component_eq (normal a) (normal b) = text_eq a b
component_eq _ _ = false

components_eq : List Component → List Component → Bool
components_eq [] [] = true
components_eq (c ∷ left) (d ∷ right) = component_eq c d && components_eq left right
components_eq _ _ = false

-- `left == right`
unfoldable pub path_eq : Text → Text → Bool
unfolding components components_eq
path_eq left right = components_eq (components left) (components right)

abbrev last_normal : List Component → Option Text
last_normal [] = none
last_normal (normal name ∷ []) = some name
last_normal (c ∷ []) = none
last_normal (c ∷ d ∷ rest) = last_normal (d ∷ rest)

-- `path.file_name()`
unfoldable pub file_name : Text → Option Text
unfolding components
file_name path = last_normal (components path)

-- what stands before and behind the last dot, if one is there
abbrev extend_split : ℕ → Option (Text × Text) → Option (Text × Text)
extend_split b (some (before, after)) = some (b ∷ before, after)
extend_split b none = none

split_last_dot : Text → Option (Text × Text)
split_last_dot [] = none
split_last_dot (b ∷ t) = elim (split_last_dot t) [
  | some p ↦ extend_split b (some p)
  | none ↦ if b == b'.' then some ([], t) else none
]

abbrev extension_of : Option (Text × Text) → Option Text
extension_of none = none
extension_of (some ([], after)) = none
extension_of (some (b ∷ before, after)) = some after

abbrev extension_of_name : Option Text → Option Text
extension_of_name none = none
extension_of_name (some name) = extension_of (split_last_dot name)

-- `path.extension()`: nothing behind a dot that begins the name
unfoldable pub extension : Text → Option Text
unfolding file_name split_last_dot
extension path = extension_of_name (file_name path)

-- `PathBuf` orders by components, and names by bytes.
unfoldable pub text_compare : Text → Text → Ordering
text_compare [] [] = Ordering.eq
text_compare [] (b ∷ t) = Ordering.lt
text_compare (a ∷ s) [] = Ordering.gt
text_compare (a ∷ s) (b ∷ t) =
    let rest = text_compare s t in
    elim (compare a b) [
      | Ordering.lt ↦ Ordering.lt
      | Ordering.eq ↦ rest
      | Ordering.gt ↦ Ordering.gt
    ]

abbrev rank : Component → ℕ
rank root_dir = 1
rank cur_dir = 2
rank parent_dir = 3
rank (normal name) = 4

component_compare : Component → Component → Ordering
unfolding text_compare
component_compare (normal a) (normal b) = text_compare a b
component_compare c d = compare (rank c) (rank d)

components_compare : List Component → List Component → Ordering
unfolding component_compare
components_compare [] [] = Ordering.eq
components_compare [] (d ∷ ds) = Ordering.lt
components_compare (c ∷ cs) [] = Ordering.gt
components_compare (c ∷ cs) (d ∷ ds) =
    let rest = components_compare cs ds in
    elim (component_compare c d) [
      | Ordering.lt ↦ Ordering.lt
      | Ordering.eq ↦ rest
      | Ordering.gt ↦ Ordering.gt
    ]

unfoldable pub path_compare : Text → Text → Ordering
unfolding components components_compare
path_compare a b = components_compare (components a) (components b)

abbrev same_component : Component → Component → Bool
same_component a b = elim (component_compare a b) [ Ordering.eq ↦ true | _ ↦ false ]

abbrev prefix_of : List Component → List Component → Bool
prefix_of cs [] = true
prefix_of [] (d ∷ ds) = false
prefix_of (c ∷ cs) (d ∷ ds) = same_component c d && prefix_of cs ds

-- `path.starts_with(base)`, by components
unfoldable pub path_starts_with : Text → Text → Bool
unfolding components component_compare
path_starts_with path base = prefix_of (components path) (components base)
