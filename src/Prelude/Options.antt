-- ===== src/Prelude/Options.antt =====
-- A predicate that holds along a list, `filter_map`, and tests on options.
use mathlib.Core.Bool.{Bool, true, false}
use mathlib.Core.List.{List, [], ◌∷◌, ◌++◌, map}
use mathlib.Core.Path.{◌≡◌}
use mathlib.Core.Logic.{◌↔◌, ◌⊎◌, inl, inr}
use native.Mathlib.Omega.{arith}
use zentor.Prelude.Tests.{or-eq-true}
use zentor.Prelude.Lists.{any}
use mathlib.Core.Option.{Option, none, some}

abbrev pub All {ℓ κ} : {A : Type ℓ} → (A → Type κ) → List A → Type κ
All P [] = Unit
All P (x ∷ xs) = P x × All P xs

pub All-append {ℓ κ} :
    {A : Type ℓ} (P : A → Type κ) (xs ys : List A) → All P xs → All P ys → All P (xs ++ ys)
All-append P [] ys hx hy = hy
All-append P (x ∷ xs) ys hx hy = (hx.0, All-append P xs ys hx.1 hy)

abbrev pub push_some {ℓ} : {B : Type ℓ} → Option B → List B → List B
push_some none ys = ys
push_some (some y) ys = y ∷ ys

-- Some item of the list has the property.
abbrev pub Any {ℓ} : {A : Type ℓ} → (A → Type 0) → List A → Type 0
Any P [] = ⊥
Any P (x ∷ xs) = P x ⊎ Any P xs

pub any_iff {ℓ} :
    {A : Type ℓ} (p : A → Bool) (P : A → Type 0)
    → ((x : A) → (p x ≡ true) ↔ P x)
    → (xs : List A) → (any p xs ≡ true) ↔ Any P xs
any_iff p P decides [] = (λ h. cc, λ h. elim h [ ])
any_iff p P decides (x ∷ xs) =
    let ih = any_iff p P decides xs in
    (
      λ h. elim (or-eq-true (p x) (any p xs) h) [
        | inl e ↦ inl ((decides x).0 e)
        | inr e ↦ inr (ih.0 e)
      ],
      λ h. elim h [ inl e ↦ rw ((decides x).1 e) | inr e ↦ rw (ih.1 e) (ground arith) ],
    )

module _ {ℓ κ} {A : Type ℓ} {B : Type κ} where
  abbrev pub filter_map : (A → Option B) → List A → List B
  filter_map f [] = []
  filter_map f (x ∷ xs) = push_some (f x) (filter_map f xs)

-- `o.is_some()`
abbrev pub is_some {ℓ} : {A : Type ℓ} → Option A → Bool
is_some none = false
is_some (some a) = true

-- `o.map(f).unwrap_or(d)`
abbrev pub map_or {ℓ κ} : {A : Type ℓ} {B : Type κ} → B → (A → B) → Option A → B
map_or d f none = d
map_or d f (some a) = f a

module _ {ℓ} {A : Type ℓ} (P Q : A → Type 0) where
  pub Any-map : ((x : A) → P x → Q x) → (xs : List A) → Any P xs → Any Q xs
  Any-map f [] h = h
  Any-map f (x ∷ xs) h = elim h [ inl here ↦ inl (f x here) | inr there ↦ inr (Any-map f xs there) ]

  pub Any-All : (xs : List A) → All P xs → Any Q xs → Any (λ x. P x × Q x) xs
  Any-All [] hall hany = hany
  Any-All (x ∷ xs) hall hany = elim hany [
    | inl here ↦ inl (hall.0, here)
    | inr there ↦ inr (Any-All xs hall.1 there)
  ]

  pub All-map : ((x : A) → P x → Q x) → (xs : List A) → All P xs → All Q xs
  All-map f [] h = tt
  All-map f (x ∷ xs) h = (f x h.0, All-map f xs h.1)

module _ {ℓ} {A : Type ℓ} (P : A → Type 0) where
  pub Any-append_left : (xs ys : List A) → Any P xs → Any P (xs ++ ys)
  Any-append_left [] ys h = elim h [ ]
  Any-append_left (x ∷ xs) ys h = elim h [
    | inl here ↦ inl here
    | inr there ↦ inr (Any-append_left xs ys there)
  ]

  pub Any-append_right : (xs ys : List A) → Any P ys → Any P (xs ++ ys)
  Any-append_right [] ys h = h
  Any-append_right (x ∷ xs) ys h = inr (Any-append_right xs ys h)

  pub Any-append_cases : (xs ys : List A) → Any P (xs ++ ys) → Any P xs ⊎ Any P ys
  Any-append_cases [] ys h = inr h
  Any-append_cases (x ∷ xs) ys h = elim h [
    | inl here ↦ inl (inl here)
    | inr there ↦ elim (Any-append_cases xs ys there) [
      | inl left ↦ inl (inr left)
      | inr right ↦ inr right
    ]
  ]

module _ {ℓ κ} {A : Type ℓ} {B : Type κ} (P : B → Type 0) (f : A → B) where
  pub Any-of_map : (xs : List A) → Any P (map f xs) → Any (λ x. P (f x)) xs
  Any-of_map [] h = h
  Any-of_map (x ∷ xs) h = elim h [ inl here ↦ inl here | inr there ↦ inr (Any-of_map xs there) ]

  pub Any-to_map : (xs : List A) → Any (λ x. P (f x)) xs → Any P (map f xs)
  Any-to_map [] h = h
  Any-to_map (x ∷ xs) h = elim h [ inl here ↦ inl here | inr there ↦ inr (Any-to_map xs there) ]
