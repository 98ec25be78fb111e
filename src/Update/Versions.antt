-- ===== src/Update/Versions.antt =====
-- The order of versions (update_verifier.rs): no chain of updates leads back to an older version.
use zentor.Prelude.{
  ℕ, zero, suc, ◌<◌, ◌≡◌, refl, ◌↔◌, ◌⊎◌, inl, inr, List, [], ◌∷◌, map, All, get_or, arith, true,
  ltb,
}
use zentor.Prelude.Int.{ℤ, pos, negsuc, pos_part}
use zentor.Text.{Text}
use zentor.Update.Numbers.{IsNumber, dotted, decimal, version_parts-dotted}
use zentor.Update.{part_step, compare_parts, compare_versions, version_parts}

part_step_newer :
    (x y : ℕ) (r : ℤ) → (part_step x y r ≡ pos 1) ↔ ((y < x) ⊎ ((x ≡ y) × (r ≡ pos 1)))
part_step_newer x y r = (λ h. ground arith, λ h. ground arith)

part_step_older :
    (x y : ℕ) (r : ℤ) → (part_step x y r ≡ negsuc 0) ↔ ((x < y) ⊎ ((x ≡ y) × (r ≡ negsuc 0)))
part_step_older x y r = (λ h. ground arith, λ h. ground arith)

part_step_flip :
    (x y : ℕ) (r r' : ℤ)
    → (r ≡ pos 1) ↔ (r' ≡ negsuc 0)
    → (part_step x y r ≡ pos 1) ↔ (part_step y x r' ≡ negsuc 0)
part_step_flip x y r r' h = (
  λ e. ground (arith, (part_step_newer x y r).0 e, (part_step_older y x r').1, h),
  λ e. ground (arith, (part_step_newer x y r).1, (part_step_older y x r').0 e, h),
)

part_step_trans :
    (x y z : ℕ) (r s t : ℤ)
    → (r ≡ pos 1 → s ≡ pos 1 → t ≡ pos 1)
    → part_step x y r ≡ pos 1
    → part_step y z s ≡ pos 1
    → part_step x z t ≡ pos 1
part_step_trans x y z r s t ih h k =
    (part_step_newer x z t).1
      (ground (arith, (part_step_newer x y r).0 h, (part_step_newer y z s).0 k, ih))

compare_parts_flip :
    (xs ys : List ℕ) → (compare_parts xs ys ≡ pos 1) ↔ (compare_parts ys xs ≡ negsuc 0)
unfolding compare_parts
compare_parts_flip [] [] = (λ h. cc, λ h. cc)
compare_parts_flip (x ∷ xs) [] = part_step_flip x 0 _ _ (compare_parts_flip xs [])
compare_parts_flip [] (y ∷ ys) = part_step_flip 0 y _ _ (compare_parts_flip [] ys)
compare_parts_flip (x ∷ xs) (y ∷ ys) = part_step_flip x y _ _ (compare_parts_flip xs ys)

compare_parts_self : (xs : List ℕ) → compare_parts xs xs ≡ pos 0
unfolding compare_parts
compare_parts_self [] = refl
compare_parts_self (x ∷ xs) = ground (arith, compare_parts_self xs)

compare_parts_trans :
    (xs ys zs : List ℕ)
    → compare_parts xs ys ≡ pos 1
    → compare_parts ys zs ≡ pos 1
    → compare_parts xs zs ≡ pos 1
unfolding compare_parts
compare_parts_trans [] [] zs h k = cc
compare_parts_trans [] (y ∷ ys) [] h k =
    ground (
      arith,
      (part_step_newer 0 y _).0 h,
      (part_step_newer y 0 _).0 k,
      compare_parts_trans [] ys [],
    )
compare_parts_trans [] (y ∷ ys) (z ∷ zs) h k =
    part_step_trans 0 y z _ _ _ (compare_parts_trans [] ys zs) h k
compare_parts_trans (x ∷ xs) [] [] h k = cc
compare_parts_trans (x ∷ xs) [] (z ∷ zs) h k =
    part_step_trans x 0 z _ _ _ (compare_parts_trans xs [] zs) h k
compare_parts_trans (x ∷ xs) (y ∷ ys) [] h k =
    part_step_trans x y 0 _ _ _ (compare_parts_trans xs ys []) h k
compare_parts_trans (x ∷ xs) (y ∷ ys) (z ∷ zs) h k =
    part_step_trans x y z _ _ _ (compare_parts_trans xs ys zs) h k

-- the part at a position, 0 where there is none
abbrev pub part : List ℕ → ℕ → ℕ
part parts i = get_or parts i 0

-- At the first place where they differ, the parts on the left have the larger number.
abbrev pub LeadsAt : (ℕ → ℕ) → (ℕ → ℕ) → Type 0
LeadsAt f g = (i : ℕ) × ((j : ℕ) → j < i → f j ≡ g j) × (g i < f i)

leads_here : (f g : ℕ → ℕ) → g 0 < f 0 → LeadsAt f g
leads_here f g h = (0, λ j below. absurd (omega arith), h)

leads_later : (f g : ℕ → ℕ) → f 0 ≡ g 0 → LeadsAt (λ i. f (suc i)) (λ i. g (suc i)) → LeadsAt f g
leads_later f g same (i, before, more) = (suc i, λ j below. earlier j below, more)
  where
    earlier : (j : ℕ) → j < suc i → f j ≡ g j
    earlier zero below = same
    earlier (suc j) below = before j (omega arith)

leads_from :
    (f g : ℕ → ℕ)
    → LeadsAt f g
    → (g 0 < f 0) ⊎ ((f 0 ≡ g 0) × LeadsAt (λ i. f (suc i)) (λ i. g (suc i)))
leads_from f g (zero, before, more) = inl more
leads_from f g (suc i, before, more) =
    inr (before 0 (omega arith), (i, λ j below. before (suc j) (omega arith), more))

-- one round of the loop, over what it says of the rest
part_step-LeadsAt :
    (f g : ℕ → ℕ) (r : ℤ)
    → (r ≡ pos 1) ↔ LeadsAt (λ i. f (suc i)) (λ i. g (suc i))
    → (part_step (f 0) (g 0) r ≡ pos 1) ↔ LeadsAt f g
part_step-LeadsAt f g r rest = (
  λ h. elim ((part_step_newer (f 0) (g 0) r).0 h) [
    | inl more ↦ leads_here f g more
    | inr (same, later) ↦ leads_later f g same (rest.0 later)
  ],
  λ h. (part_step_newer (f 0) (g 0) r).1 (elim (leads_from f g h) [
    | inl more ↦ inl more
    | inr (same, later) ↦ inr (same, rest.1 later)
  ]),
)

compare_parts-LeadsAt :
    (xs ys : List ℕ) → (compare_parts xs ys ≡ pos 1) ↔ LeadsAt (part xs) (part ys)
unfolding compare_parts
compare_parts-LeadsAt [] [] = (λ h. cc, λ h. absurd (omega (arith, h.2)))
compare_parts-LeadsAt (x ∷ xs) [] =
    part_step-LeadsAt (part (x ∷ xs)) (part []) _ (compare_parts-LeadsAt xs [])
compare_parts-LeadsAt [] (y ∷ ys) =
    part_step-LeadsAt (part []) (part (y ∷ ys)) _ (compare_parts-LeadsAt [] ys)
compare_parts-LeadsAt (x ∷ xs) (y ∷ ys) =
    part_step-LeadsAt (part (x ∷ xs)) (part (y ∷ ys)) _ (compare_parts-LeadsAt xs ys)

-- `compare_versions` with `> 0`, which decides whether a package is newer than the installed version:
-- a version is newer than another exactly when, at the first place where their numbers differ, its
-- own is larger, where a number that is missing is 0. No version is newer than itself, a version
-- that is newer than another is one that the other is older than, and a version that is newer than
-- a newer one is newer. The numbers of a version that is written with dots, after a `v`, are those
-- that its digits denote, each below 2^64.
pub compare_versions_order :
    (a b c piece : Text) (pieces : List Text)
    → All IsNumber (piece ∷ pieces)
    → ((compare_versions a b ≡ pos 1) ↔ LeadsAt (part (version_parts a)) (part (version_parts b)))
      × (compare_versions a a ≡ pos 0)
      × ((compare_versions a b ≡ pos 1) ↔ (compare_versions b a ≡ negsuc 0))
      × (compare_versions a b ≡ pos 1 → compare_versions b c ≡ pos 1 → compare_versions a c ≡ pos 1)
      × (version_parts (b'v' ∷ dotted (piece ∷ pieces)) ≡ map (decimal 0) (piece ∷ pieces))
unfolding compare_versions
compare_versions_order a b c piece pieces numbers = (
  compare_parts-LeadsAt (version_parts a) (version_parts b),
  compare_parts_self (version_parts a),
  compare_parts_flip (version_parts a) (version_parts b),
  compare_parts_trans (version_parts a) (version_parts b) (version_parts c),
  version_parts-dotted piece pieces numbers,
)

part_step_positive :
    (x y : ℕ) (r : ℤ)
    → (ltb 0 (pos_part r) ≡ true → r ≡ pos 1)
    → ltb 0 (pos_part (part_step x y r)) ≡ true
    → part_step x y r ≡ pos 1
part_step_positive x y r ih h = ground (arith, ih)

compare_parts_positive :
    (xs ys : List ℕ) → ltb 0 (pos_part (compare_parts xs ys)) ≡ true → compare_parts xs ys ≡ pos 1
unfolding compare_parts
compare_parts_positive [] [] h = ground arith
compare_parts_positive (x ∷ xs) [] h = part_step_positive x 0 _ (compare_parts_positive xs []) h
compare_parts_positive [] (y ∷ ys) h = part_step_positive 0 y _ (compare_parts_positive [] ys) h
compare_parts_positive (x ∷ xs) (y ∷ ys) h =
    part_step_positive x y _ (compare_parts_positive xs ys) h

pub compare_versions_positive :
    (left right : Text)
    → ltb 0 (pos_part (compare_versions left right)) ≡ true
    → compare_versions left right ≡ pos 1
unfolding compare_versions
compare_versions_positive left right h =
    compare_parts_positive (version_parts left) (version_parts right) h
