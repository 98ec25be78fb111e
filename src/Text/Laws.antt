-- ===== src/Text/Laws.antt =====
-- What the text operations decide.
use zentor.Prelude.{ℕ, ◌≡◌, ◌↔◌, inl, inr, refl, ap, true, [], ◌∷◌, ◌++◌, arith, Bool-cases}
use zentor.Text.{
  Text, text_eq, lower_byte, to_ascii_lowercase, eq_ignore_ascii_case, starts_with, contains,
}

pub text_eq→eq : (s t : Text) → text_eq s t ≡ true → s ≡ t
unfolding text_eq
text_eq→eq [] [] h = refl
text_eq→eq [] (b ∷ t) h = cc
text_eq→eq (a ∷ s) [] h = cc
text_eq→eq (a ∷ s) (b ∷ t) h = ground (arith, text_eq→eq s t)

pub text_eq_refl : (s : Text) → text_eq s s ≡ true
unfolding text_eq
text_eq_refl [] = refl
text_eq_refl (a ∷ s) = ground (arith, text_eq_refl s)

pub text_eq_iff : (s t : Text) → (text_eq s t ≡ true) ↔ (s ≡ t)
text_eq_iff s t = (text_eq→eq s t, λ e. rw e (text_eq_refl t))

pub lower_byte_idem : (b : ℕ) → lower_byte (lower_byte b) ≡ lower_byte b
unfolding lower_byte
lower_byte_idem b = ground arith

pub to_ascii_lowercase_idem :
    (s : Text) → to_ascii_lowercase (to_ascii_lowercase s) ≡ to_ascii_lowercase s
unfolding to_ascii_lowercase
to_ascii_lowercase_idem [] = refl
to_ascii_lowercase_idem (b ∷ s) = cc (lower_byte_idem b, to_ascii_lowercase_idem s)

pub eq_ignore_ascii_case_iff :
    (s t : Text) → (eq_ignore_ascii_case s t ≡ true) ↔ (to_ascii_lowercase s ≡ to_ascii_lowercase t)
unfolding eq_ignore_ascii_case
eq_ignore_ascii_case_iff s t = text_eq_iff (to_ascii_lowercase s) (to_ascii_lowercase t)

-- A prefix is what the text begins with.
pub starts_with-append : (p s : Text) → starts_with (p ++ s) p ≡ true
unfolding starts_with
starts_with-append [] s = refl
starts_with-append (a ∷ p) s = ground (arith, starts_with-append p s)

pub starts_with→append : (s p : Text) → starts_with s p ≡ true → (r : Text) × (s ≡ p ++ r)
unfolding starts_with
starts_with→append s [] h = (s, refl)
starts_with→append [] (b ∷ p) h = cc
starts_with→append (a ∷ s) (b ∷ p) h =
    let (r, e) = starts_with→append s p (ground arith) in (r, ground arith)

pub starts_with_iff : (s p : Text) → (starts_with s p ≡ true) ↔ ((r : Text) × (s ≡ p ++ r))
starts_with_iff s p =
    (λ h. starts_with→append s p h, λ h. let (r, e) = h in rw e (starts_with-append p r))

-- The text contains what stands somewhere in it, and nothing else.
pub contains→append :
    (s p : Text) → contains s p ≡ true → (l : Text) × (r : Text) × (s ≡ l ++ (p ++ r))
unfolding contains
contains→append [] [] h = ([], [], refl)
contains→append [] (b ∷ p) h = cc
contains→append (a ∷ s) p h = elim (Bool-cases (starts_with (a ∷ s) p)) [
  | inl here ↦ let (r, e) = starts_with→append (a ∷ s) p here in ([], r, e)
  | inr no_prefix ↦
      let (l, r, e) = contains→append s p (ground arith) in (a ∷ l, r, ap (λ t. a ∷ t) e)
]

pub contains-append : (l p r : Text) → contains (l ++ (p ++ r)) p ≡ true
unfolding contains
contains-append [] [] [] = refl
contains-append [] [] (b ∷ r) = refl
contains-append [] (a ∷ p) r = rw (starts_with-append (a ∷ p) r)
contains-append (a ∷ l) p r = ground (arith, contains-append l p r)
