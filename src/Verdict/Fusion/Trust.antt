-- ===== src/Verdict/Fusion/Trust.antt =====
-- The trust entry that `fuse` adds passes by every test of the evidence (risk_fusion.rs).
use zentor.Prelude.{
  ◌≡◌, refl, sym, Bool, true, false, List, [], ◌∷◌, ◌++◌, any, count_if, arith, any-append,
  count_if-append,
}
use zentor.Prelude.Int.{pos, negsuc, ◌+ℤ◌, +ℤ_assoc, +ℤ_comm, leb_ℤ}
use zentor.Text.{text, text_eq}
use zentor.Verdict.{Evidence, native_signature, native_behavior, native_ml, source_eq}
use zentor.Verdict.Fusion.{trust_entry, with_trust, id_is, source_with, total_weight}

pub any-with_trust :
    (p : Evidence → Bool) (e : List Evidence) (kg al : Bool)
    → p (trust_entry kg) ≡ false
    → any p (with_trust e kg al) ≡ any p e
unfolding with_trust
any-with_trust p e kg al h = ground (arith, any-append p e (trust_entry kg ∷ []))

pub trust_id_ne :
    (kg : Bool)
    → (id_is (text "eicar_test_signature") (trust_entry kg) ≡ false)
      × (id_is (text "known_bad_hash") (trust_entry kg) ≡ false)
unfolding trust_entry text_eq text
trust_id_ne true = (refl, refl)
trust_id_ne false = (refl, refl)

pub trust_not_source :
    (kg : Bool)
    → (source_with native_signature 90 (trust_entry kg) ≡ false)
      × (source_with native_behavior 85 (trust_entry kg) ≡ false)
      × (source_with native_ml 40 (trust_entry kg) ≡ false)
unfolding trust_entry source_eq
trust_not_source kg = (refl, refl, refl)

pub trust_weight : (kg : Bool) → (trust_entry kg).weight ≡ negsuc 69
unfolding trust_entry
trust_weight kg = refl

pub trust_negative : (kg : Bool) → leb_ℤ (pos 20) (trust_entry kg).weight ≡ false
unfolding trust_entry
trust_negative kg = refl

pub count_if-with_trust :
    (p : Evidence → Bool) (e : List Evidence) (kg al : Bool)
    → p (trust_entry kg) ≡ false
    → count_if p (with_trust e kg al) ≡ count_if p e
unfolding with_trust
count_if-with_trust p e kg al h = ground (arith, count_if-append p e (trust_entry kg ∷ []))

pub total_weight-append :
    (e : List Evidence) (t : Evidence) → total_weight (e ++ t ∷ []) ≡ total_weight e +ℤ t.weight
unfolding total_weight
total_weight-append [] t = +ℤ_comm t.weight (pos 0)
total_weight-append (item ∷ e) t =
    rw (total_weight-append e t) (sym (+ℤ_assoc item.weight (total_weight e) t.weight))
