-- ===== src/Tests/Verdicts.antt =====
-- The fusion of evidence at concrete inputs (core/zentor_native_engine/src/verdict).
use mathlib.Core.List.{Perm, Permᴰ}
use mathlib.Core.Logic.{◌↔◌}
use zentor.Prelude.{◌≡◌, refl, true, false, [], ◌∷◌, arith}
use zentor.Prelude.{Any}
use zentor.Prelude.Int.{ℤ, pos, negsuc, ◌+ℤ◌, IsI32}
use zentor.Text.{text}
use zentor.Verdict.{
  Evidence, EvidenceSource, native_signature, native_rule, native_ml, should_auto_quarantine,
  auto_quarantine_confirmed,
}
use zentor.Verdict.Fusion.{fuse, total_weight}
use zentor.Verdict.Fusion.Confirmation.{IsAuto, IsConfirming, should_auto_quarantine-fuse}
use zentor.Verdict.Fusion.Scores.{InBand, fuse-InBand}
use zentor.Verdict.Fusion.Order.{decision, fuse-perm}

abbrev item : ℤ → EvidenceSource → Evidence
item weight source = record {
  id = text "x";
  title = text "Title";
  detail = text "Detail";
  weight = weight;
  source = source;
}

abbrev signed : Evidence
signed = item (pos 95) native_signature

abbrev ruled : Evidence
ruled = item (pos 40) native_rule

abbrev learned : Evidence
learned = item (pos 45) native_ml

should_auto_quarantine-fuse_example :
    let v = fuse (ruled ∷ signed ∷ []) true false in
    (should_auto_quarantine auto_quarantine_confirmed v.verdict v.confidence ≡ true)
    ↔ (IsAuto auto_quarantine_confirmed × Any IsConfirming (ruled ∷ signed ∷ []))
should_auto_quarantine-fuse_example =
    should_auto_quarantine-fuse auto_quarantine_confirmed (ruled ∷ signed ∷ []) true false

fits : IsI32 (total_weight (ruled ∷ learned ∷ []))
unfolding total_weight ◌+ℤ◌
fits = record { upper = omega arith; lower = omega arith }

trusted_fits : IsI32 (total_weight (ruled ∷ learned ∷ []) +ℤ negsuc 69)
unfolding total_weight ◌+ℤ◌
trusted_fits = record { upper = omega arith; lower = omega arith }

fuse-InBand_example :
    let v = fuse (ruled ∷ learned ∷ []) false true in InBand v.verdict v.risk_score
fuse-InBand_example = fuse-InBand (ruled ∷ learned ∷ []) false true

swapped : Perm (ruled ∷ learned ∷ []) (learned ∷ ruled ∷ [])
swapped = ∣ Permᴰ.swap refl refl ∣₁

fuse-perm_example :
    decision (fuse (ruled ∷ learned ∷ []) false false)
    ≡ decision (fuse (learned ∷ ruled ∷ []) false false)
fuse-perm_example = fuse-perm (ruled ∷ learned ∷ []) (learned ∷ ruled ∷ []) false false swapped
