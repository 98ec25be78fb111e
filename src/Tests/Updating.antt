-- ===== src/Tests/Updating.antt =====
-- Versions at concrete inputs (core/avorax_update_service/src).
use zentor.Prelude.{◌≡◌, refl, ◌↔◌, All, map, [], ◌∷◌, arith}
use zentor.Prelude.Int.{pos, negsuc}
use zentor.Text.{text}
use zentor.Update.{version_parts, compare_versions}
use zentor.Update.Numbers.{IsNumber, dotted, decimal}
use zentor.Update.Versions.{part, LeadsAt, compare_versions_order}

one_ten : All IsNumber (text "1" ∷ text "10" ∷ [])
unfolding text
one_ten = (
  (((omega arith, omega arith), tt), omega arith),
  ((((omega arith, omega arith), ((omega arith, omega arith), tt)), omega arith), tt),
)

compare_versions_order_example :
    ((compare_versions (text "v1.10") (text "1.9.3") ≡ pos 1)
      ↔ LeadsAt (part (version_parts (text "v1.10"))) (part (version_parts (text "1.9.3"))))
    × (compare_versions (text "v1.10") (text "v1.10") ≡ pos 0)
    × ((compare_versions (text "v1.10") (text "1.9.3") ≡ pos 1)
        ↔ (compare_versions (text "1.9.3") (text "v1.10") ≡ negsuc 0))
    × (compare_versions (text "v1.10") (text "1.9.3") ≡ pos 1
        → compare_versions (text "1.9.3") (text "1.9-beta") ≡ pos 1
        → compare_versions (text "v1.10") (text "1.9-beta") ≡ pos 1)
    × (version_parts (b'v' ∷ dotted (text "1" ∷ text "10" ∷ []))
        ≡ map (decimal 0) (text "1" ∷ text "10" ∷ []))
compare_versions_order_example =
    compare_versions_order (text "v1.10") (text "1.9.3") (text "1.9-beta") (text "1")
      (text "10" ∷ []) one_ten

parts_test : version_parts (text " v1.10.0-rc.2+7") ≡ 1 ∷ 10 ∷ 0 ∷ 2 ∷ 7 ∷ []
unfolding version_parts zentor.Text.split_on zentor.Text.trim_start_bytes zentor.Text.Space.trim
    text
parts_test = refl

newer_test : compare_versions (text "v1.10") (text "1.9.3") ≡ pos 1
unfolding compare_versions zentor.Text.split_on zentor.Text.trim_start_bytes zentor.Text.Space.trim
    text
newer_test = refl
