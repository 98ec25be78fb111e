-- ===== src/Verdict/Fusion/Engines.antt =====
-- `engines_used` of verdict/risk_fusion.rs: the sources of the evidence, sorted by the name that
-- `{:?}` prints, with duplicates dropped.
use Prim.Native.Nat.{compare, Ordering}
use zentor.Prelude.{Bool, true, false, List, [], ◌∷◌, map, if◌then◌else◌}
use zentor.Text.{Text, text}
use zentor.Verdict.{
  EvidenceSource, native_signature, native_rule, native_heuristic, native_ml, native_behavior,
  cloud_reputation, application_control, trust_store, Evidence, source_eq,
}

debug_name : EvidenceSource → Text
debug_name native_signature = text "NativeSignature"
debug_name native_rule = text "NativeRule"
debug_name native_heuristic = text "NativeHeuristic"
debug_name native_ml = text "NativeMl"
debug_name native_behavior = text "NativeBehavior"
debug_name cloud_reputation = text "CloudReputation"
debug_name application_control = text "ApplicationControl"
debug_name trust_store = text "TrustStore"

-- the lexicographic order of strings
text_leb : Text → Text → Bool
text_leb [] t = true
text_leb (a ∷ s) [] = false
text_leb (a ∷ s) (b ∷ t) =
    let rest = text_leb s t in
    elim (compare a b) [ Ordering.lt ↦ true | Ordering.eq ↦ rest | Ordering.gt ↦ false ]

name_leb : EvidenceSource → EvidenceSource → Bool
unfolding debug_name text_leb
name_leb a b = text_leb (debug_name a) (debug_name b)

-- a stable sort by the name
insert_by_name : EvidenceSource → List EvidenceSource → List EvidenceSource
unfolding name_leb
insert_by_name a [] = a ∷ []
insert_by_name a (b ∷ rest) =
    let later = insert_by_name a rest in if name_leb a b then a ∷ b ∷ rest else b ∷ later

sort_by_name : List EvidenceSource → List EvidenceSource
unfolding insert_by_name
sort_by_name [] = []
sort_by_name (a ∷ rest) = insert_by_name a (sort_by_name rest)

-- `Vec::dedup`: of neighbours that are equal the first stays
drop_repeat : EvidenceSource → List EvidenceSource → List EvidenceSource
unfolding source_eq
drop_repeat a [] = a ∷ []
drop_repeat a (b ∷ rest) = if source_eq a b then a ∷ rest else a ∷ b ∷ rest

dedup : List EvidenceSource → List EvidenceSource
unfolding drop_repeat
dedup [] = []
dedup (a ∷ rest) = drop_repeat a (dedup rest)

unfoldable pub engines_used : List Evidence → List EvidenceSource
unfolding sort_by_name dedup
engines_used evidence = dedup (sort_by_name (map (λ item. item.source) evidence))
