-- ===== src/Verdict/Fusion.antt =====
-- verdict/risk_fusion.rs: all evidence about a file becomes one verdict.
mod Category
mod Engines
pub mod Confirmation
mod Trust
pub mod Scores
pub mod Order
unfoldable pub use Category.{infer_category}
unfoldable pub use Engines.{engines_used}
use zentor.Prelude.{
  ℕ, Bool, true, false, ◌&&◌, ◌||◌, Option, none, some, List, [], ◌∷◌, ◌++◌, any, count_if, leb,
  if◌then◌else◌,
}
use zentor.Prelude.Int.{ℤ, pos, negsuc, ◌+ℤ◌, leb_ℤ, wrap_i32}
use zentor.Text.{Text, text, text_eq, join_with}
use zentor.Verdict.{
  Verdict, clean, likely_clean, observation, suspicious, probable_malware, confirmed_malware,
  Confidence, low, medium, high, confirmed, ThreatCategory, ransomware, EvidenceSource,
  native_signature, native_behavior, native_ml, trust_store, Evidence, FinalVerdict, source_eq,
}

abbrev trust_id : Bool → Text
trust_id known_good = if known_good then text "known_good" else text "allowlisted"

abbrev trust_title : Bool → Text
trust_title known_good =
    if known_good then text "Known-good trust entry" else text "User allowlist entry"

-- the entry that a trusted file gets beside its evidence
unfoldable pub trust_entry : Bool → Evidence
trust_entry known_good = record {
  id = trust_id known_good;
  title = trust_title known_good;
  detail =
      text
        "Trusted local policy prevents automatic quarantine unless confirmed behavior overrides it.";
  weight = negsuc 69;
  source = trust_store;
}

unfoldable pub with_trust : List Evidence → Bool → Bool → List Evidence
unfolding trust_entry
with_trust evidence known_good allowlisted =
    if known_good || allowlisted then evidence ++ trust_entry known_good ∷ [] else evidence

abbrev pub id_is : Text → Evidence → Bool
id_is name item = text_eq item.id name

abbrev pub source_with : EvidenceSource → ℕ → Evidence → Bool
source_with source weight item = source_eq item.source source && leb_ℤ (pos weight) item.weight

unfoldable pub has_test : List Evidence → Bool
unfolding text_eq
has_test = any (id_is (text "eicar_test_signature"))

unfoldable pub has_known_bad : List Evidence → Bool
unfolding text_eq
has_known_bad = any (id_is (text "known_bad_hash"))

unfoldable pub has_confirmed_signature : List Evidence → Bool
unfolding source_eq
has_confirmed_signature = any (source_with native_signature 90)

unfoldable pub has_ransomware_behavior : List Evidence → Bool
unfolding source_eq
has_ransomware_behavior = any (source_with native_behavior 85)

unfoldable pub total_weight : List Evidence → ℤ
total_weight [] = pos 0
total_weight (item ∷ rest) = item.weight +ℤ total_weight rest

abbrev clamp_0_100 : ℤ → ℕ
clamp_0_100 (pos n) = if leb n 100 then n else 100
clamp_0_100 (negsuc n) = 0

-- `.sum::<i32>().clamp(0, 100) as u8`. Additions that wrap at every step give the wrapped total.
unfoldable pub fused_score : List Evidence → ℕ
fused_score evidence = clamp_0_100 (wrap_i32 (total_weight evidence))

unfoldable pub strong_positive_count : List Evidence → ℕ
strong_positive_count = count_if (λ item. leb_ℤ (pos 20) item.weight)

unfoldable pub ml_high : List Evidence → Bool
unfolding source_eq
ml_high = any (source_with native_ml 40)

-- the ladder of thresholds
unfoldable pub verdict_of_score : ℕ → ℕ → Bool → Bool → Verdict
verdict_of_score score strong ml known_good =
    if leb 85 score && leb 3 strong
    then probable_malware
    else if leb 60 score && (leb 2 strong || ml)
    then probable_malware
    else if leb 35 score
    then suspicious
    else if leb 15 score
    then observation
    else if known_good
    then likely_clean
    else clean

unfoldable pub confidence_of : Verdict → Confidence
confidence_of probable_malware = high
confidence_of suspicious = medium
confidence_of observation = low
confidence_of clean = low
confidence_of likely_clean = low
confidence_of Verdict.unknown = low
confidence_of confirmed_malware = confirmed
confidence_of Verdict.test_threat = confirmed

unfoldable pub action_of : Verdict → Text
action_of probable_malware = text "review_or_quarantine_by_policy"
action_of suspicious = text "review"
action_of observation = text "observe"
action_of _ = text "allow"

-- `.unwrap_or(ThreatCategory::Unknown)`
abbrev category_or_unknown : Option ThreatCategory → ThreatCategory
category_or_unknown none = ThreatCategory.unknown
category_or_unknown (some category) = category

unfoldable pub explanation : List Evidence → Text
explanation [] = text "Avorax Native Engine did not find suspicious local evidence."
explanation (item ∷ rest) =
    join_with (text " ") (λ (i : Evidence). i.title ++ (text ": " ++ i.detail)) (item ∷ rest)

unfoldable pub final_verdict :
    Verdict
    → ThreatCategory
    → Confidence
    → ℕ
    → List Evidence
    → List EvidenceSource
    → Text
    → FinalVerdict
unfolding explanation
final_verdict verdict category confidence risk_score evidence engines action = record {
  verdict = verdict;
  category = category;
  confidence = confidence;
  risk_score = risk_score;
  evidence = evidence;
  engines_used = engines;
  recommended_action = action;
  user_visible_explanation = explanation evidence;
}

-- the verdict when nothing decides it at once
unfoldable pub fuse_by_score : List Evidence → List EvidenceSource → Bool → FinalVerdict
fuse_by_score evidence engines known_good =
    let score = fused_score evidence in
    let verdict =
      verdict_of_score score (strong_positive_count evidence) (ml_high evidence) known_good in
    final_verdict verdict (category_or_unknown (infer_category evidence)) (confidence_of verdict)
      score evidence engines (action_of verdict)

-- the early returns of `fuse`, over the evidence with its trust entry
unfoldable pub fuse_evidence : List Evidence → List EvidenceSource → Bool → FinalVerdict
fuse_evidence evidence engines known_good =
    if has_test evidence
    then final_verdict Verdict.test_threat ThreatCategory.test_threat confirmed 100 evidence engines
        (text "quarantine")
    else if has_known_bad evidence || has_confirmed_signature evidence
    then final_verdict confirmed_malware (category_or_unknown (infer_category evidence)) confirmed
        100 evidence engines (text "quarantine")
    else if has_ransomware_behavior evidence
    then final_verdict probable_malware ransomware high 92 evidence engines
        (text "stop_and_quarantine")
    else fuse_by_score evidence engines known_good

unfoldable pub fuse : List Evidence → Bool → Bool → FinalVerdict
fuse evidence known_good allowlisted =
    fuse_evidence (with_trust evidence known_good allowlisted) (engines_used evidence) known_good
