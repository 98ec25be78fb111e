-- ===== src/Scanner/Score.antt =====
-- `score_from_reasons` of core/zentor_local_core/src/scanner/heuristic_provider.rs and the policies of
-- core/zentor_local_core/src/risk over its result. The sum of `u16` wraps, as in a release build.
use zentor.Prelude.{
  ℕ, ◌+◌, ◌^◌, ◌%◌, Bool, true, false, ◌&&◌, ◌||◌, not, List, [], ◌∷◌, length, count_if, any, all,
  leb, ltb, ◌==◌, if◌then◌else◌,
}
use zentor.Prelude.Int.{pos_part}
use zentor.Text.{text, is_one_of}
use zentor.Scanner.{
  RiskVerdict, clean, likely_clean, suspicious, probable_malware, confirmed_malware, RiskSeverity,
  medium, high, critical, RiskEngine, RiskReason, ThreatConfidence, RecommendedAction, quarantine,
  review, RiskScore, risk_source_index, is_static, is_high, is_confirmed,
}

unfoldable pub clean_score : List RiskReason → List RiskEngine → RiskScore
clean_score reasons engines = record {
  score = 0;
  verdict = clean;
  confidence = ThreatConfidence.low;
  reasons = reasons;
  recommended_action = review;
  engines_used = engines;
}

unfoldable pub sum_u16 : List RiskReason → ℕ
sum_u16 [] = 0
sum_u16 (r ∷ reasons) = (pos_part r.weight % 2 ^ 16 + sum_u16 reasons) % 2 ^ 16

unfoldable pub is_high_quality : RiskSeverity → Bool
is_high_quality medium = true
is_high_quality high = true
is_high_quality critical = true
is_high_quality _ = false

unfoldable pub high_quality : List RiskReason → ℕ
high_quality reasons = count_if (λ r. is_high_quality r.severity) reasons

-- the set of the sources
unfoldable pub insert_source : ℕ → List ℕ → List ℕ
insert_source source set = if any (λ s. s == source) set then set else source ∷ set

unfoldable pub sources : List RiskReason → List ℕ
sources [] = []
sources (r ∷ reasons) = insert_source (risk_source_index r.source) (sources reasons)

unfoldable pub independent_sources : List RiskReason → ℕ
independent_sources reasons = length (sources reasons)

unfoldable pub risk_verdict : ℕ → ℕ → ℕ → RiskVerdict
risk_verdict score quality independent =
    if score == 0
    then clean
    else if ltb score 35
    then likely_clean
    else if ltb score 60
    then RiskVerdict.unknown
    else if ltb score 85 || ltb quality 2 || ltb independent 2
    then suspicious
    else probable_malware

unfoldable pub risk_confidence : ℕ → ℕ → ℕ → ThreatConfidence
risk_confidence score quality independent =
    if leb 85 score && leb 3 quality && leb 2 independent
    then ThreatConfidence.high
    else if leb 45 score
    then ThreatConfidence.medium
    else ThreatConfidence.low

unfoldable pub action_for : RiskVerdict → RecommendedAction
action_for probable_malware = quarantine
action_for confirmed_malware = quarantine
action_for _ = review

unfoldable pub capped_score : List RiskReason → ℕ
capped_score reasons = if leb (sum_u16 reasons) 100 then sum_u16 reasons else 100

unfoldable pub score_from_reasons : List RiskReason → List RiskEngine → RiskScore
score_from_reasons reasons engines =
    let score = capped_score reasons in
    let verdict = risk_verdict score (high_quality reasons) (independent_sources reasons) in
    record {
      score = score;
      verdict = verdict;
      confidence = risk_confidence score (high_quality reasons) (independent_sources reasons);
      reasons = reasons;
      recommended_action = action_for verdict;
      engines_used = engines;
    }

unfoldable pub eligible_for_heuristic_auto_quarantine : RiskScore → Bool → Bool
eligible_for_heuristic_auto_quarantine risk allowlisted =
    not allowlisted
    && leb 85 risk.score
    && is_high risk.confidence
    && leb 3 (high_quality risk.reasons)

-- risk/false_positive_policy.rs
unfoldable pub is_weak_reason : RiskReason → Bool
is_weak_reason r =
    is_static r.source
    && is_one_of r.id
        (text "exe_downloads" ∷ text "exe_temp" ∷ text "random_name_risky_location" ∷ [])

unfoldable pub weak_location_only_signal : List RiskReason → Bool
weak_location_only_signal [] = false
weak_location_only_signal (r ∷ reasons) = all is_weak_reason (r ∷ reasons)

-- risk/fusion_engine.rs
unfoldable pub quarantine_for : RiskVerdict → RiskScore → Bool → Bool
quarantine_for confirmed_malware risk production_ai = is_confirmed risk.confidence
quarantine_for probable_malware risk production_ai =
    production_ai && leb 90 risk.score && is_high risk.confidence
quarantine_for _ risk production_ai = false

unfoldable pub should_auto_quarantine_risk : RiskScore → Bool → Bool → Bool
should_auto_quarantine_risk risk allowlisted production_ai =
    if allowlisted || weak_location_only_signal risk.reasons
    then false
    else quarantine_for risk.verdict risk production_ai

abbrev pub is_confirmed_verdict : RiskVerdict → Bool
is_confirmed_verdict confirmed_malware = true
is_confirmed_verdict _ = false

unfoldable pub recommended_action_for : RiskScore → RecommendedAction
recommended_action_for risk = if is_confirmed_verdict risk.verdict then quarantine else review
