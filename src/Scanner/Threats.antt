-- ===== src/Scanner/Threats.antt =====
-- `inspect_file` of core/zentor_local_core/src/scanner/heuristic_provider.rs: the threat that is shown for
-- the risk of a file. The new identifier is an argument; the time of the threat is left out.
use zentor.Prelude.{
  ℕ, Bool, true, false, ◌&&◌, Option, none, some, List, any, keep, take, leb, if◌then◌else◌,
}
use zentor.Prelude.Int.{pos_part}
use zentor.Text.{Text, text, text_eq, join_with}
use zentor.Path.{file_name}
use zentor.Outcome.{Outcome, ok, fail, panic}
use zentor.Float.{Float}
use zentor.Scanner.{
  RiskVerdict, suspicious, probable_malware, RiskReason, RiskCategory, trojan, ransomware, spyware,
  adware, worm, keylogger, miner, potentially_unwanted_app, ThreatConfidence, RecommendedAction,
  RiskScore,
}
use zentor.Scanner.Files.{score_file}

pub data DetectionType : Type 0 where
  signature yara heuristic local_ai behavior ransomware_guard : DetectionType
  suspicious_behavior reputation unknown : DetectionType

pub data ThreatResultStatus : Type 0 where
  detected quarantined ignored restored deleted allowlisted : ThreatResultStatus

pub record ThreatResult : Type 0 where
  pub id : Text
  pub path : Text
  pub name : Text
  pub sha256 : Text
  pub size_bytes : ℕ
  pub detection_type : DetectionType
  pub threat_category : RiskCategory
  pub threat_name : Text
  pub confidence : ThreatConfidence
  pub engine : Text
  pub recommended_action : RecommendedAction
  pub status : ThreatResultStatus
  pub risk_score : RiskScore
  pub reason_summary : Text

abbrev is_surfaced : RiskVerdict → Bool
is_surfaced RiskVerdict.unknown = true
is_surfaced suspicious = true
is_surfaced probable_malware = true
is_surfaced _ = false

unfoldable pub should_surface_result : RiskScore → Bool
should_surface_result risk = is_surfaced risk.verdict && leb 35 risk.score

unfoldable pub summarize_reasons : List RiskReason → Text
summarize_reasons reasons =
    join_with (text ", ") (λ r. r.title) (take 3 (keep (λ r. leb 15 (pos_part r.weight)) reasons))

unfoldable pub category_for_risk : RiskScore → RiskCategory
category_for_risk risk =
    if any (λ r. text_eq r.id (text "obfuscated_script")) risk.reasons
    then spyware
    else if any (λ r. text_eq r.id (text "startup_executable")) risk.reasons
    then potentially_unwanted_app
    else RiskCategory.unknown

unfoldable pub label : RiskCategory → Text
label trojan = text "Possible Trojan"
label ransomware = text "Possible ransomware"
label spyware = text "Possible spyware"
label adware = text "Potential adware"
label worm = text "Potential worm"
label keylogger = text "Potential keylogger"
label miner = text "Potential miner"
label potentially_unwanted_app = text "Potentially unwanted app"
label RiskCategory.unknown = text "Possible malware"

unfoldable pub threat_name_of : RiskVerdict → RiskCategory → Text
threat_name_of probable_malware category = label category
threat_name_of suspicious category = text "Suspicious file"
threat_name_of _ category = text "Review suggested"

abbrev or_empty : Option Text → Text
or_empty none = text ""
or_empty (some t) = t

unfoldable pub threat_of : Text → Text → Text → Option Text → ℕ → RiskScore → ThreatResult
threat_of new_id path name sha256 size risk = record {
  id = new_id;
  path = path;
  name = name;
  sha256 = or_empty sha256;
  size_bytes = size;
  detection_type = DetectionType.heuristic;
  threat_category = category_for_risk risk;
  threat_name = threat_name_of risk.verdict (category_for_risk risk);
  confidence = risk.confidence;
  engine = text "zentor-risk-heuristic";
  recommended_action = risk.recommended_action;
  status = detected;
  risk_score = risk;
  reason_summary = summarize_reasons risk.reasons;
}

-- the steps after the risk is surfaced: the name, and the length that the metadata say
unfoldable pub surface :
    Text → Text → Option Text → Option Text → Option ℕ → RiskScore → Option ThreatResult
surface new_id path none sha256 size risk = none
surface new_id path (some name) sha256 none risk = none
surface new_id path (some name) sha256 (some size) risk =
    some (threat_of new_id path name sha256 size risk)

unfoldable pub inspect_on :
    Text → Text → Option Text → Option ℕ → Outcome RiskScore → Option ThreatResult
inspect_on new_id path sha256 size (ok risk) =
    let shown = surface new_id path (file_name path) sha256 size risk in
    if should_surface_result risk then shown else none
inspect_on new_id path sha256 size (fail _) = none
inspect_on new_id path sha256 size panic = none

unfoldable pub inspect_file :
    {F : Type 0}
    → Float F
    → (Text → Text)
    → Text
    → Text
    → Outcome Bool
    → Option Text
    → Option (List ℕ)
    → Option Text
    → Option ℕ
    → Option ThreatResult
inspect_file fl lower new_id path is_file body bytes sha256 size =
    inspect_on new_id path sha256 size (score_file fl lower path is_file body bytes)
