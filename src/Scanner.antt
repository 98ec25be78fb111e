-- ===== src/Scanner.antt =====
-- core/zentor_local_core/src/scanner/threat_result.rs: reasons, risks and threats of the scanners of
-- the local core. The time of a threat is left out.
pub mod Score
pub mod Names
pub mod Files
pub mod Threats
pub mod Native
use zentor.Prelude.{ℕ, Bool, true, false, List, ◌==◌}
use zentor.Prelude.Int.{ℤ}
use zentor.Text.{Text}

pub data RiskVerdict : Type 0 where
  clean likely_clean unknown suspicious probable_malware confirmed_malware : RiskVerdict

pub data RiskSeverity : Type 0 where
  info low medium high critical : RiskSeverity

pub data RiskReasonSource : Type 0 where
  static_feature signature yara heuristic ai_model behavior user_label : RiskReasonSource
  allowlist cloud_optional : RiskReasonSource

pub data RiskEngine : Type 0 where
  signature yara heuristic local_ai behavior ransomware_guard reputation_optional : RiskEngine

pub record RiskReason : Type 0 where
  pub id : Text
  pub title : Text
  pub detail : Text
  pub weight : ℤ  -- i32
  pub severity : RiskSeverity
  pub source : RiskReasonSource

pub data RiskCategory : Type 0 where
  trojan ransomware spyware adware worm keylogger miner : RiskCategory
  potentially_unwanted_app unknown : RiskCategory

pub data ThreatConfidence : Type 0 where
  low medium high confirmed : ThreatConfidence

pub data RecommendedAction : Type 0 where
  quarantine review allowlist delete : RecommendedAction

pub record RiskScore : Type 0 where
  pub score : ℕ  -- u8
  pub verdict : RiskVerdict
  pub confidence : ThreatConfidence
  pub reasons : List RiskReason
  pub recommended_action : RecommendedAction
  pub engines_used : List RiskEngine

-- the derived `==`, and the name that `{:?}` prints, by the position of the constructor
unfoldable pub risk_source_index : RiskReasonSource → ℕ
risk_source_index static_feature = 0
risk_source_index signature = 1
risk_source_index yara = 2
risk_source_index heuristic = 3
risk_source_index ai_model = 4
risk_source_index behavior = 5
risk_source_index user_label = 6
risk_source_index allowlist = 7
risk_source_index cloud_optional = 8

abbrev pub is_static : RiskReasonSource → Bool
is_static source = risk_source_index source == risk_source_index static_feature

abbrev pub is_high : ThreatConfidence → Bool
is_high ThreatConfidence.high = true
is_high _ = false

abbrev pub is_confirmed : ThreatConfidence → Bool
is_confirmed confirmed = true
is_confirmed _ = false
