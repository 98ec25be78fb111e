-- ===== src/Verdict.antt =====
-- core/zentor_native_engine/src/verdict/{verdict,confidence,risk_fusion,action_policy}.rs: what the
-- engine concludes about a file, and whether it quarantines on its own.
pub mod Fusion
use zentor.Prelude.{ℕ, Bool, true, false, ◌&&◌, List, ◌==◌}
use zentor.Prelude.Int.{ℤ}
use zentor.Text.{Text}

pub data Verdict : Type 0 where
  clean likely_clean unknown observation suspicious probable_malware confirmed_malware : Verdict
  test_threat : Verdict

pub data Confidence : Type 0 where
  low medium high confirmed : Confidence

pub data ThreatCategory : Type 0 where
  trojan ransomware spyware infostealer adware worm keylogger miner : ThreatCategory
  rootkit_indicator potentially_unwanted_app suspicious_downloader : ThreatCategory
  suspicious_script malicious_macro exploit_dropper : ThreatCategory
  credential_theft_indicator persistence_indicator : ThreatCategory
  security_tamper_indicator test_threat unknown : ThreatCategory

pub data EvidenceSource : Type 0 where
  native_signature native_rule native_heuristic native_ml native_behavior : EvidenceSource
  cloud_reputation application_control trust_store : EvidenceSource

pub record Evidence : Type 0 where
  pub id : Text
  pub title : Text
  pub detail : Text
  pub weight : ℤ  -- i32
  pub source : EvidenceSource

pub record FinalVerdict : Type 0 where
  pub verdict : Verdict
  pub category : ThreatCategory
  pub confidence : Confidence
  pub risk_score : ℕ  -- u8
  pub evidence : List Evidence
  pub engines_used : List EvidenceSource
  pub recommended_action : Text
  pub user_visible_explanation : Text

-- scan/scan_result.rs
pub data ScanActionMode : Type 0 where
  detect_only auto_quarantine_confirmed auto_quarantine_high_confidence : ScanActionMode
  lockdown_review : ScanActionMode

-- the derived `==` of the enums, on their position
unfoldable pub source_index : EvidenceSource → ℕ
source_index native_signature = 0
source_index native_rule = 1
source_index native_heuristic = 2
source_index native_ml = 3
source_index native_behavior = 4
source_index cloud_reputation = 5
source_index application_control = 6
source_index trust_store = 7

unfoldable pub source_eq : EvidenceSource → EvidenceSource → Bool
unfolding source_index
source_eq a b = source_index a == source_index b

unfoldable pub is_confirmed : Confidence → Bool
is_confirmed confirmed = true
is_confirmed _ = false

-- `matches!(verdict, ConfirmedMalware | TestThreat)`
unfoldable pub is_confirmed_threat : Verdict → Bool
is_confirmed_threat confirmed_malware = true
is_confirmed_threat Verdict.test_threat = true
is_confirmed_threat _ = false

unfoldable pub should_auto_quarantine : ScanActionMode → Verdict → Confidence → Bool
unfolding is_confirmed is_confirmed_threat
should_auto_quarantine detect_only verdict confidence = false
should_auto_quarantine lockdown_review verdict confidence = false
should_auto_quarantine auto_quarantine_confirmed verdict confidence =
    is_confirmed_threat verdict && is_confirmed confidence
should_auto_quarantine auto_quarantine_high_confidence verdict confidence =
    is_confirmed_threat verdict && is_confirmed confidence
