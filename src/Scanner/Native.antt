-- ===== src/Scanner/Native.antt =====
-- What a scan of the local core does with the verdict of the native engine on one file
-- (core/zentor_local_core/src/main.rs). Whether the file is allowlisted and whether its quarantine
-- succeeds are arguments.
use zentor.Prelude.{
  ◌≡◌, refl, ◌≢◌, ◌↔◌, inl, Bool, is_some, true, false, ◌&&◌, Option, none, some, List, Any,
  if◌then◌else◌, arith,
}
use zentor.Verdict.{
  Verdict, Confidence, Evidence, FinalVerdict, is_confirmed, is_confirmed_threat,
  auto_quarantine_confirmed, should_auto_quarantine,
}
use zentor.Verdict.Fusion.{fuse}
use zentor.Verdict.Fusion.Confirmation.{
  IsConfirming, should_auto_quarantine-fuse, fuse-threat_of_confirmed,
}
use zentor.Scanner.{RiskVerdict, ThreatConfidence}
use zentor.Scanner.Threats.{ThreatResultStatus, detected, quarantined, allowlisted}

-- scanner/scan_report.rs
pub data ScanActionMode : Type 0 where
  detect_only auto_quarantine_confirmed_only auto_quarantine_all_detections : ScanActionMode

unfoldable pub native_confidence : Confidence → ThreatConfidence
native_confidence Confidence.confirmed = ThreatConfidence.confirmed
native_confidence Confidence.high = ThreatConfidence.high
native_confidence Confidence.medium = ThreatConfidence.medium
native_confidence Confidence.low = ThreatConfidence.low

unfoldable pub native_risk_verdict : Verdict → RiskVerdict
native_risk_verdict Verdict.clean = RiskVerdict.clean
native_risk_verdict Verdict.likely_clean = RiskVerdict.likely_clean
native_risk_verdict Verdict.unknown = RiskVerdict.unknown
native_risk_verdict Verdict.observation = RiskVerdict.unknown
native_risk_verdict Verdict.suspicious = RiskVerdict.suspicious
native_risk_verdict Verdict.probable_malware = RiskVerdict.probable_malware
native_risk_verdict Verdict.confirmed_malware = RiskVerdict.confirmed_malware
native_risk_verdict Verdict.test_threat = RiskVerdict.confirmed_malware

unfoldable pub should_surface_native_verdict : Verdict → Bool
should_surface_native_verdict Verdict.clean = false
should_surface_native_verdict Verdict.likely_clean = false
should_surface_native_verdict Verdict.unknown = false
should_surface_native_verdict Verdict.observation = false
should_surface_native_verdict _ = true

abbrev is_sure : ThreatConfidence → Bool
is_sure ThreatConfidence.confirmed = true
is_sure _ = false

abbrev is_malware : RiskVerdict → Bool
is_malware RiskVerdict.confirmed_malware = true
is_malware RiskVerdict.probable_malware = true
is_malware _ = false

abbrev is_surely_malware : RiskVerdict → Bool
is_surely_malware RiskVerdict.confirmed_malware = true
is_surely_malware _ = false

-- over the two fields of the threat that are read
unfoldable pub native_should_quarantine : ScanActionMode → ThreatConfidence → RiskVerdict → Bool
native_should_quarantine detect_only confidence verdict = false
native_should_quarantine auto_quarantine_confirmed_only confidence verdict =
    is_sure confidence && is_malware verdict
native_should_quarantine auto_quarantine_all_detections confidence verdict =
    is_sure confidence && is_surely_malware verdict

-- the status of the threat that is reported for the file, if one is
unfoldable pub native_status :
    ScanActionMode → FinalVerdict → Bool → Bool → Option ThreatResultStatus
unfolding native_confidence native_risk_verdict should_surface_native_verdict
    native_should_quarantine
native_status mode v is_listed is_moved =
    if should_surface_native_verdict v.verdict
    then some (
        if is_listed
        then allowlisted
        else if native_should_quarantine mode (native_confidence v.confidence)
              (native_risk_verdict v.verdict)
            && is_moved
        then quarantined
        else detected)
    else none

-- The engine's own policy in the mode for confirmed threats.
native_status_lem :
    (mode : ScanActionMode) (v : FinalVerdict) (is_listed is_moved : Bool)
    → (is_confirmed v.confidence ≡ true → is_confirmed_threat v.verdict ≡ true)
    → (native_status mode v is_listed is_moved ≡ some quarantined) ↔ (
        (mode ≢ detect_only)
        × ((should_auto_quarantine auto_quarantine_confirmed v.verdict v.confidence ≡ true)
            × ((is_listed ≡ false) × (is_moved ≡ true))))
unfolding native_status should_auto_quarantine
native_status_lem mode v is_listed is_moved sure =
    (λ h. ground (arith, sure), λ h. ground (arith, sure))

surfaced_lem :
    (mode : ScanActionMode) (v : FinalVerdict) (is_listed is_moved : Bool)
    → should_auto_quarantine auto_quarantine_confirmed v.verdict v.confidence ≡ true
    → (is_some (native_status mode v is_listed is_moved) ≡ true)
      × (is_listed ≡ true → native_status mode v is_listed is_moved ≡ some allowlisted)
unfolding native_status should_auto_quarantine
surfaced_lem mode v is_listed is_moved h = (ground arith, λ listed. ground arith)

-- A scan of the local core quarantines a file by itself exactly outside the mode that only detects,
-- where some item of the engine's evidence confirms a threat, the file is not allowlisted, and its
-- move succeeds: the same in both quarantining modes, and for no other evidence, however much. A
-- confirmed threat is always reported, and as allowlisted where the file is.
pub native_status-fuse :
    (mode : ScanActionMode) (e : List Evidence) (known_good allowed is_listed is_moved : Bool)
    → let status = native_status mode (fuse e known_good allowed) is_listed is_moved in
      ((status ≡ some quarantined)
        ↔ ((mode ≢ detect_only) × (Any IsConfirming e × ((is_listed ≡ false) × (is_moved ≡ true)))))
      × (Any IsConfirming e → is_some status ≡ true)
      × (Any IsConfirming e → is_listed ≡ true → status ≡ some allowlisted)
native_status-fuse mode e known_good allowed is_listed is_moved =
    let v = fuse e known_good allowed in
    let split =
      native_status_lem mode v is_listed is_moved (fuse-threat_of_confirmed e known_good allowed) in
    let auto = should_auto_quarantine-fuse auto_quarantine_confirmed e known_good allowed in
    (
      (
        λ h. let act = split.0 h in (act.0, ((auto.0 act.1.0).1, act.1.1)),
        λ h. split.1 (h.0, (auto.1 (inl refl, h.1.0), h.1.1)),
      ),
      λ h. (surfaced_lem mode v is_listed is_moved (auto.1 (inl refl, h))).0,
      λ h. (surfaced_lem mode v is_listed is_moved (auto.1 (inl refl, h))).1,
    )
