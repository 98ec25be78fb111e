-- ===== src/Driver/Answer.antt =====
-- `evaluate_driver_request` of core/zentor_guard_service/src/driver_ipc.rs, in the default build,
-- where `compat_yara` is off.
use zentor.Prelude.{Bool, true, false, Option, none, some, List, [], ◌∷◌, if◌then◌else◌}
use zentor.Text.{Text, text, is_one_of}
use zentor.Outcome.{Outcome, ok, ◌>>=◌}
use zentor.Verdict.{Verdict}
use zentor.Engine.{FileScanVerdict}
use zentor.AppControl.{normalize_hash, ApplicationTrustLevel}
use zentor.Driver.{
  DriverProtectionMode, disabled, observe_only, lockdown, developer_mode, ScanRequest, allow_action,
  block_action, allow_and_monitor, DriverFinalVerdict, VerdictConfidence, VerdictEngine,
  known_bad_hash, known_good_hash, app_control, trusted_publisher_engine, ScanVerdict,
  DriverVerdictConfig, normalized_path, trusted_request_sha256, trusted_publisher,
  should_fail_open_path, native_verdict_engines,
}

unfoldable pub allow :
    ScanRequest
    → DriverFinalVerdict
    → Text
    → List VerdictEngine
    → ApplicationTrustLevel
    → ScanVerdict
allow request verdict reason engines trust = record {
  answered_id = request.request_id;
  action = allow_action;
  final_verdict = verdict;
  confidence = VerdictConfidence.low;
  engines_used = engines;
  reason_summary = reason;
  cache_ttl_ms = 60_000;
  quarantine_after_block = false;
  trust_level = trust;
  requires_user_approval = false;
  monitor_process = false;
  label_as_malware = false;
}

unfoldable pub monitor : ScanRequest → Text → ScanVerdict
monitor request reason = record {
  answered_id = request.request_id;
  action = allow_and_monitor;
  final_verdict = DriverFinalVerdict.unknown;
  confidence = VerdictConfidence.low;
  engines_used = app_control ∷ [];
  reason_summary = reason;
  cache_ttl_ms = 30_000;
  quarantine_after_block = false;
  trust_level = ApplicationTrustLevel.unknown;
  requires_user_approval = false;
  monitor_process = true;
  label_as_malware = false;
}

unfoldable pub block : ScanRequest → Text → List VerdictEngine → ScanVerdict
block request reason engines = record {
  answered_id = request.request_id;
  action = block_action;
  final_verdict = DriverFinalVerdict.confirmed_malware;
  confidence = VerdictConfidence.confirmed;
  engines_used = engines;
  reason_summary = reason;
  cache_ttl_ms = 300_000;
  quarantine_after_block = true;
  trust_level = ApplicationTrustLevel.confirmed_malware;
  requires_user_approval = false;
  monitor_process = false;
  label_as_malware = true;
}

-- what is answered where the native engine finds the file suspicious
unfoldable pub suspect : ScanRequest → FileScanVerdict → ScanVerdict
suspect request native = record {
  answered_id = request.request_id;
  action = allow_and_monitor;
  final_verdict = DriverFinalVerdict.suspicious;
  confidence = VerdictConfidence.medium;
  engines_used = native_verdict_engines native.final_verdict.engines_used;
  reason_summary = native.final_verdict.user_visible_explanation;
  cache_ttl_ms = 30_000;
  quarantine_after_block = false;
  trust_level = ApplicationTrustLevel.suspicious;
  requires_user_approval = false;
  monitor_process = true;
  label_as_malware = false;
}

-- what is answered in lockdown about a program nothing is known of
unfoldable pub refuse : ScanRequest → ScanVerdict
refuse request = record {
  answered_id = request.request_id;
  action = block_action;
  final_verdict = DriverFinalVerdict.unknown;
  confidence = VerdictConfidence.low;
  engines_used = app_control ∷ [];
  reason_summary = text "Lockdown Mode blocks unknown apps until an exact hash is approved.";
  cache_ttl_ms = 30_000;
  quarantine_after_block = false;
  trust_level = ApplicationTrustLevel.unknown;
  requires_user_approval = true;
  monitor_process = false;
  label_as_malware = false;
}

-- the `match` on the mode
unfoldable pub mode_verdict : ScanRequest → DriverProtectionMode → ScanVerdict
mode_verdict request disabled =
    allow request DriverFinalVerdict.unknown (text "Driver protection is disabled.") []
      ApplicationTrustLevel.unknown
mode_verdict request observe_only =
    monitor request (text "Unknown app allowed for monitoring in the selected protection profile.")
mode_verdict request developer_mode =
    monitor request (text "Unknown app allowed for monitoring in the selected protection profile.")
mode_verdict request lockdown = refuse request
mode_verdict request _ =
    monitor request (text "Unknown app is not labeled malware; it is allowed with monitoring.")

-- the verdicts that block, and the one that is watched
unfoldable pub is_threat : Verdict → Bool
is_threat Verdict.test_threat = true
is_threat Verdict.confirmed_malware = true
is_threat Verdict.probable_malware = true
is_threat _ = false

unfoldable pub is_suspicious : Verdict → Bool
is_suspicious Verdict.suspicious = true
is_suspicious _ = false

-- the answer from what the native engine found, where it scanned the file, and else from the mode
unfoldable pub native_answer :
    ScanRequest → DriverProtectionMode → Option FileScanVerdict → ScanVerdict
native_answer request mode none = mode_verdict request mode
native_answer request mode (some native) =
    if is_threat native.final_verdict.verdict
    then block request native.final_verdict.user_visible_explanation
        (native_verdict_engines native.final_verdict.engines_used)
    else if is_suspicious native.final_verdict.verdict
    then suspect request native
    else mode_verdict request mode

-- `hash.map(|value| hashes.contains(&normalize_hash(value))).unwrap_or(false)`
unfoldable pub is_listed : (Text → Text) → List Text → Option Text → Bool
is_listed lower hashes none = false
is_listed lower hashes (some hash) = is_one_of (normalize_hash lower hash) hashes

-- the hash the request is decided on: of the file, or else the one a trusted source supplied
unfoldable pub request_hash : ScanRequest → Option Text → Option Text
request_hash request none = trusted_request_sha256 request
request_hash request (some file_hash) = some file_hash

unfoldable pub evaluate_driver_request :
    (Text → Text)
    → ScanRequest
    → DriverVerdictConfig
    → Option Text
    → Outcome (Option FileScanVerdict)
    → Outcome ScanVerdict
evaluate_driver_request lower request config file_hash native =
    let hash = request_hash request file_hash in
    if should_fail_open_path lower (normalized_path request)
    then ok (
        allow request DriverFinalVerdict.likely_clean
          (text "Critical system or Avorax-owned path; normal mode fails open.") []
          ApplicationTrustLevel.system_trusted)
    else if is_listed lower config.known_bad_hashes hash
    then ok (block request (text "Known bad hash matched local cache.") (known_bad_hash ∷ []))
    else if is_listed lower config.known_good_hashes hash
    then ok (
        allow request DriverFinalVerdict.likely_clean (text "Known-good exact hash is trusted.")
          (known_good_hash ∷ []) ApplicationTrustLevel.known_good_hash)
    else if is_listed lower config.user_approved_hashes hash
    then ok (
        allow request DriverFinalVerdict.likely_clean (text "User approved this exact file hash.")
          (app_control ∷ []) ApplicationTrustLevel.user_approved)
    else if trusted_publisher lower request config
    then ok (
        allow request DriverFinalVerdict.likely_clean (text "Valid trusted publisher signature.")
          (trusted_publisher_engine ∷ []) ApplicationTrustLevel.trusted_publisher)
    else do found ← native; ok (native_answer request config.mode found)
