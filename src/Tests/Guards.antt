-- ===== src/Tests/Guards.antt =====
-- The answers of the guard service at concrete inputs
-- (core/zentor_guard_service/src/driver_ipc.rs).
use zentor.Prelude.{◌≡◌, ◌↔◌, refl, true, false, ◌&&◌, ◌||◌, not, none, some, List, [], ◌∷◌}
use zentor.Text.{Text, text, to_ascii_lowercase}
use zentor.Outcome.{ok}
use zentor.Verdict.{Verdict, Confidence, ThreatCategory, native_ml, native_signature}
use zentor.Engine.{FileScanVerdict}
use zentor.Driver.{
  lockdown, image_execute_attempt, VerdictEngine, ScanRequest, DriverVerdictConfig, default_config,
  normalized_path, should_fail_open_path, native_verdict_engines,
}
use zentor.Driver.Answer.{evaluate_driver_request, is_listed, request_hash}
use zentor.Driver.Labels.{
  Lists, answers, is_block, ends_ok, finds, suspicion, is_lockdown, is_trusted, is_condemned,
  evaluate_driver_request-label,
}

abbrev pub start : ScanRequest
start = record {
  request_id = text "r1";
  event_type = image_execute_attempt;
  file_path = text "C:\\Users\\ada\\Downloads\\setup.exe";
  normalized_file_path = some (text " ");
  process_id = some 7;
  parent_process_id = none;
  user_sid = none;
  desired_access = none;
  file_size = none;
  file_attributes = none;
  signature_status = some (text "valid");
  publisher = some (text "Microsoft Corporation");
  signature_verified_by = some (text "the caller");
  parent_process_path = none;
  sha256 = some (text "sha256:AB12");
  sha256_verified_by = some (text " Windows_WinTrust ");
  timestamp_utc = 0;
}

abbrev locked : DriverVerdictConfig
locked = record default_config { known_bad_hashes = text "cd34" ∷ []; mode = lockdown }

abbrev pub probable : FileScanVerdict
probable = record {
  path = text "C:\\Users\\ada\\Downloads\\setup.exe";
  sha256 = text "sha256:ab12";
  file_size_bytes = 9;
  scanned_bytes = 9;
  scan_sample_limited = false;
  engine = text "native";
  final_verdict = record {
    verdict = Verdict.probable_malware;
    category = ThreatCategory.trojan;
    confidence = Confidence.high;
    risk_score = 88;
    evidence = [];
    engines_used = native_ml ∷ native_signature ∷ native_ml ∷ [];
    recommended_action = text "review";
    user_visible_explanation = text "Strong signals.";
  };
  quarantine_record = none;
}

evaluate_driver_request-label_example :
    (answers
        (λ v. v.label_as_malware)
        (evaluate_driver_request to_ascii_lowercase start locked none (ok (some probable)))
      ≡ is_condemned to_ascii_lowercase start locked none (ok (some probable)))
    × (answers
          (λ v. v.quarantine_after_block)
          (evaluate_driver_request to_ascii_lowercase start locked none (ok (some probable)))
        ≡ is_condemned to_ascii_lowercase start locked none (ok (some probable)))
    × (answers
          (λ v. is_block v.action)
          (evaluate_driver_request to_ascii_lowercase start locked none (ok (some probable)))
        ≡ (is_condemned to_ascii_lowercase start locked none (ok (some probable))
            || (not (should_fail_open_path to_ascii_lowercase (normalized_path start))
                && not (is_trusted to_ascii_lowercase start locked none)
                && ends_ok (ok (some probable))
                && not (finds suspicion (ok (some probable)))
                && is_lockdown locked.mode)))
    × ((hashes : List Text)
        → (is_listed to_ascii_lowercase hashes (request_hash start none) ≡ true)
          ↔ Lists to_ascii_lowercase hashes (request_hash start none))
evaluate_driver_request-label_example =
    evaluate_driver_request-label to_ascii_lowercase start locked none (ok (some probable))

condemned_test : is_condemned to_ascii_lowercase start locked none (ok (some probable)) ≡ true
unfolding should_fail_open_path zentor.Text.contains to_ascii_lowercase normalized_path
    zentor.Text.Space.is_blank text zentor.Text.ends_with is_listed request_hash
    zentor.Driver.trusted_request_sha256 zentor.Driver.trusted_metadata_source zentor.Text.is_one_of
    zentor.AppControl.normalize_hash default_config zentor.Driver.trusted_publisher
    zentor.Driver.Answer.is_threat
condemned_test = refl

-- the hash of the request is used where the file cannot be read
request_hash_test : request_hash start none ≡ some (text "sha256:AB12")
unfolding request_hash zentor.Driver.trusted_request_sha256 zentor.Driver.trusted_metadata_source
    zentor.Text.is_one_of to_ascii_lowercase zentor.Text.Space.trim text zentor.Text.Space.is_blank
request_hash_test = refl

engines_test :
    native_verdict_engines (native_ml ∷ native_signature ∷ native_ml ∷ [])
    ≡ VerdictEngine.local_ai ∷ VerdictEngine.signature ∷ []
unfolding native_verdict_engines zentor.Driver.sort_engines zentor.Driver.insert_engine
    zentor.Driver.engine_rank zentor.Driver.engine_of
engines_test = refl
