-- ===== src/Driver/Labels.antt =====
-- Which files the guard service calls malware, and which programs it blocks
-- (core/zentor_guard_service/src/driver_ipc.rs).
use zentor.Prelude.{
  ◌≡◌, ◌↔◌, refl, Any, any_iff, List, Bool, true, false, ◌&&◌, ◌||◌, not, Option, none, some, arith,
}
use zentor.Text.{Text, text_eq, is_one_of}
use zentor.Text.Laws.{text_eq_iff}
use zentor.AppControl.{normalize_hash}
use zentor.Outcome.{Outcome, ok, fail, panic, ◌>>=◌}
use zentor.Verdict.{Verdict, suspicious, probable_malware, confirmed_malware}
use zentor.Engine.{FileScanVerdict}
use zentor.Driver.{
  DriverProtectionMode, lockdown, ScanRequest, DriverVerdictAction, block_action, ScanVerdict,
  DriverVerdictConfig, normalized_path, trusted_publisher, should_fail_open_path,
}
use zentor.Driver.Answer.{
  allow, monitor, block, suspect, refuse, mode_verdict, is_threat, is_suspicious, native_answer,
  is_listed, request_hash, evaluate_driver_request,
}

-- the call answers, and the answer passes a test
abbrev pub answers : (ScanVerdict → Bool) → Outcome ScanVerdict → Bool
answers test (ok v) = test v
answers test (fail _) = false
answers test panic = false

abbrev pub is_block : DriverVerdictAction → Bool
is_block block_action = true
is_block _ = false

abbrev pub is_lockdown : DriverProtectionMode → Bool
is_lockdown lockdown = true
is_lockdown _ = false

-- what a scan that runs finds, if there is a file, and whether it is a threat
abbrev pub finds : (FileScanVerdict → Bool) → Outcome (Option FileScanVerdict) → Bool
finds test (ok (some native)) = test native
finds test (ok none) = false
finds test (fail _) = false
finds test panic = false

-- what a driver's request is condemned for
abbrev pub is_malware : Verdict → Bool
is_malware Verdict.test_threat = true
is_malware confirmed_malware = true
is_malware probable_malware = true
is_malware _ = false

abbrev pub threat : FileScanVerdict → Bool
threat native = is_malware native.final_verdict.verdict

abbrev pub needs_review : Verdict → Bool
needs_review suspicious = true
needs_review _ = false

abbrev pub suspicion : FileScanVerdict → Bool
suspicion native = needs_review native.final_verdict.verdict

is_threat_lem : (v : Verdict) → is_threat v ≡ is_malware v
unfolding is_threat
is_threat_lem v = ground arith

is_suspicious_lem : (v : Verdict) → is_suspicious v ≡ needs_review v
unfolding is_suspicious
is_suspicious_lem v = ground arith

abbrev pub ends_ok : Outcome (Option FileScanVerdict) → Bool
ends_ok (ok _) = true
ends_ok (fail _) = false
ends_ok panic = false

-- the request is answered before the file is scanned, without blocking the program
abbrev pub is_trusted : (Text → Text) → ScanRequest → DriverVerdictConfig → Option Text → Bool
is_trusted lower request config file_hash =
    is_listed lower config.known_good_hashes (request_hash request file_hash)
    || is_listed lower config.user_approved_hashes (request_hash request file_hash)
    || trusted_publisher lower request config

-- the file is malware: by its hash, or by the scan where it is not trusted
abbrev pub is_condemned :
    (Text → Text)
    → ScanRequest
    → DriverVerdictConfig
    → Option Text
    → Outcome (Option FileScanVerdict)
    → Bool
is_condemned lower request config file_hash native =
    not (should_fail_open_path lower (normalized_path request))
    && (is_listed lower config.known_bad_hashes (request_hash request file_hash)
        || (not (is_trusted lower request config file_hash) && finds threat native))

some-inj : {a b : Text} → some a ≡ some b → a ≡ b
some-inj h = cc

mode-label :
    (request : ScanRequest) (mode : DriverProtectionMode)
    → (mode_verdict request mode).label_as_malware ≡ false
unfolding mode_verdict allow monitor refuse
mode-label request lockdown = refl
mode-label request _ = refl

mode-quarantine :
    (request : ScanRequest) (mode : DriverProtectionMode)
    → (mode_verdict request mode).quarantine_after_block ≡ false
unfolding mode_verdict allow monitor refuse
mode-quarantine request lockdown = refl
mode-quarantine request _ = refl

mode-block :
    (request : ScanRequest) (mode : DriverProtectionMode)
    → is_block (mode_verdict request mode).action ≡ is_lockdown mode
unfolding mode_verdict allow monitor refuse
mode-block request lockdown = refl
mode-block request _ = refl

-- what the answer from the scan labels, quarantines and blocks
scan-label :
    (request : ScanRequest) (mode : DriverProtectionMode)
    (native : Outcome (Option FileScanVerdict))
    → answers (λ v. v.label_as_malware) (native >>= λ found. ok (native_answer request mode found))
      ≡ finds threat native
unfolding native_answer block suspect
scan-label request mode (ok none) = mode-label request mode
scan-label request mode (ok (some native)) =
    let e = mode-label request mode in
    ground (
      arith,
      e,
      is_threat_lem native.final_verdict.verdict,
      is_suspicious_lem native.final_verdict.verdict,
    )
scan-label request mode (fail m) = refl
scan-label request mode panic = refl

scan-quarantine :
    (request : ScanRequest) (mode : DriverProtectionMode)
    (native : Outcome (Option FileScanVerdict))
    → answers
        (λ v. v.quarantine_after_block)
        (native >>= λ found. ok (native_answer request mode found))
      ≡ finds threat native
unfolding native_answer block suspect
scan-quarantine request mode (ok none) = mode-quarantine request mode
scan-quarantine request mode (ok (some native)) =
    let e = mode-quarantine request mode in
    ground (
      arith,
      e,
      is_threat_lem native.final_verdict.verdict,
      is_suspicious_lem native.final_verdict.verdict,
    )
scan-quarantine request mode (fail m) = refl
scan-quarantine request mode panic = refl

scan-block :
    (request : ScanRequest) (mode : DriverProtectionMode)
    (native : Outcome (Option FileScanVerdict))
    → answers (λ v. is_block v.action) (native >>= λ found. ok (native_answer request mode found))
      ≡ (finds threat native
          || (ends_ok native && not (finds suspicion native) && is_lockdown mode))
unfolding native_answer block suspect
scan-block request mode (ok none) = mode-block request mode
scan-block request mode (ok (some native)) =
    let e = mode-block request mode in
    ground (
      arith,
      e,
      is_threat_lem native.final_verdict.verdict,
      is_suspicious_lem native.final_verdict.verdict,
    )
scan-block request mode (fail m) = refl
scan-block request mode panic = refl

scan-answers :
    (request : ScanRequest) (mode : DriverProtectionMode)
    (native : Outcome (Option FileScanVerdict))
    → answers (λ v. true) (native >>= λ found. ok (native_answer request mode found))
      ≡ ends_ok native
scan-answers request mode (ok found) = refl
scan-answers request mode (fail m) = refl
scan-answers request mode panic = refl

-- the hash of the request, normalized, stands in a list
abbrev pub Lists : (Text → Text) → List Text → Option Text → Type 0
Lists lower hashes hash =
    (value : Text) × (hash ≡ some value) × Any (λ h. normalize_hash lower value ≡ h) hashes

is_listed_iff :
    (lower : Text → Text) (hashes : List Text) (hash : Option Text)
    → (is_listed lower hashes hash ≡ true) ↔ Lists lower hashes hash
unfolding is_listed is_one_of
is_listed_iff lower hashes none = (λ h. cc, λ h. cc h.1)
is_listed_iff lower hashes (some value) =
    let listed =
      any_iff (text_eq (normalize_hash lower value)) _
        (λ h. text_eq_iff (normalize_hash lower value) h) hashes in
    (λ h. (value, refl, listed.0 h), λ h. listed.1 (rw (some-inj h.1) h.2))

-- `evaluate_driver_request` calls a file malware, and has it quarantined after it is blocked, in
-- every mode alike: where its path is not passed through and its hash is known to be bad, or it is
-- not trusted and the scan finds a threat, which may be probable malware. It blocks the program
-- there, and else only in lockdown, where a file that is neither passed through nor trusted is
-- scanned without a suspicion. A trusted file is passed whatever the scan would find. A
-- hash is known to be bad, good or approved where, normalized, it is an entry of the list.
pub evaluate_driver_request-label :
    (lower : Text → Text) (request : ScanRequest) (config : DriverVerdictConfig)
    (file_hash : Option Text) (native : Outcome (Option FileScanVerdict))
    → (answers
          (λ v. v.label_as_malware)
          (evaluate_driver_request lower request config file_hash native)
        ≡ is_condemned lower request config file_hash native)
      × (answers
            (λ v. v.quarantine_after_block)
            (evaluate_driver_request lower request config file_hash native)
          ≡ is_condemned lower request config file_hash native)
      × (answers
            (λ v. is_block v.action)
            (evaluate_driver_request lower request config file_hash native)
          ≡ (is_condemned lower request config file_hash native
              || (not (should_fail_open_path lower (normalized_path request))
                  && not (is_trusted lower request config file_hash)
                  && ends_ok native
                  && not (finds suspicion native)
                  && is_lockdown config.mode)))
      × ((hashes : List Text)
          → (is_listed lower hashes (request_hash request file_hash) ≡ true)
            ↔ Lists lower hashes (request_hash request file_hash))
unfolding evaluate_driver_request allow block
evaluate_driver_request-label lower request config file_hash native =
    let label = scan-label request config.mode native in
    let hold = scan-quarantine request config.mode native in
    let stop = scan-block request config.mode native in
    (
      ground (arith, label),
      ground (arith, hold),
      ground (arith, stop),
      λ hashes. is_listed_iff lower hashes (request_hash request file_hash),
    )

-- `evaluate_driver_request` answers in every case but one: where the file is neither passed through
-- nor known to be bad nor trusted, and the scan does not end with a verdict.
evaluate_driver_request-answers :
    (lower : Text → Text) (request : ScanRequest) (config : DriverVerdictConfig)
    (file_hash : Option Text) (native : Outcome (Option FileScanVerdict))
    → answers (λ v. true) (evaluate_driver_request lower request config file_hash native) ≡ (
        should_fail_open_path lower (normalized_path request)
        || is_listed lower config.known_bad_hashes (request_hash request file_hash)
        || is_trusted lower request config file_hash
        || ends_ok native)
unfolding evaluate_driver_request
evaluate_driver_request-answers lower request config file_hash native =
    let e = scan-answers request config.mode native in ground (arith, e)
