-- ===== src/Driver.antt =====
-- core/zentor_guard_service/src/{driver_ipc,preexecution_policy}.rs: what the guard service answers a
-- driver that asks about a file. The hash of the file, if it can be read, and the verdict of the
-- native engine, if the file is there, are arguments; `lower` is `str::to_lowercase`.
pub mod Answer
pub mod Labels
use zentor.Prelude.{
  ℕ, Bool, true, false, ◌&&◌, ◌||◌, not, Option, none, some, List, [], ◌∷◌, map, any, ltb, ◌==◌,
  if◌then◌else◌,
}
use zentor.Text.{
  Text, text, text_eq, is_one_of, contains, contains_any, starts_with, ends_with,
  to_ascii_lowercase,
}
use zentor.Text.Space.{trim, is_blank}
use zentor.Verdict.{EvidenceSource, native_signature, native_ml, native_behavior}
use zentor.AppControl.{normalize_hash, ApplicationTrustLevel}

-- preexecution_policy.rs
pub data DriverProtectionMode : Type 0 where
  disabled observe_only balanced block_known_bad block_confirmed_threats : DriverProtectionMode
  lockdown developer_mode aggressive : DriverProtectionMode

pub data DriverEventType : Type 0 where
  file_open file_create file_write file_rename image_execute_attempt : DriverEventType
  section_create_attempt : DriverEventType

pub record ScanRequest : Type 0 where
  pub request_id : Text
  pub event_type : DriverEventType
  pub file_path : Text
  pub normalized_file_path : Option Text
  pub process_id : Option ℕ
  pub parent_process_id : Option ℕ
  pub user_sid : Option Text
  pub desired_access : Option ℕ
  pub file_size : Option ℕ
  pub file_attributes : Option ℕ
  pub signature_status : Option Text
  pub publisher : Option Text
  pub signature_verified_by : Option Text
  pub parent_process_path : Option Text
  pub sha256 : Option Text
  pub sha256_verified_by : Option Text
  pub timestamp_utc : ℕ

pub data DriverVerdictAction : Type 0 where
  allow_action block_action quarantine_action allow_and_monitor : DriverVerdictAction
  timeout_allow timeout_block : DriverVerdictAction

pub data DriverFinalVerdict : Type 0 where
  clean likely_clean unknown observation suspicious probable_malware : DriverFinalVerdict
  confirmed_malware : DriverFinalVerdict

pub data VerdictConfidence : Type 0 where
  low medium high confirmed : VerdictConfidence

pub data VerdictEngine : Type 0 where
  signature yara local_ai heuristic behavior known_bad_hash known_good_hash : VerdictEngine
  allowlist app_control trusted_publisher_engine : VerdictEngine

pub record ScanVerdict : Type 0 where
  pub answered_id : Text
  pub action : DriverVerdictAction
  pub final_verdict : DriverFinalVerdict
  pub confidence : VerdictConfidence
  pub engines_used : List VerdictEngine
  pub reason_summary : Text
  pub cache_ttl_ms : ℕ
  pub quarantine_after_block : Bool
  pub trust_level : ApplicationTrustLevel
  pub requires_user_approval : Bool
  pub monitor_process : Bool
  pub label_as_malware : Bool

-- the sets of hashes and of publishers as lists of their members
pub record DriverVerdictConfig : Type 0 where
  pub known_bad_hashes : List Text
  pub known_good_hashes : List Text
  pub user_approved_hashes : List Text
  pub trusted_publishers : List Text
  pub mode : DriverProtectionMode
  pub pre_execution_timeout_ms : ℕ

unfoldable pub default_config : DriverVerdictConfig
default_config = record {
  known_bad_hashes = [];
  known_good_hashes = [];
  user_approved_hashes = [];
  trusted_publishers =
      text "microsoft windows"
      ∷ text "microsoft corporation"
      ∷ text "avorax"
      ∷ text "avorax security"
      ∷ text "zentor"
      ∷ text "zentor security"
      ∷ [];
  mode = balanced;
  pre_execution_timeout_ms = 750;
}

unfoldable pub normalized_path : ScanRequest → Text
normalized_path request = elim request.normalized_file_path [
  | none ↦ request.file_path
  | some path ↦ if is_blank path then request.file_path else path
]

unfoldable pub trusted_metadata_source : Option Text → Bool
trusted_metadata_source none = false
trusted_metadata_source (some source) = is_one_of (to_ascii_lowercase (trim source)) (
    text "avorax_kernel_driver"
    ∷ text "avorax_guard_service"
    ∷ text "windows_code_integrity"
    ∷ text "windows_wintrust"
    ∷ [])

abbrev not_blank : Option Text → Option Text
not_blank none = none
not_blank (some value) = if is_blank value then none else some value

unfoldable pub trusted_request_sha256 : ScanRequest → Option Text
trusted_request_sha256 request =
    if trusted_metadata_source request.sha256_verified_by then not_blank request.sha256 else none

abbrev is_valid : Option Text → Bool
is_valid none = false
is_valid (some status) = text_eq status (text "valid")

abbrev is_trusted_name : (Text → Text) → List Text → Option Text → Bool
is_trusted_name lower names none = false
is_trusted_name lower names (some publisher) =
    any (λ name. contains (lower publisher) (lower name)) names

unfoldable pub trusted_publisher : (Text → Text) → ScanRequest → DriverVerdictConfig → Bool
trusted_publisher lower request config =
    trusted_metadata_source request.signature_verified_by
    && is_valid request.signature_status
    && is_trusted_name lower config.trusted_publishers request.publisher

unfoldable pub should_fail_open_path : (Text → Text) → Text → Bool
should_fail_open_path lower path =
    contains (lower path) (text "\\windows\\system32\\")
    || contains (lower path) (text "\\windows\\syswow64\\")
    || contains (lower path) (text "\\avorax\\quarantine\\")
    || contains (lower path) (text "\\avorax\\guardquarantine\\")
    || contains (lower path) (text "\\avorax-guard-quarantine\\")
    || contains (lower path) (text "\\avorax-native-quarantine\\")
    || ends_with (lower path) (text "\\avorax_local_core.exe")
    || ends_with (lower path) (text "\\avorax_guard_service.exe")
    || contains (lower path) (text "\\zentor\\quarantine\\")
    || contains (lower path) (text "\\zentor\\guardquarantine\\")
    || contains (lower path) (text "\\zentor-guard-quarantine\\")
    || contains (lower path) (text "\\zentor-native-quarantine\\")
    || ends_with (lower path) (text "\\zentor_local_core.exe")
    || ends_with (lower path) (text "\\zentor_guard_service.exe")
    || starts_with (lower path) (text "/usr/")
    || starts_with (lower path) (text "/bin/")
    || starts_with (lower path) (text "/sbin/")
    || contains (lower path) (text "/avorax/quarantine/")
    || contains (lower path) (text "/avorax/guardquarantine/")
    || contains (lower path) (text "/avorax-guard-quarantine/")
    || contains (lower path) (text "/avorax-native-quarantine/")
    || contains (lower path) (text "/zentor/quarantine/")
    || contains (lower path) (text "/zentor/guardquarantine/")
    || contains (lower path) (text "/zentor-guard-quarantine/")
    || contains (lower path) (text "/zentor-native-quarantine/")

unfoldable pub engine_of : EvidenceSource → VerdictEngine
engine_of native_signature = signature
engine_of native_ml = local_ai
engine_of native_behavior = behavior
engine_of _ = heuristic

-- the place of an engine's name in the alphabet
unfoldable pub engine_rank : VerdictEngine → ℕ
engine_rank allowlist = 0
engine_rank app_control = 1
engine_rank behavior = 2
engine_rank heuristic = 3
engine_rank known_bad_hash = 4
engine_rank known_good_hash = 5
engine_rank local_ai = 6
engine_rank signature = 7
engine_rank trusted_publisher_engine = 8
engine_rank yara = 9

-- sorted and without repetition
unfoldable pub insert_engine : VerdictEngine → List VerdictEngine → List VerdictEngine
insert_engine e [] = e ∷ []
insert_engine e (x ∷ rest) =
    let later = insert_engine e rest in
    if engine_rank e == engine_rank x
    then x ∷ rest
    else if ltb (engine_rank e) (engine_rank x)
    then e ∷ x ∷ rest
    else x ∷ later

unfoldable pub sort_engines : List VerdictEngine → List VerdictEngine
sort_engines [] = []
sort_engines (e ∷ rest) = insert_engine e (sort_engines rest)

unfoldable pub native_verdict_engines : List EvidenceSource → List VerdictEngine
native_verdict_engines [] = heuristic ∷ []
native_verdict_engines (source ∷ rest) = sort_engines (map engine_of (source ∷ rest))
