-- ===== src/Guard.antt =====
-- core/zentor_guard_service/src/main.rs: the guard after a process has started. Times are left out.
-- What the system answers is data: a listing of processes carries what a read of each file gives.
pub mod Acting
pub mod Started
pub mod Watch
pub mod SelfTest
pub mod Commands
use zentor.Prelude.{ℕ, Bool, true, false, ◌&&◌, ◌||◌, Option, none, some, if◌then◌else◌}
use zentor.Text.{Text, text, text_eq, contains, starts_with, to_ascii_lowercase, is_one_of}
use zentor.Text.Space.{trim}
use zentor.Verdict.{Verdict, Confidence}
use zentor.Engine.{FileScanVerdict}
use zentor.Driver.{
  DriverProtectionMode, disabled, observe_only, balanced, block_known_bad, block_confirmed_threats,
  lockdown, developer_mode, aggressive,
}

-- `anyhow::Result`, with the message of the error
pub data Answer {ℓ} (A : Type ℓ) : Type ℓ where
  done : A → Answer A
  error : Text → Answer A

pub data LocalThreatConfidence : Type 0 where
  confirmed high medium low : LocalThreatConfidence

pub record LocalThreatMatch : Type 0 where
  pub reason : Text
  pub engine : Text
  pub confidence : LocalThreatConfidence

pub record GuardEvent : Type 0 where
  pub is_ok : Bool
  pub action : Text
  pub message : Text
  pub process_id : Option ℕ
  pub process_path : Option Text
  pub quarantine_id : Option Text
  pub quarantine_path : Option Text
  pub quarantine_record_path : Option Text

pub data QuarantineStatus : Type 0 where
  quarantined restored deleted : QuarantineStatus

pub record GuardQuarantineRecord : Type 0 where
  pub quarantine_id : Text
  pub original_path : Text
  pub quarantine_path : Text
  pub sha256 : Text
  pub file_size : ℕ
  pub detection_name : Text
  pub engine : Text
  pub action_taken : Text
  pub status : QuarantineStatus
  pub user_note : Option Text
  pub source : Text
  pub blocked_before_execution : Bool
  pub process_started : Bool
  pub process_id : Option ℕ

-- What a read of a file gives: its hash, and the native engine's verdict, if a scan succeeds.
pub record FileAnswers : Type 0 where
  pub sha256_file : Answer Text
  pub scan_file : Option FileScanVerdict

-- What the file system answers while a file is quarantined; `rename` counts its attempts from 0.
pub record StoreAnswers : Type 0 where
  pub create_base : Answer (Unit {0})
  pub new_id : Text
  pub file_length : Option ℕ
  pub rename : ℕ → Answer (Unit {0})
  pub set_permissions : Answer (Unit {0})
  pub write_record : Answer (Unit {0})

-- a listed process, with what its file gives when the watch looks, and when the handler looks again
pub record ObservedProcess : Type 0 where
  pub process_id : ℕ
  pub path : Text
  pub first : FileAnswers
  pub second : FileAnswers
  pub store : StoreAnswers

unfoldable pub local_confidence : Confidence → LocalThreatConfidence
local_confidence Confidence.confirmed = confirmed
local_confidence Confidence.high = high
local_confidence Confidence.medium = medium
local_confidence Confidence.low = low

abbrev is_confirmed_verdict : Verdict → Bool
is_confirmed_verdict Verdict.test_threat = true
is_confirmed_verdict Verdict.confirmed_malware = true
is_confirmed_verdict _ = false

abbrev is_confirmed : Confidence → Bool
is_confirmed Confidence.confirmed = true
is_confirmed _ = false

-- the match of a scan that succeeds
unfoldable pub match_of_verdict : FileScanVerdict → Option LocalThreatMatch
match_of_verdict v =
    if is_confirmed_verdict v.final_verdict.verdict && is_confirmed v.final_verdict.confidence
    then some (record {
      reason = v.final_verdict.user_visible_explanation;
      engine = text "avorax-native-engine";
      confidence = local_confidence v.final_verdict.confidence;
    })
    else none

-- `native_threat_match(path).unwrap_or(None)`
unfoldable pub native_threat_match : FileAnswers → Option LocalThreatMatch
native_threat_match file = elim file.scan_file [ none ↦ none | some v ↦ match_of_verdict v ]

-- in the default build, without `compat_yara` and `compat_clamav`
unfoldable pub compat_threat_match : Option LocalThreatMatch
compat_threat_match = none

unfoldable pub should_skip_process_path : (Text → Text) → Text → Bool
should_skip_process_path lower path =
    contains (lower path) (text "\\windows\\system32\\")
    || contains (lower path) (text "\\windows\\syswow64\\")
    || text_eq (lower path) (text "c:\\windows\\explorer.exe")
    || starts_with (lower path) (text "/usr/")
    || starts_with (lower path) (text "/bin/")
    || starts_with (lower path) (text "/sbin/")
    || starts_with (lower path) (text "/system/")

unfoldable pub error_event : Option ℕ → Option Text → Text → GuardEvent
error_event process_id process_path message = record {
  is_ok = false;
  action = text "error";
  message = message;
  process_id = process_id;
  process_path = process_path;
  quarantine_id = none;
  quarantine_path = none;
  quarantine_record_path = none;
}
