-- ===== src/AppControl.antt =====
-- core/zentor_local_core/src/app_control: the data of application control, its stores of exact
-- hashes, its trusted publishers and its script policy. A path is the text it is displayed as, and
-- `lower` is `str::to_lowercase`, whose tables of Unicode are a parameter of the model.
pub mod Policy
pub mod Decisions
pub mod Approvals
use zentor.Prelude.{
  ℕ, Bool, true, false, ◌||◌, not, Option, none, some, List, [], ◌∷◌, map, any, ◌==◌, if◌then◌else◌,
}
use zentor.Text.{
  Text, text, text_eq, is_empty, is_one_of, contains, starts_with, ends_with, drop_prefix,
  replace_byte, trim_end_bytes,
}
use zentor.Text.Space.{trim}

-- decision.rs
pub data ApplicationControlDecision : Type 0 where
  allow block quarantine allow_and_monitor ask_user timeout_allow : ApplicationControlDecision
  timeout_block : ApplicationControlDecision

pub data ApplicationTrustLevel : Type 0 where
  system_trusted trusted_publisher known_good_hash user_approved : ApplicationTrustLevel
  allowlisted unknown suspicious known_bad confirmed_malware : ApplicationTrustLevel

pub record ApplicationControlResult : Type 0 where
  pub decision : ApplicationControlDecision
  pub trust_level : ApplicationTrustLevel
  pub reason : Text
  pub label_as_malware : Bool
  pub requires_user_approval : Bool
  pub monitor_process : Bool
  pub cache_ttl_ms : ℕ  -- u64

-- policy.rs
pub data ProtectionMode : Type 0 where
  off monitor_only balanced block_confirmed_threats lockdown developer_mode : ProtectionMode

pub record ApplicationControlInput : Type 0 where
  pub path : Text
  pub sha256 : Option Text
  pub publisher : Option Text
  pub signature_valid : Bool
  pub parent_process_path : Option Text
  pub is_script : Bool
  pub downloaded_from_internet : Bool
  pub strong_risk_signal : Bool
  pub confirmed_malware : Bool
  pub probable_malware : Bool

unfoldable pub for_path : Text → ApplicationControlInput
for_path path = record {
  path = path;
  sha256 = none;
  publisher = none;
  signature_valid = false;
  parent_process_path = none;
  is_script = false;
  downloaded_from_internet = false;
  strong_risk_signal = false;
  confirmed_malware = false;
  probable_malware = false;
}

-- `self.mode == ProtectionMode::Off`, `self.mode == ProtectionMode::Lockdown`
unfoldable pub is_off : ProtectionMode → Bool
is_off off = true
is_off _ = false

unfoldable pub is_lockdown : ProtectionMode → Bool
is_lockdown lockdown = true
is_lockdown _ = false

unfoldable pub is_allow_and_monitor : ApplicationControlDecision → Bool
is_allow_and_monitor allow_and_monitor = true
is_allow_and_monitor _ = false

unfoldable pub result :
    ApplicationControlDecision
    → ApplicationTrustLevel
    → Text
    → Bool
    → Bool
    → Bool
    → ℕ
    → ApplicationControlResult
result decision trust_level reason label_as_malware requires_user_approval monitor_process ttl =
    record {
      decision = decision;
      trust_level = trust_level;
      reason = reason;
      label_as_malware = label_as_malware;
      requires_user_approval = requires_user_approval;
      monitor_process = monitor_process;
      cache_ttl_ms = ttl;
    }

-- The stores of known-good, known-bad and approved hashes are each a `HashSet` of texts, here the
-- list of its members, which is only asked whether it contains one.
abbrev pub ExactHashes : Type 0
ExactHashes = List Text

abbrev or_else : Option Text → Text → Text
or_else none t = t
or_else (some s) t = s

unfoldable pub normalize_hash : (Text → Text) → Text → Text
unfolding drop_prefix trim
normalize_hash lower value =
    lower (or_else (drop_prefix (trim value) (text "sha256:")) (trim value))

unfoldable pub from_hashes : (Text → Text) → List Text → ExactHashes
from_hashes lower hashes = map (normalize_hash lower) hashes

unfoldable pub contains_hash : (Text → Text) → ExactHashes → Text → Bool
contains_hash lower hashes hash = any (text_eq (normalize_hash lower hash)) hashes

unfoldable pub approve_hash : (Text → Text) → Text → ExactHashes → ExactHashes
approve_hash lower hash hashes = normalize_hash lower hash ∷ hashes

-- publisher_trust.rs
pub data PublisherStatus : Type 0 where
  trusted suspicious unknown : PublisherStatus

pub record TrustedPublisherPolicy : Type 0 where
  pub trusted_names : List Text
  pub suspicious_names : List Text

unfoldable pub default_publishers : TrustedPublisherPolicy
default_publishers = record {
  trusted_names =
      text "microsoft windows"
      ∷ text "microsoft corporation"
      ∷ text "zentor"
      ∷ text "zentor security"
      ∷ [];
  suspicious_names = [];
}

unfoldable pub with_trusted : (Text → Text) → List Text → TrustedPublisherPolicy
with_trusted lower names = record { trusted_names = map lower names; suspicious_names = [] }

unfoldable pub publisher_status :
    (Text → Text) → TrustedPublisherPolicy → Option Text → PublisherStatus
publisher_status lower policy none = PublisherStatus.unknown
publisher_status lower policy (some publisher) =
    let normalized = lower (trim publisher) in
    if is_empty normalized
    then PublisherStatus.unknown
    else if any (text_eq normalized) policy.suspicious_names
    then PublisherStatus.suspicious
    else if any (contains normalized) policy.trusted_names
    then trusted
    else PublisherStatus.unknown

-- script_policy.rs; the policy is its mode, `balanced` where nothing is said
unfoldable pub monitor : Text → ApplicationControlResult
monitor reason =
    result allow_and_monitor ApplicationTrustLevel.unknown reason false false true 30_000

unfoldable pub script_evaluate : ProtectionMode → ApplicationControlInput → ApplicationControlResult
script_evaluate mode input =
    if not input.is_script
    then monitor (text "Not a script.")
    else if input.strong_risk_signal || input.downloaded_from_internet
    then result (if is_lockdown mode then block else ask_user) ApplicationTrustLevel.suspicious
        (text "Script has unknown or high-risk origin and requires review.") false true true 30_000
    else monitor (text "Script is unknown and remains monitored.")

-- trust_store.rs
unfoldable pub is_dangerous_allowlist_path : (Text → Text) → Text → Bool
is_dangerous_allowlist_path lower path =
    is_one_of (trim_end_bytes (λ b. b == b'\\') (lower (replace_byte b'/' b'\\' path))) (
      text "c:"
      ∷ text "c:\\windows"
      ∷ text "c:\\program files"
      ∷ text "c:\\program files (x86)"
      ∷ [])
    || is_one_of path
        (text "/" ∷ text "/System" ∷ text "/usr" ∷ text "/bin" ∷ text "/sbin" ∷ text "/etc" ∷ [])

unfoldable pub is_passthrough_system_or_zentor_path : (Text → Text) → Text → Bool
is_passthrough_system_or_zentor_path lower path =
    contains (lower path) (text "\\windows\\system32\\")
    || contains (lower path) (text "\\windows\\syswow64\\")
    || ends_with (lower path) (text "\\zentor_local_core.exe")
    || ends_with (lower path) (text "\\zentor_guard_service.exe")
    || contains (lower path) (text "\\avorax\\quarantine\\")
    || contains (lower path) (text "\\zentor\\quarantine\\")
    || starts_with (lower path) (text "/usr/")
    || starts_with (lower path) (text "/bin/")
    || starts_with (lower path) (text "/sbin/")
    || contains (lower path) (text "/avorax/quarantine/")
    || contains (lower path) (text "/zentor/quarantine/")
