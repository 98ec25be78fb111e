-- ===== src/AppControl/Policy.antt =====
-- `ApplicationControlPolicy` of core/zentor_local_core/src/app_control/policy.rs: what is decided
-- about a program that is to start. `unreachable!()` is a panic.
use zentor.Prelude.{Bool, true, false, ◌&&◌, ◌||◌, not, Option, none, some, [], if◌then◌else◌}
use zentor.Text.{Text, text, contains, starts_with}
use zentor.Outcome.{Outcome, ok, panic}
use zentor.AppControl.{
  allow, block, quarantine, allow_and_monitor, ask_user, ApplicationTrustLevel, system_trusted,
  trusted_publisher, known_good_hash, user_approved, confirmed_malware, ApplicationControlResult,
  ProtectionMode, off, monitor_only, balanced, block_confirmed_threats, lockdown, developer_mode,
  ApplicationControlInput, is_off, is_lockdown, is_allow_and_monitor, result, ExactHashes,
  contains_hash, PublisherStatus, trusted, TrustedPublisherPolicy, default_publishers,
  publisher_status, script_evaluate, is_passthrough_system_or_zentor_path,
}

pub record ApplicationControlPolicy : Type 0 where
  pub mode : ProtectionMode
  pub known_good : ExactHashes
  pub known_bad : ExactHashes
  pub user_approvals : ExactHashes
  pub trusted_publishers : TrustedPublisherPolicy
  pub script_policy : ProtectionMode

unfoldable pub new_policy : ProtectionMode → ApplicationControlPolicy
new_policy mode = record {
  mode = mode;
  known_good = [];
  known_bad = [];
  user_approvals = [];
  trusted_publishers = default_publishers;
  script_policy = balanced;
}

unfoldable pub probable_malware_result : ProtectionMode → Outcome ApplicationControlResult
probable_malware_result lockdown = ok (
    result block ApplicationTrustLevel.suspicious
      (text
        "Strong probable-malware evidence overrides stale trust records in Lockdown Mode; user review is required before allowing execution.")
      false true false 30_000)
probable_malware_result off = panic
probable_malware_result _ = ok (
    result allow_and_monitor ApplicationTrustLevel.suspicious
      (text
        "Strong probable-malware evidence overrides stale trust records and requires review; automatic quarantine is limited to confirmed threats.")
      false false true 30_000)

-- the last `match` of `evaluate`
unfoldable pub mode_result : ProtectionMode → Outcome ApplicationControlResult
mode_result monitor_only = ok (
    result allow_and_monitor ApplicationTrustLevel.unknown
      (text "Unknown app allowed for monitoring in the selected protection profile.") false false
      true 30_000)
mode_result developer_mode = ok (
    result allow_and_monitor ApplicationTrustLevel.unknown
      (text "Unknown app allowed for monitoring in the selected protection profile.") false false
      true 30_000)
mode_result balanced = ok (
    result allow_and_monitor ApplicationTrustLevel.unknown
      (text "Unknown app is not labeled malware; it is allowed with monitoring.") false false true
      30_000)
mode_result block_confirmed_threats = ok (
    result allow_and_monitor ApplicationTrustLevel.unknown
      (text "Unknown app is not labeled malware; it is allowed with monitoring.") false false true
      30_000)
mode_result lockdown = ok (
    result block ApplicationTrustLevel.unknown
      (text "Lockdown Mode blocks unknown apps until an exact hash is approved.") false true false
      30_000)
mode_result off = panic

-- `hash.map(|hash| store.contains(hash)).unwrap_or(false)`
unfoldable pub has_hash : (Text → Text) → ExactHashes → Option Text → Bool
has_hash lower store none = false
has_hash lower store (some hash) = contains_hash lower store hash

-- what `evaluate` returns for a publisher whose signature is valid, if anything
unfoldable pub publisher_result : ProtectionMode → PublisherStatus → Option ApplicationControlResult
publisher_result mode trusted = some (
    result allow trusted_publisher (text "Valid trusted publisher signature.") false false false
      300_000)
publisher_result mode PublisherStatus.suspicious =
    if is_lockdown mode
    then some (
        result ask_user ApplicationTrustLevel.suspicious
          (text "Publisher is signed but not trusted for Lockdown Mode.") false true true 30_000)
    else none
publisher_result mode PublisherStatus.unknown = none

unfoldable pub signature_result :
    (Text → Text)
    → ApplicationControlPolicy
    → ApplicationControlInput
    → Option ApplicationControlResult
signature_result lower policy input =
    if input.signature_valid
    then publisher_result policy.mode
        (publisher_status lower policy.trusted_publishers input.publisher)
    else none

-- what `evaluate` returns for a script, if anything
unfoldable pub script_result :
    ApplicationControlPolicy → ApplicationControlInput → Option ApplicationControlResult
script_result policy input =
    let decided = script_evaluate policy.script_policy input in
    if input.is_script && not (is_allow_and_monitor decided.decision) then some decided else none

abbrev pub or_next :
    Option ApplicationControlResult
    → Outcome ApplicationControlResult
    → Outcome ApplicationControlResult
or_next none next = next
or_next (some r) next = ok r

-- the program is confirmed malware: by its hash, or by what the caller knows
unfoldable pub is_confirmed_bad :
    (Text → Text) → ApplicationControlPolicy → ApplicationControlInput → Bool
is_confirmed_bad lower policy input =
    has_hash lower policy.known_bad input.sha256 || input.confirmed_malware

-- `evaluate` for a program that is not confirmed malware
unfoldable pub trust_evaluate :
    (Text → Text)
    → ApplicationControlPolicy
    → ApplicationControlInput
    → Outcome ApplicationControlResult
trust_evaluate lower policy input =
    if input.probable_malware && input.strong_risk_signal
    then probable_malware_result policy.mode
    else if has_hash lower policy.known_good input.sha256
    then ok (
        result allow known_good_hash (text "Known-good exact hash is trusted.") false false false
          300_000)
    else if has_hash lower policy.user_approvals input.sha256
    then ok (
        result allow user_approved (text "User approved this exact file hash.") false false false
          300_000)
    else or_next (signature_result lower policy input)
        (or_next (script_result policy input) (mode_result policy.mode))

unfoldable pub evaluate :
    (Text → Text)
    → ApplicationControlPolicy
    → ApplicationControlInput
    → Outcome ApplicationControlResult
evaluate lower policy input =
    if is_off policy.mode
    then ok (
        result allow ApplicationTrustLevel.unknown (text "Application control is off.") false false
          false 10_000)
    else if is_passthrough_system_or_zentor_path lower input.path
    then ok (
        result allow system_trusted
          (text "Critical system or Avorax-owned path is allowed by fail-open policy.") false false
          false 300_000)
    else if is_confirmed_bad lower policy input
    then ok (
        result quarantine confirmed_malware (text "Confirmed local threat signal matched.") true
          false false 300_000)
    else trust_evaluate lower policy input

unfoldable pub location_category : (Text → Text) → Text → Text
location_category lower path =
    if contains (lower path) (text "\\downloads\\") || contains (lower path) (text "/downloads/")
    then text "downloads"
    else if contains (lower path) (text "\\temp\\") || contains (lower path) (text "/tmp/")
    then text "temp"
    else if contains (lower path) (text "\\program files\\")
    then text "program_files"
    else if contains (lower path) (text "\\windows\\") || starts_with (lower path) (text "/system/")
    then text "system"
    else text "unknown"
