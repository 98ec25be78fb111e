-- ===== src/AppControl/Approvals.antt =====
-- What an approved hash and the lockdown change (core/zentor_local_core/src/app_control/policy.rs,
-- user_approval.rs).
use zentor.Prelude.{◌≡◌, refl, Bool, true, false, ◌&&◌, ◌||◌, not, arith}
use zentor.Text.{Text}
use zentor.Outcome.{Outcome, ok, fail, panic}
use zentor.AppControl.{
  ApplicationControlDecision, allow, allow_and_monitor, timeout_allow, ApplicationControlResult,
  ProtectionMode, lockdown, ApplicationControlInput, is_off, is_lockdown, is_allow_and_monitor,
  script_evaluate, monitor, result, PublisherStatus, trusted, publisher_status,
  is_passthrough_system_or_zentor_path,
}
use zentor.AppControl.Policy.{
  ApplicationControlPolicy, probable_malware_result, mode_result, has_hash, publisher_result,
  signature_result, script_result, or_next, is_confirmed_bad, trust_evaluate, evaluate,
}

module _ (lower : Text → Text) (policy : ApplicationControlPolicy)
    (input : ApplicationControlInput) where
  -- the evaluation gets as far as the approvals
  abbrev pub asks_approvals : Bool
  asks_approvals = not (
      is_off policy.mode
      || is_passthrough_system_or_zentor_path lower input.path
      || is_confirmed_bad lower policy input
      || (input.probable_malware && input.strong_risk_signal)
      || has_hash lower policy.known_good input.sha256)

abbrev pub lets_run : ApplicationControlDecision → Bool
lets_run allow = true
lets_run allow_and_monitor = true
lets_run timeout_allow = true
lets_run _ = false

-- the program is let run by what is decided
abbrev pub runs : Outcome ApplicationControlResult → Bool
runs (ok r) = lets_run r.decision
runs (fail message) = false
runs panic = false

abbrev pub is_trusted_status : PublisherStatus → Bool
is_trusted_status trusted = true
is_trusted_status _ = false

runs_monitored :
    (mode : ProtectionMode) (input : ApplicationControlInput)
    → is_allow_and_monitor (script_evaluate mode input).decision ≡ false
    → lets_run (script_evaluate mode input).decision ≡ false
unfolding script_evaluate monitor result is_allow_and_monitor
runs_monitored mode input h = ground arith

runs_mode : (mode : ProtectionMode) → is_lockdown mode ≡ true → runs (mode_result mode) ≡ false
unfolding mode_result is_lockdown result
runs_mode lockdown h = refl
runs_mode _ h = cc

runs_script :
    (mode : ProtectionMode) (policy : ApplicationControlPolicy) (input : ApplicationControlInput)
    → is_lockdown mode ≡ true
    → runs (or_next (script_result policy input) (mode_result mode)) ≡ false
unfolding script_result
runs_script mode policy input h =
    ground (arith, runs_monitored policy.script_policy input, runs_mode mode h)

runs_signature :
    (mode : ProtectionMode) (status : PublisherStatus) (m : Outcome ApplicationControlResult)
    → is_lockdown mode ≡ true
    → runs m ≡ false
    → runs (or_next (publisher_result mode status) m) ≡ is_trusted_status status
unfolding publisher_result result
runs_signature mode trusted m h none_runs = refl
runs_signature mode PublisherStatus.suspicious m h none_runs = rw h refl
runs_signature mode PublisherStatus.unknown m h none_runs = none_runs

runs_probable :
    (mode : ProtectionMode) → is_lockdown mode ≡ true → runs (probable_malware_result mode) ≡ false
unfolding probable_malware_result is_lockdown result
runs_probable lockdown h = refl
runs_probable _ h = cc

is_lockdown_of :
    (mode : ProtectionMode) → mode ≡ lockdown → (is_lockdown mode ≡ true) × (is_off mode ≡ false)
unfolding is_lockdown is_off
is_lockdown_of mode h = rw h (refl, refl)

-- In lockdown, `ApplicationControlPolicy::evaluate` lets a program run exactly when its path is
-- passed through, or when it is neither confirmed malware nor probable malware with a strong risk
-- signal and its hash is known to be good, its hash is approved, or its signature is valid and of a
-- trusted publisher.
pub evaluate-lockdown :
    (lower : Text → Text) (policy : ApplicationControlPolicy) (input : ApplicationControlInput)
    → policy.mode ≡ lockdown
    → runs (evaluate lower policy input) ≡ (
        is_passthrough_system_or_zentor_path lower input.path
        || (not (is_confirmed_bad lower policy input)
            && not (input.probable_malware && input.strong_risk_signal)
            && (has_hash lower policy.known_good input.sha256
                || has_hash lower policy.user_approvals input.sha256
                || (input.signature_valid
                    && is_trusted_status
                        (publisher_status lower policy.trusted_publishers input.publisher)))))
unfolding evaluate trust_evaluate signature_result result
evaluate-lockdown lower policy input h =
    let (locked, on) = is_lockdown_of policy.mode h in
    let probable = runs_probable policy.mode locked in
    let last =
      runs_signature policy.mode (publisher_status lower policy.trusted_publishers input.publisher)
        _ locked (runs_script policy.mode policy input locked) in
    ground (arith, probable, last, runs_script policy.mode policy input locked)
