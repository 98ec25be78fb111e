-- ===== src/AppControl/Decisions.antt =====
-- What application control decides, and when (core/zentor_local_core/src/app_control/policy.rs).
use zentor.Prelude.{
  ℕ, ◌≡◌, ◌↔◌, refl, Bool, true, false, ◌&&◌, ◌||◌, not, Option, none, some, if_both, if_or,
}
use mathlib.Core.Option.{some-injective}
use zentor.Text.{Text}
use zentor.Outcome.{Outcome, ok}
use zentor.AppControl.{
  ApplicationControlDecision, quarantine, ApplicationTrustLevel, ApplicationControlResult,
  ProtectionMode, off, ApplicationControlInput, is_off, is_lockdown, result, PublisherStatus,
  trusted, monitor, script_evaluate, is_passthrough_system_or_zentor_path,
}
use zentor.AppControl.Policy.{
  ApplicationControlPolicy, probable_malware_result, mode_result, has_hash, publisher_result,
  signature_result, script_result, or_next, trust_evaluate, is_confirmed_bad, evaluate,
}

abbrev is_quarantine : ApplicationControlDecision → Bool
is_quarantine quarantine = true
is_quarantine _ = false

is_quarantine_iff : (d : ApplicationControlDecision) → (is_quarantine d ≡ true) ↔ (d ≡ quarantine)
is_quarantine_iff quarantine = (λ h. refl, λ h. refl)
is_quarantine_iff _ = (λ h. cc, λ h. cc)

-- a result that neither quarantines nor calls the program malware
record IsReview (r : ApplicationControlResult) : Type 0 where
  not_quarantined : is_quarantine r.decision ≡ false
  not_labelled : r.label_as_malware ≡ false

-- the call ends with such a result
abbrev Reviews : Outcome ApplicationControlResult → Type 0
Reviews m = (r : ApplicationControlResult) × (m ≡ ok r) × (IsReview r)

result-Reviews :
    (d : ApplicationControlDecision) (trust : ApplicationTrustLevel) (reason : Text)
    (ask watch : Bool) (ttl : ℕ)
    → is_quarantine d ≡ false
    → IsReview (result d trust reason false ask watch ttl)
unfolding result
result-Reviews d trust reason ask watch ttl h = record { not_quarantined = h; not_labelled = refl }

probable-Reviews :
    (mode : ProtectionMode) → is_off mode ≡ false → Reviews (probable_malware_result mode)
unfolding probable_malware_result is_off
probable-Reviews off h = cc
probable-Reviews _ h = (_, refl, result-Reviews _ _ _ _ _ _ refl)

mode-Reviews : (mode : ProtectionMode) → is_off mode ≡ false → Reviews (mode_result mode)
unfolding mode_result is_off
mode-Reviews off h = cc
mode-Reviews _ h = (_, refl, result-Reviews _ _ _ _ _ _ refl)

-- a decision for review, whatever the mode of the script policy
script-Reviews :
    (mode : ProtectionMode) (input : ApplicationControlInput)
    → IsReview (script_evaluate mode input)
unfolding script_evaluate monitor
script-Reviews mode input =
    if_both IsReview (not input.is_script) (result-Reviews _ _ _ _ _ _ refl) (
      if_both IsReview (input.strong_risk_signal || input.downloaded_from_internet)
        (result-Reviews _ _ _ _ _ _
          (if_both (λ d. is_quarantine d ≡ false) (is_lockdown mode) refl refl))
        (result-Reviews _ _ _ _ _ _ refl))

-- an early return, if there is one
abbrev OnSome : Option ApplicationControlResult → Type 0
OnSome o = (r : ApplicationControlResult) → o ≡ some r → IsReview r

some-OnSome : (r : ApplicationControlResult) → IsReview r → OnSome (some r)
some-OnSome r h r' e = rw (← some-injective r r' e) h

none-OnSome : OnSome none
none-OnSome r e = cc

publisher-Reviews :
    (mode : ProtectionMode) (status : PublisherStatus) → OnSome (publisher_result mode status)
unfolding publisher_result
publisher-Reviews mode trusted = some-OnSome _ (result-Reviews _ _ _ _ _ _ refl)
publisher-Reviews mode PublisherStatus.suspicious =
    if_both OnSome (is_lockdown mode) (some-OnSome _ (result-Reviews _ _ _ _ _ _ refl)) none-OnSome
publisher-Reviews mode PublisherStatus.unknown = none-OnSome

or_next-Reviews :
    (o : Option ApplicationControlResult) (m : Outcome ApplicationControlResult)
    → OnSome o
    → Reviews m
    → Reviews (or_next o m)
or_next-Reviews none m first next = next
or_next-Reviews (some r) m first next = (r, refl, first r refl)

module _ (lower : Text → Text) (policy : ApplicationControlPolicy)
    (input : ApplicationControlInput) where
  last-Reviews :
      is_off policy.mode ≡ false
      → Reviews (
          or_next
            (signature_result lower policy input)
            (or_next (script_result policy input) (mode_result policy.mode)))
  unfolding signature_result script_result
  last-Reviews h =
      or_next-Reviews _ _ (if_both OnSome input.signature_valid (publisher-Reviews _ _) none-OnSome)
        (or_next-Reviews _ _
          (if_both OnSome _ (some-OnSome _ (script-Reviews policy.script_policy input)) none-OnSome)
          (mode-Reviews policy.mode h))

  -- what follows the tests below
  trust-Reviews : is_off policy.mode ≡ false → Reviews (trust_evaluate lower policy input)
  unfolding trust_evaluate
  trust-Reviews on =
      if_both Reviews (input.probable_malware && input.strong_risk_signal)
        (probable-Reviews policy.mode on)
        (if_both Reviews (has_hash lower policy.known_good input.sha256)
          (_, refl, result-Reviews _ _ _ _ _ _ refl)
          (if_both Reviews (has_hash lower policy.user_approvals input.sha256)
            (_, refl, result-Reviews _ _ _ _ _ _ refl) (last-Reviews on)))

  -- the tests that `evaluate` makes before it looks at trust
  abbrev pub IsCondemned : Type 0
  IsCondemned =
      (is_off policy.mode ≡ false)
      × (is_passthrough_system_or_zentor_path lower input.path ≡ false)
      × (is_confirmed_bad lower policy input ≡ true)

  -- a decision that quarantines, and calls the program malware, exactly when it is condemned
  abbrev Judges : Outcome ApplicationControlResult → Type 0
  Judges m =
      (r : ApplicationControlResult) × (m ≡ ok r)
      × ((r.decision ≡ quarantine) ↔ IsCondemned)
      × ((r.label_as_malware ≡ true) ↔ IsCondemned)

  Reviews-Judges : (m : Outcome ApplicationControlResult) → (IsCondemned → ⊥) → Reviews m → Judges m
  Reviews-Judges m spared (r, e, review) = (
    r,
    e,
    (λ h. cc ((is_quarantine_iff r.decision).1 h, review.not_quarantined), λ c. absurd (spared c)),
    (λ h. cc (h, review.not_labelled), λ c. absurd (spared c)),
  )

  IsCondemned-Judges :
      (trust : ApplicationTrustLevel) (reason : Text) (ttl : ℕ)
      → IsCondemned
      → Judges (ok (result quarantine trust reason true false false ttl))
  unfolding result
  IsCondemned-Judges trust reason ttl c = (_, refl, (λ h. c, λ h. refl), (λ h. c, λ h. refl))

  -- `ApplicationControlPolicy::evaluate` always decides, in every mode: `unreachable!()` is not
  -- reached. It quarantines a program, and only then calls it malware, exactly when control is not
  -- off, the path is not passed through, and the hash is known to be bad or the caller confirmed the
  -- malware; known-good hashes, approvals, publishers and scripts do not matter for that.
  pub evaluate-quarantine :
      (r : ApplicationControlResult) × (evaluate lower policy input ≡ ok r)
      × ((r.decision ≡ quarantine) ↔ IsCondemned)
      × ((r.label_as_malware ≡ true) ↔ IsCondemned)
  unfolding evaluate
  evaluate-quarantine =
      if_or Judges (is_off policy.mode)
        (λ e. Reviews-Judges _ (λ c. cc (c.0, e)) (_, refl, result-Reviews _ _ _ _ _ _ refl))
        (λ on.
          if_or Judges (is_passthrough_system_or_zentor_path lower input.path)
            (λ e. Reviews-Judges _ (λ c. cc (c.1, e)) (_, refl, result-Reviews _ _ _ _ _ _ refl))
            (λ other.
              if_or Judges (is_confirmed_bad lower policy input)
                (λ bad. IsCondemned-Judges _ _ _ (on, other, bad))
                (λ good. Reviews-Judges _ (λ c. cc (c.2, good)) (trust-Reviews on))))
