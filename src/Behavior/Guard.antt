-- ===== src/Behavior/Guard.antt =====
-- When the ransomware guard stops a process, and what the verdict is then (ransomware_guard.rs with
-- verdict/risk_fusion.rs).
use zentor.Prelude.{
  ℕ, ◌+◌, ◌≤◌, ◌≡◌, ◌⊎◌, ◌↔◌, Bool, true, false, ◌||◌, some, List, [], ◌∷◌, ◌++◌, any, arith, leb,
  Bool-cases, inl, inr, any-append,
}
use zentor.Verdict.{Evidence, EvidenceSource, native_behavior, source_eq}
use zentor.Verdict.Fusion.{
  fuse, fuse_evidence, final_verdict, with_trust, has_ransomware_behavior, source_with,
  engines_used, has_test, has_known_bad, has_confirmed_signature, trust_entry,
}
use zentor.Verdict.Fusion.Scores.{severity}
use zentor.Behavior.{
  FileActivityEvent, allow, warn, stop_process, behavior_score, stop_evidence, analyze,
}

abbrev one_if : Bool → ℕ
one_if true = 1
one_if false = 0

-- How many of the five signals an event shows.
abbrev pub signals : FileActivityEvent → ℕ
signals event =
    one_if (leb 25 event.files_modified_count)
    + one_if (leb 15 event.files_renamed_count)
    + one_if (leb 10 event.entropy_increase_count)
    + one_if event.ransom_note_created
    + one_if event.backup_tamper_attempt

-- Many modifications, or backup tampering.
abbrev pub has_heavy_signal : FileActivityEvent → Bool
has_heavy_signal event = leb 25 event.files_modified_count || event.backup_tamper_attempt

-- `RansomwareGuard::analyze` stops the process exactly when at least three of the five signals are
-- seen and one of them is mass modification or backup tampering; it allows exactly when at most one
-- signal is seen; otherwise it warns.
analyze_iff_signals :
    (event : FileActivityEvent)
    → (((analyze event).0 ≡ stop_process) ↔ ((3 ≤ signals event) × (has_heavy_signal event ≡ true)))
      × (((analyze event).0 ≡ allow) ↔ (signals event ≤ 1))
      × (((analyze event).0 ≡ stop_process)
          ⊎ ((analyze event).0 ≡ warn)
          ⊎ ((analyze event).0 ≡ allow))
unfolding analyze
analyze_iff_signals event =
    ((λ h. ground arith, λ h. ground arith), (λ h. ground arith, λ h. ground arith), ground arith)

stop_evidence-test :
    (score : ℕ) → 85 ≤ score → source_with native_behavior 85 (stop_evidence score) ≡ true
unfolding stop_evidence source_eq
stop_evidence-test score h = ground arith

analyze-stop_item :
    (event : FileActivityEvent) (item : Evidence)
    → analyze event ≡ (stop_process, some item)
    → (item ≡ stop_evidence (behavior_score event)) × (85 ≤ behavior_score event)
unfolding analyze
analyze-stop_item event item h = ground arith

analyze-stop :
    (event : FileActivityEvent) (item : Evidence)
    → analyze event ≡ (stop_process, some item)
    → source_with native_behavior 85 item ≡ true
analyze-stop event item h =
    let (same, enough) = analyze-stop_item event item h in
    rw same (stop_evidence-test (behavior_score event) enough)

fuse_evidence-behavior :
    (e : List Evidence) (engines : List EvidenceSource) (kg : Bool)
    → has_ransomware_behavior e ≡ true
    → 3 ≤ severity (fuse_evidence e engines kg).verdict
unfolding fuse_evidence final_verdict
fuse_evidence-behavior e engines kg h = elim (Bool-cases (has_test e)) [
  | inl test ↦ rw test (omega arith)
  | inr no_test ↦ rw no_test (elim (Bool-cases (has_known_bad e || has_confirmed_signature e)) [
    | inl bad ↦ rw bad (omega arith)
    | inr no_bad ↦ rw (no_bad, h) (omega arith)
  ])
]

any-append_cons {ℓ} :
    {A : Type ℓ} (p : A → Bool) (xs : List A) (a : A) (ys : List A)
    → p a ≡ true
    → any p (xs ++ a ∷ ys) ≡ true
any-append_cons p xs a ys h = ground (arith, any-append p xs (a ∷ ys))

has_ransomware_behavior-item :
    (before after : List Evidence) (item : Evidence)
    → source_with native_behavior 85 item ≡ true
    → has_ransomware_behavior (before ++ item ∷ after) ≡ true
unfolding has_ransomware_behavior
has_ransomware_behavior-item before after item h =
    any-append_cons (source_with native_behavior 85) before item after h

has_ransomware_behavior-with_trust :
    (e : List Evidence) (kg al : Bool)
    → has_ransomware_behavior e ≡ true
    → has_ransomware_behavior (with_trust e kg al) ≡ true
unfolding has_ransomware_behavior with_trust
has_ransomware_behavior-with_trust e kg al h =
    ground (arith, any-append (source_with native_behavior 85) e (trust_entry kg ∷ []))

-- The guard with `fuse`: where the guard stops a process with an item of evidence, every evidence
-- that holds the item is fused to probable malware at least, also for a file that is known good or
-- allowlisted.
pub stop_process-fuse :
    (event : FileActivityEvent) (item : Evidence) (before after : List Evidence)
    (known_good allowlisted : Bool)
    → analyze event ≡ (stop_process, some item)
    → 3 ≤ severity (fuse (before ++ item ∷ after) known_good allowlisted).verdict
unfolding fuse
stop_process-fuse event item before after known_good allowlisted h =
    let e = before ++ item ∷ after in
    let seen = has_ransomware_behavior-item before after item (analyze-stop event item h) in
    fuse_evidence-behavior (with_trust e known_good allowlisted) (engines_used e) known_good
      (has_ransomware_behavior-with_trust e known_good allowlisted seen)
