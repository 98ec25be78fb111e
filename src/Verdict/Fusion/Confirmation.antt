-- ===== src/Verdict/Fusion/Confirmation.antt =====
-- Which evidence makes `fuse` confirm a threat, and what trust does to that (risk_fusion.rs with
-- action_policy.rs).
use zentor.Prelude.{
  ℕ, ◌≡◌, ◌↔◌, ◌⊎◌, sym, ◌∙◌, Bool, true, false, ◌&&◌, ◌||◌, List, arith, any-or3, Any, any_iff,
}
use zentor.Prelude.Int.{pos, ◌≤ℤ◌}
use zentor.Text.{text, text_eq}
use zentor.Text.Laws.{text_eq_iff}
use zentor.Verdict.{
  Verdict, Confidence, EvidenceSource, native_signature, Evidence, ScanActionMode,
  auto_quarantine_confirmed, auto_quarantine_high_confidence, source_eq, is_confirmed_threat,
  is_confirmed, should_auto_quarantine,
}
use zentor.Verdict.Fusion.Trust.{any-with_trust, trust_id_ne, trust_not_source}
use zentor.Verdict.Fusion.{
  confidence_of, with_trust, id_is, source_with, has_test, has_known_bad, has_confirmed_signature,
  engines_used, fuse, fuse_evidence, final_verdict, fused_score, strong_positive_count, ml_high,
  fuse_by_score, verdict_of_score,
}

-- What confirms a threat: the EICAR or known-bad identifier, or a native signature of weight 90.
abbrev pub IsConfirming : Evidence → Type 0
IsConfirming item =
    (item.id ≡ text "eicar_test_signature")
    ⊎ (item.id ≡ text "known_bad_hash")
    ⊎ ((item.source ≡ native_signature) × (pos 90 ≤ℤ item.weight))

abbrev pub IsAuto : ScanActionMode → Type 0
IsAuto mode = (mode ≡ auto_quarantine_confirmed) ⊎ (mode ≡ auto_quarantine_high_confidence)

-- the early returns for confirmed threats, as one test
is_confirming : List Evidence → Bool
is_confirming evidence =
    has_test evidence || (has_known_bad evidence || has_confirmed_signature evidence)

verdict_of_score-unconfirmed :
    (score strong : ℕ) (ml kg : Bool)
    → is_confirmed_threat (verdict_of_score score strong ml kg) ≡ false
unfolding verdict_of_score is_confirmed_threat
verdict_of_score-unconfirmed score strong ml kg = ground arith

-- Confirmed verdicts come from the confirming tests alone, and with confirmed confidence.
fuse_evidence-confirmed :
    (e : List Evidence) (engines : List EvidenceSource) (kg : Bool)
    → let v = fuse_evidence e engines kg in
      (is_confirmed_threat v.verdict && is_confirmed v.confidence) ≡ is_confirming e
unfolding fuse_evidence fuse_by_score final_verdict is_confirming is_confirmed_threat is_confirmed
fuse_evidence-confirmed e engines kg =
    ground
      (arith, verdict_of_score-unconfirmed (fused_score e) (strong_positive_count e) (ml_high e) kg)

is_confirming-with_trust :
    (e : List Evidence) (kg al : Bool) → is_confirming (with_trust e kg al) ≡ is_confirming e
unfolding is_confirming has_test has_known_bad has_confirmed_signature
is_confirming-with_trust e kg al = ground (
  arith,
  any-with_trust (id_is (text "eicar_test_signature")) e kg al (trust_id_ne kg).0,
  any-with_trust (id_is (text "known_bad_hash")) e kg al (trust_id_ne kg).1,
  any-with_trust (source_with native_signature 90) e kg al (trust_not_source kg).0,
)

pub source_eq_iff : (a b : EvidenceSource) → (source_eq a b ≡ true) ↔ (a ≡ b)
unfolding source_eq
source_eq_iff a b = (λ h. ground arith, λ e. rw e (ground arith))

pub IsConfirming-iff :
    (item : Evidence)
    → ((id_is (text "eicar_test_signature") item
          || (id_is (text "known_bad_hash") item || source_with native_signature 90 item))
        ≡ true)
      ↔ IsConfirming item
IsConfirming-iff item = (
  λ h. ground (
    arith,
    text_eq_iff item.id (text "eicar_test_signature"),
    text_eq_iff item.id (text "known_bad_hash"),
    source_eq_iff item.source native_signature,
  ),
  λ h. ground (
    arith,
    text_eq_iff item.id (text "eicar_test_signature"),
    text_eq_iff item.id (text "known_bad_hash"),
    source_eq_iff item.source native_signature,
  ),
)

is_confirming_iff : (e : List Evidence) → (is_confirming e ≡ true) ↔ Any IsConfirming e
unfolding is_confirming has_test has_known_bad has_confirmed_signature
is_confirming_iff e = rw any-or3 (any_iff _ IsConfirming IsConfirming-iff e)

fuse-confirmed :
    (e : List Evidence) (kg al : Bool)
    → let v = fuse e kg al in
      (is_confirmed_threat v.verdict && is_confirmed v.confidence) ≡ is_confirming e
unfolding fuse
fuse-confirmed e kg al =
    fuse_evidence-confirmed (with_trust e kg al) (engines_used e) kg
    ∙ is_confirming-with_trust e kg al

threat_of_confirmed :
    (v : Verdict) → is_confirmed (confidence_of v) ≡ true → is_confirmed_threat v ≡ true
unfolding confidence_of is_confirmed is_confirmed_threat
threat_of_confirmed v h = ground arith

fuse_evidence-threat_of_confirmed :
    (e : List Evidence) (engines : List EvidenceSource) (kg : Bool)
    → is_confirmed (fuse_evidence e engines kg).confidence ≡ true
    → is_confirmed_threat (fuse_evidence e engines kg).verdict ≡ true
unfolding fuse_evidence fuse_by_score final_verdict is_confirmed_threat is_confirmed
fuse_evidence-threat_of_confirmed e engines kg h = ground (
  arith,
  threat_of_confirmed (verdict_of_score (fused_score e) (strong_positive_count e) (ml_high e) kg),
)

-- Nothing but a confirmed threat has confirmed confidence.
pub fuse-threat_of_confirmed :
    (e : List Evidence) (kg al : Bool)
    → is_confirmed (fuse e kg al).confidence ≡ true
    → is_confirmed_threat (fuse e kg al).verdict ≡ true
unfolding fuse
fuse-threat_of_confirmed e kg al h =
    fuse_evidence-threat_of_confirmed (with_trust e kg al) (engines_used e) kg h

should_auto_quarantine_iff :
    (mode : ScanActionMode) (v : Verdict) (c : Confidence)
    → (should_auto_quarantine mode v c ≡ true)
      ↔ (IsAuto mode × ((is_confirmed_threat v && is_confirmed c) ≡ true))
unfolding should_auto_quarantine
should_auto_quarantine_iff mode v c = (λ h. ground arith, λ h. ground arith)

-- `fuse` and the action policy: a file is quarantined automatically exactly in the two
-- auto-quarantine modes and when some item of the evidence is confirming, that is, has the EICAR or
-- the known-bad identifier or is a native signature of weight 90 at least. No other evidence is
-- enough, and a known-good or allowlist entry prevents it in no case.
pub should_auto_quarantine-fuse :
    (mode : ScanActionMode) (e : List Evidence) (known_good allowlisted : Bool)
    → let v = fuse e known_good allowlisted in
      (should_auto_quarantine mode v.verdict v.confidence ≡ true)
      ↔ (IsAuto mode × Any IsConfirming e)
should_auto_quarantine-fuse mode e known_good allowlisted =
    let v = fuse e known_good allowlisted in
    let split = should_auto_quarantine_iff mode v.verdict v.confidence in
    let same = fuse-confirmed e known_good allowlisted in
    (
      λ h. ((split.0 h).0, (is_confirming_iff e).0 (sym same ∙ (split.0 h).1)),
      λ h. split.1 (h.0, same ∙ (is_confirming_iff e).1 h.1),
    )

-- An item with a plain identifier that is no native signature does not confirm.
pub plain-IsConfirming :
    (e : Evidence)
    → text_eq e.id (text "eicar_test_signature") ≡ false
    → text_eq e.id (text "known_bad_hash") ≡ false
    → source_eq e.source native_signature ≡ false
    → IsConfirming e
    → ⊥
plain-IsConfirming e no_test no_bad no_signature h = ground (
  arith,
  h,
  text_eq_iff e.id (text "eicar_test_signature"),
  text_eq_iff e.id (text "known_bad_hash"),
  source_eq_iff e.source native_signature,
)

-- The EICAR identifier decides the verdict, whatever else is reported and whatever the trust is.
pub fuse-has_test :
    (e : List Evidence) (known_good allowlisted : Bool)
    → has_test e ≡ true
    → ((fuse e known_good allowlisted).verdict ≡ Verdict.test_threat)
      × ((fuse e known_good allowlisted).confidence ≡ Confidence.confirmed)
unfolding fuse fuse_evidence has_test final_verdict
fuse-has_test e known_good allowlisted h =
    let kept =
      any-with_trust (id_is (text "eicar_test_signature")) e known_good allowlisted
        (trust_id_ne known_good).0 in
    (ground (arith, kept, h), ground (arith, kept, h))
