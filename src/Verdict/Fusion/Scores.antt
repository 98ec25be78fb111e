-- ===== src/Verdict/Fusion/Scores.antt =====
-- How the verdict of `fuse` follows the score, and that trust never raises it (risk_fusion.rs).
use zentor.Prelude.{ℕ, ◌≤◌, ◌<◌, ◌≡◌, Bool, false, ◌||◌, List, arith, Bool-cases, inl, inr}
use zentor.Prelude.Int.{
  ℤ, pos, negsuc, ◌+ℤ◌, ◌≤ℤ◌, IsI32, wrap_i32-IsI32, wrap_i32_id, int_laws, leb_ℤ,
}
use zentor.Text.{text}
use zentor.Verdict.{
  Verdict, clean, likely_clean, observation, suspicious, probable_malware, confirmed_malware,
  Evidence, EvidenceSource, native_signature, native_behavior, native_ml,
}
use zentor.Verdict.Fusion.Trust.{
  any-with_trust, count_if-with_trust, total_weight-append, trust_id_ne, trust_not_source,
  trust_negative, trust_weight,
}
use zentor.Verdict.Fusion.{
  id_is, trust_entry, clamp_0_100, with_trust, total_weight, fused_score, strong_positive_count,
  ml_high, has_ransomware_behavior, source_with, has_test, has_known_bad, has_confirmed_signature,
  verdict_of_score, fuse_by_score, fuse_evidence, final_verdict, fuse, engines_used,
}

fused_score-le : (e : List Evidence) → fused_score e ≤ 100
unfolding fused_score
fused_score-le e = ground (arith, wrap_i32-IsI32 (total_weight e))

-- The interval of scores in which each verdict stands.
abbrev pub InBand : Verdict → ℕ → Type 0
InBand Verdict.test_threat score = score ≡ 100
InBand confirmed_malware score = score ≡ 100
InBand probable_malware score = (60 ≤ score) × (score ≤ 100)
InBand suspicious score = (35 ≤ score) × (score ≤ 100)
InBand observation score = (15 ≤ score) × (score < 35)
InBand likely_clean score = score < 15
InBand clean score = score < 15
InBand Verdict.unknown score = ⊥

verdict_of_score-InBand :
    (score strong : ℕ) (ml kg : Bool)
    → score ≤ 100
    → InBand (verdict_of_score score strong ml kg) score
unfolding verdict_of_score
verdict_of_score-InBand score strong ml kg h = ground arith

fuse_evidence-InBand :
    (e : List Evidence) (engines : List EvidenceSource) (kg : Bool)
    → let v = fuse_evidence e engines kg in InBand v.verdict v.risk_score
unfolding fuse_evidence fuse_by_score final_verdict
fuse_evidence-InBand e engines kg = elim (Bool-cases (has_test e)) [
  | inl test ↦ rw test
  | inr no_test ↦ rw no_test (elim (Bool-cases (has_known_bad e || has_confirmed_signature e)) [
    | inl bad ↦ rw bad
    | inr no_bad ↦ rw no_bad (elim (Bool-cases (has_ransomware_behavior e)) [
      | inl behavior ↦ rw behavior (omega arith, omega arith)
      | inr no_behavior ↦ rw no_behavior (
          verdict_of_score-InBand (fused_score e) (strong_positive_count e) (ml_high e) kg
            (fused_score-le e))
    ])
  ])
]

-- how grave a verdict is
abbrev pub severity : Verdict → ℕ
severity clean = 0
severity likely_clean = 0
severity Verdict.unknown = 0
severity observation = 1
severity suspicious = 2
severity probable_malware = 3
severity confirmed_malware = 4
severity Verdict.test_threat = 5

verdict_of_score_mono :
    (s s' strong : ℕ) (ml kg : Bool)
    → s ≤ s'
    → severity (verdict_of_score s strong ml kg) ≤ severity (verdict_of_score s' strong ml false)
unfolding verdict_of_score
verdict_of_score_mono s s' strong ml kg h = ground arith

-- The tests of `fuse` on the evidence, which a trust entry passes by.
record SameTests (e e' : List Evidence) : Type 0 where
  test : has_test e' ≡ has_test e
  bad : has_known_bad e' ≡ has_known_bad e
  signature : has_confirmed_signature e' ≡ has_confirmed_signature e
  behavior : has_ransomware_behavior e' ≡ has_ransomware_behavior e
  strong : strong_positive_count e' ≡ strong_positive_count e
  ml : ml_high e' ≡ ml_high e

-- With the same tests a lower score gives a verdict that is no graver.
fuse_evidence_mono :
    (e e' : List Evidence) (engines engines' : List EvidenceSource) (kg : Bool)
    → SameTests e e'
    → fused_score e' ≤ fused_score e
    → let v = fuse_evidence e engines false in
      let v' = fuse_evidence e' engines' kg in
      (severity v'.verdict ≤ severity v.verdict) × (v'.risk_score ≤ v.risk_score)
unfolding fuse_evidence fuse_by_score final_verdict
fuse_evidence_mono e e' engines engines' kg same h =
    rw (same.test, same.bad, same.signature, same.behavior, same.strong, same.ml)
      (elim (Bool-cases (has_test e)) [
        | inl test ↦ rw test (omega arith)
        | inr no_test ↦
            rw no_test (elim (Bool-cases (has_known_bad e || has_confirmed_signature e)) [
              | inl bad ↦ rw bad (omega arith)
              | inr no_bad ↦ rw no_bad (elim (Bool-cases (has_ransomware_behavior e)) [
                | inl behavior ↦ rw behavior (omega arith)
                | inr no_behavior ↦ rw no_behavior (
                  verdict_of_score_mono (fused_score e') (fused_score e) (strong_positive_count e)
                      (ml_high e) kg h,
                  h,
                )
              ])
            ])
      ])

clamp_0_100_mono : (a b : ℤ) → a ≤ℤ b → clamp_0_100 a ≤ clamp_0_100 b
clamp_0_100_mono a b h = ground arith

-- A known-good or allowlist entry lowers the score of the evidence, or leaves it.
fused_score-with_trust :
    (e : List Evidence) (kg al : Bool)
    → IsI32 (total_weight e)
    → IsI32 (total_weight e +ℤ negsuc 69)
    → fused_score (with_trust e kg al) ≤ fused_score e
unfolding with_trust fused_score
fused_score-with_trust e kg al fits fits' = elim (Bool-cases (kg || al)) [
  | inl trusted ↦
      rw (trusted, total_weight-append e (trust_entry kg), trust_weight kg, wrap_i32_id _ fits')
        (rw (wrap_i32_id _ fits)
          (clamp_0_100_mono (total_weight e +ℤ negsuc 69) (total_weight e) (omega int_laws)))
  | inr not_trusted ↦ rw not_trusted (omega arith)
]

with_trust-SameTests : (e : List Evidence) (kg al : Bool) → SameTests e (with_trust e kg al)
unfolding has_test has_known_bad has_confirmed_signature has_ransomware_behavior ml_high
    strong_positive_count
with_trust-SameTests e kg al = record {
  test = any-with_trust (id_is (text "eicar_test_signature")) e kg al (trust_id_ne kg).0;
  bad = any-with_trust (id_is (text "known_bad_hash")) e kg al (trust_id_ne kg).1;
  signature = any-with_trust (source_with native_signature 90) e kg al (trust_not_source kg).0;
  behavior = any-with_trust (source_with native_behavior 85) e kg al (trust_not_source kg).1;
  strong = count_if-with_trust (λ item. leb_ℤ (pos 20) item.weight) e kg al (trust_negative kg);
  ml = any-with_trust (source_with native_ml 40) e kg al (trust_not_source kg).2;
}

-- `fuse`: where the weights add up within an `i32`, with the trust entry and without, a file that
-- is known good or allowlisted gets no graver verdict and no higher score than the same evidence
-- gets without trust.
trust_never_raises :
    (e : List Evidence) (known_good allowlisted : Bool)
    → IsI32 (total_weight e)
    → IsI32 (total_weight e +ℤ negsuc 69)
    → let v = fuse e false false in
      let v' = fuse e known_good allowlisted in
      (severity v'.verdict ≤ severity v.verdict) × (v'.risk_score ≤ v.risk_score)
unfolding fuse with_trust
trust_never_raises e known_good allowlisted fits fits' =
    fuse_evidence_mono e (with_trust e known_good allowlisted) (engines_used e) (engines_used e)
      known_good (with_trust-SameTests e known_good allowlisted)
      (fused_score-with_trust e known_good allowlisted fits fits')

-- `fuse`: the score is at most 100, and each verdict has its band of scores: 100 for a confirmed
-- or test threat, 60 to 100 for probable malware, 35 to 100 for suspicious, 15 to 34 for an
-- observation, below 15 for clean and likely clean. The verdict `unknown` is never given.
pub fuse-InBand :
    (e : List Evidence) (known_good allowlisted : Bool)
    → let v = fuse e known_good allowlisted in InBand v.verdict v.risk_score
unfolding fuse
fuse-InBand e known_good allowlisted =
    fuse_evidence-InBand (with_trust e known_good allowlisted) (engines_used e) known_good
