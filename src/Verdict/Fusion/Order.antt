-- ===== src/Verdict/Fusion/Order.antt =====
-- The decision of `fuse` does not depend on the order in which the providers report
-- (risk_fusion.rs).
use mathlib.Core.List.{Perm, Permᴰ}
use mathlib.Core.Logic.{∥∥₁_elim}
use zentor.Prelude.{
  ℕ, ◌≡◌, refl, ◌∙◌, Bool, ◌||◌, List, [], ◌∷◌, ◌++◌, any, count_if, arith, if◌then◌else◌,
  Bool-cases, inl, inr,
}
use zentor.Prelude.Int.{ℤ, pos, leb_ℤ, ◌+ℤ◌, eq_of_parts, int_laws}
use zentor.Text.{Text, text}
use zentor.Verdict.{
  Verdict, Confidence, Evidence, EvidenceSource, FinalVerdict, confirmed, high, probable_malware,
  confirmed_malware, native_signature, native_behavior, native_ml,
}
use zentor.Verdict.Fusion.{
  trust_entry, with_trust, has_test, has_known_bad, has_confirmed_signature,
  has_ransomware_behavior, total_weight, fused_score, strong_positive_count, ml_high, fuse_by_score,
  fuse_evidence, final_verdict, fuse, verdict_of_score, confidence_of, action_of, id_is,
  source_with, engines_used,
}

-- What the callers of `fuse` act on.
pub record Decision : Type 0 where
  pub verdict : Verdict
  pub confidence : Confidence
  pub risk_score : ℕ
  pub recommended_action : Text

abbrev pub decision : FinalVerdict → Decision
decision v = record {
  verdict = v.verdict;
  confidence = v.confidence;
  risk_score = v.risk_score;
  recommended_action = v.recommended_action;
}

module _ {ℓ} {A : Type ℓ} (p : A → Bool) where
  any-Permᴰ : {xs ys : List A} → Permᴰ xs ys → any p xs ≡ any p ys
  any-Permᴰ Permᴰ.nil = refl
  any-Permᴰ (Permᴰ.cons e d) = rw (e, any-Permᴰ d)
  any-Permᴰ (Permᴰ.swap e f) = rw (e, f) (ground arith)
  any-Permᴰ (Permᴰ.trans d d') = any-Permᴰ d ∙ any-Permᴰ d'

  count_if-Permᴰ : {xs ys : List A} → Permᴰ xs ys → count_if p xs ≡ count_if p ys
  count_if-Permᴰ Permᴰ.nil = refl
  count_if-Permᴰ (Permᴰ.cons e d) = rw (e, count_if-Permᴰ d)
  count_if-Permᴰ (Permᴰ.swap e f) = rw (e, f) (ground arith)
  count_if-Permᴰ (Permᴰ.trans d d') = count_if-Permᴰ d ∙ count_if-Permᴰ d'

Permᴰ-append_right {ℓ} :
    {A : Type ℓ} {xs ys : List A} → Permᴰ xs ys → (a : A) → Permᴰ (xs ++ a ∷ []) (ys ++ a ∷ [])
Permᴰ-append_right Permᴰ.nil a = Permᴰ.cons refl Permᴰ.nil
Permᴰ-append_right (Permᴰ.cons e d) a = Permᴰ.cons e (Permᴰ-append_right d a)
Permᴰ-append_right (Permᴰ.swap e f) a = Permᴰ.swap e f
Permᴰ-append_right (Permᴰ.trans d d') a =
    Permᴰ.trans (Permᴰ-append_right d a) (Permᴰ-append_right d' a)

Decision-set : IsSet Decision
Decision-set = hlevel

swap_weights : (a b c : ℤ) → a +ℤ (b +ℤ c) ≡ b +ℤ (a +ℤ c)
swap_weights a b c = eq_of_parts _ _ (omega int_laws)

total_weight-Permᴰ : {e e' : List Evidence} → Permᴰ e e' → total_weight e ≡ total_weight e'
unfolding total_weight
total_weight-Permᴰ Permᴰ.nil = refl
total_weight-Permᴰ (Permᴰ.cons e d) = rw (e, total_weight-Permᴰ d)
total_weight-Permᴰ (Permᴰ.swap e f) = rw (e, f) (swap_weights _ _ _)
total_weight-Permᴰ (Permᴰ.trans d d') = total_weight-Permᴰ d ∙ total_weight-Permᴰ d'

by_score : ℕ → ℕ → Bool → Bool → Decision
by_score score strong ml kg =
    let verdict = verdict_of_score score strong ml kg in
    record {
      verdict = verdict;
      confidence = confidence_of verdict;
      risk_score = score;
      recommended_action = action_of verdict;
    }

abbrev at_once : Verdict → Confidence → ℕ → Text → Decision
at_once verdict confidence score action = record {
  verdict = verdict;
  confidence = confidence;
  risk_score = score;
  recommended_action = action;
}

-- the decision as a function of the tests and counts alone
decide : Bool → Bool → Bool → Decision → Decision
decide test bad behavior scored =
    if test
    then at_once Verdict.test_threat confirmed 100 (text "quarantine")
    else if bad
    then at_once confirmed_malware confirmed 100 (text "quarantine")
    else if behavior
    then at_once probable_malware high 92 (text "stop_and_quarantine")
    else scored

decision-fuse_evidence :
    (e : List Evidence) (engines : List EvidenceSource) (kg : Bool)
    → decision (fuse_evidence e engines kg)
      ≡ decide
          (has_test e)
          (has_known_bad e || has_confirmed_signature e)
          (has_ransomware_behavior e)
          (by_score (fused_score e) (strong_positive_count e) (ml_high e) kg)
unfolding fuse_evidence fuse_by_score final_verdict decide by_score
decision-fuse_evidence e engines kg = elim (Bool-cases (has_test e)) [
  | inl test ↦ rw test
  | inr no_test ↦ rw no_test (elim (Bool-cases (has_known_bad e || has_confirmed_signature e)) [
    | inl bad ↦ rw bad
    | inr no_bad ↦ rw no_bad (elim (Bool-cases (has_ransomware_behavior e)) [
      | inl behavior ↦ rw behavior
      | inr no_behavior ↦ rw no_behavior
    ])
  ])
]

fuse_evidence-Permᴰ :
    {e e' : List Evidence} (engines engines' : List EvidenceSource) (kg : Bool)
    → Permᴰ e e'
    → decision (fuse_evidence e engines kg) ≡ decision (fuse_evidence e' engines' kg)
unfolding has_test has_known_bad has_confirmed_signature has_ransomware_behavior fused_score
    strong_positive_count ml_high
fuse_evidence-Permᴰ {e} {e'} engines engines' kg d =
    rw (decision-fuse_evidence e engines kg, decision-fuse_evidence e' engines' kg)
      (rw (
        any-Permᴰ (id_is (text "eicar_test_signature")) d,
        any-Permᴰ (id_is (text "known_bad_hash")) d,
        any-Permᴰ (source_with native_signature 90) d,
        any-Permᴰ (source_with native_behavior 85) d,
        any-Permᴰ (source_with native_ml 40) d,
        count_if-Permᴰ (λ item. leb_ℤ (pos 20) item.weight) d,
        total_weight-Permᴰ d,
      ))

with_trust-Permᴰ :
    {e e' : List Evidence} (kg al : Bool)
    → Permᴰ e e'
    → Permᴰ (with_trust e kg al) (with_trust e' kg al)
unfolding with_trust
with_trust-Permᴰ {e} {e'} kg al d = elim (Bool-cases (kg || al)) [
  | inl trusted ↦ rw trusted (Permᴰ-append_right d (trust_entry kg))
  | inr not_trusted ↦ rw not_trusted d
]

-- `fuse`: the verdict, its confidence, the score and the recommended action are the same for any two
-- orders of the same evidence, whatever the trust.
pub fuse-perm :
    (e e' : List Evidence) (known_good allowlisted : Bool)
    → Perm e e'
    → decision (fuse e known_good allowlisted) ≡ decision (fuse e' known_good allowlisted)
unfolding fuse
fuse-perm e e' known_good allowlisted p = ∥∥₁_elim p (Decision-set _ _) λ d.
    fuse_evidence-Permᴰ (engines_used e) (engines_used e') known_good
      (with_trust-Permᴰ known_good allowlisted d)
