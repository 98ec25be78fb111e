-- ===== src/Engine/Decisions.antt =====
-- What a scan takes to confirm a threat, and when it hands a file to quarantine (engine.rs).
use zentor.Prelude.{
  ℕ, ◌≡◌, refl, ◌↔◌, ◌⊎◌, inl, inr, Bool, true, false, Option, none, some, List, [], ◌∷◌, ◌++◌, map,
  arith, Any, Any-map, Any-append_left, Any-append_right, Any-append_cases, Any-of_map, Any-to_map,
  if◌then◌else◌,
}
use zentor.Prelude.Int.{pos, ◌≤ℤ◌}
use zentor.Text.{Text, text, text_eq}
use zentor.Float.{Float}
use zentor.Verdict.{Evidence, source_eq}
use zentor.Verdict.Fusion.Confirmation.{IsConfirming, plain-IsConfirming}
use zentor.Trust.{store_contains, TrustedPublisher, is_trusted_local, trusted_publisher_for}
use zentor.Analysis.{StaticAnalysis}
use zentor.Heuristics.{score_file}
use zentor.Heuristics.Weights.{score_file-IsWeak, Any-none}
use zentor.Rules.{RuleMatch}
use zentor.Rules.Vm.{evaluate}
use zentor.Signatures.{SignatureMatch}
use zentor.Ml.{NativeMlResult, NativeModel}
use zentor.Ml.Features.{extract_features}
use zentor.Ml.Runner.{analyze_features}
use zentor.Engine.{NativeEngine}
use zentor.Engine.Collect.{
  known_bad_evidence, publisher_evidence, local_evidence, publisher_item, local_item, ml_item,
  signature_item, rule_item, ml_evidence, model_evidence, trust_evidence, collect_evidence,
}

-- One of the two identifiers that `fuse` takes for a confirmation.
abbrev pub IsReserved : Text → Type 0
IsReserved id = (id ≡ text "eicar_test_signature") ⊎ (id ≡ text "known_bad_hash")

-- A match of a signature that confirms: by its weight, or by its identifier.
abbrev pub IsConfirmingMatch : SignatureMatch → Type 0
IsConfirmingMatch m = (pos 90 ≤ℤ m.weight) ⊎ IsReserved m.signature_id

signature_item-IsConfirming :
    (m : SignatureMatch) → IsConfirming (signature_item m) ↔ IsConfirmingMatch m
unfolding signature_item
signature_item-IsConfirming m = (λ h. ground arith, λ h. ground arith)

rule_item-IsConfirming : (m : RuleMatch) → IsConfirming (rule_item m) ↔ IsReserved m.rule_id
unfolding rule_item
rule_item-IsConfirming m = (λ h. ground arith, λ h. ground arith)

known_bad_evidence-IsConfirming : (b : Bool) → Any IsConfirming (known_bad_evidence b) ↔ (b ≡ true)
unfolding known_bad_evidence
known_bad_evidence-IsConfirming true = (λ h. refl, λ h. inl (inr (inl refl)))
known_bad_evidence-IsConfirming false = (λ h. elim h [ ], λ h. cc)

No : List Evidence → Type 0
No e = Any IsConfirming e → ⊥

No-nil : No []
unfolding No
No-nil h = h

No-one : (e : Evidence) → (IsConfirming e → ⊥) → No (e ∷ [])
unfolding No
No-one e plain h = elim h [ inl here ↦ plain here | inr there ↦ there ]

No-append : (xs ys : List Evidence) → No xs → No ys → No (xs ++ ys)
unfolding No
No-append xs ys hx hy h = elim (Any-append_cases IsConfirming xs ys h) [
  | inl left ↦ hx left
  | inr right ↦ hy right
]

publisher_item-plain : (p : TrustedPublisher) → IsConfirming (publisher_item p) → ⊥
unfolding publisher_item text text_eq source_eq
publisher_item-plain p = plain-IsConfirming (publisher_item p) refl refl refl

local_item-plain : IsConfirming local_item → ⊥
unfolding local_item text text_eq source_eq
local_item-plain = plain-IsConfirming local_item refl refl refl

publisher_evidence-No : (p : Option TrustedPublisher) → No (publisher_evidence p)
unfolding publisher_evidence No
publisher_evidence-No none h = h
publisher_evidence-No (some p) h = No-one (publisher_item p) (publisher_item-plain p) h

local_evidence-No : (b : Bool) → No (local_evidence b)
unfolding local_evidence No
local_evidence-No false h = h
local_evidence-No true h = No-one local_item local_item-plain h

module _ {F : Type 0} (fl : Float F) where
  ml_item-plain : (r : NativeMlResult F) → IsConfirming (ml_item fl r) → ⊥
  unfolding ml_item text text_eq source_eq
  ml_item-plain r = plain-IsConfirming (ml_item fl r) refl refl refl

  ml_evidence-No : (b : Bool) (r : NativeMlResult F) → No (if b then ml_item fl r ∷ [] else [])
  unfolding No
  ml_evidence-No true r h = No-one (ml_item fl r) (ml_item-plain r) h
  ml_evidence-No false r h = h

  model_evidence-No :
      (engine : NativeEngine F) (path : Text) (a : StaticAnalysis F) (known_good known_bad : Bool)
      → No (model_evidence fl engine path a known_good known_bad)
  unfolding model_evidence ml_evidence
  model_evidence-No engine path a kg kb = go engine.ml
    where
      go :
          (ml : Option (NativeModel F))
          → No (elim ml [
            | none ↦ []
            | some model ↦
                ml_evidence fl (analyze_features fl model (extract_features fl path a kg kb))
          ])
      go none = No-nil
      go (some model) = ml_evidence-No _ _

  trust_evidence-No :
      (known_bad signed : Bool) (path : Text) → No (trust_evidence fl known_bad signed path)
  unfolding trust_evidence
  trust_evidence-No true signed path = No-nil
  trust_evidence-No false signed path =
      No-append _ _ (publisher_evidence-No (trusted_publisher_for signed path))
        (local_evidence-No (is_trusted_local signed path))

  score_file-No : (path : Text) (a : StaticAnalysis F) → No (score_file fl path a)
  unfolding No
  score_file-No path a = Any-none (score_file fl path a) (score_file-IsWeak fl path a)

module _ {F : Type 0} (fl : Float F) (engine : NativeEngine F) (signed : Bool) (path sha256 : Text)
    (bytes : List ℕ) (a : StaticAnalysis F) (matches : List SignatureMatch) where
  -- What confirms a threat: the hash is known to be bad, a signature match confirms, or a rule match
  -- has a reserved identifier.
  abbrev pub Confirms : Type 0
  Confirms =
      (store_contains engine.known_bad sha256 ≡ true)
      ⊎ Any IsConfirmingMatch matches
      ⊎ Any (λ m. IsReserved m.rule_id) (evaluate fl engine.rules path bytes a)

  after_trust :
      (xs ys zs : List Evidence)
      → No ys
      → Any IsConfirming (xs ++ (ys ++ zs))
      → Any IsConfirming xs ⊎ Any IsConfirming zs
  unfolding No
  after_trust xs ys zs plain h = elim (Any-append_cases IsConfirming xs (ys ++ zs) h) [
    | inl first ↦ inl first
    | inr later ↦ elim (Any-append_cases IsConfirming ys zs later) [
      | inl trusted ↦ elim (plain trusted) [ ]
      | inr rest ↦ inr rest
    ]
  ]

  pub collect_evidence-Confirms :
      Any IsConfirming (collect_evidence fl engine signed path sha256 bytes a matches) → Confirms
  unfolding collect_evidence No
  collect_evidence-Confirms h =
      elim (after_trust _ _ _
        (trust_evidence-No fl (store_contains engine.known_bad sha256) signed path) h) [
          | inl bad ↦ inl ((known_bad_evidence-IsConfirming _).0 bad)
          | inr rest ↦ elim (Any-append_cases IsConfirming (map signature_item matches) _ rest) [
            | inl matched ↦ inr (
                inl (
                  Any-map _ _ (λ m c. (signature_item-IsConfirming m).0 c) matches
                    (Any-of_map IsConfirming signature_item matches matched)))
            | inr later ↦
                elim (Any-append_cases IsConfirming
                  (map rule_item (evaluate fl engine.rules path bytes a)) _ later) [
                    | inl ruled ↦ inr (
                        inr (
                          Any-map _ _ (λ m c. (rule_item-IsConfirming m).0 c) _
                            (Any-of_map IsConfirming rule_item _ ruled)))
                    | inr weak ↦
                        elim (No-append _ _ (score_file-No fl path a)
                          (model_evidence-No fl engine path a
                            (store_contains engine.known_good sha256)
                            (store_contains engine.known_bad sha256))
                          weak) [ ]
                  ]
          ]
        ]

  pub Confirms-collect_evidence :
      Confirms → Any IsConfirming (collect_evidence fl engine signed path sha256 bytes a matches)
  unfolding collect_evidence
  Confirms-collect_evidence h = elim h [
    | inl bad ↦ Any-append_left IsConfirming _ _ ((known_bad_evidence-IsConfirming _).1 bad)
    | inr (inl matched) ↦
        Any-append_right IsConfirming (known_bad_evidence (store_contains engine.known_bad sha256))
          _
          (Any-append_right IsConfirming
            (trust_evidence fl (store_contains engine.known_bad sha256) signed path) _
            (Any-append_left IsConfirming (map signature_item matches) _ (
              Any-to_map IsConfirming signature_item matches
                (Any-map _ _ (λ m c. (signature_item-IsConfirming m).1 c) matches matched))))
    | inr (inr ruled) ↦
        Any-append_right IsConfirming (known_bad_evidence (store_contains engine.known_bad sha256))
          _
          (Any-append_right IsConfirming
            (trust_evidence fl (store_contains engine.known_bad sha256) signed path) _
            (Any-append_right IsConfirming (map signature_item matches) _ (
              Any-append_left IsConfirming (map rule_item (evaluate fl engine.rules path bytes a)) _
                (Any-to_map IsConfirming rule_item _
                  (Any-map _ _ (λ m c. (rule_item-IsConfirming m).1 c) _ ruled)))))
  ]
