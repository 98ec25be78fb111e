-- ===== src/Heuristics/Weights.antt =====
-- What the heuristics can say: small weights, and never a confirmation (heuristics/scoring.rs).
use zentor.Prelude.{
  not, ℕ, ◌≤◌, ◌≡◌, refl, Bool, true, false, ◌&&◌, Option, none, some, List, [], ◌∷◌, ◌++◌, String,
  arith, leb, All, All-append, Any, Bool-cases, inl, inr, if◌then◌else◌,
}
use zentor.Prelude.Int.{pos}
use zentor.Text.{Text, text, text_eq}
use zentor.Text.Laws.{text_eq_iff}
use zentor.Float.{Float}
use zentor.Verdict.{Evidence, native_heuristic, ScanActionMode, should_auto_quarantine}
use zentor.Verdict.Fusion.{fuse}
use zentor.Verdict.Fusion.Confirmation.{IsConfirming, should_auto_quarantine-fuse}
use zentor.Analysis.{StaticAnalysis, ScriptAnalysis, PeAnalysis, ArchiveAnalysis}
use zentor.Heuristics.{
  item, push_if, min, filename_risk, location_risk, filename_evidence, location_evidence,
  entropy_evidence, script_evidence, import_score, import_evidence, archive_evidence, score_file,
}

-- Evidence of the heuristics with a weight from 1 to 45 that confirms nothing.
abbrev pub IsWeak : Evidence → Type 0
IsWeak e =
    (e.source ≡ native_heuristic)
    × ((n : ℕ) × (e.weight ≡ pos n) × (1 ≤ n) × (n ≤ 45))
    × (IsConfirming e → ⊥)

-- The identifier is neither of the two that confirm.
abbrev plain_id : String → Bool
plain_id id =
    not (text_eq (text id) (text "eicar_test_signature"))
    && not (text_eq (text id) (text "known_bad_hash"))

item-IsWeak :
    (id title detail : String) (n : ℕ)
    → plain_id id ≡ true
    → 1 ≤ n
    → n ≤ 45
    → IsWeak (item id title detail n)
unfolding item
item-IsWeak id title detail n plain low high = (
  refl,
  (n, refl, low, high),
  λ h. ground (
    arith,
    text_eq_iff (text id) (text "eicar_test_signature"),
    text_eq_iff (text id) (text "known_bad_hash"),
  ),
)

-- As a record, so that the list is seen in its type.
record AllWeak (e : List Evidence) : Type 0 where
  items : All IsWeak e

AllWeak-append : {xs ys : List Evidence} → AllWeak xs → AllWeak ys → AllWeak (xs ++ ys)
AllWeak-append {xs} {ys} hx hy = record { items = All-append IsWeak xs ys hx.items hy.items }

AllWeak-nil : AllWeak []
AllWeak-nil = record { items = tt }

push_if-AllWeak : (b : Bool) (e : Evidence) → (b ≡ true → IsWeak e) → AllWeak (push_if b e)
unfolding push_if
push_if-AllWeak true e h = record { items = (h refl, tt) }
push_if-AllWeak false e h = record { items = tt }

-- An item with a fixed weight.
fixed-AllWeak :
    (b : Bool) (id title detail : String) (n : ℕ)
    → plain_id id ≡ true
    → 1 ≤ n
    → n ≤ 45
    → AllWeak (push_if b (item id title detail n))
fixed-AllWeak b id title detail n plain low high =
    push_if-AllWeak b _ λ e. item-IsWeak id title detail n plain low high

ladder-bound : (b c : Bool) → (if b then 25 else if c then 3 else 0) ≤ 25
ladder-bound b c = ground arith

filename_risk-bound : (path : Text) → filename_risk path ≤ 25
unfolding filename_risk
filename_risk-bound path = ladder-bound _ _

location_risk-bound : (path : Text) → location_risk path ≤ 18
unfolding location_risk
location_risk-bound path = ground arith

filename_evidence-AllWeak : (n : ℕ) → n ≤ 25 → AllWeak (filename_evidence n)
unfolding filename_evidence text text_eq
filename_evidence-AllWeak n h = elim (Bool-cases (leb 25 n)) [
  | inl big ↦
      rw big (record { items = (item-IsWeak _ _ _ n refl (ground arith) (omega arith), tt) })
  | inr small ↦
      rw small
        (push_if-AllWeak _ _ λ e. item-IsWeak _ _ _ (min n 8) refl (ground arith) (ground arith))
]

location_evidence-AllWeak : (n : ℕ) → n ≤ 18 → AllWeak (location_evidence n)
unfolding location_evidence text text_eq
location_evidence-AllWeak n h =
    push_if-AllWeak _ _ λ e. item-IsWeak _ _ _ n refl (ground arith) (omega arith)

script_evidence-AllWeak : (script : Option ScriptAnalysis) → AllWeak (script_evidence script)
unfolding script_evidence text text_eq
script_evidence-AllWeak none = AllWeak-nil
script_evidence-AllWeak (some script) =
    AllWeak-append (fixed-AllWeak _ _ _ _ 20 refl (omega arith) (omega arith)) (
      AllWeak-append (fixed-AllWeak _ _ _ _ 35 refl (omega arith) (omega arith))
        (fixed-AllWeak _ _ _ _ 35 refl (omega arith) (omega arith)))

import_evidence-AllWeak : (pe : Option PeAnalysis) → AllWeak (import_evidence pe)
unfolding import_evidence text text_eq
import_evidence-AllWeak none = AllWeak-nil
import_evidence-AllWeak (some pe) =
    push_if-AllWeak _ _
      λ e. item-IsWeak _ _ _ (min (import_score pe) 45) refl (ground arith) (ground arith)

archive_evidence-AllWeak : (archive : Option ArchiveAnalysis) → AllWeak (archive_evidence archive)
unfolding archive_evidence text text_eq
archive_evidence-AllWeak none = AllWeak-nil
archive_evidence-AllWeak (some archive) =
    AllWeak-append (fixed-AllWeak _ _ _ _ 45 refl (omega arith) (omega arith))
      (fixed-AllWeak _ _ _ _ 25 refl (omega arith) (omega arith))

pub Any-none : (e : List Evidence) → All IsWeak e → Any IsConfirming e → ⊥
Any-none [] h found = found
Any-none (x ∷ e) h found = elim found [ inl here ↦ h.0.2 here | inr there ↦ Any-none e h.1 there ]

module _ {F : Type 0} (fl : Float F) where
  entropy_evidence-AllWeak : (x : F) → AllWeak (entropy_evidence fl x)
  unfolding entropy_evidence text text_eq
  entropy_evidence-AllWeak x = fixed-AllWeak _ _ _ _ 18 refl (omega arith) (omega arith)

  -- `score_file`: every item has a weight from 1 to 45 and the source of the heuristics, and
  -- neither of the identifiers that `fuse` takes for a confirmation.
  pub score_file-IsWeak :
      (path : Text) (analysis : StaticAnalysis F) → All IsWeak (score_file fl path analysis)
  unfolding score_file
  score_file-IsWeak path analysis =
      (AllWeak-append (filename_evidence-AllWeak _ (filename_risk-bound path)) (
        AllWeak-append (location_evidence-AllWeak _ (location_risk-bound path)) (
          AllWeak-append (entropy_evidence-AllWeak analysis.entropy_max) (
            AllWeak-append (script_evidence-AllWeak analysis.script) (
              AllWeak-append (import_evidence-AllWeak analysis.pe)
                (archive_evidence-AllWeak analysis.archive)))))).items

  -- `score_file` with `fuse` and the action policy: a file is never quarantined automatically for
  -- what the heuristics say, in no mode and whatever the trust in the file is.
  pub score_file-never_quarantines :
      (mode : ScanActionMode) (path : Text) (analysis : StaticAnalysis F)
      (known_good allowlisted : Bool)
      → let v = fuse (score_file fl path analysis) known_good allowlisted in
        should_auto_quarantine mode v.verdict v.confidence ≡ false
  score_file-never_quarantines mode path analysis known_good allowlisted =
      let iff =
        should_auto_quarantine-fuse mode (score_file fl path analysis) known_good allowlisted in
      not_true _ (λ h. Any-none _ (score_file-IsWeak path analysis) (iff.0 h).1)
    where
      not_true : (b : Bool) → (b ≡ true → ⊥) → b ≡ false
      not_true true h = elim (h refl) [ ]
      not_true false h = refl
