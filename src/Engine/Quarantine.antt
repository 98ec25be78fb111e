-- ===== src/Engine/Quarantine.antt =====
-- What a whole scan decides: the verdict for a confirmed threat, the quarantine, and the blocking of
-- a start (engine.rs).
use zentor.Prelude.{
  ℕ, ◌≡◌, refl, ◌↔◌, ◌⊎◌, inl, inr, Bool, Bool-cases, true, false, ◌||◌, Option, none, some, List,
  arith,
}
use zentor.Text.{Text, text}
use zentor.Float.{Float}
use zentor.Outcome.{Outcome, ok, fail, ◌>>=◌}
use zentor.Verdict.{
  Verdict, FinalVerdict, ScanActionMode, auto_quarantine_confirmed, should_auto_quarantine,
  is_confirmed_threat,
}
use zentor.Verdict.Fusion.Confirmation.{IsAuto, should_auto_quarantine-fuse}
use zentor.Trust.{allowlist_contains, store_contains, is_trusted_local}
use zentor.Analysis.{StaticAnalysis}
use zentor.Analysis.Whole.{analyze_path}
use zentor.Signatures.{SignatureMatch}
use zentor.Signatures.Matcher.{match_bytes}
use zentor.Engine.{NativeEngine, Content, FileScanVerdict}
use zentor.Engine.Move.{
  QuarantineRecord, MoveAnswers, quarantine_file, Settles, quarantine_file-Settles,
}
use zentor.Engine.Collect.{collect_evidence}
use zentor.Engine.Scan.{
  judge, wants_quarantine, when_wanted, scan_report, scan_bytes_at, start_action,
  analyze_process_start,
}
use zentor.Engine.Decisions.{Confirms, collect_evidence-Confirms, Confirms-collect_evidence}

-- for any verdict in place of that of `judge`
wants_quarantine_lem :
    {F : Type 0} (fl : Float F) (mode : ScanActionMode) (v : FinalVerdict)
    (allowlisted allow : Bool)
    → (wants_quarantine fl mode v allowlisted allow ≡ true) ↔ (
        (should_auto_quarantine mode v.verdict v.confidence ≡ true)
        × ((allowlisted ≡ false) × (allow ≡ true)))
unfolding wants_quarantine
wants_quarantine_lem fl mode v allowlisted allow = (λ h. ground arith, λ h. ground arith)

confirmed_of_auto :
    (v : FinalVerdict)
    → should_auto_quarantine auto_quarantine_confirmed v.verdict v.confidence ≡ true
    → is_confirmed_threat v.verdict ≡ true
unfolding should_auto_quarantine
confirmed_of_auto v h = ground arith

start_action-block : (v : Verdict) → is_confirmed_threat v ≡ true → start_action v ≡ text "block"
unfolding start_action is_confirmed_threat
start_action-block v h = ground arith

-- the scan ends with this verdict and this record of a quarantine
abbrev pub Gives : Outcome FileScanVerdict → FinalVerdict → Option QuarantineRecord → Type 0
Gives scan v quarantine_record =
    (s : FileScanVerdict) × (scan ≡ ok s)
    × (s.final_verdict ≡ v)
    × (s.quarantine_record ≡ quarantine_record)

module _ {F : Type 0} (fl : Float F) (engine : NativeEngine F) (signed : Bool) (path : Text)
    (bytes : List ℕ) (content : Content) (a : StaticAnalysis F)
    (matches : List SignatureMatch) where
  -- the confirmations of this file
  abbrev pub FileConfirms : Type 0
  FileConfirms = Confirms fl engine signed path content.sha256 bytes a matches

  judge-Confirms :
      FileConfirms
      → is_confirmed_threat (judge fl engine signed path content.sha256 bytes a matches).verdict
        ≡ true
  unfolding judge
  judge-Confirms h =
      confirmed_of_auto (judge fl engine signed path content.sha256 bytes a matches) (
        (should_auto_quarantine-fuse auto_quarantine_confirmed _ _ _).1 (
          inl refl,
          Confirms-collect_evidence fl engine signed path content.sha256 bytes a matches h,
        ))

  judge-quarantine :
      (mode : ScanActionMode) (allow : Bool)
      → (wants_quarantine fl mode
            (judge fl engine signed path content.sha256 bytes a matches)
            (allowlist_contains engine.allowlist path content.sha256)
            allow
          ≡ true)
        ↔ (IsAuto mode
            × (FileConfirms
                × ((allowlist_contains engine.allowlist path content.sha256 ≡ false)
                    × (allow ≡ true))))
  unfolding judge
  judge-quarantine mode allow =
      let split =
        wants_quarantine_lem fl mode (judge fl engine signed path content.sha256 bytes a matches)
          (allowlist_contains engine.allowlist path content.sha256) allow in
      let auto =
        should_auto_quarantine-fuse mode
          (collect_evidence fl engine signed path content.sha256 bytes a matches)
          (store_contains engine.known_good content.sha256 || is_trusted_local signed path)
          (allowlist_contains engine.allowlist path content.sha256) in
      (
        λ h.
            let both = auto.0 (split.0 h).0 in
            (
              both.0,
              (
                collect_evidence-Confirms fl engine signed path content.sha256 bytes a matches
                    both.1,
                (split.0 h).1,
              ),
            ),
        λ h. split.1 (
          auto.1 (
            h.0,
            Confirms-collect_evidence fl engine signed path content.sha256 bytes a matches h.1.0,
          ),
          h.1.1,
        ),
      )

  -- the file is wanted in quarantine
  abbrev Wanted : ScanActionMode → Bool → Type 0
  Wanted mode allow =
      IsAuto mode
      × (FileConfirms
          × ((allowlist_contains engine.allowlist path content.sha256 ≡ false) × (allow ≡ true)))

  -- how a scan ends, by what the quarantine answers
  abbrev pub EndsAs :
      ScanActionMode
      → Bool
      → Outcome FileScanVerdict
      → FinalVerdict
      → Outcome QuarantineRecord
      → Type 0
  EndsAs mode allow scan v moved =
      ((¬ Wanted mode allow) × Gives scan v none)
      ⊎ (Wanted mode allow
          × (((r : QuarantineRecord) × (moved ≡ ok r) × Gives scan v (some r))
              ⊎ ((message : Text) × (moved ≡ fail message) × (scan ≡ fail message))))

  module _ (move : MoveAnswers) (mode : ScanActionMode) (allow : Bool)
      (analysed : analyze_path fl path bytes ≡ ok a)
      (matched : match_bytes engine.signatures content.sha256 bytes a ≡ ok matches) where
    abbrev v : FinalVerdict
    v = judge fl engine signed path content.sha256 bytes a matches

    abbrev moved : Outcome QuarantineRecord
    moved = quarantine_file move path content.sha256 v.user_visible_explanation false

    abbrev wanted : Bool
    wanted =
        wants_quarantine fl mode v (allowlist_contains engine.allowlist path content.sha256) allow

    scan_bytes_at_then :
        scan_bytes_at fl engine move signed path bytes mode allow content
        ≡ (when_wanted fl wanted moved >>= λ r. ok (scan_report fl path content v r))
    unfolding scan_bytes_at
    scan_bytes_at_then = rw (analysed, matched) refl

    scan_bytes_at-moved :
        wanted ≡ true
        → Settles moved
        → ((r : QuarantineRecord) × (moved ≡ ok r)
            × Gives (scan_bytes_at fl engine move signed path bytes mode allow content) v (some r))
          ⊎ ((message : Text) × (moved ≡ fail message)
              × (scan_bytes_at fl engine move signed path bytes mode allow content ≡ fail message))
    unfolding scan_report
    scan_bytes_at-moved on (inl (r, e)) = inl (
      r,
      e,
      (scan_report fl path content v (some r), rw (scan_bytes_at_then, on, e) refl, refl, refl),
    )
    scan_bytes_at-moved on (inr (message, e)) =
        inr (message, e, rw (scan_bytes_at_then, on, e) refl)

    pub scan_bytes_at-judge :
        EndsAs mode allow
          (scan_bytes_at fl engine move signed path bytes mode allow content)
          v
          moved
    unfolding scan_report
    scan_bytes_at-judge = elim (Bool-cases wanted) [
      | inr off ↦ inl (
        λ w. cc (off, (judge-quarantine mode allow).1 w),
        (scan_report fl path content v none, rw (scan_bytes_at_then, off) refl, refl, refl),
      )
      | inl on ↦ inr (
        (judge-quarantine mode allow).0 on,
        scan_bytes_at-moved on
            (quarantine_file-Settles move path content.sha256 v.user_visible_explanation false),
      )
    ]

    -- `scan_bytes_at`, where the analysis and the signatures give a result. The file is wanted in
    -- quarantine in an auto-quarantine mode, if it is not allowlisted, the caller allows it, and
    -- something confirms the threat: a known-bad hash, a signature match of weight 90 or with a
    -- reserved identifier, or a rule match with a reserved identifier. A file that is not wanted gets
    -- its verdict and no quarantine. One that is wanted is handed to the store: if that gives a
    -- record, the verdict comes with it, and if it fails, the scan fails with its error. A confirmed
    -- threat has a confirmed verdict, also for a trusted or allowlisted file.
    pub scan_bytes_at-quarantine :
        (v : FinalVerdict) × (FileConfirms → is_confirmed_threat v.verdict ≡ true)
        × EndsAs mode allow
            (scan_bytes_at fl engine move signed path bytes mode allow content)
            v
            (quarantine_file move path content.sha256 v.user_visible_explanation false)
    scan_bytes_at-quarantine = (v, judge-Confirms, scan_bytes_at-judge)

  -- `analyze_process_start`: where the analysis and the signatures give a result, the start of an
  -- executable is decided, and that of a confirmed threat is blocked, also for a trusted or
  -- allowlisted file.
  pub analyze_process_start-block :
      (move : MoveAnswers)
      → analyze_path fl path bytes ≡ ok a
      → match_bytes engine.signatures content.sha256 bytes a ≡ ok matches
      → (decision : Text × FinalVerdict) × (analyze_process_start fl engine move signed path bytes
            content
          ≡ ok decision)
        × (FileConfirms → decision.0 ≡ text "block")
  unfolding analyze_process_start scan_bytes_at scan_report wants_quarantine should_auto_quarantine
  analyze_process_start-block move analysed matched =
      let v = judge fl engine signed path content.sha256 bytes a matches in
      (
        (start_action v.verdict, v),
        rw (analysed, matched) refl,
        λ h.
            start_action-block (judge fl engine signed path content.sha256 bytes a matches).verdict
              (judge-Confirms h),
      )
