-- ===== src/Engine/Scan.antt =====
-- `scan_bytes_at` of engine.rs and what calls it: the verdict on a file, process starts and the
-- self-test.
use zentor.Prelude.{
  ℕ, Option, none, some, Bool, true, false, ◌&&◌, ◌||◌, not, List, length, if◌then◌else◌,
}
use zentor.Text.{Text, text}
use zentor.Float.{Float}
use zentor.Outcome.{Outcome, ok, ◌>>=◌}
use zentor.Verdict.{
  Verdict, suspicious, probable_malware, confirmed_malware, FinalVerdict, ScanActionMode,
  detect_only, should_auto_quarantine, is_confirmed_threat,
}
use zentor.Verdict.Fusion.{fuse}
use zentor.Trust.{allowlist_contains, store_contains, is_trusted_local}
use zentor.Analysis.{StaticAnalysis}
use zentor.Analysis.Whole.{analyze_path}
use zentor.Signatures.{SignatureMatch}
use zentor.Signatures.Matcher.{match_bytes, eicar_ascii}
use zentor.Behavior.{FileActivityEvent, BehaviorDecision}
use zentor.Behavior.Window.{observe}
use zentor.Engine.{NativeEngine, Content, FileScanVerdict}
use zentor.Engine.Move.{QuarantineRecord, MoveAnswers, quarantine_file}
use zentor.Engine.Collect.{collect_evidence}

-- what `scan_bytes_at` takes where nothing came with the bytes
unfoldable pub own_content : (List ℕ → Text) → List ℕ → Content
own_content sha256_bytes bytes = record {
  sha256 = sha256_bytes bytes;
  file_size_bytes = length bytes;
  scanned_bytes = length bytes;
  sample_limited = false;
}

-- `Verdict::ConfirmedMalware | Verdict::TestThreat | Verdict::ProbableMalware` blocks a start
unfoldable pub start_action : Verdict → Text
start_action confirmed_malware = text "block"
start_action Verdict.test_threat = text "block"
start_action probable_malware = text "block"
start_action suspicious = text "allow_and_monitor"
start_action _ = text "allow"

module _ {F : Type 0} (fl : Float F) where
  open fl use {literal}

  unfoldable pub judge :
      NativeEngine F
      → Bool
      → Text
      → Text
      → List ℕ
      → StaticAnalysis F
      → List SignatureMatch
      → FinalVerdict
  judge engine signed path sha256 bytes a matches =
      fuse (collect_evidence fl engine signed path sha256 bytes a matches)
        (store_contains engine.known_good sha256 || is_trusted_local signed path)
        (allowlist_contains engine.allowlist path sha256)

  -- `should_auto_quarantine(…) && !allowlisted && allow_quarantine`
  unfoldable pub wants_quarantine : ScanActionMode → FinalVerdict → Bool → Bool → Bool
  wants_quarantine mode v allowlisted allow_quarantine =
      should_auto_quarantine mode v.verdict v.confidence && not allowlisted && allow_quarantine

  -- `if wanted { Some(quarantine_file(…)?) } else { None }`
  abbrev pub when_wanted : Bool → Outcome QuarantineRecord → Outcome (Option QuarantineRecord)
  when_wanted wanted moved = if wanted then (moved >>= λ r. ok (some r)) else ok none

  -- the result for a verdict and what became of the file
  unfoldable pub scan_report :
      Text → Content → FinalVerdict → Option QuarantineRecord → FileScanVerdict
  scan_report path content v quarantine_record = record {
    path = path;
    sha256 = content.sha256;
    file_size_bytes = content.file_size_bytes;
    scanned_bytes = content.scanned_bytes;
    scan_sample_limited = content.sample_limited;
    engine = text "Avorax Native Engine";
    final_verdict = v;
    quarantine_record = quarantine_record;
  }

  -- A quarantine that is wanted and fails is the end of the scan.
  unfoldable pub scan_bytes_at :
      NativeEngine F
      → MoveAnswers
      → Bool
      → Text
      → List ℕ
      → ScanActionMode
      → Bool
      → Content
      → Outcome FileScanVerdict
  unfolding scan_report quarantine_file judge wants_quarantine
  scan_bytes_at engine move signed path bytes mode allow_quarantine content = do
    a ← analyze_path fl path bytes
    matches ← match_bytes engine.signatures content.sha256 bytes a
    let v = judge engine signed path content.sha256 bytes a matches
    quarantine_record ←
        when_wanted
          (wants_quarantine mode v (allowlist_contains engine.allowlist path content.sha256)
            allow_quarantine)
          (quarantine_file move path content.sha256 v.user_visible_explanation false)
    ok (scan_report path content v quarantine_record)

  -- `analyze_process_start`: the action for the verdict of the executable
  unfoldable pub analyze_process_start :
      NativeEngine F → MoveAnswers → Bool → Text → List ℕ → Content → Outcome (Text × FinalVerdict)
  unfolding scan_bytes_at start_action
  analyze_process_start engine move signed path bytes content =
      scan_bytes_at engine move signed path bytes detect_only true content >>= λ v.
      ok (start_action v.final_verdict.verdict, v.final_verdict)

  -- `engine_self_test`: a scan of the EICAR text that quarantines nothing; whether it was detected, and
  -- the overall result
  unfoldable pub engine_self_test :
      (List ℕ → Text) → NativeEngine F → MoveAnswers → Bool → Outcome (Bool × Text)
  unfolding scan_bytes_at own_content
  engine_self_test sha256_bytes engine move signed =
      scan_bytes_at engine move signed (text "eicar.com.txt") eicar_ascii detect_only false
        (own_content sha256_bytes eicar_ascii)
      >>= λ v. ok (
        is_confirmed_threat v.final_verdict.verdict,
        if is_confirmed_threat v.final_verdict.verdict then text "pass" else text "fail",
      )

  unfoldable pub analyze_file_activity :
      ℕ → FileActivityEvent → NativeEngine F → NativeEngine F × BehaviorDecision
  unfolding observe
  analyze_file_activity now event engine =
      let seen = observe now event engine.ransomware_window in
      (record engine { ransomware_window = seen.0 }, seen.1.0)
