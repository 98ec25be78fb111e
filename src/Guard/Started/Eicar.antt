-- ===== src/Guard/Started/Eicar.antt =====
-- The guard over the native engine: a program with the EICAR text is stopped
-- (core/zentor_guard_service/src/main.rs, core/zentor_native_engine/src/engine.rs).
use zentor.Prelude.{
  ℕ, ◌≡◌, ap, ◌∙◌, Bool, true, false, Option, none, some, List, ◌++◌, take, is_some, ◌==◌, arith,
}
use zentor.Text.{Text}
use zentor.Float.{Float}
use zentor.Outcome.{Outcome, ok, fail, panic}
use zentor.Verdict.{Verdict, Confidence, detect_only}
use zentor.Analysis.{StaticAnalysis}
use zentor.Analysis.Whole.{analyze_path}
use zentor.Signatures.{NativeSignature, SignatureMatch}
use zentor.Signatures.Matcher.{eicar_ascii, match_bytes}
use zentor.Signatures.Packs.{built_in}
use zentor.Engine.{NativeEngine, Content, FileScanVerdict}
use zentor.Engine.Scan.{scan_bytes_at}
use zentor.Engine.Eicar.{detect_only-eicar}
use zentor.Engine.Move.{MoveAnswers}
use zentor.Driver.{DriverProtectionMode}
use zentor.Guard.{done, FileAnswers, StoreAnswers, match_of_verdict, native_threat_match}
use zentor.Guard.Started.{observes, guard_record, confirmed_match, handle_process_started, event_of}
use zentor.Guard.Started.Plan.{
  intervenes, threat_or_known, progress, file_steps, stops, says_quarantined,
  handle_process_started-Follows,
}

-- a scan that succeeds
abbrev pub scanned : Outcome FileScanVerdict → Option FileScanVerdict
scanned (ok v) = some v
scanned (fail message) = none
scanned panic = none

confirmed-match :
    (v : FileScanVerdict)
    → v.final_verdict.verdict ≡ Verdict.test_threat
    → v.final_verdict.confidence ≡ Confidence.confirmed
    → is_some (match_of_verdict v) ≡ true
unfolding match_of_verdict
confirmed-match v verdict confidence = ground arith

scanned-match :
    (file : FileAnswers) (v : FileScanVerdict)
    → file.scan_file ≡ some v
    → is_some (match_of_verdict v) ≡ true
    → is_some (native_threat_match file) ≡ true
unfolding native_threat_match
scanned-match file v e h = ground arith

module _ {F : Type 0} (fl : Float F) (engine : NativeEngine F) (signed : Bool) (path : Text)
    (bytes : List ℕ) (content : Content) (a : StaticAnalysis F) where
  -- `handle_process_started`, over the engine with the built-in signature and any others, on a file
  -- that can be read and in whose sampled bytes the EICAR text stands, in a mode that acts: the
  -- process is stopped whether or not the file is trusted or allowlisted, and a quarantine is
  -- reported exactly where each step of it is made; where the analysis and the other signatures
  -- give a result.
  pub handle_process_started-eicar :
      (move : MoveAnswers) (now : ℕ) (more : List NativeSignature) (later : List SignatureMatch)
      (l r : List ℕ) (in_base : Text → Text) (id : ℕ) (malicious : List Text)
      (mode : DriverProtectionMode) (file : FileAnswers) (store : StoreAnswers) (hash : Text)
      → engine.signatures ≡ built_in now ++ more
      → bytes ≡ l ++ (eicar_ascii ++ r)
      → analyze_path fl path bytes ≡ ok a
      → match_bytes more content.sha256 bytes a ≡ ok later
      → file.scan_file
        ≡ scanned (scan_bytes_at fl engine move signed path bytes detect_only true content)
      → file.sha256_file ≡ done hash
      → observes mode ≡ false
      → let run = handle_process_started in_base (some id) path malicious mode file store in
        let threat = threat_or_known (confirmed_match malicious hash file) in
        (run.0
          ≡ stops (some id)
            ++ take
                (progress store)
                (file_steps in_base path (guard_record in_base store path hash (some id) threat)))
        × (says_quarantined (event_of (some id) path run.1) ≡ (progress store == 3))
  handle_process_started-eicar move now more later l r in_base id malicious mode file store hash
        loaded holds analysed matched asked read acting =
      let (v, result, verdict, confidence) =
        detect_only-eicar fl engine signed path bytes content a move true now more later l r loaded
          holds analysed matched in
      let found =
        scanned-match file v (asked ∙ ap scanned result) (confirmed-match v verdict confidence) in
      let (acts, says, fine) =
        handle_process_started-Follows in_base (some id) path malicious mode file store hash read in
      let on : intervenes mode malicious hash file ≡ true = ground (arith, found, acting) in
      (rw (on) at acts, rw (on) at says)
