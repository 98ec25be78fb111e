-- ===== src/Tests/Scans.antt =====
-- Whole scans at concrete inputs (core/zentor_native_engine/src/engine.rs).
use zentor.Prelude.{
  ℕ, ◌≡◌, refl, ◌⊎◌, inr, Option, true, false, none, some, take, ◌==◌, List, [], ◌∷◌, ◌++◌, length,
  arith, ltb, leb,
}
use zentor.Text.{Text, text}
use zentor.Float.{Float}
use zentor.Outcome.{ok, fail}
use zentor.Verdict.{
  Verdict, Confidence, FinalVerdict, auto_quarantine_confirmed, detect_only, is_confirmed_threat,
}
use zentor.Verdict.Fusion.Confirmation.{IsAuto}
use zentor.Trust.{allowlist_contains}
use zentor.Analysis.{StaticAnalysis}
use zentor.Analysis.Kind.{detect_file_type}
use zentor.Analysis.Whole.{analyze_path, analysis_of}
use zentor.Analysis.Whole.Total.{GoodAnalysis, analyze_path-GoodAnalysis}
use zentor.Signatures.Matcher.{eicar_ascii, match_bytes}
use zentor.Signatures.Packs.{built_in}
use zentor.Driver.{block_confirmed_threats}
use zentor.Guard.{done, FileAnswers}
use zentor.Guard.Started.{observes, guard_record, confirmed_match, handle_process_started, event_of}
use zentor.Guard.Started.Plan.{threat_or_known, progress, file_steps, stops, says_quarantined}
use zentor.Guard.Started.Eicar.{scanned, handle_process_started-eicar}
use zentor.Tests.Watches.{in_base, store}
use zentor.Engine.{NativeEngine, Content}
use zentor.Engine.Scan.{scan_bytes_at, analyze_process_start}
use zentor.Engine.Move.{QuarantineRecord, MoveAnswers, quarantine_file}
use zentor.Engine.Quarantine.{
  FileConfirms, Gives, EndsAs, scan_bytes_at-quarantine, analyze_process_start-block,
}
use zentor.Engine.Eicar.{eicar-analysed, scan_bytes_at-eicar}

-- an arithmetic on the natural numbers
abbrev pub numbers : Float ℕ
numbers = record {
  literal = λ digits decimals. digits;
  of_nat = λ n. n;
  add = λ a b. a;
  mul = λ a b. a;
  div = λ a b. a;
  neg = λ a. a;
  log2 = λ a. a;
  log10 = λ a. a;
  exp = λ a. a;
  max = λ a b. b;
  gt = λ a b. ltb b a;
  ge = λ a b. leb b a;
  one_decimal = λ a. [];
}

-- the start of a program
abbrev program : List ℕ
program = b'M' ∷ b'Z' ∷ 0 ∷ []

analyze_path-GoodAnalysis_example :
    GoodAnalysis
      (detect_file_type (text "/a.exe") program)
      (length program)
      (analyze_path numbers (text "/a.exe") program)
analyze_path-GoodAnalysis_example =
    analyze_path-GoodAnalysis numbers (text "/a.exe") program
      (omega arith, (omega arith, (omega arith, tt))) (omega arith)

-- no signature but a known-bad hash
abbrev engine : NativeEngine ℕ
engine = record {
  signatures = [];
  rules = [];
  ml = none;
  known_good = [];
  known_bad = text "00" ∷ [];
  allowlist = record { hashes = []; paths = [] };
  ransomware_window = record { retention = 90; windows = [] };
}

abbrev content : Content
content = record {
  sha256 = text "00";
  file_size_bytes = 68;
  scanned_bytes = 68;
  sample_limited = false;
}

abbrev name : Text
name = text "eicar.com.txt"

abbrev analysis : StaticAnalysis ℕ
analysis = analysis_of numbers name eicar_ascii none none

no_match : match_bytes [] (text "00") eicar_ascii analysis ≡ ok []
unfolding match_bytes
no_match = refl

-- a store on another disk, so that the file is copied
abbrev pub copying : MoveAnswers
copying = record {
  in_root = λ name. text "/q/" ++ name;
  new_id = text "1";
  now = 5;
  create_dir_all = none;
  length = some 68;
  rename = some (text "another disk");
  copy = none;
  copied_sha256 = inr (text "00");
  remove_source = none;
  moved_sha256 = inr (text "00");
  write_record = some (text "disk full");
}

scan_bytes_at-quarantine_example :
    (v : FinalVerdict) × (FileConfirms numbers engine false name eicar_ascii content analysis []
      → is_confirmed_threat v.verdict ≡ true)
    × EndsAs numbers engine false name eicar_ascii content analysis [] auto_quarantine_confirmed
        true
        (scan_bytes_at numbers engine copying false name eicar_ascii auto_quarantine_confirmed true
          content)
        v
        (quarantine_file copying name content.sha256 v.user_visible_explanation false)
scan_bytes_at-quarantine_example =
    scan_bytes_at-quarantine numbers engine false name eicar_ascii content analysis [] copying
      auto_quarantine_confirmed true (eicar-analysed numbers engine false) no_match

-- A record that cannot be written is the error of the quarantine.
failing_record_test :
    quarantine_file copying name (text "00") (text "Test threat.") false ≡ fail (text "disk full")
unfolding quarantine_file zentor.Text.text_eq text zentor.Text.to_ascii_lowercase
    zentor.Text.drop_prefix zentor.Text.Space.trim
failing_record_test = refl

analyze_process_start-block_example :
    (decision : Text × FinalVerdict) × (analyze_process_start numbers engine copying false name
        eicar_ascii content
      ≡ ok decision)
    × (FileConfirms numbers engine false name eicar_ascii content analysis []
        → decision.0 ≡ text "block")
analyze_process_start-block_example =
    analyze_process_start-block numbers engine false name eicar_ascii content analysis [] copying
      (eicar-analysed numbers engine false) no_match

-- the engine as it is without any pack
abbrev plain_engine : NativeEngine ℕ
plain_engine = record engine { signatures = built_in 0; known_bad = [] }

append-nil : (xs : List ℕ) → xs ≡ xs ++ []
append-nil [] = refl
append-nil (x ∷ xs) = cc (append-nil xs)

only_built_in : built_in 0 ≡ built_in 0 ++ []
unfolding built_in
only_built_in = refl

scan_bytes_at-eicar_example :
    (v : FinalVerdict) × (v.verdict ≡ Verdict.test_threat)
    × (v.confidence ≡ Confidence.confirmed)
    × (((quarantine_record : Option QuarantineRecord) × Gives
            (scan_bytes_at numbers plain_engine copying false name eicar_ascii
              auto_quarantine_confirmed true content)
            v
            quarantine_record)
        ⊎ (IsAuto auto_quarantine_confirmed
            × (allowlist_contains plain_engine.allowlist name content.sha256 ≡ false)
            × (true ≡ true)
            × ((message : Text) × (quarantine_file copying name content.sha256
                    v.user_visible_explanation false
                  ≡ fail message)
                × (scan_bytes_at numbers plain_engine copying false name eicar_ascii
                      auto_quarantine_confirmed true content
                    ≡ fail message))))
scan_bytes_at-eicar_example =
    scan_bytes_at-eicar numbers plain_engine false name eicar_ascii content analysis copying
      auto_quarantine_confirmed true 0 [] [] [] [] only_built_in (append-nil eicar_ascii)
      (eicar-analysed numbers plain_engine false) no_match

abbrev eicar_file : FileAnswers
eicar_file = record {
  sha256_file = done (text "sha256:ab12");
  scan_file =
      scanned (
        scan_bytes_at numbers plain_engine copying false name eicar_ascii detect_only true content);
}

handle_process_started-eicar_example :
    let run =
      handle_process_started in_base (some 7) name [] block_confirmed_threats eicar_file store in
    let threat = threat_or_known (confirmed_match [] (text "sha256:ab12") eicar_file) in
    (run.0
      ≡ stops (some 7)
        ++ take (progress store) (
            file_steps in_base name
              (guard_record in_base store name (text "sha256:ab12") (some 7) threat)))
    × (says_quarantined (event_of (some 7) name run.1) ≡ (progress store == 3))
unfolding observes
handle_process_started-eicar_example =
    handle_process_started-eicar numbers plain_engine false name eicar_ascii content analysis
      copying 0 [] [] [] [] in_base 7 [] block_confirmed_threats eicar_file store
      (text "sha256:ab12") only_built_in (append-nil eicar_ascii)
      (eicar-analysed numbers plain_engine false) no_match refl refl refl
