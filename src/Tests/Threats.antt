-- ===== src/Tests/Threats.antt =====
-- The local core at a verdict of the native engine and at a concrete file
-- (core/zentor_local_core/src/main.rs, scanner/heuristic_provider.rs).
use zentor.Prelude.{◌≡◌, ◌≢◌, ◌↔◌, refl, true, false, none, some, is_some, List, [], ◌∷◌, Any}
use zentor.Prelude.Int.{pos}
use zentor.Text.{Text, text, to_ascii_lowercase}
use zentor.Verdict.{Evidence, EvidenceSource}
use zentor.Verdict.Fusion.{fuse}
use zentor.Verdict.Fusion.Confirmation.{IsConfirming}
use zentor.Tests.Scans.{numbers}
use zentor.Scanner.{RiskScore}
use zentor.Scanner.Files.{score_names}
use zentor.Scanner.Threats.{quarantined, allowlisted}
use zentor.Scanner.Native.{
  detect_only, auto_quarantine_confirmed_only, native_status, native_status-fuse,
}

abbrev known_bad : List Evidence
known_bad =
    record {
      id = text "known_bad_hash";
      title = text "Known-bad hash";
      detail = text "";
      weight = pos 100;
      source = EvidenceSource.application_control;
    }
    ∷ []

native_status-fuse_example :
    let status =
      native_status auto_quarantine_confirmed_only (fuse known_bad true false) false true in
    ((status ≡ some quarantined) ↔ (
      (auto_quarantine_confirmed_only ≢ detect_only)
      × (Any IsConfirming known_bad × ((false ≡ false) × (true ≡ true)))))
    × (Any IsConfirming known_bad → is_some status ≡ true)
    × (Any IsConfirming known_bad → false ≡ true → status ≡ some allowlisted)
native_status-fuse_example =
    native_status-fuse auto_quarantine_confirmed_only known_bad true false false true

abbrev script_name : Text
script_name = text "ab12cd34.pdf.ps1"

abbrev script_path : Text
script_path = text "/home/ada/downloads/startup/ab12cd34.pdf.ps1"

abbrev script_score : RiskScore
script_score =
    score_names numbers to_ascii_lowercase script_name script_path
      (some (text "powershell -ENC aaaa")) none

score_test : script_score.score ≡ 100
unfolding score_names zentor.Scanner.Names.is_zentor_trusted_artifact zentor.Text.starts_with text
    zentor.Text.contains_any zentor.Scanner.Score.score_from_reasons
    zentor.Scanner.Score.capped_score zentor.Scanner.Score.sum_u16 zentor.Scanner.Files.file_reasons
    zentor.Scanner.Names.is_executable_name zentor.Scanner.Names.ends_with_any zentor.Text.ends_with
    zentor.Scanner.Files.exe_downloads zentor.Scanner.Names.is_temp_location
    zentor.Scanner.Names.suspicious_double_extension zentor.Scanner.Files.double_extension
    zentor.Scanner.Names.startup_executable zentor.Analysis.Entropy.entropy
    zentor.Scanner.Files.exe_temp zentor.Scanner.Files.high_entropy
    zentor.Scanner.Files.obfuscated_script zentor.Scanner.Files.random_name_risky_location
    zentor.Scanner.Files.reason_startup zentor.Scanner.Files.trusted_score
    zentor.Scanner.Files.zentor_trusted_artifact zentor.Scanner.Names.is_ascii_alphabetic
    zentor.Scanner.Names.is_ascii_digit zentor.Scanner.Names.is_dense
    zentor.Scanner.Names.is_obfuscated zentor.Scanner.Names.is_random_stem
    zentor.Scanner.Names.likely_packed_or_high_entropy zentor.Scanner.Names.looks_randomish
    zentor.Scanner.Names.script_has_obfuscated_powershell zentor.Scanner.Score.action_for
    zentor.Scanner.Score.high_quality zentor.Scanner.Score.independent_sources
    zentor.Scanner.Score.insert_source zentor.Scanner.Score.is_high_quality
    zentor.Scanner.Score.risk_confidence zentor.Scanner.Score.risk_verdict
    zentor.Scanner.Score.sources zentor.Scanner.risk_source_index zentor.Text.contains
    zentor.Text.is_empty zentor.Text.split_on to_ascii_lowercase
score_test = refl
