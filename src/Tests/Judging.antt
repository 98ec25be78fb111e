-- ===== src/Tests/Judging.antt =====
-- Heuristics and rules at concrete inputs (core/zentor_native_engine/src/{heuristics,rules}).
use zentor.Prelude.{
  ℕ, ◌≡◌, refl, true, false, none, some, List, [], ◌∷◌, All, Any, length, ltb, leb,
}
use zentor.Prelude.Int.{pos}
use zentor.Text.{text}
use zentor.Text.Space.{is_blank}
use zentor.Float.{Float}
use zentor.Outcome.{ok}
use zentor.Verdict.{
  ThreatCategory, suspicious, medium, should_auto_quarantine, auto_quarantine_high_confidence,
  is_confirmed_threat,
}
use zentor.Verdict.Fusion.{fuse}
use zentor.Analysis.{StaticAnalysis, FileType}
use zentor.Heuristics.{score_file}
use zentor.Heuristics.Weights.{score_file-never_quarantines}
use zentor.Rules.{NativeRule, RulePack, file_type, contains_ascii}
use zentor.Rules.Vm.{evaluate}
use zentor.Rules.Validation.{load_one, load_packs, validate_rules}
use zentor.Rules.Accepted.{IsMatchOf, IsSober, evaluate-load_packs}

-- an arithmetic on the natural numbers that compares them
abbrev whole : Float ℕ
whole = record {
  literal = λ digits decimals. digits;
  of_nat = λ n. n;
  add = λ a b. a;
  mul = λ a b. a;
  div = λ a b. a;
  neg = λ a. a;
  log2 = λ a. a;
  max = λ a b. b;
  gt = λ a b. ltb b a;
  ge = λ a b. leb b a;
  log10 = λ a. a;
  exp = λ a. a;
  one_decimal = λ a. [];
}

abbrev script_file : StaticAnalysis ℕ
script_file = record {
  file_type = FileType.power_shell;
  file_size = 100;
  entropy_mean = 0;
  entropy_max = 800;
  string_indicators = record {
    embedded_url_count = 1;
    embedded_ip_count = 0;
    suspicious_string_count = 2;
  };
  pe = none;
  script = some (record {
    encoded_command = true;
    obfuscation_score = 1;
    downloader_patterns = 2;
    execution_patterns = 1;
    persistence_patterns = 0;
    security_tamper_indicators = 1;
  });
  archive = none;
}

score_file-never_quarantines_example :
    let v = fuse (score_file whole (text "/tmp/a.pdf.exe") script_file) false false in
    should_auto_quarantine auto_quarantine_high_confidence v.verdict v.confidence ≡ false
score_file-never_quarantines_example =
    score_file-never_quarantines whole auto_quarantine_high_confidence (text "/tmp/a.pdf.exe")
      script_file false false

abbrev rule : NativeRule ℕ
rule = record {
  id = text "r1";
  name = text "Downloader";
  description = text "A script that downloads";
  category = ThreatCategory.trojan;
  confidence = medium;
  verdict = suspicious;
  false_positive_notes = text "installers";
  conditions = file_type (text "powershell_script") ∷ contains_ascii (text "iex") ∷ [];
  min_condition_matches = 1;
  action = text "review";
}

abbrev packs : List (RulePack ℕ)
packs = record { format = text "f"; version = text "1"; rules = rule ∷ [] } ∷ []

loads : load_packs [] packs ≡ ok (rule ∷ [])
unfolding load_packs load_one validate_rules is_blank text is_confirmed_threat
loads = refl

evaluate-load_packs_example :
    All
      (λ m.
        Any
          (λ r.
            IsMatchOf whole (text "a.ps1") (105 ∷ 101 ∷ 120 ∷ []) script_file m r
            × ((w : ℕ) × (m.weight ≡ pos w)
                × IsSober (length r.conditions) m.verdict m.confidence w))
          (rule ∷ []))
      (evaluate whole (rule ∷ []) (text "a.ps1") (105 ∷ 101 ∷ 120 ∷ []) script_file)
evaluate-load_packs_example =
    evaluate-load_packs whole (text "a.ps1") (105 ∷ 101 ∷ 120 ∷ []) script_file packs (rule ∷ [])
      loads
