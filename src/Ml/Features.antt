-- ===== src/Ml/Features.antt =====
-- ml/feature_extractor.rs: the features of a file.
use zentor.Prelude.{
  ℕ, ◌+◌, Bool, true, false, Option, none, some, [], ◌∷◌, leb, map_or, u32, if◌then◌else◌,
}
use zentor.Text.{Text, text, is_one_of, to_ascii_lowercase}
use zentor.Path.{extension}
use zentor.Float.{Float}
use zentor.Analysis.{StaticAnalysis, FileType, pe, elf, mach_o, PeAnalysis}
use zentor.Heuristics.{filename_risk, location_risk}
use zentor.Ml.{FeatureVector}

abbrev is_executable_type : FileType → Bool
is_executable_type pe = true
is_executable_type elf = true
is_executable_type mach_o = true
is_executable_type _ = false

abbrev lower_extension : Option Text → Text
lower_extension none = []
lower_extension (some e) = to_ascii_lowercase e

unfoldable pub has_executable_extension : Text → Bool
has_executable_extension path = is_one_of (lower_extension (extension path)) (
    text "exe"
    ∷ text "dll"
    ∷ text "sys"
    ∷ text "scr"
    ∷ text "com"
    ∷ text "ps1"
    ∷ text "bat"
    ∷ text "cmd"
    ∷ text "vbs"
    ∷ text "js"
    ∷ [])

-- the sum in `u32`
abbrev suspicious_imports_of : PeAnalysis → ℕ
suspicious_imports_of p =
    u32 (i.process_injection + i.credential_access + i.persistence + i.anti_debugging)
  where
    open p use {suspicious_imports as i}

module _ {F : Type 0} (fl : Float F) where
  open fl use {literal, of_nat, add, mul, div, neg, log10, exp, max, gt, ge}

  abbrev flag : Bool → F
  flag b = of_nat (if b then 1 else 0)

  -- `count as f64 / scale`
  abbrev scaled : ℕ → ℕ → F
  scaled count scale = div (of_nat count) (of_nat scale)

  abbrev from_pe : StaticAnalysis F → (PeAnalysis → F) → F
  from_pe a f = map_or (of_nat 0) f a.pe

  unfoldable pub extract_features : Text → StaticAnalysis F → Bool → Bool → FeatureVector F
  extract_features path a known_good known_bad = record {
    file_size = max (log10 (of_nat a.file_size)) (of_nat 0);
    extension_executable = flag (has_executable_extension path);
    file_type_executable = flag (is_executable_type a.file_type);
    location_risk = scaled (location_risk path) 20;
    filename_risk = scaled (filename_risk path) 25;
    double_extension = flag (leb 25 (filename_risk path));
    entropy_mean = div a.entropy_mean (of_nat 8);
    entropy_max = div a.entropy_max (of_nat 8);
    section_count = from_pe a (λ p. scaled p.section_count 10);
    high_entropy_section_count = from_pe a (λ p. scaled p.high_entropy_section_count 5);
    suspicious_import_count = from_pe a (λ p. scaled (suspicious_imports_of p) 8);
    network_import_count = from_pe a (λ p. scaled p.suspicious_imports.network 5);
    injection_import_count = from_pe a (λ p. scaled p.suspicious_imports.process_injection 3);
    persistence_import_count = from_pe a (λ p. scaled p.suspicious_imports.persistence 3);
    crypto_import_count = from_pe a (λ p. scaled p.suspicious_imports.crypto 5);
    embedded_url_count = scaled a.string_indicators.embedded_url_count 5;
    embedded_ip_count = scaled a.string_indicators.embedded_ip_count 5;
    suspicious_string_count = scaled a.string_indicators.suspicious_string_count 10;
    script_obfuscation_score = map_or (of_nat 0) (λ s. scaled s.obfuscation_score 10) a.script;
    encoded_command_flag = map_or (of_nat 0) (λ s. flag s.encoded_command) a.script;
    archive_contains_executable =
        map_or (of_nat 0) (λ archive. flag archive.contains_executable) a.archive;
    startup_location_flag = flag (leb 18 (location_risk path));
    known_good_flag = flag known_good;
    known_bad_flag = flag known_bad;
  }
