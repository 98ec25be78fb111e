-- ===== src/Scanner/Files.antt =====
-- `HeuristicProvider` of core/zentor_local_core/src/scanner/heuristic_provider.rs. What the file system
-- says of the file is an argument; `lower` is `str::to_lowercase`.
use zentor.Prelude.{ℕ, Bool, ◌&&◌, ◌||◌, not, Option, none, some, List, [], ◌∷◌, if◌then◌else◌}
use zentor.Prelude.Int.{pos, negsuc}
use zentor.Text.{Text, text, contains}
use zentor.Path.{file_name}
use zentor.Outcome.{Outcome, ok, ◌>>=◌}
use zentor.Float.{Float}
use zentor.Scanner.{
  likely_clean, RiskSeverity, RiskReasonSource, RiskEngine, RiskReason, ThreatConfidence, review,
  RiskScore,
}
use zentor.Scanner.Score.{clean_score, score_from_reasons}
use zentor.Scanner.Names.{
  suspicious_double_extension, is_executable_name, is_temp_location, startup_executable,
  script_has_obfuscated_powershell, likely_packed_or_high_entropy, is_zentor_trusted_artifact,
  looks_randomish,
}

unfoldable pub zentor_trusted_artifact : RiskReason
zentor_trusted_artifact = record {
  id = text "zentor_trusted_artifact";
  title = text "Avorax trusted artifact";
  detail =
      text
        "Avorax installer, service, driver, quarantine, update, and build artifacts are suppressed unless a confirmed known-bad signature matches.";
  weight = negsuc 89;
  severity = RiskSeverity.info;
  source = RiskReasonSource.user_label;
}

unfoldable pub exe_downloads : RiskReason
exe_downloads = record {
  id = text "exe_downloads";
  title = text "Executable in Downloads";
  detail =
      text
        "Executable files in Downloads are common for legitimate installers and only add a small informational signal.";
  weight = pos 5;
  severity = RiskSeverity.info;
  source = RiskReasonSource.static_feature;
}

unfoldable pub exe_temp : RiskReason
exe_temp = record {
  id = text "exe_temp";
  title = text "Executable in temporary folder";
  detail =
      text
        "Executables launched from temporary folders are worth review, but this is not enough by itself.";
  weight = pos 10;
  severity = RiskSeverity.low;
  source = RiskReasonSource.static_feature;
}

unfoldable pub double_extension : RiskReason
double_extension = record {
  id = text "double_extension";
  title = text "Suspicious double extension";
  detail = text "The name looks like a document but ends with an executable or script extension.";
  weight = pos 25;
  severity = RiskSeverity.medium;
  source = RiskReasonSource.heuristic;
}

unfoldable pub reason_startup : RiskReason
reason_startup = record {
  id = text "startup_executable";
  title = text "Executable in startup location";
  detail =
      text "Software in startup folders can run automatically. This needs context before action.";
  weight = pos 25;
  severity = RiskSeverity.medium;
  source = RiskReasonSource.heuristic;
}

unfoldable pub random_name_risky_location : RiskReason
random_name_risky_location = record {
  id = text "random_name_risky_location";
  title = text "Random-looking executable name";
  detail = text "The filename has a random-looking pattern in a risky location.";
  weight = pos 15;
  severity = RiskSeverity.low;
  source = RiskReasonSource.heuristic;
}

unfoldable pub obfuscated_script : RiskReason
obfuscated_script = record {
  id = text "obfuscated_script";
  title = text "Obfuscated script content";
  detail = text "The script contains patterns commonly used to hide PowerShell commands.";
  weight = pos 35;
  severity = RiskSeverity.high;
  source = RiskReasonSource.heuristic;
}

unfoldable pub high_entropy : RiskReason
high_entropy = record {
  id = text "high_entropy";
  title = text "Packed or high-entropy content";
  detail =
      text
        "The file contains high-entropy bytes that can indicate packing. This only matters when combined with other signals.";
  weight = pos 20;
  severity = RiskSeverity.medium;
  source = RiskReasonSource.static_feature;
}

abbrev pub with_reason : Bool → RiskReason → List RiskReason → List RiskReason
with_reason test r reasons = if test then r ∷ reasons else reasons

-- the reasons that are pushed, in their order
unfoldable pub file_reasons :
    {F : Type 0}
    → Float F
    → (Text → Text)
    → Text
    → Text
    → Option Text
    → Option (List ℕ)
    → List RiskReason
file_reasons fl lower name path body bytes =
    with_reason (is_executable_name name && contains path (text "download")) exe_downloads (
      with_reason
        (is_executable_name name && is_temp_location path && not (contains path (text "download")))
        exe_temp
        (with_reason (suspicious_double_extension name) double_extension (
          with_reason (startup_executable name path) reason_startup (
            with_reason
              (looks_randomish name && (contains path (text "download") || is_temp_location path))
              random_name_risky_location
              (with_reason (script_has_obfuscated_powershell lower body name) obfuscated_script
                (with_reason (likely_packed_or_high_entropy fl bytes name) high_entropy []))))))

abbrev pub engines_for : List RiskReason → List RiskEngine
engines_for [] = []
engines_for (r ∷ reasons) = RiskEngine.heuristic ∷ []

abbrev name_or_empty : Option Text → Text
name_or_empty none = []
name_or_empty (some name) = name

unfoldable pub trusted_score : RiskScore
trusted_score = record {
  score = 0;
  verdict = likely_clean;
  confidence = ThreatConfidence.low;
  reasons = zentor_trusted_artifact ∷ [];
  recommended_action = review;
  engines_used = RiskEngine.heuristic ∷ [];
}

-- `score_file` of a file, by its lowered name and path
unfoldable pub score_names :
    {F : Type 0} → Float F → (Text → Text) → Text → Text → Option Text → Option (List ℕ) → RiskScore
score_names fl lower name path body bytes =
    let reasons = file_reasons fl lower name path body bytes in
    if is_zentor_trusted_artifact name path
    then trusted_score
    else score_from_reasons reasons (engines_for reasons)

-- `is_file` is what the metadata say, if they can be read
unfoldable pub score_file :
    {F : Type 0}
    → Float F
    → (Text → Text)
    → Text
    → Outcome Bool
    → Option Text
    → Option (List ℕ)
    → Outcome RiskScore
score_file fl lower path is_file body bytes = do
  is_regular ← is_file
  ok (
      if is_regular
      then score_names fl lower (lower (name_or_empty (file_name path))) (lower path) body bytes
      else clean_score [] [])
