-- ===== src/Heuristics.antt =====
-- core/zentor_native_engine/src/heuristics/{filename,location,scoring}.rs: weak signals, as evidence.
pub mod Weights
use zentor.Prelude.{
  String, ℕ, ◌+◌, ◌*◌, Bool, ◌&&◌, ◌||◌, Option, none, some, List, [], ◌∷◌, ◌++◌, any, leb, ltb,
  u32, if◌then◌else◌,
}
use zentor.Prelude.Int.{pos}
use zentor.Text.{Text, text, to_ascii_lowercase, contains, ends_with}
use zentor.Path.{file_name}
use zentor.Float.{Float}
use zentor.Verdict.{Evidence, native_heuristic}
use zentor.Analysis.{StaticAnalysis, ScriptAnalysis, PeAnalysis, ArchiveAnalysis}

abbrev lower_name : Option Text → Text
lower_name none = []
lower_name (some name) = to_ascii_lowercase name

unfoldable pub double_extensions : List Text
double_extensions =
    text ".pdf.exe"
    ∷ text ".doc.exe"
    ∷ text ".docx.exe"
    ∷ text ".jpg.exe"
    ∷ text ".png.exe"
    ∷ text ".txt.exe"
    ∷ text ".pdf.scr"
    ∷ []

unfoldable pub filename_risk : Text → ℕ
unfolding file_name to_ascii_lowercase ends_with double_extensions text
filename_risk path =
    let name = lower_name (file_name path) in
    if any (ends_with name) double_extensions
    then 25
    else if ends_with name (text ".exe")
    then 3
    else 0

unfoldable pub location_risk : Text → ℕ
unfolding to_ascii_lowercase contains text
location_risk path =
    let lower = to_ascii_lowercase path in
    if contains lower (text "\\temp\\") || contains lower (text "/tmp/")
    then 8
    else if contains lower (text "\\downloads\\") || contains lower (text "/downloads/")
    then 5
    else if contains lower (text "startup") || contains lower (text "autostart")
    then 18
    else 0

abbrev min : ℕ → ℕ → ℕ
min a b = if leb a b then a else b

-- evidence of this provider
unfoldable pub item : String → String → String → ℕ → Evidence
item id title detail weight = record {
  id = text id;
  title = text title;
  detail = text detail;
  weight = pos weight;
  source = native_heuristic;
}

-- `if test { evidence.push(item) }`
unfoldable pub push_if : Bool → Evidence → List Evidence
push_if test evidence = if test then evidence ∷ [] else []

unfoldable pub filename_evidence : ℕ → List Evidence
filename_evidence score =
    if leb 25 score
    then item "filename_risk" "Suspicious filename pattern"
        "The filename uses a deceptive extension or high-risk naming pattern." score
      ∷ []
    else push_if (ltb 0 score) (
        item "filename_observation" "Filename observation"
          "The filename has a weak risk indicator; this is not enough to call it malware."
          (min score 8))

unfoldable pub location_evidence : ℕ → List Evidence
location_evidence score = push_if (ltb 0 score) (
    item "location_observation" "Location observation"
      "The file is in a location often reviewed by quick scans. This signal is weak by itself."
      score)

unfoldable pub script_evidence : Option ScriptAnalysis → List Evidence
script_evidence none = []
script_evidence (some script) =
    push_if script.encoded_command (
      item "encoded_script_command" "Encoded script command"
        "The script contains encoded command indicators." 20)
    ++ (push_if (ltb 0 script.downloader_patterns && ltb 0 script.execution_patterns) (
          item "download_execute_script" "Downloader plus execution script pattern"
            "The script combines download and execution behavior." 35)
        ++ push_if (ltb 0 script.security_tamper_indicators) (
            item "security_tamper_script" "Security tamper indicator"
              "The script references backup or security setting tamper commands." 35))

-- the weighted sum of the import categories, in `u32`
unfoldable pub import_score : PeAnalysis → ℕ
import_score pe = u32 (
    i.process_injection * 12 + i.credential_access * 14 + i.persistence * 10 + i.anti_debugging * 8)
  where
    open pe use {suspicious_imports as i}

unfoldable pub import_evidence : Option PeAnalysis → List Evidence
unfolding import_score
import_evidence none = []
import_evidence (some pe) = push_if (ltb 0 (import_score pe)) (
    item "suspicious_imports" "Suspicious import categories"
      "The executable imports APIs associated with injection, credential access, persistence, or anti-debugging."
      (min (import_score pe) 45))

unfoldable pub archive_evidence : Option ArchiveAnalysis → List Evidence
archive_evidence none = []
archive_evidence (some archive) =
    push_if archive.zip_slip_blocked (
      item "archive_zip_slip" "Unsafe archive path blocked"
        "The archive contains path traversal entries." 45)
    ++ push_if (archive.contains_executable && ltb 0 archive.suspicious_nested_name_count) (
        item "archive_suspicious_executable" "Suspicious executable inside archive"
          "The archive contains executable entries with suspicious names." 25)

module _ {F : Type 0} (fl : Float F) where
  open fl use {literal, gt}

  unfoldable pub entropy_evidence : F → List Evidence
  entropy_evidence entropy_max = push_if (gt entropy_max (literal 745 2)) (
      item "high_entropy" "High entropy content"
        "One or more regions look packed or encrypted. Avorax treats this as suspicious only with other signals."
        18)

  unfoldable pub score_file : Text → StaticAnalysis F → List Evidence
  unfolding filename_evidence location_evidence entropy_evidence script_evidence import_evidence
      archive_evidence
  score_file path analysis =
      filename_evidence (filename_risk path)
      ++ (location_evidence (location_risk path)
          ++ (entropy_evidence analysis.entropy_max
              ++ (script_evidence analysis.script
                  ++ (import_evidence analysis.pe ++ archive_evidence analysis.archive))))
