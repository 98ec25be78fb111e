-- ===== src/Ml.antt =====
-- core/zentor_native_engine/src/ml: the features of a file and the model over them. The model is
-- taken as it was parsed.
pub mod Features
pub mod Runner
use zentor.Prelude.{
  ℕ, ◌+◌, Bool, true, false, ◌&&◌, Option, none, some, List, [], ◌∷◌, keep, leb, map, map_or, take,
  u32, if◌then◌else◌,
}
use zentor.Text.{Text, text, text_eq, is_one_of, to_ascii_lowercase}
use zentor.Path.{extension}
use zentor.Float.{Float}
use zentor.Verdict.{
  Verdict, confirmed_malware, probable_malware, suspicious, likely_clean, Confidence, low, medium,
  high, confirmed, ThreatCategory, suspicious_script,
}
use zentor.Analysis.{StaticAnalysis, FileType, pe, elf, mach_o, PeAnalysis}
use zentor.Heuristics.{filename_risk, location_risk}

-- feature_vector.rs
pub record FeatureVector (F : Type 0) : Type 0 where
  pub file_size : F
  pub extension_executable : F
  pub file_type_executable : F
  pub location_risk : F
  pub filename_risk : F
  pub double_extension : F
  pub entropy_mean : F
  pub entropy_max : F
  pub section_count : F
  pub high_entropy_section_count : F
  pub suspicious_import_count : F
  pub network_import_count : F
  pub injection_import_count : F
  pub persistence_import_count : F
  pub crypto_import_count : F
  pub embedded_url_count : F
  pub embedded_ip_count : F
  pub suspicious_string_count : F
  pub script_obfuscation_score : F
  pub encoded_command_flag : F
  pub archive_contains_executable : F
  pub startup_location_flag : F
  pub known_good_flag : F
  pub known_bad_flag : F

-- model.rs
pub record Thresholds (F : Type 0) : Type 0 where
  pub suspicious : F
  pub probable_malware : F
  pub confirmed_malware : F

-- `weights` is a `BTreeMap`, as its entries in order.
pub record NativeModel (F : Type 0) : Type 0 where
  pub model_name : Text
  pub model_version : Text
  pub model_format_version : Text
  pub feature_schema_version : Text
  pub production_ready : Bool
  pub precision : F
  pub recall : F
  pub false_positive_rate : F
  pub bias : F
  pub weights : List (Text × F)
  pub thresholds : Thresholds F
  pub limitations : List Text

-- model_runner.rs
pub record NativeMlResult (F : Type 0) : Type 0 where
  pub malware_probability : F
  pub top_category : ThreatCategory
  pub confidence : Confidence
  pub verdict : Verdict
  pub explanation_features : List Text
  pub model_version : Text
  pub production_ready : Bool
  pub false_positive_rate_from_metadata : F
  pub can_contribute_to_auto_quarantine : Bool
