-- ===== src/Analysis.antt =====
-- core/zentor_native_engine/src/analyzers/: what the engine finds in the bytes of a file. This
-- module has the data, and `analyze_path` of mod.rs stands in Analysis/Whole.antt.
pub mod Kind
pub mod Entropy
pub mod Strings
pub mod Script
pub mod Zip
pub mod Pe
pub mod Whole
use zentor.Prelude.{ℕ, Bool, Option}

pub data FileType : Type 0 where
  pe elf mach_o power_shell java_script batch vbs zip text document unknown : FileType

-- strings.rs
pub record StringIndicators : Type 0 where
  pub embedded_url_count : ℕ  -- u32
  pub embedded_ip_count : ℕ  -- u32
  pub suspicious_string_count : ℕ  -- u32

-- pe/imports.rs
pub record ImportCategories : Type 0 where
  pub process_injection : ℕ  -- u32, as all of them
  pub credential_access : ℕ
  pub persistence : ℕ
  pub network : ℕ
  pub crypto : ℕ
  pub process_manipulation : ℕ
  pub service_control : ℕ
  pub registry_autorun : ℕ
  pub anti_debugging : ℕ

-- pe/pe_parser.rs
pub record PeAnalysis : Type 0 where
  pub section_count : ℕ  -- u16
  pub high_entropy_section_count : ℕ  -- u16
  pub suspicious_imports : ImportCategories
  pub has_debug_info : Bool
  pub certificate_table_present : Bool
  pub overlay_size : ℕ  -- u64

-- scripts/mod.rs
pub record ScriptAnalysis : Type 0 where
  pub encoded_command : Bool
  pub obfuscation_score : ℕ  -- u32, as the others
  pub downloader_patterns : ℕ
  pub execution_patterns : ℕ
  pub persistence_patterns : ℕ
  pub security_tamper_indicators : ℕ

-- archives/mod.rs
pub record ArchiveAnalysis : Type 0 where
  pub entry_count : ℕ  -- u32
  pub contains_executable : Bool
  pub suspicious_nested_name_count : ℕ  -- u32
  pub zip_slip_blocked : Bool
  pub limit_exceeded : Bool

-- mod.rs; `F` is `f64`
pub record StaticAnalysis (F : Type 0) : Type 0 where
  pub file_type : FileType
  pub file_size : ℕ  -- u64
  pub entropy_mean : F
  pub entropy_max : F
  pub string_indicators : StringIndicators
  pub pe : Option PeAnalysis
  pub script : Option ScriptAnalysis
  pub archive : Option ArchiveAnalysis
