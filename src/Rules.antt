-- ===== src/Rules.antt =====
-- core/zentor_native_engine/src/rules/{rule,rule_vm,rule_compiler,rule_parser}.rs: rules over the
-- analysis of a file.
pub mod Vm
pub mod Validation
pub mod Accepted
use zentor.Prelude.{ℕ, List}
use zentor.Prelude.Int.{ℤ}
use zentor.Text.{Text}
use zentor.Verdict.{Verdict, Confidence, ThreatCategory}

-- `F` is `f64`
pub data RuleCondition (F : Type 0) : Type 0 where
  file_type : Text → RuleCondition F
  contains_ascii : Text → RuleCondition F
  contains_utf16 : Text → RuleCondition F
  entropy_greater_than : F → RuleCondition F
  suspicious_imports_at_least : ℕ → RuleCondition F
  encoded_command : RuleCondition F
  downloader_and_execution : RuleCondition F
  archive_contains_executable : RuleCondition F
  archive_suspicious_nested_name_at_least : ℕ → RuleCondition F
  path_contains : Text → RuleCondition F
  script_obfuscation_at_least : ℕ → RuleCondition F
  script_persistence_at_least : ℕ → RuleCondition F
  script_security_tamper_at_least : ℕ → RuleCondition F
  embedded_urls_at_least : ℕ → RuleCondition F
  suspicious_strings_at_least : ℕ → RuleCondition F
  pe_import_category_at_least : Text → ℕ → RuleCondition F
  ransom_note_text : RuleCondition F
  miner_pool_string : RuleCondition F
  credential_access_string : RuleCondition F
  adware_pup_string : RuleCondition F

pub record NativeRule (F : Type 0) : Type 0 where
  pub id : Text
  pub name : Text
  pub description : Text
  pub category : ThreatCategory
  pub confidence : Confidence
  pub verdict : Verdict
  pub false_positive_notes : Text
  pub conditions : List (RuleCondition F)
  pub min_condition_matches : ℕ
  pub action : Text

pub record RulePack (F : Type 0) : Type 0 where
  pub format : Text
  pub version : Text
  pub rules : List (NativeRule F)

pub record RuleMatch : Type 0 where
  pub rule_id : Text
  pub name : Text
  pub category : ThreatCategory
  pub confidence : Confidence
  pub verdict : Verdict
  pub reason : Text
  pub weight : ℤ  -- i32
