-- ===== src/Signatures.antt =====
-- core/zentor_native_engine/src/signatures: the signatures that the engine looks for in a file.
pub mod Hex
pub mod Matcher
pub mod Packs
use zentor.Prelude.{ℕ, Option, List}
use zentor.Prelude.Int.{ℤ}
use zentor.Text.{Text}
use zentor.Verdict.{Confidence, ThreatCategory}

-- signature.rs
pub data SignatureType : Type 0 where
  exact_hash partial_hash byte_pattern masked_byte_pattern ascii_string utf16_string : SignatureType
  pe_import_combo pe_section_entropy pe_resource_indicator script_pattern : SignatureType
  powershell_encoded_command archive_nested_executable eicar_test_signature : SignatureType

-- The sizes are `u64`, the times are seconds.
pub record NativeSignature : Type 0 where
  pub id : Text
  pub name : Text
  pub version : Text
  pub category : ThreatCategory
  pub confidence : Confidence
  pub severity : Text
  pub signature_type : SignatureType
  pub pattern : Text
  pub mask : Option Text
  pub offset : Option ℕ
  pub file_types : List Text
  pub min_file_size : Option ℕ
  pub max_file_size : Option ℕ
  pub required_context : List Text
  pub false_positive_notes : Text
  pub action_policy : Text
  pub created_at : ℕ
  pub updated_at : ℕ

pub record SignatureMatch : Type 0 where
  pub signature_id : Text
  pub name : Text
  pub category : ThreatCategory
  pub confidence : Confidence
  pub reason : Text
  pub weight : ℤ  -- i32

-- pack_format.rs
pub record SignaturePack : Type 0 where
  pub format : Text
  pub version : Text
  pub compiler_version : Option Text
  pub created_at : Option ℕ
  pub pack_sha256 : Option Text
  pub signatures : List NativeSignature

pub record SignaturePackMetadata : Type 0 where
  pub format : Text
  pub version : Text
  pub compiler_version : Text
  pub signature_count : ℕ
  pub pack_sha256 : Text
  pub created_at : ℕ
  pub broad_signature_count : ℕ
  pub confirmed_signature_count : ℕ
