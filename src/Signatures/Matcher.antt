-- ===== src/Signatures/Matcher.antt =====
-- signatures/signature_matcher.rs with string_signatures.rs, hash_signatures.rs and
-- eicar_signature.rs: whether a signature matches a file; and `SignatureDb::match_bytes`.
use zentor.Prelude.{
  ℕ, ◌*◌, Bool, true, false, ◌&&◌, ◌||◌, not, Option, none, some, List, [], ◌∷◌, ◌++◌, leb, ltb,
  map_or, any, all, if◌then◌else◌, length, push_some,
}
use zentor.Prelude.Int.{pos}
use zentor.Text.{
  Text, text, text_eq, is_empty, eq_ignore_ascii_case, to_ascii_lowercase, starts_with, contains,
}
use zentor.Text.Utf8.{from_utf8_lossy, encode_utf16_le}
use zentor.Outcome.{Outcome, ok, ◌>>=◌}
use zentor.Verdict.{Confidence, low, medium, high, confirmed}
use zentor.Analysis.{StaticAnalysis, PeAnalysis, FileType, ScriptAnalysis, ArchiveAnalysis}
use zentor.Analysis.Kind.{file_type_name}
use zentor.Rules.Vm.{contains_encoded}
use zentor.Signatures.{
  NativeSignature, SignatureMatch, SignatureType, exact_hash, partial_hash, byte_pattern,
  masked_byte_pattern, ascii_string, utf16_string, pe_import_combo, pe_section_entropy,
  pe_resource_indicator, script_pattern, powershell_encoded_command, archive_nested_executable,
  eicar_test_signature,
}
use zentor.Signatures.Hex.{
  contains_hex_pattern, matches_hex_pattern_at, contains_masked_hex_pattern,
}

unfoldable pub eicar_ascii : Text
eicar_ascii = text "X5O!P%@AP[4\\PZX54(P^)7CC)7}$EICAR-STANDARD-ANTIVIRUS-TEST-FILE!$H+H*"

unfoldable pub contains_eicar : List ℕ → Bool
unfolding eicar_ascii
contains_eicar bytes = contains bytes eicar_ascii

unfoldable pub matches_exact_hash : Text → Text → Bool
matches_exact_hash actual expected = eq_ignore_ascii_case actual expected

-- string_signatures.rs
unfoldable pub contains_ascii : List ℕ → Text → Bool
contains_ascii bytes needle =
    not (is_empty needle)
    && contains (to_ascii_lowercase (from_utf8_lossy bytes)) (to_ascii_lowercase needle)

unfoldable pub contains_utf16 : List ℕ → Text → Bool
contains_utf16 bytes needle = contains_encoded bytes (encode_utf16_le needle)

unfoldable pub file_type_allowed : NativeSignature → FileType → Bool
file_type_allowed signature actual =
    any
      (λ file_type.
        let normalized = to_ascii_lowercase file_type in
        text_eq normalized (text "*") || text_eq normalized (file_type_name actual))
      signature.file_types

abbrev pub encoded_script : Option ScriptAnalysis → Bool
encoded_script = map_or false (λ script. script.encoded_command)

abbrev pub downloads_and_runs : Option ScriptAnalysis → Bool
downloads_and_runs =
    map_or false (λ script. ltb 0 script.downloader_patterns && ltb 0 script.execution_patterns)

abbrev pub nested_executable : Option ArchiveAnalysis → Bool
nested_executable =
    map_or false
      (λ archive. archive.contains_executable && ltb 0 archive.suspicious_nested_name_count)

abbrev pub high_entropy_section : Option PeAnalysis → Bool
high_entropy_section = map_or false (λ pe. ltb 0 pe.high_entropy_section_count)

abbrev pub import_combo : Option PeAnalysis → Bool
import_combo =
    map_or false
      (λ pe. ltb 0 pe.suspicious_imports.process_injection && ltb 0 pe.suspicious_imports.network)

-- `pe.overlay_size > 512 * 1024 || pe.certificate_table_present`
abbrev pub resource_indicator : Option PeAnalysis → Bool
resource_indicator =
    map_or false (λ pe. ltb (512 * 1024) pe.overlay_size || pe.certificate_table_present)

module _ {F : Type 0} where
  -- one entry of `required_context`, in lower case
  unfoldable pub context_holds : StaticAnalysis F → Text → Bool
  context_holds a context =
      if text_eq context (text "encoded_command")
      then encoded_script a.script
      else if text_eq context (text "downloader_and_execution")
      then downloads_and_runs a.script
      else if text_eq context (text "archive_nested_executable")
      then nested_executable a.archive
      else if text_eq context (text "high_entropy_section")
      then high_entropy_section a.pe
      else if text_eq context (text "suspicious_import_combo")
      then import_combo a.pe
      else if text_eq context (text "credential_access_string")
      then ltb 0 a.string_indicators.suspicious_string_count
      else text_eq context (text "ransom_note_text")
        || text_eq context (text "miner_pool_string")
        || text_eq context (text "pup_adware_string")
        || starts_with context (text "exact ")
        || starts_with context (text "zentor ")
        || contains context (text "test")
        || contains context (text "safe")
        || contains context (text "review")
        || contains context (text "context")

  unfoldable pub required_context_matches : NativeSignature → StaticAnalysis F → Bool
  unfolding context_holds
  required_context_matches signature a =
      all (λ context. context_holds a (to_ascii_lowercase context)) signature.required_context

  -- the test that the type of the signature asks for
  unfoldable pub type_matches :
      SignatureType → NativeSignature → Text → List ℕ → StaticAnalysis F → Outcome Bool
  type_matches exact_hash signature sha256 bytes a =
      ok (matches_exact_hash sha256 signature.pattern)
  type_matches partial_hash signature sha256 bytes a =
      ok (starts_with sha256 (to_ascii_lowercase signature.pattern))
  type_matches byte_pattern signature sha256 bytes a = elim signature.offset [
    | some offset ↦ matches_hex_pattern_at bytes signature.pattern offset
    | none ↦ contains_hex_pattern bytes signature.pattern
  ]
  type_matches masked_byte_pattern signature sha256 bytes a =
      contains_masked_hex_pattern bytes signature.pattern (map_or [] (λ mask. mask) signature.mask)
  type_matches ascii_string signature sha256 bytes a = ok (contains_ascii bytes signature.pattern)
  type_matches script_pattern signature sha256 bytes a = ok (contains_ascii bytes signature.pattern)
  type_matches utf16_string signature sha256 bytes a = ok (contains_utf16 bytes signature.pattern)
  type_matches eicar_test_signature signature sha256 bytes a = ok (contains_eicar bytes)
  type_matches powershell_encoded_command signature sha256 bytes a = ok (encoded_script a.script)
  type_matches archive_nested_executable signature sha256 bytes a = ok (nested_executable a.archive)
  type_matches pe_import_combo signature sha256 bytes a = ok (import_combo a.pe)
  type_matches pe_section_entropy signature sha256 bytes a = ok (high_entropy_section a.pe)
  type_matches pe_resource_indicator signature sha256 bytes a = ok (resource_indicator a.pe)

unfoldable pub signature_weight : Confidence → ℕ
signature_weight confirmed = 100
signature_weight high = 45
signature_weight medium = 25
signature_weight low = 10

unfoldable pub match_of : NativeSignature → SignatureMatch
unfolding signature_weight
match_of signature = record {
  signature_id = signature.id;
  name = signature.name;
  category = signature.category;
  confidence = signature.confidence;
  reason = text "Avorax Native Signature matched: " ++ signature.name;
  weight = pos (signature_weight signature.confidence);
}

-- `matched.then(|| …)`
abbrev pub match_if : NativeSignature → Bool → Option SignatureMatch
match_if signature matched = if matched then some (match_of signature) else none

abbrev pub within : NativeSignature → ℕ → Bool
within signature size =
    map_or true (λ min. leb min size) signature.min_file_size
    && map_or true (λ max. leb size max) signature.max_file_size

module _ {F : Type 0} where
  -- the guards before the test
  unfoldable pub applies : NativeSignature → List ℕ → StaticAnalysis F → Bool
  unfolding file_type_allowed required_context_matches
  applies signature bytes a =
      within signature (length bytes)
      && file_type_allowed signature a.file_type
      && required_context_matches signature a

  unfoldable pub matches_signature :
      NativeSignature → Text → List ℕ → StaticAnalysis F → Outcome (Option SignatureMatch)
  unfolding match_of
  matches_signature signature sha256 bytes a =
      if applies signature bytes a
      then type_matches signature.signature_type signature sha256 bytes a
        >>= (λ matched. ok (match_if signature matched))
      else ok none

  unfoldable pub match_bytes :
      List NativeSignature → Text → List ℕ → StaticAnalysis F → Outcome (List SignatureMatch)
  match_bytes [] sha256 bytes a = ok []
  match_bytes (signature ∷ rest) sha256 bytes a =
      matches_signature signature sha256 bytes a >>= λ first.
      match_bytes rest sha256 bytes a >>= λ later. ok (push_some first later)
