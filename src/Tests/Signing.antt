-- ===== src/Tests/Signing.antt =====
-- Signatures at concrete inputs (core/zentor_native_engine/src/signatures).
use mathlib.Core.Logic.{◌↔◌}
use mathlib.Core.List.{Permᴰ}
use zentor.Prelude.{
  ℕ, ◌≡◌, refl, inl, inr, true, false, none, some, List, [], ◌∷◌, ◌++◌, All, Any, length, arith,
}
use zentor.Prelude.Int.{pos, leb_ℤ}
use zentor.Text.{Text, text, text_eq, to_ascii_lowercase, contains, eq_ignore_ascii_case}
use zentor.Text.Space.{is_blank}
use zentor.Outcome.{ok}
use zentor.Verdict.{ThreatCategory, confirmed, is_confirmed}
use zentor.Analysis.{StaticAnalysis, FileType}
use zentor.Signatures.{NativeSignature, exact_hash, SignaturePack, SignaturePackMetadata}
use zentor.Signatures.Hex.{contains_hex_pattern}
use zentor.Signatures.Hex.Codec.{Occurs}
use zentor.Signatures.Hex.Written.{Digit, digits_of, HasDigits, contains_hex_pattern_iff}
use zentor.Signatures.Matcher.{
  match_of, match_bytes, matches_signature, applies, type_matches, contains_eicar,
  matches_exact_hash,
}
use zentor.Signatures.Packs.{
  PackCode, broad_signature_count, validate_signatures, compile_pack, load_one, load_packs,
  built_in,
}
use zentor.Signatures.Packs.Accepted.{IsHeavy, match_bytes-load_packs}
use zentor.Signatures.Packs.Compiled.{load_one-compile_pack}

abbrev three : List ℕ
three = 0x4d ∷ 0xff ∷ 0 ∷ []

digit :
    (c d : ℕ) (t : Text) (later : List ℕ)
    → Digit c d
    → HasDigits t later
    → HasDigits (c ∷ t) (d ∷ later)
digit c d t later value written = inr (d, later, refl, value, written)

-- in either case, with fill between the bytes and the digits
three_digits : HasDigits (text "4D fF_0 0") (digits_of three)
unfolding text
three_digits =
    let pair : HasDigits (text "0 0") (0 ∷ 0 ∷ []) =
      digit b'0' 0 (text " 0") (0 ∷ []) (ground arith)
        (inl (inl refl, digit b'0' 0 [] [] (ground arith) refl)) in
    let upper : HasDigits (text "F_0 0") (15 ∷ 0 ∷ 0 ∷ []) =
      digit b'F' 15 (text "_0 0") (0 ∷ 0 ∷ []) (ground arith) (inl (inr refl, pair)) in
    let lower : HasDigits (text "fF_0 0") (15 ∷ 15 ∷ 0 ∷ 0 ∷ []) =
      digit b'f' 15 (text "F_0 0") (15 ∷ 0 ∷ 0 ∷ []) (ground arith) upper in
    digit b'4' 4 (text "D fF_0 0") (13 ∷ 15 ∷ 15 ∷ 0 ∷ 0 ∷ []) (ground arith)
      (digit b'D' 13 (text " fF_0 0") (15 ∷ 15 ∷ 0 ∷ 0 ∷ []) (ground arith) (inl (inl refl, lower)))

contains_hex_pattern_iff_example :
    (contains_hex_pattern (7 ∷ three) (text "4D fF_0 0") ≡ ok true) ↔ Occurs three (7 ∷ three)
contains_hex_pattern_iff_example =
    contains_hex_pattern_iff (7 ∷ three) 0x4d (0xff ∷ 0 ∷ []) (text "4D fF_0 0") three_digits

-- a hash and an encoder that say little
abbrev code : PackCode
code = record {
  sha256_bytes = λ bytes. text "00";
  object_bytes = λ format version compiler created signatures. ok format;
}

abbrev hash_signature : NativeSignature
hash_signature = record {
  id = text "h1";
  name = text "Known hash";
  version = text "1";
  category = ThreatCategory.trojan;
  confidence = confirmed;
  severity = text "high";
  signature_type = exact_hash;
  pattern = text "00";
  mask = none;
  offset = none;
  file_types = text "*" ∷ [];
  min_file_size = none;
  max_file_size = none;
  required_context = [];
  false_positive_notes = text "none known";
  action_policy = text "review";
  created_at = 1;
  updated_at = 1;
}

abbrev pack : SignaturePack
pack = record {
  format = text "zentor-signature-pack-v1";
  version = text "1";
  compiler_version = none;
  created_at = none;
  pack_sha256 = some (text "00");
  signatures = hash_signature ∷ [];
}

abbrev analysis : StaticAnalysis ℕ
analysis = record {
  file_type = FileType.text;
  file_size = 2;
  entropy_mean = 0;
  entropy_max = 0;
  string_indicators = record {
    embedded_url_count = 0;
    embedded_ip_count = 0;
    suspicious_string_count = 0;
  };
  pe = none;
  script = none;
  archive = none;
}

loads : load_packs code (built_in 0) (pack ∷ []) ≡ ok (built_in 0 ++ hash_signature ∷ [])
unfolding load_packs text_eq text is_blank eq_ignore_ascii_case validate_signatures is_confirmed
loads = refl

found :
    match_bytes (built_in 0 ++ hash_signature ∷ []) (text "00") (65 ∷ 66 ∷ []) analysis
    ≡ ok (match_of hash_signature ∷ [])
unfolding match_bytes built_in matches_signature applies text_eq to_ascii_lowercase text
    type_matches contains_eicar contains matches_exact_hash eq_ignore_ascii_case
found = refl

match_bytes-load_packs_example :
    All
      (λ m.
        leb_ℤ (pos 90) m.weight ≡ true
        → Any (λ s. (m ≡ match_of s) × IsHeavy s) (built_in 0 ++ hash_signature ∷ []))
      (match_of hash_signature ∷ [])
match_bytes-load_packs_example =
    match_bytes-load_packs code 0 (pack ∷ []) (built_in 0 ++ hash_signature ∷ []) (text "00")
      (65 ∷ 66 ∷ []) analysis (match_of hash_signature ∷ []) loads found

abbrev compiled : SignaturePack
compiled = record pack { compiler_version = some (text "0.1"); created_at = some 5 }

abbrev metadata : SignaturePackMetadata
metadata = record {
  format = text "zentor-signature-pack-v1";
  version = text "1";
  compiler_version = text "0.1";
  signature_count = 1;
  pack_sha256 = text "00";
  created_at = 5;
  broad_signature_count = 0;
  confirmed_signature_count = 1;
}

compiles :
    compile_pack code (text "0.1") 5 (hash_signature ∷ []) (text "1") ≡ ok (compiled, metadata)
unfolding compile_pack is_blank text is_confirmed
compiles = refl

named : is_blank (text "1") ≡ false
unfolding is_blank text
named = refl

load_one-compile_pack_example :
    (load_one code [] compiled ≡ ok ([] ++ compiled.signatures))
    × Permᴰ (hash_signature ∷ []) compiled.signatures
    × (metadata.signature_count ≡ length compiled.signatures)
    × (metadata.broad_signature_count ≡ broad_signature_count compiled.signatures)
load_one-compile_pack_example =
    load_one-compile_pack code (text "0.1") 5 (hash_signature ∷ []) [] (text "1") compiled metadata
      named compiles
