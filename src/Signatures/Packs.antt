-- ===== src/Signatures/Packs.antt =====
-- signatures/{pack_verifier,signature_compiler,signature_db}.rs: which packs are accepted, how a
-- pack is compiled, and the database that is loaded. Reading and parsing the files is not modelled:
-- `load_packs` takes the packs as they were parsed, in the order in which they are loaded.
pub mod Accepted
pub mod Compiled
use Prim.Native.Nat.{Ordering}
use zentor.Prelude.{
  ℕ, Bool, true, false, ◌&&◌, ◌||◌, not, Option, none, some, List, [], ◌∷◌, ◌++◌, ltb, length,
  count_if, if◌then◌else◌,
}
use zentor.Text.{Text, text, text_eq, eq_ignore_ascii_case, without_fill, is_one_of}
use zentor.Text.Space.{is_blank}
use zentor.Path.{text_compare}
use zentor.Outcome.{Outcome, ok, fail, ◌>>=◌, ◌>>◌}
use zentor.Verdict.{
  Verdict, confirmed_malware, suspicious, observation, Confidence, low, confirmed, is_confirmed,
  ThreatCategory,
}
use zentor.Signatures.{
  NativeSignature, SignatureType, exact_hash, byte_pattern, masked_byte_pattern, ascii_string,
  utf16_string, eicar_test_signature, SignaturePack, SignaturePackMetadata,
}
use zentor.Signatures.Matcher.{eicar_ascii}

unfoldable pub signature_pack_format : Text
signature_pack_format = text "zentor-signature-pack-v1"

-- the types that search for a pattern
unfoldable pub is_pattern_type : SignatureType → Bool
is_pattern_type ascii_string = true
is_pattern_type utf16_string = true
is_pattern_type byte_pattern = true
is_pattern_type masked_byte_pattern = true
is_pattern_type _ = false

unfoldable pub is_broad : NativeSignature → Bool
unfolding is_pattern_type
is_broad signature =
    is_pattern_type signature.signature_type && ltb (length (without_fill signature.pattern)) 12

unfoldable pub broad_signature_count : List NativeSignature → ℕ
unfolding is_broad
broad_signature_count = count_if is_broad

abbrev pub is_low : Confidence → Bool
is_low low = true
is_low _ = false

abbrev is_exact_type : SignatureType → Bool
is_exact_type exact_hash = true
is_exact_type eicar_test_signature = true
is_exact_type _ = false

abbrev is_none : List Text → Bool
is_none [] = true
is_none (x ∷ xs) = false

unfoldable pub lacks_metadata : NativeSignature → Bool
lacks_metadata signature =
    is_blank signature.id || is_blank signature.name || is_blank signature.false_positive_notes

unfoldable pub is_overconfident : NativeSignature → Bool
unfolding is_broad
is_overconfident signature = is_broad signature && not (is_low signature.confidence)

abbrev block_actions : List Text
block_actions =
    text "quarantine_if_policy_allows" ∷ text "block_or_quarantine_if_policy_allows" ∷ []

unfoldable pub lacks_policy : NativeSignature → Bool
lacks_policy signature =
    is_confirmed signature.confidence
    && not (is_exact_type signature.signature_type)
    && not (is_one_of signature.action_policy block_actions)

unfoldable pub validate_signature : NativeSignature → Outcome (Unit {0})
unfolding lacks_metadata is_overconfident lacks_policy
validate_signature signature =
    if lacks_metadata signature
    then fail (text "signature " ++ (signature.id ++ text " is missing required metadata"))
    else if is_overconfident signature
    then fail
        (text "broad signature " ++ (signature.id ++ text " must be low confidence/review-only"))
    else if lacks_policy signature
    then fail (
        text "confirmed signature "
        ++ (signature.id ++ text " must use an explicit blocking/quarantine policy"))
    else if is_none signature.file_types
    then fail (text "signature " ++ (signature.id ++ text " must declare file_types"))
    else if is_blank signature.pattern
    then fail (text "signature " ++ (signature.id ++ text " must include a non-empty pattern"))
    else ok tt

unfoldable pub validate_signatures : List NativeSignature → Outcome (Unit {0})
unfolding validate_signature
validate_signatures [] = ok tt
validate_signatures (signature ∷ rest) = validate_signature signature >> validate_signatures rest

unfoldable pub verdict_from_action_policy : Text → Verdict
verdict_from_action_policy action_policy =
    if is_one_of action_policy block_actions
    then confirmed_malware
    else if text_eq action_policy (text "review_or_block_by_policy")
    then suspicious
    else observation

-- `sort_by(|left, right| left.id.cmp(&right.id))`, a stable sort
unfoldable pub insert_by_id : NativeSignature → List NativeSignature → List NativeSignature
unfolding text_compare
insert_by_id s [] = s ∷ []
insert_by_id s (t ∷ rest) =
    let later = insert_by_id s rest in
    elim (text_compare s.id t.id) [ Ordering.gt ↦ t ∷ later | _ ↦ s ∷ t ∷ rest ]

unfoldable pub sort_by_id : List NativeSignature → List NativeSignature
unfolding insert_by_id
sort_by_id [] = []
sort_by_id (s ∷ rest) = insert_by_id s (sort_by_id rest)

-- What the crates `sha2` and `serde_json` do, as parameters: the hash in hexadecimal, and the bytes
-- of a JSON object with the fields format, version, compiler_version, created_at and signatures.
pub record PackCode : Type 0 where
  pub sha256_bytes : List ℕ → Text
  pub object_bytes : Text → Text → Option Text → Option ℕ → List NativeSignature → Outcome (List ℕ)

module _ (code : PackCode) where
  open code use {sha256_bytes, object_bytes}

  -- the bytes of the pack without its own hash
  unfoldable pub canonical_pack_bytes : SignaturePack → Outcome (List ℕ)
  canonical_pack_bytes pack =
      object_bytes pack.format pack.version pack.compiler_version pack.created_at pack.signatures

  abbrev check_hash : List ℕ → Option Text → Outcome (Unit {0})
  check_hash canonical_bytes none = ok tt
  check_hash canonical_bytes (some expected) =
      if eq_ignore_ascii_case expected (sha256_bytes canonical_bytes)
      then ok tt
      else fail (text "signature pack hash mismatch")

  unfoldable pub verify_pack : SignaturePack → List ℕ → Outcome (Unit {0})
  unfolding signature_pack_format
  verify_pack pack canonical_bytes =
      if not (text_eq pack.format signature_pack_format)
      then fail (text "unsupported signature pack format " ++ pack.format)
      else if is_blank pack.version
      then fail (text "signature pack version is required")
      else check_hash canonical_bytes pack.pack_sha256

  -- the pack before it has its hash
  unfoldable pub unhashed_pack : Text → ℕ → Text → List NativeSignature → SignaturePack
  unfolding signature_pack_format
  unhashed_pack compiler_version now version signatures = record {
    format = signature_pack_format;
    version = version;
    compiler_version = some compiler_version;
    created_at = some now;
    pack_sha256 = none;
    signatures = signatures;
  }

  unfoldable pub metadata_of : Text → ℕ → Text → List NativeSignature → Text → SignaturePackMetadata
  unfolding signature_pack_format broad_signature_count
  metadata_of compiler_version now version signatures pack_sha256 = record {
    format = signature_pack_format;
    version = version;
    compiler_version = compiler_version;
    signature_count = length signatures;
    pack_sha256 = pack_sha256;
    created_at = now;
    broad_signature_count = broad_signature_count signatures;
    confirmed_signature_count =
        count_if (λ signature. is_confirmed signature.confidence) signatures;
  }

  -- `now` is the clock and `compiler_version` the version of the crate
  unfoldable pub compile_pack :
      Text → ℕ → List NativeSignature → Text → Outcome (SignaturePack × SignaturePackMetadata)
  unfolding sort_by_id validate_signatures canonical_pack_bytes unhashed_pack metadata_of
  compile_pack compiler_version now signatures version =
      let sorted = sort_by_id signatures in
      let pack = unhashed_pack compiler_version now version sorted in
      do
        validate_signatures sorted
        canonical ← canonical_pack_bytes pack
        ok (
          record pack { pack_sha256 = some (sha256_bytes canonical) },
          metadata_of compiler_version now version sorted (sha256_bytes canonical),
        )

  unfoldable pub load_one : List NativeSignature → SignaturePack → Outcome (List NativeSignature)
  unfolding canonical_pack_bytes verify_pack
  load_one loaded pack = do
    canonical ← canonical_pack_bytes pack
    verify_pack pack canonical
    validate_signatures pack.signatures
    ok (loaded ++ pack.signatures)

  unfoldable pub load_packs :
      List NativeSignature → List SignaturePack → Outcome (List NativeSignature)
  unfolding load_one
  load_packs loaded [] = ok loaded
  load_packs loaded (pack ∷ rest) = load_one loaded pack >>= λ more. load_packs more rest

-- `SignatureDb::built_in`
abbrev pub eicar_signature : ℕ → NativeSignature
eicar_signature now = record {
  id = text "eicar_test_signature";
  name = text "EICAR safe anti-malware test file";
  version = text "1.0.0";
  category = ThreatCategory.test_threat;
  confidence = confirmed;
  severity = text "test";
  signature_type = eicar_test_signature;
  pattern = eicar_ascii;
  mask = none;
  offset = none;
  file_types = text "*" ∷ [];
  min_file_size = none;
  max_file_size = none;
  required_context = [];
  false_positive_notes = text "EICAR is a safe industry test string, not real malware.";
  action_policy = text "quarantine_if_policy_allows";
  created_at = now;
  updated_at = now;
}

unfoldable pub built_in : ℕ → List NativeSignature
built_in now = eicar_signature now ∷ []
