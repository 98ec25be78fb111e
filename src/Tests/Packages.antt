-- ===== src/Tests/Packages.antt =====
-- Update packages at concrete inputs (core/avorax_update_service/src).
use zentor.Prelude.{
  ◌≡◌, ◌≢◌, refl, sym, ap, ◌∙◌, ◌++◌, true, false, none, some, [], ◌∷◌, map, All, Any,
}
use zentor.Text.{Text, text, text_eq}
use zentor.Outcome.{ok, fail, ok-inj}
use zentor.Update.Package.{
  Entry, PayloadHashes, Tree, read, safe_relative_path, verify_payload_hashes, extract_payload_to,
  payload_path, forward,
}
use zentor.Update.Package.SafePath.{Stays, safe_relative_path-Stays}
use zentor.Update.Package.Payload.{IsPlain, Lists}
use zentor.Update.Manifest.{UpdateManifest, UpdateComponentSet, dev, stable}
use zentor.Update.Verifier.{
  Environment, VerificationPolicy, UpdatePackage, VerifiedUpdate, verify_package, production,
  development, filter_blank, default_dev_public_key_hex, configured_public_keys,
}
use zentor.Update.Verifier.Accepted.{
  IsAdmitted, IsSigned, verify_package-extract, verify_package-production,
}

dotted : safe_relative_path (text "app/./Avorax.exe") ≡ ok (text "app/Avorax.exe")
unfolding safe_relative_path zentor.Path.is_absolute zentor.Update.Package.push_components
    zentor.Path.components zentor.Update.Package.push_part
dotted = refl

safe_relative_path-Stays_example : Stays (text "app/Avorax.exe")
safe_relative_path-Stays_example =
    safe_relative_path-Stays (text "app/./Avorax.exe") (text "app/Avorax.exe") dotted

-- a path out of the folder
escaping_test :
    safe_relative_path (text "app/../../x") ≡ fail (text "unsafe payload path: app/../../x")
unfolding safe_relative_path zentor.Path.is_absolute zentor.Update.Package.push_components
    zentor.Path.components
escaping_test = refl

-- every hash is the text itself
abbrev pub hashes : PayloadHashes
hashes = (text "app/Avorax.exe", text "new") ∷ []

abbrev pub program : Entry
program = record { name = text "payload/app/Avorax.exe"; contents = ok (text "new") }

-- A second entry for the same file passes the verification unless the names are plain, and replaces
-- the verified contents when the package is extracted.
abbrev shadow : Entry
shadow = record { name = text "payload/app/./Avorax.exe"; contents = ok (text "evil") }

shadow_verified_test :
    verify_payload_hashes (λ t. t) (ok (ok program ∷ ok shadow ∷ [])) hashes ≡ ok tt
unfolding verify_payload_hashes zentor.Update.Package.is_empty_map
    zentor.Update.Package.verify_hashes zentor.Update.Package.verify_listed safe_relative_path
    zentor.Path.is_absolute forward zentor.Text.replace_byte zentor.Update.Package.push_components
    zentor.Path.components zentor.Update.Package.push_part
    zentor.Update.Package.hash_archive_entry_by_normalized_name zentor.Text.eq_ignore_ascii_case
    zentor.Update.Package.verify_entries zentor.Update.Package.verify_entry
    zentor.Update.Package.is_payload_file zentor.Text.ends_with zentor.Text.cut_from
    zentor.Text.is_empty zentor.Text.lower_byte zentor.Text.split_on zentor.Text.starts_with text
    text_eq zentor.Text.to_ascii_lowercase zentor.Text.trim_start_matches
    zentor.Update.Package.contains_key payload_path zentor.Update.Package.verify_key
shadow_verified_test = refl

shadow_extracted_test :
    extract_payload_to (λ path. ok tt) [] (ok program ∷ ok shadow ∷ [])
    ≡ ok ((text "app/Avorax.exe", text "evil") ∷ (text "app/Avorax.exe", text "new") ∷ [])
unfolding extract_payload_to zentor.Update.Package.extract_entry
    zentor.Update.Package.is_payload_file zentor.Text.starts_with text zentor.Update.Package.forward
    zentor.Text.replace_byte zentor.Text.ends_with zentor.Update.Package.extract_file
    zentor.Update.Package.payload_path safe_relative_path zentor.Path.is_absolute
    zentor.Text.trim_start_matches zentor.Update.Package.push_components zentor.Path.components
    zentor.Update.Package.push_part
shadow_extracted_test = refl

abbrev pub manifest : UpdateManifest
manifest = record {
  product = text "Avorax Anti-Virus";
  package_format_version = 1;
  version = text "0.2.12";
  previous_min_version = text "0.2.10";
  channel = dev;
  release_date = text "2026-05-31T00:00:00Z";
  package_id = text "dev-package";
  components = record {
    app = true;
    core_service = true;
    guard_service = true;
    update_service = false;
    native_engine_assets = true;
    signatures = true;
    rules = true;
    ml_model = true;
    trust_packs = true;
    docs = true;
    driver_tools = false;
  };
  requires_restart = true;
  requires_reboot = false;
  requires_admin = true;
  driver_update_included = false;
  migration_steps = [];
  rollback_supported = true;
  payload_hashes = hashes;
  package_sha256 = [];
  signature_algorithm = text "ed25519";
  public_key_id = text "avorax-dev-ed25519";
  release_notes_url = none;
}

-- the key is the text of the default key, under which one signature passes
abbrev pub update : UpdatePackage Text Text
update = record {
  opened = ok (ok program ∷ []);
  read_manifest = ok manifest;
  manifest_bytes_and_signature = ok (text "{}", text "signed");
  package_sha256 = ok (text "aa");
  sha256 = λ t. t;
  decode_key = λ hex. ok hex;
  verify = λ key bytes signature. text_eq key default_dev_public_key_hex;
}

abbrev pub unset : Environment
unset = record {
  allow_development_updates = none;
  public_key_id = none;
  public_key_hex = none;
  build_public_key_hex = none;
}

abbrev verified : VerifiedUpdate
verified = record { manifest = manifest; verified_sha256 = text "aa" }

abbrev folder : Tree
folder = (text "app/Avorax.exe", text "new") ∷ []

accepted : verify_package (development unset (text "0.2.11")) update ≡ ok verified
unfolding verify_package zentor.Update.Verifier.verify_manifest
    zentor.Update.Manifest.validate_static_fields text_eq text zentor.Text.Space.is_blank
    zentor.Update.Verifier.channel_eq development zentor.Update.compare_versions
    zentor.Text.split_on zentor.Text.trim_start_bytes
    zentor.Update.Verifier.verify_manifest_signature zentor.Update.Verifier.get_key
    configured_public_keys filter_blank verify_payload_hashes zentor.Update.Package.is_empty_map
    zentor.Path.components zentor.Path.is_absolute zentor.Text.Space.space_width
    zentor.Text.Space.trim zentor.Text.Space.trim_end zentor.Text.Space.trim_from
    zentor.Text.Space.trim_start zentor.Text.cut_from zentor.Text.ends_with
    zentor.Text.eq_ignore_ascii_case zentor.Text.is_empty zentor.Text.lower_byte
    zentor.Text.replace_byte zentor.Text.starts_with zentor.Text.to_ascii_lowercase
    zentor.Text.trim_start_matches zentor.Update.Package.contains_key forward
    zentor.Update.Package.hash_archive_entry_by_normalized_name
    zentor.Update.Package.is_payload_file payload_path zentor.Update.Package.push_components
    zentor.Update.Package.push_part safe_relative_path zentor.Update.Package.verify_entries
    zentor.Update.Package.verify_entry zentor.Update.Package.verify_hashes
    zentor.Update.Package.verify_key zentor.Update.Package.verify_listed zentor.Update.compare_parts
    zentor.Update.parse_u64 zentor.Update.version_parts
accepted = refl

extracted : extract_payload_to (λ path. ok tt) [] (map ok (program ∷ [])) ≡ ok folder
unfolding extract_payload_to zentor.Update.Package.extract_entry
    zentor.Update.Package.is_payload_file zentor.Text.starts_with text zentor.Update.Package.forward
    zentor.Text.replace_byte zentor.Text.ends_with zentor.Update.Package.extract_file
    zentor.Update.Package.payload_path safe_relative_path zentor.Path.is_absolute
    zentor.Text.trim_start_matches zentor.Update.Package.push_components zentor.Path.components
    zentor.Update.Package.push_part
extracted = refl

program_path : payload_path (forward program.name) ≡ ok (text "app/Avorax.exe")
unfolding payload_path safe_relative_path zentor.Path.is_absolute zentor.Text.trim_start_matches
    forward zentor.Text.replace_byte zentor.Update.Package.push_components zentor.Path.components
    zentor.Update.Package.push_part
program_path = refl

plain : All IsPlain (program ∷ [])
unfolding forward text zentor.Text.replace_byte
plain =
    (λ path payload target. ap (λ t. text "payload/" ++ t) (ok-inj (sym program_path ∙ target)), tt)

verify_package-extract_example :
    IsAdmitted (development unset (text "0.2.11")) update manifest
    × IsSigned (development unset (text "0.2.11")) update manifest
    × ((path contents : Text)
        → read folder path ≡ some contents
        → Any (Lists (λ t. t) path contents) hashes)
verify_package-extract_example =
    verify_package-extract (development unset (text "0.2.11")) update verified (program ∷ [])
      (λ path. ok tt) folder accepted refl plain (tt, tt) extracted

no_id : filter_blank unset.public_key_id ≡ none
unfolding filter_blank
no_id = refl

verify_package-production_example :
    verify_package (production unset (text "0.2.11")) update ≢ ok verified
verify_package-production_example =
    verify_package-production unset update (text "0.2.11") verified no_id

-- With an identifier and no key the key for development is held under that identifier.
misconfigured_test :
    configured_public_keys (record unset { public_key_id = some (text "avorax-2026") })
    ≡ (text "avorax-2026", default_dev_public_key_hex) ∷ []
unfolding configured_public_keys text filter_blank zentor.Text.Space.is_blank
misconfigured_test = refl
