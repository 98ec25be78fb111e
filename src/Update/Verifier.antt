-- ===== src/Update/Verifier.antt =====
-- core/avorax_update_service/src/update_verifier.rs: whether a package is taken for an update.
-- Opening the package, JSON, hexadecimal and Ed25519 are parameters.
pub mod Accepted
use zentor.Prelude.{
  Bool, true, false, ◌||◌, not, Option, none, some, List, [], ◌∷◌, ◌++◌, ltb, if◌then◌else◌,
}
use zentor.Prelude.Int.{ℤ, pos, pos_part}
use zentor.Text.{Text, text, text_eq, eq_ignore_ascii_case, to_ascii_lowercase, is_one_of}
use zentor.Text.Space.{trim, is_blank}
use zentor.Outcome.{Outcome, ok, fail, panic, ensure, when, ◌>>=◌, ◌>>◌}
use zentor.Update.{compare_versions}
use zentor.Update.Package.{Archive, with_context, verify_payload_hashes}
use zentor.Update.Manifest.{
  UpdateChannel, stable, beta, dev, UpdateManifest, validate_static_fields,
}

abbrev pub dev_public_key_id : Text
dev_public_key_id = text "avorax-dev-ed25519"

abbrev pub default_dev_public_key_hex : Text
default_dev_public_key_hex = text "3b6a27bcceb6a42d62a3a8d02a6f0d73653215771de243a63ac048a18b59da29"

-- `BTreeMap<String, String>`
abbrev pub PublicKeys : Type 0
PublicKeys = List (Text × Text)

pub record VerificationPolicy : Type 0 where
  pub current_version : Text
  pub channel : UpdateChannel
  pub allow_dev_key : Bool
  pub public_keys : PublicKeys

-- the variables of the environment that the policy is made from, and the one of the build
pub record Environment : Type 0 where
  pub allow_development_updates : Option Text
  pub public_key_id : Option Text
  pub public_key_hex : Option Text
  pub build_public_key_hex : Option Text

-- `filter(|value| !value.trim().is_empty())`
unfoldable pub filter_blank : Option Text → Option Text
filter_blank none = none
filter_blank (some value) = if is_blank value then none else some value

abbrev or_else : Option Text → Text → Text
or_else none t = t
or_else (some s) t = s

abbrev or_option : Option Text → Option Text → Option Text
or_option none o = o
or_option (some s) o = some s

unfoldable pub configured_public_keys : Environment → PublicKeys
configured_public_keys env =
    (
      or_else (filter_blank env.public_key_id) dev_public_key_id,
      or_else (or_option (filter_blank env.public_key_hex) (filter_blank env.build_public_key_hex))
          default_dev_public_key_hex,
    )
    ∷ []

unfoldable pub production : Environment → Text → VerificationPolicy
production env current_version = record {
  current_version = current_version;
  channel = stable;
  allow_dev_key = false;
  public_keys = configured_public_keys env;
}

unfoldable pub development : Environment → Text → VerificationPolicy
development env current_version = record {
  current_version = current_version;
  channel = dev;
  allow_dev_key = true;
  public_keys = configured_public_keys env;
}

unfoldable pub development_updates_enabled_by_environment : Environment → Bool
development_updates_enabled_by_environment env = elim env.allow_development_updates [
  | none ↦ false
  | some value ↦
      is_one_of (to_ascii_lowercase (trim value))
        (text "1" ∷ text "true" ∷ text "yes" ∷ text "on" ∷ [])
]

unfoldable pub for_cli : Environment → Text → Bool → VerificationPolicy
for_cli env current_version allow_development_updates =
    if allow_development_updates || development_updates_enabled_by_environment env
    then development env current_version
    else production env current_version

-- What the package and the libraries give: the file opened as an archive, the manifest as it is
-- parsed from it, its bytes with the decoded signature, the hash of the whole file; the decoding of
-- a key with its length checked, and the check of a signature.
pub record UpdatePackage (Key Signature : Type 0) : Type 0 where
  pub opened : Outcome Archive
  pub read_manifest : Outcome UpdateManifest
  pub manifest_bytes_and_signature : Outcome (Text × Signature)
  pub package_sha256 : Outcome Text
  pub sha256 : Text → Text
  pub decode_key : Text → Outcome Key
  pub verify : Key → Text → Signature → Bool

unfoldable pub get_key : PublicKeys → Text → Option Text
get_key [] id = none
get_key ((k, v) ∷ rest) id = let later = get_key rest id in if text_eq k id then some v else later

unfoldable pub channel_eq : UpdateChannel → UpdateChannel → Bool
channel_eq stable stable = true
channel_eq beta beta = true
channel_eq dev dev = true
channel_eq _ _ = false

pub record VerifiedUpdate : Type 0 where
  pub manifest : UpdateManifest
  pub verified_sha256 : Text

-- `get(..).with_context(..)?`
abbrev key_or_error : Text → Option Text → Outcome Text
key_or_error id none = fail (text "unknown update signing key: " ++ id)
key_or_error id (some hex) = ok hex

module _ {Key Signature : Type 0} (policy : VerificationPolicy)
    (update : UpdatePackage Key Signature) where
  unfoldable pub verify_manifest_signature : Outcome (Unit {0})
  verify_manifest_signature = do
    manifest ← update.read_manifest
    public_key_hex ←
        key_or_error manifest.public_key_id (get_key policy.public_keys manifest.public_key_id)
    key ← update.decode_key public_key_hex
    signed ← update.manifest_bytes_and_signature
    ensure (update.verify key signed.0 signed.1) (text "manifest signature verification failed")

  -- the checks of the manifest that need no more of the package
  unfoldable pub verify_manifest : UpdateManifest → Outcome (Unit {0})
  verify_manifest manifest = do
    validate_static_fields manifest
    ensure (channel_eq manifest.channel policy.channel) (text "update channel mismatch")
    ensure (ltb 0 (pos_part (compare_versions manifest.version policy.current_version)))
        (text "update package is not newer than installed version")
    when (text_eq manifest.public_key_id dev_public_key_id)
        (ensure policy.allow_dev_key (text "dev-signed update packages are rejected by this build"))

  unfoldable pub verify_package : Outcome VerifiedUpdate
  verify_package = do
    manifest ← update.read_manifest
    verify_manifest manifest
    package_hash ← update.package_sha256
    when (not (is_blank manifest.package_sha256)) (
        ensure (eq_ignore_ascii_case package_hash manifest.package_sha256)
          (text "update package SHA-256 mismatch"))
    verify_manifest_signature
    verify_payload_hashes update.sha256 update.opened manifest.payload_hashes
    ok (record { manifest = manifest; verified_sha256 = package_hash })
