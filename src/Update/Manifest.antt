-- ===== src/Update/Manifest.antt =====
-- core/avorax_update_service/src/update_manifest.rs: the manifest of an update package.
use zentor.Prelude.{ℕ, Bool, not, Option, List, ◌==◌, ◌++◌}
use zentor.Text.{Text, text, text_eq}
use zentor.Text.Space.{is_blank}
use zentor.Outcome.{Outcome, ensure, when, ◌>>◌}
use zentor.Update.Package.{PayloadHashes}

pub data UpdateChannel : Type 0 where
  stable beta dev : UpdateChannel

pub record UpdateComponentSet : Type 0 where
  pub app : Bool
  pub core_service : Bool
  pub guard_service : Bool
  pub update_service : Bool
  pub native_engine_assets : Bool
  pub signatures : Bool
  pub rules : Bool
  pub ml_model : Bool
  pub trust_packs : Bool
  pub docs : Bool
  pub driver_tools : Bool

pub record UpdateManifest : Type 0 where
  pub product : Text
  pub package_format_version : ℕ  -- u32
  pub version : Text
  pub previous_min_version : Text
  pub channel : UpdateChannel
  pub release_date : Text
  pub package_id : Text
  pub components : UpdateComponentSet
  pub requires_restart : Bool
  pub requires_reboot : Bool
  pub requires_admin : Bool
  pub driver_update_included : Bool
  pub migration_steps : List Text
  pub rollback_supported : Bool
  pub payload_hashes : PayloadHashes
  pub package_sha256 : Text
  pub signature_algorithm : Text
  pub public_key_id : Text
  pub release_notes_url : Option Text

abbrev pub product_name : Text
product_name = text "Avorax Anti-Virus"

abbrev pub package_format : ℕ
package_format = 1

-- The number in the message of the second check is left out.
unfoldable pub validate_static_fields : UpdateManifest → Outcome (Unit {0})
validate_static_fields manifest = do
  ensure (text_eq manifest.product product_name) (text "wrong product: " ++ manifest.product)
  ensure (manifest.package_format_version == package_format)
      (text "unsupported update package format")
  ensure (text_eq manifest.signature_algorithm (text "ed25519"))
      (text "unsupported signature algorithm: " ++ manifest.signature_algorithm)
  ensure (not manifest.driver_update_included)
      (text "driver updates require a separate explicit driver workflow")
  when manifest.rollback_supported (
      ensure (not (is_blank manifest.previous_min_version))
        (text "rollback-capable packages must declare previous_min_version"))
