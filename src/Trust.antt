-- ===== src/Trust.antt =====
-- core/zentor_native_engine/src/trust: what makes the engine trust or distrust a file beforehand.
-- Whether a file has a valid Microsoft signature is asked of PowerShell, a parameter of the model.
pub mod Stores
use zentor.Prelude.{
  Bool, true, false, ◌&&◌, ◌||◌, not, Option, none, some, List, [], ◌∷◌, ◌++◌, map, any, ℕ, length,
  ◌==◌, if◌then◌else◌,
}
use Prim.Native.Nat.{Ordering}
use zentor.Text.{
  Text, text, text_eq, is_one_of, contains, contains_any, starts_with, ends_with, replace_byte,
  to_ascii_lowercase, eq_ignore_ascii_case, trim_end_bytes,
}
use zentor.Path.{file_name, text_compare, path_starts_with}

-- allowlist.rs
pub record Allowlist : Type 0 where
  pub hashes : List Text
  pub paths : List Text

unfoldable pub empty_allowlist : Allowlist
empty_allowlist = record { hashes = []; paths = [] }

unfoldable pub allowlist_contains : Allowlist → Text → Text → Bool
unfolding eq_ignore_ascii_case path_starts_with
allowlist_contains list path sha256 =
    any (λ hash. eq_ignore_ascii_case hash sha256) list.hashes
    || any (path_starts_with path) list.paths

unfoldable pub add_hash : Text → Allowlist → Allowlist
add_hash sha256 list = record list { hashes = list.hashes ++ sha256 ∷ [] }

unfoldable pub validate_path : Text → Bool
validate_path path = not (
    is_one_of (to_ascii_lowercase (trim_end_bytes (λ b. b == b'\\' || b == b'/') path)) (
      text "c:"
      ∷ text "c:\\windows"
      ∷ text "c:\\program files"
      ∷ text "c:\\program files (x86)"
      ∷ text ""
      ∷ text "/"
      ∷ text "/system"
      ∷ text "/usr"
      ∷ text "/bin"
      ∷ text "/sbin"
      ∷ text "/etc"
      ∷ []))

-- known_good.rs and known_bad.rs: a `BTreeSet` of hashes, sorted and without repetition
abbrev pub HashStore : Type 0
HashStore = List Text

unfoldable pub insert_hash : Text → HashStore → HashStore
unfolding text_compare
insert_hash h [] = h ∷ []
insert_hash h (k ∷ rest) =
    let later = insert_hash h rest in
    elim (text_compare h k) [
      | Ordering.lt ↦ h ∷ k ∷ rest
      | Ordering.eq ↦ k ∷ rest
      | Ordering.gt ↦ k ∷ later
    ]

-- the set of the hashes that were read, in lower case
unfoldable pub store_of : List Text → HashStore
unfolding insert_hash to_ascii_lowercase
store_of [] = []
store_of (h ∷ rest) = insert_hash (to_ascii_lowercase h) (store_of rest)

unfoldable pub store_contains : HashStore → Text → Bool
unfolding text_eq to_ascii_lowercase
store_contains store sha256 = any (text_eq (to_ascii_lowercase sha256)) store

unfoldable pub store_count : HashStore → ℕ
store_count store = length store

-- zentor_trust.rs
abbrev own_folders : List Text
own_folders =
    text "\\program files\\avorax\\"
    ∷ text "\\program files\\zentor\\"
    ∷ text "\\programdata\\avorax\\"
    ∷ text "\\programdata\\zentor\\"
    ∷ text "\\avorax\\quarantine\\"
    ∷ text "\\avorax-quarantine\\"
    ∷ text "\\avorax-native-quarantine\\"
    ∷ text "\\zentor-quarantine\\"
    ∷ text "\\zentor-native-quarantine\\"
    ∷ text "\\apps\\zentor_client\\"
    ∷ text "\\core\\zentor_"
    ∷ text "\\assets\\zentor_native\\"
    ∷ text "\\installer\\windows\\"
    ∷ []

unfoldable pub is_zentor_path : Text → Bool
is_zentor_path path = contains_any (to_ascii_lowercase (replace_byte b'/' b'\\' path)) own_folders

abbrev is_installer_name : Text → Bool
is_installer_name name =
    (starts_with name (text "avorax-antivirus-") || starts_with name (text "zentor-antivirus-"))
    && (ends_with name (text "-setup.exe")
        || ends_with name (text "-x64.msi")
        || ends_with name (text ".msi"))

abbrev on_name : Option Text → Bool
on_name none = false
on_name (some name) = is_installer_name (to_ascii_lowercase name)

unfoldable pub has_zentor_artifact_name : Text → Bool
has_zentor_artifact_name path = on_name (file_name path)

-- microsoft_trust.rs
unfoldable pub is_windows_system_path : Text → Bool
is_windows_system_path path =
    starts_with (to_ascii_lowercase path) (text "c:\\windows\\system32\\")
    || starts_with (to_ascii_lowercase path) (text "c:\\windows\\syswow64\\")

-- publisher_trust.rs; `signed` is whether the file has a valid Microsoft signature
pub data TrustedPublisher : Type 0 where
  microsoft avorax : TrustedPublisher

unfoldable pub trusted_publisher_for : Bool → Text → Option TrustedPublisher
unfolding is_zentor_path has_zentor_artifact_name
trusted_publisher_for signed path =
    if signed
    then some microsoft
    else if is_zentor_path path || has_zentor_artifact_name path
    then some avorax
    else none

-- as `scan_bytes_at` of engine.rs asks for it
unfoldable pub is_trusted_local : Bool → Text → Bool
unfolding is_zentor_path has_zentor_artifact_name is_windows_system_path
is_trusted_local signed path =
    has_zentor_artifact_name path || is_zentor_path path || (is_windows_system_path path && signed)
