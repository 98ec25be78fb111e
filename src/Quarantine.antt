-- ===== src/Quarantine.antt =====
-- core/zentor_local_core/src/quarantine: files that are moved away, brought back or deleted, and the
-- record of each. A disk is a list of its files by their paths; folders are not kept. What the file
-- system answers, the resolving of links, SHA-256, JSON, identifiers and times are parameters.
pub mod Act
pub mod Checks
pub mod Store
pub mod Moves
pub mod Safety
pub mod Return
use zentor.Prelude.{
  ℕ, Bool, ◌||◌, ◌-◌, ◌*◌, ◌/◌, ◌%◌, not, Option, none, some, List, [], ◌∷◌, ◌++◌, any, keep, ◌==◌,
  if◌then◌else◌,
}
use zentor.Text.{Text, text, text_eq, starts_with}
use zentor.Outcome.{Outcome}

pub data QuarantineStatus : Type 0 where
  quarantined restored deleted : QuarantineStatus

pub record QuarantineRecord : Type 0 where
  pub quarantine_id : Text
  pub original_path : Text
  pub quarantine_path : Text
  pub sha256 : Text
  pub file_size : ℕ
  pub detection_name : Text
  pub engine : Text
  pub quarantined_at : ℕ
  pub status : QuarantineStatus
  pub user_note : Option Text
  pub source : Text
  pub blocked_before_execution : Bool
  pub process_started : Bool
  pub action_taken : Text
  pub process_id : Option ℕ

-- what is read of a `ScanResult`
pub record ScanResult : Type 0 where
  pub threat_name : Option Text
  pub scan_engine : Text

-- a file with the bits of its permissions
pub record File : Type 0 where
  pub bytes : Text
  pub mode : ℕ

abbrev pub Disk : Type 0
Disk = List (Text × File)

unfoldable pub file_at : Disk → Text → Option File
file_at [] path = none
file_at ((p, f) ∷ rest) path =
    let later = file_at rest path in if text_eq p path then some f else later

unfoldable pub remove : Text → Disk → Disk
remove path disk = keep (λ p. not (text_eq p.0 path)) disk

unfoldable pub put : Text → File → Disk → Disk
put path f disk = (path, f) ∷ remove path disk

-- `path.exists()`: a file, or a folder of one
unfoldable pub exists : Disk → Text → Bool
exists disk path = any (λ p. text_eq p.0 path || starts_with p.0 (path ++ text "/")) disk

-- `mode & !0o111`
abbrev pub without_execution : ℕ → ℕ
without_execution mode = mode - mode % 2 - 8 * (mode / 8 % 2) - 64 * (mode / 64 % 2)

-- what the system answers to each use of it; `canonicalize` resolves the links of a path on a disk
pub record System : Type 0 where
  pub create_base : Outcome (Unit {0})
  pub create_parent : Text → Outcome (Unit {0})
  pub rename_answer : Text → Text → Outcome (Unit {0})
  pub permissions_answer : Text → Outcome (Unit {0})
  pub read_answer : Text → Outcome (Unit {0})
  pub write_answer : Text → Outcome (Unit {0})
  pub remove_answer : Text → Outcome (Unit {0})
  pub canonicalize : Disk → Text → Outcome Text
  pub sha256_hex : Text → Text
  pub print : QuarantineRecord → Text
  pub parse : Text → Option QuarantineRecord
  pub new_id : Text
  pub now : ℕ
