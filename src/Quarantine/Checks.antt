-- ===== src/Quarantine/Checks.antt =====
-- What `QuarantineStore` reads and refuses (core/zentor_local_core/src/quarantine/quarantine_store.rs).
-- A path of the base folder is joined to it with a slash.
use zentor.Prelude.{
  Bool, true, false, ◌&&◌, ◌||◌, not, Option, none, some, List, [], ◌∷◌, ◌++◌, any, ◌==◌, length,
  if◌then◌else◌,
}
use zentor.Text.{Text, text, text_eq, eq_ignore_ascii_case, drop_prefix}
use zentor.Path.{
  Component, parent_dir, is_slash, is_absolute, components, extension, path_starts_with,
}
use zentor.Outcome.{Outcome, ok, fail, panic, ensure, ◌>>=◌, ◌>>◌}
use zentor.Quarantine.{QuarantineRecord, File, Disk, file_at, exists, System}

abbrev pub quarantine_extension : Text
quarantine_extension = text "avoraxq"

abbrev pub found : Text → Option File → Outcome File
found path none = fail (text "No such file: " ++ path)
found path (some f) = ok f

-- the file at a path, for its length or its contents
unfoldable pub file_of : Disk → Text → Outcome File
file_of disk path = found path (file_at disk path)

abbrev is_parent : Component → Bool
is_parent parent_dir = true
is_parent _ = false

-- the records found, if all of the rest could be read
abbrev add_record :
    Option QuarantineRecord → Outcome (List QuarantineRecord) → Outcome (List QuarantineRecord)
add_record none records = records
add_record (some r) (ok records) = ok (r ∷ records)
add_record (some r) (fail message) = fail message
add_record (some r) panic = panic

abbrev pub find_id : Text → List QuarantineRecord → Outcome QuarantineRecord
find_id id [] = fail (text "quarantine item not found")
find_id id (r ∷ rest) =
    let later = find_id id rest in if text_eq r.quarantine_id id then ok r else later

abbrev unit_then : {A : Type 0} → Outcome (Unit {0}) → Outcome A → Outcome A
unit_then (ok u) o = o
unit_then (fail message) o = fail message
unit_then panic o = panic

unfoldable pub restore_requires_confirmation : Text → Bool → Outcome (Unit {0})
restore_requires_confirmation id confirmed =
    ensure confirmed (text "restore requires explicit confirmation")

-- an absolute path in which no component leads upwards
unfoldable pub is_safe_original : Text → Bool
is_safe_original path = not (not (is_absolute path) || any is_parent (components path))

unfoldable pub is_extension : Text → Option Text → Bool
is_extension wanted none = false
is_extension wanted (some e) = text_eq e wanted

-- a file right in the folder, with the extension of the records
unfoldable pub is_record_of : Text → Text → Bool
is_record_of base path = elim (drop_prefix path (base ++ text "/")) [
  | none ↦ false
  | some name ↦ not (any is_slash name) && is_extension (text "json") (extension path)
]

module _ (system : System) (base : Text) where
  unfoldable pub sha256_for_file : Disk → Text → Outcome Text
  sha256_for_file disk path = do
    file ← file_of disk path
    system.read_answer path
    ok (text "sha256:" ++ system.sha256_hex file.bytes)

  -- the records of the base folder, in the order in which the disk lists them; a record that does not
  -- parse is passed over
  unfoldable pub list : Disk → Outcome (List QuarantineRecord)
  list [] = ok []
  list ((path, file) ∷ rest) =
      let later = list rest in
      if is_record_of base path
      then unit_then (system.read_answer path) (add_record (system.parse file.bytes) later)
      else later

  unfoldable pub find_record : Text → Disk → Outcome QuarantineRecord
  find_record id disk = list disk >>= find_id id

  unfoldable pub ensure_quarantine_payload_path : Text → Disk → Outcome (Unit {0})
  ensure_quarantine_payload_path path disk = do
    canonical_base ← system.canonicalize disk base
    canonical_payload ← system.canonicalize disk path
    ensure (path_starts_with canonical_payload canonical_base)
        (text "quarantine payload path escapes quarantine store")
    ensure (is_extension quarantine_extension (extension canonical_payload))
        (text "quarantine payload has unsafe extension")

  unfoldable pub ensure_payload_integrity : QuarantineRecord → Text → Disk → Outcome (Unit {0})
  ensure_payload_integrity item path disk = do
    metadata ← file_of disk path
    ensure (length metadata.bytes == item.file_size) (text "quarantine payload size mismatch")
    actual_sha256 ← sha256_for_file disk path
    ensure (eq_ignore_ascii_case item.sha256 actual_sha256)
        (text "quarantine payload hash mismatch")

unfoldable pub ensure_absent : Text → Disk → Outcome (Unit {0})
ensure_absent path disk = ensure (not (exists disk path)) (text "original path already exists")
