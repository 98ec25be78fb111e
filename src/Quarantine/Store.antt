-- ===== src/Quarantine/Store.antt =====
-- The operations of `QuarantineStore` that change the disk
-- (core/zentor_local_core/src/quarantine/quarantine_store.rs).
use zentor.Prelude.{ℕ, Bool, Option, none, some, ◌++◌, length, if◌then◌else◌, false}
use zentor.Text.{Text, text}
use zentor.Outcome.{Outcome, ok, fail, panic, ensure}
use zentor.Quarantine.{
  quarantined, restored, deleted, QuarantineRecord, ScanResult, File, Disk, file_at, remove, put,
  exists, without_execution, System,
}
use zentor.Quarantine.Act.{Act, ◌>>=◌, ◌>>◌, lift, asks}
use zentor.Quarantine.Checks.{
  quarantine_extension, file_of, restore_requires_confirmation, is_safe_original, sha256_for_file,
  find_record, ensure_quarantine_payload_path, ensure_payload_integrity, ensure_absent,
}

abbrev pub moved : Text → Text → Disk → Option File → Outcome (Unit {0}) → Disk × Outcome (Unit {0})
moved from to disk none answer = (disk, fail (text "No such file: " ++ from))
moved from to disk (some f) (ok u) = (put to f (remove from disk), ok tt)
moved from to disk (some f) (fail message) = (disk, fail message)
moved from to disk (some f) panic = (disk, panic)

abbrev or_else : Option Text → Text → Text
or_else none t = t
or_else (some s) t = s

abbrev mode_or : Option File → ℕ
mode_or none = 0o644
mode_or (some f) = f.mode

-- `fs::write`: a file that is there keeps its permissions
abbrev pub written : Text → Text → Disk → Outcome (Unit {0}) → Disk × Outcome (Unit {0})
written path bytes disk (ok u) =
    (put path (record { bytes = bytes; mode = mode_or (file_at disk path) }) disk, ok tt)
written path bytes disk (fail message) = (disk, fail message)
written path bytes disk panic = (disk, panic)

abbrev pub mode_set : ℕ → Text → Disk → Option File → Disk × Outcome (Unit {0})
mode_set mode path disk none = (disk, fail (text "No such file: " ++ path))
mode_set mode path disk (some f) = (put path (record f { mode = mode }) disk, ok tt)

unfoldable pub set_mode : Text → ℕ → Act (Unit {0})
set_mode path mode disk = mode_set mode path disk (file_at disk path)

-- `fs::remove_file`, which does not remove a folder
abbrev pub removed : Text → Disk → Option File → Outcome (Unit {0}) → Disk × Outcome (Unit {0})
removed path disk none answer = (disk, fail (text "No such file: " ++ path))
removed path disk (some f) (ok u) = (remove path disk, ok tt)
removed path disk (some f) (fail message) = (disk, fail message)
removed path disk (some f) panic = (disk, panic)

unfoldable pub new_record : System → Text → Text → Text → File → ScanResult → QuarantineRecord
new_record system path quarantine_path sha256 metadata result = record {
  quarantine_id = system.new_id;
  original_path = path;
  quarantine_path = quarantine_path;
  sha256 = sha256;
  file_size = length metadata.bytes;
  detection_name = or_else result.threat_name (text "Detected threat");
  engine = result.scan_engine;
  quarantined_at = system.now;
  status = quarantined;
  user_note = none;
  source = text "scanner";
  blocked_before_execution = false;
  process_started = false;
  action_taken = text "quarantined";
  process_id = none;
}

module _ (system : System) (base : Text) where
  unfoldable pub in_base : Text → Text
  in_base name = base ++ (text "/" ++ name)

  unfoldable pub rename : Text → Text → Act (Unit {0})
  rename from to disk = moved from to disk (file_at disk from) (system.rename_answer from to)

  unfoldable pub write : Text → Text → Act (Unit {0})
  write path bytes disk = written path bytes disk (system.write_answer path)

  unfoldable pub remove_executable_permissions : Text → Act (Unit {0})
  remove_executable_permissions path = do
    file ← asks (λ disk. file_of disk path)
    lift (system.permissions_answer path)
    set_mode path (without_execution file.mode)

  unfoldable pub write_record : QuarantineRecord → Act (Unit {0})
  write_record record' =
      write (in_base (record'.quarantine_id ++ text ".json")) (system.print record')

  unfoldable pub quarantine_file : Text → ScanResult → Act QuarantineRecord
  quarantine_file path result = do
    lift system.create_base
    let quarantine_path = in_base (system.new_id ++ (text "." ++ quarantine_extension))
    metadata ← asks (λ disk. file_of disk path)
    rename path quarantine_path
    remove_executable_permissions quarantine_path
    quarantined_sha256 ← asks (λ disk. sha256_for_file system base disk quarantine_path)
    let record' = new_record system path quarantine_path quarantined_sha256 metadata result
    write_record record'
    lift (ok record')

  unfoldable pub restore : Text → Bool → Act QuarantineRecord
  restore id confirmed = do
    lift (restore_requires_confirmation id confirmed)
    item ← asks (find_record system base id)
    asks (ensure_quarantine_payload_path system base item.quarantine_path)
    asks (ensure_payload_integrity system base item item.quarantine_path)
    lift (ensure (is_safe_original item.original_path) (text "unsafe original restore path"))
    asks (ensure_absent item.original_path)
    lift (system.create_parent item.original_path)
    rename item.quarantine_path item.original_path
    write_record (record item { status = restored })
    lift (ok (record item { status = restored }))

  unfoldable pub remove_payload : Text → Act (Unit {0})
  remove_payload path disk =
      if exists disk path
      then removed path disk (file_at disk path) (system.remove_answer path)
      else (disk, ok tt)

  unfoldable pub delete : Text → Bool → Act QuarantineRecord
  delete id confirmed = do
    lift (ensure confirmed (text "delete requires explicit confirmation"))
    item ← asks (find_record system base id)
    asks (ensure_quarantine_payload_path system base item.quarantine_path)
    remove_payload item.quarantine_path
    write_record (record item { status = deleted })
    lift (ok (record item { status = deleted }))
