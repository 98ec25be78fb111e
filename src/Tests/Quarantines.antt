-- ===== src/Tests/Quarantines.antt =====
-- Quarantine at concrete inputs (core/zentor_local_core/src/quarantine).
use zentor.Prelude.{◌≡◌, refl, false, true, none, some, [], ◌∷◌, if◌then◌else◌}
use zentor.Text.{Text, text, text_eq}
use zentor.Outcome.{ok, fail}
use zentor.Quarantine.{
  QuarantineRecord, quarantined, restored, deleted, ScanResult, File, Disk, file_at, System,
  without_execution,
}
use zentor.Quarantine.Checks.{find_record, list}
use zentor.Quarantine.Store.{quarantine_file, restore, delete}
use zentor.Quarantine.Moves.{record_path}
use zentor.Quarantine.Safety.{IsRestored, IsPayload, restore-IsRestored, delete-IsPayload}
use zentor.Quarantine.Return.{restore-quarantine_file}

abbrev item : QuarantineRecord
item = record {
  quarantine_id = text "1";
  original_path = text "/home/bad.exe";
  quarantine_path = text "/q/1.avoraxq";
  sha256 = text "sha256:bad";
  file_size = 3;
  detection_name = text "Eicar";
  engine = text "fixture";
  quarantined_at = 0;
  status = quarantined;
  user_note = none;
  source = text "scanner";
  blocked_before_execution = false;
  process_started = false;
  action_taken = text "quarantined";
  process_id = none;
}

-- every hash is the bytes, and every record is read as the item
abbrev system : System
system = record {
  create_base = ok tt;
  create_parent = λ path. ok tt;
  rename_answer = λ from to. ok tt;
  permissions_answer = λ path. ok tt;
  read_answer = λ path. ok tt;
  write_answer = λ path. ok tt;
  remove_answer = λ path. ok tt;
  canonicalize = λ disk path. ok path;
  sha256_hex = λ bytes. bytes;
  print = λ r. r.quarantine_id;
  parse = λ t. some item;
  new_id = text "1";
  now = 0;
}

abbrev scan : ScanResult
scan = record { threat_name = some (text "Eicar"); scan_engine = text "fixture" }

abbrev bad : File
bad = record { bytes = text "bad"; mode = 0o755 }

abbrev before : Disk
before = (text "/home/bad.exe", bad) ∷ []

abbrev kept : File
kept = record { bytes = text "bad"; mode = 0o644 }

abbrev note : File
note = record { bytes = text "1"; mode = 0o644 }

abbrev away : Disk
away = (text "/q/1.json", note) ∷ (text "/q/1.avoraxq", kept) ∷ []

abbrev back : Disk
back = (text "/q/1.json", note) ∷ (text "/home/bad.exe", kept) ∷ []

abbrev gone : Disk
gone = (text "/q/1.json", note) ∷ []

taken : quarantine_file system (text "/q") (text "/home/bad.exe") scan before ≡ (away, ok item)
unfolding quarantine_file zentor.Quarantine.Checks.file_of file_at text_eq text
    zentor.Quarantine.Store.rename zentor.Quarantine.Store.remove_executable_permissions
    zentor.Quarantine.put zentor.Quarantine.Store.in_base zentor.Quarantine.Store.set_mode
    zentor.Quarantine.Checks.sha256_for_file zentor.Quarantine.Store.write_record
    zentor.Quarantine.Store.write zentor.Quarantine.Store.new_record zentor.Quarantine.remove
taken = refl

listed : find_record system (text "/q") (text "1") away ≡ ok item
unfolding find_record list zentor.Quarantine.Checks.is_record_of zentor.Text.drop_prefix text
    zentor.Quarantine.Checks.is_extension zentor.Path.extension
listed = refl

returned :
    restore system (text "/q") (text "1") true away ≡ (back, ok (record item { status = restored }))
unfolding restore zentor.Quarantine.Checks.restore_requires_confirmation find_record list
    zentor.Quarantine.Checks.is_record_of zentor.Text.drop_prefix text
    zentor.Quarantine.Checks.is_extension zentor.Path.extension
    zentor.Quarantine.Checks.ensure_quarantine_payload_path zentor.Path.path_starts_with
    zentor.Quarantine.Checks.ensure_payload_integrity zentor.Quarantine.Checks.file_of file_at
    zentor.Quarantine.Checks.sha256_for_file zentor.Text.eq_ignore_ascii_case
    zentor.Quarantine.Checks.is_safe_original zentor.Path.components zentor.Path.file_name
    zentor.Path.is_absolute zentor.Path.text_compare zentor.Quarantine.Checks.ensure_absent
    zentor.Quarantine.Store.in_base zentor.Quarantine.Store.rename zentor.Quarantine.Store.write
    zentor.Quarantine.Store.write_record zentor.Quarantine.exists zentor.Quarantine.put
    zentor.Quarantine.remove zentor.Text.is_empty zentor.Text.lower_byte zentor.Text.split_on
    zentor.Text.starts_with text_eq zentor.Text.to_ascii_lowercase
returned = refl

apart : text_eq (record_path system (text "/q") (text "1")) (text "/home/bad.exe") ≡ false
unfolding text_eq zentor.Quarantine.Store.in_base text
apart = refl

removed :
    delete system (text "/q") (text "1") true away ≡ (gone, ok (record item { status = deleted }))
unfolding delete find_record list zentor.Quarantine.Checks.is_record_of zentor.Text.drop_prefix text
    zentor.Quarantine.Checks.is_extension zentor.Path.extension
    zentor.Quarantine.Checks.ensure_quarantine_payload_path zentor.Path.path_starts_with
    zentor.Quarantine.Store.remove_payload zentor.Quarantine.exists file_at
    zentor.Quarantine.Store.write_record zentor.Quarantine.Store.write zentor.Quarantine.put
    zentor.Quarantine.Store.in_base zentor.Quarantine.remove zentor.Path.components
    zentor.Path.file_name zentor.Path.is_absolute zentor.Path.text_compare zentor.Text.is_empty
    zentor.Text.split_on zentor.Text.starts_with text_eq
removed = refl

restore-quarantine_file_example :
    (f : File) × (file_at before (text "/home/bad.exe") ≡ some f)
    × (file_at back (text "/home/bad.exe") ≡ some (record f { mode = without_execution f.mode }))
restore-quarantine_file_example =
    restore-quarantine_file system (text "/q") (text "/home/bad.exe") scan before away back item
      (record item { status = restored }) taken listed returned apart

restore-IsRestored_example :
    (true ≡ true)
    × ((found : QuarantineRecord) × (find_record system (text "/q") (text "1") away ≡ ok found)
        × (record item { status = restored } ≡ record found { status = restored })
        × IsRestored system (text "/q") found away back)
restore-IsRestored_example =
    restore-IsRestored system (text "/q") (text "1") true away back
      (record item { status = restored }) returned

delete-IsPayload_example :
    (true ≡ true)
    × ((found : QuarantineRecord) × (find_record system (text "/q") (text "1") away ≡ ok found)
        × (record item { status = deleted } ≡ record found { status = deleted })
        × IsPayload system (text "/q") away found.quarantine_path
        × ((q : Text)
            → text_eq (record_path system (text "/q") found.quarantine_id) q ≡ false
            → file_at gone q ≡ (if text_eq found.quarantine_path q then none else file_at away q)))
delete-IsPayload_example =
    delete-IsPayload system (text "/q") (text "1") true away gone (record item { status = deleted })
      removed

-- Where the record cannot be written, the file is away all the same, and the store does not list it.
abbrev full : System
full = record system { write_answer = λ path. fail (text "disk full") }

lost_test :
    quarantine_file full (text "/q") (text "/home/bad.exe") scan before
    ≡ ((text "/q/1.avoraxq", kept) ∷ [], fail (text "disk full"))
unfolding quarantine_file zentor.Quarantine.Checks.file_of file_at text_eq text
    zentor.Quarantine.Store.rename zentor.Quarantine.Store.remove_executable_permissions
    zentor.Quarantine.put zentor.Quarantine.Store.in_base zentor.Quarantine.Store.set_mode
    zentor.Quarantine.Checks.sha256_for_file zentor.Quarantine.Store.write_record
    zentor.Quarantine.Store.write zentor.Quarantine.remove
lost_test = refl

unlisted_test : list full (text "/q") ((text "/q/1.avoraxq", kept) ∷ []) ≡ ok []
unfolding list zentor.Quarantine.Checks.is_record_of zentor.Text.drop_prefix text
    zentor.Quarantine.Checks.is_extension zentor.Path.extension
unlisted_test = refl
