-- ===== src/Tests/Rollbacks.antt =====
-- Updates that fail at concrete inputs (core/avorax_update_service/src).
use zentor.Prelude.{◌≡◌, ◌≢◌, refl, false, none, some, [], ◌∷◌, All, true, if◌then◌else◌}
use zentor.Text.{Text, text, text_eq}
use zentor.Outcome.{ok, fail, panic}
use zentor.Update.Package.{Entry, Tree, read}
use zentor.Update.Rollback.{snapshot_items, create_snapshot, restore_snapshot}
use zentor.Update.Rollback.Copies.{inside}
use zentor.Update.Rollback.Copies.{touches}
use zentor.Update.Rollback.Restored.{engine, restore_snapshot-create_snapshot}
use zentor.Update.Verifier.{VerificationPolicy, UpdatePackage, development}
use zentor.Update.Apply.{System, Machine, prepare, apply_payload_sections, apply_package, undone}
use zentor.Update.Apply.Services.{Restarts, apply_package-Restarts, apply_package-undone}
use zentor.Tests.Packages.{program, manifest, update, unset}

-- the program before the update
abbrev before : Tree
before =
    (text "Avorax.exe", text "old")
    ∷ (text "engine/a.db", text "db")
    ∷ (text "docs/x", text "doc")
    ∷ []

abbrev page : Entry
page = record { name = text "payload/tools/x"; contents = ok (text "tool") }

abbrev two_files : UpdatePackage Text Text
two_files = record update {
  opened = ok (ok program ∷ ok page ∷ []);
  read_manifest = ok (record manifest {
    payload_hashes = (text "app/Avorax.exe", text "new") ∷ (text "tools/x", text "tool") ∷ [];
  });
}

-- every write succeeds but that of the tool
abbrev system : System
system = record {
  prepare_staging = λ id. ok tt;
  extract = λ path. ok tt;
  snapshot = λ path. ok tt;
  copy = λ path. if text_eq path (text "tools/x") then fail (text "disk full") else ok tt;
  restore = λ path. ok tt;
  removals = λ path. ok tt;
  write_log = ok tt;
}

abbrev staging : Tree
staging = (text "tools/x", text "tool") ∷ (text "app/Avorax.exe", text "new") ∷ []

abbrev snapshot : Tree
snapshot = (text "engine/a.db", text "db") ∷ (text "Avorax.exe", text "old") ∷ []

abbrev broken : Tree
broken = (text "Avorax.exe", text "new") ∷ before

abbrev restored : Tree
restored =
    (text "engine/a.db", text "db")
    ∷ (text "Avorax.exe", text "old")
    ∷ (text "Avorax.exe", text "new")
    ∷ (text "Avorax.exe", text "old")
    ∷ (text "docs/x", text "doc")
    ∷ []

made : create_snapshot (λ path. ok tt) before ≡ (snapshot, ok tt)
unfolding create_snapshot zentor.Update.Rollback.for_items zentor.Update.Rollback.snapshot_item
    zentor.Update.Rollback.snapshot_on read text_eq text zentor.Update.Rollback.write_file
    zentor.Update.Rollback.is_dir zentor.Update.Rollback.below zentor.Text.drop_prefix
    zentor.Update.Rollback.copy_files zentor.Update.Rollback.join_path zentor.Text.is_empty
made = refl

back : restore_snapshot (λ path. ok tt) (λ path. ok tt) snapshot broken ≡ (restored, ok tt)
unfolding restore_snapshot zentor.Update.Rollback.for_items zentor.Update.Rollback.restore_item
    zentor.Update.Rollback.restore_on read text_eq text zentor.Update.Rollback.write_file
    zentor.Update.Rollback.is_dir zentor.Update.Rollback.below zentor.Text.drop_prefix
    zentor.Update.Rollback.remove_dir zentor.Update.Rollback.copy_files
    zentor.Update.Rollback.join_path zentor.Update.Rollback.without zentor.Text.is_empty
back = refl

restore_snapshot-create_snapshot_example :
    All
      (λ item. (c : Text) → read before item ≡ some c → read restored item ≡ some c)
      snapshot_items
    × ((path c : Text)
        → read before engine ≡ none
        → inside engine path ≡ true
        → read before path ≡ some c
        → (q : Text) → inside engine q ≡ true
        → read restored q ≡ read before q)
    × ((q : Text)
        → All (λ item. touches item q ≡ false) snapshot_items
        → read restored q ≡ read broken q)
restore_snapshot-create_snapshot_example =
    restore_snapshot-create_snapshot (λ path. ok tt) (λ path. ok tt) (λ path. ok tt) before broken
      snapshot restored made back

abbrev machine : Machine
machine = record { installed = before; commands = [] }

prepared :
    prepare system (development unset (text "0.2.11")) two_files before ≡ ok (staging, snapshot)
unfolding prepare zentor.Update.Verifier.verify_package zentor.Update.Verifier.verify_manifest
    zentor.Update.Manifest.validate_static_fields text_eq text zentor.Text.Space.is_blank
    zentor.Update.Verifier.channel_eq development zentor.Update.compare_versions
    zentor.Text.split_on zentor.Text.trim_start_bytes
    zentor.Update.Verifier.verify_manifest_signature zentor.Update.Verifier.get_key
    zentor.Update.Verifier.configured_public_keys zentor.Update.Verifier.filter_blank
    zentor.Update.Package.verify_payload_hashes zentor.Path.components zentor.Path.is_absolute
    zentor.Text.Space.space_width zentor.Text.Space.trim zentor.Text.Space.trim_end
    zentor.Text.Space.trim_from zentor.Text.Space.trim_start zentor.Text.cut_from
    zentor.Text.drop_prefix zentor.Text.ends_with zentor.Text.eq_ignore_ascii_case
    zentor.Text.is_empty zentor.Text.lower_byte zentor.Text.replace_byte zentor.Text.starts_with
    zentor.Text.to_ascii_lowercase zentor.Text.trim_start_matches zentor.Update.Package.contains_key
    zentor.Update.Package.extract_entry zentor.Update.Package.extract_file
    zentor.Update.Package.extract_payload_to zentor.Update.Package.forward
    zentor.Update.Package.hash_archive_entry_by_normalized_name zentor.Update.Package.is_empty_map
    zentor.Update.Package.is_payload_file zentor.Update.Package.payload_path
    zentor.Update.Package.push_components zentor.Update.Package.push_part read
    zentor.Update.Package.safe_relative_path zentor.Update.Package.verify_entries
    zentor.Update.Package.verify_entry zentor.Update.Package.verify_hashes
    zentor.Update.Package.verify_key zentor.Update.Package.verify_listed
    zentor.Update.Rollback.below zentor.Update.Rollback.copy_files create_snapshot
    zentor.Update.Rollback.for_items zentor.Update.Rollback.is_dir zentor.Update.Rollback.join_path
    zentor.Update.Rollback.snapshot_item zentor.Update.Rollback.snapshot_on
    zentor.Update.Rollback.write_file zentor.Update.compare_parts zentor.Update.parse_u64
    zentor.Update.version_parts
prepared = refl

failed : apply_payload_sections system.copy staging before ≡ (broken, fail (text "disk full"))
unfolding apply_payload_sections zentor.Update.Apply.copy_payload_section
    zentor.Update.Rollback.copy_files zentor.Update.Rollback.below zentor.Text.drop_prefix text
    zentor.Update.Rollback.write_file text_eq zentor.Update.Rollback.join_path zentor.Text.is_empty
failed = refl

apply_package-undone_example :
    ((apply_package system (development unset (text "0.2.11")) two_files machine).1 ≡ undone)
    × All
        (λ item.
          (c : Text)
          → read before item ≡ some c
          → read
              (apply_package system
                (development unset (text "0.2.11"))
                two_files
                machine).0.installed
              item
            ≡ some c)
        snapshot_items
    × ((path c : Text)
        → read before engine ≡ none
        → inside engine path ≡ true
        → read before path ≡ some c
        → (q : Text) → inside engine q ≡ true
        → read
            (apply_package system (development unset (text "0.2.11")) two_files machine).0.installed
            q
          ≡ read before q)
apply_package-undone_example =
    apply_package-undone system (development unset (text "0.2.11")) two_files machine staging
      snapshot broken restored (text "disk full") prepared failed back

no_panic : (apply_package system (development unset (text "0.2.11")) two_files machine).1 ≢ panic
no_panic h =
    let (answer, files, folder) =
      apply_package-undone system (development unset (text "0.2.11")) two_files machine staging
        snapshot broken restored (text "disk full") prepared failed back in
    cc (h, answer)

apply_package-Restarts_example :
    Restarts machine (apply_package system (development unset (text "0.2.11")) two_files machine)
apply_package-Restarts_example =
    apply_package-Restarts system (development unset (text "0.2.11")) two_files machine no_panic
