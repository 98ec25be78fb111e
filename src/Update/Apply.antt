-- ===== src/Update/Apply.antt =====
-- core/avorax_update_service/src/{update_applier,service_control}.rs: a package is verified, extracted
-- and copied over the installed program, which comes back from its snapshot if that fails.
pub mod Services
use zentor.Prelude.{List, [], ◌∷◌, ◌++◌}
use zentor.Text.{Text, text}
use zentor.Outcome.{Outcome, ok, fail, panic, ◌>>=◌, ◌>>◌}
use zentor.Update.Package.{Tree, with_context, extract_payload_to}
use zentor.Update.Rollback.{
  Answers, Done, and_then, below, copy_files, create_snapshot, restore_snapshot,
}
use zentor.Update.Verifier.{VerificationPolicy, UpdatePackage, verify_package}

-- what the file system answers, one function for each use of it; `prepare_staging` empties and makes
-- the folder for the package's identifier, and `write_log` writes the report
pub record System : Type 0 where
  pub prepare_staging : Text → Outcome (Unit {0})
  pub extract : Answers
  pub snapshot : Answers
  pub copy : Answers
  pub restore : Answers
  pub removals : Answers
  pub write_log : Outcome (Unit {0})

-- what a service is told, by the name of the service
pub data Command : Type 0 where
  stop start : Text → Command

-- the installed program, and what its services were told so far; whether a service obeyed is not
-- looked at
pub record Machine : Type 0 where
  pub installed : Tree
  pub commands : List Command

unfoldable pub stop_services : Machine → Machine
stop_services machine = record machine {
  commands =
      machine.commands
      ++ (stop (text "avorax_guard_service") ∷ stop (text "avorax_core_service") ∷ []);
}

unfoldable pub start_services : Machine → Machine
start_services machine = record machine {
  commands =
      machine.commands
      ++ (start (text "avorax_core_service") ∷ start (text "avorax_guard_service") ∷ []);
}

-- a section that is not in the package has no files
unfoldable pub copy_payload_section : Answers → Tree → Text → Text → Tree → Done
copy_payload_section answers staging section destination installed =
    copy_files answers destination (below section staging) installed

unfoldable pub apply_payload_sections : Answers → Tree → Tree → Done
apply_payload_sections answers staging installed =
    let copy = copy_payload_section answers staging in
    and_then
      (and_then
        (and_then
          (and_then (and_then (copy (text "app") [] installed) (copy (text "services") []))
            (copy (text "engine") (text "engine")))
          (copy (text "docs") (text "docs")))
        (copy (text "tools") (text "tools")))
      (copy (text "migrations") (text "migrations"))

-- a snapshot that was made without an error
abbrev snapshot_made : Done → Outcome Tree
snapshot_made (snapshot, ok u) = ok snapshot
snapshot_made (snapshot, fail message) = fail message
snapshot_made (snapshot, panic) = panic

module _ {Key Signature : Type 0} (system : System) (policy : VerificationPolicy)
    (update : UpdatePackage Key Signature) where
  -- what is done before a service is stopped: the extracted payload and the snapshot
  unfoldable pub prepare : Tree → Outcome (Tree × Tree)
  prepare installed = do
    verified ← verify_package policy update
    system.prepare_staging verified.manifest.package_id
    archive ← update.opened
    staging ← extract_payload_to system.extract [] archive
    snapshot ←
        with_context (text "failed to create update rollback snapshot")
          (snapshot_made (create_snapshot system.snapshot installed))
    ok (staging, snapshot)

-- the error of an update that was undone
abbrev pub undone : Outcome (Unit {0})
undone = fail (text "update apply failed; rollback snapshot was restored")

-- the answer after the return of the snapshot
abbrev restore_answer : Outcome (Unit {0}) → Outcome (Unit {0})
restore_answer (ok u) = undone
restore_answer (fail message) =
    fail (text "failed to restore rollback snapshot after update apply failure")
restore_answer panic = panic

abbrev with_installed : Tree → Machine → Machine
with_installed tree machine = record machine { installed = tree }

-- the snapshot has been brought back, well or not; the report of a failure may fail itself
unfoldable pub after_restore : Done → Machine → Machine × Outcome (Unit {0})
after_restore (tree, panic) machine = (with_installed tree machine, panic)
after_restore (tree, answer) machine =
    (start_services (with_installed tree machine), restore_answer answer)

-- the sections have been copied, or not
unfoldable pub after_sections : System → Tree → Done → Machine → Machine × Outcome (Unit {0})
after_sections system snapshot (tree, ok u) machine =
    (start_services (with_installed tree machine), system.write_log)
after_sections system snapshot (tree, fail message) machine =
    after_restore (restore_snapshot system.restore system.removals snapshot tree) machine
after_sections system snapshot (tree, panic) machine = (with_installed tree machine, panic)

-- the rest of `apply_package`, by what was prepared
unfoldable pub replace : System → Outcome (Tree × Tree) → Machine → Machine × Outcome (Unit {0})
replace system (ok (staging, snapshot)) machine =
    after_sections system snapshot (apply_payload_sections system.copy staging machine.installed)
      (stop_services machine)
replace system (fail message) machine = (machine, fail message)
replace system panic machine = (machine, panic)

unfoldable pub apply_package :
    {Key Signature : Type 0}
    → System
    → VerificationPolicy
    → UpdatePackage Key Signature
    → Machine
    → Machine × Outcome (Unit {0})
apply_package system policy update machine =
    replace system (prepare system policy update machine.installed) machine
