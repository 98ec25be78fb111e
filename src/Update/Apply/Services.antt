-- ===== src/Update/Apply/Services.antt =====
-- What an update leaves behind when it fails (update_applier.rs).
use zentor.Prelude.{
  ◌≡◌, ◌≢◌, refl, ap, ◌∙◌, ◌⊎◌, inl, inr, none, some, List, [], ◌∷◌, ◌++◌, All, true,
}
use zentor.Text.{Text, text}
use zentor.Outcome.{Outcome, ok, fail, panic, bind-ok, ok-inj}
use zentor.Update.Package.{Tree, read, with_context, extract_payload_to}
use zentor.Update.Package.Entries.{with_context-ok}
use zentor.Update.Rollback.{Done, snapshot_items, create_snapshot, restore_snapshot}
use zentor.Update.Rollback.Copies.{inside}
use zentor.Update.Rollback.Restored.{engine, restore_snapshot-create_snapshot}
use zentor.Update.Verifier.{VerificationPolicy, UpdatePackage, verify_package}
use zentor.Update.Apply.{
  System, Command, stop, start, Machine, stop_services, start_services, apply_payload_sections,
  snapshot_made, prepare, undone, after_restore, after_sections, replace, apply_package,
}

abbrev pub restart : List Command
restart =
    stop (text "avorax_guard_service")
    ∷ stop (text "avorax_core_service")
    ∷ start (text "avorax_core_service")
    ∷ start (text "avorax_guard_service")
    ∷ []

append_assoc : (a b c : List Command) → (a ++ b) ++ c ≡ a ++ (b ++ c)
append_assoc [] b c = refl
append_assoc (x ∷ a) b c = ap (λ t. x ∷ t) (append_assoc a b c)

-- the services were not told anything, or stopped and then started
abbrev pub Restarts : Machine → Machine × Outcome (Unit {0}) → Type 0
Restarts machine (machine', answer) =
    (machine'.commands ≡ machine.commands) ⊎ (machine'.commands ≡ machine.commands ++ restart)

module _ (machine : Machine) where
  after_restore-Restarts :
      (d : Done)
      → (after_restore d (stop_services machine)).1 ≢ panic
      → Restarts machine (after_restore d (stop_services machine))
  unfolding after_restore stop_services start_services
  after_restore-Restarts (tree, panic) h = absurd (h refl)
  after_restore-Restarts (tree, _) h = inr (append_assoc machine.commands _ _)

  after_sections-Restarts :
      (system : System) (snapshot : Tree) (d : Done)
      → (after_sections system snapshot d (stop_services machine)).1 ≢ panic
      → Restarts machine (after_sections system snapshot d (stop_services machine))
  unfolding after_sections stop_services start_services
  after_sections-Restarts system snapshot (tree, ok u) h = inr (append_assoc machine.commands _ _)
  after_sections-Restarts system snapshot (tree, fail message) h =
      after_restore-Restarts (restore_snapshot system.restore system.removals snapshot tree) h
  after_sections-Restarts system snapshot (tree, panic) h = absurd (h refl)

  replace-Restarts :
      (system : System) (o : Outcome (Tree × Tree))
      → (replace system o machine).1 ≢ panic
      → Restarts machine (replace system o machine)
  unfolding replace
  replace-Restarts system (ok (staging, snapshot)) h =
      after_sections-Restarts system snapshot
        (apply_payload_sections system.copy staging machine.installed) h
  replace-Restarts system (fail message) h = inl refl
  replace-Restarts system panic h = inl refl

module _ {Key Signature : Type 0} (system : System) (policy : VerificationPolicy)
    (update : UpdatePackage Key Signature) (machine : Machine) where
  -- `apply_package`: whatever fails, unless the call panics, either no service was told anything, or
  -- the guard and the core were told to stop and after that the core and the guard to start.
  pub apply_package-Restarts :
      (apply_package system policy update machine).1 ≢ panic
      → Restarts machine (apply_package system policy update machine)
  unfolding apply_package
  apply_package-Restarts =
      replace-Restarts machine system (prepare system policy update machine.installed)

  snapshot_made-ok :
      (d : Done) (snapshot : Tree) → snapshot_made d ≡ ok snapshot → d ≡ (snapshot, ok tt)
  snapshot_made-ok (tree, ok u) snapshot h = ap (λ t. (t, ok tt)) (ok-inj h)
  snapshot_made-ok (tree, fail message) snapshot h = cc
  snapshot_made-ok (tree, panic) snapshot h = cc

  prepare-snapshot :
      (staging snapshot : Tree)
      → prepare system policy update machine.installed ≡ ok (staging, snapshot)
      → create_snapshot system.snapshot machine.installed ≡ (snapshot, ok tt)
  unfolding prepare
  prepare-snapshot staging snapshot h =
      let (verified, e1, h1) = bind-ok (verify_package policy update) _ _ h in
      let (u, e2, h2) = bind-ok (system.prepare_staging verified.manifest.package_id) _ _ h1 in
      let (archive, e3, h3) = bind-ok update.opened _ _ h2 in
      let (staged, e4, h4) = bind-ok (extract_payload_to system.extract [] archive) _ _ h3 in
      let made = snapshot_made (create_snapshot system.snapshot machine.installed) in
      let (copied, e5, last) = bind-ok (with_context _ made) _ _ h4 in
      snapshot_made-ok (create_snapshot system.snapshot machine.installed) snapshot
        (with_context-ok _ made copied e5 ∙ ap (λ o. ok o) (ap (λ p. p.1) (ok-inj last)))

  -- `apply_package`: let the package be verified, extracted and the snapshot made, let the copying of
  -- its payload fail, and let the snapshot be brought back without an error. Then the call answers
  -- that the update was undone, each of the four items of the snapshot that was a file has its
  -- contents as before, and where `engine` was a folder with a file in it, what lies below it is as
  -- before.
  pub apply_package-undone :
      (staging snapshot broken restored : Tree) (message : Text)
      → prepare system policy update machine.installed ≡ ok (staging, snapshot)
      → apply_payload_sections system.copy staging machine.installed ≡ (broken, fail message)
      → restore_snapshot system.restore system.removals snapshot broken ≡ (restored, ok tt)
      → ((apply_package system policy update machine).1 ≡ undone)
        × All
            (λ item.
              (c : Text)
              → read machine.installed item ≡ some c
              → read (apply_package system policy update machine).0.installed item ≡ some c)
            snapshot_items
        × ((path c : Text)
            → read machine.installed engine ≡ none
            → inside engine path ≡ true
            → read machine.installed path ≡ some c
            → (q : Text) → inside engine q ≡ true
            → read (apply_package system policy update machine).0.installed q
              ≡ read machine.installed q)
  unfolding apply_package replace after_sections after_restore start_services
  apply_package-undone staging snapshot broken restored message prepared failed back =
      let (files, folder, rest) =
        restore_snapshot-create_snapshot system.snapshot system.restore system.removals
          machine.installed broken snapshot restored (prepare-snapshot staging snapshot prepared)
          back in
      rw (prepared, failed, back) (refl, files, folder)
