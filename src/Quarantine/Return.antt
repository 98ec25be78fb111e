-- ===== src/Quarantine/Return.antt =====
-- A file that is quarantined and brought back (quarantine_store.rs).
use zentor.Prelude.{
  ℕ, ◌≡◌, refl, sym, ap, ◌∙◌, true, false, Option, none, some, [], ◌∷◌, ◌++◌, arith,
}
use mathlib.Core.Option.{some-injective}
use zentor.Text.{Text, text, text_eq}
use zentor.Text.Laws.{text_eq_refl}
use zentor.Outcome.{ok, ok-inj}
use zentor.Quarantine.{QuarantineRecord, ScanResult, File, Disk, file_at, without_execution, System}
use zentor.Quarantine.Act.{act-ok, asks-ok}
use zentor.Quarantine.Checks.{quarantine_extension, file_of, sha256_for_file, find_record}
use zentor.Quarantine.Store.{
  mode_set, set_mode, new_record, in_base, rename, remove_executable_permissions, write_record,
  quarantine_file, restore,
}
use zentor.Quarantine.Moves.{file_at-put, rename-Moved, record_path, write_record-other}
use zentor.Quarantine.Safety.{one_file, IsRestored, restore-IsRestored}

text_eq-append : (s t u : Text) → text_eq (s ++ t) (s ++ u) ≡ text_eq t u
unfolding text_eq
text_eq-append [] t u = refl
text_eq-append (b ∷ s) t u = ground (arith, text_eq-append s t u)

mode_set-ok :
    (mode : ℕ) (path : Text) (disk disk' : Disk) (o : Option File) (f : File)
    → o ≡ some f
    → mode_set mode path disk o ≡ (disk', ok tt)
    → file_at disk' path ≡ some (record f { mode = mode })
mode_set-ok mode path disk disk' none f e h = cc
mode_set-ok mode path disk disk' (some g) f e h =
    ap (λ p. file_at p.0 path) (sym h)
    ∙ file_at-put path (record g { mode = mode }) disk path
    ∙ rw (text_eq_refl path, some-injective g f e) refl

module _ (system : System) (base : Text) where
  -- where the payload of an item is kept
  abbrev pub payload_path : Text → Text
  payload_path id = in_base system base (id ++ (text "." ++ quarantine_extension))

  dots_differ : text_eq (text ".json") (text "." ++ quarantine_extension) ≡ false
  unfolding text_eq text
  dots_differ = refl

  record_apart : (id : Text) → text_eq (record_path system base id) (payload_path id) ≡ false
  unfolding in_base
  record_apart id =
      text_eq-append base (text "/" ++ (id ++ text ".json")) _
      ∙ text_eq-append (text "/") (id ++ text ".json") _
      ∙ text_eq-append id (text ".json") _
      ∙ dots_differ

  permissions-ok :
      (path : Text) (disk disk' : Disk) (f : File)
      → file_at disk path ≡ some f
      → remove_executable_permissions system base path disk ≡ (disk', ok tt)
      → file_at disk' path ≡ some (record f { mode = without_execution f.mode })
  unfolding remove_executable_permissions set_mode
  permissions-ok path disk disk' f there h =
      let (g, e, h1) = asks-ok (file_of disk path) _ disk disk' tt h in
      let (u, answered, h2) = asks-ok (system.permissions_answer path) _ disk disk' tt h1 in
      let same = one_file path disk f g there e in
      mode_set-ok (without_execution g.mode) path disk disk' (file_at disk path) f there h2
      ∙ rw same refl

  quarantine_file-ok :
      (path : Text) (result : ScanResult) (disk disk' : Disk) (r : QuarantineRecord)
      → quarantine_file system base path result disk ≡ (disk', ok r)
      → (f : File) × (file_at disk path ≡ some f)
        × (file_at disk' (payload_path system.new_id)
            ≡ some (record f { mode = without_execution f.mode }))
        × (r.quarantine_id ≡ system.new_id)
        × (r.original_path ≡ path)
        × (r.quarantine_path ≡ payload_path system.new_id)
  unfolding quarantine_file new_record
  quarantine_file-ok path result disk disk' r h =
      let target : Text = payload_path system.new_id in
      let (u, made, h0) = asks-ok system.create_base _ disk disk' r h in
      let (f, e, h1) = asks-ok (file_of disk path) _ disk disk' r h0 in
      let (mid, u1, renamed, h2) = act-ok (rename system base path target) _ disk disk' r h1 in
      let (mid2, u2, cleared, h3) =
        act-ok (remove_executable_permissions system base target) _ mid disk' r h2 in
      let (hash, hashed, h4) =
        asks-ok (sha256_for_file system base mid2 target) _ mid2 disk' r h3 in
      let (mid3, u3, wrote, last) =
        act-ok (write_record system base (new_record system path target hash f result)) _ mid2 disk'
          r h4 in
      let (g, (there, moves)) = rename-Moved system base path target disk mid renamed in
      let at_target : file_at mid target ≡ some g = moves target ∙ rw (text_eq_refl target) refl in
      let same = ok-inj (ap (λ p. p.1) last) in
      (
        g,
        there,
        ap (λ p. file_at p.0 target) (sym last)
            ∙ write_record-other system base _ mid2 mid3 wrote target (record_apart system.new_id)
            ∙ permissions-ok target mid mid2 g at_target cleared,
        ap (λ k. k.quarantine_id) (sym same),
        ap (λ k. k.original_path) (sym same),
        ap (λ k. k.quarantine_path) (sym same),
      )

  -- `QuarantineStore::quarantine_file` and `QuarantineStore::restore`: a file that was quarantined, and
  -- whose record the store then lists under its identifier, stands after a restore that succeeds at
  -- its path again with the same bytes, and with its permissions less those of execution. The path is
  -- not the one that the store keeps the record at.
  pub restore-quarantine_file :
      (path : Text) (result : ScanResult) (disk disk' disk'' : Disk) (r r' : QuarantineRecord)
      → quarantine_file system base path result disk ≡ (disk', ok r)
      → find_record system base r.quarantine_id disk' ≡ ok r
      → restore system base r.quarantine_id true disk' ≡ (disk'', ok r')
      → text_eq (record_path system base r.quarantine_id) path ≡ false
      → (f : File) × (file_at disk path ≡ some f)
        × (file_at disk'' path ≡ some (record f { mode = without_execution f.mode }))
  restore-quarantine_file path result disk disk' disk'' r r' taken listed back apart =
      let (f, there, kept, id, original, payload) =
        quarantine_file-ok path result disk disk' r taken in
      let (sure, (item, listed', same, restored)) =
        restore-IsRestored system base r.quarantine_id true disk' disk'' r' back in
      let one : r ≡ item = ok-inj (sym listed ∙ listed') in
      let mine : IsRestored system base r disk' disk'' = rw one restored in
      let same_file =
        some-injective mine.file _ (sym mine.there ∙ ap (file_at disk') payload ∙ kept) in
      (f, there, mine.files path apart ∙ rw (original, text_eq_refl path) (ap some same_file))
