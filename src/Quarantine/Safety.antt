-- ===== src/Quarantine/Safety.antt =====
-- What a file that is brought back or deleted was, and which files change (quarantine_store.rs).
use zentor.Prelude.{
  ◌≡◌, sym, ap, ◌∙◌, Bool, true, false, not, Option, none, some, ◌++◌, length, ◌==◌, arith,
  if◌then◌else◌, ==_iff,
}
use mathlib.Core.Option.{some-injective}
use zentor.Text.{Text, text, text_eq, eq_ignore_ascii_case}
use zentor.Path.{extension, path_starts_with}
use zentor.Outcome.{ok, ensure, ensure-ok, bind-ok, ok-inj}
use zentor.Quarantine.{restored, deleted, QuarantineRecord, File, Disk, file_at, exists, System}
use zentor.Quarantine.Act.{act-ok, asks-ok, ◌>>◌, lift}
use zentor.Quarantine.Checks.{
  quarantine_extension, found, file_of, sha256_for_file, find_record, is_safe_original,
  is_extension, restore_requires_confirmation, ensure_quarantine_payload_path,
  ensure_payload_integrity, ensure_absent,
}
use zentor.Quarantine.Store.{rename, write_record, remove_payload, restore, delete}
use zentor.Quarantine.Moves.{rename-Moved, record_path, write_record-other, remove_payload-gone}

pub found-ok : (path : Text) (o : Option File) (f : File) → found path o ≡ ok f → o ≡ some f
found-ok path none f h = cc
found-ok path (some g) f h = ap some (ok-inj h)

is_false : (b : Bool) → not b ≡ true → b ≡ false
is_false b h = ground arith

pub one_file :
    (path : Text) (disk : Disk) (f g : File)
    → file_at disk path ≡ some f
    → file_of disk path ≡ ok g
    → f ≡ g
unfolding file_of
one_file path disk f g there e =
    some-injective f g (sym there ∙ found-ok path (file_at disk path) g e)

module _ (system : System) (base : Text) where
  -- the path is that of a quarantined file of the base folder, when its links are resolved
  abbrev pub IsPayload : Disk → Text → Type 0
  IsPayload disk path =
      (folder : Text) × (target : Text) × (system.canonicalize disk base ≡ ok folder)
      × (system.canonicalize disk path ≡ ok target)
      × (path_starts_with target folder ≡ true)
      × (is_extension quarantine_extension (extension target) ≡ true)

  -- the file has the length and the hash of the record
  abbrev pub Matches : QuarantineRecord → File → Type 0
  Matches item f =
      (length f.bytes ≡ item.file_size)
      × (eq_ignore_ascii_case item.sha256 (text "sha256:" ++ system.sha256_hex f.bytes) ≡ true)

  ensure_quarantine_payload_path-IsPayload :
      (path : Text) (disk : Disk)
      → ensure_quarantine_payload_path system base path disk ≡ ok tt
      → IsPayload disk path
  unfolding ensure_quarantine_payload_path
  ensure_quarantine_payload_path-IsPayload path disk h =
      let (folder, e, h1) = bind-ok (system.canonicalize disk base) _ tt h in
      let (target, e', h2) = bind-ok (system.canonicalize disk path) _ tt h1 in
      let (u, within, last) = bind-ok (ensure (path_starts_with target folder) _) _ tt h2 in
      (
        folder,
        target,
        e,
        e',
        ensure-ok (path_starts_with target folder) _ within,
        ensure-ok (is_extension quarantine_extension (extension target)) _ last,
      )

  sha256_for_file-ok :
      (path hash : Text) (disk : Disk) (f : File)
      → sha256_for_file system base disk path ≡ ok hash
      → file_at disk path ≡ some f
      → text "sha256:" ++ system.sha256_hex f.bytes ≡ hash
  unfolding sha256_for_file
  sha256_for_file-ok path hash disk f h there =
      let (g, e, h1) = bind-ok (file_of disk path) _ hash h in
      let (u, answered, last) = bind-ok (system.read_answer path) _ hash h1 in
      ap (λ k. text "sha256:" ++ system.sha256_hex k.bytes) (one_file path disk f g there e)
      ∙ ok-inj last

  ensure_payload_integrity-Matches :
      (item : QuarantineRecord) (path : Text) (disk : Disk) (f : File)
      → ensure_payload_integrity system base item path disk ≡ ok tt
      → file_at disk path ≡ some f
      → Matches item f
  unfolding ensure_payload_integrity
  ensure_payload_integrity-Matches item path disk f h there =
      let (g, e, h1) = bind-ok (file_of disk path) _ tt h in
      let (u, sized, h2) = bind-ok (ensure (length g.bytes == item.file_size) _) _ tt h1 in
      let (hash, hashed, last) = bind-ok (sha256_for_file system base disk path) _ tt h2 in
      (
        ap (λ k. length k.bytes) (one_file path disk f g there e)
            ∙ (==_iff (length g.bytes) item.file_size).0
                (ensure-ok (length g.bytes == item.file_size) _ sized),
        rw (sha256_for_file-ok path hash disk f hashed there)
            (ensure-ok (eq_ignore_ascii_case item.sha256 hash) _ last),
      )

  -- the moving of the payload, and the record
  moved_back :
      (item : QuarantineRecord) (disk disk' : Disk) (r : QuarantineRecord)
      → (rename system base item.quarantine_path item.original_path
            >> (write_record system base (record item { status = restored })
                >> lift (ok (record item { status = restored }))))
          disk
        ≡ (disk', ok r)
      → (f : File) × (file_at disk item.quarantine_path ≡ some f)
        × ((q : Text)
            → text_eq (record_path system base item.quarantine_id) q ≡ false
            → file_at disk' q ≡ (
                if text_eq item.original_path q
                then some f
                else if text_eq item.quarantine_path q
                then none
                else file_at disk q))
        × (r ≡ record item { status = restored })
  moved_back item disk disk' r h =
      let back : QuarantineRecord = record item { status = restored } in
      let (mid, u, renamed, h1) =
        act-ok (rename system base item.quarantine_path item.original_path) _ disk disk' r h in
      let (mid', v, wrote, last) = act-ok (write_record system base back) _ mid disk' r h1 in
      let (f, (there, moves)) =
        rename-Moved system base item.quarantine_path item.original_path disk mid renamed in
      (
        f,
        there,
        λ q other.
            ap (λ p. file_at p.0 q) (sym last)
            ∙ write_record-other system base back mid mid' wrote q other
            ∙ moves q,
        sym (ok-inj (ap (λ p. p.1) last)),
      )

  -- an item that is brought back
  pub record IsRestored (item : QuarantineRecord) (disk disk' : Disk) : Type 0 where
    pub file : File
    pub payload : IsPayload disk item.quarantine_path
    pub matches : Matches item file
    pub safe : is_safe_original item.original_path ≡ true
    pub was_free : exists disk item.original_path ≡ false
    pub there : file_at disk item.quarantine_path ≡ some file
    pub files :
        (q : Text)
        → text_eq (record_path system base item.quarantine_id) q ≡ false
        → file_at disk' q ≡ (
            if text_eq item.original_path q
            then some file
            else if text_eq item.quarantine_path q
            then none
            else file_at disk q)

  -- `QuarantineStore::restore`: a call that succeeds was confirmed and brought back an item that the
  -- store lists under the identifier. Its payload lay in the base folder, links resolved, and had the
  -- extension, the length and the hash of the record; its original path is absolute, leads nowhere
  -- upwards and was free. Apart from the item's record the disk then differs in the payload, which
  -- stands at the original path and no more at its own.
  pub restore-IsRestored :
      (id : Text) (confirmed : Bool) (disk disk' : Disk) (r : QuarantineRecord)
      → restore system base id confirmed disk ≡ (disk', ok r)
      → (confirmed ≡ true)
        × ((item : QuarantineRecord) × (find_record system base id disk ≡ ok item)
            × (r ≡ record item { status = restored })
            × IsRestored item disk disk')
  unfolding restore restore_requires_confirmation ensure_absent
  restore-IsRestored id confirmed disk disk' r h =
      let (u0, sure, h0) = asks-ok (ensure confirmed _) _ disk disk' r h in
      let (item, listed, h1) = asks-ok (find_record system base id disk) _ disk disk' r h0 in
      let (u1, payload, h2) =
        asks-ok (ensure_quarantine_payload_path system base item.quarantine_path disk) _ disk disk'
          r h1 in
      let (u2, whole, h3) =
        asks-ok (ensure_payload_integrity system base item item.quarantine_path disk) _ disk disk' r
          h2 in
      let (u3, safe, h4) =
        asks-ok (ensure (is_safe_original item.original_path) _) _ disk disk' r h3 in
      let (u4, free, h5) =
        asks-ok (ensure (not (exists disk item.original_path)) _) _ disk disk' r h4 in
      let (u5, parent, h6) = asks-ok (system.create_parent item.original_path) _ disk disk' r h5 in
      let (f, there, files, same) = moved_back item disk disk' r h6 in
      (
        ensure-ok confirmed _ sure,
        (
          item,
          listed,
          same,
          record {
            file = f;
            payload = ensure_quarantine_payload_path-IsPayload item.quarantine_path disk payload;
            matches = ensure_payload_integrity-Matches item item.quarantine_path disk f whole there;
            safe = ensure-ok (is_safe_original item.original_path) _ safe;
            was_free = is_false (exists disk item.original_path) (ensure-ok _ _ free);
            there = there;
            files = files;
          },
        ),
      )

  -- `QuarantineStore::delete`: a call that succeeds was confirmed, and deleted the payload of an item
  -- that the store lists under the identifier. The payload lay in the base folder, links resolved, and
  -- had the extension of the store. Apart from the item's record the disk then differs only in that
  -- the payload is gone.
  pub delete-IsPayload :
      (id : Text) (confirmed : Bool) (disk disk' : Disk) (r : QuarantineRecord)
      → delete system base id confirmed disk ≡ (disk', ok r)
      → (confirmed ≡ true)
        × ((item : QuarantineRecord) × (find_record system base id disk ≡ ok item)
            × (r ≡ record item { status = deleted })
            × IsPayload disk item.quarantine_path
            × ((q : Text)
                → text_eq (record_path system base item.quarantine_id) q ≡ false
                → file_at disk' q
                  ≡ (if text_eq item.quarantine_path q then none else file_at disk q)))
  unfolding delete
  delete-IsPayload id confirmed disk disk' r h =
      let (u0, sure, h0) = asks-ok (ensure confirmed _) _ disk disk' r h in
      let (item, listed, h1) = asks-ok (find_record system base id disk) _ disk disk' r h0 in
      let (u1, payload, h2) =
        asks-ok (ensure_quarantine_payload_path system base item.quarantine_path disk) _ disk disk'
          r h1 in
      let gone : QuarantineRecord = record item { status = deleted } in
      let (mid, u2, removed, h3) =
        act-ok (remove_payload system base item.quarantine_path) _ disk disk' r h2 in
      let (mid', v, wrote, last) = act-ok (write_record system base gone) _ mid disk' r h3 in
      (
        ensure-ok confirmed _ sure,
        (
          item,
          listed,
          sym (ok-inj (ap (λ p. p.1) last)),
          ensure_quarantine_payload_path-IsPayload item.quarantine_path disk payload,
          λ q other.
              ap (λ p. file_at p.0 q) (sym last)
              ∙ write_record-other system base gone mid mid' wrote q other
              ∙ remove_payload-gone system base item.quarantine_path disk mid removed q,
        ),
      )
