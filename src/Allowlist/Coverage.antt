-- ===== src/Allowlist/Coverage.antt =====
-- What the allowlist lets through, and what adding an entry changes (allowlist_store.rs).
use zentor.Prelude.{
  ◌≡◌, ◌≢◌, ◌↔◌, ◌⊎◌, refl, Bool, true, false, ◌||◌, not, Option, none, some, [], ◌∷◌, ◌++◌, Any,
  any_iff, any-append, and_iff, or_iff,
}
use zentor.Text.{Text, text, text_eq, is_empty}
use zentor.Text.Laws.{text_eq_iff, starts_with_iff}
use zentor.Outcome.{ok}
use zentor.Allowlist.{
  AllowlistEntryType, folder, hash, AllowlistEntry, AllowlistStore, System, normalize_entry_path,
  normalize_hash_text, hash_of, path_matches_folder, type_covers, covers, is_allowlisted,
  validate_path, hash_required_for_entry, new_entry, push, add,
}

-- the folder itself, or what stands after it and a slash
abbrev pub IsWithin : Text → Text → Type 0
IsWithin path parent =
    (parent ≢ []) × ((path ≡ parent) ⊎ ((rest : Text) × (path ≡ (parent ++ text "/") ++ rest)))

is_empty_iff : (t : Text) → (not (is_empty t) ≡ true) ↔ (t ≢ [])
unfolding is_empty
is_empty_iff [] = (λ h. cc, λ h. absurd (h refl))
is_empty_iff (b ∷ t) = (λ h e. cc, λ h. refl)

path_matches_folder_iff :
    (path parent : Text) → (path_matches_folder path parent ≡ true) ↔ IsWithin path parent
unfolding path_matches_folder
path_matches_folder_iff path parent =
    and_iff _ _ (is_empty_iff parent)
      (or_iff _ _ (text_eq_iff path parent) (starts_with_iff path (parent ++ text "/")))

-- A file, an application or an executable is covered at its own path with its own hash, a folder
-- with all that lies within, a hash wherever it stands.
abbrev pub TypeCovers : AllowlistEntryType → AllowlistEntry → Text → Text → Type 0
TypeCovers hash entry path sha256 = (hash_of entry ≢ []) × (hash_of entry ≡ sha256)
TypeCovers folder entry path sha256 = IsWithin path (normalize_entry_path entry.path)
TypeCovers _ entry path sha256 =
    (path ≡ normalize_entry_path entry.path)
    × ((h : Text) × (entry.sha256 ≡ some h) × (normalize_hash_text h ≡ sha256))

has_pinned_hash_iff :
    (o : Option Text) (sha256 : Text)
    → (elim o [ some h ↦ text_eq (normalize_hash_text h) sha256 | none ↦ false ] ≡ true)
      ↔ ((h : Text) × (o ≡ some h) × (normalize_hash_text h ≡ sha256))
has_pinned_hash_iff none sha256 = (λ h. cc, λ h. cc h.1)
has_pinned_hash_iff (some h) sha256 = (
  λ e. (h, refl, (text_eq_iff (normalize_hash_text h) sha256).0 e),
  λ p. (text_eq_iff (normalize_hash_text h) sha256).1 (let (x, e, e') = p in cc (e, e')),
)

type_covers_iff :
    (t : AllowlistEntryType) (entry : AllowlistEntry) (path sha256 : Text)
    → (type_covers t entry path sha256 ≡ true) ↔ TypeCovers t entry path sha256
unfolding type_covers
type_covers_iff hash entry path sha256 =
    and_iff _ _ (is_empty_iff (hash_of entry)) (text_eq_iff (hash_of entry) sha256)
type_covers_iff folder entry path sha256 =
    path_matches_folder_iff path (normalize_entry_path entry.path)
type_covers_iff _ entry path sha256 =
    and_iff _ _ (text_eq_iff path (normalize_entry_path entry.path))
      (has_pinned_hash_iff entry.sha256 sha256)

-- an active entry that covers the file
abbrev pub Covers : Text → Text → AllowlistEntry → Type 0
Covers path sha256 entry =
    (entry.active ≡ true)
    × TypeCovers entry.entry_type entry (normalize_entry_path path) (normalize_hash_text sha256)

itself_iff : (b : Bool) → (b ≡ true) ↔ (b ≡ true)
itself_iff b = (λ h. h, λ h. h)

or_false : (b : Bool) → (b || false) ≡ b
or_false true = refl
or_false false = refl

covers_iff :
    (path sha256 : Text) (entry : AllowlistEntry)
    → (covers (normalize_entry_path path) (normalize_hash_text sha256) entry ≡ true)
      ↔ Covers path sha256 entry
unfolding covers
covers_iff path sha256 entry = and_iff _ _ (itself_iff entry.active) (
    type_covers_iff entry.entry_type entry (normalize_entry_path path) (normalize_hash_text sha256))

-- `AllowlistStore::is_allowlisted` answers true exactly when some active entry covers the file: a
-- hash entry that is not blank and equals the file's hash; a folder entry, the root left out, whose
-- path is the file's or ends at a slash of it; or an entry of another type with the file's path that
-- recorded the file's hash. Paths are compared with slashes for backslashes, without slashes at the
-- end and without regard to the case of ASCII letters, hashes without white space around them and
-- without regard to that case.
pub is_allowlisted_iff :
    (store : AllowlistStore) (path sha256 : Text)
    → (is_allowlisted store path sha256 ≡ true) ↔ Any (Covers path sha256) store.entries
unfolding is_allowlisted
is_allowlisted_iff store path sha256 = any_iff _ _ (covers_iff path sha256) store.entries

-- `AllowlistStore::add`: where the path is accepted and the hash that the type needs is found, the
-- store then covers what it covered before and what the new entry covers, and nothing else, also
-- where writing the list fails and the call returns an error.
pub is_allowlisted-add :
    (system : System) (t : AllowlistEntryType) (path reason : Text) (store : AllowlistStore)
    (sha256 : Option Text)
    → validate_path path ≡ ok tt
    → hash_required_for_entry system t path ≡ ok sha256
    → (p h : Text)
    → (is_allowlisted (add system t path reason store).0 p h ≡ true)
      ↔ ((is_allowlisted store p h ≡ true) ⊎ Covers p h (new_entry system t path reason sha256))
unfolding is_allowlisted add push
is_allowlisted-add system t path reason store sha256 valid hashed p h =
    let entry = new_entry system t path reason sha256 in
    rw
      (
        valid,
        hashed,
        any-append (covers (normalize_entry_path p) (normalize_hash_text h)) store.entries
            (entry ∷ []),
        or_false (covers (normalize_entry_path p) (normalize_hash_text h) entry),
      )
      (or_iff _ _ (itself_iff (is_allowlisted store p h)) (covers_iff p h entry))
