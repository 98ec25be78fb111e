-- ===== src/Allowlist.antt =====
-- core/zentor_local_core/src/allowlist/allowlist_store.rs: the files, folders and hashes that the
-- user lets through. Hashing a file, writing the list, the fresh identifier and the time are
-- parameters of the model; a path is the text it is displayed as.
pub mod Coverage
use zentor.Prelude.{
  ℕ, Bool, true, false, ◌&&◌, ◌||◌, not, Option, none, some, List, [], ◌∷◌, ◌++◌, any, all, ◌==◌,
  if◌then◌else◌,
}
use zentor.Text.{
  Text, text, text_eq, is_empty, starts_with, eq_ignore_ascii_case, to_ascii_lowercase,
  replace_byte, trim_end_bytes,
}
use zentor.Text.Space.{trim}
use zentor.Path.{Component, root_dir, components}
use zentor.Outcome.{Outcome, ok, fail, panic, ◌>>=◌, ◌>>◌}

pub data AllowlistEntryType : Type 0 where
  file folder app executable hash : AllowlistEntryType

pub record AllowlistEntry : Type 0 where
  pub id : Text
  pub entry_type : AllowlistEntryType
  pub path : Text
  pub sha256 : Option Text
  pub reason : Text
  pub created_at : ℕ
  pub created_by : Text
  pub active : Bool

pub record AllowlistStore : Type 0 where
  pub entries : List AllowlistEntry
  pub store_path : Option Text

-- What the store asks of the system: `sha256_file`, the writing of the list (the folder, the JSON
-- and the file), `Uuid::new_v4()` and `Utc::now()`.
pub record System : Type 0 where
  pub sha256_file : Text → Outcome Text
  pub write_entries : Text → List AllowlistEntry → Outcome (Unit {0})
  pub new_id : Text
  pub now : ℕ

unfoldable pub in_memory : List AllowlistEntry → AllowlistStore
in_memory entries = record { entries = entries; store_path = none }

unfoldable pub normalize_entry_path : Text → Text
normalize_entry_path path =
    to_ascii_lowercase (trim_end_bytes (λ b. b == b'/') (replace_byte b'\\' b'/' path))

unfoldable pub normalize_hash_text : Text → Text
normalize_hash_text sha256 = to_ascii_lowercase (trim sha256)

unfoldable pub path_matches_folder : Text → Text → Bool
path_matches_folder path parent =
    not (is_empty parent) && (text_eq path parent || starts_with path (parent ++ text "/"))

-- a hash entry without a hash has it in its path
abbrev pub hash_of : AllowlistEntry → Text
hash_of entry = elim entry.sha256 [
  | some h ↦ normalize_hash_text h
  | none ↦ normalize_hash_text entry.path
]

abbrev is_hash : Text → Text → Bool
is_hash entry_hash normalized_hash = not (is_empty entry_hash) && text_eq entry_hash normalized_hash

abbrev is_file : Text → Option Text → Text → Text → Bool
is_file entry_path sha256 normalized_path normalized_hash =
    text_eq normalized_path entry_path && elim sha256 [
      | some entry_hash ↦ text_eq (normalize_hash_text entry_hash) normalized_hash
      | none ↦ false
    ]

-- what the entry's type asks, of a path and a hash that are normalized
unfoldable pub type_covers : AllowlistEntryType → AllowlistEntry → Text → Text → Bool
unfolding normalize_entry_path normalize_hash_text path_matches_folder
type_covers hash entry path sha256 = is_hash (hash_of entry) sha256
type_covers folder entry path sha256 = path_matches_folder path (normalize_entry_path entry.path)
type_covers file entry path sha256 =
    is_file (normalize_entry_path entry.path) entry.sha256 path sha256
type_covers app entry path sha256 =
    is_file (normalize_entry_path entry.path) entry.sha256 path sha256
type_covers executable entry path sha256 =
    is_file (normalize_entry_path entry.path) entry.sha256 path sha256

unfoldable pub covers : Text → Text → AllowlistEntry → Bool
covers path sha256 entry = entry.active && type_covers entry.entry_type entry path sha256

unfoldable pub is_allowlisted : AllowlistStore → Text → Text → Bool
is_allowlisted store path sha256 =
    any (covers (normalize_entry_path path) (normalize_hash_text sha256)) store.entries

abbrev blocked : List Text
blocked =
    text "C:"
    ∷ text "C:/Windows"
    ∷ text "/System"
    ∷ text "/usr"
    ∷ text "/"
    ∷ text "/bin"
    ∷ text "/sbin"
    ∷ text "/etc"
    ∷ []

abbrev is_root : Component → Bool
is_root root_dir = true
is_root _ = false

unfoldable pub validate_path : Text → Outcome (Unit {0})
validate_path path =
    let trimmed = trim path in
    let normalized = trim_end_bytes (λ b. b == b'/') (replace_byte b'\\' b'/' trimmed) in
    if is_empty trimmed
    then fail (text "allowlist path is empty")
    else if any (eq_ignore_ascii_case normalized) blocked
    then fail (text "unsafe root folders cannot be allowlisted")
    else if all is_root (components trimmed)
    then fail (text "unsafe root folders cannot be allowlisted")
    else ok tt

-- an error is reported as the context
abbrev with_context : Text → Outcome Text → Outcome (Option Text)
with_context context (ok h) = ok (some h)
with_context context (fail message) = fail context
with_context context panic = panic

unfoldable pub hash_required_for_entry : System → AllowlistEntryType → Text → Outcome (Option Text)
hash_required_for_entry system folder path = ok none
hash_required_for_entry system hash path = ok none
hash_required_for_entry system _ path =
    with_context
      (text "file/app/executable allowlist entries must be hashed before allowlisting: " ++ path)
      (system.sha256_file path)

unfoldable pub save : System → AllowlistStore → Outcome (Unit {0})
save system store = elim store.store_path [
  | none ↦ ok tt
  | some path ↦ system.write_entries path store.entries
]

unfoldable pub new_entry : System → AllowlistEntryType → Text → Text → Option Text → AllowlistEntry
new_entry system entry_type path reason sha256 = record {
  id = system.new_id;
  entry_type = entry_type;
  path = path;
  sha256 = sha256;
  reason = reason;
  created_at = system.now;
  created_by = text "local_user";
  active = true;
}

unfoldable pub push : AllowlistEntry → AllowlistStore → AllowlistStore
push entry store = record store { entries = store.entries ++ entry ∷ [] }

-- `self.save()?; Ok(entry)` after the push
abbrev saved : System → AllowlistEntry → AllowlistStore → AllowlistStore × Outcome AllowlistEntry
saved system entry store = (store, save system store >> ok entry)

abbrev on_hash :
    System
    → AllowlistEntryType
    → Text
    → Text
    → AllowlistStore
    → Outcome (Option Text)
    → AllowlistStore × Outcome AllowlistEntry
on_hash system entry_type path reason store (ok sha256) =
    let entry = new_entry system entry_type path reason sha256 in
    saved system entry (push entry store)
on_hash system entry_type path reason store (fail message) = (store, fail message)
on_hash system entry_type path reason store panic = (store, panic)

-- the store after the call, and what the call returns
unfoldable pub add :
    System
    → AllowlistEntryType
    → Text
    → Text
    → AllowlistStore
    → AllowlistStore × Outcome AllowlistEntry
add system entry_type path reason store =
    on_hash system entry_type path reason store
      (validate_path path >> hash_required_for_entry system entry_type path)
