-- ===== src/Update/Package.antt =====
-- core/avorax_update_service/src/update_package.rs: the payload of an update package, checked
-- against the hashes of the manifest and extracted. Opening the archive, SHA-256 and the file system
-- are parameters.
pub mod SafePath
pub mod Entries
pub mod Payload
use zentor.Prelude.{
  ℕ, Bool, true, false, ◌||◌, not, Option, none, some, List, [], ◌∷◌, ◌++◌, any, if◌then◌else◌,
}
use zentor.Text.{
  Text, text, text_eq, is_empty, eq_ignore_ascii_case, starts_with, ends_with, replace_byte,
  trim_start_matches,
}
use zentor.Path.{Component, normal, cur_dir, is_absolute, components}
use zentor.Outcome.{Outcome, ok, fail, panic, ensure, ◌>>=◌, ◌>>◌}

pub record Entry : Type 0 where
  pub name : Text
  pub contents : Outcome Text

-- the entries in the order of `by_index`, each of which may fail to open
abbrev pub Archive : Type 0
Archive = List (Outcome Entry)

-- `BTreeMap<String, String>`
abbrev pub PayloadHashes : Type 0
PayloadHashes = List (Text × Text)

-- `with_context`: an error is reported as the context
abbrev pub with_context {ℓ} : {A : Type ℓ} → Text → Outcome A → Outcome A
with_context context (ok a) = ok a
with_context context (fail message) = fail context
with_context context panic = panic

-- `out.push(part)`, for a part of a path
unfoldable pub push_part : Text → Text → Text
push_part out part = if is_empty out then part else out ++ (text "/" ++ part)

-- the loop of `safe_relative_path`
unfoldable pub push_components : Text → Text → List Component → Outcome Text
push_components value out [] = ok out
push_components value out (normal part ∷ rest) = push_components value (push_part out part) rest
push_components value out (cur_dir ∷ rest) = push_components value out rest
push_components value out (_ ∷ rest) = fail (text "unsafe payload path: " ++ value)

unfoldable pub safe_relative_path : Text → Outcome Text
safe_relative_path value = do
  ensure (not (is_absolute value)) (text "absolute payload path is not allowed")
  out ← push_components value [] (components value)
  ensure (not (is_empty out)) (text "empty payload path")
  ok out

-- `name.replace('\\', "/")`
unfoldable pub forward : Text → Text
forward = replace_byte b'\\' b'/'

unfoldable pub hash_archive_entry_by_normalized_name : (Text → Text) → Archive → Text → Outcome Text
hash_archive_entry_by_normalized_name sha256 [] expected_name =
    fail (text "specified file not found in archive")
hash_archive_entry_by_normalized_name sha256 (e ∷ rest) expected_name =
    let later = hash_archive_entry_by_normalized_name sha256 rest expected_name in
    e >>= λ entry.
    if text_eq (forward entry.name) expected_name
    then (entry.contents >>= λ bytes. ok (sha256 bytes))
    else later

-- one round of the first loop: a file of the manifest is in the package, with its hash
unfoldable pub verify_listed : (Text → Text) → Archive → Text → Text → Outcome (Unit {0})
verify_listed sha256 archive relative expected_hash = do
  relative_path ← safe_relative_path (forward relative)
  let archive_name = text "payload/" ++ forward relative_path
  actual_hash ←
      with_context (text "payload file missing from package: " ++ archive_name)
        (hash_archive_entry_by_normalized_name sha256 archive archive_name)
  ensure (eq_ignore_ascii_case actual_hash expected_hash)
      (text "payload hash mismatch for " ++ archive_name)

unfoldable pub verify_hashes : (Text → Text) → Archive → PayloadHashes → Outcome (Unit {0})
verify_hashes sha256 archive [] = ok tt
verify_hashes sha256 archive ((relative, expected_hash) ∷ rest) =
    let later = verify_hashes sha256 archive rest in
    verify_listed sha256 archive relative expected_hash >> later

-- an entry that is no file of the payload is passed over
unfoldable pub is_payload_file : Text → Bool
is_payload_file name = not (not (starts_with name (text "payload/")) || ends_with name (text "/"))

-- where the file of an entry belongs
unfoldable pub payload_path : Text → Outcome Text
payload_path name = safe_relative_path (trim_start_matches name (text "payload/"))

unfoldable pub contains_key : PayloadHashes → Text → Bool
contains_key hashes key = any (λ p. text_eq p.0 key) hashes

unfoldable pub is_empty_map : PayloadHashes → Bool
is_empty_map [] = true
is_empty_map (p ∷ rest) = false

-- one round of the second loop: a payload file of the package is in the manifest
unfoldable pub verify_key : PayloadHashes → Text → Outcome (Unit {0})
verify_key hashes name = do
  relative ← payload_path name
  ensure (contains_key hashes (forward relative))
      (text "payload file is not listed in signed manifest: " ++ forward relative)

unfoldable pub verify_entry : PayloadHashes → Entry → Outcome (Unit {0})
verify_entry hashes entry =
    if is_payload_file (forward entry.name) then verify_key hashes (forward entry.name) else ok tt

unfoldable pub verify_entries : PayloadHashes → Archive → Outcome (Unit {0})
verify_entries hashes [] = ok tt
verify_entries hashes (e ∷ rest) =
    let later = verify_entries hashes rest in (e >>= λ entry. verify_entry hashes entry) >> later

unfoldable pub verify_payload_hashes :
    (Text → Text) → Outcome Archive → PayloadHashes → Outcome (Unit {0})
verify_payload_hashes sha256 opened expected_hashes = do
  ensure (not (is_empty_map expected_hashes))
      (text "update package manifest does not list payload hashes")
  archive ← opened
  verify_hashes sha256 archive expected_hashes
  verify_entries expected_hashes archive

-- The files below a folder by their relative paths; the one written last stands first.
abbrev pub Tree : Type 0
Tree = List (Text × Text)

unfoldable pub read : Tree → Text → Option Text
read [] path = none
read ((p, contents) ∷ rest) path =
    let later = read rest path in if text_eq p path then some contents else later

-- one round of the loop of `extract_payload_to`, for a file of the payload; `create` is what becomes of making the folders and
-- writing the file
unfoldable pub extract_file : (Text → Outcome (Unit {0})) → Tree → Entry → Outcome Tree
extract_file create tree entry = do
  relative ← payload_path (forward entry.name)
  create relative
  bytes ← entry.contents
  ok ((relative, bytes) ∷ tree)

unfoldable pub extract_entry : (Text → Outcome (Unit {0})) → Tree → Entry → Outcome Tree
extract_entry create tree entry =
    if is_payload_file (forward entry.name) then extract_file create tree entry else ok tree

unfoldable pub extract_payload_to : (Text → Outcome (Unit {0})) → Tree → Archive → Outcome Tree
extract_payload_to create tree [] = ok tree
extract_payload_to create tree (e ∷ rest) =
    (e >>= λ entry. extract_entry create tree entry) >>= λ written.
    extract_payload_to create written rest
