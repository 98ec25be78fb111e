-- ===== src/Update/Package/Entries.antt =====
-- What the two loops over a package find and write (update_package.rs).
use zentor.Prelude.{
  ◌≡◌, refl, sym, ap, ◌∙◌, ◌⊎◌, inl, inr, true, some, List, [], ◌∷◌, ◌++◌, map, All, Any, if_came,
}
use mathlib.Core.Option.{some-injective}
use zentor.Text.{Text, text, text_eq, eq_ignore_ascii_case}
use zentor.Text.Laws.{text_eq_iff}
use zentor.Outcome.{Outcome, ok, fail, panic, ensure, ◌>>=◌, bind-ok, ok-inj, ensure-ok}
use zentor.Update.Package.{
  Entry, Archive, PayloadHashes, with_context, safe_relative_path, forward,
  hash_archive_entry_by_normalized_name, verify_listed, verify_hashes, is_payload_file,
  payload_path, verify_entry, verify_entries, Tree, read, extract_file, extract_entry,
  extract_payload_to,
}
use zentor.Update.Package.SafePath.{Stays}

-- the entry writes this file
abbrev pub Writes : Text → Text → Entry → Type 0
Writes path contents e =
    (is_payload_file (forward e.name) ≡ true)
    × (payload_path (forward e.name) ≡ ok path)
    × (e.contents ≡ ok contents)

read_step :
    (p bytes : Text) (tree : Tree) (path contents : Text)
    → read ((p, bytes) ∷ tree) path ≡ some contents
    → (read tree path ≡ some contents) ⊎ ((p ≡ path) × (bytes ≡ contents))
unfolding read
read_step p bytes tree path contents h = elim (if_came (text_eq p path) h) [
  | inl (e, here) ↦ inr ((text_eq_iff p path).0 e, some-injective bytes contents here)
  | inr (e, later) ↦ inl later
]

extract_file-read :
    (create : Text → Outcome (Unit {0})) (tree tree' : Tree) (e : Entry) (path contents : Text)
    → extract_file create tree e ≡ ok tree'
    → read tree' path ≡ some contents
    → (read tree path ≡ some contents)
      ⊎ ((payload_path (forward e.name) ≡ ok path) × (e.contents ≡ ok contents))
unfolding extract_file
extract_file-read create tree tree' e path contents h r =
    let (relative, target, h1) = bind-ok (payload_path (forward e.name)) _ tree' h in
    let (u, made, h2) = bind-ok (create relative) _ tree' h1 in
    let (bytes, opened, last) = bind-ok e.contents _ tree' h2 in
    elim (read_step relative bytes tree path contents (rw (ok-inj last) r)) [
      | inl before ↦ inl before
      | inr (same, same_bytes) ↦ inr (target ∙ ap ok same, opened ∙ ap ok same_bytes)
    ]

extract_entry-read :
    (create : Text → Outcome (Unit {0})) (tree tree' : Tree) (e : Entry) (path contents : Text)
    → extract_entry create tree e ≡ ok tree'
    → read tree' path ≡ some contents
    → (read tree path ≡ some contents) ⊎ Writes path contents e
unfolding extract_entry
extract_entry-read create tree tree' e path contents h r =
    elim (if_came (is_payload_file (forward e.name)) h) [
      | inl (file, written) ↦ elim (extract_file-read create tree tree' e path contents written r) [
        | inl before ↦ inl before
        | inr (target, opened) ↦ inr (file, target, opened)
      ]
      | inr (other, same) ↦ inl (rw (ok-inj same) r)
    ]

pub extract-Writes :
    (create : Text → Outcome (Unit {0})) (tree tree' : Tree) (entries : List Entry)
    (path contents : Text)
    → extract_payload_to create tree (map ok entries) ≡ ok tree'
    → read tree' path ≡ some contents
    → (read tree path ≡ some contents) ⊎ Any (Writes path contents) entries
unfolding extract_payload_to
extract-Writes create tree tree' [] path contents h r = inl (rw (ok-inj h) r)
extract-Writes create tree tree' (e ∷ entries) path contents h r =
    let (written, first, later) = bind-ok (extract_entry create tree e) _ tree' h in
    elim (extract-Writes create written tree' entries path contents later r) [
      | inl before ↦ elim (extract_entry-read create tree written e path contents first before) [
        | inl older ↦ inl older
        | inr wrote ↦ inr (inl wrote)
      ]
      | inr wrote ↦ inr (inr wrote)
    ]

pub verify_entries-All :
    (hashes : PayloadHashes) (entries : List Entry)
    → verify_entries hashes (map ok entries) ≡ ok tt
    → All (λ e. verify_entry hashes e ≡ ok tt) entries
unfolding verify_entries
verify_entries-All hashes [] h = tt
verify_entries-All hashes (e ∷ entries) h =
    let (u, first, later) =
      bind-ok (verify_entry hashes e) (λ u. verify_entries hashes (map ok entries)) tt h in
    (first, verify_entries-All hashes entries later)

-- a file of the archive with this name and this hash
abbrev pub HasHash : (Text → Text) → Text → Text → Entry → Type 0
HasHash sha256 name hash e =
    (forward e.name ≡ name) × ((bytes : Text) × (e.contents ≡ ok bytes) × (sha256 bytes ≡ hash))

hash_archive-HasHash :
    (sha256 : Text → Text) (entries : List Entry) (name hash : Text)
    → hash_archive_entry_by_normalized_name sha256 (map ok entries) name ≡ ok hash
    → Any (HasHash sha256 name hash) entries
unfolding hash_archive_entry_by_normalized_name
hash_archive-HasHash sha256 [] name hash h = cc
hash_archive-HasHash sha256 (e ∷ entries) name hash h =
    elim (if_came (text_eq (forward e.name) name) h) [
      | inl (same, found) ↦
          let (bytes, opened, last) = bind-ok e.contents _ hash found in
          inl ((text_eq_iff (forward e.name) name).0 same, (bytes, opened, ok-inj last))
      | inr (other, later) ↦ inr (hash_archive-HasHash sha256 entries name hash later)
    ]

pub with_context-ok :
    {A : Type 0} (context : Text) (m : Outcome A) (a : A) → with_context context m ≡ ok a → m ≡ ok a
with_context-ok context (ok b) a h = h
with_context-ok context (fail message) a h = cc
with_context-ok context panic a h = cc

listed_tail :
    (sha256 : Text → Text) (entries : List Entry) (context message name expected : Text)
    → (with_context context (hash_archive_entry_by_normalized_name sha256 (map ok entries) name)
        >>= λ actual. ensure (eq_ignore_ascii_case actual expected) message)
      ≡ ok tt
    → (hash : Text) × Any (HasHash sha256 name hash) entries
      × (eq_ignore_ascii_case hash expected ≡ true)
listed_tail sha256 entries context message name expected h =
    let look = hash_archive_entry_by_normalized_name sha256 (map ok entries) name in
    let (hash, found, last) =
      bind-ok (with_context context look)
        (λ actual. ensure (eq_ignore_ascii_case actual expected) message) tt h in
    (
      hash,
      hash_archive-HasHash sha256 entries name hash (with_context-ok context look hash found),
      ensure-ok (eq_ignore_ascii_case hash expected) message last,
    )

-- `verify_listed`, for the file that an accepted path names
pub verify_listed-HasHash :
    (sha256 : Text → Text) (entries : List Entry) (path expected : Text)
    → forward path ≡ path
    → Stays path
    → verify_listed sha256 (map ok entries) path expected ≡ ok tt
    → (hash : Text) × Any (HasHash sha256 (text "payload/" ++ path) hash) entries
      × (eq_ignore_ascii_case hash expected ≡ true)
unfolding verify_listed
verify_listed-HasHash sha256 entries path expected plain stays h =
    let (relative, safe, h1) = bind-ok (safe_relative_path (forward path)) _ tt h in
    let again : safe_relative_path (forward path) ≡ ok path = rw plain stays.3 in
    let same = ok-inj (sym safe ∙ again) in
    let named : text "payload/" ++ forward relative ≡ text "payload/" ++ path =
      rw (same, plain) refl in
    rw (← named) (listed_tail sha256 entries _ _ (text "payload/" ++ forward relative) expected h1)

pub verify_hashes-All :
    (sha256 : Text → Text) (archive : Archive) (hashes : PayloadHashes)
    → verify_hashes sha256 archive hashes ≡ ok tt
    → All (λ p. verify_listed sha256 archive p.0 p.1 ≡ ok tt) hashes
unfolding verify_hashes
verify_hashes-All sha256 archive [] h = tt
verify_hashes-All sha256 archive (p ∷ rest) h =
    let (u, first, later) =
      bind-ok (verify_listed sha256 archive p.0 p.1) (λ u. verify_hashes sha256 archive rest) tt
        h in
    (first, verify_hashes-All sha256 archive rest later)
