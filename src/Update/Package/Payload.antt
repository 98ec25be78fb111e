-- ===== src/Update/Package/Payload.antt =====
-- What is extracted is what was verified (update_package.rs).
use zentor.Prelude.{
  ◌≡◌, ◌≢◌, refl, sym, ap, ◌∙◌, inl, inr, true, not, some, List, [], ◌∷◌, ◌++◌, map, All, Any,
  any_iff, arith, if_came, Any-All, Any-map,
}
use zentor.Text.{Text, text, text_eq, eq_ignore_ascii_case, replace_byte}
use zentor.Text.Laws.{text_eq_iff}
use zentor.Outcome.{Outcome, ok, ensure, bind-ok, ok-inj, ensure-ok}
use zentor.Update.Package.{
  Entry, PayloadHashes, forward, verify_listed, verify_hashes, is_payload_file, payload_path,
  contains_key, verify_key, verify_entry, verify_entries, is_empty_map, verify_payload_hashes, Tree,
  read, extract_payload_to,
}
use zentor.Update.Package.SafePath.{Stays, safe_relative_path-Stays}
use zentor.Update.Package.Entries.{
  Writes, extract-Writes, verify_entries-All, HasHash, verify_listed-HasHash, verify_hashes-All,
}

-- no two entries have the same name, but for the direction of its slashes
abbrev pub DistinctNames : List Entry → Type 0
DistinctNames [] = Unit
DistinctNames (e ∷ rest) = All (λ e'. forward e.name ≢ forward e'.name) rest × DistinctNames rest

-- the name of a payload file is `payload/` and the path that it is extracted to
abbrev pub IsPlain : Entry → Type 0
IsPlain e =
    (path : Text)
    → is_payload_file (forward e.name) ≡ true
    → payload_path (forward e.name) ≡ ok path
    → forward e.name ≡ text "payload/" ++ path

-- two entries of one name are one
module _ (name : Text) where
  no_twin :
      (P : Entry → Type 0)
      → ((e : Entry) → P e → forward e.name ≡ name)
      → (e : Entry) (rest : List Entry) → forward e.name ≡ name
      → All (λ e'. forward e.name ≢ forward e'.name) rest
      → Any P rest
      → ⊥
  no_twin P names_P e [] here all p = elim p [ ]
  no_twin P names_P e (e' ∷ rest) here all (inl p) = all.0 (here ∙ sym (names_P e' p))
  no_twin P names_P e (e' ∷ rest) here all (inr p) = no_twin P names_P e rest here all.1 p

module _ (P Q : Entry → Type 0) (name : Text) (names_P : (e : Entry) → P e → forward e.name ≡ name)
    (names_Q : (e : Entry) → Q e → forward e.name ≡ name) where
  one_entry :
      (entries : List Entry)
      → DistinctNames entries
      → Any P entries
      → Any Q entries
      → (e : Entry) × P e × Q e
  one_entry [] distinct p q = elim p [ ]
  one_entry (e ∷ rest) distinct (inl p) (inl q) = (e, p, q)
  one_entry (e ∷ rest) distinct (inl p) (inr q) =
      absurd (no_twin name Q names_Q e rest (names_P e p) distinct.0 q)
  one_entry (e ∷ rest) distinct (inr p) (inl q) =
      absurd (no_twin name P names_P e rest (names_Q e q) distinct.0 p)
  one_entry (e ∷ rest) distinct (inr p) (inr q) = one_entry rest distinct.1 p q

forward_idem : (t : Text) → forward (forward t) ≡ forward t
unfolding forward replace_byte
forward_idem [] = refl
forward_idem (b ∷ t) = ground (arith, forward_idem t)

append-cancel : (s t u : Text) → s ++ t ≡ s ++ u → t ≡ u
append-cancel [] t u h = h
append-cancel (b ∷ s) t u h = append-cancel s t u (cc h)

forward_prefix : (path : Text) → text "payload/" ++ forward path ≡ forward (text "payload/" ++ path)
unfolding forward replace_byte text
forward_prefix path = refl

-- the part of a plain name after `payload/` has slashes of one direction
plain_forward : (name path : Text) → forward name ≡ text "payload/" ++ path → forward path ≡ path
plain_forward name path h =
    append-cancel (text "payload/") (forward path) path
      (forward_prefix path ∙ ap forward (sym h) ∙ forward_idem name ∙ h)

contains_key→Any :
    (hashes : PayloadHashes) (key : Text)
    → contains_key hashes key ≡ true
    → Any (λ p. p.0 ≡ key) hashes
unfolding contains_key
contains_key→Any hashes key h =
    (any_iff (λ p. text_eq p.0 key) (λ p. p.0 ≡ key) (λ p. text_eq_iff p.0 key) hashes).0 h

-- the manifest lists the file with the hash of these bytes
abbrev pub Lists : (Text → Text) → Text → Text → Text × Text → Type 0
Lists sha256 path contents p = (p.0 ≡ path) × (eq_ignore_ascii_case (sha256 contents) p.1 ≡ true)

Any-one : {A : Type 0} (P : A → Type 0) (xs : List A) → Any P xs → (x : A) × P x
Any-one P [] h = elim h [ ]
Any-one P (x ∷ xs) (inl h) = (x, h)
Any-one P (x ∷ xs) (inr h) = Any-one P xs h

plain-name :
    (path contents : Text) (e : Entry)
    → IsPlain e × Writes path contents e
    → forward e.name ≡ text "payload/" ++ path
plain-name path contents e (plain, writes) = plain path writes.0 writes.1

-- an entry that was covered has a path that the manifest has
verify_entry-key :
    (hashes : PayloadHashes) (e : Entry) (path contents : Text)
    → Writes path contents e
    → verify_entry hashes e ≡ ok tt
    → contains_key hashes (forward path) ≡ true
unfolding verify_entry verify_key
verify_entry-key hashes e path contents (file, target, opened) h =
    elim (if_came (is_payload_file (forward e.name)) h) [
      | inl (e1, covered) ↦
          let (relative, same, last) = bind-ok (payload_path (forward e.name)) _ tt covered in
          rw (← ok-inj (sym same ∙ target))
            (ensure-ok (contains_key hashes (forward relative)) _ last)
      | inr (other, same) ↦ cc (file, other)
    ]

module _ (sha256 : Text → Text) (hashes : PayloadHashes) (entries : List Entry)
    (path contents : Text) where
  -- a file of the manifest with this path has the hash of what the entry holds
  listed-Lists :
      DistinctNames entries
      → Any (λ e. IsPlain e × Writes path contents e) entries
      → forward path ≡ path
      → Stays path
      → (p : Text × Text) → (verify_listed sha256 (map ok entries) p.0 p.1 ≡ ok tt) × (p.0 ≡ path)
      → Lists sha256 path contents p
  listed-Lists distinct writes plain stays p (listed, same) =
      let (hash, found, equal) =
        verify_listed-HasHash sha256 entries path p.1 plain stays (rw (← same) listed) in
      let (e, (plain_e, wrote), (named, (bytes, opened, hashed))) =
        one_entry (λ e. IsPlain e × Writes path contents e)
          (HasHash sha256 (text "payload/" ++ path) hash) (text "payload/" ++ path)
          (plain-name path contents) (λ e h. h.0) entries distinct writes found in
      (same, rw (ok-inj (sym wrote.2 ∙ opened), hashed) equal)

  -- for an entry that writes the file, in a package that was verified
  entry-Lists :
      All IsPlain entries
      → DistinctNames entries
      → verify_hashes sha256 (map ok entries) hashes ≡ ok tt
      → verify_entries hashes (map ok entries) ≡ ok tt
      → Any (Writes path contents) entries
      → Any (Lists sha256 path contents) hashes
  unfolding payload_path
  entry-Lists plain distinct listed covered writes =
      let written = Any-All IsPlain (Writes path contents) entries plain writes in
      let (e, (checked, (plain_e, wrote))) = Any-one _ entries (
        Any-All (λ e. verify_entry hashes e ≡ ok tt) (λ e. IsPlain e × Writes path contents e)
          entries (verify_entries-All hashes entries covered) written) in
      let plain_path = plain_forward e.name path (plain-name path contents e (plain_e, wrote)) in
      let keyed =
        contains_key→Any hashes path
          (rw (← plain_path) (verify_entry-key hashes e path contents wrote checked)) in
      Any-map _ _
        (listed-Lists distinct written plain_path (safe_relative_path-Stays _ path wrote.1)) hashes
        (Any-All _ _ hashes (verify_hashes-All sha256 (map ok entries) hashes listed) keyed)

  -- `verify_payload_hashes` and `extract_payload_to`: let the entries of a package open, have names
  -- that differ also with their slashes turned forward, and let each file of the payload have for its
  -- name `payload/` and the path it is extracted to. Where the package is verified against the
  -- manifest and extracted, every file that is then in the folder is listed in the manifest with the
  -- hash of its contents.
  pub verify_payload_hashes-extract :
      (create : Text → Outcome (Unit {0})) (tree : Tree)
      → All IsPlain entries
      → DistinctNames entries
      → verify_payload_hashes sha256 (ok (map ok entries)) hashes ≡ ok tt
      → extract_payload_to create [] (map ok entries) ≡ ok tree
      → read tree path ≡ some contents
      → Any (Lists sha256 path contents) hashes
  unfolding verify_payload_hashes read
  verify_payload_hashes-extract create tree plain distinct verified extracted found =
      let (u, some_hashes, h1) = bind-ok (ensure (not (is_empty_map hashes)) _) _ tt verified in
      let (v, listed, covered) = bind-ok (verify_hashes sha256 (map ok entries) hashes) _ tt h1 in
      elim (extract-Writes create [] tree entries path contents extracted found) [
        | inl before ↦ cc before
        | inr writes ↦ entry-Lists plain distinct listed covered writes
      ]
