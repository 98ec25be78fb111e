-- ===== src/Signatures/Packs/Compiled.antt =====
-- A pack that was compiled is a pack that loads (signature_compiler.rs, signature_db.rs).
use mathlib.Core.List.{Permᴰ}
use mathlib.Core.List.Permᴰ
use zentor.Prelude.{ℕ, ◌≡◌, refl, true, false, some, List, [], ◌∷◌, ◌++◌, ap, length}
use Prim.Native.Nat.{Ordering}
use zentor.Text.{Text, eq_ignore_ascii_case}
use zentor.Text.Laws.{text_eq_refl, eq_ignore_ascii_case_iff}
use zentor.Text.Space.{is_blank}
use zentor.Path.{text_compare}
use zentor.Outcome.{ok, bind-ok, ok-inj}
use zentor.Signatures.{NativeSignature, SignaturePack, SignaturePackMetadata}
use zentor.Signatures.Packs.{
  PackCode, insert_by_id, sort_by_id, validate_signatures, canonical_pack_bytes, verify_pack,
  unhashed_pack, metadata_of, compile_pack, load_one, signature_pack_format, broad_signature_count,
}

insert_step :
    (o : Ordering) (s t : NativeSignature) (rest later : List NativeSignature)
    → Permᴰ (s ∷ rest) later
    → Permᴰ (s ∷ t ∷ rest) (elim o [ Ordering.gt ↦ t ∷ later | _ ↦ s ∷ t ∷ rest ])
insert_step Ordering.lt s t rest later d = Permᴰ.refl (s ∷ t ∷ rest)
insert_step Ordering.eq s t rest later d = Permᴰ.refl (s ∷ t ∷ rest)
insert_step Ordering.gt s t rest later d = Permᴰ.trans (Permᴰ.swap refl refl) (Permᴰ.cons refl d)

insert_by_id-Permᴰ :
    (s : NativeSignature) (xs : List NativeSignature) → Permᴰ (s ∷ xs) (insert_by_id s xs)
unfolding insert_by_id
insert_by_id-Permᴰ s [] = Permᴰ.refl (s ∷ [])
insert_by_id-Permᴰ s (t ∷ rest) =
    insert_step (text_compare s.id t.id) s t rest (insert_by_id s rest) (insert_by_id-Permᴰ s rest)

sort_by_id-Permᴰ : (xs : List NativeSignature) → Permᴰ xs (sort_by_id xs)
unfolding sort_by_id
sort_by_id-Permᴰ [] = Permᴰ.nil
sort_by_id-Permᴰ (x ∷ xs) =
    Permᴰ.trans (Permᴰ.cons refl (sort_by_id-Permᴰ xs)) (insert_by_id-Permᴰ x (sort_by_id xs))

eq_ignore_ascii_case_refl : (t : Text) → eq_ignore_ascii_case t t ≡ true
eq_ignore_ascii_case_refl t = (eq_ignore_ascii_case_iff t t).1 refl

module _ (code : PackCode) where
  open code use {sha256_bytes}

  -- the pack that `compile_pack` gives
  hashed_pack : Text → ℕ → Text → List NativeSignature → List ℕ → SignaturePack
  hashed_pack compiler_version now version signatures canonical =
      record (unhashed_pack code compiler_version now version signatures) {
        pack_sha256 = some (sha256_bytes canonical);
      }

  load_one-hashed :
      (cv : Text) (now : ℕ) (version : Text) (signatures loaded : List NativeSignature)
      (canonical : List ℕ)
      → is_blank version ≡ false
      → validate_signatures signatures ≡ ok tt
      → canonical_pack_bytes code (unhashed_pack code cv now version signatures) ≡ ok canonical
      → load_one code loaded (hashed_pack cv now version signatures canonical)
        ≡ ok (loaded ++ signatures)
  unfolding load_one canonical_pack_bytes verify_pack unhashed_pack hashed_pack
  load_one-hashed cv now version signatures loaded canonical named valid bytes = rw (
    bytes,
    text_eq_refl signature_pack_format,
    named,
    eq_ignore_ascii_case_refl (sha256_bytes canonical),
    valid,
  )

  -- `compile_pack` and `SignatureDb::load_one`: a pack that was compiled with a version that is not
  -- blank is accepted by the loader, with its hash, and adds the signatures that were compiled, in
  -- another order, to the database; the metadata counts them.
  pub load_one-compile_pack :
      (cv : Text) (now : ℕ) (signatures loaded : List NativeSignature) (version : Text)
      (pack : SignaturePack) (metadata : SignaturePackMetadata)
      → is_blank version ≡ false
      → compile_pack code cv now signatures version ≡ ok (pack, metadata)
      → (load_one code loaded pack ≡ ok (loaded ++ pack.signatures))
        × Permᴰ signatures pack.signatures
        × (metadata.signature_count ≡ length pack.signatures)
        × (metadata.broad_signature_count ≡ broad_signature_count pack.signatures)
  unfolding compile_pack metadata_of hashed_pack unhashed_pack
  load_one-compile_pack cv now signatures loaded version pack metadata named h =
      let (u, valid, r1) =
        bind-ok (validate_signatures (sort_by_id signatures)) _ (pack, metadata) h in
      let (canonical, bytes, r2) =
        bind-ok
          (canonical_pack_bytes code (unhashed_pack code cv now version (sort_by_id signatures))) _
          (pack, metadata) r1 in
      let same = ok-inj r2 in
      rw (← ap (λ made. made.0) same, ← ap (λ made. made.1) same)
        (
          load_one-hashed cv now version (sort_by_id signatures) loaded canonical named valid bytes,
          sort_by_id-Permᴰ signatures,
          refl,
          refl,
        )
