-- ===== src/Update/Verifier/Accepted.antt =====
-- What an accepted package is (update_verifier.rs).
use zentor.Prelude.{
  ◌≡◌, ◌≢◌, refl, sym, ap, ◌∙◌, Bool, true, false, not, Option, none, some, List, [], ◌∷◌, map, All,
  Any, ltb, if_came, inl, inr,
}
use zentor.Prelude.Int.{pos, pos_part}
use zentor.Text.{Text, text_eq}
use zentor.Text.Laws.{text_eq_iff}
use zentor.Text.Space.{is_blank}
use zentor.Outcome.{Outcome, ok, ensure, when, ◌>>◌, bind-ok, ok-inj, ensure-ok}
use zentor.Update.{compare_versions}
use zentor.Update.Versions.{compare_versions_positive}
use zentor.Update.Package.{Entry, Tree, read, extract_payload_to, verify_payload_hashes}
use zentor.Update.Package.Payload.{IsPlain, DistinctNames, Lists, verify_payload_hashes-extract}
use zentor.Update.Manifest.{UpdateManifest, validate_static_fields}
use zentor.Update.Verifier.{
  VerificationPolicy, Environment, UpdatePackage, VerifiedUpdate, get_key, key_or_error, channel_eq,
  dev_public_key_id, filter_blank, or_else, configured_public_keys, production, verify_manifest,
  verify_manifest_signature, verify_package,
}

-- `bind-ok` where the value does not matter
then-ok :
    {B : Type 0} (m : Outcome (Unit {0})) (f : Outcome B) (b : B)
    → (m >> f) ≡ ok b
    → (m ≡ ok tt) × (f ≡ ok b)
then-ok m f b h = let (u, e, h') = bind-ok m (λ u. f) b h in (e, h')

key_or_error-ok :
    (id : Text) (o : Option Text) (hex : Text) → key_or_error id o ≡ ok hex → o ≡ some hex
key_or_error-ok id none hex h = cc
key_or_error-ok id (some k) hex h = ap some (ok-inj h)

when-ok :
    (test : Bool) (step : Outcome (Unit {0})) → test ≡ true → when test step ≡ ok tt → step ≡ ok tt
when-ok true step e h = h
when-ok false step e h = cc

module _ {Key Signature : Type 0} (policy : VerificationPolicy)
    (update : UpdatePackage Key Signature) where
  -- the bytes of the manifest are signed with a key that the policy holds under the manifest's name
  pub record IsSigned (manifest : UpdateManifest) : Type 0 where
    pub hex : Text
    pub key : Key
    pub signed : Text × Signature
    pub known : get_key policy.public_keys manifest.public_key_id ≡ some hex
    pub decoded : update.decode_key hex ≡ ok key
    pub opened : update.manifest_bytes_and_signature ≡ ok signed
    pub verified : update.verify key signed.0 signed.1 ≡ true

  verify_manifest_signature-IsSigned :
      (manifest : UpdateManifest)
      → update.read_manifest ≡ ok manifest
      → verify_manifest_signature policy update ≡ ok tt
      → IsSigned manifest
  unfolding verify_manifest_signature
  verify_manifest_signature-IsSigned manifest e h =
      let (m, e', h1) = bind-ok update.read_manifest _ tt h in
      let (hex, known, h2) =
        bind-ok (key_or_error m.public_key_id (get_key policy.public_keys m.public_key_id)) _ tt
          h1 in
      let (key, decoded, h3) = bind-ok (update.decode_key hex) _ tt h2 in
      let (signed, opened, last) = bind-ok update.manifest_bytes_and_signature _ tt h3 in
      let same = ok-inj (sym e' ∙ e) in
      record {
        hex = hex;
        key = key;
        signed = signed;
        known = rw (← same) (key_or_error-ok m.public_key_id _ hex known);
        decoded = decoded;
        opened = opened;
        verified = ensure-ok (update.verify key signed.0 signed.1) _ last;
      }

  -- what the checks of an accepted manifest say
  pub record IsAdmitted (manifest : UpdateManifest) : Type 0 where
    pub static_fields : validate_static_fields manifest ≡ ok tt
    pub same_channel : channel_eq manifest.channel policy.channel ≡ true
    pub newer : compare_versions manifest.version policy.current_version ≡ pos 1
    pub dev_key :
        text_eq manifest.public_key_id dev_public_key_id ≡ true → policy.allow_dev_key ≡ true

  verify_manifest-IsAdmitted :
      (manifest : UpdateManifest)
      → verify_manifest policy update manifest ≡ ok tt
      → IsAdmitted manifest
  unfolding verify_manifest
  verify_manifest-IsAdmitted manifest h =
      let (static_fields, h1) = then-ok (validate_static_fields manifest) _ tt h in
      let (channel, h2) = then-ok (ensure (channel_eq manifest.channel policy.channel) _) _ tt h1 in
      let (newer, last) =
        then-ok
          (ensure (ltb 0 (pos_part (compare_versions manifest.version policy.current_version))) _) _
          tt h2 in
      record {
        static_fields = static_fields;
        same_channel = ensure-ok (channel_eq manifest.channel policy.channel) _ channel;
        newer =
            compare_versions_positive manifest.version policy.current_version (ensure-ok _ _ newer);
        dev_key = λ e. ensure-ok policy.allow_dev_key _ (when-ok _ _ e last);
      }

  -- `UpdateVerifier::verify_package`: a package that is accepted has the manifest that was read, this
  -- passes its static checks, is for the policy's channel and is newer than the installed version, its
  -- bytes are signed with a key that the policy holds under the manifest's name, which is not the
  -- development key's unless that is allowed, and the payload has the hashes of the manifest.
  pub verify_package-accepted :
      (v : VerifiedUpdate)
      → verify_package policy update ≡ ok v
      → (update.read_manifest ≡ ok v.manifest)
        × IsAdmitted v.manifest
        × IsSigned v.manifest
        × (verify_payload_hashes update.sha256 update.opened v.manifest.payload_hashes ≡ ok tt)
  unfolding verify_package
  verify_package-accepted v h =
      let (manifest, was_read, h1) = bind-ok update.read_manifest _ v h in
      let (admitted, h2) = then-ok (verify_manifest policy update manifest) _ v h1 in
      let (hash, hashed, h3) = bind-ok update.package_sha256 _ v h2 in
      let (whole, h4) = then-ok (when (not (is_blank manifest.package_sha256)) _) _ v h3 in
      let (signed, h5) = then-ok (verify_manifest_signature policy update) _ v h4 in
      let (payload, last) =
        then-ok (verify_payload_hashes update.sha256 update.opened manifest.payload_hashes) _ v
          h5 in
      let same : manifest ≡ v.manifest = ap (λ u. u.manifest) (ok-inj last) in
      rw (← same) (
        was_read,
        verify_manifest-IsAdmitted manifest admitted,
        verify_manifest_signature-IsSigned manifest was_read signed,
        payload,
      )

  -- A package that `verify_package` accepts and that is extracted: let its entries open, have names
  -- that differ also with their slashes turned forward, and let each file of the payload have for its
  -- name `payload/` and the path it is extracted to. Then every file in the folder is listed, with the
  -- hash of its contents, in a manifest whose bytes are signed with a key of the policy and that is
  -- newer than the installed version.
  pub verify_package-extract :
      (v : VerifiedUpdate) (entries : List Entry) (create : Text → Outcome (Unit {0})) (tree : Tree)
      → verify_package policy update ≡ ok v
      → update.opened ≡ ok (map ok entries)
      → All IsPlain entries
      → DistinctNames entries
      → extract_payload_to create [] (map ok entries) ≡ ok tree
      → IsAdmitted v.manifest
        × IsSigned v.manifest
        × ((path contents : Text)
            → read tree path ≡ some contents
            → Any (Lists update.sha256 path contents) v.manifest.payload_hashes)
  verify_package-extract v entries create tree accepted opened plain distinct extracted =
      let (was_read, admitted, signed, payload) = verify_package-accepted v accepted in
      (
        admitted,
        signed,
        λ path contents.
            verify_payload_hashes-extract update.sha256 v.manifest.payload_hashes entries path
              contents create tree plain distinct (rw (← opened) payload) extracted,
      )

module _ {Key Signature : Type 0} (env : Environment) (update : UpdatePackage Key Signature) where
  get_key_only :
      (id k hex found : Text) → get_key ((k, hex) ∷ []) id ≡ some found → text_eq k id ≡ true
  unfolding get_key
  get_key_only id k hex found h = elim (if_came (text_eq k id) h) [
    | inl (same, e) ↦ same
    | inr (other, e) ↦ cc e
  ]

  unset_key :
      (id found : Text)
      → filter_blank env.public_key_id ≡ none
      → get_key (configured_public_keys env) id ≡ some found
      → id ≡ dev_public_key_id
  unfolding configured_public_keys
  unset_key id found unset h =
      let only =
        get_key_only id (or_else (filter_blank env.public_key_id) dev_public_key_id) _ found h in
      sym ((text_eq_iff _ id).0 only) ∙ rw unset refl

  -- A build for production accepts no package while no key identifier is configured, or only a blank
  -- one: its one key then has the identifier of the development key, which it refuses.
  pub verify_package-production :
      (current_version : Text) (v : VerifiedUpdate)
      → filter_blank env.public_key_id ≡ none
      → verify_package (production env current_version) update ≢ ok v
  unfolding production
  verify_package-production current_version v unset h =
      let (was_read, admitted, signed, payload) =
        verify_package-accepted (production env current_version) update v h in
      let same = unset_key v.manifest.public_key_id signed.hex unset signed.known in
      cc (admitted.dev_key ((text_eq_iff v.manifest.public_key_id dev_public_key_id).1 same))
