-- ===== src/Signatures/Packs/Accepted.antt =====
-- What the validation of signature packs ensures of the matches of the database that is loaded
-- (signature_compiler.rs, signature_db.rs).
use zentor.Prelude.{
  ℕ, ◌≤◌, ◌≡◌, refl, Bool, true, false, ◌&&◌, not, Option, none, some, List, [], ◌∷◌, arith, All,
  All-append, All-map, Any, Any-map, Any-All, push_some, inl, inr, if◌then◌else◌, sym, ◌∙◌,
}
use zentor.Prelude.Int.{pos, leb_ℤ}
use zentor.Text.{Text}
use zentor.Text.{text}
use zentor.Text.Space.{is_blank}
use zentor.Verdict.{is_confirmed}
use zentor.Prelude.{ap}
use zentor.Outcome.{Outcome, ok, fail, panic, ◌>>=◌, bind-ok, ok-inj}
use zentor.Verdict.{Confidence, low, medium, high, confirmed}
use zentor.Analysis.{StaticAnalysis}
use zentor.Signatures.{NativeSignature, SignatureMatch, SignaturePack}
use zentor.Signatures.Matcher.{
  signature_weight, eicar_ascii, match_of, match_if, matches_signature, match_bytes, applies,
  type_matches,
}
use zentor.Signatures.Packs.{
  PackCode, is_broad, is_low, is_overconfident, validate_signature, validate_signatures,
  lacks_metadata, lacks_policy, canonical_pack_bytes, verify_pack, load_one, load_packs, built_in,
}

abbrev pub IsAccepted : NativeSignature → Type 0
IsAccepted signature = validate_signature signature ≡ ok tt

validate_signatures-All :
    (signatures : List NativeSignature)
    → validate_signatures signatures ≡ ok tt
    → All IsAccepted signatures
unfolding validate_signatures
validate_signatures-All [] h = tt
validate_signatures-All (s ∷ rest) h =
    let (u, first, later) = bind-ok (validate_signature s) _ tt h in
    (first, validate_signatures-All rest later)

heavy_confidence : (c : Confidence) → 90 ≤ signature_weight c → c ≡ confirmed
unfolding signature_weight
heavy_confidence low h = ground arith
heavy_confidence medium h = ground arith
heavy_confidence high h = ground arith
heavy_confidence confirmed h = refl

accepted-not_overconfident : (s : NativeSignature) → IsAccepted s → is_overconfident s ≡ false
unfolding validate_signature
accepted-not_overconfident s h = ground arith

not_broad : (b : Bool) (c : Confidence) → (b && not (is_low c)) ≡ false → c ≡ confirmed → b ≡ false
not_broad b low h e = cc
not_broad b medium h e = cc
not_broad b high h e = cc
not_broad b confirmed h e = ground arith

-- A signature whose matches weigh 90 or more has confirmed confidence and is not broad.
abbrev pub IsHeavy : NativeSignature → Type 0
IsHeavy s = (s.confidence ≡ confirmed) × (is_broad s ≡ false)

accepted-IsHeavy :
    (s : NativeSignature) → IsAccepted s → 90 ≤ signature_weight s.confidence → IsHeavy s
unfolding is_overconfident
accepted-IsHeavy s accepted heavy =
    let c = heavy_confidence s.confidence heavy in
    (c, not_broad (is_broad s) s.confidence (accepted-not_overconfident s accepted) c)

module _ (code : PackCode) where
  load_one-All :
      (loaded : List NativeSignature) (pack : SignaturePack) (all : List NativeSignature)
      → All IsAccepted loaded
      → load_one code loaded pack ≡ ok all
      → All IsAccepted all
  unfolding load_one
  load_one-All loaded pack all h e =
      let (bytes, e1, r1) = bind-ok (canonical_pack_bytes code pack) _ all e in
      let (u, e2, r2) = bind-ok (verify_pack code pack bytes) _ all r1 in
      let (v, e3, r3) = bind-ok (validate_signatures pack.signatures) _ all r2 in
      rw (← ok-inj r3) (
        All-append IsAccepted loaded pack.signatures h (validate_signatures-All pack.signatures e3))

  load_packs-All :
      (loaded : List NativeSignature) (packs : List SignaturePack) (all : List NativeSignature)
      → All IsAccepted loaded
      → load_packs code loaded packs ≡ ok all
      → All IsAccepted all
  unfolding load_packs
  load_packs-All loaded [] all h e = rw (← ok-inj e) h
  load_packs-All loaded (pack ∷ rest) all h e =
      let (more, e1, r1) = bind-ok (load_one code loaded pack) _ all e in
      load_packs-All more rest all (load_one-All loaded pack more h e1) r1

  built_in-All : (now : ℕ) → All IsAccepted (built_in now)
  unfolding built_in validate_signature lacks_metadata is_overconfident lacks_policy is_broad
      is_blank text is_confirmed eicar_ascii
  built_in-All now = (refl, tt)

module _ {F : Type 0} (sha256 : Text) (bytes : List ℕ) (a : StaticAnalysis F) where
  matched_source :
      (s : NativeSignature) (go : Bool) (t : Outcome Bool) (m : SignatureMatch)
      → (if go then t >>= (λ b. ok (match_if s b)) else ok none) ≡ ok (some m)
      → m ≡ match_of s
  matched_source s true (ok true) m h = cc
  matched_source s true (ok false) m h = cc
  matched_source s true (fail message) m h = cc
  matched_source s true panic m h = cc
  matched_source s false t m h = cc

  matches_signature-some :
      (s : NativeSignature) (m : SignatureMatch)
      → matches_signature s sha256 bytes a ≡ ok (some m)
      → m ≡ match_of s
  unfolding matches_signature
  matches_signature-some s m h =
      matched_source s (applies s bytes a) (type_matches s.signature_type s sha256 bytes a) m h

  push_some-sources :
      (s : NativeSignature) (rest : List NativeSignature) (first : Option SignatureMatch)
      (later : List SignatureMatch)
      → matches_signature s sha256 bytes a ≡ ok first
      → All (λ m. Any (λ s. m ≡ match_of s) rest) later
      → All (λ m. Any (λ s. m ≡ match_of s) (s ∷ rest)) (push_some first later)
  push_some-sources s rest none later e h = All-map _ _ (λ m source. inr source) later h
  push_some-sources s rest (some m) later e h =
      (inl (matches_signature-some s m e), All-map _ _ (λ m source. inr source) later h)

  match_bytes-sources :
      (signatures : List NativeSignature) (matches : List SignatureMatch)
      → match_bytes signatures sha256 bytes a ≡ ok matches
      → All (λ m. Any (λ s. m ≡ match_of s) signatures) matches
  unfolding match_bytes
  match_bytes-sources [] matches h = rw (← ok-inj h) tt
  match_bytes-sources (s ∷ rest) matches h =
      let (first, e1, r1) = bind-ok (matches_signature s sha256 bytes a) _ matches h in
      let (later, e2, r2) = bind-ok (match_bytes rest sha256 bytes a) _ matches r1 in
      rw (← ok-inj r2) (push_some-sources s rest first later e1 (match_bytes-sources rest later e2))

heavy_number : (n : ℕ) → leb_ℤ (pos 90) (pos n) ≡ true → 90 ≤ n
heavy_number n h = ground arith

heavy_weight :
    (s : NativeSignature) (m : SignatureMatch)
    → m ≡ match_of s
    → leb_ℤ (pos 90) m.weight ≡ true
    → 90 ≤ signature_weight s.confidence
unfolding match_of
heavy_weight s m e heavy =
    heavy_number (signature_weight s.confidence) (ap (λ m. leb_ℤ (pos 90) m.weight) (sym e) ∙ heavy)

-- The signature database: when the packs are accepted (`load_packs` over the built-in signature
-- succeeds) and a file is matched without a panic, every match of weight 90 or more, which is what
-- `fuse` takes for a confirmed signature, comes from a loaded signature of confirmed confidence that
-- is not broad: it is no pattern search, or its pattern has 12 bytes at least without blanks and `_`.
pub match_bytes-load_packs :
    (code : PackCode) (now : ℕ) (packs : List SignaturePack) (signatures : List NativeSignature)
    {F : Type 0} (sha256 : Text) (bytes : List ℕ) (a : StaticAnalysis F)
    (matches : List SignatureMatch)
    → load_packs code (built_in now) packs ≡ ok signatures
    → match_bytes signatures sha256 bytes a ≡ ok matches
    → All
        (λ m. leb_ℤ (pos 90) m.weight ≡ true → Any (λ s. (m ≡ match_of s) × IsHeavy s) signatures)
        matches
match_bytes-load_packs code now packs signatures sha256 bytes a matches loaded matched =
    let accepted =
      load_packs-All code (built_in now) packs signatures (built_in-All code now) loaded in
    All-map _ _
      (λ m source heavy.
        Any-map _ _ (λ s h. (h.1, accepted-IsHeavy s h.0 (heavy_weight s m h.1 heavy))) signatures
          (Any-All _ _ signatures accepted source))
      matches (match_bytes-sources sha256 bytes a signatures matches matched)
