-- ===== src/Engine/Eicar.antt =====
-- The EICAR test text is always found, and the self-test of the engine passes (engine.rs).
use zentor.Prelude.{
  ℕ, ◌≡◌, refl, ap, ◌∙◌, ◌⊎◌, inl, inr, Bool, true, false, Option, none, some, List, [], ◌∷◌, ◌++◌,
  map, Any, Any-append_left, Any-append_right, Any-to_map, any_iff,
}
use zentor.Text.{Text, text, text_eq, to_ascii_lowercase}
use zentor.Text.Laws.{text_eq_iff, contains-append}
use zentor.Float.{Float}
use zentor.Outcome.{Outcome, ok, fail, ◌>>=◌}
use zentor.Verdict.{
  Verdict, Confidence, FinalVerdict, ScanActionMode, detect_only, is_confirmed_threat,
}
use zentor.Verdict.Fusion.{has_test, id_is}
use zentor.Verdict.Fusion.Confirmation.{IsAuto, fuse-has_test}
use zentor.Trust.{allowlist_contains, store_contains}
use zentor.Analysis.{StaticAnalysis, FileType}
use zentor.Analysis.Whole.{analysis_of, analyze_path, pe_part, archive_part}
use zentor.Analysis.Kind.{detect_file_type}
use zentor.Signatures.{NativeSignature, SignatureMatch}
use zentor.Signatures.Matcher.{
  eicar_ascii, contains_eicar, match_of, match_bytes, matches_signature, applies, type_matches,
  file_type_allowed, required_context_matches,
}
use zentor.Signatures.Packs.{built_in, eicar_signature}
use zentor.Engine.{NativeEngine, Content, FileScanVerdict}
use zentor.Engine.Collect.{known_bad_evidence, trust_evidence, signature_item, collect_evidence}
use zentor.Engine.Move.{QuarantineRecord, MoveAnswers, quarantine_file}
use zentor.Engine.Quarantine.{Gives, EndsAs, scan_bytes_at-judge}
use zentor.Engine.Scan.{judge, scan_bytes_at, own_content, engine_self_test}

-- The identifier of the built-in signature.
abbrev eicar_id : Text
eicar_id = text "eicar_test_signature"

module _ {F : Type 0} (sha256 : Text) (bytes : List ℕ) (a : StaticAnalysis F) where
  built_in-match :
      (now : ℕ) (more : List NativeSignature)
      → contains_eicar bytes ≡ true
      → (m : SignatureMatch) × (m.signature_id ≡ eicar_id)
        × (match_bytes (built_in now ++ more) sha256 bytes a
            ≡ (match_bytes more sha256 bytes a >>= λ later. ok (m ∷ later)))
  unfolding built_in match_bytes matches_signature applies file_type_allowed type_matches match_of
      to_ascii_lowercase text_eq text required_context_matches
  built_in-match now more found = (match_of (eicar_signature now), refl, rw found refl)

never_auto : IsAuto detect_only → ⊥
never_auto (inl e) = cc
never_auto (inr e) = cc

-- The identifier stands in the evidence.
has_test-signature_item :
    (matches : List SignatureMatch)
    → Any (λ m. m.signature_id ≡ eicar_id) matches
    → Any (λ e. e.id ≡ eicar_id) (map signature_item matches)
unfolding signature_item
has_test-signature_item matches h = Any-to_map (λ e. e.id ≡ eicar_id) signature_item matches h

module _ {F : Type 0} (fl : Float F) (engine : NativeEngine F) (signed : Bool) (path : Text)
    (bytes : List ℕ) (content : Content) (a : StaticAnalysis F) where
  judge-eicar :
      (matches : List SignatureMatch)
      → Any (λ m. m.signature_id ≡ eicar_id) matches
      → let v = judge fl engine signed path content.sha256 bytes a matches in
        (v.verdict ≡ Verdict.test_threat) × (v.confidence ≡ Confidence.confirmed)
  unfolding judge collect_evidence has_test
  judge-eicar matches h = fuse-has_test _ _ _ (
      (any_iff (id_is eicar_id) (λ e. e.id ≡ eicar_id) (λ e. text_eq_iff e.id eicar_id) _).1 (
        Any-append_right (λ e. e.id ≡ eicar_id)
          (known_bad_evidence (store_contains engine.known_bad content.sha256)) _
          (Any-append_right (λ e. e.id ≡ eicar_id)
            (trust_evidence fl (store_contains engine.known_bad content.sha256) signed path) _
            (Any-append_left (λ e. e.id ≡ eicar_id) (map signature_item matches) _
              (has_test-signature_item matches h)))))

  ends_or_fails :
      (matches : List SignatureMatch) (mode : ScanActionMode) (allow : Bool)
      (scan : Outcome FileScanVerdict) (v : FinalVerdict) (moved : Outcome QuarantineRecord)
      → EndsAs fl engine signed path bytes content a matches mode allow scan v moved
      → ((quarantine_record : Option QuarantineRecord) × Gives scan v quarantine_record)
        ⊎ (IsAuto mode
            × (allowlist_contains engine.allowlist path content.sha256 ≡ false)
            × (allow ≡ true)
            × ((message : Text) × (moved ≡ fail message) × (scan ≡ fail message)))
  ends_or_fails matches mode allow scan v moved (inl (not_wanted, given)) = inl (none, given)
  ends_or_fails matches mode allow scan v moved (inr (wanted, inl (r, e, given))) =
      inl (some r, given)
  ends_or_fails matches mode allow scan v moved
        (inr ((auto, (confirms, (listed, on))), inr failed)) =
      inr (auto, listed, on, failed)

  -- `scan_bytes_at` over the built-in signature and any others, where the analysis and the other
  -- signatures give a result: a file that contains the EICAR text is judged a test threat with
  -- confirmed confidence, whatever else is found in it and whether or not it is trusted or
  -- allowlisted. The scan ends with that verdict, unless the mode and the caller ask for the
  -- quarantine of a file that is not allowlisted and the store fails, whose error the scan ends with.
  pub scan_bytes_at-eicar :
      (move : MoveAnswers) (mode : ScanActionMode) (allow : Bool) (now : ℕ)
      (more : List NativeSignature) (later : List SignatureMatch) (l r : List ℕ)
      → engine.signatures ≡ built_in now ++ more
      → bytes ≡ l ++ (eicar_ascii ++ r)
      → analyze_path fl path bytes ≡ ok a
      → match_bytes more content.sha256 bytes a ≡ ok later
      → (v : FinalVerdict) × (v.verdict ≡ Verdict.test_threat)
        × (v.confidence ≡ Confidence.confirmed)
        × (((quarantine_record : Option QuarantineRecord) × Gives
                (scan_bytes_at fl engine move signed path bytes mode allow content)
                v
                quarantine_record)
            ⊎ (IsAuto mode
                × (allowlist_contains engine.allowlist path content.sha256 ≡ false)
                × (allow ≡ true)
                × ((message : Text) × (quarantine_file move path content.sha256
                        v.user_visible_explanation false
                      ≡ fail message)
                    × (scan_bytes_at fl engine move signed path bytes mode allow content
                        ≡ fail message))))
  unfolding contains_eicar
  scan_bytes_at-eicar move mode allow now more later l r loaded holds analysed matched =
      let (m, same, all_matches) =
        built_in-match content.sha256 bytes a now more
          (rw holds (contains-append l eicar_ascii r)) in
      let every : match_bytes engine.signatures content.sha256 bytes a ≡ ok (m ∷ later) =
        rw (loaded, all_matches, matched) refl in
      let (verdict, confidence) = judge-eicar (m ∷ later) (inl same) in
      (
        judge fl engine signed path content.sha256 bytes a (m ∷ later),
        verdict,
        confidence,
        ends_or_fails (m ∷ later) mode allow _ _ _ (
            scan_bytes_at-judge fl engine signed path bytes content a (m ∷ later) move mode allow
              analysed every),
      )

  given_eicar :
      (scan : Outcome FileScanVerdict) (v : FinalVerdict)
      → v.verdict ≡ Verdict.test_threat
      → v.confidence ≡ Confidence.confirmed
      → (quarantine_record : Option QuarantineRecord) × Gives scan v quarantine_record
      → (s : FileScanVerdict) × (scan ≡ ok s)
        × (s.final_verdict.verdict ≡ Verdict.test_threat)
        × (s.final_verdict.confidence ≡ Confidence.confirmed)
  given_eicar scan v verdict confidence (r, (s, e, same, kept)) =
      (s, e, ap (λ f. f.verdict) same ∙ verdict, ap (λ f. f.confidence) same ∙ confidence)

  -- A scan that only detects has no quarantine to fail.
  pub detect_only-eicar :
      (move : MoveAnswers) (allow : Bool) (now : ℕ) (more : List NativeSignature)
      (later : List SignatureMatch) (l r : List ℕ)
      → engine.signatures ≡ built_in now ++ more
      → bytes ≡ l ++ (eicar_ascii ++ r)
      → analyze_path fl path bytes ≡ ok a
      → match_bytes more content.sha256 bytes a ≡ ok later
      → (s : FileScanVerdict) × (scan_bytes_at fl engine move signed path bytes detect_only allow
            content
          ≡ ok s)
        × (s.final_verdict.verdict ≡ Verdict.test_threat)
        × (s.final_verdict.confidence ≡ Confidence.confirmed)
  detect_only-eicar move allow now more later l r loaded holds analysed matched =
      let (v, verdict, confidence, ending) =
        scan_bytes_at-eicar move detect_only allow now more later l r loaded holds analysed
          matched in
      elim ending [
        | inl given ↦ given_eicar _ v verdict confidence given
        | inr failed ↦ absurd (never_auto failed.0)
      ]

append-nil : (xs : List ℕ) → xs ≡ xs ++ []
append-nil [] = refl
append-nil (x ∷ xs) = cc (append-nil xs)

eicar-text : detect_file_type (text "eicar.com.txt") eicar_ascii ≡ FileType.text
unfolding detect_file_type eicar_ascii text
eicar-text = refl

module _ {F : Type 0} (fl : Float F) (engine : NativeEngine F) (signed : Bool) where
  pub eicar-analysed :
      analyze_path fl (text "eicar.com.txt") eicar_ascii
      ≡ ok (analysis_of fl (text "eicar.com.txt") eicar_ascii none none)
  unfolding analyze_path pe_part archive_part
  eicar-analysed = rw eicar-text refl

  -- `engine_self_test` over the built-in signature and any others that give a result for the EICAR
  -- text: the self-test ends, detects the text and passes, whatever the other stores hold.
  engine_self_test-pass :
      (sha256_bytes : List ℕ → Text) (move : MoveAnswers) (now : ℕ) (more : List NativeSignature)
      (later : List SignatureMatch)
      → engine.signatures ≡ built_in now ++ more
      → match_bytes more
          (sha256_bytes eicar_ascii)
          eicar_ascii
          (analysis_of fl (text "eicar.com.txt") eicar_ascii none none)
        ≡ ok later
      → engine_self_test fl sha256_bytes engine move signed ≡ ok (true, text "pass")
  unfolding engine_self_test own_content is_confirmed_threat
  engine_self_test-pass sha256_bytes move now more later loaded matched =
      let (v, scanned, verdict, confidence) =
        detect_only-eicar fl engine signed (text "eicar.com.txt") eicar_ascii
          (own_content sha256_bytes eicar_ascii)
          (analysis_of fl (text "eicar.com.txt") eicar_ascii none none) move false now more later []
          [] loaded (append-nil eicar_ascii) eicar-analysed matched in
      rw (scanned, verdict) refl
