-- ===== src/Analysis/Whole/Total.antt =====
-- The analysis of a file never panics, and fails for archives only (analyzers/mod.rs).
use zentor.Prelude.{ℕ, ◌≤◌, ◌<◌, ◌≡◌, refl, ◌⊎◌, inl, inr, Option, none, some, List, All, length}
use zentor.Text.{Text}
use zentor.Float.{Float}
use zentor.Outcome.{Outcome, ok, fail, panic, ◌>>=◌}
use zentor.Analysis.{
  FileType, pe, elf, mach_o, power_shell, java_script, batch, vbs, zip, text, document, unknown,
  PeAnalysis, ArchiveAnalysis, StaticAnalysis,
}
use zentor.Analysis.Kind.{detect_file_type}
use zentor.Analysis.Zip.{analyze_zip, max_entries, usize_max}
use zentor.Analysis.Zip.Walk.{GoodResult, analyze_zip_total}
use zentor.Analysis.Pe.{parse_pe}
use zentor.Analysis.Pe.Headers.{GoodPe, parse_pe_total}
use zentor.Analysis.Whole.{archive_of, archive_part, pe_part, analysis_of, analyze_path}

-- A result counts 256 entries of an archive at most and lies inside the file where it is a PE; an
-- error is one of an archive; a panic is excluded.
abbrev pub FewEntries : Option ArchiveAnalysis → Type 0
FewEntries none = Unit {0}
FewEntries (some r) = r.entry_count ≤ max_entries

abbrev pub InsideFile : ℕ → Option PeAnalysis → Type 0
InsideFile len none = Unit {0}
InsideFile len (some p) = p.overlay_size ≤ len

abbrev pub GoodAnalysis : {F : Type 0} → FileType → ℕ → Outcome (StaticAnalysis F) → Type 0
GoodAnalysis t len (ok a) = FewEntries a.archive × InsideFile len a.pe
GoodAnalysis t len (fail message) = t ≡ zip
GoodAnalysis t len panic = ⊥

archive_of-good :
    (r : Option (Outcome ArchiveAnalysis))
    → GoodResult r
    → ((p : Option ArchiveAnalysis) × (archive_of r ≡ ok p) × FewEntries p)
      ⊎ ((message : Text) × (archive_of r ≡ fail message))
archive_of-good none h = elim h [ ]
archive_of-good (some (ok r)) h = inl (some r, refl, h)
archive_of-good (some (fail message)) h = inr (message, refl)
archive_of-good (some panic) h = elim h [ ]

-- the part of the archive, for any type
archive_part-good :
    (t : FileType) (bytes : List ℕ)
    → length bytes ≤ usize_max
    → ((p : Option ArchiveAnalysis) × (archive_part t bytes ≡ ok p) × FewEntries p)
      ⊎ ((message : Text) × (archive_part t bytes ≡ fail message) × (t ≡ zip))
unfolding archive_part
archive_part-good pe bytes small = inl (none, refl, tt)
archive_part-good elf bytes small = inl (none, refl, tt)
archive_part-good mach_o bytes small = inl (none, refl, tt)
archive_part-good power_shell bytes small = inl (none, refl, tt)
archive_part-good java_script bytes small = inl (none, refl, tt)
archive_part-good batch bytes small = inl (none, refl, tt)
archive_part-good vbs bytes small = inl (none, refl, tt)
archive_part-good zip bytes small =
    elim (archive_of-good (analyze_zip bytes) (analyze_zip_total bytes small)) [
      | inl good ↦ inl good
      | inr bad ↦ inr (bad.0, bad.1, refl)
    ]
archive_part-good text bytes small = inl (none, refl, tt)
archive_part-good document bytes small = inl (none, refl, tt)
archive_part-good unknown bytes small = inl (none, refl, tt)

module _ {F : Type 0} (fl : Float F) where
  some_pe-good :
      (len : ℕ) (r : Outcome PeAnalysis)
      → GoodPe len r
      → (p : Option PeAnalysis) × ((r >>= λ q. ok (some q)) ≡ ok p) × InsideFile len p
  some_pe-good len (ok q) h = (some q, refl, h.2)
  some_pe-good len (fail message) h = elim h [ ]
  some_pe-good len panic h = elim h [ ]

  pe_part-good :
      (t : FileType) (bytes : List ℕ)
      → All (λ b. b < 256) bytes
      → (p : Option PeAnalysis) × (pe_part fl t bytes ≡ ok p) × InsideFile (length bytes) p
  unfolding pe_part
  pe_part-good pe bytes h =
      some_pe-good (length bytes) (parse_pe fl bytes) (parse_pe_total fl bytes h)
  pe_part-good elf bytes h = (none, refl, tt)
  pe_part-good mach_o bytes h = (none, refl, tt)
  pe_part-good power_shell bytes h = (none, refl, tt)
  pe_part-good java_script bytes h = (none, refl, tt)
  pe_part-good batch bytes h = (none, refl, tt)
  pe_part-good vbs bytes h = (none, refl, tt)
  pe_part-good zip bytes h = (none, refl, tt)
  pe_part-good text bytes h = (none, refl, tt)
  pe_part-good document bytes h = (none, refl, tt)
  pe_part-good unknown bytes h = (none, refl, tt)

  -- `analyze_path`: on every sequence of bytes that fits in memory the analysis does not panic, and
  -- gives an error for ZIP archives only. Its result counts 256 entries of an archive at most, and
  -- the overlay of an executable lies inside the file.
  pub analyze_path-GoodAnalysis :
      (path : Text) (bytes : List ℕ)
      → All (λ b. b < 256) bytes
      → length bytes ≤ usize_max
      → GoodAnalysis (detect_file_type path bytes) (length bytes) (analyze_path fl path bytes)
  unfolding analyze_path analysis_of
  analyze_path-GoodAnalysis path bytes h small =
      let (p, pe_ok, inside) = pe_part-good (detect_file_type path bytes) bytes h in
      elim (archive_part-good (detect_file_type path bytes) bytes small) [
        | inl good ↦ rw (pe_ok, good.1) (good.2, inside)
        | inr bad ↦ rw (pe_ok, bad.1) bad.2
      ]
