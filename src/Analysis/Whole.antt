-- ===== src/Analysis/Whole.antt =====
-- `analyze_path` of analyzers/mod.rs: the analyses of one file, by its type.
pub mod Total
use zentor.Prelude.{ℕ, zero, suc, Option, none, some, List, [], ◌∷◌, length, map, take, drop}
use zentor.Text.{Text}
use zentor.Float.{Float}
use zentor.Outcome.{Outcome, ok, fail, panic, ◌>>=◌}
use zentor.Analysis.{
  FileType, pe, power_shell, java_script, batch, vbs, zip, PeAnalysis, ScriptAnalysis,
  ArchiveAnalysis, StaticAnalysis,
}
use zentor.Analysis.Kind.{detect_file_type}
use zentor.Analysis.Entropy.{entropy, mean_entropy}
use zentor.Analysis.Strings.{extract_indicators}
use zentor.Analysis.Script.{analyze_script}
use zentor.Analysis.Zip.{analyze_zip}
use zentor.Analysis.Pe.{parse_pe}

-- `bytes.chunks(size)`, on fuel: each chunk takes a byte at least
chunks_from : ℕ → ℕ → List ℕ → List (List ℕ)
chunks_from zero size bytes = []
chunks_from (suc fuel) size [] = []
chunks_from (suc fuel) size (b ∷ bytes) =
    take size (b ∷ bytes) ∷ chunks_from fuel size (drop size (b ∷ bytes))

unfoldable pub chunks : ℕ → List ℕ → List (List ℕ)
unfolding chunks_from
chunks size bytes = chunks_from (length bytes) size bytes

-- `Some(analysis)` for the types that have one
unfoldable pub script_part : FileType → List ℕ → Option ScriptAnalysis
script_part power_shell bytes = some (analyze_script power_shell bytes)
script_part java_script bytes = some (analyze_script java_script bytes)
script_part batch bytes = some (analyze_script batch bytes)
script_part vbs bytes = some (analyze_script vbs bytes)
script_part _ bytes = none

-- the walk over the archive, whose fuel does not run out
abbrev pub archive_of : Option (Outcome ArchiveAnalysis) → Outcome (Option ArchiveAnalysis)
archive_of none = panic
archive_of (some r) = r >>= λ a. ok (some a)

unfoldable pub archive_part : FileType → List ℕ → Outcome (Option ArchiveAnalysis)
archive_part zip bytes = archive_of (analyze_zip bytes)
archive_part _ bytes = ok none

module _ {F : Type 0} (fl : Float F) where
  open fl use {of_nat, max}

  max_from : F → List F → F
  max_from acc [] = acc
  max_from acc (v ∷ rest) = max_from (max acc v) rest

  unfoldable pub pe_part : FileType → List ℕ → Outcome (Option PeAnalysis)
  pe_part pe bytes = parse_pe fl bytes >>= λ p. ok (some p)
  pe_part _ bytes = ok none

  -- the record, once the parts that can fail are there
  unfoldable pub analysis_of :
      Text → List ℕ → Option PeAnalysis → Option ArchiveAnalysis → StaticAnalysis F
  unfolding script_part max_from
  analysis_of path bytes p a = record {
    file_type = detect_file_type path bytes;
    file_size = length bytes;
    entropy_mean = mean_entropy fl (map (entropy fl) (chunks 4096 bytes));
    entropy_max = max_from (of_nat 0) (map (entropy fl) (chunks 4096 bytes));
    string_indicators = extract_indicators bytes;
    pe = p;
    script = script_part (detect_file_type path bytes) bytes;
    archive = a;
  }

  unfoldable pub analyze_path : Text → List ℕ → Outcome (StaticAnalysis F)
  unfolding pe_part archive_part analysis_of
  analyze_path path bytes = do
    p ← pe_part (detect_file_type path bytes) bytes
    a ← archive_part (detect_file_type path bytes) bytes
    ok (analysis_of path bytes p a)
