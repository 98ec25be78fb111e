-- ===== src/Tests/Analyses.antt =====
-- The parsers at concrete inputs (core/zentor_native_engine/src/analyzers).
use zentor.Prelude.{ℕ, ◌<◌, false, List, [], ◌∷◌, length, All, arith, zero, suc, leb}
use zentor.Float.{Float}
use zentor.Analysis.Zip.{analyze_zip}
use zentor.Analysis.Zip.Walk.{GoodResult, analyze_zip_total}
use zentor.Analysis.Pe.{parse_pe}
use zentor.Analysis.Pe.Headers.{GoodPe, parse_pe_total}

-- an arithmetic in which nothing is greater than another
abbrev flat : Float ℕ
flat = record {
  literal = λ digits decimals. digits;
  of_nat = λ n. n;
  add = λ a b. a;
  mul = λ a b. a;
  div = λ a b. a;
  neg = λ a. a;
  log2 = λ a. a;
  max = λ a b. b;
  gt = λ a b. false;
  ge = λ a b. leb b a;
  log10 = λ a. a;
  exp = λ a. a;
  one_decimal = λ a. [];
}

abbrev zeros : ℕ → List ℕ → List ℕ
zeros zero rest = rest
zeros (suc n) rest = 0 ∷ zeros n rest

-- one entry with the name `a.exe`
abbrev small_zip : List ℕ
small_zip = b'P' ∷ b'K' ∷ 3 ∷ 4 ∷ zeros 22 (5 ∷ 0 ∷ 0 ∷ 0 ∷ b'a' ∷ b'.' ∷ b'e' ∷ b'x' ∷ b'e' ∷ [])

abbrev pe_header : List ℕ
pe_header = 0x40 ∷ 0 ∷ 0 ∷ 0 ∷ b'P' ∷ b'E' ∷ zeros 40 []

-- a DOS header that points at a PE header behind it
abbrev small_pe : List ℕ
small_pe = b'M' ∷ b'Z' ∷ zeros 58 pe_header

analyze_zip_total_example : GoodResult (analyze_zip small_zip)
analyze_zip_total_example = analyze_zip_total small_zip (omega arith)

zeros-bytes : (n : ℕ) (rest : List ℕ) → All (λ b. b < 256) rest → All (λ b. b < 256) (zeros n rest)
zeros-bytes zero rest h = h
zeros-bytes (suc n) rest h = (omega arith, zeros-bytes n rest h)

header_bytes : All (λ b. b < 256) pe_header
header_bytes = (
  omega arith,
  (omega arith, (omega arith, (omega arith, (omega arith, (omega arith, zeros-bytes 40 [] tt))))),
)

bytes_of : All (λ b. b < 256) small_pe
bytes_of = (omega arith, (omega arith, zeros-bytes 58 pe_header header_bytes))

parse_pe_total_example : GoodPe (length small_pe) (parse_pe flat small_pe)
parse_pe_total_example = parse_pe_total flat small_pe bytes_of
