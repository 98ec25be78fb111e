-- ===== src/Analysis/Pe.antt =====
-- analyzers/pe/{pe_parser,imports}.rs: the headers of a Windows executable.
pub mod Headers
use zentor.Prelude.{
  ℕ, zero, suc, ◌+◌, ◌-◌, ◌*◌, ◌^◌, Bool, true, false, ◌&&◌, ◌||◌, not, List, [], ◌∷◌, leb, ltb,
  if◌then◌else◌, length, get_or, u32,
}
use zentor.Text.{Text, text, text_eq, to_ascii_lowercase, starts_with, contains, count_terms}
use zentor.Text.Utf8.{from_utf8_lossy}
use zentor.Outcome.{Outcome, ok, ◌>>=◌, slice, read_u32}
use zentor.Float.{Float}
use zentor.Analysis.{ImportCategories, PeAnalysis}
use zentor.Analysis.Entropy.{entropy}
use zentor.Analysis.Zip.{saturating_add}

-- the terms are lowered before they are counted
abbrev count : Text → List Text → ℕ
count content terms = count_terms content terms

unfoldable pub categorize_imports : List ℕ → ImportCategories
unfolding count_terms to_ascii_lowercase from_utf8_lossy text
categorize_imports bytes =
    let content = to_ascii_lowercase (from_utf8_lossy bytes) in
    record {
      process_injection =
          count content
            (text "virtualallocex" ∷ text "writeprocessmemory" ∷ text "createremotethread" ∷ []);
      credential_access =
          count content (text "credread" ∷ text "lsaenumerate" ∷ text "samiconnect" ∷ []);
      persistence =
          count content (text "regsetvalue" ∷ text "createservice" ∷ text "taskscheduler" ∷ []);
      network =
          count content
            (text "winhttp" ∷ text "internetopen" ∷ text "wsastartup" ∷ text "connect" ∷ []);
      crypto =
          count content (text "cryptencrypt" ∷ text "bcrypt" ∷ text "cryptacquirecontext" ∷ []);
      process_manipulation =
          count content (text "openprocess" ∷ text "terminateprocess" ∷ text "createprocess" ∷ []);
      service_control =
          count content (text "openscmanager" ∷ text "controlservice" ∷ text "startservice" ∷ []);
      registry_autorun = count content (text "currentversion\\run" ∷ text "runonce" ∷ []);
      anti_debugging =
          count content (text "isdebuggerpresent" ∷ text "checkremotedebuggerpresent" ∷ []);
    }

unfoldable pub no_imports : ImportCategories
no_imports = record {
  process_injection = 0;
  credential_access = 0;
  persistence = 0;
  network = 0;
  crypto = 0;
  process_manipulation = 0;
  service_control = 0;
  registry_autorun = 0;
  anti_debugging = 0;
}

unfoldable pub default_pe : PeAnalysis
unfolding no_imports
default_pe = record {
  section_count = 0;
  high_entropy_section_count = 0;
  suspicious_imports = no_imports;
  has_debug_info = false;
  certificate_table_present = false;
  overlay_size = 0;
}

-- `bytes.get(i).copied().unwrap_or_default()`, two and four of them
abbrev get_u16 : List ℕ → ℕ → ℕ
get_u16 bytes i = get_or bytes i 0 + 256 * get_or bytes (i + 1) 0

abbrev get_u32 : List ℕ → ℕ → ℕ
get_u32 bytes i = get_u16 bytes i + 65_536 * get_u16 bytes (i + 2)

abbrev min : ℕ → ℕ → ℕ
min a b = if leb a b then a else b

abbrev max : ℕ → ℕ → ℕ
max a b = if leb b a then a else b

-- what the loop over the sections has found
pub record Sections : Type 0 where
  pub high_entropy : ℕ
  pub max_end : ℕ

module _ {F : Type 0} (fl : Float F) where
  open fl use {literal, gt}

  -- one section whose bytes lie from `raw_ptr` to `end`
  unfoldable pub count_section : List ℕ → ℕ → ℕ → Sections → Outcome Sections
  count_section bytes raw_ptr end s = if not (ltb raw_ptr end) then ok s else do
    region ← slice bytes raw_ptr end
    ok (record {
      high_entropy = s.high_entropy + (if gt (entropy fl region) (literal 72 1) then 1 else 0);
      max_end = max s.max_end end;
    })

  unfoldable pub read_section : List ℕ → ℕ → Sections → Outcome Sections
  read_section bytes offset s = do
    raw_size ← read_u32 bytes (offset + 16)
    raw_ptr ← read_u32 bytes (offset + 20)
    count_section bytes raw_ptr (min (saturating_add raw_ptr raw_size) (length bytes)) s

  -- `remaining` sections from `index` on; the loop breaks where a header would leave the file
  unfoldable pub read_sections : ℕ → List ℕ → ℕ → ℕ → Sections → Outcome Sections
  read_sections zero bytes table index s = ok s
  read_sections (suc remaining) bytes table index s =
      let rest =
        read_section bytes (table + index * 40) s
        >>= read_sections remaining bytes table (index + 1) in
      if ltb (length bytes) (table + index * 40 + 40) then ok s else rest

  unfoldable pub parse_headers : List ℕ → ℕ → Outcome PeAnalysis
  parse_headers bytes pe_offset =
      let section_count = get_u16 bytes (pe_offset + 6) in
      let optional_header_size = get_u16 bytes (pe_offset + 20) in
      do
        s ←
            read_sections section_count bytes (pe_offset + 24 + optional_header_size) 0
              (record { high_entropy = 0; max_end = 0 })
        ok (record {
          section_count = section_count;
          high_entropy_section_count = s.high_entropy;
          suspicious_imports = categorize_imports bytes;
          has_debug_info = contains (to_ascii_lowercase bytes) (text ".pdb");
          certificate_table_present = false;
          overlay_size = length bytes - s.max_end;
        })

  unfoldable pub parse_pe : List ℕ → Outcome PeAnalysis
  parse_pe bytes =
      if ltb (length bytes) 0x40 || not (starts_with bytes (b'M' ∷ b'Z' ∷ []))
      then ok default_pe
      else let pe_offset = get_u32 bytes 0x3c in
        if leb (length bytes) (pe_offset + 24) then ok default_pe else do
          magic ← slice bytes pe_offset (pe_offset + 4)
          if not (text_eq magic (b'P' ∷ b'E' ∷ 0 ∷ 0 ∷ []))
              then ok default_pe
              else parse_headers bytes pe_offset
