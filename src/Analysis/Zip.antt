-- ===== src/Analysis/Zip.antt =====
-- analyzers/archives/zip.rs: the local file headers of an archive, one after another.
pub mod Walk
use zentor.Prelude.{
  not, ℕ, zero, suc, ◌+◌, ◌-◌, ◌^◌, Bool, true, false, ◌&&◌, ◌||◌, Option, none, some, List, [],
  ◌∷◌, leb, ltb, ◌==◌, if◌then◌else◌, length,
}
use zentor.Text.{
  Text, text, text_eq, to_ascii_lowercase, contains, starts_with, ends_with, is_one_of, last_piece,
}
use zentor.Text.Utf8.{from_utf8_lossy}
use zentor.Outcome.{Outcome, ok, fail, panic, ◌>>=◌, slice, read_u16, read_u32}
use zentor.Analysis.{ArchiveAnalysis}

abbrev pub max_entries : ℕ
max_entries = 256

abbrev pub usize_max : ℕ
usize_max = 2 ^ 64 - 1

-- `usize::saturating_add`, on a target of 64 bits
unfoldable pub saturating_add : ℕ → ℕ → ℕ
saturating_add a b = if leb (a + b) usize_max then a + b else usize_max

unfoldable pub empty_archive : ArchiveAnalysis
empty_archive = record {
  entry_count = 0;
  contains_executable = false;
  suspicious_nested_name_count = 0;
  zip_slip_blocked = false;
  limit_exceeded = false;
}

-- `contains('../') || contains('..\\') || starts_with('/')`
unfoldable pub is_slip : Text → Bool
unfolding contains starts_with text
is_slip name =
    contains name (text "../") || contains name (text "..\\") || starts_with name (text "/")

unfoldable pub has_executable_extension : Text → Bool
unfolding is_one_of last_piece text
has_executable_extension name = is_one_of (last_piece (λ b. b == b'.') name) (
    text "exe"
    ∷ text "dll"
    ∷ text "scr"
    ∷ text "ps1"
    ∷ text "bat"
    ∷ text "cmd"
    ∷ text "vbs"
    ∷ text "js"
    ∷ [])

unfoldable pub is_suspicious_name : Text → Bool
unfolding contains ends_with text
is_suspicious_name name =
    contains name (text "invoice") && (ends_with name (text ".exe") || ends_with name (text ".scr"))

-- what one entry's name adds to the result
unfoldable pub count_entry : Text → ArchiveAnalysis → ArchiveAnalysis
unfolding is_slip has_executable_extension is_suspicious_name
count_entry name r = record {
  entry_count = r.entry_count + 1;
  contains_executable = r.contains_executable || has_executable_extension name;
  suspicious_nested_name_count =
      r.suspicious_nested_name_count + (if is_suspicious_name name then 1 else 0);
  zip_slip_blocked = r.zip_slip_blocked || is_slip name;
  limit_exceeded = r.limit_exceeded;
}

-- one round of the loop: it ends, or goes on at another offset
pub data Round : Type 0 where
  done : ArchiveAnalysis → Round
  next : ℕ → ArchiveAnalysis → Round

-- an entry whose header has been read: its name, and the offset behind its data
unfoldable pub entry_at : List ℕ → ℕ → ArchiveAnalysis → ℕ → ℕ → ℕ → Outcome Round
entry_at bytes offset r compressed_size name_len extra_len =
    let name_start = offset + 30 in
    let name_end = saturating_add name_start name_len in
    if ltb (length bytes) name_end then fail (text "invalid zip entry name length") else do
      raw ← slice bytes name_start name_end
      ok (
          next (saturating_add (saturating_add name_end extra_len) compressed_size)
            (count_entry (to_ascii_lowercase (from_utf8_lossy raw)) r))

unfoldable pub read_entry : List ℕ → ℕ → ArchiveAnalysis → Outcome Round
read_entry bytes offset r = do
  compressed_size ← read_u32 bytes (offset + 18)
  name_len ← read_u16 bytes (offset + 26)
  extra_len ← read_u16 bytes (offset + 28)
  entry_at bytes offset r compressed_size name_len extra_len

unfoldable pub zip_round : List ℕ → ℕ → ArchiveAnalysis → Outcome Round
zip_round bytes offset r = if ltb (length bytes) (offset + 30) then ok (done r) else do
  magic ← slice bytes offset (offset + 4)
  if not (text_eq magic (b'P' ∷ b'K' ∷ 0x03 ∷ 0x04 ∷ []))
      then ok (done r)
      else if leb max_entries r.entry_count
      then ok (done (record r { limit_exceeded = true }))
      else read_entry bytes offset r

-- what follows a round, where `go` is the rest of the loop
unfoldable pub resume :
    (ℕ → ArchiveAnalysis → Option (Outcome ArchiveAnalysis))
    → Outcome Round
    → Option (Outcome ArchiveAnalysis)
resume go (ok (done r)) = some (ok r)
resume go (ok (next offset r)) = go offset r
resume go (fail message) = some (fail message)
resume go panic = some panic

-- The loop, on fuel; `none` means that the fuel ran out.
unfoldable pub zip_loop : ℕ → List ℕ → ℕ → ArchiveAnalysis → Option (Outcome ArchiveAnalysis)
unfolding resume
zip_loop zero bytes offset r = none
zip_loop (suc fuel) bytes offset r = resume (zip_loop fuel bytes) (zip_round bytes offset r)

-- Each round that goes on advances by 30 bytes at least, so the length of the file is fuel enough.
unfoldable pub analyze_zip : List ℕ → Option (Outcome ArchiveAnalysis)
unfolding zip_loop empty_archive
analyze_zip bytes = zip_loop (suc (length bytes)) bytes 0 empty_archive
