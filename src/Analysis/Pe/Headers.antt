-- ===== src/Analysis/Pe/Headers.antt =====
-- Parsing an executable reads inside the file, and its counts are bounded by its headers
-- (pe/pe_parser.rs).
use zentor.Prelude.{
  not, ◌||◌, get_or, All, drop, take, ℕ, zero, suc, ◌+◌, ◌-◌, ◌*◌, ◌^◌, ◌≤◌, ◌<◌, ◌≡◌, Bool, List,
  [], ◌∷◌, arith, leb, ltb, if◌then◌else◌, length, Bool-cases, inl, inr,
}
use zentor.Outcome.{Outcome, ok, fail, panic, ◌>>=◌, slice_in_range, read_u32_in_range}
use zentor.Float.{Float}
use zentor.Analysis.{PeAnalysis}
use zentor.Analysis.Zip.{saturating_add}
use zentor.Analysis.Pe.{
  get_u16, get_u32, Sections, count_section, read_section, read_sections, parse_headers, parse_pe,
  default_pe, min, max,
}
use zentor.Analysis.Entropy.{entropy}
use zentor.Text.{text_eq, starts_with}

-- The sections counted are `n` at most, and end inside a file of length `len`.
abbrev InBounds : ℕ → ℕ → Outcome Sections → Type 0
InBounds len n (ok s) = (s.high_entropy ≤ n) × (s.max_end ≤ len)
InBounds len n (fail message) = ⊥
InBounds len n panic = ⊥

add-suc_shift : (n m : ℕ) → n + suc m ≡ n + 1 + m
add-suc_shift n m = omega arith

high_entropy_step : (k n : ℕ) (b : Bool) → k ≤ n → k + (if b then 1 else 0) ≤ n + 1
high_entropy_step k n b h = ground arith

max-le : (a b c : ℕ) → a ≤ c → b ≤ c → max a b ≤ c
max-le a b c h h' = ground arith

module _ {F : Type 0} (fl : Float F) where
  count_section-InBounds :
      (bytes : List ℕ) (raw_ptr end n : ℕ) (s : Sections)
      → end ≤ length bytes
      → s.high_entropy ≤ n
      → s.max_end ≤ length bytes
      → InBounds (length bytes) (n + 1) (count_section fl bytes raw_ptr end s)
  unfolding count_section
  count_section-InBounds bytes raw_ptr end n s fits count ends =
      elim (Bool-cases (ltb raw_ptr end)) [
        | inl some_bytes ↦
            rw (some_bytes, slice_in_range bytes raw_ptr end (ground arith) fits)
              (
                high_entropy_step s.high_entropy n
                    (fl.gt (entropy fl (take (end - raw_ptr) (drop raw_ptr bytes)))
                      (fl.literal 72 1))
                    count,
                max-le s.max_end end (length bytes) ends fits,
              )
        | inr empty ↦ rw empty (omega arith, ends)
      ]

  read_section-InBounds :
      (bytes : List ℕ) (offset n : ℕ) (s : Sections)
      → offset + 40 ≤ length bytes
      → s.high_entropy ≤ n
      → s.max_end ≤ length bytes
      → InBounds (length bytes) (n + 1) (read_section fl bytes offset s)
  unfolding read_section
  read_section-InBounds bytes offset n s fits count ends =
      let (raw_size, e) = read_u32_in_range bytes (offset + 16) (omega arith) in
      let (raw_ptr, e') = read_u32_in_range bytes (offset + 20) (omega arith) in
      rw (e, e')
        (count_section-InBounds bytes raw_ptr (min (saturating_add raw_ptr raw_size) (length bytes))
          n s (ground arith) count ends)

  bind-InBounds :
      (len n m : ℕ) (x : Outcome Sections) (f : Sections → Outcome Sections)
      → InBounds len n x
      → ((s : Sections) → s.high_entropy ≤ n → s.max_end ≤ len → InBounds len m (f s))
      → InBounds len m (x >>= f)
  bind-InBounds len n m (ok s) f h rest = rest s h.0 h.1
  bind-InBounds len n m (fail message) f h rest = h
  bind-InBounds len n m panic f h rest = h

  read_sections-InBounds :
      (remaining : ℕ) (bytes : List ℕ) (table index n : ℕ) (s : Sections)
      → s.high_entropy ≤ n
      → s.max_end ≤ length bytes
      → InBounds (length bytes) (n + remaining) (read_sections fl remaining bytes table index s)
  unfolding read_sections
  read_sections-InBounds zero bytes table index n s count ends = (omega arith, ends)
  read_sections-InBounds (suc remaining) bytes table index n s count ends =
      elim (Bool-cases (ltb (length bytes) (table + index * 40 + 40))) [
        | inl outside ↦ rw outside (omega arith, ends)
        | inr inside ↦ rw inside (
            bind-InBounds (length bytes) (n + 1) (n + suc remaining)
              (read_section fl bytes (table + index * 40) s)
              (read_sections fl remaining bytes table (index + 1))
              (read_section-InBounds bytes (table + index * 40) n s (ground arith) count ends)
              (λ s' count' ends'.
                rw (add-suc_shift n remaining) (
                  read_sections-InBounds remaining bytes table (index + 1) (n + 1) s' count'
                    ends')))
      ]

-- What `parse_pe` may end in, for a file of length `len`.
abbrev pub GoodPe : ℕ → Outcome PeAnalysis → Type 0
GoodPe len (ok pe) =
    (pe.high_entropy_section_count ≤ pe.section_count)
    × (pe.section_count < 2 ^ 16)
    × (pe.overlay_size ≤ len)
GoodPe len (fail message) = ⊥
GoodPe len panic = ⊥

get_or-byte : (bytes : List ℕ) (i : ℕ) → All (λ b. b < 256) bytes → get_or bytes i 0 < 256
get_or-byte [] i h = omega arith
get_or-byte (b ∷ bytes) zero h = h.0
get_or-byte (b ∷ bytes) (suc i) h = get_or-byte bytes i h.1

get_u16-lt : (bytes : List ℕ) (i : ℕ) → All (λ b. b < 256) bytes → get_u16 bytes i < 2 ^ 16
get_u16-lt bytes i h = omega (arith, get_or-byte bytes i h, get_or-byte bytes (i + 1) h)

default_pe-GoodPe : (len : ℕ) → GoodPe len (ok default_pe)
unfolding default_pe
default_pe-GoodPe len = omega arith

module _ {F : Type 0} (fl : Float F) where
  bind-GoodPe :
      (len n : ℕ) (x : Outcome Sections) (f : Sections → Outcome PeAnalysis)
      → InBounds len n x
      → ((s : Sections) → s.high_entropy ≤ n → GoodPe len (f s))
      → GoodPe len (x >>= f)
  bind-GoodPe len n (ok s) f h rest = rest s h.0
  bind-GoodPe len n (fail message) f h rest = h
  bind-GoodPe len n panic f h rest = h

  parse_headers-GoodPe :
      (bytes : List ℕ) (pe_offset : ℕ)
      → All (λ b. b < 256) bytes
      → GoodPe (length bytes) (parse_headers fl bytes pe_offset)
  unfolding parse_headers
  parse_headers-GoodPe bytes pe_offset h =
      let n = get_u16 bytes (pe_offset + 6) in
      bind-GoodPe (length bytes) (0 + n) _ _
        (read_sections-InBounds fl n bytes _ 0 0 (record { high_entropy = 0; max_end = 0 })
          (omega arith) (omega arith))
        (λ s count. (omega arith, get_u16-lt bytes (pe_offset + 6) h, omega arith))

  -- `parse_pe`: whatever the bytes of the file, and whatever the arithmetic of `f64`, parsing does
  -- not panic and does not fail; it counts no more high-entropy sections than the header declares,
  -- that number fits its `u16`, and the overlay is no longer than the file.
  pub parse_pe_total :
      (bytes : List ℕ) → All (λ b. b < 256) bytes → GoodPe (length bytes) (parse_pe fl bytes)
  unfolding parse_pe
  parse_pe_total bytes h =
      elim (Bool-cases (ltb (length bytes) 0x40 || not (starts_with bytes (b'M' ∷ b'Z' ∷ [])))) [
        | inl other ↦ rw other (default_pe-GoodPe (length bytes))
        | inr magic ↦ rw magic (elim (Bool-cases (leb (length bytes) (get_u32 bytes 0x3c + 24))) [
          | inl short ↦ rw short (default_pe-GoodPe (length bytes))
          | inr long ↦
              rw
                (
                  long,
                  slice_in_range bytes (get_u32 bytes 0x3c) (get_u32 bytes 0x3c + 4) (omega arith)
                      (ground arith),
                )
                (elim (Bool-cases (
                  text_eq
                    (take (get_u32 bytes 0x3c + 4 - get_u32 bytes 0x3c)
                      (drop (get_u32 bytes 0x3c) bytes))
                    (b'P' ∷ b'E' ∷ 0 ∷ 0 ∷ []))) [
                      | inr not_pe ↦ rw not_pe (default_pe-GoodPe (length bytes))
                      | inl pe ↦ rw pe (parse_headers-GoodPe bytes (get_u32 bytes 0x3c) h)
                    ])
        ])
      ]
