-- ===== src/Analysis/Zip/Walk.antt =====
-- The walk over an archive ends, reads inside the file, and counts 256 entries at most (zip.rs).
use zentor.Prelude.{
  drop, take, ℕ, zero, suc, ◌+◌, ◌-◌, ◌≤◌, ◌<◌, Option, none, some, List, [], ◌∷◌, arith, leb, ltb,
  length, Bool-cases, inl, inr,
}
use native.Mathlib.Nat.{le_trans}
use zentor.Text.{text_eq}
use zentor.Outcome.{Outcome, ok, fail, panic, slice_in_range, read_u16_in_range, read_u32_in_range}
use zentor.Analysis.{ArchiveAnalysis}
use zentor.Analysis.Zip.{
  resume, entry_at, Round, done, next, max_entries, usize_max, saturating_add, empty_archive,
  count_entry, read_entry, zip_round, zip_loop, analyze_zip,
}

-- What a round may end in: not a panic, and an offset 30 bytes further at least where it goes on,
-- with the number of entries in bounds.
abbrev GoodRound : ℕ → ℕ → Outcome Round → Type 0
GoodRound len offset (ok (done r)) = r.entry_count ≤ max_entries
GoodRound len offset (ok (next offset' r)) =
    (offset + 30 ≤ len) × (offset + 30 ≤ offset') × (r.entry_count ≤ max_entries)
GoodRound len offset (fail message) = Unit {0}
GoodRound len offset panic = ⊥

saturating_add-ge : (a b : ℕ) → a ≤ usize_max → a ≤ saturating_add a b
unfolding saturating_add
saturating_add-ge a b h = ground arith

saturating_add-le : (a b : ℕ) → saturating_add a b ≤ usize_max
unfolding saturating_add
saturating_add-le a b = ground arith

entry_at-GoodRound :
    (bytes : List ℕ) (offset : ℕ) (r : ArchiveAnalysis) (compressed_size name_len extra_len : ℕ)
    → length bytes ≤ usize_max
    → offset + 30 ≤ length bytes
    → r.entry_count < max_entries
    → GoodRound (length bytes) offset (entry_at bytes offset r compressed_size name_len extra_len)
unfolding entry_at
entry_at-GoodRound bytes offset r compressed_size name_len extra_len small fits room =
    let name_end = saturating_add (offset + 30) name_len in
    let after = saturating_add name_end extra_len in
    let ge = saturating_add-ge (offset + 30) name_len (omega arith) in
    let ge' = saturating_add-ge name_end extra_len (saturating_add-le (offset + 30) name_len) in
    let ge'' = saturating_add-ge after compressed_size (saturating_add-le name_end extra_len) in
    elim (Bool-cases (ltb (length bytes) name_end)) [
      | inl outside ↦ rw outside tt
      | inr inside ↦
          rw (inside, slice_in_range bytes (offset + 30) name_end ge (ground arith))
            (fits, le_trans ge (le_trans ge' ge''), unfold count_entry in omega arith)
    ]

read_entry-GoodRound :
    (bytes : List ℕ) (offset : ℕ) (r : ArchiveAnalysis)
    → length bytes ≤ usize_max
    → offset + 30 ≤ length bytes
    → r.entry_count < max_entries
    → GoodRound (length bytes) offset (read_entry bytes offset r)
unfolding read_entry
read_entry-GoodRound bytes offset r small fits room =
    let (compressed_size, e) = read_u32_in_range bytes (offset + 18) (omega arith) in
    let (name_len, e') = read_u16_in_range bytes (offset + 26) (omega arith) in
    let (extra_len, e'') = read_u16_in_range bytes (offset + 28) (omega arith) in
    rw (e, e', e'')
      (entry_at-GoodRound bytes offset r compressed_size name_len extra_len small fits room)

zip_round-GoodRound :
    (bytes : List ℕ) (offset : ℕ) (r : ArchiveAnalysis)
    → length bytes ≤ usize_max
    → r.entry_count ≤ max_entries
    → GoodRound (length bytes) offset (zip_round bytes offset r)
unfolding zip_round
zip_round-GoodRound bytes offset r small count =
    elim (Bool-cases (ltb (length bytes) (offset + 30))) [
      | inl short ↦ rw short count
      | inr long ↦
          rw (long, slice_in_range bytes offset (offset + 4) (omega arith) (ground arith))
            (elim (Bool-cases (
              text_eq (take (offset + 4 - offset) (drop offset bytes))
                (b'P' ∷ b'K' ∷ 0x03 ∷ 0x04 ∷ []))) [
                  | inr other ↦ rw other count
                  | inl magic ↦ rw magic (elim (Bool-cases (leb max_entries r.entry_count)) [
                    | inl full ↦ rw full count
                    | inr room ↦
                        rw room
                          (read_entry-GoodRound bytes offset r small (ground arith) (ground arith))
                  ])
                ])
    ]

-- What `analyze_zip` may end in.
abbrev pub GoodResult : Option (Outcome ArchiveAnalysis) → Type 0
GoodResult none = ⊥
GoodResult (some (ok r)) = r.entry_count ≤ max_entries
GoodResult (some (fail message)) = Unit {0}
GoodResult (some panic) = ⊥

resume-GoodResult :
    (go : ℕ → ArchiveAnalysis → Option (Outcome ArchiveAnalysis)) (len offset : ℕ)
    (x : Outcome Round)
    → GoodRound len offset x
    → ((offset' : ℕ) (r : ArchiveAnalysis)
        → offset + 30 ≤ len
        → offset + 30 ≤ offset'
        → r.entry_count ≤ max_entries
        → GoodResult (go offset' r))
    → GoodResult (resume go x)
unfolding resume
resume-GoodResult go len offset (ok (done r)) good rest = good
resume-GoodResult go len offset (ok (next offset' r)) good rest =
    rest offset' r good.0 good.1 good.2
resume-GoodResult go len offset (fail message) good rest = tt
resume-GoodResult go len offset panic good rest = good

zip_loop-GoodResult :
    (fuel : ℕ) (bytes : List ℕ) (offset : ℕ) (r : ArchiveAnalysis)
    → length bytes ≤ usize_max
    → r.entry_count ≤ max_entries
    → 0 < fuel
    → length bytes < fuel + offset
    → GoodResult (zip_loop fuel bytes offset r)
unfolding zip_loop
zip_loop-GoodResult zero bytes offset r small count some_fuel enough = elim some_fuel [ ]
zip_loop-GoodResult (suc fuel) bytes offset r small count some_fuel enough =
    resume-GoodResult (zip_loop fuel bytes) (length bytes) offset (zip_round bytes offset r)
      (zip_round-GoodRound bytes offset r small count)
      (λ offset' r' inside further count'.
        zip_loop-GoodResult fuel bytes offset' r' small count' (omega arith) (omega arith))

-- `analyze_zip`: for a file whose length fits a 64-bit `usize` the walk ends, with the length as
-- fuel; it never reads outside the file, that is, it does not panic; and it either fails with an
-- error or returns an analysis that counts at most 256 entries.
pub analyze_zip_total : (bytes : List ℕ) → length bytes ≤ usize_max → GoodResult (analyze_zip bytes)
unfolding analyze_zip
analyze_zip_total bytes small =
    zip_loop-GoodResult (suc (length bytes)) bytes 0 empty_archive small (omega arith) (omega arith)
      (omega arith)
