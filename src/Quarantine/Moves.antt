-- ===== src/Quarantine/Moves.antt =====
-- What the calls that change a disk do to the files on it (quarantine_store.rs).
use zentor.Prelude.{
  ◌≡◌, refl, sym, ap, ◌∙◌, true, false, Option, none, some, [], ◌∷◌, ◌++◌, arith, inl, inr, if_came,
  if_or, if◌then◌else◌,
}
use zentor.Text.{Text, text, text_eq}
use zentor.Text.Laws.{text_eq_iff}
use zentor.Outcome.{Outcome, ok, fail, panic}
use zentor.Quarantine.{QuarantineRecord, File, Disk, file_at, remove, put, exists, System}
use zentor.Quarantine.Store.{
  moved, written, removed, in_base, rename, write, write_record, remove_payload,
}

same_as : (a b q : Text) → text_eq a b ≡ true → text_eq a q ≡ text_eq b q
same_as a b q h = ap (λ t. text_eq t q) ((text_eq_iff a b).0 h)

both_same : (a b q : Text) → text_eq a q ≡ true → text_eq b q ≡ true → text_eq a b ≡ true
both_same a b q h h' = (text_eq_iff a b).1 ((text_eq_iff a q).0 h ∙ sym ((text_eq_iff b q).0 h'))

pub file_at-remove :
    (path : Text) (disk : Disk) (q : Text)
    → file_at (remove path disk) q ≡ (if text_eq path q then none else file_at disk q)
unfolding file_at remove
file_at-remove path [] q = ground arith
file_at-remove path (p ∷ disk) q =
    ground (arith, file_at-remove path disk q, same_as p.0 path q, both_same p.0 path q)

pub file_at-put :
    (path : Text) (f : File) (disk : Disk) (q : Text)
    → file_at (put path f disk) q ≡ (if text_eq path q then some f else file_at disk q)
unfolding file_at put
file_at-put path f disk q = ground (arith, file_at-remove path disk q)

-- a file that was moved
abbrev pub Moved : Text → Text → File → Disk → Disk → Type 0
Moved from to f disk disk' =
    (file_at disk from ≡ some f)
    × ((q : Text)
        → file_at disk' q
          ≡ (if text_eq to q then some f else if text_eq from q then none else file_at disk q))

moved-Moved :
    (from to : Text) (disk disk' : Disk) (o : Option File) (answer : Outcome (Unit {0}))
    → file_at disk from ≡ o
    → moved from to disk o answer ≡ (disk', ok tt)
    → (f : File) × Moved from to f disk disk'
moved-Moved from to disk disk' none answer e h = let e' = ap (λ p. p.1) h in cc e'
moved-Moved from to disk disk' (some f) (ok u) e h = (
  f,
  (
    e,
    λ q.
        ap (λ p. file_at p.0 q) (sym h)
        ∙ file_at-put to f (remove from disk) q
        ∙ rw (file_at-remove from disk q) refl,
  ),
)
moved-Moved from to disk disk' (some f) (fail message) e h = let e' = ap (λ p. p.1) h in cc e'
moved-Moved from to disk disk' (some f) panic e h = let e' = ap (λ p. p.1) h in cc e'

written-other :
    (path bytes : Text) (disk disk' : Disk) (answer : Outcome (Unit {0}))
    → written path bytes disk answer ≡ (disk', ok tt)
    → (q : Text) → text_eq path q ≡ false
    → file_at disk' q ≡ file_at disk q
written-other path bytes disk disk' (ok u) h q other =
    ap (λ p. file_at p.0 q) (sym h) ∙ file_at-put path _ disk q ∙ rw other refl
written-other path bytes disk disk' (fail message) h q other = let e' = ap (λ p. p.1) h in cc e'
written-other path bytes disk disk' panic h q other = let e' = ap (λ p. p.1) h in cc e'

removed-gone :
    (path : Text) (disk disk' : Disk) (o : Option File) (answer : Outcome (Unit {0}))
    → removed path disk o answer ≡ (disk', ok tt)
    → (q : Text) → file_at disk' q ≡ (if text_eq path q then none else file_at disk q)
removed-gone path disk disk' none answer h q = let e' = ap (λ p. p.1) h in cc e'
removed-gone path disk disk' (some f) (ok u) h q =
    ap (λ p. file_at p.0 q) (sym h) ∙ file_at-remove path disk q
removed-gone path disk disk' (some f) (fail message) h q = let e' = ap (λ p. p.1) h in cc e'
removed-gone path disk disk' (some f) panic h q = let e' = ap (λ p. p.1) h in cc e'

absent_none : (path : Text) (disk : Disk) → exists disk path ≡ false → file_at disk path ≡ none
unfolding exists file_at
absent_none path [] h = refl
absent_none path (p ∷ disk) h = ground (arith, absent_none path disk)

absent_gone :
    (path : Text) (disk : Disk)
    → exists disk path ≡ false
    → (q : Text) → file_at disk q ≡ (if text_eq path q then none else file_at disk q)
absent_gone path disk h q =
    if_or (λ o. file_at disk q ≡ o) (text_eq path q)
      (λ e. ap (file_at disk) (sym ((text_eq_iff path q).0 e)) ∙ absent_none path disk h)
      (λ e. refl)

module _ (system : System) (base : Text) where
  pub rename-Moved :
      (from to : Text) (disk disk' : Disk)
      → rename system base from to disk ≡ (disk', ok tt)
      → (f : File) × Moved from to f disk disk'
  unfolding rename
  rename-Moved from to disk disk' h =
      moved-Moved from to disk disk' (file_at disk from) (system.rename_answer from to) refl h

  -- where the record of an item is kept
  abbrev pub record_path : Text → Text
  record_path id = in_base system base (id ++ text ".json")

  pub write_record-other :
      (item : QuarantineRecord) (disk disk' : Disk)
      → write_record system base item disk ≡ (disk', ok tt)
      → (q : Text) → text_eq (record_path item.quarantine_id) q ≡ false
      → file_at disk' q ≡ file_at disk q
  unfolding write_record write
  write_record-other item disk disk' h q other =
      written-other (record_path item.quarantine_id) (system.print item) disk disk'
        (system.write_answer (record_path item.quarantine_id)) h q other

  pub remove_payload-gone :
      (path : Text) (disk disk' : Disk)
      → remove_payload system base path disk ≡ (disk', ok tt)
      → (q : Text) → file_at disk' q ≡ (if text_eq path q then none else file_at disk q)
  unfolding remove_payload
  remove_payload-gone path disk disk' h q = elim (if_came (exists disk path) h) [
    | inl (there, e) ↦
        removed-gone path disk disk' (file_at disk path) (system.remove_answer path) e q
    | inr (absent, e) ↦ ap (λ p. file_at p.0 q) (sym e) ∙ absent_gone path disk absent q
  ]
