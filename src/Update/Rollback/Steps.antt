-- ===== src/Update/Rollback/Steps.antt =====
-- What a step of making a snapshot and one of bringing it back do (rollback.rs).
use zentor.Prelude.{
  ◌≡◌, refl, sym, ap, ◌∙◌, Bool, true, false, Option, none, some, if_came, inl, inr, arith,
  if◌then◌else◌,
}
use zentor.Text.{Text, text_eq, is_empty}
use zentor.Text.Laws.{text_eq_refl}
use zentor.Outcome.{Outcome, ok, fail, panic}
use zentor.Update.Package.{Tree, read}
use zentor.Update.Rollback.{
  Answers, Done, and_then, is_dir, below, write_file, copy_files, remove_on, remove_dir,
  snapshot_on, snapshot_item, restore_on, restore_item, without,
}
use zentor.Update.Rollback.Copies.{
  inside, touches, and_then-ok, write_on-ok, or_read, read-without, copy_below-read, read_written,
  read_no_dir,
}

or_read-none : (o : Option Text) → or_read o none ≡ o
or_read-none none = refl
or_read-none (some c) = refl

sym_if : (b : Bool) (o : Option Text) → (b ≡ true → o ≡ none) → o ≡ (if b then none else o)
sym_if true o h = h refl
sym_if false o h = refl

-- a folder that is removed, if it was there
module _ (removals : Answers) (item : Text) (some_item : is_empty item ≡ false) where
  remove_on-ok :
      (m : Outcome (Unit {0})) (tree tree' : Tree)
      → remove_on m item tree ≡ (tree', ok tt)
      → tree' ≡ without item tree
  remove_on-ok (ok u) tree tree' h = sym (ap (λ d. d.0) h)
  remove_on-ok (fail message) tree tree' h = let e = ap (λ d. d.1) h in cc e
  remove_on-ok panic tree tree' h = let e = ap (λ d. d.1) h in cc e

  remove_dir-read :
      (tree tree' : Tree) (q : Text)
      → remove_dir removals item tree ≡ (tree', ok tt)
      → read tree' q ≡ (if inside item q then none else read tree q)
  unfolding remove_dir
  remove_dir-read tree tree' q h = elim (if_came (is_dir tree item) h) [
    | inl (dir, e) ↦
        ap (λ t. read t q) (remove_on-ok (removals item) tree tree' e) ∙ read-without item tree q
    | inr (no_dir, e) ↦
        ap (λ d. read d.0 q) (sym e)
        ∙ sym_if (inside item q) _ (read_no_dir item tree q some_item no_dir)
  ]

if_true : {A : Type 0} (b : Bool) (x y z : A) → b ≡ true → (if b then x else y) ≡ z → x ≡ z
if_true true x y z e h = h
if_true false x y z e h = cc

write_file-read :
    (answers : Answers) (path contents : Text) (tree tree' : Tree) (q : Text)
    → write_file answers path contents tree ≡ (tree', ok tt)
    → read tree' q ≡ (if text_eq path q then some contents else read tree q)
unfolding write_file
write_file-read answers path contents tree tree' q h =
    ap (λ t. read t q) (write_on-ok (answers path) path contents tree tree' h)
    ∙ read_written path contents tree q

module _ (item q : Text) (away : touches item q ≡ false) where
  not_item : text_eq item q ≡ false
  not_item = ground arith

  not_inside : inside item q ≡ false
  not_inside = ground arith

-- the answers of the file system, and the tree that is copied from
module _ (answers removals : Answers) (source : Tree) (item : Text)
    (some_item : is_empty item ≡ false) where
  pub snapshot_on-other :
      (o : Option Text) (tree tree' : Tree)
      → snapshot_on answers source item o tree ≡ (tree', ok tt)
      → (q : Text) → touches item q ≡ false
      → read tree' q ≡ read tree q
  unfolding snapshot_on
  snapshot_on-other (some c) tree tree' h q away =
      write_file-read answers item c tree tree' q h ∙ rw (not_item item q away) refl
  snapshot_on-other none tree tree' h q away = elim (if_came (is_dir source item) h) [
    | inl (dir, e) ↦
        copy_below-read answers item source tree tree' q some_item e
        ∙ rw (not_inside item q away) refl
    | inr (no_dir, e) ↦ ap (λ d. read d.0 q) (sym e)
  ]

  pub snapshot_item-file :
      (tree tree' : Tree) (c : Text)
      → snapshot_item answers source item tree ≡ (tree', ok tt)
      → read source item ≡ some c
      → read tree' item ≡ some c
  unfolding snapshot_item snapshot_on
  snapshot_item-file tree tree' c h e =
      let written = ap (λ o. snapshot_on answers source item o tree) (sym e) ∙ h in
      write_file-read answers item c tree tree' item written ∙ rw (text_eq_refl item) refl

  snapshot_on-inside :
      (tree tree' : Tree) (q : Text)
      → snapshot_on answers source item none tree ≡ (tree', ok tt)
      → inside item q ≡ true
      → read tree q ≡ none
      → read tree' q ≡ read source q
  unfolding snapshot_on
  snapshot_on-inside tree tree' q h within before = elim (if_came (is_dir source item) h) [
    | inl (dir, e) ↦
        copy_below-read answers item source tree tree' q some_item e
        ∙ rw (within, before) (or_read-none (read source q))
    | inr (no_dir, e) ↦
        ap (λ d. read d.0 q) (sym e)
        ∙ before
        ∙ sym (read_no_dir item source q some_item no_dir within)
  ]

  pub snapshot_item-inside :
      (tree tree' : Tree) (q : Text)
      → snapshot_item answers source item tree ≡ (tree', ok tt)
      → read source item ≡ none
      → inside item q ≡ true
      → read tree q ≡ none
      → read tree' q ≡ read source q
  unfolding snapshot_item
  snapshot_item-inside tree tree' q h e within before =
      snapshot_on-inside tree tree' q (ap (λ o. snapshot_on answers source item o tree) (sym e) ∙ h)
        within before

  snapshot_on-no_file :
      (tree tree' : Tree)
      → snapshot_on answers source item none tree ≡ (tree', ok tt)
      → inside item item ≡ false
      → read tree' item ≡ read tree item
  unfolding snapshot_on
  snapshot_on-no_file tree tree' h apart = elim (if_came (is_dir source item) h) [
    | inl (dir, e) ↦ copy_below-read answers item source tree tree' item some_item e ∙ rw apart refl
    | inr (no_dir, e) ↦ ap (λ d. read d.0 item) (sym e)
  ]

  pub snapshot_item-no_file :
      (tree tree' : Tree)
      → snapshot_item answers source item tree ≡ (tree', ok tt)
      → read source item ≡ none
      → inside item item ≡ false
      → read tree' item ≡ read tree item
  unfolding snapshot_item
  snapshot_item-no_file tree tree' h e apart =
      snapshot_on-no_file tree tree' (ap (λ o. snapshot_on answers source item o tree) (sym e) ∙ h)
        apart

  pub restore_on-other :
      (o : Option Text) (tree tree' : Tree)
      → restore_on answers removals source item o tree ≡ (tree', ok tt)
      → (q : Text) → touches item q ≡ false
      → read tree' q ≡ read tree q
  unfolding restore_on
  restore_on-other (some c) tree tree' h q away =
      write_file-read answers item c tree tree' q h ∙ rw (not_item item q away) refl
  restore_on-other none tree tree' h q away = elim (if_came (is_dir source item) h) [
    | inl (dir, e) ↦
        let (removed, gone, copied) = and_then-ok (remove_dir removals item tree) _ tree' e in
        copy_below-read answers item source removed tree' q some_item copied
        ∙ rw (not_inside item q away) (
            remove_dir-read removals item some_item tree removed q gone
            ∙ rw (not_inside item q away) refl)
    | inr (no_dir, e) ↦ ap (λ d. read d.0 q) (sym e)
  ]

  pub restore_item-file :
      (tree tree' : Tree) (c : Text)
      → restore_item answers removals source item tree ≡ (tree', ok tt)
      → read source item ≡ some c
      → read tree' item ≡ some c
  unfolding restore_item restore_on
  restore_item-file tree tree' c h e =
      let written = ap (λ o. restore_on answers removals source item o tree) (sym e) ∙ h in
      write_file-read answers item c tree tree' item written ∙ rw (text_eq_refl item) refl

  pub restore_item-inside :
      (tree tree' : Tree) (q : Text)
      → restore_item answers removals source item tree ≡ (tree', ok tt)
      → read source item ≡ none
      → is_dir source item ≡ true
      → inside item q ≡ true
      → read tree' q ≡ read source q
  unfolding restore_item restore_on
  restore_item-inside tree tree' q h e dir within =
      let copied = ap (λ o. restore_on answers removals source item o tree) (sym e) ∙ h in
      let moved : Done =
        and_then (remove_dir removals item tree) (copy_files answers item (below item source)) in
      let as_dir : moved ≡ (tree', ok tt) =
        if_true (is_dir source item) moved (tree, ok tt) _ dir copied in
      let (removed, gone, last) = and_then-ok (remove_dir removals item tree) _ tree' as_dir in
      copy_below-read answers item source removed tree' q some_item last
      ∙ rw (within, remove_dir-read removals item some_item tree removed q gone, within)
          (or_read-none (read source q))
