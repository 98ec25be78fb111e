-- ===== src/Update/Rollback/Copies.antt =====
-- What copying a folder and removing one do to the files that are read (rollback.rs).
use zentor.Prelude.{
  ◌≡◌, refl, sym, ap, ◌∙◌, Bool, true, false, ◌||◌, Option, none, some, [], ◌∷◌, ◌++◌, map, is_some,
  push_some, arith, if◌then◌else◌,
}
use mathlib.Core.Option.{some-injective}
use zentor.Text.{Text, text, text_eq, is_empty, drop_prefix}
use zentor.Text.Laws.{text_eq_iff}
use zentor.Outcome.{Outcome, ok, fail, panic}
use zentor.Update.Package.{Tree, read}
use zentor.Update.Rollback.{
  Answers, Done, and_then, join_path, relative_of, below, is_dir, write_on, write_file, copy_files,
  without,
}

-- the path lies below the folder
abbrev pub inside : Text → Text → Bool
inside item path = is_some (drop_prefix path (item ++ text "/"))

-- the path is the item or lies below it
abbrev pub touches : Text → Text → Bool
touches item path = text_eq item path || inside item path

pub and_then-ok :
    (d : Done) (next : Tree → Done) (tree' : Tree)
    → and_then d next ≡ (tree', ok tt)
    → (tree : Tree) × (d ≡ (tree, ok tt)) × (next tree ≡ (tree', ok tt))
and_then-ok (tree, ok u) next tree' h = (tree, refl, h)
and_then-ok (tree, fail message) next tree' h = let e = ap (λ d. d.1) h in cc e
and_then-ok (tree, panic) next tree' h = let e = ap (λ d. d.1) h in cc e

pub write_on-ok :
    (m : Outcome (Unit {0})) (path contents : Text) (tree tree' : Tree)
    → write_on m path contents tree ≡ (tree', ok tt)
    → tree' ≡ (path, contents) ∷ tree
write_on-ok (ok u) path contents tree tree' h = sym (ap (λ d. d.0) h)
write_on-ok (fail message) path contents tree tree' h = let e = ap (λ d. d.1) h in cc e
write_on-ok panic path contents tree tree' h = let e = ap (λ d. d.1) h in cc e

-- the files of the list, at their places below the folder
abbrev moved : Text → Tree → Tree
moved folder files = map (λ p. (join_path folder p.0, p.1)) files

copy_files-moved :
    (answers : Answers) (destination : Text) (files tree tree' : Tree)
    → copy_files answers destination files tree ≡ (tree', ok tt)
    → tree' ≡ moved destination files ++ tree
unfolding copy_files write_file
copy_files-moved answers destination [] tree tree' h = sym (ap (λ d. d.0) h)
copy_files-moved answers destination (p ∷ files) tree tree' h =
    let (copied, e, last) = and_then-ok (copy_files answers destination files tree) _ tree' h in
    write_on-ok (answers (join_path destination p.0)) _ _ copied tree' last
    ∙ ap (λ t. (join_path destination p.0, p.1) ∷ t)
        (copy_files-moved answers destination files tree copied e)

abbrev pub or_read : Option Text → Option Text → Option Text
or_read none o = o
or_read (some c) o = some c

read-append :
    (xs ys : Tree) (path : Text) → read (xs ++ ys) path ≡ or_read (read xs path) (read ys path)
unfolding read
read-append [] ys path = refl
read-append (p ∷ xs) ys path = ground (arith, read-append xs ys path)

drop_prefix→append : (s p r : Text) → drop_prefix s p ≡ some r → s ≡ p ++ r
unfolding drop_prefix
drop_prefix→append s [] r h = some-injective s r h
drop_prefix→append [] (b ∷ p) r h = cc
drop_prefix→append (a ∷ s) (b ∷ p) r h = ground (arith, drop_prefix→append s p r)

append_assoc : (s t u : Text) → (s ++ t) ++ u ≡ s ++ (t ++ u)
append_assoc [] t u = refl
append_assoc (b ∷ s) t u = ap (λ v. b ∷ v) (append_assoc s t u)

join_path_inside :
    (item relative : Text)
    → is_empty item ≡ false
    → join_path item relative ≡ (item ++ text "/") ++ relative
unfolding join_path
join_path_inside item relative h = rw h (sym (append_assoc item (text "/") relative))

inside_same :
    (item p path : Text) (o : Option Text)
    → drop_prefix p (item ++ text "/") ≡ o
    → text_eq p path ≡ true
    → inside item path ≡ is_some o
inside_same item p path o e same = rw (← (text_eq_iff p path).0 same, e) refl

-- one file more, by whether it lies below the folder
below_step :
    (item path : Text) (p : Text × Text) (files tree : Tree) (o : Option Text)
    → is_empty item ≡ false
    → drop_prefix p.0 (item ++ text "/") ≡ o
    → read (moved item files) path ≡ (if inside item path then read tree path else none)
    → read (moved item (push_some (relative_of o p.1) files)) path
      ≡ (if inside item path then read (p ∷ tree) path else none)
unfolding read
below_step item path p files tree none some_item e ih =
    ih ∙ ground (arith, inside_same item p.0 path none e)
below_step item path p files tree (some r) some_item e ih =
    let same =
      join_path_inside item r some_item ∙ sym (drop_prefix→append p.0 (item ++ text "/") r e) in
    rw (same, ih) (ground (arith, inside_same item p.0 path (some r) e))

read-below :
    (item : Text) (tree : Tree) (path : Text)
    → is_empty item ≡ false
    → read (moved item (below item tree)) path ≡ (if inside item path then read tree path else none)
unfolding below read
read-below item [] path h = ground arith
read-below item (p ∷ tree) path h =
    below_step item path p (below item tree) tree (drop_prefix p.0 (item ++ text "/")) h refl
      (read-below item tree path h)

without_step :
    (item path : Text) (p : Text × Text) (kept tree : Tree)
    → read kept path ≡ (if inside item path then none else read tree path)
    → read (if inside item p.0 then kept else p ∷ kept) path
      ≡ (if inside item path then none else read (p ∷ tree) path)
unfolding read
without_step item path p kept tree ih =
    ground (arith, inside_same item p.0 path (drop_prefix p.0 (item ++ text "/")) refl)

pub read-without :
    (item : Text) (tree : Tree) (path : Text)
    → read (without item tree) path ≡ (if inside item path then none else read tree path)
unfolding without read
read-without item [] path = ground arith
read-without item (p ∷ tree) path =
    without_step item path p (without item tree) tree (read-without item tree path)

or_read_if :
    (b : Bool) (x y : Option Text)
    → or_read (if b then x else none) y ≡ (if b then or_read x y else y)
or_read_if true x y = refl
or_read_if false x y = refl

-- a folder copied onto another
pub copy_below-read :
    (answers : Answers) (item : Text) (source tree tree' : Tree) (path : Text)
    → is_empty item ≡ false
    → copy_files answers item (below item source) tree ≡ (tree', ok tt)
    → read tree' path
      ≡ (if inside item path then or_read (read source path) (read tree path) else read tree path)
copy_below-read answers item source tree tree' path some_item h =
    ap (λ t. read t path) (copy_files-moved answers item (below item source) tree tree' h)
    ∙ read-append (moved item (below item source)) tree path
    ∙ rw (read-below item source path some_item) (or_read_if (inside item path) _ _)

pub read_written :
    (path contents : Text) (tree : Tree) (q : Text)
    → read ((path, contents) ∷ tree) q ≡ (if text_eq path q then some contents else read tree q)
unfolding read
read_written path contents tree q = refl

no_files : (files : Tree) → elim files [ [] ↦ false | ◌∷◌ p rest ↦ true ] ≡ false → files ≡ []
no_files [] h = refl
no_files (p ∷ rest) h = cc

-- nothing lies below what is no folder
pub read_no_dir :
    (item : Text) (tree : Tree) (path : Text)
    → is_empty item ≡ false
    → is_dir tree item ≡ false
    → inside item path ≡ true
    → read tree path ≡ none
unfolding is_dir read
read_no_dir item tree path some_item h within =
    let at = read-below item tree path some_item in
    let as_read : (if inside item path then read tree path else none) ≡ read tree path =
      rw within refl in
    sym as_read ∙ sym at ∙ rw (no_files (below item tree) h) refl
