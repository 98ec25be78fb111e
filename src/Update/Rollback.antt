-- ===== src/Update/Rollback.antt =====
-- core/avorax_update_service/src/{rollback,file_replacer}.rs: the copy of the installed program that
-- is made before an update, and its return. A folder is the tree of its files; what the file system
-- answers to a write or a removal is a parameter, and what was written before an error stays written.
pub mod Copies
pub mod Steps
pub mod Restored
use zentor.Prelude.{
  Bool, true, false, ◌||◌, not, Option, none, some, List, [], ◌∷◌, ◌++◌, is_some, filter_map,
  if◌then◌else◌,
}
use zentor.Text.{Text, text, is_empty, drop_prefix}
use zentor.Outcome.{Outcome, ok, fail, panic, ◌>>=◌, ◌>>◌}
use zentor.Update.Package.{Tree, read}

-- what the file system answers for a path below the folder
abbrev pub Answers : Type 0
Answers = Text → Outcome (Unit {0})

-- a folder, and how the last call ended
abbrev pub Done : Type 0
Done = Tree × Outcome (Unit {0})

-- `step?; …`
abbrev pub and_then : Done → (Tree → Done) → Done
and_then (tree, ok u) next = next tree
and_then (tree, fail message) next = (tree, fail message)
and_then (tree, panic) next = (tree, panic)

abbrev pub snapshot_items : List Text
snapshot_items =
    text "Avorax.exe"
    ∷ text "avorax_core_service.exe"
    ∷ text "avorax_guard_service.exe"
    ∷ text "engine"
    ∷ []

-- `folder.join(relative)`
unfoldable pub join_path : Text → Text → Text
join_path folder relative = if is_empty folder then relative else folder ++ (text "/" ++ relative)

-- the files below a folder of the tree, by their paths from it
abbrev relative_of : Option Text → Text → Option (Text × Text)
relative_of none contents = none
relative_of (some relative) contents = some (relative, contents)

abbrev relative_to : Text → Text × Text → Option (Text × Text)
relative_to folder p = relative_of (drop_prefix p.0 (folder ++ text "/")) p.1

unfoldable pub below : Text → Tree → Tree
below folder tree = filter_map (relative_to folder) tree

unfoldable pub is_dir : Tree → Text → Bool
is_dir tree item = elim (below item tree) [ [] ↦ false | ◌∷◌ p rest ↦ true ]

-- `std::fs::copy` to a file below the folder
abbrev write_on : Outcome (Unit {0}) → Text → Text → Tree → Done
write_on (ok u) path contents tree = ((path, contents) ∷ tree, ok tt)
write_on (fail message) path contents tree = (tree, fail message)
write_on panic path contents tree = (tree, panic)

unfoldable pub write_file : Answers → Text → Text → Tree → Done
write_file answers path contents tree = write_on (answers path) path contents tree

-- `copy_dir` and `copy_tree_overwrite`, of the files below a folder in some order
unfoldable pub copy_files : Answers → Text → Tree → Tree → Done
copy_files answers destination [] tree = (tree, ok tt)
copy_files answers destination ((relative, contents) ∷ rest) tree =
    and_then (copy_files answers destination rest tree)
      (write_file answers (join_path destination relative) contents)

-- `std::fs::remove_dir_all`
unfoldable pub without : Text → Tree → Tree
without item [] = []
without item (p ∷ rest) =
    let kept = without item rest in
    if is_some (drop_prefix p.0 (item ++ text "/")) then kept else p ∷ kept

abbrev remove_on : Outcome (Unit {0}) → Text → Tree → Done
remove_on (ok u) item tree = (without item tree, ok tt)
remove_on (fail message) item tree = (tree, fail message)
remove_on panic item tree = (tree, panic)

unfoldable pub remove_dir : Answers → Text → Tree → Done
remove_dir removals item tree =
    if is_dir tree item then remove_on (removals item) item tree else (tree, ok tt)

-- one round of `create_snapshot`, by the file that stands there: the item goes from the installed
-- program into the snapshot
unfoldable pub snapshot_on : Answers → Tree → Text → Option Text → Tree → Done
snapshot_on answers installed item (some contents) snapshot =
    write_file answers item contents snapshot
snapshot_on answers installed item none snapshot =
    if is_dir installed item
    then copy_files answers item (below item installed) snapshot
    else (snapshot, ok tt)

unfoldable pub snapshot_item : Answers → Tree → Text → Tree → Done
snapshot_item answers installed item snapshot =
    snapshot_on answers installed item (read installed item) snapshot

unfoldable pub for_items : (Text → Tree → Done) → List Text → Tree → Done
for_items step [] tree = (tree, ok tt)
for_items step (item ∷ rest) tree = and_then (step item tree) (for_items step rest)

-- the snapshot begins as an empty folder
unfoldable pub create_snapshot : Answers → Tree → Done
create_snapshot answers installed = for_items (snapshot_item answers installed) snapshot_items []

-- one round of `restore_snapshot`, by the file that stands there
unfoldable pub restore_on : Answers → Answers → Tree → Text → Option Text → Tree → Done
restore_on answers removals snapshot item (some contents) installed =
    write_file answers item contents installed
restore_on answers removals snapshot item none installed =
    if is_dir snapshot item
    then and_then (remove_dir removals item installed)
        (copy_files answers item (below item snapshot))
    else (installed, ok tt)

unfoldable pub restore_item : Answers → Answers → Tree → Text → Tree → Done
restore_item answers removals snapshot item installed =
    restore_on answers removals snapshot item (read snapshot item) installed

unfoldable pub restore_snapshot : Answers → Answers → Tree → Tree → Done
restore_snapshot answers removals snapshot installed =
    for_items (restore_item answers removals snapshot) snapshot_items installed
