-- ===== src/Update/Rollback/Restored.antt =====
-- The snapshot of the installed program comes back (rollback.rs).
use zentor.Prelude.{
  ℕ, is_some, ◌≡◌, refl, sym, ap, ◌∙◌, true, false, none, some, List, [], ◌∷◌, ◌++◌, All, arith,
  Bool-cases, inl, inr,
}
use zentor.Text.{Text, text, text_eq, is_empty, drop_prefix}
use zentor.Outcome.{ok}
use zentor.Update.Package.{Tree, read}
use zentor.Update.Rollback.{
  Answers, Done, snapshot_items, is_dir, snapshot_item, for_items, create_snapshot, restore_item,
  restore_snapshot,
}
use zentor.Update.Rollback.Copies.{inside, touches, and_then-ok, read_no_dir}
use zentor.Update.Rollback.Steps.{
  snapshot_on-other, snapshot_item-file, snapshot_item-inside, snapshot_item-no_file,
  restore_on-other, restore_item-file, restore_item-inside,
}

-- the items of the list leave the path alone
abbrev Away : Text → List Text → Type 0
Away q items = All (λ item. (is_empty item ≡ false) × (touches item q ≡ false)) items

-- a step that leaves alone what its item does not touch
abbrev Local : (Text → Tree → Done) → Type 0
Local step =
    (item q : Text) (tree tree' : Tree)
    → is_empty item ≡ false
    → touches item q ≡ false
    → step item tree ≡ (tree', ok tt)
    → read tree' q ≡ read tree q

module _ (step : Text → Tree → Done) (local : Local step) (q : Text) where
  for_items-other :
      (items : List Text) (tree tree' : Tree)
      → Away q items
      → for_items step items tree ≡ (tree', ok tt)
      → read tree' q ≡ read tree q
  unfolding for_items
  for_items-other [] tree tree' away h = ap (λ d. read d.0 q) (sym h)
  for_items-other (item ∷ items) tree tree' away h =
      let (next, first, last) = and_then-ok (step item tree) (for_items step items) tree' h in
      for_items-other items next tree' away.1 last ∙ local item q tree next away.0.0 away.0.1 first

  -- the round of one item among others
  for_items-at :
      (before : List Text) (item : Text) (after : List Text) (tree tree' : Tree)
      → Away q before
      → Away q after
      → for_items step (before ++ item ∷ after) tree ≡ (tree', ok tt)
      → (t0 : Tree) × (t1 : Tree) × (read t0 q ≡ read tree q)
        × (step item t0 ≡ (t1, ok tt))
        × (read tree' q ≡ read t1 q)
  unfolding for_items
  for_items-at [] item after tree tree' away later h =
      let (next, first, last) = and_then-ok (step item tree) (for_items step after) tree' h in
      (tree, next, refl, first, for_items-other after next tree' later last)
  for_items-at (i ∷ before) item after tree tree' away later h =
      let (next, first, last) =
        and_then-ok (step i tree) (for_items step (before ++ item ∷ after)) tree' h in
      let (t0, t1, same, at, end) = for_items-at before item after next tree' away.1 later last in
      (t0, t1, same ∙ local i q tree next away.0.0 away.0.1 first, at, end)

snapshot_item-Local : (answers : Answers) (source : Tree) → Local (snapshot_item answers source)
unfolding snapshot_item
snapshot_item-Local answers source item q tree tree' some_item away h =
    snapshot_on-other answers answers source item some_item (read source item) tree tree' h q away

restore_item-Local :
    (answers removals : Answers) (source : Tree) → Local (restore_item answers removals source)
unfolding restore_item
restore_item-Local answers removals source item q tree tree' some_item away h =
    restore_on-other answers removals source item some_item (read source item) tree tree' h q away

empty_tree : (q : Text) → read [] q ≡ none
unfolding read
empty_tree q = refl

-- a snapshot that was made and brought back without an error
module _ (answers answers' removals : Answers) (installed other snapshot restored : Tree)
    (before : List Text) (item : Text) (after : List Text) (some_item : is_empty item ≡ false)
    (made : for_items (snapshot_item answers installed) (before ++ item ∷ after) []
      ≡ (snapshot, ok tt))
    (back : for_items (restore_item answers' removals snapshot) (before ++ item ∷ after) other
      ≡ (restored, ok tt)) where
  file_returns :
      Away item before
      → Away item after
      → (c : Text) → read installed item ≡ some c
      → read restored item ≡ some c
  file_returns first later c e =
      let (t0, t1, s0, step, s1) =
        for_items-at (snapshot_item answers installed) (snapshot_item-Local answers installed) item
          before item after [] snapshot first later made in
      let (u0, u1, r0, step', r1) =
        for_items-at (restore_item answers' removals snapshot)
          (restore_item-Local answers' removals snapshot) item before item after other restored
          first later back in
      let kept = s1 ∙ snapshot_item-file answers removals installed item some_item t0 t1 c step e in
      r1 ∙ restore_item-file answers' removals snapshot item some_item u0 u1 c step' kept

  inside_snapshot :
      (q : Text)
      → Away q before
      → Away q after
      → read installed item ≡ none
      → inside item q ≡ true
      → read snapshot q ≡ read installed q
  inside_snapshot q first later no_file within =
      let (t0, t1, s0, step, s1) =
        for_items-at (snapshot_item answers installed) (snapshot_item-Local answers installed) q
          before item after [] snapshot first later made in
      s1
      ∙ snapshot_item-inside answers removals installed item some_item t0 t1 q step no_file within
          (s0 ∙ empty_tree q)

  no_file_snapshot :
      Away item before
      → Away item after
      → read installed item ≡ none
      → inside item item ≡ false
      → read snapshot item ≡ none
  no_file_snapshot first later no_file apart =
      let (t0, t1, s0, step, s1) =
        for_items-at (snapshot_item answers installed) (snapshot_item-Local answers installed) item
          before item after [] snapshot first later made in
      s1
      ∙ snapshot_item-no_file answers removals installed item some_item t0 t1 step no_file apart
      ∙ s0
      ∙ empty_tree item

  inside_returns :
      (q : Text)
      → Away q before
      → Away q after
      → inside item q ≡ true
      → read installed item ≡ none
      → read snapshot item ≡ none
      → is_dir snapshot item ≡ true
      → read restored q ≡ read installed q
  inside_returns q first later within no_file no_copy dir =
      let (u0, u1, r0, step, r1) =
        for_items-at (restore_item answers' removals snapshot)
          (restore_item-Local answers' removals snapshot) q before item after other restored first
          later back in
      r1
      ∙ restore_item-inside answers' removals snapshot item some_item u0 u1 q step no_copy dir
          within
      ∙ inside_snapshot q first later no_file within

-- the last item is a folder
abbrev pub engine : Text
engine = text "engine"

abbrev app_exe : Text
app_exe = text "Avorax.exe"

abbrev core_exe : Text
core_exe = text "avorax_core_service.exe"

abbrev guard_exe : Text
guard_exe = text "avorax_guard_service.exe"

abbrev program_files : List Text
program_files = app_exe ∷ core_exe ∷ guard_exe ∷ []

first_letter : (b : ℕ) (t p : Text) → is_some (drop_prefix (b ∷ t) (b'e' ∷ p)) ≡ true → b ≡ b'e'
unfolding drop_prefix
first_letter b t p h = ground arith

engine_is_Away : (q : Text) → inside engine q ≡ true → Away q program_files
unfolding text text_eq drop_prefix is_empty
engine_is_Away [] h = cc
engine_is_Away (b ∷ t) h =
    rw (first_letter b t (text "ngine/") h) ((refl, refl), ((refl, refl), ((refl, refl), tt)))

is_dir_of :
    (item : Text) (tree : Tree) (path c : Text)
    → is_empty item ≡ false
    → inside item path ≡ true
    → read tree path ≡ some c
    → is_dir tree item ≡ true
is_dir_of item tree path c some_item within e = elim (Bool-cases (is_dir tree item)) [
  | inl dir ↦ dir
  | inr no_dir ↦ cc (read_no_dir item tree path some_item no_dir within, e)
]

items_named :
    (is_empty app_exe ≡ false)
    × (is_empty core_exe ≡ false)
    × (is_empty guard_exe ≡ false)
    × (is_empty engine ≡ false)
unfolding is_empty text
items_named = (refl, refl, refl, refl)

app_alone : Away app_exe (core_exe ∷ guard_exe ∷ engine ∷ [])
unfolding text text_eq drop_prefix is_empty
app_alone = ((refl, refl), ((refl, refl), ((refl, refl), tt)))

core_alone : Away core_exe (app_exe ∷ []) × Away core_exe (guard_exe ∷ engine ∷ [])
unfolding text text_eq drop_prefix is_empty
core_alone = (((refl, refl), tt), ((refl, refl), ((refl, refl), tt)))

guard_alone : Away guard_exe (app_exe ∷ core_exe ∷ []) × Away guard_exe (engine ∷ [])
unfolding text text_eq drop_prefix is_empty
guard_alone = (((refl, refl), ((refl, refl), tt)), ((refl, refl), tt))

engine_alone : Away engine program_files
unfolding text text_eq drop_prefix is_empty
engine_alone = ((refl, refl), ((refl, refl), ((refl, refl), tt)))

engine_apart : inside engine engine ≡ false
unfolding text drop_prefix
engine_apart = refl

snapshot_items-Away :
    (q : Text) → All (λ item. touches item q ≡ false) snapshot_items → Away q snapshot_items
snapshot_items-Away q (h0, (h1, (h2, (h3, u)))) =
    let (a, b, c, d) = items_named in ((a, h0), ((b, h1), ((c, h2), ((d, h3), u))))

-- the folder comes back when a file lay in it
engine_returns :
    (answers answers' removals : Answers) (installed other snapshot restored : Tree)
    → for_items (snapshot_item answers installed) snapshot_items [] ≡ (snapshot, ok tt)
    → for_items (restore_item answers' removals snapshot) snapshot_items other ≡ (restored, ok tt)
    → (path c : Text) → read installed engine ≡ none
    → inside engine path ≡ true
    → read installed path ≡ some c
    → (q : Text) → inside engine q ≡ true
    → read restored q ≡ read installed q
engine_returns answers answers' removals installed other snapshot restored made back path c no_file
      within e q within_q =
    let named = items_named.3 in
    let copied =
      inside_snapshot answers answers' removals installed other snapshot restored program_files
        engine [] named made back path (engine_is_Away path within) tt no_file within in
    let no_copy =
      no_file_snapshot answers answers' removals installed other snapshot restored program_files
        engine [] named made back engine_alone tt no_file engine_apart in
    inside_returns answers answers' removals installed other snapshot restored program_files engine
      [] named made back q (engine_is_Away q within_q) tt within_q no_file no_copy
      (is_dir_of engine snapshot path c named within (copied ∙ e))

-- `create_snapshot` and `restore_snapshot`: when a snapshot of the installed program was made and is
-- brought back into a folder without an error, each of the four items that was a file of the program
-- is there again with its contents. Where `engine` was a folder with a file in it, what lies below it
-- is again exactly what lay there. A file that is none of the items and lies below none stays as it
-- was in that folder.
pub restore_snapshot-create_snapshot :
    (answers answers' removals : Answers) (installed other snapshot restored : Tree)
    → create_snapshot answers installed ≡ (snapshot, ok tt)
    → restore_snapshot answers' removals snapshot other ≡ (restored, ok tt)
    → All
        (λ item. (c : Text) → read installed item ≡ some c → read restored item ≡ some c)
        snapshot_items
      × ((path c : Text)
          → read installed engine ≡ none
          → inside engine path ≡ true
          → read installed path ≡ some c
          → (q : Text) → inside engine q ≡ true
          → read restored q ≡ read installed q)
      × ((q : Text)
          → All (λ item. touches item q ≡ false) snapshot_items
          → read restored q ≡ read other q)
unfolding create_snapshot restore_snapshot
restore_snapshot-create_snapshot answers answers' removals installed other snapshot restored made
      back =
    let (a, b, c, d) = items_named in
    (
      (
        file_returns answers answers' removals installed other snapshot restored [] app_exe
            (core_exe ∷ guard_exe ∷ engine ∷ []) a made back tt app_alone,
        (
          file_returns answers answers' removals installed other snapshot restored (app_exe ∷ [])
              core_exe (guard_exe ∷ engine ∷ []) b made back core_alone.0 core_alone.1,
          (
            file_returns answers answers' removals installed other snapshot restored
                (app_exe ∷ core_exe ∷ []) guard_exe (engine ∷ []) c made back guard_alone.0
                guard_alone.1,
            (
              file_returns answers answers' removals installed other snapshot restored program_files
                  engine [] d made back engine_alone tt,
              tt,
            ),
          ),
        ),
      ),
      engine_returns answers answers' removals installed other snapshot restored made back,
      λ q away.
          for_items-other (restore_item answers' removals snapshot)
            (restore_item-Local answers' removals snapshot) q snapshot_items other restored
            (snapshot_items-Away q away) back,
    )
