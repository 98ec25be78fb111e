-- ===== src/Behavior/Window.antt =====
-- behavior/file_activity_window.rs: the activity of each process over a sliding window of time.
pub mod Map
pub mod History
use Prim.Native.Nat.{Ordering}
use zentor.Prelude.{
  ℕ, ◌+◌, ◌-◌, ◌*◌, ◌^◌, Bool, true, false, ◌||◌, Option, none, some, List, [], ◌∷◌, leb, ltb, ◌==◌,
  if◌then◌else◌, length, keep,
}
use zentor.Text.{Text}
use zentor.Path.{path_compare}
use zentor.Verdict.{Evidence}
use zentor.Behavior.{FileActivityEvent, BehaviorDecision, analyze}

-- A time is an `Instant`, as its nanoseconds.
pub record ProcessWindow : Type 0 where
  pub last_seen : ℕ
  pub files_modified : ℕ  -- u32
  pub files_renamed : ℕ  -- u32
  pub entropy_increases : ℕ  -- u32
  pub ransom_note_created : Bool
  pub backup_tamper_attempt : Bool
  pub affected_paths : List Text

abbrev pub u32_max : ℕ
u32_max = 2 ^ 32 - 1

-- `u32::saturating_add`
unfoldable pub saturating_add : ℕ → ℕ → ℕ
saturating_add a b = if leb (a + b) u32_max then a + b else u32_max

unfoldable pub new_window : ℕ → ProcessWindow
new_window now = record {
  last_seen = now;
  files_modified = 0;
  files_renamed = 0;
  entropy_increases = 0;
  ransom_note_created = false;
  backup_tamper_attempt = false;
  affected_paths = [];
}

-- `BTreeSet::insert`: sorted, and a path that is there already stays
insert_path : Text → List Text → List Text
unfolding path_compare
insert_path p [] = p ∷ []
insert_path p (q ∷ rest) =
    let later = insert_path p rest in
    elim (path_compare p q) [
      | Ordering.lt ↦ p ∷ q ∷ rest
      | Ordering.eq ↦ q ∷ rest
      | Ordering.gt ↦ q ∷ later
    ]

extend_paths : List Text → List Text → List Text
unfolding insert_path
extend_paths set [] = set
extend_paths set (p ∷ rest) = extend_paths (insert_path p set) rest

unfoldable pub apply_event : ℕ → FileActivityEvent → ProcessWindow → ProcessWindow
unfolding saturating_add extend_paths
apply_event now event w = record {
  last_seen = now;
  files_modified = saturating_add w.files_modified event.files_modified_count;
  files_renamed = saturating_add w.files_renamed event.files_renamed_count;
  entropy_increases = saturating_add w.entropy_increases event.entropy_increase_count;
  ransom_note_created = w.ransom_note_created || event.ransom_note_created;
  backup_tamper_attempt = w.backup_tamper_attempt || event.backup_tamper_attempt;
  affected_paths = extend_paths w.affected_paths event.affected_paths;
}

unfoldable pub to_event : ProcessWindow → ℕ → Text → FileActivityEvent
to_event w process_id process_path = record {
  process_id = process_id;
  process_path = process_path;
  affected_paths = w.affected_paths;
  files_modified_count = w.files_modified;
  files_renamed_count = w.files_renamed;
  entropy_increase_count = w.entropy_increases;
  ransom_note_created = w.ransom_note_created;
  backup_tamper_attempt = w.backup_tamper_attempt;
}

-- The `HashMap` by process, as an association list.
abbrev pub Windows : Type 0
Windows = List (ℕ × ProcessWindow)

pub record RansomwareActivityWindow : Type 0 where
  pub retention : ℕ
  pub windows : Windows

-- `RansomwareActivityWindow::new`, and its `Default` with 90 seconds
unfoldable pub new : ℕ → RansomwareActivityWindow
new retention = record { retention = retention; windows = [] }

unfoldable pub default_window : RansomwareActivityWindow
unfolding new
default_window = new (90 * 1_000_000_000)

unfoldable pub lookup : ℕ → Windows → Option ProcessWindow
lookup pid [] = none
lookup pid ((k, w) ∷ rest) = if k == pid then some w else lookup pid rest

unfoldable pub insert : ℕ → ProcessWindow → Windows → Windows
insert pid w [] = (pid, w) ∷ []
insert pid w ((k, v) ∷ rest) = if k == pid then (pid, w) ∷ rest else (k, v) ∷ insert pid w rest

-- `now.duration_since(last_seen) <= retention`; the duration is 0 where `last_seen` is later
unfoldable pub is_live : ℕ → ℕ → ProcessWindow → Bool
is_live retention now w = leb (now - w.last_seen) retention

unfoldable pub prune : ℕ → ℕ → Windows → Windows
unfolding is_live
prune retention now = keep (λ entry. is_live retention now entry.1)

-- `entry(id).or_insert_with(new)`
abbrev pub or_new : ℕ → Option ProcessWindow → ProcessWindow
or_new now none = new_window now
or_new now (some w) = w

unfoldable pub observe :
    ℕ
    → FileActivityEvent
    → RansomwareActivityWindow
    → RansomwareActivityWindow × (BehaviorDecision × Option Evidence)
unfolding prune lookup new_window apply_event insert to_event analyze
observe now event state =
    let pruned = prune state.retention now state.windows in
    let window = apply_event now event (or_new now (lookup event.process_id pruned)) in
    (
      record state { windows = insert event.process_id window pruned },
      analyze (to_event window event.process_id event.process_path),
    )

unfoldable pub tracked_process_count : RansomwareActivityWindow → ℕ
tracked_process_count state = length state.windows
