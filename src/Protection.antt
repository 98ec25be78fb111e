-- ===== src/Protection.antt =====
-- core/zentor_local_core/src/protection/ransomware_guard.rs: the guard that raises a signal when a
-- process changes many protected files. The `f32` scores are numbers of a parameter; paths are
-- their text.
pub mod Alarms
use zentor.Prelude.{
  ℕ, ◌^◌, ◌%◌, Bool, true, false, ◌&&◌, ◌||◌, not, Option, none, some, List, [], ◌∷◌, ◌++◌, length,
  keep, any, leb, ◌==◌, if◌then◌else◌,
}
use zentor.Text.{Text, text, text_eq, starts_with, replace_byte, trim_end_bytes, to_ascii_lowercase}
use zentor.Float.{Float}

pub record RansomwareSignal (F : Type 0) : Type 0 where
  pub process_id : ℕ
  pub process_path : Text
  pub affected_paths : List Text
  pub files_modified_count : ℕ
  pub files_renamed_count : ℕ
  pub entropy_change_score : F
  pub ransom_note_score : F
  pub backup_tamper_score : F
  pub time_window_seconds : ℕ
  pub severity : Text
  pub confidence : Text

pub record RansomwareGuardConfig : Type 0 where
  pub protected_roots : List Text
  pub trusted_process_allowlist : List Text

unfoldable pub no_roots : RansomwareGuardConfig
no_roots = record { protected_roots = []; trusted_process_allowlist = [] }

-- the arguments of `evaluate` but for the process and its writes
pub record Activity (F : Type 0) : Type 0 where
  pub renamed_count : ℕ
  pub entropy_change_score : F
  pub ransom_note_score : F
  pub backup_tamper_score : F
  pub time_window_seconds : ℕ

unfoldable pub normalize_path_text : Text → Text
normalize_path_text path =
    to_ascii_lowercase (trim_end_bytes (λ b. b == b'/') (replace_byte b'\\' b'/' path))

unfoldable pub paths_equal : Text → Text → Bool
paths_equal left right = text_eq (normalize_path_text left) (normalize_path_text right)

unfoldable pub path_is_within : Text → Text → Bool
path_is_within path root =
    text_eq (normalize_path_text path) (normalize_path_text root)
    || starts_with (normalize_path_text path) (normalize_path_text root ++ text "/")

unfoldable pub trusted_process : Text → List Text → Bool
trusted_process process_path trusted = any (paths_equal process_path) trusted

unfoldable pub protected_modified_paths : List Text → List Text → List Text
protected_modified_paths modified [] = modified
protected_modified_paths modified (root ∷ roots) =
    keep (λ path. any (path_is_within path) (root ∷ roots)) modified

module _ {F : Type 0} (fl : Float F) where
  unfoldable pub severe_file_activity : ℕ → Activity F → Bool
  severe_file_activity n a =
      leb 25 n && leb a.time_window_seconds 120 && fl.ge a.entropy_change_score (fl.literal 55 2)

  unfoldable pub ransom_note_activity : ℕ → Activity F → Bool
  ransom_note_activity n a = fl.ge a.ransom_note_score (fl.literal 75 2) && leb 10 n

  unfoldable pub backup_tamper : ℕ → Activity F → Bool
  backup_tamper n a = fl.ge a.backup_tamper_score (fl.literal 75 2) && leb 1 n

  unfoldable pub signal : ℕ → Text → List Text → ℕ → Activity F → RansomwareSignal F
  signal process_id process_path affected n a = record {
    process_id = process_id;
    process_path = process_path;
    affected_paths = affected;
    files_modified_count = n;
    files_renamed_count = a.renamed_count;
    entropy_change_score = a.entropy_change_score;
    ransom_note_score = a.ransom_note_score;
    backup_tamper_score = a.backup_tamper_score;
    time_window_seconds = a.time_window_seconds;
    severity = text "critical";
    confidence =
        if severe_file_activity n a && (ransom_note_activity n a || backup_tamper n a)
        then text "high"
        else text "medium";
  }

  -- the count is a `u32`
  unfoldable pub evaluate_with_config :
      ℕ → Text → List Text → Activity F → RansomwareGuardConfig → Option (RansomwareSignal F)
  evaluate_with_config process_id process_path modified a config =
      let affected = protected_modified_paths modified config.protected_roots in
      let n = length affected % 2 ^ 32 in
      if trusted_process process_path config.trusted_process_allowlist
        && not (ransom_note_activity n a || backup_tamper n a)
      then none
      else if not (severe_file_activity n a || ransom_note_activity n a || backup_tamper n a)
      then none
      else some (signal process_id process_path affected n a)

  unfoldable pub evaluate : ℕ → Text → List Text → Activity F → Option (RansomwareSignal F)
  evaluate process_id process_path modified a =
      evaluate_with_config process_id process_path modified a no_roots
