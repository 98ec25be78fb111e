-- ===== src/Behavior.antt =====
-- core/zentor_native_engine/src/behavior/{file_activity,ransomware_guard}.rs: what a process did to
-- files, and what the guard concludes.
pub mod Guard
pub mod Window
use zentor.Prelude.{ℕ, ◌+◌, Bool, Option, none, some, List, leb, if◌then◌else◌}
use zentor.Prelude.Int.{pos}
use zentor.Text.{Text, text}
use zentor.Verdict.{Evidence, native_behavior}

pub record FileActivityEvent : Type 0 where
  pub process_id : ℕ  -- u32
  pub process_path : Text
  pub affected_paths : List Text
  pub files_modified_count : ℕ  -- u32
  pub files_renamed_count : ℕ  -- u32
  pub entropy_increase_count : ℕ  -- u32
  pub ransom_note_created : Bool
  pub backup_tamper_attempt : Bool

pub data BehaviorDecision : Type 0 where
  allow monitor warn stop_process quarantine_executable start_recovery : BehaviorDecision

-- the sum that `analyze` makes, at most 145
unfoldable pub behavior_score : FileActivityEvent → ℕ
behavior_score event =
    (if leb 25 event.files_modified_count then 35 else 0)
    + (if leb 15 event.files_renamed_count then 25 else 0)
    + (if leb 10 event.entropy_increase_count then 25 else 0)
    + (if event.ransom_note_created then 25 else 0)
    + (if event.backup_tamper_attempt then 35 else 0)

unfoldable pub stop_evidence : ℕ → Evidence
stop_evidence score = record {
  id = text "ransomware_behavior";
  title = text "Ransomware-like behavior";
  detail =
      text
        "Rapid modifications, renames, entropy changes, ransom-note, or backup tamper signals were observed.";
  weight = pos (if leb score 100 then score else 100);
  source = native_behavior;
}

unfoldable pub warn_evidence : ℕ → Evidence
warn_evidence score = record {
  id = text "ransomware_behavior_review";
  title = text "Ransomware behavior review";
  detail = text "Multiple file activity signals need review.";
  weight = pos score;
  source = native_behavior;
}

unfoldable pub analyze : FileActivityEvent → BehaviorDecision × Option Evidence
unfolding behavior_score
analyze event =
    let score = behavior_score event in
    if leb 85 score
    then (stop_process, some (stop_evidence score))
    else if leb 45 score
    then (warn, some (warn_evidence score))
    else (allow, none)
