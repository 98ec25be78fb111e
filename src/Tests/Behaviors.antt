-- ===== src/Tests/Behaviors.antt =====
-- The behaviour guard at concrete inputs (core/zentor_native_engine/src/behavior).
use zentor.Prelude.{ℕ, ◌≤◌, ◌≡◌, refl, true, false, some, [], ◌∷◌, ◌++◌, arith}
use zentor.Prelude.Int.{pos}
use zentor.Text.{text}
use zentor.Verdict.{Evidence, native_rule}
use zentor.Verdict.Fusion.{fuse}
use zentor.Verdict.Fusion.Scores.{severity}
use zentor.Behavior.{FileActivityEvent, stop_process, behavior_score, stop_evidence, analyze}
use zentor.Behavior.Guard.{stop_process-fuse}
use zentor.Behavior.Window.{new, lookup}
use zentor.Behavior.Window.Map.{live}
use zentor.Behavior.Window.History.{History, run, own, run-own}

abbrev activity : ℕ → ℕ → ℕ → FileActivityEvent
activity pid modified renamed = record {
  process_id = pid;
  process_path = text "/tmp/p";
  affected_paths = text "/home/a" ∷ [];
  files_modified_count = modified;
  files_renamed_count = renamed;
  entropy_increase_count = 12;
  ransom_note_created = false;
  backup_tamper_attempt = false;
}

stopped :
    analyze (activity 7 30 20)
    ≡ (stop_process, some (stop_evidence (behavior_score (activity 7 30 20))))
unfolding analyze behavior_score
stopped = refl

abbrev other_item : Evidence
other_item = record {
  id = text "r";
  title = text "Rule";
  detail = text "d";
  weight = pos 10;
  source = native_rule;
}

stop_process-fuse_example :
    3
    ≤ severity
        (fuse
          (other_item ∷ [] ++ stop_evidence (behavior_score (activity 7 30 20)) ∷ [])
          true
          true).verdict
stop_process-fuse_example =
    stop_process-fuse (activity 7 30 20) (stop_evidence (behavior_score (activity 7 30 20)))
      (other_item ∷ []) [] true true stopped

abbrev two_processes : History
two_processes = (5, activity 7 10 8) ∷ (6, activity 8 40 0) ∷ (9, activity 7 20 9) ∷ []

run-own_example :
    live 10 9 (lookup 7 (run (new 10) two_processes).windows)
    ≡ live 10 9 (lookup 7 (run (new 10) (own 7 two_processes)).windows)
run-own_example =
    run-own 7 10 two_processes (omega arith, (omega arith, (omega arith, tt))) 9 (omega arith)
