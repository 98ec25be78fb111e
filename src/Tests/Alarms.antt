-- ===== src/Tests/Alarms.antt =====
-- The ransomware guard at concrete inputs
-- (core/zentor_local_core/src/protection/ransomware_guard.rs).
use zentor.Prelude.{ℕ, ◌+◌, ◌≡◌, ◌↔◌, refl, true, Any, List, [], ◌∷◌, ◌++◌, arith}
use zentor.Text.{Text, text}
use zentor.Tests.Scans.{numbers}
use zentor.Protection.{
  RansomwareGuardConfig, Activity, normalize_path_text, trusted_process, path_is_within,
  protected_modified_paths, evaluate_with_config,
}
use zentor.Protection.Alarms.{
  is_raised, is_protected, Protected, protected_count, Raises, evaluate_with_config-append,
}

abbrev documents : RansomwareGuardConfig
documents = record {
  protected_roots = text "C:\\Users\\ada\\Documents\\" ∷ [];
  trusted_process_allowlist = text "C:/Program Files/Backup/backup.exe" ∷ [];
}

abbrev tampering : Activity ℕ
tampering = record {
  renamed_count = 2;
  entropy_change_score = 20;
  ransom_note_score = 0;
  backup_tamper_score = 80;
  time_window_seconds = 60;
}

abbrev letters : List Text
letters = text "c:/users/ada/documents/a.docx" ∷ text "C:/Users/ada/Downloads/b.tmp" ∷ []

abbrev photos : List Text
photos = text "C:/Users/ada/Documents/c.jpg" ∷ []

abbrev backup_program : Text
backup_program = text "c:\\program files\\backup\\backup.exe"

evaluate_with_config-append_example :
    ((path : Text)
      → (is_protected documents.protected_roots path ≡ true)
        ↔ Protected documents.protected_roots path)
    × ((is_raised
            (evaluate_with_config numbers 42 backup_program (letters ++ photos) tampering documents)
          ≡ true)
        ↔ Raises numbers
            (Any
              (λ trusted. normalize_path_text backup_program ≡ normalize_path_text trusted)
              documents.trusted_process_allowlist)
            (protected_count documents.protected_roots letters
              + protected_count documents.protected_roots photos)
            tampering)
    × (is_raised (evaluate_with_config numbers 42 backup_program letters tampering documents) ≡ true
        → is_raised
            (evaluate_with_config numbers 42 backup_program (letters ++ photos) tampering documents)
          ≡ true)
evaluate_with_config-append_example =
    evaluate_with_config-append numbers 42 backup_program letters photos tampering documents
      (omega arith)

raised_test :
    is_raised (
      evaluate_with_config numbers 42
        (text "c:\\program files\\backup\\backup.exe")
        letters
        tampering
        documents)
    ≡ true
unfolding evaluate_with_config trusted_process zentor.Protection.paths_equal zentor.Text.text_eq
    zentor.Protection.normalize_path_text zentor.Text.to_ascii_lowercase zentor.Text.trim_end_bytes
    zentor.Text.replace_byte text zentor.Protection.ransom_note_activity
    zentor.Protection.backup_tamper protected_modified_paths path_is_within zentor.Text.starts_with
    zentor.Protection.severe_file_activity
raised_test = refl

protected_test :
    protected_modified_paths (letters ++ photos) documents.protected_roots
    ≡ text "c:/users/ada/documents/a.docx" ∷ photos
unfolding protected_modified_paths path_is_within zentor.Text.text_eq
    zentor.Protection.normalize_path_text zentor.Text.to_ascii_lowercase zentor.Text.trim_end_bytes
    zentor.Text.replace_byte text zentor.Text.starts_with
protected_test = refl
