-- ===== src/Tests/Control.antt =====
-- Application control and the allowlist at concrete inputs
-- (core/zentor_local_core/src/{app_control,allowlist}).
use zentor.Prelude.{◌≡◌, ◌↔◌, refl, true, ◌||◌, ◌&&◌, not, none, some, [], ◌∷◌, ◌⊎◌, Any}
use zentor.Text.{Text, text, to_ascii_lowercase}
use zentor.Outcome.{ok, fail}
use zentor.AppControl.{
  quarantine, ApplicationControlResult, ApplicationControlInput, for_path, ProtectionMode, lockdown,
  with_trusted, from_hashes, publisher_status, is_passthrough_system_or_zentor_path,
}
use zentor.AppControl.Policy.{
  ApplicationControlPolicy, new_policy, evaluate, has_hash, is_confirmed_bad,
}
use zentor.AppControl.Decisions.{IsCondemned, evaluate-quarantine}
use zentor.AppControl.Approvals.{evaluate-lockdown, runs, asks_approvals, is_trusted_status}
use zentor.Allowlist.{
  System, AllowlistEntryType, file, folder, AllowlistEntry, AllowlistStore, is_allowlisted,
  validate_path, hash_required_for_entry, new_entry, add,
}
use zentor.Allowlist.Coverage.{Covers, is_allowlisted_iff, is_allowlisted-add}

abbrev locked_down : ApplicationControlPolicy
locked_down = record (new_policy lockdown) {
  known_bad = from_hashes to_ascii_lowercase (text "sha256:AB12" ∷ []);
}

-- a signed program of a publisher that is trusted by default
abbrev signed_program : ApplicationControlInput
signed_program = record (for_path (text "C:\\Users\\ada\\Downloads\\setup.exe")) {
  sha256 = some (text "sha256:ab12");
  publisher = some (text "Microsoft Corporation");
  signature_valid = true;
}

evaluate-quarantine_example :
    (r : ApplicationControlResult) × (evaluate to_ascii_lowercase locked_down signed_program ≡ ok r)
    × ((r.decision ≡ quarantine) ↔ IsCondemned to_ascii_lowercase locked_down signed_program)
    × ((r.label_as_malware ≡ true) ↔ IsCondemned to_ascii_lowercase locked_down signed_program)
evaluate-quarantine_example = evaluate-quarantine to_ascii_lowercase locked_down signed_program

condemned_test : IsCondemned to_ascii_lowercase locked_down signed_program
unfolding zentor.AppControl.is_off new_policy is_passthrough_system_or_zentor_path
    zentor.Text.contains to_ascii_lowercase for_path text zentor.Text.ends_with is_confirmed_bad
    has_hash zentor.AppControl.contains_hash from_hashes zentor.Text.text_eq
    zentor.AppControl.normalize_hash
condemned_test = (refl, refl, refl)

evaluate-lockdown_example :
    runs (evaluate to_ascii_lowercase (new_policy lockdown) signed_program) ≡ (
      is_passthrough_system_or_zentor_path to_ascii_lowercase signed_program.path
      || (not (is_confirmed_bad to_ascii_lowercase (new_policy lockdown) signed_program)
          && not (signed_program.probable_malware && signed_program.strong_risk_signal)
          && (has_hash to_ascii_lowercase (new_policy lockdown).known_good signed_program.sha256
              || has_hash to_ascii_lowercase
                  (new_policy lockdown).user_approvals
                  signed_program.sha256
              || (signed_program.signature_valid
                  && is_trusted_status (
                      publisher_status to_ascii_lowercase
                        (new_policy lockdown).trusted_publishers
                        signed_program.publisher)))))
unfolding new_policy
evaluate-lockdown_example =
    evaluate-lockdown to_ascii_lowercase (new_policy lockdown) signed_program refl

asks_approvals_test : asks_approvals to_ascii_lowercase (new_policy lockdown) signed_program ≡ true
unfolding zentor.AppControl.is_off new_policy is_passthrough_system_or_zentor_path
    zentor.Text.contains to_ascii_lowercase for_path text zentor.Text.ends_with is_confirmed_bad
    has_hash zentor.AppControl.contains_hash
asks_approvals_test = refl

-- the hash of every file is its path
abbrev system : System
system = record {
  sha256_file = λ path. ok path;
  write_entries = λ path entries. fail (text "disk full");
  new_id = text "1";
  now = 0;
}

abbrev games : AllowlistEntry
games = record {
  id = text "0";
  entry_type = folder;
  path = text "D:\\Games\\";
  sha256 = none;
  reason = text "games";
  created_at = 0;
  created_by = text "local_user";
  active = true;
}

abbrev store : AllowlistStore
store = record { entries = games ∷ []; store_path = some (text "allowlist.json") }

is_allowlisted_iff_example :
    (is_allowlisted store (text "d:/games/chess.exe") (text "aa") ≡ true)
    ↔ Any (Covers (text "d:/games/chess.exe") (text "aa")) store.entries
is_allowlisted_iff_example = is_allowlisted_iff store (text "d:/games/chess.exe") (text "aa")

games_test : is_allowlisted store (text "d:/games/chess.exe") (text "aa") ≡ true
unfolding is_allowlisted zentor.Allowlist.covers zentor.Allowlist.type_covers zentor.Text.is_empty
    to_ascii_lowercase zentor.Text.trim_end_bytes zentor.Text.replace_byte text zentor.Text.text_eq
    zentor.Text.starts_with
games_test = refl

valid : validate_path (text "D:\\tool.exe") ≡ ok tt
unfolding validate_path zentor.Text.is_empty zentor.Text.Space.trim text
    zentor.Text.eq_ignore_ascii_case zentor.Text.trim_end_bytes zentor.Text.replace_byte
    zentor.Path.components
valid = refl

hashed : hash_required_for_entry system file (text "D:\\tool.exe") ≡ ok (some (text "D:\\tool.exe"))
unfolding hash_required_for_entry
hashed = refl

is_allowlisted-add_example :
    (is_allowlisted
        (add system file (text "D:\\tool.exe") (text "mine") store).0
        (text "d:/TOOL.exe")
        (text "d:\\tool.exe")
      ≡ true)
    ↔ ((is_allowlisted store (text "d:/TOOL.exe") (text "d:\\tool.exe") ≡ true)
        ⊎ Covers (text "d:/TOOL.exe") (text "d:\\tool.exe") (
            new_entry system file (text "D:\\tool.exe") (text "mine") (some (text "D:\\tool.exe"))))
is_allowlisted-add_example =
    is_allowlisted-add system file (text "D:\\tool.exe") (text "mine") store
      (some (text "D:\\tool.exe")) valid hashed (text "d:/TOOL.exe") (text "d:\\tool.exe")

-- the entry counts although the list could not be written and the call failed
unsaved_test :
    (add system file (text "D:\\tool.exe") (text "mine") store).1 ≡ fail (text "disk full")
unfolding add validate_path zentor.Text.is_empty zentor.Text.Space.trim text
    zentor.Text.eq_ignore_ascii_case zentor.Text.trim_end_bytes zentor.Text.replace_byte
    zentor.Path.components hash_required_for_entry zentor.Allowlist.save zentor.Allowlist.push
unsaved_test = refl

unsaved_active_test :
    is_allowlisted
      (add system file (text "D:\\tool.exe") (text "mine") store).0
      (text "d:/TOOL.exe")
      (text "d:\\tool.exe")
    ≡ true
unfolding is_allowlisted add validate_path zentor.Text.is_empty zentor.Text.Space.trim text
    zentor.Text.eq_ignore_ascii_case zentor.Text.trim_end_bytes zentor.Text.replace_byte
    zentor.Path.components hash_required_for_entry zentor.Allowlist.push zentor.Allowlist.covers
    zentor.Allowlist.type_covers new_entry
unsaved_active_test = refl
