-- ===== src/Guard/Started.antt =====
-- `handle_process_started` and `quarantine_file` of core/zentor_guard_service/src/main.rs. `in_base`
-- is `quarantine_base().join(name)`, which the environment decides.
pub mod Plan
pub mod Eicar
use zentor.Prelude.{
  ℕ, zero, suc, Bool, true, false, Option, none, some, List, [], ◌∷◌, ◌++◌, any, is_some,
  if◌then◌else◌,
}
use zentor.Text.{Text, text, text_eq}
use zentor.Driver.{DriverProtectionMode, disabled, observe_only}
use zentor.Guard.{
  Answer, done, error, LocalThreatConfidence, confirmed, high, medium, low, LocalThreatMatch,
  GuardEvent, quarantined, GuardQuarantineRecord, FileAnswers, StoreAnswers, native_threat_match,
  compat_threat_match, error_event,
}
use zentor.Guard.Acting.{Act, stopped, moved, stripped, recorded, Acting, ◌>>=◌, ◌>>◌, lift, act}

-- `attempts` more tries of the rename, the next of which is number `next`
unfoldable pub rename_loop : (ℕ → Answer (Unit {0})) → ℕ → ℕ → Text → Answer (Unit {0})
rename_loop rename zero next last = error last
rename_loop rename (suc attempts) next last = elim (rename next) [
  | done u ↦ done tt
  | error message ↦ rename_loop rename attempts (suc next) message
]

abbrev pub quarantine_name : Text → Text
quarantine_name id = id ++ text ".avoraxq"

abbrev pub record_name : Text → Text
record_name id = id ++ text ".json"

abbrev pub length_or_zero : Option ℕ → ℕ
length_or_zero none = 0
length_or_zero (some n) = n

unfoldable pub guard_record :
    (Text → Text) → StoreAnswers → Text → Text → Option ℕ → LocalThreatMatch → GuardQuarantineRecord
guard_record in_base store path sha256 process_id threat = record {
  quarantine_id = store.new_id;
  original_path = path;
  quarantine_path = in_base (quarantine_name store.new_id);
  sha256 = sha256;
  file_size = length_or_zero store.file_length;
  detection_name = threat.reason;
  engine = threat.engine;
  action_taken = text "process_stopped_and_file_quarantined";
  status = quarantined;
  user_note = none;
  source = text "guard_service";
  blocked_before_execution = false;
  process_started = is_some process_id;
  process_id = process_id;
}

unfoldable pub guard_quarantine_file :
    (Text → Text)
    → StoreAnswers
    → Text
    → Text
    → Option ℕ
    → LocalThreatMatch
    → Acting GuardQuarantineRecord
guard_quarantine_file in_base store path sha256 process_id threat =
    let kept = guard_record in_base store path sha256 process_id threat in
    do
      lift store.create_base
      act (moved path kept.quarantine_path)
          (rename_loop store.rename 10 0 (text "quarantine failed"))
      act (stripped kept.quarantine_path) store.set_permissions
      act (recorded (in_base (record_name store.new_id)) kept) store.write_record
      lift (done kept)

-- `with_context`
abbrev pub with_context : {A : Type 0} → Text → Acting A → Acting A
with_context context (acts, done a) = (acts, done a)
with_context context (acts, error message) = (acts, error context)

unfoldable pub confidence_name : LocalThreatConfidence → Text
confidence_name confirmed = text "Confirmed"
confidence_name high = text "High"
confidence_name medium = text "Medium"
confidence_name low = text "Low"

unfoldable pub plain_event : Text → Text → Option ℕ → Text → GuardEvent
plain_event action message process_id path = record {
  is_ok = true;
  action = action;
  message = message;
  process_id = process_id;
  process_path = some path;
  quarantine_id = none;
  quarantine_path = none;
  quarantine_record_path = none;
}

unfoldable pub with_threat : Text → LocalThreatMatch → Text
with_threat message threat =
    message
    ++ (text " Reason: "
        ++ (threat.reason
            ++ (text ". Confidence: " ++ (confidence_name threat.confidence ++ text "."))))

unfoldable pub observes : DriverProtectionMode → Bool
observes disabled = true
observes observe_only = true
observes _ = false

unfoldable pub known_match : LocalThreatMatch
known_match = record {
  reason = text "known malicious hash";
  engine = text "avorax-known-bad-hash";
  confidence = confirmed;
}

abbrev pub or_else_match :
    Option LocalThreatMatch → Option LocalThreatMatch → Option LocalThreatMatch
or_else_match none other = other
or_else_match (some m) other = some m

unfoldable pub confirmed_match : List Text → Text → FileAnswers → Option LocalThreatMatch
confirmed_match malicious hash file =
    if any (text_eq hash) malicious
    then some known_match
    else or_else_match (native_threat_match file) compat_threat_match

unfoldable pub stop_process : Option ℕ → Acting (Unit {0})
stop_process none = ([], done tt)
stop_process (some id) = (stopped id ∷ [], done tt)

unfoldable pub quarantined_event :
    (Text → Text) → Option ℕ → Text → LocalThreatMatch → GuardQuarantineRecord → GuardEvent
quarantined_event in_base process_id path threat kept = record {
  is_ok = true;
  action = text "stoppedAndQuarantined";
  message =
      with_threat (text "Avorax stopped the process and moved the file to quarantine.") threat;
  process_id = process_id;
  process_path = some path;
  quarantine_id = some kept.quarantine_id;
  quarantine_path = some kept.quarantine_path;
  quarantine_record_path = some (in_base (record_name kept.quarantine_id));
}

-- what follows once the process runs a threat
unfoldable pub on_threat :
    (Text → Text)
    → Option ℕ
    → Text
    → Text
    → StoreAnswers
    → DriverProtectionMode
    → LocalThreatMatch
    → Acting GuardEvent
on_threat in_base process_id path hash store mode threat =
    if observes mode
    then lift (
        done (
          plain_event (text "reviewOnly")
            (with_threat
              (text "Confirmed local threat observed but automatic stop/quarantine is not enabled.")
              threat)
            process_id path))
    else do
      stop_process process_id
      kept ←
          with_context (text "known malicious process was stopped but quarantine failed")
            (guard_quarantine_file in_base store path hash process_id threat)
      lift (done (quarantined_event in_base process_id path threat kept))

unfoldable pub on_match :
    (Text → Text)
    → Option ℕ
    → Text
    → Text
    → StoreAnswers
    → DriverProtectionMode
    → Option LocalThreatMatch
    → Acting GuardEvent
on_match in_base process_id path hash store mode none = lift (
    done (
      plain_event (text "monitored")
        (text "Process monitored. No confirmed local threat hash matched.") process_id path))
on_match in_base process_id path hash store mode (some threat) =
    on_threat in_base process_id path hash store mode threat

unfoldable pub handle_process_started :
    (Text → Text)
    → Option ℕ
    → Text
    → List Text
    → DriverProtectionMode
    → FileAnswers
    → StoreAnswers
    → Acting GuardEvent
handle_process_started in_base process_id path malicious mode file store = do
  hash ← lift file.sha256_file
  on_match in_base process_id path hash store mode (confirmed_match malicious hash file)

-- the event that is reported, also for an error
unfoldable pub event_of : Option ℕ → Text → Answer GuardEvent → GuardEvent
event_of process_id path (done event) = event
event_of process_id path (error message) = error_event process_id (some path) message
