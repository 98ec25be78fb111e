-- ===== src/Guard/Commands.antt =====
-- `handle` of core/zentor_guard_service/src/main.rs, and the mode that the guard runs in. The texts that
-- serialize the health, a verdict and a self-test are arguments, as is what the system answers.
pub mod Quiet
use zentor.Prelude.{
  ℕ, Bool, true, false, ◌||◌, not, Option, none, some, List, [], ◌∷◌, ◌++◌, map, keep, ltb, ◌==◌,
  if◌then◌else◌,
}
use zentor.Text.{Text, text, text_eq, is_one_of, to_ascii_lowercase}
use zentor.Text.Space.{trim}
use zentor.Outcome.{Outcome, ok, fail, panic}
use zentor.Engine.{FileScanVerdict}
use zentor.AppControl.{normalize_hash}
use zentor.Driver.{
  DriverProtectionMode, disabled, observe_only, balanced, block_known_bad, block_confirmed_threats,
  lockdown, developer_mode, aggressive, ScanRequest, ScanVerdict, DriverVerdictConfig,
  default_config,
}
use zentor.Driver.Answer.{evaluate_driver_request}
use zentor.Guard.{
  Answer, done, error, GuardEvent, FileAnswers, StoreAnswers, ObservedProcess, error_event,
}
use zentor.Guard.Acting.{Acting}
use zentor.Guard.SelfTest.{SelfTestAnswers, run_self_test}
use zentor.Guard.Started.{handle_process_started, event_of}
use zentor.Guard.Watch.{Handled, Polled, ended, polling, watch_processes}

pub record GuardCommand : Type 0 where
  pub command : Text
  pub process_id : Option ℕ
  pub process_path : Option Text
  pub known_malicious_hashes : Option (List Text)
  pub known_good_hashes : Option (List Text)
  pub user_approved_hashes : Option (List Text)
  pub protection_mode : Option DriverProtectionMode
  pub max_iterations : Option ℕ
  pub scan_request : Option ScanRequest

-- how a command ends: with an event, in a panic of the engine, or not within the listings given
pub data Response : Type 0 where
  answered : Handled → Response
  crashed still_polling : Response

-- what the system answers while a command is handled
pub record Surroundings : Type 0 where
  pub lower : Text → Text
  pub in_base : Text → Text
  pub health : Text
  pub self_test : SelfTestAnswers  -- for the known-bad hashes and those of the command
  pub print_verdict : ScanVerdict → Text
  pub known_bad_hashes : List Text
  pub request_hash : Option Text
  pub request_scan : Outcome (Option FileScanVerdict)
  pub file : FileAnswers
  pub store : StoreAnswers
  pub start_listing : Answer (List ObservedProcess)
  pub listings : List (Answer (List ObservedProcess))

-- `DriverProtectionMode::default()`
abbrev pub default_mode : DriverProtectionMode
default_mode = block_confirmed_threats

abbrev pub mode_or_default : Option DriverProtectionMode → DriverProtectionMode
mode_or_default none = default_mode
mode_or_default (some mode) = mode

abbrev hashes_or_none : Option (List Text) → List Text
hashes_or_none none = []
hashes_or_none (some hashes) = hashes

abbrev pub silent : GuardEvent → Response
silent event = answered (record { acts = []; event = event })

unfoldable pub report : Bool → Text → Text → Option ℕ → Option Text → GuardEvent
report passed action message process_id process_path = record {
  is_ok = passed;
  action = action;
  message = message;
  process_id = process_id;
  process_path = process_path;
  quarantine_id = none;
  quarantine_path = none;
  quarantine_record_path = none;
}

-- the hashes of bad files are taken as they come, those of good ones are normalized
unfoldable pub driver_config : Surroundings → GuardCommand → DriverVerdictConfig
driver_config around command = record default_config {
  known_bad_hashes = around.known_bad_hashes ++ hashes_or_none command.known_malicious_hashes;
  known_good_hashes = map (normalize_hash around.lower) (hashes_or_none command.known_good_hashes);
  user_approved_hashes =
      map (normalize_hash around.lower) (hashes_or_none command.user_approved_hashes);
  mode = mode_or_default command.protection_mode;
}

abbrev verdict_response : (ScanVerdict → Text) → ScanRequest → Outcome ScanVerdict → Response
verdict_response print request (ok v) =
    silent
      (report true (text "driverVerdict") (print v) request.process_id (some request.file_path))
verdict_response print request (fail message) =
    silent (error_event request.process_id (some request.file_path) message)
verdict_response print request panic = crashed

unfoldable pub handle_scan_request : Surroundings → GuardCommand → Option ScanRequest → Response
handle_scan_request around command none =
    silent (error_event none none (text "scan_request is required"))
handle_scan_request around command (some request) = verdict_response around.print_verdict request (
    evaluate_driver_request around.lower request (driver_config around command) around.request_hash
      around.request_scan)

abbrev self_test_event : Answer (Bool × Text) → GuardEvent
self_test_event (done (passed, message)) = report passed (text "driverSelfTest") message none none
self_test_event (error message) = error_event none none message

abbrev pub tested : Acting (Bool × Text) → Response
tested (acts, answer) = answered (record { acts = acts; event = self_test_event answer })

unfoldable pub handle_started : Surroundings → GuardCommand → Option Text → Response
handle_started around command none =
    silent (error_event none none (text "process_path is required"))
handle_started around command (some path) =
    let run =
      handle_process_started around.in_base command.process_id path
        (hashes_or_none command.known_malicious_hashes) (mode_or_default command.protection_mode)
        around.file around.store in
    answered (record { acts = run.0; event = event_of command.process_id path run.1 })

abbrev unnamed_event : Answer GuardEvent → GuardEvent
unnamed_event (done event) = event
unnamed_event (error message) = error_event none none message

abbrev polled_response : Polled → Response
polled_response (ended (acts, answer)) =
    answered (record { acts = acts; event = unnamed_event answer })
polled_response polling = still_polling

unfoldable pub handle : Surroundings → GuardCommand → Response
handle around command =
    if text_eq command.command (text "health")
    then silent (report true (text "health") around.health none none)
    else if text_eq command.command (text "driver_scan_request")
    then handle_scan_request around command command.scan_request
    else if text_eq command.command (text "driver_self_test")
    then tested (run_self_test around.self_test)
    else if text_eq command.command (text "process_started")
    then handle_started around command command.process_path
    else if text_eq command.command (text "watch_processes")
    then polled_response (
        watch_processes around.lower around.in_base (hashes_or_none command.known_malicious_hashes)
          (mode_or_default command.protection_mode) command.max_iterations around.start_listing
          around.listings)
    else silent (error_event none none (text "unknown command"))

unfoldable pub parse_guard_mode : Text → Option DriverProtectionMode
parse_guard_mode raw =
    let normalized =
      to_ascii_lowercase (keep (λ b. not (b == b'-' || b == b'_' || b == b' ')) (trim raw)) in
    if is_one_of normalized (text "off" ∷ text "disabled" ∷ [])
    then some disabled
    else if is_one_of normalized (text "observeonly" ∷ text "monitoronly" ∷ [])
    then some observe_only
    else if text_eq normalized (text "balanced")
    then some balanced
    else if text_eq normalized (text "blockknownbad")
    then some block_known_bad
    else if is_one_of normalized (text "blockconfirmedthreats" ∷ text "blockconfirmed" ∷ [])
    then some block_confirmed_threats
    else if text_eq normalized (text "lockdown")
    then some lockdown
    else if is_one_of normalized (text "developermode" ∷ text "developer" ∷ [])
    then some developer_mode
    else if text_eq normalized (text "aggressive")
    then some aggressive
    else none

-- The first of the three variables of the environment that is set, and the text of the file, with
-- the string that it has as JSON under `mode`.
pub record ModeSources : Type 0 where
  pub variable : Option Text
  pub config_text : Option Text
  pub json_mode : Option Text

abbrev and_parse : Option Text → Option DriverProtectionMode
and_parse none = none
and_parse (some raw) = parse_guard_mode raw

unfoldable pub read_guard_mode_config : Option Text → Option Text → Option DriverProtectionMode
read_guard_mode_config none mode = none
read_guard_mode_config (some config) (some mode) = parse_guard_mode mode
read_guard_mode_config (some config) none = parse_guard_mode config

abbrev or_else_mode :
    Option DriverProtectionMode → Option DriverProtectionMode → Option DriverProtectionMode
or_else_mode none other = other
or_else_mode (some mode) other = some mode

unfoldable pub configured_guard_mode : ModeSources → DriverProtectionMode
configured_guard_mode sources = mode_or_default (
    or_else_mode (and_parse sources.variable)
      (read_guard_mode_config sources.config_text sources.json_mode))
