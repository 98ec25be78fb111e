-- ===== src/Tests/Watches.antt =====
-- The guard after a process has started, at concrete inputs
-- (core/zentor_guard_service/src/main.rs).
use zentor.Prelude.{
  ◌+◌, ◌≤◌, ◌≡◌, refl, true, false, All, none, some, List, [], ◌∷◌, ◌++◌, Any, count_if, leb,
  if◌then◌else◌, arith,
}
use zentor.Text.{Text, text, text_eq, to_ascii_lowercase}
use zentor.Outcome.{ok}
use zentor.Verdict.{Verdict, Confidence}
use zentor.Engine.{FileScanVerdict}
use zentor.Driver.{block_confirmed_threats, block_known_bad, disabled}
use zentor.Driver.Labels.{answers, is_block}
use zentor.Driver.Answer.{evaluate_driver_request}
use zentor.Tests.Guards.{start, probable}
use zentor.Guard.{Answer, done, error, FileAnswers, StoreAnswers, ObservedProcess}
use zentor.Guard.Acting.{wrote, made_folder, removed_folder}
use zentor.Guard.SelfTest.{SelfTestAnswers, run_self_test, OnlyTemporary}
use zentor.Guard.Started.{confirmed_match, handle_process_started}
use zentor.Guard.Started.Plan.{
  Follows, intervenes, threat_or_known, progress, handle_process_started-Follows,
}
use zentor.Guard.Watch.{Round, handled, watch_processes_until_shutdown, watch_processes}
use zentor.Guard.Watch.Exact.{is_about, lists, about-watch_processes_until_shutdown}
use zentor.Guard.Watch.Live.{watch_processes_until_shutdown-Reports}
use zentor.Guard.Watch.Ends.{EndAlike, watch_processes-EndAlike}
use zentor.Guard.Commands.{GuardCommand, Surroundings, handle, driver_config, parse_guard_mode}
use zentor.Guard.Commands.Quiet.{acts_of, handle-quiet}

abbrev pub in_base : Text → Text
in_base name = text "/q/" ++ name

abbrev threat : FileScanVerdict
threat = record probable {
  final_verdict = record probable.final_verdict {
    verdict = Verdict.confirmed_malware;
    confidence = Confidence.confirmed;
  };
}

abbrev bad_file : FileAnswers
bad_file = record { sha256_file = done (text "sha256:ab12"); scan_file = some threat }

-- a file that is held open at first, and whose record cannot be written
abbrev pub store : StoreAnswers
store = record {
  create_base = done tt;
  new_id = text "1";
  file_length = some 9;
  rename = λ i. if leb 2 i then done tt else error (text "in use");
  set_permissions = done tt;
  write_record = error (text "disk full");
}

abbrev bad_path : Text
bad_path = text "/home/ada/bad.exe"

handle_process_started-Follows_example :
    Follows in_base
      (some 7)
      bad_path
      (text "sha256:ab12")
      store
      (intervenes block_confirmed_threats [] (text "sha256:ab12") bad_file)
      (threat_or_known (confirmed_match [] (text "sha256:ab12") bad_file))
      (handle_process_started in_base (some 7) bad_path [] block_confirmed_threats bad_file store)
handle_process_started-Follows_example =
    handle_process_started-Follows in_base (some 7) bad_path [] block_confirmed_threats bad_file
      store (text "sha256:ab12") refl

-- the file lies in quarantine and no record tells of it
progress_test : progress store ≡ 2
progress_test = refl

abbrev bad_process : ObservedProcess
bad_process = record {
  process_id = 7;
  path = bad_path;
  first = bad_file;
  second = bad_file;
  store = store;
}

abbrev other_process : ObservedProcess
other_process = record bad_process { process_id = 4 }

abbrev quiet_round : Round
quiet_round = record { is_shut_down = false; listing = done (other_process ∷ []) }

abbrev bad_round : Round
bad_round = record {
  is_shut_down = false;
  listing = done ((other_process ∷ []) ++ bad_process ∷ []);
}

watch_processes_until_shutdown-Reports_example :
    Any
      (λ h. h ≡ handled to_ascii_lowercase in_base [] block_confirmed_threats bad_process)
      (watch_processes_until_shutdown to_ascii_lowercase in_base [] block_confirmed_threats
        (done (other_process ∷ []))
        ((quiet_round ∷ []) ++ bad_round ∷ bad_round ∷ [])).0
unfolding zentor.Guard.should_skip_process_path zentor.Guard.native_threat_match
    zentor.Text.contains to_ascii_lowercase text zentor.Text.text_eq zentor.Guard.match_of_verdict
watch_processes_until_shutdown-Reports_example =
    watch_processes_until_shutdown-Reports to_ascii_lowercase in_base [] block_confirmed_threats
      bad_process refl refl (other_process ∷ []) (quiet_round ∷ []) bad_round (bad_round ∷ [])
      (other_process ∷ []) [] refl ((other_process ∷ [], refl, refl, refl), tt) refl refl refl

about-watch_processes_until_shutdown_example :
    count_if
        (is_about 7)
        (watch_processes_until_shutdown to_ascii_lowercase in_base [] block_confirmed_threats
          (done (other_process ∷ []))
          (quiet_round ∷ bad_round ∷ bad_round ∷ [])).0
      + (if lists (other_process ∷ []) 7 then 1 else 0)
    ≤ 1
about-watch_processes_until_shutdown_example =
    about-watch_processes_until_shutdown to_ascii_lowercase in_base [] block_confirmed_threats 7
      (other_process ∷ []) (quiet_round ∷ bad_round ∷ bad_round ∷ [])

abbrev quiet_listings : List (Answer (List ObservedProcess))
quiet_listings = done (other_process ∷ []) ∷ done [] ∷ []

watch_processes-EndAlike_example :
    EndAlike
      (watch_processes to_ascii_lowercase in_base [] block_confirmed_threats
        (some 2)
        (done [])
        quiet_listings)
      (watch_processes to_ascii_lowercase in_base [] block_confirmed_threats
        (some 2)
        (done [])
        (quiet_listings ++ error (text "no listing") ∷ []))
watch_processes-EndAlike_example =
    watch_processes-EndAlike to_ascii_lowercase in_base [] block_confirmed_threats 2 (done [])
      quiet_listings (error (text "no listing") ∷ []) (omega arith) refl

-- the second program cannot be written
abbrev full_disk : SelfTestAnswers
full_disk = record {
  temp_dir = done (text "/tmp/x");
  write = λ i. if leb i 0 then done tt else error (text "disk full");
  make_folder = done tt;
  hash = λ i. done (text "00");
  verdict = λ i. done tt;
  report = (true, text "passed");
}

abbrev around : Surroundings
around = record {
  lower = to_ascii_lowercase;
  in_base = in_base;
  health = text "ready";
  self_test = full_disk;
  print_verdict = λ v. v.reason_summary;
  known_bad_hashes = [];
  request_hash = some (text "sha256:ab12");
  request_scan = ok none;
  file = bad_file;
  store = store;
  start_listing = done [];
  listings = done (bad_process ∷ []) ∷ [];
}

abbrev disabled_command : GuardCommand
disabled_command = record {
  command = text "process_started";
  process_id = some 7;
  process_path = some bad_path;
  known_malicious_hashes = some (text "sha256:ab12" ∷ []);
  known_good_hashes = none;
  user_approved_hashes = none;
  protection_mode = some disabled;
  max_iterations = none;
  scan_request = some start;
}

abbrev self_test_command : GuardCommand
self_test_command = record disabled_command { command = text "driver_self_test" }

handle-quiet_example :
    (text_eq (text "driver_self_test") (text "driver_self_test") ≡ false
      → acts_of (handle around self_test_command) ≡ [])
    × All (OnlyTemporary full_disk) (acts_of (handle around self_test_command))
unfolding zentor.Guard.Started.observes
handle-quiet_example = handle-quiet around self_test_command refl

self_test_test :
    (run_self_test full_disk).0
    ≡ made_folder (text "/tmp/x")
      ∷ wrote (text "/tmp/x/safe-eicar.com")
      ∷ removed_folder (text "/tmp/x")
      ∷ []
unfolding run_self_test text
self_test_test = refl

-- The hash that makes the guard stop a process does not make it block the driver's request.
prefixed_hash_test :
    answers
      (λ v. is_block v.action)
      (evaluate_driver_request to_ascii_lowercase start
        (driver_config around disabled_command)
        (some (text "sha256:ab12"))
        (ok none))
    ≡ false
unfolding evaluate_driver_request zentor.Driver.should_fail_open_path zentor.Text.contains
    to_ascii_lowercase zentor.Driver.normalized_path zentor.Text.Space.is_blank text
    zentor.Text.ends_with zentor.Driver.Answer.is_listed zentor.Driver.Answer.request_hash
    zentor.Text.is_one_of driver_config zentor.AppControl.normalize_hash
    zentor.Driver.trusted_publisher zentor.Driver.trusted_metadata_source
    zentor.Driver.Answer.native_answer zentor.Driver.Answer.mode_verdict zentor.Driver.Answer.allow
    zentor.Driver.Answer.block zentor.Driver.Answer.is_suspicious zentor.Driver.Answer.is_threat
    zentor.Driver.Answer.monitor zentor.Driver.Answer.refuse zentor.Driver.Answer.suspect
    zentor.Driver.default_config zentor.Driver.engine_of zentor.Driver.engine_rank
    zentor.Driver.insert_engine zentor.Driver.native_verdict_engines zentor.Driver.sort_engines
    zentor.Driver.trusted_request_sha256 zentor.Text.Space.space_width zentor.Text.Space.trim
    zentor.Text.Space.trim_end zentor.Text.Space.trim_from zentor.Text.Space.trim_start
    zentor.Text.drop_prefix zentor.Text.is_empty zentor.Text.lower_byte zentor.Text.starts_with
    zentor.Text.text_eq
prefixed_hash_test = refl

mode_test : parse_guard_mode (text " Block-Known_Bad ") ≡ some block_known_bad
unfolding parse_guard_mode zentor.Text.is_one_of to_ascii_lowercase zentor.Text.Space.trim text
mode_test = refl
