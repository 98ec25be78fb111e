-- ===== src/Guard/Commands/Quiet.antt =====
-- Which commands act on processes and files, and on which (core/zentor_guard_service/src/main.rs).
use zentor.Prelude.{
  ℕ, ◌≡◌, refl, Bool, true, false, All, if◌then◌else◌, Option, none, some, List, [], ◌∷◌, if_both,
}
use zentor.Text.{Text, text, text_eq}
use zentor.Outcome.{Outcome, ok, fail, panic}
use zentor.Driver.{DriverProtectionMode, ScanRequest, ScanVerdict}
use zentor.Guard.{
  Answer, done, error, error_event, LocalThreatMatch, GuardEvent, FileAnswers, StoreAnswers,
  ObservedProcess,
}
use zentor.Guard.Acting.{Act, Acting, ◌>>=◌, lift}
use zentor.Guard.SelfTest.{run_self_test, OnlyTemporary, run_self_test-OnlyTemporary}
use zentor.Guard.Started.{observes, on_threat, on_match, handle_process_started}
use zentor.Guard.Watch.{
  WatchState, start_watch, Polled, ended, polling, start_handling, first_threat, next_iteration,
  after_listing, poll_rounds, watch_processes,
}
use zentor.Guard.Commands.{
  GuardCommand, Response, answered, crashed, still_polling, Surroundings, mode_or_default, silent,
  report, handle_scan_request, handle_started, handle, verdict_response, tested, polled_response,
  hashes_or_none,
}

abbrev pub acts_of : Response → List Act
acts_of (answered h) = h.acts
acts_of crashed = []
acts_of still_polling = []

-- the loop has not acted
abbrev Idle : Polled → Type 0
Idle (ended run) = run.0 ≡ []
Idle polling = Unit {0}

module _ (mode : DriverProtectionMode) (observing : observes mode ≡ true) where
  on_match-quiet :
      (in_base : Text → Text) (id : Option ℕ) (path hash : Text) (store : StoreAnswers)
      (found : Option LocalThreatMatch)
      → (on_match in_base id path hash store mode found).0 ≡ []
  unfolding on_match on_threat
  on_match-quiet in_base id path hash store none = refl
  on_match-quiet in_base id path hash store (some threat) = rw observing

  after_hash-quiet :
      (answer : Answer Text) (f : Text → Acting GuardEvent)
      → ((hash : Text) → (f hash).0 ≡ [])
      → (lift answer >>= f).0 ≡ []
  after_hash-quiet (done hash) f h = h hash
  after_hash-quiet (error message) f h = refl

  started-quiet :
      (in_base : Text → Text) (id : Option ℕ) (path : Text) (malicious : List Text)
      (file : FileAnswers) (store : StoreAnswers)
      → (handle_process_started in_base id path malicious mode file store).0 ≡ []
  unfolding handle_process_started
  started-quiet in_base id path malicious file store =
      after_hash-quiet file.sha256_file _ (λ hash. on_match-quiet in_base id path hash store _)

  module _ (lower in_base : Text → Text) (malicious : List Text) where
    after_listing-Idle :
        (rest : WatchState → Polled) (last : Bool) (found : WatchState × Option ObservedProcess)
        → ((s : WatchState) → Idle (rest s))
        → Idle (after_listing lower in_base malicious mode rest last found)
    unfolding start_handling
    after_listing-Idle rest last (s, some p) h =
        started-quiet in_base (some p.process_id) p.path malicious p.second p.store
    after_listing-Idle rest last (s, none) h = if_both Idle last refl (h s)

    poll_rounds-Idle :
        (max_iterations : Option ℕ) (n : ℕ) (s : WatchState)
        (listings : List (Answer (List ObservedProcess)))
        → Idle (poll_rounds lower in_base malicious mode max_iterations n s listings)
    unfolding poll_rounds
    poll_rounds-Idle max_iterations n s [] = tt
    poll_rounds-Idle max_iterations n s (error message ∷ listings) = refl
    poll_rounds-Idle max_iterations n s (done listed ∷ listings) =
        after_listing-Idle _ _ (first_threat lower in_base malicious mode s listed)
          (λ s'. poll_rounds-Idle max_iterations (next_iteration n) s' listings)

    watch_processes-Idle :
        (max_iterations : Option ℕ) (start : Answer (List ObservedProcess))
        (listings : List (Answer (List ObservedProcess)))
        → Idle (watch_processes lower in_base malicious mode max_iterations start listings)
    unfolding watch_processes
    watch_processes-Idle max_iterations (error message) listings = refl
    watch_processes-Idle max_iterations (done listed) listings =
        poll_rounds-Idle max_iterations 0 (start_watch listed) listings

  polled-quiet : (p : Polled) → Idle p → acts_of (polled_response p) ≡ []
  polled-quiet (ended (acts, answer)) h = h
  polled-quiet polling h = refl

verdict-quiet :
    (print : ScanVerdict → Text) (request : ScanRequest) (answer : Outcome ScanVerdict)
    → acts_of (verdict_response print request answer) ≡ []
verdict-quiet print request (ok v) = refl
verdict-quiet print request (fail message) = refl
verdict-quiet print request panic = refl

scan_request-quiet :
    (around : Surroundings) (command : GuardCommand) (request : Option ScanRequest)
    → acts_of (handle_scan_request around command request) ≡ []
unfolding handle_scan_request
scan_request-quiet around command none = refl
scan_request-quiet around command (some request) = verdict-quiet around.print_verdict request _

handle_started-quiet :
    (around : Surroundings) (command : GuardCommand) (path : Option Text)
    → observes (mode_or_default command.protection_mode) ≡ true
    → acts_of (handle_started around command path) ≡ []
unfolding handle_started
handle_started-quiet around command none h = refl
handle_started-quiet around command (some path) h =
    started-quiet _ h around.in_base command.process_id path
      (hashes_or_none command.known_malicious_hashes) around.file around.store

if_either :
    (P : Response → Type 0) (test : Bool) {yes no : Response}
    → (test ≡ true → P yes)
    → P no
    → P (if test then yes else no)
if_either P true h k = h refl
if_either P false h k = k

-- what a command may do in a mode that does not act
abbrev pub OnlyTests : Surroundings → GuardCommand → Response → Type 0
OnlyTests around command response =
    (text_eq command.command (text "driver_self_test") ≡ false → acts_of response ≡ [])
    × All (OnlyTemporary around.self_test) (acts_of response)

quiet_tests :
    (around : Surroundings) (command : GuardCommand) (response : Response)
    → acts_of response ≡ []
    → OnlyTests around command response
quiet_tests around command response h = (λ other. h, rw h tt)

tested-OnlyTests :
    (around : Surroundings) (command : GuardCommand)
    → text_eq command.command (text "driver_self_test") ≡ true
    → OnlyTests around command (tested (run_self_test around.self_test))
tested-OnlyTests around command same =
    (λ other. cc (same, other), run_self_test-OnlyTemporary around.self_test)

-- `handle`, for a command whose mode is the disabled one or the one that only observes: nothing is
-- done to a process or a file by any command but `driver_self_test`, and that one only makes, writes
-- and removes its temporary folder and files in it.
pub handle-quiet :
    (around : Surroundings) (command : GuardCommand)
    → observes (mode_or_default command.protection_mode) ≡ true
    → (text_eq command.command (text "driver_self_test") ≡ false
        → acts_of (handle around command) ≡ [])
      × All (OnlyTemporary around.self_test) (acts_of (handle around command))
unfolding handle
handle-quiet around command h =
    let Quiet : Response → Type 0 = OnlyTests around command in
    let quiet : (response : Response) → acts_of response ≡ [] → Quiet response =
      quiet_tests around command in
    let asked = handle_scan_request around command command.scan_request in
    let started = handle_started around command command.process_path in
    let watched =
      watch_processes around.lower around.in_base (hashes_or_none command.known_malicious_hashes)
        (mode_or_default command.protection_mode) command.max_iterations around.start_listing
        around.listings in
    if_both Quiet (text_eq command.command (text "health"))
      (quiet (silent (report true (text "health") around.health none none)) refl)
      (if_both Quiet (text_eq command.command (text "driver_scan_request"))
        (quiet asked (scan_request-quiet around command command.scan_request))
        (if_either Quiet (text_eq command.command (text "driver_self_test"))
          (tested-OnlyTests around command)
          (if_both Quiet (text_eq command.command (text "process_started"))
            (quiet started (handle_started-quiet around command command.process_path h))
            (if_both Quiet (text_eq command.command (text "watch_processes"))
              (quiet (polled_response watched) (
                polled-quiet _ h watched (
                  watch_processes-Idle _ h around.lower around.in_base
                    (hashes_or_none command.known_malicious_hashes) command.max_iterations
                    around.start_listing around.listings)))
              (quiet (silent (error_event none none (text "unknown command"))) refl)))))
