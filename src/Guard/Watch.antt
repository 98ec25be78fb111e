-- ===== src/Guard/Watch.antt =====
-- `watch_processes` and `watch_processes_until_shutdown` of core/zentor_guard_service/src/main.rs. What
-- the system lists in each round of a loop is given; the sleep between the rounds is left out.
pub mod Exact
pub mod Live
pub mod Ends
use zentor.Prelude.{
  ℕ, ◌+◌, ◌-◌, ◌^◌, Bool, true, false, ◌||◌, Option, none, some, List, [], ◌∷◌, ◌++◌, map, any,
  is_some, ltb, leb, ◌==◌, if◌then◌else◌,
}
use zentor.Text.{Text, text, text_eq}
use zentor.Path.{path_eq}
use zentor.Driver.{DriverProtectionMode}
use zentor.Guard.{
  Answer, done, error, GuardEvent, ObservedProcess, native_threat_match, compat_threat_match,
  should_skip_process_path,
}
use zentor.Guard.Acting.{Act, Acting}
use zentor.Guard.Started.{handle_process_started, event_of}

-- the identifiers that were listed, and the hash that was first read for each path
pub record WatchState : Type 0 where
  pub seen : List ℕ
  pub cache : List (Text × Text)

abbrev pub has_seen : List ℕ → ℕ → Bool
has_seen seen id = any (λ s. s == id) seen

unfoldable pub cached_hash : List (Text × Text) → Text → Option Text
cached_hash [] path = none
cached_hash (entry ∷ cache) path =
    let later = cached_hash cache path in if path_eq entry.0 path then some entry.1 else later

-- `unwrap_or_default`
abbrev pub hash_or_empty : Answer Text → Text
hash_or_empty (done hash) = hash
hash_or_empty (error message) = []

-- the hash that the watch goes by, and the cache afterwards
abbrev pub hash_by :
    Option Text → Text → Answer Text → List (Text × Text) → Text × List (Text × Text)
hash_by (some hash) path answer cache = (hash, cache)
hash_by none path answer cache = (hash_or_empty answer, (path, hash_or_empty answer) ∷ cache)

-- what the loops do with each process: note it, and tell whether it is a threat
unfoldable pub examine :
    (Text → Text) → List Text → WatchState → ObservedProcess → WatchState × Bool
examine lower malicious s p =
    let seen = p.process_id ∷ s.seen in
    let (hash, cache) = hash_by (cached_hash s.cache p.path) p.path p.first.sha256_file s.cache in
    if has_seen s.seen p.process_id
    then (s, false)
    else if should_skip_process_path lower p.path
    then (record s { seen = seen }, false)
    else (
      record { seen = seen; cache = cache },
      any (text_eq hash) malicious
          || is_some (native_threat_match p.first)
          || is_some compat_threat_match,
    )

unfoldable pub start_watch : List ObservedProcess → WatchState
start_watch listed = record { seen = map (λ p. p.process_id) listed; cache = [] }

pub record Handled : Type 0 where
  pub acts : List Act
  pub event : GuardEvent

pub record Round : Type 0 where
  pub is_shut_down : Bool
  pub listing : Answer (List ObservedProcess)

-- how a loop stands after the rounds that are given
pub data Ending : Type 0 where
  shut_down watching : Ending
  listing_failed : Text → Ending

pub data Polled : Type 0 where
  ended : Acting GuardEvent → Polled
  polling : Polled

unfoldable pub completed_event : GuardEvent
completed_event = record {
  is_ok = true;
  action = text "watchCompleted";
  message = text "Process watch completed. No confirmed threat process was observed.";
  process_id = none;
  process_path = none;
  quarantine_id = none;
  quarantine_path = none;
  quarantine_record_path = none;
}

unfoldable pub next_iteration : ℕ → ℕ
next_iteration n = if ltb n (2 ^ 32 - 1) then n + 1 else 2 ^ 32 - 1

abbrev pub is_last : Option ℕ → ℕ → Bool
is_last none iterations = false
is_last (some max_iterations) iterations = leb max_iterations iterations

module _ (lower in_base : Text → Text) (malicious : List Text) (mode : DriverProtectionMode) where
  unfoldable pub start_handling : ObservedProcess → Acting GuardEvent
  start_handling p =
      handle_process_started in_base (some p.process_id) p.path malicious mode p.second p.store

  -- `write_guard_event` of what the handler gives, whose own failure is passed over
  unfoldable pub handled : ObservedProcess → Handled
  handled p = record {
    acts = (start_handling p).0;
    event = event_of (some p.process_id) p.path (start_handling p).1;
  }

  unfoldable pub watch_listing : WatchState → List ObservedProcess → WatchState × List Handled
  watch_listing s [] = (s, [])
  watch_listing s (p ∷ listed) =
      let (s', is_threat) = examine lower malicious s p in
      let (s'', log) = watch_listing s' listed in (s'', if is_threat then handled p ∷ log else log)

  abbrev pub on_listing :
      (WatchState → List Handled × Ending)
      → WatchState
      → Answer (List ObservedProcess)
      → List Handled × Ending
  on_listing rest s (error message) = ([], listing_failed message)
  on_listing rest s (done listed) =
      let (s', log) = watch_listing s listed in
      let (more, ending) = rest s' in (log ++ more, ending)

  unfoldable pub watch_rounds : WatchState → List Round → List Handled × Ending
  watch_rounds s [] = ([], watching)
  watch_rounds s (r ∷ rounds) =
      let round = on_listing (λ s'. watch_rounds s' rounds) s r.listing in
      if r.is_shut_down then ([], shut_down) else round

  unfoldable pub watch_processes_until_shutdown :
      Answer (List ObservedProcess) → List Round → List Handled × Ending
  watch_processes_until_shutdown (error message) rounds = ([], listing_failed message)
  watch_processes_until_shutdown (done listed) rounds = watch_rounds (start_watch listed) rounds

  -- the first threat of a listing, at which the command returns
  unfoldable pub first_threat :
      WatchState → List ObservedProcess → WatchState × Option ObservedProcess
  first_threat s [] = (s, none)
  first_threat s (p ∷ listed) =
      let (s', is_threat) = examine lower malicious s p in
      let later = first_threat s' listed in if is_threat then (s', some p) else later

  abbrev pub after_listing :
      (WatchState → Polled) → Bool → WatchState × Option ObservedProcess → Polled
  after_listing rest last (s, some p) = ended (start_handling p)
  after_listing rest last (s, none) =
      let more = rest s in if last then ended ([], done completed_event) else more

  abbrev pub on_poll :
      (WatchState → Polled) → Bool → WatchState → Answer (List ObservedProcess) → Polled
  on_poll rest last s (error message) = ended ([], error message)
  on_poll rest last s (done listed) = after_listing rest last (first_threat s listed)

  unfoldable pub poll_rounds :
      Option ℕ → ℕ → WatchState → List (Answer (List ObservedProcess)) → Polled
  poll_rounds max_iterations iterations s [] = polling
  poll_rounds max_iterations iterations s (listing ∷ listings) =
      on_poll (λ s'. poll_rounds max_iterations (next_iteration iterations) s' listings)
        (is_last max_iterations (next_iteration iterations)) s listing

  unfoldable pub watch_processes :
      Option ℕ → Answer (List ObservedProcess) → List (Answer (List ObservedProcess)) → Polled
  watch_processes max_iterations (error message) listings = ended ([], error message)
  watch_processes max_iterations (done listed) listings =
      poll_rounds max_iterations 0 (start_watch listed) listings
