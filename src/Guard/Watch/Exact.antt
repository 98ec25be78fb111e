-- ===== src/Guard/Watch/Exact.antt =====
-- That the watch reports each threat once (core/zentor_guard_service/src/main.rs).
use zentor.Prelude.{
  ℕ, ◌+◌, ◌≤◌, ◌≡◌, refl, ap, Bool, true, false, ◌&&◌, ◌||◌, Option, none, some, List, [], ◌∷◌, any,
  count_if, count_if-append, inl, inr, if_both, Bool-cases, ==_iff, ◌==◌, if◌then◌else◌, arith,
}
use zentor.Text.{Text}
use zentor.Driver.{DriverProtectionMode}
use zentor.Guard.{
  Answer, done, error, LocalThreatMatch, GuardEvent, FileAnswers, StoreAnswers, ObservedProcess,
  error_event,
}
use zentor.Guard.Acting.{Acting, ◌>>=◌, lift}
use zentor.Guard.Started.{
  plain_event, stop_process, quarantined_event, on_threat, on_match, handle_process_started,
  event_of,
}
use zentor.Guard.Watch.{
  WatchState, has_seen, examine, start_watch, Handled, Round, Ending, start_handling, handled,
  watch_listing, on_listing, watch_rounds, watch_processes_until_shutdown,
}

abbrev pub is_id : ℕ → Option ℕ → Bool
is_id q none = false
is_id q (some id) = id == q

abbrev pub is_about : ℕ → Handled → Bool
is_about q h = is_id q h.event.process_id

abbrev pub lists : List ObservedProcess → ℕ → Bool
lists listed q = any (λ p. p.process_id == q) listed

abbrev weight : Bool → ℕ
weight b = if b then 1 else 0

module _ (in_base : Text → Text) (id : ℕ) (path : Text) where
  -- the event is about the process
  abbrev IsAbout : Answer GuardEvent → Type 0
  IsAbout answer = (event_of (some id) path answer).process_id ≡ some id

  on_threat-IsAbout :
      (hash : Text) (store : StoreAnswers) (mode : DriverProtectionMode) (threat : LocalThreatMatch)
      → IsAbout (on_threat in_base (some id) path hash store mode threat).1
  unfolding on_threat event_of error_event plain_event quarantined_event stop_process
  on_threat-IsAbout hash store mode threat = ground arith

  on_match-IsAbout :
      (hash : Text) (store : StoreAnswers) (mode : DriverProtectionMode)
      (found : Option LocalThreatMatch)
      → IsAbout (on_match in_base (some id) path hash store mode found).1
  unfolding on_match event_of plain_event
  on_match-IsAbout hash store mode none = refl
  on_match-IsAbout hash store mode (some threat) = on_threat-IsAbout hash store mode threat

  after_hash :
      (answer : Answer Text) (f : Text → Acting GuardEvent)
      → ((hash : Text) → IsAbout (f hash).1)
      → IsAbout (lift answer >>= f).1
  unfolding event_of error_event
  after_hash (done hash) f h = h hash
  after_hash (error message) f h = refl

  started-IsAbout :
      (malicious : List Text) (mode : DriverProtectionMode) (file : FileAnswers)
      (store : StoreAnswers)
      → IsAbout (handle_process_started in_base (some id) path malicious mode file store).1
  unfolding handle_process_started
  started-IsAbout malicious mode file store =
      after_hash file.sha256_file _ (λ hash. on_match-IsAbout hash store mode _)

no_both : (a b c : Bool) → (a ≡ true → c ≡ false) → (a && b && c) ≡ false
no_both false b c f = refl
no_both true b c f = rw (f refl) (ground arith)

module _ (lower : Text → Text) (malicious : List Text) (s : WatchState) (p : ObservedProcess) where
  examine-new : (examine lower malicious s p).1 ≡ true → has_seen s.seen p.process_id ≡ false
  unfolding examine
  examine-new h = ground arith

  -- a process that is found to be a threat was not listed before
  examine-fresh :
      (q : ℕ)
      → ((examine lower malicious s p).1 && (p.process_id == q) && has_seen s.seen q) ≡ false
  examine-fresh q = elim (Bool-cases (p.process_id == q)) [
    | inl same ↦ rw (← (==_iff p.process_id q).0 same) (
        no_both (examine lower malicious s p).1 (p.process_id == p.process_id)
          (has_seen s.seen p.process_id) examine-new)
    | inr other ↦ rw other (ground arith)
  ]

  pub seen-examine :
      (q : ℕ)
      → has_seen (examine lower malicious s p).0.seen q ≡ ((p.process_id == q) || has_seen s.seen q)
  unfolding examine
  seen-examine q = ground arith

module _ (lower in_base : Text → Text) (malicious : List Text) (mode : DriverProtectionMode)
    (q : ℕ) where
  is_about-handled :
      (p : ObservedProcess)
      → is_about q (handled lower in_base malicious mode p) ≡ (p.process_id == q)
  unfolding handled start_handling
  is_about-handled p =
      ap (is_id q) (started-IsAbout in_base p.process_id p.path malicious mode p.second p.store)

  abbrev about : List Handled → ℕ
  about log = count_if (is_about q) log

  -- what a listing logs of a process takes it from unseen to seen
  about-watch_listing :
      (s : WatchState) (listed : List ObservedProcess)
      → let after = watch_listing lower in_base malicious mode s listed in
        about after.1 + weight (has_seen s.seen q) ≤ weight (has_seen after.0.seen q)
  unfolding watch_listing
  about-watch_listing s [] = omega arith
  about-watch_listing s (p ∷ listed) =
      let s' = (examine lower malicious s p).0 in
      let fresh = examine-fresh lower malicious s p q in
      let noted = seen-examine lower malicious s p q in
      let same = is_about-handled p in
      let rest = about-watch_listing s' listed in ground (arith, fresh, noted, same, rest)

  pub seen-watch_listing :
      (s : WatchState) (listed : List ObservedProcess)
      → has_seen (watch_listing lower in_base malicious mode s listed).0.seen q
        ≡ (lists listed q || has_seen s.seen q)
  unfolding watch_listing
  seen-watch_listing s [] = refl
  seen-watch_listing s (p ∷ listed) =
      let s' = (examine lower malicious s p).0 in
      let noted = seen-examine lower malicious s p q in
      let rest = seen-watch_listing s' listed in ground (arith, noted, rest)

  weight_bound : (b : Bool) → 0 + weight b ≤ 1
  weight_bound b = ground arith

  about-on_listing :
      (rest : WatchState → List Handled × Ending) (s : WatchState)
      (listing : Answer (List ObservedProcess))
      → ((s' : WatchState) → about (rest s').0 + weight (has_seen s'.seen q) ≤ 1)
      → about (on_listing lower in_base malicious mode rest s listing).0
          + weight (has_seen s.seen q)
        ≤ 1
  about-on_listing rest s (error message) h = weight_bound (has_seen s.seen q)
  about-on_listing rest s (done listed) h =
      let after = watch_listing lower in_base malicious mode s listed in
      omega (
        arith,
        about-watch_listing s listed,
        h after.0,
        count_if-append (is_about q) after.1 (rest after.0).0,
      )

  about-watch_rounds :
      (s : WatchState) (rounds : List Round)
      → about (watch_rounds lower in_base malicious mode s rounds).0 + weight (has_seen s.seen q)
        ≤ 1
  unfolding watch_rounds
  about-watch_rounds s [] = weight_bound (has_seen s.seen q)
  about-watch_rounds s (r ∷ rounds) =
      if_both (λ (result : List Handled × Ending). about result.0 + weight (has_seen s.seen q) ≤ 1)
        r.is_shut_down (weight_bound (has_seen s.seen q))
        (about-on_listing (λ s'. watch_rounds lower in_base malicious mode s' rounds) s r.listing
          (λ s'. about-watch_rounds s' rounds))

  pub seen-start_watch :
      (listed : List ObservedProcess) → has_seen (start_watch listed).seen q ≡ lists listed q
  unfolding start_watch
  seen-start_watch [] = refl
  seen-start_watch (p ∷ listed) = ap (λ b. (p.process_id == q) || b) (seen-start_watch listed)

  -- However long `watch_processes_until_shutdown` runs, it reports each process identifier once at
  -- most, also where the identifier is used again, and never one that was listed at the start.
  pub about-watch_processes_until_shutdown :
      (listed : List ObservedProcess) (rounds : List Round)
      → count_if
            (is_about q)
            (watch_processes_until_shutdown lower in_base malicious mode (done listed) rounds).0
          + (if lists listed q then 1 else 0)
        ≤ 1
  unfolding watch_processes_until_shutdown
  about-watch_processes_until_shutdown listed rounds =
      rw (← seen-start_watch listed) (about-watch_rounds (start_watch listed) rounds)
