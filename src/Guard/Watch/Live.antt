-- ===== src/Guard/Watch/Live.antt =====
-- That the watch comes to each threat (core/zentor_guard_service/src/main.rs).
use zentor.Prelude.{
  ℕ, ◌≡◌, refl, ◌∙◌, Bool, true, false, List, [], ◌∷◌, ◌++◌, is_some, All, Any, inl, inr,
  Any-append_left, Any-append_right, if◌then◌else◌, arith,
}
use zentor.Text.{Text}
use zentor.Driver.{DriverProtectionMode}
use zentor.Guard.{done, ObservedProcess, native_threat_match, should_skip_process_path}
use zentor.Guard.Watch.{
  WatchState, has_seen, examine, start_watch, Handled, Round, handled, watch_listing, watch_rounds,
  watch_processes_until_shutdown,
}
use zentor.Guard.Watch.Exact.{lists, seen-examine, seen-watch_listing, seen-start_watch}

-- a round that goes on, and whose listing does not have the process
abbrev pub PassesBy : ℕ → Round → Type 0
PassesBy q r =
    (listed : List ObservedProcess) × (r.is_shut_down ≡ false)
    × (r.listing ≡ done listed)
    × (lists listed q ≡ false)

module _ (lower in_base : Text → Text) (malicious : List Text) (mode : DriverProtectionMode)
    (p : ObservedProcess) (watched : should_skip_process_path lower p.path ≡ false)
    (threat : is_some (native_threat_match p.first) ≡ true) where
  examine-threat :
      (s : WatchState)
      → has_seen s.seen p.process_id ≡ false
      → (examine lower malicious s p).1 ≡ true
  unfolding examine
  examine-threat s h = ground (arith, watched, threat)

  -- the report about the process stands in the log
  abbrev IsReport : Handled → Type 0
  IsReport h = h ≡ handled lower in_base malicious mode p

  abbrev Reports : List Handled → Type 0
  Reports log = Any IsReport log

  kept_on :
      (b : Bool) (h : Handled) (log : List Handled)
      → Reports log
      → Reports (if b then h ∷ log else log)
  kept_on false h log r = r
  kept_on true h log r = inr r

  listing-Reports :
      (s : WatchState) (before after : List ObservedProcess)
      → has_seen s.seen p.process_id ≡ false
      → lists before p.process_id ≡ false
      → Reports (watch_listing lower in_base malicious mode s (before ++ p ∷ after)).1
  unfolding watch_listing
  listing-Reports s [] after unseen none_before = rw (examine-threat s unseen) (inl refl)
  listing-Reports s (x ∷ before) after unseen none_before =
      let noted = seen-examine lower malicious s x p.process_id in
      kept_on (examine lower malicious s x).1 _ _ (
        listing-Reports (examine lower malicious s x).0 before after (ground (arith, noted))
          (ground arith))

  -- a round that passes by leaves the process unseen
  rounds-Reports :
      (s : WatchState) (before : List Round) (r : Round) (after : List Round)
      (ahead behind : List ObservedProcess)
      → has_seen s.seen p.process_id ≡ false
      → All (PassesBy p.process_id) before
      → r.is_shut_down ≡ false
      → r.listing ≡ done (ahead ++ p ∷ behind)
      → lists ahead p.process_id ≡ false
      → Reports (watch_rounds lower in_base malicious mode s (before ++ r ∷ after)).0
  unfolding watch_rounds
  rounds-Reports s [] r after ahead behind unseen passed on listed first =
      rw (on, listed) (Any-append_left IsReport _ _ (listing-Reports s ahead behind unseen first))
  rounds-Reports s (b ∷ before) r after ahead behind unseen
        ((names, going, listing, absent), passed) on listed first =
      let s' = (watch_listing lower in_base malicious mode s names).0 in
      let noted = seen-watch_listing lower in_base malicious mode p.process_id s names in
      rw (going, listing)
        (Any-append_right IsReport _ _ (
          rounds-Reports s' before r after ahead behind (ground (arith, noted)) passed on listed
            first))

  -- A process that is first listed in some round, in none of the listings before and not before it in
  -- this one, whose path is not skipped, and whose file the native engine confirms as a threat, is
  -- handled and reported by `watch_processes_until_shutdown`, if all rounds before are listed and the
  -- shut-down has not come, whatever rounds follow.
  pub watch_processes_until_shutdown-Reports :
      (listed : List ObservedProcess) (before : List Round) (r : Round) (after : List Round)
      (ahead behind : List ObservedProcess)
      → lists listed p.process_id ≡ false
      → All (PassesBy p.process_id) before
      → r.is_shut_down ≡ false
      → r.listing ≡ done (ahead ++ p ∷ behind)
      → lists ahead p.process_id ≡ false
      → Any
          (λ h. h ≡ handled lower in_base malicious mode p)
          (watch_processes_until_shutdown lower in_base malicious mode
            (done listed)
            (before ++ r ∷ after)).0
  unfolding watch_processes_until_shutdown
  watch_processes_until_shutdown-Reports listed before r after ahead behind absent passed on now
        first =
      let unseen = seen-start_watch lower in_base malicious mode p.process_id listed in
      rounds-Reports (start_watch listed) before r after ahead behind (unseen ∙ absent) passed on
        now first
