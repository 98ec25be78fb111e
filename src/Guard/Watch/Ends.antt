-- ===== src/Guard/Watch/Ends.antt =====
-- That the command that watches with a number of rounds ends (core/zentor_guard_service/src/main.rs).
use zentor.Prelude.{
  ℕ, ◌+◌, ◌≤◌, ◌<◌, ◌≡◌, refl, Bool, true, false, Option, none, some, List, [], ◌∷◌, ◌++◌, length,
  leb, ◌==◌, if◌then◌else◌, arith,
}
use zentor.Text.{Text}
use zentor.Driver.{DriverProtectionMode}
use zentor.Guard.{Answer, done, error, GuardEvent, ObservedProcess}
use zentor.Guard.Acting.{Acting}
use zentor.Guard.Watch.{
  WatchState, start_watch, Polled, ended, first_threat, next_iteration, is_last, after_listing,
  on_poll, poll_rounds, watch_processes,
}

-- both loops ended, in the same way
abbrev pub EndAlike : Polled → Polled → Type 0
EndAlike short long = (run : Acting GuardEvent) × (short ≡ ended run) × (long ≡ ended run)

module _ (lower in_base : Text → Text) (malicious : List Text) (mode : DriverProtectionMode) where
  after_listing-EndAlike :
      (short long : WatchState → Polled) (last : Bool) (found : WatchState × Option ObservedProcess)
      → (last ≡ false → (s : WatchState) → EndAlike (short s) (long s))
      → EndAlike
          (after_listing lower in_base malicious mode short last found)
          (after_listing lower in_base malicious mode long last found)
  after_listing-EndAlike short long last (s, some p) h = (_, refl, refl)
  after_listing-EndAlike short long true (s, none) h = (_, refl, refl)
  after_listing-EndAlike short long false (s, none) h = h refl s

  on_poll-EndAlike :
      (short long : WatchState → Polled) (last : Bool) (s : WatchState)
      (listing : Answer (List ObservedProcess))
      → (last ≡ false → (s : WatchState) → EndAlike (short s) (long s))
      → EndAlike
          (on_poll lower in_base malicious mode short last s listing)
          (on_poll lower in_base malicious mode long last s listing)
  on_poll-EndAlike short long last s (error message) h = (_, refl, refl)
  on_poll-EndAlike short long last s (done listed) h =
      after_listing-EndAlike short long last (first_threat lower in_base malicious mode s listed) h

  next_iteration_below :
      (n m : ℕ) → m < 4_294_967_296 → leb m (next_iteration n) ≡ false → next_iteration n ≡ n + 1
  unfolding next_iteration
  next_iteration_below n m h last = ground arith

  poll_rounds-EndAlike :
      (m n : ℕ) (s : WatchState) (listings more : List (Answer (List ObservedProcess)))
      → m < 4_294_967_296
      → 1 ≤ length listings
      → m ≤ n + length listings
      → EndAlike
          (poll_rounds lower in_base malicious mode (some m) n s listings)
          (poll_rounds lower in_base malicious mode (some m) n s (listings ++ more))
  unfolding poll_rounds
  poll_rounds-EndAlike m n s [] more small some_left enough = absurd (omega arith)
  poll_rounds-EndAlike m n s (listing ∷ listings) more small some_left enough =
      on_poll-EndAlike _ _ (is_last (some m) (next_iteration n)) s listing λ last s'.
        let next = next_iteration_below n m small last in
        poll_rounds-EndAlike m (next_iteration n) s' listings more small (ground (arith, next))
          (omega (arith, next, enough))

  -- `watch_processes` with a number of rounds ends within that number of listings, or within one
  -- where it is 0, and what further listings there would be makes no difference.
  pub watch_processes-EndAlike :
      (m : ℕ) (start : Answer (List ObservedProcess))
      (listings more : List (Answer (List ObservedProcess)))
      → m < 4_294_967_296
      → length listings ≡ (if m == 0 then 1 else m)
      → EndAlike
          (watch_processes lower in_base malicious mode (some m) start listings)
          (watch_processes lower in_base malicious mode (some m) start (listings ++ more))
  unfolding watch_processes
  watch_processes-EndAlike m (error message) listings more small size = (_, refl, refl)
  watch_processes-EndAlike m (done listed) listings more small size =
      poll_rounds-EndAlike m 0 (start_watch listed) listings more small (ground (arith, size))
        (ground (arith, size))
