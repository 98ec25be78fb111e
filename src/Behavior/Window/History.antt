-- ===== src/Behavior/Window/History.antt =====
-- What the sliding windows hold after a history of events (file_activity_window.rs).
use zentor.Prelude.{
  sym, ap, ◌∙◌, arith, ==_iff, false, keep, ℕ, ◌≤◌, ◌≡◌, refl, Option, none, some, List, [], ◌∷◌,
  ◌==◌, if◌then◌else◌, Bool-cases, inl, inr,
}
use native.Mathlib.Nat.{le_trans}
use zentor.Behavior.{FileActivityEvent}
use zentor.Behavior.Window.{
  new, or_new, apply_event, observe, ProcessWindow, RansomwareActivityWindow, lookup,
}
use zentor.Behavior.Window.Map.{IsMap, live, lookup-observe, observe-IsMap, live-live}

-- A history: each event with the time at which it is observed.
abbrev pub History : Type 0
History = List (ℕ × FileActivityEvent)

unfoldable pub run : RansomwareActivityWindow → History → RansomwareActivityWindow
unfolding observe
run state [] = state
run state ((now, event) ∷ rest) = run (observe now event state).0 rest

-- The times do not fall, from `t` on.
abbrev pub IsOrdered : ℕ → History → Type 0
IsOrdered t [] = Unit {0}
IsOrdered t ((now, event) ∷ rest) = (t ≤ now) × IsOrdered now rest

-- The time of the last event.
abbrev pub last_time : ℕ → History → ℕ
last_time t [] = t
last_time t ((now, event) ∷ rest) = last_time now rest

IsOrdered-earlier :
    (t t' : ℕ) (history : History) → t ≤ t' → IsOrdered t' history → IsOrdered t history
IsOrdered-earlier t t' [] le h = tt
IsOrdered-earlier t t' ((now, event) ∷ rest) le h = (omega arith, h.1)

-- The events of one process.
abbrev pub own : ℕ → History → History
own pid = keep (λ entry. entry.1.process_id == pid)

-- What one process's window is, from its own events alone.
next_window : ℕ → ℕ → ℕ × FileActivityEvent → Option ProcessWindow → Option ProcessWindow
next_window pid r (now, event) o =
    if event.process_id == pid then some (apply_event now event (or_new now (live r now o))) else o

spec_window : ℕ → ℕ → Option ProcessWindow → History → Option ProcessWindow
spec_window pid r o [] = o
spec_window pid r o (entry ∷ rest) = spec_window pid r (next_window pid r entry o) rest

next_window_other :
    (pid r now : ℕ) (event : FileActivityEvent) (o : Option ProcessWindow)
    → (event.process_id == pid) ≡ false
    → next_window pid r (now, event) o ≡ o
unfolding next_window
next_window_other pid r now event o other = rw other

spec_window-own :
    (pid r : ℕ) (o : Option ProcessWindow) (history : History)
    → spec_window pid r o (own pid history) ≡ spec_window pid r o history
unfolding spec_window
spec_window-own pid r o [] = refl
spec_window-own pid r o ((now, event) ∷ rest) = elim (Bool-cases (event.process_id == pid)) [
  | inl mine ↦ rw mine (spec_window-own pid r (next_window pid r (now, event) o) rest)
  | inr other ↦
      rw other (rw (next_window_other pid r now event o other) (spec_window-own pid r o rest))
]

own-IsOrdered :
    (pid t : ℕ) (history : History) → IsOrdered t history → IsOrdered t (own pid history)
own-IsOrdered pid t [] h = tt
own-IsOrdered pid t ((now, event) ∷ rest) h = elim (Bool-cases (event.process_id == pid)) [
  | inl mine ↦ rw mine (h.0, own-IsOrdered pid now rest h.1)
  | inr other ↦
      rw other (IsOrdered-earlier t now (own pid rest) h.0 (own-IsOrdered pid now rest h.1))
]

-- The same from time `t` on, as far as live windows go.
abbrev SameFrom : ℕ → ℕ → Option ProcessWindow → Option ProcessWindow → Type 0
SameFrom r t o o' = (t' : ℕ) → t ≤ t' → live r t' o ≡ live r t' o'

observe-SameFrom :
    (pid now t : ℕ) (event : FileActivityEvent) (state : RansomwareActivityWindow)
    (o : Option ProcessWindow)
    → IsMap state.windows
    → t ≤ now
    → SameFrom state.retention t (lookup pid state.windows) o
    → SameFrom state.retention now
        (lookup pid (observe now event state).0.windows)
        (next_window pid state.retention (now, event) o)
unfolding next_window
observe-SameFrom pid now t event state o h le same t' le' =
    rw (lookup-observe now pid event state h) (elim (Bool-cases (event.process_id == pid)) [
      | inl mine ↦
          let e : live state.retention now (lookup event.process_id state.windows)
              ≡ live state.retention now o =
            rw ((==_iff event.process_id pid).0 mine) (same now le) in
          rw (mine, e)
      | inr other ↦
          rw other (
            live-live state.retention now t' (lookup pid state.windows) le' ∙ same t' (omega arith))
    ])

run-SameFrom :
    (pid t : ℕ) (state : RansomwareActivityWindow) (o : Option ProcessWindow) (history : History)
    → IsMap state.windows
    → IsOrdered t history
    → SameFrom state.retention t (lookup pid state.windows) o
    → SameFrom state.retention
        (last_time t history)
        (lookup pid (run state history).windows)
        (spec_window pid state.retention o history)
unfolding run spec_window
run-SameFrom pid t state o [] h ordered same = same
run-SameFrom pid t state o ((now, event) ∷ rest) h ordered same =
    run-SameFrom pid now (observe now event state).0
      (next_window pid state.retention (now, event) o) rest (observe-IsMap now event state h)
      ordered.1 (observe-SameFrom pid now t event state o h ordered.0 same)

run-new :
    (pid r : ℕ) (history : History)
    → IsOrdered 0 history
    → (t : ℕ) → last_time 0 history ≤ t
    → live r t (lookup pid (run (new r) history).windows)
      ≡ live r t (spec_window pid r none history)
unfolding new
run-new pid r history ordered t le =
    run-SameFrom pid 0 (new r) none history tt ordered (λ t' h. unfold lookup in refl) t le

last_time_mono :
    (t t' : ℕ) (history : History) → t ≤ t' → last_time t history ≤ last_time t' history
last_time_mono t t' [] h = h
last_time_mono t t' ((now, event) ∷ rest) h = omega arith

last_time-own :
    (pid t : ℕ) (history : History)
    → IsOrdered t history
    → last_time t (own pid history) ≤ last_time t history
last_time-own pid t [] h = omega arith
last_time-own pid t ((now, event) ∷ rest) h = elim (Bool-cases (event.process_id == pid)) [
  | inl mine ↦ rw mine (last_time-own pid now rest h.1)
  | inr other ↦
      rw other (le_trans (last_time_mono t now (own pid rest) h.0) (last_time-own pid now rest h.1))
]

-- `RansomwareActivityWindow`: after a history whose times do not fall, what the windows hold live of
-- a process is what they hold after the events of that process alone. The activity of other
-- processes, and the pruning that it triggers, neither adds to a process's aggregate nor resets it.
pub run-own :
    (pid retention : ℕ) (history : History)
    → IsOrdered 0 history
    → (t : ℕ) → last_time 0 history ≤ t
    → live retention t (lookup pid (run (new retention) history).windows)
      ≡ live retention t (lookup pid (run (new retention) (own pid history)).windows)
run-own pid r history ordered t le =
    run-new pid r history ordered t le
    ∙ (ap (live r t) (sym (spec_window-own pid r none history))
        ∙ sym (
            run-new pid r (own pid history) (own-IsOrdered pid 0 history ordered) t
              (le_trans (last_time-own pid 0 history ordered) le)))
