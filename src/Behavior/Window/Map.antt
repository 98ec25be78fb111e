-- ===== src/Behavior/Window/Map.antt =====
-- Each process has one window at most, and an observation changes only its own process's window
-- (file_activity_window.rs).
use zentor.Prelude.{
  ℕ, ◌≤◌, ◌≡◌, refl, Option, none, some, [], ◌∷◌, arith, ◌==◌, if◌then◌else◌, Bool-cases, inl, inr,
}
use zentor.Behavior.{FileActivityEvent}
use zentor.Behavior.Window.{
  or_new, apply_event, RansomwareActivityWindow, observe, ProcessWindow, Windows, lookup, insert,
  is_live, prune,
}

-- Every process has one window at most.
abbrev pub IsMap : Windows → Type 0
IsMap [] = Unit {0}
IsMap ((k, w) ∷ rest) = (lookup k rest ≡ none) × IsMap rest

abbrev pub live : ℕ → ℕ → Option ProcessWindow → Option ProcessWindow
live retention now none = none
live retention now (some w) = if is_live retention now w then some w else none

lookup-insert :
    (pid j : ℕ) (w : ProcessWindow) (m : Windows)
    → lookup j (insert pid w m) ≡ (if pid == j then some w else lookup j m)
unfolding lookup insert
lookup-insert pid j w [] = refl
lookup-insert pid j w ((k, v) ∷ rest) = ground (arith, lookup-insert pid j w rest)

insert-IsMap : (pid : ℕ) (w : ProcessWindow) (m : Windows) → IsMap m → IsMap (insert pid w m)
unfolding insert
insert-IsMap pid w [] h = (unfold lookup in refl, tt)
insert-IsMap pid w ((k, v) ∷ rest) h = elim (Bool-cases (k == pid)) [
  | inl same ↦ rw same (ground arith)
  | inr other ↦ rw other (rw lookup-insert (ground arith), insert-IsMap pid w rest h.1)
]

lookup-prune-none :
    (r now j : ℕ) (m : Windows) → lookup j m ≡ none → lookup j (prune r now m) ≡ none
unfolding lookup prune
lookup-prune-none r now j [] h = refl
lookup-prune-none r now j ((k, w) ∷ rest) h = ground (arith, lookup-prune-none r now j rest)

lookup-prune :
    (r now j : ℕ) (m : Windows) → IsMap m → lookup j (prune r now m) ≡ live r now (lookup j m)
unfolding lookup prune
lookup-prune r now j [] h = refl
lookup-prune r now j ((k, w) ∷ rest) h =
    ground (arith, lookup-prune r now j rest h.1, lookup-prune-none r now j rest)

prune-IsMap : (r now : ℕ) (m : Windows) → IsMap m → IsMap (prune r now m)
unfolding prune
prune-IsMap r now [] h = tt
prune-IsMap r now ((k, w) ∷ rest) h = elim (Bool-cases (is_live r now w)) [
  | inl alive ↦ rw alive (lookup-prune-none r now k rest h.0, prune-IsMap r now rest h.1)
  | inr dead ↦ rw dead (prune-IsMap r now rest h.1)
]

pub live-live :
    (r t t' : ℕ) (o : Option ProcessWindow) → t ≤ t' → live r t' (live r t o) ≡ live r t' o
unfolding is_live
live-live r t t' none h = refl
live-live r t t' (some w) h = ground arith

-- One observation: the process of the event gets its window of before, if that is still live, with
-- the event applied; every other process keeps what is still live.
pub lookup-observe :
    (now j : ℕ) (event : FileActivityEvent) (state : RansomwareActivityWindow)
    → IsMap state.windows
    → lookup j (observe now event state).0.windows ≡ (
        if event.process_id == j
        then some (
            apply_event now event
              (or_new now (live state.retention now (lookup event.process_id state.windows))))
        else live state.retention now (lookup j state.windows))
unfolding observe
lookup-observe now j event state h =
    rw (lookup-insert, lookup-prune state.retention now event.process_id state.windows h)
      (rw (lookup-prune state.retention now j state.windows h))

pub observe-IsMap :
    (now : ℕ) (event : FileActivityEvent) (state : RansomwareActivityWindow)
    → IsMap state.windows
    → IsMap (observe now event state).0.windows
unfolding observe
observe-IsMap now event state h =
    insert-IsMap event.process_id _ (prune state.retention now state.windows)
      (prune-IsMap state.retention now state.windows h)
