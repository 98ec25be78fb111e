-- ===== src/Guard/Started/Plan.antt =====
-- What the guard does about a process that has started, as a part of one plan
-- (core/zentor_guard_service/src/main.rs).
use zentor.Prelude.{
  ℕ, ◌≡◌, refl, ◌∙◌, ap, Bool, true, false, ◌&&◌, ◌||◌, not, Option, none, some, List, [], ◌∷◌,
  ◌++◌, take, any, is_some, ◌==◌, if◌then◌else◌, arith, Bool-cases, inl, inr,
}
use mathlib.Core.List.{append-nil}
use zentor.Text.{Text, text, text_eq}
use zentor.Driver.{DriverProtectionMode}
use zentor.Guard.{
  Answer, done, error, LocalThreatMatch, GuardEvent, GuardQuarantineRecord, FileAnswers,
  StoreAnswers, error_event, native_threat_match, compat_threat_match,
}
use zentor.Guard.Acting.{Act, stopped, moved, stripped, recorded, Acting, ◌>>=◌, ◌>>◌, lift, act}
use zentor.Guard.Started.{
  rename_loop, record_name, guard_record, guard_quarantine_file, with_context, plain_event,
  observes, known_match, confirmed_match, stop_process, quarantined_event, on_threat, on_match,
  handle_process_started, event_of,
}

abbrev pub is_done {ℓ} : {A : Type ℓ} → Answer A → Bool
is_done (done a) = true
is_done (error message) = false

-- one of the first ten renames succeeds
abbrev pub is_freed : (ℕ → Answer (Unit {0})) → Bool
is_freed rename = any (λ i. is_done (rename i)) (0 ∷ 1 ∷ 2 ∷ 3 ∷ 4 ∷ 5 ∷ 6 ∷ 7 ∷ 8 ∷ 9 ∷ [])

is_done-rename_loop :
    (rename : ℕ → Answer (Unit {0})) (last : Text)
    → is_done (rename_loop rename 10 0 last) ≡ is_freed rename
unfolding rename_loop
is_done-rename_loop rename last = ground arith

-- how many of the three steps on the file are made
abbrev pub steps_made : Bool → Bool → Bool → Bool → ℕ
steps_made created freed permitted written =
    if created && freed then (if permitted then (if written then 3 else 2) else 1) else 0

abbrev pub progress : StoreAnswers → ℕ
progress store =
    steps_made (is_done store.create_base) (is_freed store.rename) (is_done store.set_permissions)
      (is_done store.write_record)

abbrev pub file_steps : (Text → Text) → Text → GuardQuarantineRecord → List Act
file_steps in_base path kept =
    moved path kept.quarantine_path
    ∷ stripped kept.quarantine_path
    ∷ recorded (in_base (record_name kept.quarantine_id)) kept
    ∷ []

abbrev pub stops : Option ℕ → List Act
stops none = []
stops (some id) = stopped id ∷ []

abbrev pub intervenes : DriverProtectionMode → List Text → Text → FileAnswers → Bool
intervenes mode malicious hash file =
    (any (text_eq hash) malicious || is_some (native_threat_match file)) && not (observes mode)

is_some-confirmed_match :
    (malicious : List Text) (hash : Text) (file : FileAnswers)
    → is_some (confirmed_match malicious hash file)
      ≡ (any (text_eq hash) malicious || is_some (native_threat_match file))
unfolding confirmed_match compat_threat_match
is_some-confirmed_match malicious hash file = ground arith

abbrev pub threat_or_known : Option LocalThreatMatch → LocalThreatMatch
threat_or_known none = known_match
threat_or_known (some threat) = threat

chain :
    GuardQuarantineRecord
    → Text
    → Text
    → Answer (Unit {0})
    → Answer (Unit {0})
    → Answer (Unit {0})
    → Answer (Unit {0})
    → Acting GuardQuarantineRecord
chain kept path record_path c r p w = do
  lift c
  act (moved path kept.quarantine_path) r
  act (stripped kept.quarantine_path) p
  act (recorded record_path kept) w
  lift (done kept)

chain_steps :
    (kept : GuardQuarantineRecord) (path record_path : Text) (c r p w : Answer (Unit {0}))
    → ((chain kept path record_path c r p w).0
        ≡ take (steps_made (is_done c) (is_done r) (is_done p) (is_done w)) (
            moved path kept.quarantine_path
            ∷ stripped kept.quarantine_path
            ∷ recorded record_path kept
            ∷ []))
      × (is_done (chain kept path record_path c r p w).1
          ≡ (steps_made (is_done c) (is_done r) (is_done p) (is_done w) == 3))
unfolding chain
chain_steps kept path record_path (error _) r p w = (refl, refl)
chain_steps kept path record_path (done _) (error _) p w = (refl, refl)
chain_steps kept path record_path (done _) (done _) (error _) w = (refl, refl)
chain_steps kept path record_path (done _) (done _) (done _) (error _) = (refl, refl)
chain_steps kept path record_path (done _) (done _) (done _) (done _) = (refl, refl)

abbrev pub says_quarantined : GuardEvent → Bool
says_quarantined event = text_eq event.action (text "stoppedAndQuarantined")

stop_process_lem : (process_id : Option ℕ) → stop_process process_id ≡ (stops process_id, done tt)
unfolding stop_process
stop_process_lem none = refl
stop_process_lem (some id) = refl

module _ (in_base : Text → Text) (process_id : Option ℕ) (path hash : Text)
    (store : StoreAnswers) where
  quarantine_steps :
      (threat : LocalThreatMatch)
      → let kept = guard_record in_base store path hash process_id threat in
        ((guard_quarantine_file in_base store path hash process_id threat).0
          ≡ take (progress store) (file_steps in_base path kept))
        × (is_done (guard_quarantine_file in_base store path hash process_id threat).1
            ≡ (progress store == 3))
  unfolding guard_quarantine_file chain guard_record
  quarantine_steps threat = rw (← is_done-rename_loop store.rename (text "quarantine failed")) (
      chain_steps (guard_record in_base store path hash process_id threat) path
        (in_base (record_name store.new_id)) store.create_base
        (rename_loop store.rename 10 0 (text "quarantine failed")) store.set_permissions
        store.write_record)

  -- the event follows the outcome of the quarantine
  reported :
      (threat : LocalThreatMatch) (context : Text) (q : Acting GuardQuarantineRecord)
      → let run = with_context context q >>= λ kept.
          lift (done (quarantined_event in_base process_id path threat kept)) in
        (run.0 ≡ q.0)
        × (says_quarantined (event_of process_id path run.1) ≡ is_done q.1)
        × ((event_of process_id path run.1).is_ok ≡ is_done q.1)
  unfolding quarantined_event event_of error_event text_eq text
  reported threat context (acts, done kept) = (append-nil acts, refl, refl)
  reported threat context (acts, error message) = (refl, refl, refl)

  -- what is done in the whole, by whether the guard intervenes
  abbrev pub Follows : Bool → LocalThreatMatch → Acting GuardEvent → Type 0
  Follows acts_on threat run =
      (run.0 ≡ (
        if acts_on
        then stops process_id
          ++ take (progress store)
              (file_steps in_base path (guard_record in_base store path hash process_id threat))
        else []))
      × (says_quarantined (event_of process_id path run.1) ≡ (acts_on && progress store == 3))
      × ((event_of process_id path run.1).is_ok ≡ (not acts_on || progress store == 3))

  passive_Follows :
      (threat : LocalThreatMatch) (action message : Text)
      → text_eq action (text "stoppedAndQuarantined") ≡ false
      → Follows false threat (lift (done (plain_event action message process_id path)))
  unfolding event_of plain_event
  passive_Follows threat action message h = (refl, h, refl)

  active_Follows :
      (threat : LocalThreatMatch) (context : Text)
      → Follows true threat (do
        stop_process process_id
        kept ←
            with_context context (guard_quarantine_file in_base store path hash process_id threat)
        lift (done (quarantined_event in_base process_id path threat kept)))
  active_Follows threat context =
      let (made, finished) = quarantine_steps threat in
      let (acts, says, fine) =
        reported threat context (guard_quarantine_file in_base store path hash process_id threat) in
      rw (stop_process_lem process_id)
        (ap (λ xs. stops process_id ++ xs) (acts ∙ made), says ∙ finished, fine ∙ finished)

  on_threat-Follows :
      (mode : DriverProtectionMode) (threat : LocalThreatMatch)
      → Follows
          (not (observes mode))
          threat
          (on_threat in_base process_id path hash store mode threat)
  unfolding on_threat text_eq text
  on_threat-Follows mode threat = elim (Bool-cases (observes mode)) [
    | inl seen ↦ rw seen (passive_Follows threat _ _ refl)
    | inr acting ↦ rw acting (active_Follows threat _)
  ]

  on_match-Follows :
      (mode : DriverProtectionMode) (found : Option LocalThreatMatch)
      → Follows
          (is_some found && not (observes mode))
          (threat_or_known found)
          (on_match in_base process_id path hash store mode found)
  unfolding on_match text_eq text
  on_match-Follows mode none = passive_Follows known_match _ _ refl
  on_match-Follows mode (some threat) = on_threat-Follows mode threat

-- Where the file of a process that started can be read, `handle_process_started` intervenes
-- exactly if the file's hash is known or its native verdict is a confirmed threat, in every mode
-- but the disabled one and the one that only observes; else it acts on nothing. It then asks the
-- system to stop the process, if its identifier is known, and does the first steps of the plan of
-- moving the file into quarantine, removing its permissions of execution and writing its record:
-- none where the folder cannot be made or ten renames fail, and else as many as succeed. It
-- reports a quarantine exactly where it intervenes and all steps are made, and an error exactly
-- where it intervenes and they are not.
pub handle_process_started-Follows :
    (in_base : Text → Text) (process_id : Option ℕ) (path : Text) (malicious : List Text)
    (mode : DriverProtectionMode) (file : FileAnswers) (store : StoreAnswers) (hash : Text)
    → file.sha256_file ≡ done hash
    → Follows in_base process_id path hash store
        (intervenes mode malicious hash file)
        (threat_or_known (confirmed_match malicious hash file))
        (handle_process_started in_base process_id path malicious mode file store)
unfolding handle_process_started
handle_process_started-Follows in_base process_id path malicious mode file store hash h =
    let found = confirmed_match malicious hash file in
    let follows : Follows in_base process_id path hash store (intervenes mode malicious hash file)
        (threat_or_known found) (on_match in_base process_id path hash store mode found) =
      rw (← is_some-confirmed_match malicious hash file)
        (on_match-Follows in_base process_id path hash store mode found) in
    simp (h) follows
