-- ===== src/Protection/Alarms.antt =====
-- When the ransomware guard raises a signal
-- (core/zentor_local_core/src/protection/ransomware_guard.rs).
use zentor.Prelude.{
  ℕ, ◌+◌, ◌<◌, ◌≤◌, ◌^◌, ◌%◌, ◌≡◌, ◌↔◌, ◌⊎◌, inl, inr, refl, Any, any_iff, or_iff, Bool, true,
  false, ◌&&◌, ◌||◌, not, Option, none, some, List, [], ◌∷◌, ◌++◌, length, keep, any, count_if,
  count_if-append, count_if-le-length, length-append, arith,
}
use zentor.Text.{Text, text}
use zentor.Text.Laws.{text_eq_iff, starts_with_iff}
use zentor.Float.{Float}
use zentor.Protection.{
  RansomwareSignal, RansomwareGuardConfig, Activity, path_is_within, paths_equal,
  normalize_path_text, trusted_process, protected_modified_paths, severe_file_activity,
  ransom_note_activity, backup_tamper, evaluate_with_config,
}

abbrev pub is_raised : {F : Type 0} → Option (RansomwareSignal F) → Bool
is_raised none = false
is_raised (some _) = true

-- every path is protected where no roots are given
abbrev pub is_protected : List Text → Text → Bool
is_protected [] path = true
is_protected (root ∷ roots) path = any (path_is_within path) (root ∷ roots)

abbrev pub protected_count : List Text → List Text → ℕ
protected_count roots paths = count_if (is_protected roots) paths

length-keep : {A : Type 0} → (p : A → Bool) (xs : List A) → length (keep p xs) ≡ count_if p xs
length-keep p [] = refl
length-keep p (x ∷ xs) = ground (arith, length-keep p xs)

count_all : {A : Type 0} → (xs : List A) → length xs ≡ count_if (λ x. true) xs
count_all [] = refl
count_all (x ∷ xs) = omega (arith, count_all xs)

length-protected_modified_paths :
    (paths roots : List Text)
    → length (protected_modified_paths paths roots) ≡ protected_count roots paths
unfolding protected_modified_paths
length-protected_modified_paths paths [] = count_all paths
length-protected_modified_paths paths (root ∷ roots) = length-keep _ paths

-- The path is the root, or it goes on after the root and a `/`.
abbrev pub Within : Text → Text → Type 0
Within path root =
    (normalize_path_text path ≡ normalize_path_text root)
    ⊎ ((rest : Text) × (normalize_path_text path ≡ (normalize_path_text root ++ text "/") ++ rest))

abbrev pub Protected : List Text → Text → Type 0
Protected [] path = Unit {0}
Protected (root ∷ roots) path = Any (Within path) (root ∷ roots)

path_is_within_iff : (path root : Text) → (path_is_within path root ≡ true) ↔ Within path root
unfolding path_is_within
path_is_within_iff path root =
    or_iff _ _ (text_eq_iff (normalize_path_text path) (normalize_path_text root))
      (starts_with_iff (normalize_path_text path) (normalize_path_text root ++ text "/"))

is_protected_iff :
    (roots : List Text) (path : Text) → (is_protected roots path ≡ true) ↔ Protected roots path
is_protected_iff [] path = (λ h. tt, λ h. refl)
is_protected_iff (root ∷ roots) path =
    any_iff (path_is_within path) (Within path) (path_is_within_iff path) (root ∷ roots)

trusted_process_iff :
    (process_path : Text) (trusted : List Text)
    → (trusted_process process_path trusted ≡ true)
      ↔ Any (λ t. normalize_path_text process_path ≡ normalize_path_text t) trusted
unfolding trusted_process paths_equal
trusted_process_iff process_path trusted =
    any_iff (paths_equal process_path) _
      (λ t. text_eq_iff (normalize_path_text process_path) (normalize_path_text t)) trusted

module _ {F : Type 0} (fl : Float F) where
  -- the scores and the number of protected changes for which a signal is due
  abbrev pub Raises : Type 0 → ℕ → Activity F → Type 0
  Raises Trust n a =
      ((fl.ge a.ransom_note_score (fl.literal 75 2) ≡ true) × (10 ≤ n))
      ⊎ (((fl.ge a.backup_tamper_score (fl.literal 75 2) ≡ true) × (1 ≤ n))
          ⊎ ((¬ Trust)
              × ((25 ≤ n)
                  × (a.time_window_seconds ≤ 120)
                  × (fl.ge a.entropy_change_score (fl.literal 55 2) ≡ true))))

  -- the tests on the scores and on the number of protected paths, trust counting only for the last
  abbrev alarm : Bool → ℕ → Activity F → Bool
  alarm is_trusted n a =
      ransom_note_activity fl n a
      || backup_tamper fl n a
      || (not is_trusted && severe_file_activity fl n a)

  alarm_monotone :
      (is_trusted : Bool) (n m : ℕ) (a : Activity F)
      → alarm is_trusted n a ≡ true
      → alarm is_trusted (n + m) a ≡ true
  unfolding ransom_note_activity backup_tamper severe_file_activity
  alarm_monotone is_trusted n m a h = ground arith

  is_raised-evaluate_with_config :
      (process_id : ℕ) (process_path : Text) (paths : List Text) (a : Activity F)
      (config : RansomwareGuardConfig)
      → length paths < 4_294_967_296
      → is_raised (evaluate_with_config fl process_id process_path paths a config)
        ≡ alarm
            (trusted_process process_path config.trusted_process_allowlist)
            (protected_count config.protected_roots paths)
            a
  unfolding evaluate_with_config
  is_raised-evaluate_with_config process_id process_path paths a config h =
      let few = count_if-le-length (is_protected config.protected_roots) paths in
      let same : length (protected_modified_paths paths config.protected_roots) % 2 ^ 32
          ≡ protected_count config.protected_roots paths =
        rw (length-protected_modified_paths paths config.protected_roots) (omega (arith, few, h)) in
      rw (same) (ground arith)

  alarm_of_trusted :
      (n : ℕ) (a : Activity F)
      → (alarm true n a ≡ true) ↔ (
          ((fl.ge a.ransom_note_score (fl.literal 75 2) ≡ true) × (10 ≤ n))
          ⊎ ((fl.ge a.backup_tamper_score (fl.literal 75 2) ≡ true) × (1 ≤ n)))
  unfolding ransom_note_activity backup_tamper severe_file_activity
  alarm_of_trusted n a = (λ h. ground arith, λ h. ground arith)

  alarm_of_other :
      (n : ℕ) (a : Activity F)
      → (alarm false n a ≡ true) ↔ (
          (alarm true n a ≡ true)
          ⊎ ((25 ≤ n)
              × (a.time_window_seconds ≤ 120)
              × (fl.ge a.entropy_change_score (fl.literal 55 2) ≡ true)))
  unfolding ransom_note_activity backup_tamper severe_file_activity
  alarm_of_other n a = (λ h. ground arith, λ h. ground arith)

  alarm_iff :
      (is_trusted : Bool) (Trust : Type 0) (n : ℕ) (a : Activity F)
      → (is_trusted ≡ true) ↔ Trust
      → (alarm is_trusted n a ≡ true) ↔ Raises Trust n a
  alarm_iff true Trust n a trusts = (
    λ h. elim ((alarm_of_trusted n a).0 h) [ inl note ↦ inl note | inr backup ↦ inr (inl backup) ],
    λ h. (alarm_of_trusted n a).1 (elim h [
      | inl note ↦ inl note
      | inr (inl backup) ↦ inr backup
      | inr (inr many) ↦ absurd (many.0 (trusts.0 refl))
    ]),
  )
  alarm_iff false Trust n a trusts = (
    λ h. elim ((alarm_of_other n a).0 h) [
      | inl some_tamper ↦ elim ((alarm_of_trusted n a).0 some_tamper) [
        | inl note ↦ inl note
        | inr backup ↦ inr (inl backup)
      ]
      | inr many ↦ inr (inr (λ trust. cc (trusts.1 trust), many))
    ],
    λ h. (alarm_of_other n a).1 (elim h [
      | inl note ↦ inl ((alarm_of_trusted n a).1 (inl note))
      | inr (inl backup) ↦ inl ((alarm_of_trusted n a).1 (inr backup))
      | inr (inr many) ↦ inr many.1
    ]),
  )

  -- `RansomwareGuard::evaluate_with_config`, on fewer than 2^32 changes of files. A change is
  -- protected if no roots are given or its path, with `/` for `\`, in lower case and without `/` at
  -- the end, is a root read so or goes on after it and a `/`. A signal is raised exactly for a ransom
  -- note score of 0.75 with ten protected changes, for a backup score of 0.75 with one, or for 25
  -- within 120 seconds with an entropy score of 0.55, where the path of the process, read so, is none
  -- of the trusted ones; at least these. Further changes, wherever they are, never silence it.
  pub evaluate_with_config-append :
      (process_id : ℕ) (process_path : Text) (paths more : List Text) (a : Activity F)
      (config : RansomwareGuardConfig)
      → length (paths ++ more) < 4_294_967_296
      → ((path : Text)
          → (is_protected config.protected_roots path ≡ true)
            ↔ Protected config.protected_roots path)
        × ((is_raised (evaluate_with_config fl process_id process_path (paths ++ more) a config)
              ≡ true)
            ↔ Raises
                (Any
                  (λ trusted. normalize_path_text process_path ≡ normalize_path_text trusted)
                  config.trusted_process_allowlist)
                (protected_count config.protected_roots paths
                  + protected_count config.protected_roots more)
                a)
        × (is_raised (evaluate_with_config fl process_id process_path paths a config) ≡ true
            → is_raised (evaluate_with_config fl process_id process_path (paths ++ more) a config)
              ≡ true)
  evaluate_with_config-append process_id process_path paths more a config h =
      let trust = trusted_process process_path config.trusted_process_allowlist in
      let before =
        is_raised-evaluate_with_config process_id process_path paths a config
          (omega (arith, h, length-append paths more)) in
      let after : is_raised
            (evaluate_with_config fl process_id process_path (paths ++ more) a config)
          ≡ alarm trust
              (protected_count config.protected_roots paths
                + protected_count config.protected_roots more)
              a =
        rw (← count_if-append (is_protected config.protected_roots) paths more)
          (is_raised-evaluate_with_config process_id process_path (paths ++ more) a config h) in
      (
        is_protected_iff config.protected_roots,
        rw (after) (
            alarm_iff trust _ _ a
              (trusted_process_iff process_path config.trusted_process_allowlist)),
        rw (before, after)
            (alarm_monotone trust (protected_count config.protected_roots paths)
              (protected_count config.protected_roots more) a),
      )
