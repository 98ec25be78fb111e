-- ===== src/Engine/Move.antt =====
-- core/zentor_native_engine/src/quarantine/quarantine_store.rs: the move of a file into the engine's
-- quarantine folder. What the file system answers, the hashes of the moved bytes included, the new
-- identifier and the time are arguments.
use zentor.Prelude.{ℕ, ◌≡◌, refl, ◌⊎◌, inl, inr, Bool, true, false, Option, none, some, ◌++◌}
use zentor.Text.{Text, text, text_eq, drop_prefix, to_ascii_lowercase}
use zentor.Text.Space.{trim}
use zentor.Outcome.{Outcome, ok, fail, panic, ensure, ◌>>=◌, ◌>>◌}

pub record QuarantineRecord : Type 0 where
  pub quarantine_id : Text
  pub original_path : Text
  pub quarantine_path : Text
  pub sha256 : Text
  pub file_size_bytes : ℕ
  pub detection_name : Text
  pub engine : Text
  pub quarantined_at : ℕ
  pub blocked_before_execution : Bool
  pub action_taken : Text

-- what the calls answer: an error, or nothing more than that they worked
abbrev pub Answered : Type 0
Answered = Option Text

-- `in_root` joins a name to the folder of the store; a hash is read or there is an error
pub record MoveAnswers : Type 0 where
  pub in_root : Text → Text
  pub new_id : Text
  pub now : ℕ
  pub create_dir_all : Answered
  pub length : Option ℕ
  pub rename : Answered
  pub copy : Answered
  pub copied_sha256 : Text ⊎ Text
  pub remove_source : Answered
  pub moved_sha256 : Text ⊎ Text
  pub write_record : Answered

abbrev worked : Answered → Outcome (Unit {0})
worked none = ok tt
worked (some message) = fail message

abbrev hash_read : Text ⊎ Text → Outcome Text
hash_read (inl message) = fail message
hash_read (inr hash) = ok hash

-- `strip_prefix("sha256:")`, with the whole where there is no prefix
abbrev without_label : Text → Option Text → Text
without_label whole none = whole
without_label whole (some rest) = rest

unfoldable pub normalize_hash : Text → Text
normalize_hash value =
    to_ascii_lowercase (without_label (trim value) (drop_prefix (trim value) (text "sha256:")))

-- The removal of a copy that is wrong is tried, and its answer is dropped.
unfoldable pub copy_then_remove_verified : MoveAnswers → Text → Outcome (Unit {0})
unfolding normalize_hash
copy_then_remove_verified move expected_sha256 = do
  worked move.copy
  hash ← hash_read move.copied_sha256
  ensure (text_eq hash (normalize_hash expected_sha256))
      (text "hash verification failed before deleting original quarantine source")
  worked move.remove_source

-- `rename(…).or_else(|_| copy_then_remove_verified(…))`
abbrev or_copied : Answered → Outcome (Unit {0}) → Outcome (Unit {0})
or_copied none copied = ok tt
or_copied (some message) copied = copied

-- `with_context`, whose text is the one that is shown
abbrev with_context : Text → Outcome (Unit {0}) → Outcome (Unit {0})
with_context message (ok u) = ok u
with_context message (fail cause) = fail message
with_context message panic = panic

abbrev length_or_zero : Option ℕ → ℕ
length_or_zero none = 0
length_or_zero (some n) = n

unfoldable pub quarantine_file : MoveAnswers → Text → Text → Text → Bool → Outcome QuarantineRecord
unfolding copy_then_remove_verified normalize_hash
quarantine_file move path sha256 detection_name blocked_before_execution = do
  worked move.create_dir_all
  with_context (text "failed to quarantine " ++ path)
      (or_copied move.rename (copy_then_remove_verified move sha256))
  hash ← hash_read move.moved_sha256
  ensure (text_eq hash (normalize_hash sha256)) (
      text "quarantine hash verification failed for "
      ++ move.in_root (move.new_id ++ text ".avoraxq"))
  worked move.write_record
  ok (record {
    quarantine_id = move.new_id;
    original_path = path;
    quarantine_path = move.in_root (move.new_id ++ text ".avoraxq");
    sha256 = normalize_hash sha256;
    file_size_bytes = length_or_zero move.length;
    detection_name = detection_name;
    engine = text "Avorax Native Engine";
    quarantined_at = move.now;
    blocked_before_execution = blocked_before_execution;
    action_taken = text "quarantined";
  })

-- a call that ends without a panic
abbrev pub Settles : {A : Type 0} → Outcome A → Type 0
Settles {A} m = ((a : A) × (m ≡ ok a)) ⊎ ((message : Text) × (m ≡ fail message))

bind-Settles :
    {A : Type 0} {B : Type 0} (m : Outcome A) (f : A → Outcome B)
    → Settles m
    → ((a : A) → Settles (f a))
    → Settles (m >>= f)
bind-Settles m f (inl (a, e)) h = rw e (h a)
bind-Settles m f (inr (message, e)) h = inr (message, rw e refl)

worked-Settles : (answer : Answered) → Settles (worked answer)
worked-Settles none = inl (tt, refl)
worked-Settles (some message) = inr (message, refl)

hash_read-Settles : (answer : Text ⊎ Text) → Settles (hash_read answer)
hash_read-Settles (inl message) = inr (message, refl)
hash_read-Settles (inr hash) = inl (hash, refl)

ensure-Settles : (test : Bool) (message : Text) → Settles (ensure test message)
ensure-Settles true message = inl (tt, refl)
ensure-Settles false message = inr (message, refl)

copy_then_remove_verified-Settles :
    (move : MoveAnswers) (sha256 : Text) → Settles (copy_then_remove_verified move sha256)
unfolding copy_then_remove_verified
copy_then_remove_verified-Settles move sha256 = bind-Settles _ _ (worked-Settles move.copy) λ u.
    bind-Settles _ _ (hash_read-Settles move.copied_sha256)
      λ hash. bind-Settles _ _ (ensure-Settles _ _) λ u. worked-Settles move.remove_source

with_context-Settles :
    (message : Text) (answer : Answered) (copied : Outcome (Unit {0}))
    → Settles copied
    → Settles (with_context message (or_copied answer copied))
with_context-Settles message none copied h = inl (tt, refl)
with_context-Settles message (some cause) copied (inl (u, e)) = inl (u, rw e refl)
with_context-Settles message (some cause) copied (inr (later, e)) = inr (message, rw e refl)

-- `quarantine_file` gives a record or an error.
pub quarantine_file-Settles :
    (move : MoveAnswers) (path sha256 detection_name : Text) (blocked : Bool)
    → Settles (quarantine_file move path sha256 detection_name blocked)
unfolding quarantine_file
quarantine_file-Settles move path sha256 detection_name blocked =
    bind-Settles _ _ (worked-Settles move.create_dir_all) λ u.
      bind-Settles _ _
        (with_context-Settles _ move.rename _ (copy_then_remove_verified-Settles move sha256))
        λ u. bind-Settles _ _ (hash_read-Settles move.moved_sha256) λ hash.
          bind-Settles _ _ (ensure-Settles _ _)
            λ u. bind-Settles _ _ (worked-Settles move.write_record) λ u. inl (_, refl)
