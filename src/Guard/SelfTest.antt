-- ===== src/Guard/SelfTest.antt =====
-- `run_self_test` of core/zentor_guard_service/src/self_test.rs, as what it does with files: it writes
-- programs below a temporary folder and asks for a verdict on each. The answers of the system and of
-- the verdicts, and the text of the report, are arguments; the folder is removed when the call ends.
use zentor.Prelude.{ℕ, ◌≡◌, refl, ◌⊎◌, inl, inr, Bool, List, [], ◌∷◌, ◌++◌, All, All-append}
use zentor.Text.{Text, text}
use zentor.Guard.{Answer, done, error}
use zentor.Guard.Acting.{Act, wrote, made_folder, removed_folder, Acting, ◌>>=◌, ◌>>◌, lift, act}

-- the writes and the verdicts by their position in the source
pub record SelfTestAnswers : Type 0 where
  pub temp_dir : Answer Text
  pub write : ℕ → Answer (Unit {0})
  pub make_folder : Answer (Unit {0})
  pub hash : ℕ → Answer Text
  pub verdict : ℕ → Answer (Unit {0})
  pub report : Bool × Text

abbrev pub below : Text → Text → Text
below dir name = dir ++ (text "/" ++ name)

unfoldable pub self_test_steps : SelfTestAnswers → Text → Acting (Bool × Text)
self_test_steps t dir = do
  act (wrote (below dir (text "safe-eicar.com"))) (t.write 0)
  lift (t.verdict 0)
  act (wrote (below dir (text "known-bad-test.exe"))) (t.write 1)
  bad_hash ← lift (t.hash 0)
  lift (t.verdict 1)
  act (wrote (below dir (text "unknown-unsigned-test.exe"))) (t.write 2)
  unknown_hash ← lift (t.hash 1)
  lift (t.verdict 2)
  lift (t.verdict 3)
  act (wrote (below dir (text "known-good-test.exe"))) (t.write 3)
  good_hash ← lift (t.hash 2)
  lift (t.verdict 4)
  act (made_folder (below dir (text "Downloads"))) t.make_folder
  act (wrote (below dir (text "Downloads/vpn-installer.exe"))) (t.write 4)
  lift (t.verdict 5)
  lift (done t.report)

-- the temporary folder goes away whether or not the steps succeed
unfoldable pub within_folder : Text → Acting (Bool × Text) → Acting (Bool × Text)
within_folder dir steps = (made_folder dir ∷ (steps.0 ++ removed_folder dir ∷ []), steps.1)

unfoldable pub run_self_test : SelfTestAnswers → Acting (Bool × Text)
unfolding within_folder self_test_steps
run_self_test t = lift t.temp_dir >>= λ dir. within_folder dir (self_test_steps t dir)

-- the act is on a temporary folder or on a name in it
abbrev pub IsTemporary : Text → Act → Type 0
IsTemporary dir a =
    (a ≡ made_folder dir)
    ⊎ (a ≡ removed_folder dir)
    ⊎ ((name : Text) × ((a ≡ wrote (below dir name)) ⊎ (a ≡ made_folder (below dir name))))

module _ (dir : Text) where
  bind-IsTemporary :
      {A : Type 0} {B : Type 0} (m : Acting A) (f : A → Acting B)
      → All (IsTemporary dir) m.0
      → ((x : A) → All (IsTemporary dir) (f x).0)
      → All (IsTemporary dir) (m >>= f).0
  bind-IsTemporary (acts, done x) f h k = All-append (IsTemporary dir) acts (f x).0 h (k x)
  bind-IsTemporary (acts, error message) f h k = h

  wrote-IsTemporary :
      (name : Text) (answer : Answer (Unit {0}))
      → All (IsTemporary dir) (act (wrote (below dir name)) answer).0
  wrote-IsTemporary name (done u) = (inr (inr (name, inl refl)), tt)
  wrote-IsTemporary name (error message) = tt

  made_folder-IsTemporary :
      (name : Text) (answer : Answer (Unit {0}))
      → All (IsTemporary dir) (act (made_folder (below dir name)) answer).0
  made_folder-IsTemporary name (done u) = (inr (inr (name, inr refl)), tt)
  made_folder-IsTemporary name (error message) = tt

  steps-IsTemporary : (t : SelfTestAnswers) → All (IsTemporary dir) (self_test_steps t dir).0
  unfolding self_test_steps
  steps-IsTemporary t = bind-IsTemporary _ _ (wrote-IsTemporary _ (t.write 0)) λ u.
      bind-IsTemporary (lift (t.verdict 0)) _ tt λ u.
        bind-IsTemporary _ _ (wrote-IsTemporary _ (t.write 1)) λ u.
          bind-IsTemporary (lift (t.hash 0)) _ tt λ h.
            bind-IsTemporary (lift (t.verdict 1)) _ tt λ u.
              bind-IsTemporary _ _ (wrote-IsTemporary _ (t.write 2)) λ u.
                bind-IsTemporary (lift (t.hash 1)) _ tt λ h.
                  bind-IsTemporary (lift (t.verdict 2)) _ tt λ u.
                    bind-IsTemporary (lift (t.verdict 3)) _ tt λ u.
                      bind-IsTemporary _ _ (wrote-IsTemporary _ (t.write 3)) λ u.
                        bind-IsTemporary (lift (t.hash 2)) _ tt λ h.
                          bind-IsTemporary (lift (t.verdict 4)) _ tt λ u.
                            bind-IsTemporary _ _ (made_folder-IsTemporary _ t.make_folder) λ u.
                              bind-IsTemporary _ _ (wrote-IsTemporary _ (t.write 4))
                                λ u. bind-IsTemporary (lift (t.verdict 5)) _ tt λ u. tt

  within_folder-IsTemporary :
      (t : SelfTestAnswers) → All (IsTemporary dir) (within_folder dir (self_test_steps t dir)).0
  unfolding within_folder
  within_folder-IsTemporary t = (
    inl refl,
    All-append (IsTemporary dir) (self_test_steps t dir).0 (removed_folder dir ∷ [])
        (steps-IsTemporary t) (inr (inl refl), tt),
  )

-- in the folder that the system gave
abbrev pub OnlyTemporary : SelfTestAnswers → Act → Type 0
OnlyTemporary t a = (dir : Text) × (t.temp_dir ≡ done dir) × IsTemporary dir a

only_temporary :
    (t : SelfTestAnswers) (dir : Text) (acts : List Act)
    → t.temp_dir ≡ done dir
    → All (IsTemporary dir) acts
    → All (OnlyTemporary t) acts
only_temporary t dir [] e h = tt
only_temporary t dir (a ∷ acts) e h = ((dir, e, h.0), only_temporary t dir acts e h.1)

in_folder-OnlyTemporary :
    (t : SelfTestAnswers) (answer : Answer Text)
    → t.temp_dir ≡ answer
    → All (OnlyTemporary t) (lift answer >>= λ dir. within_folder dir (self_test_steps t dir)).0
in_folder-OnlyTemporary t (done dir) e = only_temporary t dir _ e (within_folder-IsTemporary dir t)
in_folder-OnlyTemporary t (error message) e = tt

-- The acts are on the temporary folder alone.
pub run_self_test-OnlyTemporary : (t : SelfTestAnswers) → All (OnlyTemporary t) (run_self_test t).0
unfolding run_self_test
run_self_test-OnlyTemporary t = in_folder-OnlyTemporary t t.temp_dir refl
