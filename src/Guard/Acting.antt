-- ===== src/Guard/Acting.antt =====
-- A call of the guard that acts on processes and files: what it did, in order, and how it ended.
use zentor.Prelude.{ℕ, List, [], ◌∷◌, ◌++◌}
use zentor.Text.{Text}
use zentor.Guard.{Answer, done, error, GuardQuarantineRecord}

pub data Act : Type 0 where
  stopped : ℕ → Act
  moved : Text → Text → Act
  stripped : Text → Act
  recorded : Text → GuardQuarantineRecord → Act
  wrote made_folder removed_folder : Text → Act

abbrev pub Acting : Type 0 → Type 0
Acting A = List Act × Answer A

infixl 5 ◌>>=◌ ◌>>◌
abbrev pub ◌>>=◌ : {A : Type 0} {B : Type 0} → Acting A → (A → Acting B) → Acting B
(acts, done a) >>= f = (acts ++ (f a).0, (f a).1)
(acts, error message) >>= f = (acts, error message)

abbrev pub ◌>>◌ : {B : Type 0} → Acting (Unit {0}) → Acting B → Acting B
m >> k = m >>= λ u. k

abbrev pub lift : {A : Type 0} → Answer A → Acting A
lift answer = ([], answer)

-- an act that happens if the system answers so
abbrev pub act : Act → Answer (Unit {0}) → Acting (Unit {0})
act a (done u) = (a ∷ [], done tt)
act a (error message) = ([], error message)
