-- ===== src/Quarantine/Act.antt =====
-- A call that changes the disk and may fail: what it wrote before an error stays written.
use zentor.Prelude.{◌≡◌, refl, ap}
use zentor.Outcome.{Outcome, ok, fail, panic}
use zentor.Quarantine.{Disk}

abbrev pub Act : Type 0 → Type 0
Act A = Disk → Disk × Outcome A

abbrev pub then_on : {A : Type 0} {B : Type 0} → Disk × Outcome A → (A → Act B) → Disk × Outcome B
then_on (disk, ok a) f = f a disk
then_on (disk, fail message) f = (disk, fail message)
then_on (disk, panic) f = (disk, panic)

infixl 5 ◌>>=◌ ◌>>◌
abbrev pub ◌>>=◌ : {A : Type 0} {B : Type 0} → Act A → (A → Act B) → Act B
m >>= f = λ disk. then_on (m disk) f

abbrev pub ◌>>◌ : {B : Type 0} → Act (Unit {0}) → Act B → Act B
m >> k = m >>= λ u. k

-- a call that does not change the disk
abbrev pub lift : {A : Type 0} → Outcome A → Act A
lift o disk = (disk, o)

then_on-ok :
    {A : Type 0} {B : Type 0} (d : Disk × Outcome A) (f : A → Act B) (disk' : Disk) (b : B)
    → then_on d f ≡ (disk', ok b)
    → (mid : Disk) × (a : A) × (d ≡ (mid, ok a)) × (f a mid ≡ (disk', ok b))
then_on-ok (mid, ok a) f disk' b h = (mid, a, refl, h)
then_on-ok (mid, fail message) f disk' b h = let e = ap (λ p. p.1) h in cc e
then_on-ok (mid, panic) f disk' b h = let e = ap (λ p. p.1) h in cc e

-- what is read from the disk
abbrev pub asks : {A : Type 0} → (Disk → Outcome A) → Act A
asks f disk = (disk, f disk)

-- A chain that ended with a value had a value at every step.
pub act-ok :
    {A : Type 0} {B : Type 0} (m : Act A) (f : A → Act B) (disk disk' : Disk) (b : B)
    → (m >>= f) disk ≡ (disk', ok b)
    → (mid : Disk) × (a : A) × (m disk ≡ (mid, ok a)) × (f a mid ≡ (disk', ok b))
act-ok m f disk disk' b h = then_on-ok (m disk) f disk' b h

pub asks-ok :
    {A : Type 0} {B : Type 0} (o : Outcome A) (f : A → Act B) (disk disk' : Disk) (b : B)
    → then_on (disk, o) f ≡ (disk', ok b)
    → (a : A) × (o ≡ ok a) × (f a disk ≡ (disk', ok b))
asks-ok (ok a) f disk disk' b h = (a, refl, h)
asks-ok (fail message) f disk disk' b h = let e = ap (λ p. p.1) h in cc e
asks-ok panic f disk disk' b h = let e = ap (λ p. p.1) h in cc e
