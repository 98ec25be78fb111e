-- ===== src/Outcome.antt =====
-- How a call ends: with a value, with an `Err`, or in a panic; and the reads of a slice that panic
-- out of range.
use zentor.Prelude.{
  ℕ, ◌+◌, ◌-◌, ◌*◌, ◌≤◌, ◌<◌, ◌≡◌, refl, Bool, true, false, ◌&&◌, none, some, List, leb,
  if◌then◌else◌, length, get_elem?, get_elem?-lt, take, drop, arith,
}
use zentor.Text.{Text}

pub data Outcome {ℓ} (A : Type ℓ) : Type ℓ where
  ok : A → Outcome A
  fail : Text → Outcome A
  panic : Outcome A

infixl 5 ◌>>=◌ ◌>>◌
abbrev pub ◌>>=◌ {ℓ κ} : {A : Type ℓ} {B : Type κ} → Outcome A → (A → Outcome B) → Outcome B
ok a >>= f = f a
fail m >>= f = fail m
panic >>= f = panic

abbrev pub ◌>>◌ {ℓ} : {B : Type ℓ} → Outcome (Unit {0}) → Outcome B → Outcome B
m >> k = m >>= λ _. k

-- `ensure!(test, message)`
abbrev pub ensure : Bool → Text → Outcome (Unit {0})
ensure test message = if test then ok tt else fail message

-- `if test { step?; }`
abbrev pub when : Bool → Outcome (Unit {0}) → Outcome (Unit {0})
when test step = if test then step else ok tt

-- `bytes[i]`
unfoldable pub index : List ℕ → ℕ → Outcome ℕ
index bytes i = elim (get_elem? bytes i) [ none ↦ panic | some b ↦ ok b ]

-- `&bytes[lo..hi]`
unfoldable pub slice : List ℕ → ℕ → ℕ → Outcome (List ℕ)
slice bytes lo hi =
    if leb lo hi && leb hi (length bytes) then ok (take (hi - lo) (drop lo bytes)) else panic

-- `u16::from_le_bytes([bytes[i], bytes[i + 1]])`
unfoldable pub read_u16 : List ℕ → ℕ → Outcome ℕ
read_u16 bytes i = do a ← index bytes i; b ← index bytes (i + 1); ok (a + 256 * b)

-- `u32::from_le_bytes` of four bytes
unfoldable pub read_u32 : List ℕ → ℕ → Outcome ℕ
read_u32 bytes i = do
  low ← read_u16 bytes i
  high ← read_u16 bytes (i + 2)
  ok (low + 65_536 * high)

pub index_in_range : (bytes : List ℕ) (i : ℕ) → i < length bytes → (b : ℕ) × (index bytes i ≡ ok b)
unfolding index
index_in_range bytes i h = let (b, e) = get_elem?-lt bytes i h in (b, rw (e, index))

pub slice_in_range :
    (bytes : List ℕ) (lo hi : ℕ)
    → lo ≤ hi
    → hi ≤ length bytes
    → slice bytes lo hi ≡ ok (take (hi - lo) (drop lo bytes))
unfolding slice
slice_in_range bytes lo hi h h' = ground arith

pub read_u16_in_range :
    (bytes : List ℕ) (i : ℕ) → i + 1 < length bytes → (n : ℕ) × (read_u16 bytes i ≡ ok n)
unfolding read_u16
read_u16_in_range bytes i h =
    let (a, e) = index_in_range bytes i (omega arith) in
    let (b, e') = index_in_range bytes (i + 1) h in (a + 256 * b, rw (e, e'))

pub read_u32_in_range :
    (bytes : List ℕ) (i : ℕ) → i + 3 < length bytes → (n : ℕ) × (read_u32 bytes i ≡ ok n)
unfolding read_u32
read_u32_in_range bytes i h =
    let (low, e) = read_u16_in_range bytes i (omega arith) in
    let (high, e') = read_u16_in_range bytes (i + 2) (omega arith) in
    (low + 65_536 * high, rw (e, e'))

-- A chain that gave a value had a value at every step.
pub bind-ok {ℓ κ} :
    {A : Type ℓ} {B : Type κ} (m : Outcome A) (f : A → Outcome B) (b : B)
    → (m >>= f) ≡ ok b
    → (a : A) × (m ≡ ok a) × (f a ≡ ok b)
bind-ok (ok a) f b h = (a, refl, h)
bind-ok (fail message) f b h = cc
bind-ok panic f b h = cc

pub ok-inj {ℓ} : {A : Type ℓ} {a b : A} → ok a ≡ ok b → a ≡ b
ok-inj h = cc

pub ensure-ok : (b : Bool) (message : Text) → ensure b message ≡ ok tt → b ≡ true
ensure-ok true message h = refl
ensure-ok false message h = cc
