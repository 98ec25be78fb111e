-- ===== src/Trust/Stores.antt =====
-- The stores of hashes as sets that ignore the case of the letters (trust/known_good.rs,
-- trust/known_bad.rs).
use Prim.Native.Nat.{compare, Ordering}
use zentor.Prelude.{ℕ, ◌≡◌, refl, ◌||◌, List, [], ◌∷◌, any, arith}
use zentor.Text.{Text, text_eq, to_ascii_lowercase, eq_ignore_ascii_case}
use zentor.Path.{text_compare}
use zentor.Trust.{insert_hash, store_of, store_contains, HashStore}

compare_step :
    (o : Ordering) (rest : Ordering)
    → elim o [ Ordering.lt ↦ Ordering.lt | Ordering.eq ↦ rest | Ordering.gt ↦ Ordering.gt ]
      ≡ Ordering.eq
    → (o ≡ Ordering.eq) × (rest ≡ Ordering.eq)
compare_step Ordering.lt rest h = cc
compare_step Ordering.eq rest h = (refl, h)
compare_step Ordering.gt rest h = cc

compare-same : (a b : ℕ) → compare a b ≡ Ordering.eq → a ≡ b
compare-same a b h = ground arith

text_compare-same : (s t : Text) → text_compare s t ≡ Ordering.eq → s ≡ t
unfolding text_compare
text_compare-same [] [] h = refl
text_compare-same [] (b ∷ t) h = cc
text_compare-same (a ∷ s) [] h = cc
text_compare-same (a ∷ s) (b ∷ t) h =
    let (first, later) = compare_step (compare a b) (text_compare s t) h in
    cc (compare-same a b first, text_compare-same s t later)

insert_step :
    (x h k : Text) (rest later : HashStore) (o : Ordering)
    → (o ≡ Ordering.eq → h ≡ k)
    → any (text_eq x) later ≡ (text_eq x h || any (text_eq x) rest)
    → any
        (text_eq x)
        (elim o [ Ordering.lt ↦ h ∷ k ∷ rest | Ordering.eq ↦ k ∷ rest | Ordering.gt ↦ k ∷ later ])
      ≡ (text_eq x h || (text_eq x k || any (text_eq x) rest))
insert_step x h k rest later Ordering.lt same ih = refl
insert_step x h k rest later Ordering.eq same ih = rw (same refl) (ground arith)
insert_step x h k rest later Ordering.gt same ih = ground arith

any-insert_hash :
    (x h : Text) (s : HashStore)
    → any (text_eq x) (insert_hash h s) ≡ (text_eq x h || any (text_eq x) s)
unfolding insert_hash
any-insert_hash x h [] = refl
any-insert_hash x h (k ∷ rest) =
    insert_step x h k rest (insert_hash h rest) (text_compare h k) (text_compare-same h k)
      (any-insert_hash x h rest)

text_eq_sym : (s t : Text) → text_eq s t ≡ text_eq t s
unfolding text_eq
text_eq_sym [] [] = refl
text_eq_sym [] (b ∷ t) = refl
text_eq_sym (a ∷ s) [] = refl
text_eq_sym (a ∷ s) (b ∷ t) = ground (arith, text_eq_sym s t)

-- `KnownGoodStore` and `KnownBadStore`: a hash is in the store exactly when some hash that was read
-- equals it but for the case of its letters.
store_contains-store_of :
    (hashes : List Text) (sha256 : Text)
    → store_contains (store_of hashes) sha256
      ≡ any (λ hash. eq_ignore_ascii_case hash sha256) hashes
unfolding store_contains store_of eq_ignore_ascii_case
store_contains-store_of [] sha256 = refl
store_contains-store_of (h ∷ rest) sha256 = rw (
  any-insert_hash (to_ascii_lowercase sha256) (to_ascii_lowercase h) (store_of rest),
  text_eq_sym (to_ascii_lowercase sha256) (to_ascii_lowercase h),
  store_contains-store_of rest sha256,
)
