-- ===== src/Analysis/Entropy.antt =====
-- analyzers/entropy.rs: the entropy of a run of bytes, over the operations of `f64`.
use zentor.Prelude.{ℕ, zero, suc, List, [], ◌∷◌, ltb, ◌==◌, if◌then◌else◌, length, count_if}
use zentor.Float.{Float}

module _ {F : Type 0} (fl : Float F) where
  open fl use {of_nat, add, mul, div, neg, log2}

  term : F → ℕ → F
  term len count = let p = div (of_nat count) len in mul (neg p) (log2 p)

  -- the sum over the byte values below `suc value` that occur, from 0 upwards
  sum_terms : F → List ℕ → ℕ → F
  unfolding term
  sum_terms len bytes zero = of_nat 0
  sum_terms len bytes (suc value) =
      let below = sum_terms len bytes value in
      let count = count_if (λ b. b == value) bytes in
      if ltb 0 count then add below (term len count) else below

  unfoldable pub entropy : List ℕ → F
  unfolding sum_terms
  entropy [] = of_nat 0
  entropy (b ∷ bytes) = sum_terms (of_nat (length (b ∷ bytes))) (b ∷ bytes) 256

  sum_from : F → List F → F
  sum_from acc [] = acc
  sum_from acc (v ∷ rest) = sum_from (add acc v) rest

  unfoldable pub mean_entropy : List F → F
  unfolding sum_from
  mean_entropy [] = of_nat 0
  mean_entropy (v ∷ values) = div (sum_from (of_nat 0) (v ∷ values)) (of_nat (length (v ∷ values)))
