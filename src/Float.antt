-- ===== src/Float.antt =====
-- `f64`: the operations that the sources use, as a parameter of the model. Nothing is assumed of
-- them; a component that needs a law of the arithmetic states it as a hypothesis.
use zentor.Prelude.{ℕ, Bool}
use zentor.Text.{Text}

pub record Float (F : Type 0) : Type 0 where
  -- `digits` / 10 ^ `decimals`, a literal
  pub literal : ℕ → ℕ → F
  pub of_nat : ℕ → F
  pub add : F → F → F
  pub mul : F → F → F
  pub div : F → F → F
  pub neg : F → F
  pub log2 : F → F
  pub log10 : F → F
  pub exp : F → F
  pub max : F → F → F
  -- `a > b`, `a >= b`
  pub gt : F → F → Bool
  pub ge : F → F → Bool
  -- `format!("{:.1}", a)`
  pub one_decimal : F → Text
