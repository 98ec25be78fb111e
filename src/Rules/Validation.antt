-- ===== src/Rules/Validation.antt =====
-- rules/rule_compiler.rs, and the loading of packs in rule_parser.rs.
use zentor.Prelude.{
  Bool, true, false, ◌&&◌, ◌||◌, not, List, [], ◌∷◌, ◌++◌, ltb, length, if◌then◌else◌,
}
use zentor.Text.{text}
use zentor.Text.Space.{is_blank}
use zentor.Outcome.{Outcome, ok, fail, ◌>>=◌, ◌>>◌}
use zentor.Verdict.{Confidence, low, is_confirmed, is_confirmed_threat}
use zentor.Rules.{NativeRule, RulePack}

abbrev is_none : {A : Type 0} → List A → Bool
is_none [] = true
is_none (x ∷ xs) = false

abbrev pub is_low : Confidence → Bool
is_low low = true
is_low _ = false

module _ {F : Type 0} where
  unfoldable pub lacks_metadata : NativeRule F → Bool
  lacks_metadata rule =
      is_blank rule.id
      || is_blank rule.name
      || is_blank rule.description
      || is_blank rule.false_positive_notes
      || is_none rule.conditions

  unfoldable pub is_overconfident : NativeRule F → Bool
  is_overconfident rule = is_confirmed_threat rule.verdict && not (is_confirmed rule.confidence)

  unfoldable pub is_broad_rule : NativeRule F → Bool
  is_broad_rule rule = ltb (length rule.conditions) 2 && not (is_low rule.confidence)

  unfoldable pub validate_rule : NativeRule F → Outcome (Unit {0})
  unfolding lacks_metadata is_overconfident is_broad_rule
  validate_rule rule =
      if lacks_metadata rule
      then fail (text "rule " ++ (rule.id ++ text " is missing required metadata"))
      else if is_overconfident rule
      then fail
          (text "rule " ++ (rule.id ++ text " cannot confirm malware without confirmed confidence"))
      else if is_broad_rule rule
      then fail (text "broad rule " ++ (rule.id ++ text " must be low confidence"))
      else ok tt

  unfoldable pub validate_rules : List (NativeRule F) → Outcome (Unit {0})
  unfolding validate_rule
  validate_rules [] = ok tt
  validate_rules (rule ∷ rest) = validate_rule rule >> validate_rules rest

  -- `RuleDb::load_one` and the loop of `load_pack`, over the packs as they were read and parsed: the
  -- first one that fails ends the loading
  unfoldable pub load_one : List (NativeRule F) → RulePack F → Outcome (List (NativeRule F))
  load_one rules pack = do validate_rules pack.rules; ok (rules ++ pack.rules)

  unfoldable pub load_packs :
      List (NativeRule F) → List (RulePack F) → Outcome (List (NativeRule F))
  load_packs rules [] = ok rules
  load_packs rules (pack ∷ rest) = load_one rules pack >>= λ loaded. load_packs loaded rest
