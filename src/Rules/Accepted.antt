-- ===== src/Rules/Accepted.antt =====
-- What the validation of rule packs ensures of the matches (rule_compiler.rs, rule_parser.rs,
-- rule_vm.rs).
use zentor.Prelude.{
  ℕ, ◌≤◌, ◌≡◌, refl, Bool, true, false, ◌&&◌, not, Option, none, some, List, [], ◌∷◌, arith, ltb,
  length, All, All-append, All-map, Any, Any-map, Any-All, push_some, inl, inr, if◌then◌else◌,
}
use zentor.Prelude.Int.{pos}
use zentor.Text.{Text}
use zentor.Float.{Float}
use zentor.Outcome.{ok, bind-ok, ok-inj}
use zentor.Verdict.{Verdict, Confidence, confirmed, is_confirmed_threat, is_confirmed}
use zentor.Analysis.{StaticAnalysis}
use zentor.Rules.{NativeRule, RulePack, RuleMatch}
use zentor.Rules.Vm.{rule_weight, match_of, count_holding, evaluate_rule, evaluate}
use zentor.Rules.Validation.{
  is_overconfident, is_broad_rule, validate_rule, validate_rules, load_one, load_packs, is_low,
}

-- A match of weight 100 is a confirmed one; a rule of fewer than two conditions weighs 15.
abbrev pub IsSober : ℕ → Verdict → Confidence → ℕ → Type 0
IsSober conditions verdict confidence weight =
    ((weight ≡ 100) → (is_confirmed_threat verdict ≡ true) × (confidence ≡ confirmed))
    × ((is_confirmed_threat verdict ≡ true) → weight ≡ 100)
    × (conditions ≤ 1 → weight ≡ 15)

rule_weight-IsSober :
    (conditions : ℕ) (verdict : Verdict) (confidence : Confidence)
    → (is_confirmed_threat verdict && not (is_confirmed confidence)) ≡ false
    → (ltb conditions 2 && not (is_low confidence)) ≡ false
    → IsSober conditions verdict confidence (rule_weight verdict confidence)
unfolding rule_weight is_confirmed_threat is_confirmed
rule_weight-IsSober n v c h h' = (λ e. ground arith, λ e. ground arith, λ e. ground arith)

-- What a rule must be to be loaded.
abbrev pub IsAccepted : {F : Type 0} → NativeRule F → Type 0
IsAccepted rule = validate_rule rule ≡ ok tt

module _ {F : Type 0} where
  accepted-not_overconfident :
      (rule : NativeRule F) → IsAccepted rule → is_overconfident rule ≡ false
  unfolding validate_rule
  accepted-not_overconfident rule h = ground arith

  accepted-not_broad : (rule : NativeRule F) → IsAccepted rule → is_broad_rule rule ≡ false
  unfolding validate_rule
  accepted-not_broad rule h = ground arith

  accepted-IsSober :
      (rule : NativeRule F)
      → IsAccepted rule
      → IsSober
          (length rule.conditions)
          rule.verdict
          rule.confidence
          (rule_weight rule.verdict rule.confidence)
  unfolding is_overconfident is_broad_rule
  accepted-IsSober rule h =
      rule_weight-IsSober (length rule.conditions) rule.verdict rule.confidence
        (accepted-not_overconfident rule h) (accepted-not_broad rule h)

  validate_rules-All :
      (rules : List (NativeRule F)) → validate_rules rules ≡ ok tt → All IsAccepted rules
  unfolding validate_rules
  validate_rules-All [] h = tt
  validate_rules-All (rule ∷ rest) h =
      let (u, first, later) = bind-ok (validate_rule rule) _ tt h in
      (first, validate_rules-All rest later)

  load_packs-All :
      (loaded : List (NativeRule F)) (packs : List (RulePack F)) (rules : List (NativeRule F))
      → All IsAccepted loaded
      → load_packs loaded packs ≡ ok rules
      → All IsAccepted rules
  unfolding load_packs load_one
  load_packs-All loaded [] rules h e = rw (← ok-inj e) h
  load_packs-All loaded (pack ∷ rest) rules h e =
      let (more, e1, r1) = bind-ok (load_one loaded pack) _ rules e in
      let (u, valid, added) = bind-ok (validate_rules pack.rules) _ more e1 in
      load_packs-All more rest rules
        (rw (← ok-inj added) (All-append IsAccepted _ _ h (validate_rules-All pack.rules valid))) r1

ltb-false→le : (a b : ℕ) → ltb a b ≡ false → b ≤ a
ltb-false→le a b h = ground arith

module _ {F : Type 0} (fl : Float F) (path : Text) (bytes : List ℕ) (a : StaticAnalysis F) where
  -- The match is that of the rule, enough of whose conditions hold.
  abbrev pub IsMatchOf : RuleMatch → NativeRule F → Type 0
  IsMatchOf m rule =
      (m ≡ match_of rule) × (rule.min_condition_matches ≤ count_holding fl rule path bytes a)

  some_unless :
      (few : Bool) (r m : RuleMatch)
      → (if few then none else some r) ≡ some m
      → (few ≡ false) × (m ≡ r)
  some_unless true r m h = cc
  some_unless false r m h = (refl, cc)

  evaluate_rule-some :
      (rule : NativeRule F) (m : RuleMatch)
      → evaluate_rule fl rule path bytes a ≡ some m
      → IsMatchOf m rule
  unfolding evaluate_rule
  evaluate_rule-some rule m h =
      let (enough, e) = some_unless _ (match_of rule) m h in (e, ltb-false→le _ _ enough)

  push_some-sources :
      (rule : NativeRule F) (rest : List (NativeRule F)) (first : Option RuleMatch)
      (later : List RuleMatch)
      → evaluate_rule fl rule path bytes a ≡ first
      → All (λ m. Any (IsMatchOf m) rest) later
      → All (λ m. Any (IsMatchOf m) (rule ∷ rest)) (push_some first later)
  push_some-sources rule rest none later e h = All-map _ _ (λ m source. inr source) later h
  push_some-sources rule rest (some m) later e h =
      (inl (evaluate_rule-some rule m e), All-map _ _ (λ m source. inr source) later h)

  evaluate-sources :
      (rules : List (NativeRule F))
      → All (λ m. Any (IsMatchOf m) rules) (evaluate fl rules path bytes a)
  unfolding evaluate
  evaluate-sources [] = tt
  evaluate-sources (rule ∷ rest) =
      push_some-sources rule rest (evaluate_rule fl rule path bytes a) _ refl
        (evaluate-sources rest)

  weighed :
      (rule : NativeRule F) (m : RuleMatch)
      → IsAccepted rule
      → m ≡ match_of rule
      → (w : ℕ) × (m.weight ≡ pos w) × IsSober (length rule.conditions) m.verdict m.confidence w
  unfolding match_of
  weighed rule m accepted e =
      rw e (rule_weight rule.verdict rule.confidence, refl, accepted-IsSober rule accepted)

  -- The rule database: when the rule packs are accepted, every match on a file is the match of a
  -- loaded rule, as many of whose conditions hold as the rule asks for. The match weighs 100 exactly
  -- if the rule has a confirmed verdict, whose confidence is confirmed then, and it weighs 15 if the
  -- rule has fewer than two conditions.
  pub evaluate-load_packs :
      (packs : List (RulePack F)) (rules : List (NativeRule F))
      → load_packs [] packs ≡ ok rules
      → All
          (λ m.
            Any
              (λ rule.
                IsMatchOf m rule
                × ((w : ℕ) × (m.weight ≡ pos w)
                    × IsSober (length rule.conditions) m.verdict m.confidence w))
              rules)
          (evaluate fl rules path bytes a)
  evaluate-load_packs packs rules loaded =
      All-map _ _
        (λ m source.
          Any-map _ _ (λ rule h. (h.1, weighed rule m h.0 h.1.0)) rules
            (Any-All _ _ rules (load_packs-All [] packs rules tt loaded) source))
        (evaluate fl rules path bytes a) (evaluate-sources rules)
