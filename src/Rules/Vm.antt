-- ===== src/Rules/Vm.antt =====
-- rules/rule_vm.rs: whether a rule matches a file; and `RuleDb` of rule_parser.rs, its evaluation.
use zentor.Prelude.{
  ℕ, ◌+◌, Bool, false, ◌&&◌, Option, none, some, List, [], ◌∷◌, ◌++◌, leb, ltb, u32, map_or,
  count_if, filter_map, if◌then◌else◌,
}
use zentor.Prelude.Int.{pos}
use zentor.Text.{Text, text, text_eq, to_ascii_lowercase, contains, contains_any}
use zentor.Text.Utf8.{from_utf8_lossy, encode_utf16_le}
use zentor.Float.{Float}
use zentor.Verdict.{
  Verdict, confirmed_malware, probable_malware, suspicious, Confidence, high, medium, confirmed,
}
use zentor.Analysis.{StaticAnalysis, ImportCategories}
use zentor.Analysis.Kind.{file_type_name}
use zentor.Rules.{
  NativeRule, RuleMatch, RuleCondition, file_type, contains_ascii, contains_utf16,
  entropy_greater_than, suspicious_imports_at_least, encoded_command, downloader_and_execution,
  archive_contains_executable, archive_suspicious_nested_name_at_least, path_contains,
  script_obfuscation_at_least, script_persistence_at_least, script_security_tamper_at_least,
  embedded_urls_at_least, suspicious_strings_at_least, pe_import_category_at_least,
  ransom_note_text, miner_pool_string, credential_access_string, adware_pup_string,
}

-- the categories that a rule can name; another name has no import
unfoldable pub import_category : Text → ImportCategories → ℕ
import_category category i =
    if text_eq category (text "process_injection")
    then i.process_injection
    else if text_eq category (text "credential_access")
    then i.credential_access
    else if text_eq category (text "persistence")
    then i.persistence
    else if text_eq category (text "network")
    then i.network
    else if text_eq category (text "crypto")
    then i.crypto
    else if text_eq category (text "process_manipulation")
    then i.process_manipulation
    else if text_eq category (text "service_control")
    then i.service_control
    else if text_eq category (text "registry_autorun")
    then i.registry_autorun
    else if text_eq category (text "anti_debugging")
    then i.anti_debugging
    else 0

-- `process_injection + credential_access + persistence + network`, in `u32`
unfoldable pub import_total : ImportCategories → ℕ
import_total i = u32 (i.process_injection + i.credential_access + i.persistence + i.network)

unfoldable pub ransom_note_terms : List Text
ransom_note_terms =
    text "your files have been encrypted"
    ∷ text "recover your files"
    ∷ text "decrypt your files"
    ∷ text "ransom note"
    ∷ []

unfoldable pub miner_pool_terms : List Text
miner_pool_terms =
    text "stratum+tcp" ∷ text "xmrpool" ∷ text "xmrig" ∷ text "mining pool" ∷ text "monero" ∷ []

unfoldable pub credential_terms : List Text
credential_terms =
    text "login data"
    ∷ text "cookies.sqlite"
    ∷ text "local state"
    ∷ text "wallet.dat"
    ∷ text "token grab"
    ∷ text "browser credentials"
    ∷ []

unfoldable pub adware_terms : List Text
adware_terms =
    text "silentinstall"
    ∷ text "browser extension install"
    ∷ text "search hijack"
    ∷ text "offer bundle"
    ∷ text "unwanted toolbar"
    ∷ []

-- `!encoded.is_empty() && bytes.windows(encoded.len()).any(|window| window == encoded)`
unfoldable pub contains_encoded : List ℕ → Text → Bool
unfolding contains
contains_encoded bytes [] = false
contains_encoded bytes (b ∷ encoded) = contains bytes (b ∷ encoded)

module _ {F : Type 0} (fl : Float F) where
  open fl use {gt}

  -- one condition, on the file's text and path in lower case, its bytes and its analysis
  unfoldable pub holds : Text → Text → List ℕ → StaticAnalysis F → RuleCondition F → Bool
  unfolding import_category import_total contains_encoded
  holds content path bytes a (file_type equals) = text_eq (file_type_name a.file_type) equals
  holds content path bytes a (contains_ascii value) = contains content (to_ascii_lowercase value)
  holds content path bytes a (contains_utf16 value) = contains_encoded bytes (encode_utf16_le value)
  holds content path bytes a (entropy_greater_than value) = gt a.entropy_max value
  holds content path bytes a (suspicious_imports_at_least value) =
      leb value (map_or 0 (λ pe. import_total pe.suspicious_imports) a.pe)
  holds content path bytes a encoded_command =
      map_or false (λ script. script.encoded_command) a.script
  holds content path bytes a downloader_and_execution =
      map_or false (λ script. ltb 0 script.downloader_patterns && ltb 0 script.execution_patterns)
        a.script
  holds content path bytes a archive_contains_executable =
      map_or false (λ archive. archive.contains_executable) a.archive
  holds content path bytes a (archive_suspicious_nested_name_at_least value) =
      map_or false (λ archive. leb value archive.suspicious_nested_name_count) a.archive
  holds content path bytes a (path_contains value) = contains path (to_ascii_lowercase value)
  holds content path bytes a (script_obfuscation_at_least value) =
      map_or false (λ script. leb value script.obfuscation_score) a.script
  holds content path bytes a (script_persistence_at_least value) =
      map_or false (λ script. leb value script.persistence_patterns) a.script
  holds content path bytes a (script_security_tamper_at_least value) =
      map_or false (λ script. leb value script.security_tamper_indicators) a.script
  holds content path bytes a (embedded_urls_at_least value) =
      leb value a.string_indicators.embedded_url_count
  holds content path bytes a (suspicious_strings_at_least value) =
      leb value a.string_indicators.suspicious_string_count
  holds content path bytes a (pe_import_category_at_least category value) =
      map_or false (λ pe. leb value (import_category category pe.suspicious_imports)) a.pe
  holds content path bytes a ransom_note_text = contains_any content ransom_note_terms
  holds content path bytes a miner_pool_string = contains_any content miner_pool_terms
  holds content path bytes a credential_access_string = contains_any content credential_terms
  holds content path bytes a adware_pup_string = contains_any content adware_terms

  -- how many of the conditions hold
  unfoldable pub count_holding : NativeRule F → Text → List ℕ → StaticAnalysis F → ℕ
  unfolding holds
  count_holding rule path bytes analysis =
      count_if
        (holds (to_ascii_lowercase (from_utf8_lossy bytes)) (to_ascii_lowercase path) bytes
          analysis)
        rule.conditions

-- the weight of a match, by the verdict and the confidence of the rule
abbrev likely_weight : Confidence → ℕ
likely_weight high = 40
likely_weight medium = 40
likely_weight _ = 15

abbrev high_weight : Confidence → ℕ
high_weight high = 65
high_weight _ = 15

abbrev confirmed_weight : Confidence → ℕ
confirmed_weight confirmed = 100
confirmed_weight _ = 15

unfoldable pub rule_weight : Verdict → Confidence → ℕ
rule_weight confirmed_malware confidence = confirmed_weight confidence
rule_weight Verdict.test_threat confidence = confirmed_weight confidence
rule_weight probable_malware confidence = high_weight confidence
rule_weight suspicious confidence = likely_weight confidence
rule_weight _ confidence = 15

unfoldable pub match_of : {F : Type 0} → NativeRule F → RuleMatch
unfolding rule_weight
match_of rule = record {
  rule_id = rule.id;
  name = rule.name;
  category = rule.category;
  confidence = rule.confidence;
  verdict = rule.verdict;
  reason = text "Avorax Native Rule matched: " ++ rule.name;
  weight = pos (rule_weight rule.verdict rule.confidence);
}

module _ {F : Type 0} (fl : Float F) where
  unfoldable pub evaluate_rule : NativeRule F → Text → List ℕ → StaticAnalysis F → Option RuleMatch
  unfolding count_holding match_of
  evaluate_rule rule path bytes analysis =
      if ltb (count_holding fl rule path bytes analysis) rule.min_condition_matches
      then none
      else some (match_of rule)

  -- `RuleDb::evaluate`, over the rules that were loaded
  unfoldable pub evaluate : List (NativeRule F) → Text → List ℕ → StaticAnalysis F → List RuleMatch
  unfolding evaluate_rule
  evaluate rules path bytes analysis =
      filter_map (λ rule. evaluate_rule rule path bytes analysis) rules
