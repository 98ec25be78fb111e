-- ===== src/Engine/Collect.antt =====
-- The evidence that `scan_bytes_at` of engine.rs collects from its providers.
use zentor.Prelude.{
  ℕ, Bool, true, false, Option, none, some, List, [], ◌∷◌, ◌++◌, map, if◌then◌else◌,
}
use zentor.Prelude.Int.{pos, negsuc}
use zentor.Text.{Text, text}
use zentor.Float.{Float}
use zentor.Verdict.{
  Verdict, suspicious, probable_malware, confirmed_malware, Confidence, low, medium, high,
  confirmed, ThreatCategory, trojan, ransomware, spyware, infostealer, adware, worm, keylogger,
  miner, rootkit_indicator, potentially_unwanted_app, suspicious_downloader, suspicious_script,
  malicious_macro, exploit_dropper, credential_theft_indicator, persistence_indicator,
  security_tamper_indicator, Evidence, native_signature, native_rule, native_ml, trust_store,
  application_control,
}
use zentor.Trust.{
  store_contains, TrustedPublisher, microsoft, avorax, trusted_publisher_for, is_trusted_local,
}
use zentor.Analysis.{StaticAnalysis}
use zentor.Heuristics.{score_file}
use zentor.Rules.{RuleMatch}
use zentor.Rules.Vm.{evaluate}
use zentor.Signatures.{SignatureMatch}
use zentor.Ml.{NativeMlResult}
use zentor.Ml.Features.{extract_features}
use zentor.Ml.Runner.{analyze_features}
use zentor.Engine.{NativeEngine}

-- the derived `Debug` of a category
unfoldable pub category_name : ThreatCategory → Text
category_name trojan = text "Trojan"
category_name ransomware = text "Ransomware"
category_name spyware = text "Spyware"
category_name infostealer = text "Infostealer"
category_name adware = text "Adware"
category_name worm = text "Worm"
category_name keylogger = text "Keylogger"
category_name miner = text "Miner"
category_name rootkit_indicator = text "RootkitIndicator"
category_name potentially_unwanted_app = text "PotentiallyUnwantedApp"
category_name suspicious_downloader = text "SuspiciousDownloader"
category_name suspicious_script = text "SuspiciousScript"
category_name malicious_macro = text "MaliciousMacro"
category_name exploit_dropper = text "ExploitDropper"
category_name credential_theft_indicator = text "CredentialTheftIndicator"
category_name persistence_indicator = text "PersistenceIndicator"
category_name security_tamper_indicator = text "SecurityTamperIndicator"
category_name ThreatCategory.test_threat = text "TestThreat"
category_name ThreatCategory.unknown = text "Unknown"

unfoldable pub known_bad_evidence : Bool → List Evidence
known_bad_evidence false = []
known_bad_evidence true =
    record {
      id = text "known_bad_hash";
      title = text "Known-bad hash";
      detail = text "The file hash is in the Avorax native known-bad store.";
      weight = pos 100;
      source = application_control;
    }
    ∷ []

abbrev publisher_detail : TrustedPublisher → Text
publisher_detail microsoft = text "The file has a valid Microsoft publisher signature."
publisher_detail avorax = text "The file is a Avorax-owned path or installer artifact."

unfoldable pub publisher_item : TrustedPublisher → Evidence
publisher_item publisher = record {
  id = text "trusted_publisher";
  title = text "Trusted publisher";
  detail = publisher_detail publisher;
  weight = negsuc 79;
  source = trust_store;
}

unfoldable pub publisher_evidence : Option TrustedPublisher → List Evidence
publisher_evidence none = []
publisher_evidence (some publisher) = publisher_item publisher ∷ []

unfoldable pub local_item : Evidence
local_item = record {
  id = text "trusted_local_artifact";
  title = text "Trusted local artifact";
  detail =
      text
        "Avorax suppresses its own installer, service, driver, quarantine, update, and build artifacts unless a confirmed signature or known-bad hash matches.";
  weight = negsuc 89;
  source = trust_store;
}

unfoldable pub local_evidence : Bool → List Evidence
local_evidence false = []
local_evidence true = local_item ∷ []

unfoldable pub signature_item : SignatureMatch → Evidence
signature_item m = record {
  id = m.signature_id;
  title = m.name;
  detail = m.reason ++ (text " Category: " ++ category_name m.category);
  weight = m.weight;
  source = native_signature;
}

unfoldable pub rule_item : RuleMatch → Evidence
rule_item m = record {
  id = m.rule_id;
  title = m.name;
  detail = m.reason;
  weight = m.weight;
  source = native_rule;
}

-- the verdicts of the model that become evidence
unfoldable pub is_ml_finding : Verdict → Bool
is_ml_finding suspicious = true
is_ml_finding probable_malware = true
is_ml_finding confirmed_malware = true
is_ml_finding _ = false

unfoldable pub ml_weight : Confidence → ℕ
ml_weight confirmed = 80
ml_weight high = 55
ml_weight medium = 30
ml_weight low = 10

module _ {F : Type 0} (fl : Float F) where
  open fl use {literal, mul, one_decimal}

  unfoldable pub ml_item : NativeMlResult F → Evidence
  unfolding ml_weight
  ml_item r = record {
    id = text "native_ml";
    title = text "Avorax Native ML review";
    detail =
        text "Native ML probability "
        ++ (one_decimal (mul r.malware_probability (literal 100 0))
            ++ (text "% using model " ++ (r.model_version ++ text ".")));
    weight = pos (ml_weight r.confidence);
    source = native_ml;
  }

  unfoldable pub ml_evidence : NativeMlResult F → List Evidence
  unfolding is_ml_finding
  ml_evidence r = if is_ml_finding r.verdict then ml_item r ∷ [] else []

  unfoldable pub model_evidence :
      NativeEngine F → Text → StaticAnalysis F → Bool → Bool → List Evidence
  model_evidence engine path a known_good known_bad = elim engine.ml [
    | none ↦ []
    | some model ↦
        ml_evidence (analyze_features fl model (extract_features fl path a known_good known_bad))
  ]

  -- what the trust stores say; nothing for a known-bad file
  unfoldable pub trust_evidence : Bool → Bool → Text → List Evidence
  trust_evidence known_bad signed path =
      if known_bad
      then []
      else publisher_evidence (trusted_publisher_for signed path)
        ++ local_evidence (is_trusted_local signed path)

  -- the evidence of all providers, in the order in which they are asked
  unfoldable pub collect_evidence :
      NativeEngine F
      → Bool
      → Text
      → Text
      → List ℕ
      → StaticAnalysis F
      → List SignatureMatch
      → List Evidence
  collect_evidence engine signed path sha256 bytes a matches =
      let known_bad = store_contains engine.known_bad sha256 in
      known_bad_evidence known_bad
      ++ (trust_evidence known_bad signed path
          ++ (map signature_item matches
              ++ (map rule_item (evaluate fl engine.rules path bytes a)
                  ++ (score_file fl path a
                      ++ model_evidence engine path a (store_contains engine.known_good sha256)
                          known_bad))))
