-- ===== src/Ml/Runner.antt =====
-- ml/model_runner.rs and `FeatureVector::get`: what the model says of the features.
use zentor.Prelude.{◌&&◌, List, [], ◌∷◌, keep, map, take, if◌then◌else◌}
use zentor.Text.{Text, text, text_eq}
use zentor.Float.{Float}
use zentor.Verdict.{
  Verdict, confirmed_malware, probable_malware, suspicious, likely_clean, Confidence, low, medium,
  high, confirmed, ThreatCategory, suspicious_script,
}
use zentor.Ml.{FeatureVector, NativeModel, NativeMlResult}

module _ {F : Type 0} (fl : Float F) where
  open fl use {literal, of_nat, add, mul, div, neg, exp, gt, ge}

  -- the fields by name
  abbrev named_fields : FeatureVector F → List (Text × F)
  named_fields v =
      (text "file_size", v.file_size)
      ∷ (text "extension_executable", v.extension_executable)
      ∷ (text "file_type_executable", v.file_type_executable)
      ∷ (text "location_risk", v.location_risk)
      ∷ (text "filename_risk", v.filename_risk)
      ∷ (text "double_extension", v.double_extension)
      ∷ (text "entropy_mean", v.entropy_mean)
      ∷ (text "entropy_max", v.entropy_max)
      ∷ (text "section_count", v.section_count)
      ∷ (text "high_entropy_section_count", v.high_entropy_section_count)
      ∷ (text "suspicious_import_count", v.suspicious_import_count)
      ∷ (text "network_import_count", v.network_import_count)
      ∷ (text "injection_import_count", v.injection_import_count)
      ∷ (text "persistence_import_count", v.persistence_import_count)
      ∷ (text "crypto_import_count", v.crypto_import_count)
      ∷ (text "embedded_url_count", v.embedded_url_count)
      ∷ (text "embedded_ip_count", v.embedded_ip_count)
      ∷ (text "suspicious_string_count", v.suspicious_string_count)
      ∷ (text "script_obfuscation_score", v.script_obfuscation_score)
      ∷ (text "encoded_command_flag", v.encoded_command_flag)
      ∷ (text "archive_contains_executable", v.archive_contains_executable)
      ∷ (text "startup_location_flag", v.startup_location_flag)
      ∷ (text "known_good_flag", v.known_good_flag)
      ∷ (text "known_bad_flag", v.known_bad_flag)
      ∷ []

  find_field : Text → List (Text × F) → F
  find_field name [] = of_nat 0
  find_field name ((n, value) ∷ rest) = if text_eq name n then value else find_field name rest

  -- `FeatureVector::get`
  unfoldable pub get_feature : FeatureVector F → Text → F
  unfolding find_field
  get_feature v name = find_field name (named_fields v)

  -- `weights.iter().fold(bias, …)`
  unfoldable pub weighted_sum : FeatureVector F → F → List (Text × F) → F
  unfolding get_feature
  weighted_sum v acc [] = acc
  weighted_sum v acc ((name, weight) ∷ rest) =
      weighted_sum v (add acc (mul (get_feature v name) weight)) rest

  -- `1.0 / (1.0 + (-score).exp())`
  unfoldable pub probability_of : NativeModel F → FeatureVector F → F
  unfolding weighted_sum
  probability_of model v =
      div (of_nat 1) (add (of_nat 1) (exp (neg (weighted_sum v model.bias model.weights))))

  unfoldable pub model_verdict : NativeModel F → F → Verdict
  model_verdict model p =
      if ge p model.thresholds.confirmed_malware && model.production_ready
      then confirmed_malware
      else if ge p model.thresholds.probable_malware
      then probable_malware
      else if ge p model.thresholds.suspicious
      then suspicious
      else likely_clean

  unfoldable pub model_confidence : NativeModel F → F → Confidence
  model_confidence model p =
      if ge p model.thresholds.confirmed_malware && model.production_ready
      then confirmed
      else if ge p model.thresholds.probable_malware
      then high
      else if ge p model.thresholds.suspicious
      then medium
      else low

  -- `sort_by` on the contributions, the largest first, stable; where one is no number the order that
  -- the source gives is not determined
  insert_contribution : Text × F → List (Text × F) → List (Text × F)
  insert_contribution c [] = c ∷ []
  insert_contribution c (d ∷ rest) =
      let later = insert_contribution c rest in if gt d.1 c.1 then d ∷ later else c ∷ d ∷ rest

  sort_contributions : List (Text × F) → List (Text × F)
  unfolding insert_contribution
  sort_contributions [] = []
  sort_contributions (c ∷ rest) = insert_contribution c (sort_contributions rest)

  unfoldable pub explanation_features : FeatureVector F → List (Text × F) → List Text
  unfolding sort_contributions
  explanation_features v weights =
      map (λ c. c.0)
        (keep (λ c. gt c.1 (literal 1 2))
          (take 4 (sort_contributions (map (λ w. (w.0, mul (get_feature v w.0) w.1)) weights))))

  -- `NativeModelRunner::analyze_features`, for a model that is loaded
  unfoldable pub analyze_features : NativeModel F → FeatureVector F → NativeMlResult F
  unfolding probability_of model_verdict model_confidence explanation_features
  analyze_features model v =
      let p = probability_of model v in
      record {
        malware_probability = p;
        top_category =
            if gt v.encoded_command_flag (of_nat 0)
            then suspicious_script
            else ThreatCategory.unknown;
        confidence = model_confidence model p;
        verdict = model_verdict model p;
        explanation_features = explanation_features v model.weights;
        model_version = model.model_version;
        production_ready = model.production_ready;
        false_positive_rate_from_metadata = model.false_positive_rate;
        can_contribute_to_auto_quarantine =
            model.production_ready
            && ge (literal 5 3) model.false_positive_rate
            && ge p model.thresholds.probable_malware;
      }
