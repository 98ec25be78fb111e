-- ===== src/Engine.antt =====
-- core/zentor_native_engine/src/engine.rs: the engine asks every provider about a file, fuses the
-- evidence, decides, and hands the file to the quarantine store. Reading the file is left out: the
-- bytes are an argument, with `content` where the file was only sampled. `signed` is what the
-- operating system says of its signature, and `move` what the file system answers to the store.
pub mod Move
pub mod Collect
pub mod Scan
pub mod Decisions
pub mod Quarantine
pub mod Eicar
use zentor.Prelude.{
  ℕ, Bool, true, false, ◌&&◌, ◌||◌, not, Option, none, some, List, [], ◌∷◌, ◌++◌, map, length,
  if◌then◌else◌,
}
use zentor.Prelude.Int.{ℤ, pos, negsuc}
use zentor.Text.{Text, text}
use zentor.Float.{Float}
use zentor.Outcome.{Outcome, ok, ◌>>=◌}
use zentor.Verdict.{
  Verdict, clean, likely_clean, observation, suspicious, probable_malware, confirmed_malware,
  Confidence, low, medium, high, confirmed, ThreatCategory, trojan, ransomware, spyware,
  infostealer, adware, worm, keylogger, miner, rootkit_indicator, potentially_unwanted_app,
  suspicious_downloader, suspicious_script, malicious_macro, exploit_dropper,
  credential_theft_indicator, persistence_indicator, security_tamper_indicator, Evidence,
  EvidenceSource, native_signature, native_rule, native_ml, trust_store, application_control,
  FinalVerdict, ScanActionMode, detect_only, should_auto_quarantine, is_confirmed_threat,
}
use zentor.Verdict.Fusion.{fuse}
use zentor.Trust.{
  Allowlist, allowlist_contains, HashStore, store_contains, TrustedPublisher, microsoft, avorax,
  trusted_publisher_for, is_trusted_local,
}
use zentor.Analysis.{StaticAnalysis}
use zentor.Analysis.Whole.{analyze_path}
use zentor.Heuristics.{score_file}
use zentor.Rules.{NativeRule, RuleMatch}
use zentor.Rules.Vm.{evaluate}
use zentor.Signatures.{NativeSignature, SignatureMatch}
use zentor.Signatures.Matcher.{match_bytes, eicar_ascii}
use zentor.Ml.{NativeModel, NativeMlResult}
use zentor.Ml.Features.{extract_features}
use zentor.Ml.Runner.{analyze_features}
use zentor.Behavior.{FileActivityEvent, BehaviorDecision}
use zentor.Behavior.Window.{RansomwareActivityWindow, observe}
use zentor.Engine.Move.{QuarantineRecord}

-- The stores of `ZentorNativeEngine`; its configuration and its past scans are left out.
pub record NativeEngine (F : Type 0) : Type 0 where
  pub signatures : List NativeSignature
  pub rules : List (NativeRule F)
  pub ml : Option (NativeModel F)
  pub known_good : HashStore
  pub known_bad : HashStore
  pub allowlist : Allowlist
  pub ransomware_window : RansomwareActivityWindow

-- the hash and the sizes that come with a file
pub record Content : Type 0 where
  pub sha256 : Text
  pub file_size_bytes : ℕ
  pub scanned_bytes : ℕ
  pub sample_limited : Bool

-- `FileScanVerdict` without its time
pub record FileScanVerdict : Type 0 where
  pub path : Text
  pub sha256 : Text
  pub file_size_bytes : ℕ
  pub scanned_bytes : ℕ
  pub scan_sample_limited : Bool
  pub engine : Text
  pub final_verdict : FinalVerdict
  pub quarantine_record : Option QuarantineRecord
