-- ===== src/Verdict/Fusion/Category.antt =====
-- `infer_category` of verdict/risk_fusion.rs: the category that the words of the evidence suggest.
use zentor.Prelude.{Option, none, some, List, [], ◌∷◌, ◌++◌, if◌then◌else◌}
use zentor.Text.{Text, text, to_ascii_lowercase, contains_any, join_with}
use zentor.Verdict.{
  ThreatCategory, ransomware, infostealer, miner, potentially_unwanted_app, suspicious_downloader,
  suspicious_script, persistence_indicator, security_tamper_indicator, trojan, Evidence,
}

abbrev item_words : Evidence → Text
item_words item =
    to_ascii_lowercase item.id
    ++ (text " " ++ (to_ascii_lowercase item.title ++ (text " " ++ to_ascii_lowercase item.detail)))

-- the text that is searched
evidence_words : List Evidence → Text
unfolding to_ascii_lowercase
evidence_words = join_with (text " ") item_words

category_of_words : Text → Option ThreatCategory
unfolding contains_any
category_of_words words =
    if contains_any words (text "ransom" ∷ text "shadow" ∷ text "backup delete" ∷ [])
    then some ransomware
    else if contains_any words (
        text "infosteal"
        ∷ text "credential"
        ∷ text "browser data"
        ∷ text "wallet"
        ∷ text "token"
        ∷ [])
    then some infostealer
    else if contains_any words (text "miner" ∷ text "mining" ∷ text "stratum" ∷ [])
    then some miner
    else if contains_any words (text "adware" ∷ text "pup" ∷ text "unwanted" ∷ [])
    then some potentially_unwanted_app
    else if contains_any words (text "downloader" ∷ text "download" ∷ [])
    then some suspicious_downloader
    else if contains_any words (text "script" ∷ text "powershell" ∷ [])
    then some suspicious_script
    else if contains_any words (text "persistence" ∷ text "autorun" ∷ [])
    then some persistence_indicator
    else if contains_any words (text "tamper" ∷ text "defender" ∷ text "security" ∷ [])
    then some security_tamper_indicator
    else if contains_any words (text "trojan" ∷ [])
    then some trojan
    else none

unfoldable pub infer_category : List Evidence → Option ThreatCategory
unfolding evidence_words category_of_words
infer_category evidence = category_of_words (evidence_words evidence)
