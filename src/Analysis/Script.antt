-- ===== src/Analysis/Script.antt =====
-- analyzers/scripts/: what the text of a script shows.
use zentor.Prelude.{ℕ, ◌+◌, false, ◌||◌, List, [], ◌∷◌, u32, if◌then◌else◌}
use zentor.Text.{Text, text, to_ascii_lowercase, contains, contains_any, count_matches, count_terms}
use zentor.Text.Utf8.{from_utf8_lossy}
use zentor.Analysis.{ScriptAnalysis, FileType, power_shell, java_script, batch, vbs}

abbrev lower_text : List ℕ → Text
lower_text bytes = to_ascii_lowercase (from_utf8_lossy bytes)

unfoldable pub default_script : ScriptAnalysis
default_script = record {
  encoded_command = false;
  obfuscation_score = 0;
  downloader_patterns = 0;
  execution_patterns = 0;
  persistence_patterns = 0;
  security_tamper_indicators = 0;
}

one : Text → Text → ℕ
unfolding count_matches
one content term = u32 (count_matches content term)

two : Text → Text → Text → ℕ
unfolding one
two content a b = u32 (one content a + one content b)

-- powershell.rs
unfoldable pub analyze_powershell : List ℕ → ScriptAnalysis
unfolding contains_any count_terms one text to_ascii_lowercase from_utf8_lossy
analyze_powershell bytes =
    let content = lower_text bytes in
    let encoded =
      contains_any content (text "-enc" ∷ text "-encodedcommand" ∷ text "frombase64string" ∷ []) in
    record {
      encoded_command = encoded;
      obfuscation_score = u32 (
          (if encoded then 1 else 0)
          + one content (text "`")
          + one content (text "$(")
          + one content (text "^^"));
      downloader_patterns =
          count_terms content (
            text "downloadstring"
            ∷ text "invoke-webrequest"
            ∷ text "webclient"
            ∷ text "curl "
            ∷ []);
      execution_patterns = count_terms content (
          text "invoke-expression" ∷ text "iex " ∷ text "start-process" ∷ text "powershell -" ∷ []);
      persistence_patterns =
          count_terms content
            (text "schtasks" ∷ text "new-service" ∷ text "currentversion\\run" ∷ []);
      security_tamper_indicators =
          count_terms content
            (text "set-mppreference" ∷ text "disableantispyware" ∷ text "vssadmin delete" ∷ []);
    }

-- batch.rs
unfoldable pub analyze_batch : List ℕ → ScriptAnalysis
unfolding one two text to_ascii_lowercase from_utf8_lossy
analyze_batch bytes =
    let content = lower_text bytes in
    record {
      encoded_command = false;
      obfuscation_score = one content (text "^");
      downloader_patterns = two content (text "bitsadmin") (text "curl ");
      execution_patterns = two content (text "start ") (text "powershell");
      persistence_patterns = two content (text "schtasks") (text "reg add");
      security_tamper_indicators = one content (text "vssadmin delete");
    }

-- javascript.rs
unfoldable pub analyze_javascript : List ℕ → ScriptAnalysis
unfolding contains one two text to_ascii_lowercase from_utf8_lossy
analyze_javascript bytes =
    let content = lower_text bytes in
    record {
      encoded_command = contains content (text "atob(") || contains content (text "fromcharcode");
      obfuscation_score = two content (text "eval(") (text "fromcharcode");
      downloader_patterns = two content (text "xmlhttprequest") (text "fetch(");
      execution_patterns = two content (text "wscript.shell") (text "child_process");
      persistence_patterns = one content (text "runonce");
      security_tamper_indicators = 0;
    }

-- vbs.rs
unfoldable pub analyze_vbs : List ℕ → ScriptAnalysis
unfolding contains one text to_ascii_lowercase from_utf8_lossy
analyze_vbs bytes =
    let content = lower_text bytes in
    record {
      encoded_command = contains content (text "base64");
      obfuscation_score = one content (text "chr(");
      downloader_patterns = one content (text "msxml2.xmlhttp");
      execution_patterns = one content (text "wscript.shell");
      persistence_patterns = one content (text "runonce");
      security_tamper_indicators = 0;
    }

unfoldable pub analyze_script : FileType → List ℕ → ScriptAnalysis
unfolding analyze_powershell analyze_javascript analyze_batch analyze_vbs default_script
analyze_script power_shell bytes = analyze_powershell bytes
analyze_script java_script bytes = analyze_javascript bytes
analyze_script batch bytes = analyze_batch bytes
analyze_script vbs bytes = analyze_vbs bytes
analyze_script _ bytes = default_script
