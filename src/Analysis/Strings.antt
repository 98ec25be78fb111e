-- ===== src/Analysis/Strings.antt =====
-- analyzers/strings.rs: URLs, addresses and suspicious terms in the text of a file.
use zentor.Prelude.{
  ℕ, ◌+◌, ◌-◌, ◌*◌, Bool, ◌&&◌, not, List, [], ◌∷◌, leb, ◌==◌, length, all, count_if, u32,
}
use zentor.Text.{Text, text, to_ascii_lowercase, split_on, count_matches, count_terms, is_empty}
use zentor.Text.Utf8.{from_utf8_lossy}
use zentor.Analysis.{StringIndicators}

unfoldable pub is_ascii_digit : ℕ → Bool
is_ascii_digit b = leb b'0' b && leb b b'9'

-- the value of a run of digits
digits_value : ℕ → Text → ℕ
digits_value acc [] = acc
digits_value acc (b ∷ t) = digits_value (acc * 10 + (b - b'0')) t

-- `piece.parse::<u8>().is_ok() && !piece.is_empty()` for a piece of digits and dots, with no dot
is_octet : Text → Bool
unfolding is_ascii_digit digits_value is_empty
is_octet piece = not (is_empty piece) && all is_ascii_digit piece && leb (digits_value 0 piece) 255

is_address : Text → Bool
unfolding split_on is_octet
is_address part =
    let pieces = split_on (λ b. b == b'.') part in length pieces == 4 && all is_octet pieces

unfoldable pub suspicious_terms : List Text
suspicious_terms =
    text "invoke-expression"
    ∷ text "iex "
    ∷ text "frombase64string"
    ∷ text "virtualalloc"
    ∷ text "createremotethread"
    ∷ text "writeprocessmemory"
    ∷ text "reg add"
    ∷ text "schtasks"
    ∷ text "vssadmin delete"
    ∷ text "shadowcopy delete"
    ∷ text "start-process"
    ∷ text "downloadstring"
    ∷ []

unfoldable pub extract_indicators : List ℕ → StringIndicators
unfolding from_utf8_lossy to_ascii_lowercase count_matches count_terms split_on is_address
    suspicious_terms text
extract_indicators bytes =
    let content = to_ascii_lowercase (from_utf8_lossy bytes) in
    record {
      embedded_url_count =
          u32 (count_matches content (text "http://") + count_matches content (text "https://"));
      embedded_ip_count =
          u32 (
            count_if is_address
              (split_on (λ b. not (is_ascii_digit b) && not (b == b'.')) content));
      suspicious_string_count = count_terms content suspicious_terms;
    }
