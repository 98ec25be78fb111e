-- ===== src/Scanner/Names.antt =====
-- The tests on names and contents of core/zentor_local_core/src/scanner/heuristic_provider.rs. Names
-- and paths come in lower case.
use zentor.Prelude.{
  ℕ, ◌*◌, Bool, false, ◌&&◌, ◌||◌, not, Option, none, some, List, [], ◌∷◌, length, count_if, all,
  any, take, leb, ltb, ◌==◌, if◌then◌else◌,
}
use zentor.Text.{Text, text, contains, contains_any, starts_with, ends_with, split_on}
use zentor.Float.{Float}
use zentor.Analysis.Entropy.{entropy}

unfoldable pub ends_with_any : Text → List Text → Bool
ends_with_any name extensions = any (ends_with name) extensions

unfoldable pub suspicious_double_extension : Text → Bool
suspicious_double_extension name =
    contains_any name (
      text ".pdf."
      ∷ text ".doc."
      ∷ text ".docx."
      ∷ text ".xls."
      ∷ text ".xlsx."
      ∷ text ".jpg."
      ∷ text ".png."
      ∷ [])
    && ends_with_any name (
        text ".exe"
        ∷ text ".scr"
        ∷ text ".bat"
        ∷ text ".cmd"
        ∷ text ".ps1"
        ∷ text ".vbs"
        ∷ text ".js"
        ∷ [])

unfoldable pub is_executable_name : Text → Bool
is_executable_name name = ends_with_any name (
    text ".exe"
    ∷ text ".scr"
    ∷ text ".bat"
    ∷ text ".cmd"
    ∷ text ".ps1"
    ∷ text ".sh"
    ∷ text ".appimage"
    ∷ text ".msi"
    ∷ text ".dll"
    ∷ [])

unfoldable pub is_temp_location : Text → Bool
is_temp_location path =
    contains path (text "\\temp\\")
    || contains path (text "/tmp/")
    || ends_with path (text "\\temp")
    || ends_with path (text "/tmp")

unfoldable pub startup_executable : Text → Text → Bool
startup_executable name path =
    is_executable_name name && (contains path (text "startup") || contains path (text "autostart"))

-- `body` is the text of the file, if it can be read as one
unfoldable pub is_obfuscated : (Text → Text) → Option Text → Bool
is_obfuscated lower none = false
is_obfuscated lower (some body) =
    contains (lower body) (text "frombase64string")
    || contains (lower body) (text "-enc ")
    || contains (lower body) (text "iex")
    || contains (lower body) (text "invoke-expression")

unfoldable pub script_has_obfuscated_powershell : (Text → Text) → Option Text → Text → Bool
script_has_obfuscated_powershell lower body name =
    (ends_with name (text ".ps1") || ends_with name (text ".bat") || ends_with name (text ".cmd"))
    && is_obfuscated lower body

unfoldable pub is_dense : {F : Type 0} → Float F → Option (List ℕ) → Bool
is_dense fl none = false
is_dense fl (some bytes) =
    not (ltb (length bytes) (128 * 1024))
    && fl.ge
        (entropy fl (if ltb (1024 * 1024) (length bytes) then take (1024 * 1024) bytes else bytes))
        (fl.literal 76 1)

unfoldable pub likely_packed_or_high_entropy :
    {F : Type 0} → Float F → Option (List ℕ) → Text → Bool
likely_packed_or_high_entropy fl bytes name = is_executable_name name && is_dense fl bytes

unfoldable pub is_zentor_trusted_artifact : Text → Text → Bool
is_zentor_trusted_artifact name path =
    ((starts_with name (text "avorax-antivirus-") || starts_with name (text "zentor-antivirus-"))
      && (ends_with name (text "-setup.exe")
          || ends_with name (text "-x64.msi")
          || ends_with name (text ".msi")))
    || contains_any path (
        text "\\program files\\avorax\\"
        ∷ text "\\program files\\zentor\\"
        ∷ text "\\programdata\\avorax\\"
        ∷ text "\\programdata\\zentor\\"
        ∷ text "\\avorax\\quarantine\\"
        ∷ text "\\avorax-quarantine\\"
        ∷ text "\\avorax-native-quarantine\\"
        ∷ text "\\zentor-quarantine\\"
        ∷ text "\\zentor-native-quarantine\\"
        ∷ text "\\apps\\zentor_client\\"
        ∷ text "\\core\\zentor_"
        ∷ text "\\assets\\zentor_native\\"
        ∷ text "\\installer\\windows\\"
        ∷ text "/apps/zentor_client/"
        ∷ text "/core/zentor_"
        ∷ text "/assets/zentor_native/"
        ∷ text "/installer/windows/"
        ∷ [])

unfoldable pub is_ascii_digit : ℕ → Bool
is_ascii_digit b = leb b'0' b && leb b b'9'

unfoldable pub is_ascii_alphabetic : ℕ → Bool
is_ascii_alphabetic b = (leb b'a' b && leb b b'z') || (leb b'A' b && leb b b'Z')

abbrev first_piece : List Text → Text
first_piece [] = []
first_piece (piece ∷ rest) = piece

unfoldable pub is_random_stem : Text → Bool
is_random_stem stem =
    not (ltb (length stem) 8)
    && all (λ b. is_ascii_digit b || is_ascii_alphabetic b) stem
    && leb 3 (count_if is_ascii_digit stem)
    && leb 3 (count_if is_ascii_alphabetic stem)

unfoldable pub looks_randomish : Text → Bool
looks_randomish name = is_random_stem (first_piece (split_on (λ b. b == b'.') name))
