-- ===== src/Analysis/Kind.antt =====
-- analyzers/file_type.rs: the type of a file, by its first bytes and its extension, and the names
-- that rules and signatures use for it.
use zentor.Prelude.{ℕ, ◌||◌, Option, none, some, List, [], ◌∷◌, if◌then◌else◌}
use zentor.Text.{Text, text as literal, starts_with, is_one_of, to_ascii_lowercase}
use zentor.Path.{extension}
use zentor.Analysis.{
  FileType, pe, elf, mach_o, power_shell, java_script, batch, vbs, zip, text, document, unknown,
}

type_of_extension : Text → FileType
unfolding is_one_of literal
type_of_extension ext =
    if is_one_of ext (literal "ps1" ∷ literal "psm1" ∷ literal "psd1" ∷ [])
    then power_shell
    else if is_one_of ext (literal "js" ∷ literal "jse" ∷ literal "mjs" ∷ literal "cjs" ∷ [])
    then java_script
    else if is_one_of ext (literal "bat" ∷ literal "cmd" ∷ [])
    then batch
    else if is_one_of ext (literal "vbs" ∷ literal "vbe" ∷ [])
    then vbs
    else if is_one_of ext (literal "txt" ∷ literal "log" ∷ literal "md" ∷ [])
    then text
    else if is_one_of ext (
        literal "doc"
        ∷ literal "docx"
        ∷ literal "docm"
        ∷ literal "xls"
        ∷ literal "xlsx"
        ∷ literal "xlsm"
        ∷ literal "ppt"
        ∷ literal "pptx"
        ∷ literal "pptm"
        ∷ [])
    then document
    else unknown

abbrev lower_or_empty : Option Text → Text
lower_or_empty none = []
lower_or_empty (some ext) = to_ascii_lowercase ext

unfoldable pub detect_file_type : Text → List ℕ → FileType
unfolding starts_with extension type_of_extension to_ascii_lowercase
detect_file_type path bytes =
    if starts_with bytes (b'M' ∷ b'Z' ∷ [])
    then pe
    else if starts_with bytes (0x7f ∷ b'E' ∷ b'L' ∷ b'F' ∷ [])
    then elf
    else if starts_with bytes (0xFE ∷ 0xED ∷ 0xFA ∷ 0xCE ∷ [])
        || starts_with bytes (0xFE ∷ 0xED ∷ 0xFA ∷ 0xCF ∷ [])
        || starts_with bytes (0xCA ∷ 0xFE ∷ 0xBA ∷ 0xBE ∷ [])
    then mach_o
    else if starts_with bytes (b'P' ∷ b'K' ∷ 0x03 ∷ 0x04 ∷ [])
    then zip
    else type_of_extension (lower_or_empty (extension path))

unfoldable pub file_type_name : FileType → Text
unfolding literal
file_type_name pe = literal "pe"
file_type_name elf = literal "elf"
file_type_name mach_o = literal "macho"
file_type_name power_shell = literal "powershell_script"
file_type_name java_script = literal "javascript"
file_type_name batch = literal "batch"
file_type_name vbs = literal "vbs"
file_type_name zip = literal "zip"
file_type_name text = literal "text"
file_type_name document = literal "document"
file_type_name unknown = literal "unknown"
