-- ===== src/LogFile.antt =====
-- `MyFile` of File.cc, as far as it writes, and `MyDEBUG` of MyDEBUG.cc. A text is the list of its
-- bytes; what is formatted is given as the text that comes of it.
pub mod HexText
use torupload.Text.{codes}
use torupload.Base.{
  ltb, if◌then◌else◌, ℕ, ◌+◌, ◌/◌, ◌%◌, Bool, true, false, List, [], ◌∷◌, ◌++◌, ◌-◌,
}

-- The file written so far.
abbrev pub LogText : Type 0
LogText = List ℕ

-- `logIT`, with its line end, and `logIT_`, without.
abbrev pub log_line : LogText → List ℕ → LogText
log_line file text = file ++ text ++ b'\n' ∷ []

abbrev pub log_text : LogText → List ℕ → LogText
log_text file text = file ++ text

-- `writeLine`, by whether `fputs` fails: what is in the file then, and the result.
unfoldable pub write_line : LogText → Bool → List ℕ → LogText × Bool
write_line file fails single_line =
    if fails then (file, false) else (file ++ single_line ++ b'\n' ∷ [], true)

-- `%02x` of a byte.
abbrev pub hex_digit : ℕ → ℕ
hex_digit d = if ltb d 10 then b'0' + d else b'a' + (d - 10)

abbrev pub hex_byte : ℕ → List ℕ
hex_byte b = hex_digit (b / 16) ∷ hex_digit (b % 16) ∷ []

-- The loop of `HexDump`.
unfoldable pub hex_bytes : List ℕ → List ℕ
hex_bytes [] = []
hex_bytes (b ∷ bytes) = hex_byte b ++ hex_bytes bytes

-- `HexDump`: the first byte is printed whatever the length.
unfoldable pub hex_dump_text : ℕ → List ℕ → List ℕ
unfolding hex_bytes
hex_dump_text first others = codes "0x" ++ hex_byte first ++ hex_bytes others

-- `GlobalDebugFlag`, and where the messages go.
pub data DebugLevel : Type 0 where
  no_debug stdout_dump file_dump both_dump : DebugLevel

pub record DebugOutput : Type 0 where
  pub stdout : List ℕ
  pub err_file : List ℕ

-- `MyDEBUG`: `errFile.txt` is opened anew for each message, and holds that one only.
unfoldable pub my_debug : DebugLevel → DebugOutput → List ℕ → DebugOutput
my_debug no_debug out text = out
my_debug stdout_dump out text = record out { stdout = out.stdout ++ b'\n' ∷ text ++ b'\n' ∷ [] }
my_debug file_dump out text = record out { err_file = text }
my_debug both_dump out text = out
