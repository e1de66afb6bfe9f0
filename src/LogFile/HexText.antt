-- ===== src/LogFile/HexText.antt =====
-- A hexadecimal dump, read back.
use torupload.Circuit.Extend.{and_then}
use torupload.LogFile.{hex_byte, hex_bytes, hex_digit, hex_dump_text}
use torupload.Base.{
  leb, if◌then◌else◌, ℕ, ◌+◌, ◌-◌, ◌*◌, ◌<◌, ◌≡◌, refl, ap, List, [], ◌∷◌, All, arith, Option, none,
  some, ◌==◌, ◌/◌, ◌%◌, ◌&&◌, ◌++◌,
}

-- The value of a hexadecimal digit, in lower case.
abbrev pub digit_of : ℕ → Option ℕ
digit_of c =
    if leb b'0' c && leb c b'9'
    then some (c - b'0')
    else if leb b'a' c && leb c b'f'
    then some (c - b'a' + 10)
    else none

-- The bytes that pairs of digits stand for.
unfoldable pub bytes_of_hex : List ℕ → Option (List ℕ)
bytes_of_hex [] = some []
bytes_of_hex (c ∷ []) = none
bytes_of_hex (c ∷ d ∷ s) =
    let rest = bytes_of_hex s in
    and_then (digit_of c) (λ high.
      and_then (digit_of d) (λ low. and_then rest (λ bytes. some ((high * 16 + low) ∷ bytes))))

-- A dump without its `0x`.
abbrev pub read_dump : List ℕ → Option (List ℕ)
read_dump [] = none
read_dump (c ∷ []) = none
read_dump (c ∷ d ∷ s) = if c == b'0' && d == b'x' then bytes_of_hex s else none

digit_of-hex_digit : (d : ℕ) → d < 16 → digit_of (hex_digit d) ≡ some d
digit_of-hex_digit d small = ground arith

bytes_of_hex-hex_byte :
    (b : ℕ) (s bytes : List ℕ)
    → b < 256
    → bytes_of_hex s ≡ some bytes
    → bytes_of_hex (hex_byte b ++ s) ≡ some (b ∷ bytes)
unfolding bytes_of_hex
bytes_of_hex-hex_byte b s bytes small rest =
    rw (digit_of-hex_digit (b / 16) (omega arith), digit_of-hex_digit (b % 16) (omega arith), rest)
      (ap (λ x. some (x ∷ bytes)) {x = b / 16 * 16 + b % 16} (omega arith))

bytes_of_hex-hex_bytes :
    (bytes : List ℕ) → All (λ b. b < 256) bytes → bytes_of_hex (hex_bytes bytes) ≡ some bytes
unfolding hex_bytes bytes_of_hex
bytes_of_hex-hex_bytes [] small = refl
bytes_of_hex-hex_bytes (b ∷ bytes) small =
    bytes_of_hex-hex_byte b (hex_bytes bytes) bytes small.0 (bytes_of_hex-hex_bytes bytes small.1)

-- What `HexDump` writes for some bytes, the first among them, is read back as these bytes, two
-- digits for each behind `0x`.
pub read_dump-hex_dump_text :
    (first : ℕ) (others : List ℕ)
    → first < 256
    → All (λ b. b < 256) others
    → read_dump (hex_dump_text first others) ≡ some (first ∷ others)
unfolding hex_dump_text
read_dump-hex_dump_text first others small smalls =
    bytes_of_hex-hex_byte first (hex_bytes others) others small
      (bytes_of_hex-hex_bytes others smalls)
