-- ===== src/Text.antt =====
-- The text functions of the C library that the program calls: decimal numbers printed and scanned,
-- strings that end in a NUL byte, and a message used as a format. A text is the list of its bytes.
pub mod Numbers
pub mod Formats
use torupload.Base.{
  ltb, leb, ◌==◌, if◌then◌else◌, ℕ, zero, suc, ◌+◌, ◌-◌, ◌*◌, ◌/◌, ◌%◌, Bool, true, false, ◌&&◌,
  ◌||◌, Option, none, some, List, [], ◌∷◌,
}
use torupload.Message.{Message, slice, max_message_length}
use torupload.Base.Outcome.{Outcome, ok, fault, out_of_bounds, ◌>>=◌}
use Prim.Native.Char.{code}
use Prim.Native.String.{String}

-- A literal of the source.
abbrev pub codes : String → List ℕ
codes String.[] = []
codes (String.◌∷◌ c rest) = code c ∷ codes rest

abbrev pub is_digit : ℕ → Bool
is_digit c = leb b'0' c && leb c b'9'

abbrev pub is_space : ℕ → Bool
is_space c = c == 32 || (leb 9 c && leb c 13)

-- The digits of `n` in front of `s`, on fuel; `n + 1` is enough.
decimal_from : ℕ → ℕ → List ℕ → List ℕ
decimal_from zero n s = s
decimal_from (suc fuel) n s =
    let d = b'0' + n % 10 in
    let rest = decimal_from fuel (n / 10) (d ∷ s) in if ltb n 10 then d ∷ s else rest

-- `%u` (`%d`, `%hu`) of a number that is not negative, and what is printed behind it.
unfoldable pub decimal : ℕ → List ℕ → List ℕ
unfolding decimal_from
decimal n s = decimal_from (suc n) n s

-- The value of the digits in front, behind digits of value `n`.
unfoldable pub digits_value : ℕ → List ℕ → ℕ
digits_value n [] = n
digits_value n (c ∷ s) =
    let later = digits_value (n * 10 + (c - b'0')) s in if is_digit c then later else n

-- `%hu` behind a space in a format, for text without a sign; `none`: no number is there, and the
-- variable keeps what it held.
unfoldable pub scan_hu : List ℕ → Option ℕ
scan_hu [] = none
scan_hu (c ∷ s) =
    let later = scan_hu s in
    if is_space c then later else if is_digit c then some (digits_value 0 (c ∷ s) % 65536) else none

-- The bytes before the first NUL; without one the reader runs past the array.
unfoldable pub until_nul : List ℕ → Outcome (List ℕ)
until_nul [] = fault out_of_bounds
until_nul (c ∷ s) = let rest = until_nul s in if c == 0 then ok [] else (rest >>= λ t. ok (c ∷ t))

-- A text used as a format without further arguments; `pending` behind a `%`. Any conversion but
-- `%%` reads an argument that is not there.
unfoldable pub formatted : Bool → List ℕ → Outcome (List ℕ)
formatted pending [] = if pending then fault out_of_bounds else ok []
formatted true (c ∷ s) =
    let rest = formatted false s in
    if c == b'%' then (rest >>= λ t. ok (c ∷ t)) else fault out_of_bounds
formatted false (c ∷ s) =
    let literal = formatted false s >>= λ t. ok (c ∷ t) in
    let conversion = formatted true s in if c == b'%' then conversion else literal

-- `logIT((char *) message.msg)`: what is printed.
unfoldable pub printed : Message → Outcome (List ℕ)
unfolding until_nul formatted
printed m = until_nul (slice m.msg 0 max_message_length) >>= formatted false
