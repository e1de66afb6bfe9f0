-- ===== src/Config.antt =====
-- `main` of Stage1.cc, up to the processes that it starts, and `MyFile::readNextLine` of File.cc.
-- The file is the list of its bytes that are still to be read.
pub mod Lines
pub mod Settings
pub mod Forked
pub mod Main
use torupload.Base.Outcome.{Outcome, ok, guard, out_of_bounds, ◌>>=◌, ◌>>◌}
use torupload.Base.{
  Option, ltb, ◌==◌, if◌then◌else◌, length, ℕ, zero, suc, ◌+◌, Bool, false, none, some, List, [],
  ◌∷◌, map,
}
use mathlib.Core.Option
use torupload.Text.{is_digit, is_space, digits_value}
use torupload.Socket.{ℤ, pos, negsuc}

-- `fgets` into an array of `n + 1` bytes.
unfoldable pub fgets : ℕ → List ℕ → List ℕ × List ℕ
fgets zero s = ([], s)
fgets (suc n) [] = ([], [])
fgets (suc n) (c ∷ s) =
    let (line, rest) = fgets n s in if c == b'\n' then (c ∷ [], s) else (c ∷ line, rest)

-- `string(lineRead)` ends at a NUL.
unfoldable pub before_nul : List ℕ → List ℕ
before_nul [] = []
before_nul (c ∷ s) = let rest = before_nul s in if c == 0 then [] else c ∷ rest

-- `readNextLine`, on fuel; an empty line is the end of the file.
unfoldable pub read_next_line : ℕ → List ℕ → List ℕ × List ℕ
unfolding fgets before_nul
read_next_line zero s = ([], s)
read_next_line (suc fuel) [] = ([], [])
read_next_line (suc fuel) (c ∷ s) =
    let read = fgets 99 (c ∷ s) in
    let later = read_next_line fuel read.1 in
    if c == b'#' then later else (before_nul read.0, read.1)

-- `%s`: the bytes up to a space, and what is left.
unfoldable pub word_of : List ℕ → List ℕ × List ℕ
word_of [] = ([], [])
word_of (c ∷ s) = let (w, rest) = word_of s in if is_space c then ([], c ∷ s) else (c ∷ w, rest)

unfoldable pub scan_word : List ℕ → Option (List ℕ × List ℕ)
scan_word [] = none
scan_word (c ∷ s) = let later = scan_word s in if is_space c then later else some (word_of (c ∷ s))

unfoldable pub unsigned_value : List ℕ → Option ℕ
unsigned_value [] = none
unsigned_value (c ∷ s) = if is_digit c then some (digits_value 0 (c ∷ s)) else none

abbrev pub negated : ℕ → ℤ
negated zero = pos 0
negated (suc n) = negsuc n

-- `%d`; a number that no `int` holds is left as it is.
unfoldable pub scan_d : List ℕ → Option ℤ
scan_d [] = none
scan_d (c ∷ s) =
    let later = scan_d s in
    if is_space c
    then later
    else if c == b'-'
    then Option.map negated (unsigned_value s)
    else if c == b'+'
    then Option.map pos (unsigned_value s)
    else Option.map pos (unsigned_value (c ∷ s))

-- `sscanf(line, "%s %d", word, &value)`, with an array of `size` bytes for the word.
unfoldable pub value_of : ℕ → ℤ → Option (List ℕ × List ℕ) → Outcome ℤ
value_of size value none = ok value
value_of size value (some (word, rest)) = do
  guard (ltb (length word) size) out_of_bounds
  ok (elim (scan_d rest) [ none ↦ value | some n ↦ n ])

abbrev pub scan_setting : ℕ → List ℕ → ℤ → Outcome ℤ
scan_setting size line value = value_of size value (scan_word line)

-- `stage`, `noOfRouters` and `noOfHops`, -1 before they are read.
pub record Config : Type 0 where
  pub stage : ℤ
  pub no_of_routers : ℤ
  pub no_of_hops : ℤ

abbrev pub gt_ℤ : ℤ → ℕ → Bool
gt_ℤ (pos n) k = ltb k n
gt_ℤ (negsuc n) k = false

abbrev pub next_line : List ℕ → List ℕ × List ℕ
next_line file = read_next_line (length file + 1) file

unfoldable pub read_config : List ℕ → Outcome Config
read_config file = do
  let first = next_line file
  stage ← scan_setting 10 first.0 (negsuc 0)
  let second = next_line first.1
  routers ← scan_setting 10 second.0 (negsuc 0)
  let third = next_line second.1
  hops ← if gt_ℤ stage 4 then scan_setting 20 third.0 (negsuc 0) else ok (negsuc 0)
  ok (record { stage = stage; no_of_routers = routers; no_of_hops = hops })

ids_from : ℕ → ℕ → List ℕ
ids_from i zero = []
ids_from i (suc n) = (i + 1) ∷ ids_from (i + 1) n

-- The routers that are forked, by their identifiers.
unfoldable pub forked : ℤ → List ℕ
unfolding ids_from
forked (pos n) = ids_from 0 n
forked (negsuc n) = []
