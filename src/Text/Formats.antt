-- ===== src/Text/Formats.antt =====
-- Texts that print as they are.
use torupload.Base.{
  ◌==◌, lt→ltb, ge→ltb, ℕ, zero, suc, ◌+◌, ◌/◌, ◌%◌, ◌≡◌, refl, false, List, [], ◌∷◌, ◌++◌, arith,
  All, Bool, true, ◌&&◌, not,
}
use native.Mathlib.Decide.{dec_lt}
use torupload.Base.Outcome.{ok}
use torupload.Text.{decimal_from, decimal, until_nul, formatted}

-- What holds of the digits holds of a printed number.
decimal_from-All :
    (P : ℕ → Type 0)
    → ((n : ℕ) → P (b'0' + n % 10))
    → (fuel n : ℕ) (s : List ℕ) → All P s
    → All P (decimal_from fuel n s)
unfolding decimal_from
decimal_from-All P digits zero n s h = h
decimal_from-All P digits (suc fuel) n s h = elim (dec_lt n 10) [
  | yes small ↦ rw (lt→ltb n 10 small) (digits n, h)
  | no big ↦
      rw (ge→ltb n 10 (omega (arith, big)))
        (decimal_from-All P digits fuel (n / 10) ((b'0' + n % 10) ∷ s) (digits n, h))
]

pub decimal-All :
    (P : ℕ → Type 0)
    → ((n : ℕ) → P (b'0' + n % 10))
    → (n : ℕ) (s : List ℕ) → All P s
    → All P (decimal n s)
unfolding decimal
decimal-All P digits n s h = decimal_from-All P digits (suc n) n s h

decimal_from-append :
    (fuel n : ℕ) (s t : List ℕ) → decimal_from fuel n (s ++ t) ≡ decimal_from fuel n s ++ t
unfolding decimal_from
decimal_from-append zero n s t = refl
decimal_from-append (suc fuel) n s t = elim (dec_lt n 10) [
  | yes small ↦ rw (lt→ltb n 10 small)
  | no big ↦
      rw (ge→ltb n 10 (omega (arith, big)))
        (decimal_from-append fuel (n / 10) ((b'0' + n % 10) ∷ s) t)
]

pub decimal-append : (n : ℕ) (s t : List ℕ) → decimal n (s ++ t) ≡ decimal n s ++ t
unfolding decimal
decimal-append n s t = decimal_from-append (suc n) n s t

-- No NUL and no percent sign.
abbrev pub IsPlain : ℕ → Type 0
IsPlain c = ((c == 0) ≡ false) × ((c == b'%') ≡ false)

pub digit-IsPlain : (n : ℕ) → IsPlain (b'0' + n % 10)
digit-IsPlain n = (ground arith, ground arith)

abbrev pub all_plain : List ℕ → Bool
all_plain [] = true
all_plain (c ∷ s) = not (c == 0) && (not (c == b'%') && all_plain s)

-- For literals.
pub all_plain_lem : (s : List ℕ) → all_plain s ≡ true → All IsPlain s
all_plain_lem [] h = tt
all_plain_lem (c ∷ s) h =
    ((ground (arith, h), ground (arith, h)), all_plain_lem s (ground (arith, h)))

pub until_nul-plain : (s t : List ℕ) → All IsPlain s → until_nul (s ++ 0 ∷ t) ≡ ok s
unfolding until_nul
until_nul-plain [] t h = refl
until_nul-plain (c ∷ s) t h = rw (h.0.0, until_nul-plain s t h.1)

pub formatted-plain : (s : List ℕ) → All IsPlain s → formatted false s ≡ ok s
unfolding formatted
formatted-plain [] h = refl
formatted-plain (c ∷ s) h = rw (h.0.1, formatted-plain s h.1)
