-- ===== src/Text/Numbers.antt =====
-- Numbers that are printed are scanned back.
use torupload.Base.{
  lt→ltb, ge→ltb, ℕ, zero, suc, ◌+◌, ◌*◌, ◌/◌, ◌%◌, ◌<◌, ◌≡◌, refl, sym, ◌∙◌, true, false, some,
  List, [], ◌∷◌, arith, ap,
}
use native.Mathlib.Decide.{dec_lt}
use torupload.Text.{decimal_from, decimal, digits_value, scan_hu, is_digit, is_space}

-- What stops a number.
abbrev pub StartsNonDigit : List ℕ → Type 0
StartsNonDigit [] = Unit {0}
StartsNonDigit (c ∷ s) = is_digit c ≡ false

digits_value-stop : (n : ℕ) (s : List ℕ) → StartsNonDigit s → digits_value n s ≡ n
unfolding digits_value
digits_value-stop n [] h = refl
digits_value-stop n (c ∷ s) h = rw h

digit : (n : ℕ) → is_digit (b'0' + n % 10) ≡ true
digit n = ground arith

digits_value-digit :
    (a n : ℕ) (s : List ℕ) → digits_value a ((b'0' + n % 10) ∷ s) ≡ digits_value (a * 10 + n % 10) s
unfolding digits_value
digits_value-digit a n s = rw (digit n) (ap (λ k. digits_value k s) (omega arith))

digits_value-decimal_from :
    (fuel n : ℕ) (s : List ℕ) → n < fuel → digits_value 0 (decimal_from fuel n s) ≡ digits_value n s
unfolding decimal_from
digits_value-decimal_from zero n s h = elim h [ ]
digits_value-decimal_from (suc fuel) n s h = elim (dec_lt n 10) [
  | yes small ↦
      rw (lt→ltb n 10 small)
        (digits_value-digit 0 n s ∙ ap (λ k. digits_value k s) (omega (arith, small)))
  | no big ↦ rw (ge→ltb n 10 (omega (arith, big))) (
      digits_value-decimal_from fuel (n / 10) ((b'0' + n % 10) ∷ s) (omega (arith, big, h))
      ∙ digits_value-digit (n / 10) n s
      ∙ ap (λ k. digits_value k s) (omega arith))
]

-- A printed number is read back, if no digit stands behind it.
pub digits_value-decimal :
    (n : ℕ) (s : List ℕ) → StartsNonDigit s → digits_value 0 (decimal n s) ≡ n
unfolding decimal
digits_value-decimal n s stop =
    digits_value-decimal_from (suc n) n s (omega arith) ∙ digits_value-stop n s stop

-- A printed number starts with a digit.
decimal_from-cons :
    (fuel n : ℕ) (s : List ℕ)
    → n < fuel
    → (d : ℕ) × (t : List ℕ) × (decimal_from fuel n s ≡ d ∷ t) × (is_digit d ≡ true)
unfolding decimal_from
decimal_from-cons zero n s h = elim h [ ]
decimal_from-cons (suc fuel) n s h = elim (dec_lt n 10) [
  | yes small ↦ (b'0' + n % 10, s, rw (lt→ltb n 10 small), digit n)
  | no big ↦
      let (d, t, eq, is) =
        decimal_from-cons fuel (n / 10) ((b'0' + n % 10) ∷ s) (omega (arith, big, h)) in
      (d, t, rw (ge→ltb n 10 (omega (arith, big))) eq, is)
]

pub decimal-cons :
    (n : ℕ) (s : List ℕ) → (d : ℕ) × (t : List ℕ) × (decimal n s ≡ d ∷ t) × (is_digit d ≡ true)
unfolding decimal
decimal-cons n s = decimal_from-cons (suc n) n s (omega arith)

pub digit-not_space : (d : ℕ) → is_digit d ≡ true → is_space d ≡ false
digit-not_space d h = ground arith

-- A printed number of 16 bits is scanned back, whatever stands behind it but a digit.
pub scan_hu-decimal :
    (n : ℕ) (s : List ℕ) → n < 65536 → StartsNonDigit s → scan_hu (decimal n s) ≡ some n
unfolding scan_hu
scan_hu-decimal n s small stop =
    let (d, t, eq, is) = decimal-cons n s in
    ap scan_hu eq
    ∙ rw (digit-not_space d is, is)
        (ap (λ v. some (v % 65536)) (ap (digits_value 0) (sym eq) ∙ digits_value-decimal n s stop)
          ∙ ap some (omega (arith, small)))
