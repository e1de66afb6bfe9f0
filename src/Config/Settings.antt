-- ===== src/Config/Settings.antt =====
-- What the configuration file says.
use torupload.Base.{
  ltb, ◌==◌, length, All, ℕ, ◌≡◌, refl, sym, ◌∙◌, true, false, some, List, [], ◌∷◌, ◌++◌, arith,
  All-append, append_assoc, ap, ◌≤◌, ◌<◌, subst, lt→ltb, ge→ltb, none,
}
use torupload.Text.{is_space, is_digit, decimal, digits_value}
use torupload.Text.Formats.{decimal-All, decimal-append}
use torupload.Text.Numbers.{decimal-cons, digit-not_space, digits_value-decimal}
use torupload.Config.{
  value_of, word_of, scan_word, scan_d, unsigned_value, scan_setting, read_config, next_line,
}
use torupload.Config.Lines.{IsLineChar, AreComments, commented, next_line-commented}
use torupload.Base.Outcome.{ok, out_of_bounds, guard, ◌>>◌, fault}
use torupload.Socket.{ℤ, pos, negsuc}

-- A character of a word.
abbrev pub IsWordChar : ℕ → Type 0
IsWordChar c = (is_space c ≡ false) × ((c == 0) ≡ false)

word_of-append : (w t : List ℕ) → All IsWordChar w → word_of (w ++ 32 ∷ t) ≡ (w, 32 ∷ t)
unfolding word_of
word_of-append [] t h = refl
word_of-append (c ∷ w) t h = rw (h.0.0, word_of-append w t h.1)

scan_word-append :
    (c : ℕ) (w t : List ℕ)
    → All IsWordChar (c ∷ w)
    → scan_word (c ∷ w ++ 32 ∷ t) ≡ some (c ∷ w, 32 ∷ t)
unfolding scan_word
scan_word-append c w t h = rw h.0.0 (ap some (word_of-append (c ∷ w) t h))

digit-not_sign : (d : ℕ) → is_digit d ≡ true → ((d == b'-') ≡ false) × ((d == b'+') ≡ false)
digit-not_sign d h = (ground arith, ground arith)

scan_d-decimal : (n : ℕ) → scan_d (32 ∷ decimal n (b'\n' ∷ [])) ≡ some (pos n)
unfolding scan_d unsigned_value
scan_d-decimal n =
    let (d, t, eq, is) = decimal-cons n (b'\n' ∷ []) in
    let (minus, plus) = digit-not_sign d is in
    ap (λ s. scan_d (32 ∷ s)) eq
    ∙ rw (digit-not_space d is, minus, plus, is)
        (ap (λ v. some (pos v))
          (ap (digits_value 0) (sym eq) ∙ digits_value-decimal n (b'\n' ∷ []) refl))

-- A word and a number.
abbrev pub setting : List ℕ → ℕ → List ℕ
setting w n = w ++ 32 ∷ decimal n []

setting-line : (w : List ℕ) (n : ℕ) → setting w n ++ b'\n' ∷ [] ≡ w ++ 32 ∷ decimal n (b'\n' ∷ [])
setting-line w n =
    append_assoc w (32 ∷ decimal n []) (b'\n' ∷ [])
    ∙ ap (λ s. w ++ 32 ∷ s) (sym (decimal-append n [] (b'\n' ∷ [])))

-- What is found in such a line: the number, if the word and its NUL fit the array.
pub scan_setting-line :
    (size c : ℕ) (w : List ℕ) (n : ℕ) (value : ℤ)
    → All IsWordChar (c ∷ w)
    → scan_setting size (setting (c ∷ w) n ++ b'\n' ∷ []) value
      ≡ (guard (ltb (length (c ∷ w)) size) out_of_bounds >> ok (pos n))
unfolding value_of
scan_setting-line size c w n value h =
    ap (λ l. scan_setting size l value) (setting-line (c ∷ w) n)
    ∙ ap (value_of size value) (scan_word-append c w (decimal n (b'\n' ∷ [])) h)
    ∙ ap
        (λ v.
          guard (ltb (length (c ∷ w)) size) out_of_bounds
          >> ok (elim v as (λ _. ℤ) [ none ↦ value | some k ↦ k ]))
        (scan_d-decimal n)

IsWordChar-IsLineChar : (c : ℕ) → IsWordChar c → IsLineChar c
IsWordChar-IsLineChar c h = (ground (arith, h.0), h.1)

All-word_line : (w : List ℕ) → All IsWordChar w → All IsLineChar w
All-word_line [] h = tt
All-word_line (c ∷ w) h = (IsWordChar-IsLineChar c h.0, All-word_line w h.1)

setting-IsLine : (w : List ℕ) (n : ℕ) → All IsWordChar w → All IsLineChar (setting w n)
setting-IsLine w n h =
    All-append IsLineChar w (32 ∷ decimal n []) (All-word_line w h)
      ((refl, refl), decimal-All IsLineChar (λ k. (ground arith, ground arith)) n [] tt)

-- Three such lines, each behind comments.
abbrev pub config_of :
    (w1 : List ℕ) (stage : ℕ) (w2 : List ℕ) (routers : ℕ) (w3 : List ℕ) (hops : ℕ)
    → List (List ℕ)
    → List (List ℕ)
    → List (List ℕ)
    → List ℕ
config_of w1 stage w2 routers w3 hops c1 c2 c3 = commented c1 (
    setting w1 stage
    ++ b'\n'
      ∷ commented c2 (setting w2 routers ++ b'\n' ∷ commented c3 (setting w3 hops ++ b'\n' ∷ [])))

-- The words of a line: it starts with no `#`, and it fits the array of `readNextLine`.
pub record IsSetting (w : List ℕ) (n : ℕ) : Type 0 where
  pub first : ℕ
  pub others : List ℕ
  pub is : w ≡ first ∷ others
  pub word : All IsWordChar (first ∷ others)
  pub no_comment : (first == b'#') ≡ false
  pub short : length (setting (first ∷ others) n) < 99

next_line-setting :
    (comments : List (List ℕ)) (w : List ℕ) (n : ℕ) (rest : List ℕ)
    → AreComments comments
    → IsSetting w n
    → next_line (commented comments (setting w n ++ b'\n' ∷ rest))
      ≡ (setting w n ++ b'\n' ∷ [], rest)
next_line-setting comments w n rest hs h =
    subst
      (λ v.
        next_line (commented comments (setting v n ++ b'\n' ∷ rest))
        ≡ (setting v n ++ b'\n' ∷ [], rest))
      (sym h.is)
      (next_line-commented comments h.first (h.others ++ 32 ∷ decimal n []) rest hs
        (setting-IsLine (h.first ∷ h.others) n h.word) (omega (arith, h.short)) h.no_comment)

scan_setting-IsSetting :
    (size : ℕ) (w : List ℕ) (n : ℕ) (value : ℤ)
    → IsSetting w n
    → scan_setting size (setting w n ++ b'\n' ∷ []) value
      ≡ (guard (ltb (length w) size) out_of_bounds >> ok (pos n))
scan_setting-IsSetting size w n value h =
    subst
      (λ v.
        scan_setting size (setting v n ++ b'\n' ∷ []) value
        ≡ (guard (ltb (length v) size) out_of_bounds >> ok (pos n)))
      (sym h.is) (scan_setting-line size h.first h.others n value h.word)

-- A configuration file of three such lines, whose first word fits its array: if the second word has
-- 10 characters or more, `main` writes past the array of 10 bytes that it is scanned into. The file
-- in the repository has such a word, of 11.
pub read_config-long_word :
    (w1 w2 w3 : List ℕ) (stage routers hops : ℕ) (c1 c2 c3 : List (List ℕ))
    → IsSetting w1 stage
    → IsSetting w2 routers
    → AreComments c1
    → AreComments c2
    → length w1 < 10
    → 10 ≤ length w2
    → read_config (config_of w1 stage w2 routers w3 hops c1 c2 c3) ≡ fault out_of_bounds
unfolding read_config
read_config-long_word w1 w2 w3 stage routers hops c1 c2 c3 s1 s2 h1 h2 l1 long =
    rw
      (
        next_line-setting c1 w1 stage _ h1 s1,
        scan_setting-IsSetting 10 w1 stage (negsuc 0) s1,
        lt→ltb (length w1) 10 l1,
        next_line-setting c2 w2 routers _ h2 s2,
        scan_setting-IsSetting 10 w2 routers (negsuc 0) s2,
        ge→ltb (length w2) 10 long,
      )
      refl
