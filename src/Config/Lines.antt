-- ===== src/Config/Lines.antt =====
-- Lines that are read.
use torupload.Base.{
  ◌==◌, length, ℕ, zero, suc, ◌+◌, ◌<◌, ◌≡◌, refl, false, List, [], ◌∷◌, ◌++◌, arith, length-append,
  All,
}
use torupload.Config.{fgets, before_nul, read_next_line, next_line}

-- No newline and no NUL.
abbrev pub IsLineChar : ℕ → Type 0
IsLineChar c = ((c == b'\n') ≡ false) × ((c == 0) ≡ false)

pub fgets-line :
    (n : ℕ) (l rest : List ℕ)
    → All IsLineChar l
    → length l < n
    → fgets n (l ++ b'\n' ∷ rest) ≡ (l ++ b'\n' ∷ [], rest)
unfolding fgets
fgets-line zero l rest h lt = elim lt [ ]
fgets-line (suc n) [] rest h lt = refl
fgets-line (suc n) (c ∷ l) rest h lt = rw (h.0.0, fgets-line n l rest h.1 (omega arith))

pub before_nul-line :
    (l : List ℕ) → All IsLineChar l → before_nul (l ++ b'\n' ∷ []) ≡ l ++ b'\n' ∷ []
unfolding before_nul
before_nul-line [] h = refl
before_nul-line (c ∷ l) h = rw (h.0.1, before_nul-line l h.1)

-- Comments of one array's length each, without the `#` in front and the newline behind.
abbrev pub AreComments : List (List ℕ) → Type 0
AreComments [] = Unit {0}
AreComments (l ∷ ls) = All IsLineChar l × (length l < 98) × AreComments ls

-- A file that has these comments before `s`.
abbrev pub commented : List (List ℕ) → List ℕ → List ℕ
commented [] s = s
commented (l ∷ ls) s = b'#' ∷ (l ++ b'\n' ∷ commented ls s)

read_next_line-commented :
    (fuel : ℕ) (comments : List (List ℕ)) (c : ℕ) (l rest : List ℕ)
    → AreComments comments
    → All IsLineChar (c ∷ l)
    → length l < 98
    → (c == b'#') ≡ false
    → length (commented comments (c ∷ l ++ b'\n' ∷ rest)) < fuel
    → read_next_line fuel (commented comments (c ∷ l ++ b'\n' ∷ rest)) ≡ (c ∷ l ++ b'\n' ∷ [], rest)
unfolding read_next_line
read_next_line-commented zero comments c l rest hs h lt kept enough = elim enough [ ]
read_next_line-commented (suc fuel) [] c l rest hs h lt kept enough =
    rw (kept, fgets-line 99 (c ∷ l) rest h (omega arith), before_nul-line (c ∷ l) h)
read_next_line-commented (suc fuel) (k ∷ ks) c l rest hs h lt kept enough =
    let after = commented ks (c ∷ l ++ b'\n' ∷ rest) in
    rw (fgets-line 99 (b'#' ∷ k) after ((refl, refl), hs.0) (omega (arith, hs.1))) (
      read_next_line-commented fuel ks c l rest hs.2 h lt kept
        (omega (arith, enough, length-append k (b'\n' ∷ after))))

-- The next line that is no comment.
pub next_line-commented :
    (comments : List (List ℕ)) (c : ℕ) (l rest : List ℕ)
    → AreComments comments
    → All IsLineChar (c ∷ l)
    → length l < 98
    → (c == b'#') ≡ false
    → next_line (commented comments (c ∷ l ++ b'\n' ∷ rest)) ≡ (c ∷ l ++ b'\n' ∷ [], rest)
next_line-commented comments c l rest hs h lt kept =
    read_next_line-commented (length (commented comments (c ∷ l ++ b'\n' ∷ rest)) + 1) comments c l
      rest hs h lt kept (omega arith)
