-- ===== src/Proxy/Hops/Laws.antt =====
-- The hops that are selected.
use torupload.Base.{
  length, get_or, ℕ, zero, suc, ◌+◌, ◌%◌, ◌≤◌, ◌<◌, ◌≡◌, refl, ap, ◌∙◌, ◌≢◌, List, [], ◌∷◌, arith,
  sym, subst, ◌-◌,
}
use native.Mathlib.Nat.{mod-eq_of_lt, mod-eq-sub-mod, mod-add-mod}
use native.Mathlib.Decide.{dec_lt}
use torupload.Proxy.Hops.{numbered, select_loop, randomly_select_hops2}

get_or-numbered : (var n j : ℕ) → j < n → get_or (numbered var n) j 0 ≡ var + j + 1
unfolding numbered
get_or-numbered var zero j h = elim h [ ]
get_or-numbered var (suc n) zero h = omega arith
get_or-numbered var (suc n) (suc j) h = get_or-numbered (var + 1) n j (omega arith) ∙ omega arith

-- Hop number `j` (from 0) is router `(rand + j + 1) % n + 1`.
abbrev pub AreHops : ℕ → ℕ → List ℕ → Type 0
AreHops n i [] = Unit {0}
AreHops n i (r ∷ hops) = (r ≡ (i + 1) % n + 1) × AreHops n (i + 1) hops

select_loop-AreHops : (n i rounds : ℕ) → 0 < n → AreHops n i (select_loop n i rounds)
unfolding select_loop
select_loop-AreHops n i zero h = tt
select_loop-AreHops n i (suc rounds) h = (
  get_or-numbered 0 n ((i + 1) % n) (omega arith) ∙ omega arith,
  select_loop-AreHops n (i + 1) rounds h,
)

length-select_loop : (n i rounds : ℕ) → length (select_loop n i rounds) ≡ rounds
unfolding select_loop
length-select_loop n i zero = refl
length-select_loop n i (suc rounds) = ap suc (length-select_loop n (i + 1) rounds)

-- Two indices less than `n` apart have different remainders.
mod_apart : (n i d : ℕ) → 0 < d → d < n → (i + d) % n ≢ i % n
mod_apart n i d pos h e = elim (dec_lt (i % n + d) n) [
  | yes small ↦ absurd (omega (arith, around ∙ mod-eq_of_lt small, e))
  | no big ↦ absurd (
      omega (
        arith,
        around
            ∙ mod-eq-sub-mod (omega arith)
            ∙ mod-eq_of_lt (let lt : i % n + d - n < n = omega arith in lt),
        e,
      ))
]
  where
    around : (i + d) % n ≡ (i % n + d) % n
    around = sym (mod-add-mod i n d)

abbrev pub Absent : ℕ → List ℕ → Type 0
Absent x [] = Unit {0}
Absent x (y ∷ ys) = (x ≢ y) × Absent x ys

abbrev pub Distinct : List ℕ → Type 0
Distinct [] = Unit {0}
Distinct (x ∷ xs) = Absent x xs × Distinct xs

abbrev pub InRange : ℕ → List ℕ → Type 0
InRange n [] = Unit {0}
InRange n (r ∷ hops) = ((1 ≤ r) × (r ≤ n)) × InRange n hops

AreHops-Absent :
    (n i d : ℕ) (hops : List ℕ)
    → AreHops n (i + d) hops
    → d + length hops < n
    → Absent (i % n + 1) hops
AreHops-Absent n i d [] a h = tt
AreHops-Absent n i d (r ∷ hops) a h = (
  λ e.
      mod_apart n i (d + 1) (omega arith) (omega arith)
        (ap (λ k. k % n) {x = i + (d + 1)} {y = i + d + 1} (omega arith) ∙ omega (arith, e, a.0)),
  AreHops-Absent n i (d + 1) hops (subst (λ k. AreHops n k hops) (omega arith) a.1) (omega arith),
)

AreHops-Distinct : (n i : ℕ) (hops : List ℕ) → AreHops n i hops → length hops ≤ n → Distinct hops
AreHops-Distinct n i [] a h = tt
AreHops-Distinct n i (r ∷ hops) a h = (
  subst (λ x. Absent x hops) (sym a.0)
      (AreHops-Absent n (i + 1) 0 hops (subst (λ k. AreHops n k hops) (omega arith) a.1)
        (omega arith)),
  AreHops-Distinct n (i + 1) hops a.1 (omega arith),
)

AreHops-InRange : (n i : ℕ) (hops : List ℕ) → 0 < n → AreHops n i hops → InRange n hops
AreHops-InRange n i [] h a = tt
AreHops-InRange n i (r ∷ hops) h a =
    ((omega (arith, a.0), omega (arith, a.0)), AreHops-InRange n (i + 1) hops h a.1)

-- With at least one router, and no more hops than routers, the selection is as long as asked for,
-- names existing routers only (from 1 on), and names none of them twice, whatever `rand` gives.
pub randomly_select_hops2_lem :
    (rand n hops : ℕ)
    → 0 < n
    → hops ≤ n
    → (length (randomly_select_hops2 rand n hops) ≡ hops)
      × InRange n (randomly_select_hops2 rand n hops)
      × Distinct (randomly_select_hops2 rand n hops)
unfolding randomly_select_hops2
randomly_select_hops2_lem rand n hops pos h =
    let a = select_loop-AreHops n (rand % n) hops pos in
    let len = length-select_loop n (rand % n) hops in
    (
      len,
      AreHops-InRange n (rand % n) (select_loop n (rand % n) hops) pos a,
      AreHops-Distinct n (rand % n) (select_loop n (rand % n) hops) a (omega (arith, len)),
    )

pub length-randomly_select_hops2 :
    (rand n hops : ℕ) → length (randomly_select_hops2 rand n hops) ≡ hops
unfolding randomly_select_hops2
length-randomly_select_hops2 rand n hops = length-select_loop n (rand % n) hops
