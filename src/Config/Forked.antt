-- ===== src/Config/Forked.antt =====
-- The identifiers of the routers that `main` of Stage1.cc forks.
use mathlib.Core.List.{
  Mem, Nodup, Nodup-cons, Nodup-nil, mem-cons, mem-cons_self, mem-cons_of_mem, not-mem-nil,
}
use mathlib.Core.Logic.Or
use native.Mathlib.Bridge.{le_prop}
use native.Mathlib.Decide.{ℕ_discrete}
use torupload.Config.{ids_from, forked}
use torupload.Base.{ℕ, zero, suc, ◌+◌, ◌≤◌, ◌<◌, ◌≡◌, refl, ap, length, sym, ◌∷◌, arith, subst}
use torupload.Socket.{pos}

ids_from-low : (a i n : ℕ) → Mem a (ids_from i n) → i < a
unfolding ids_from
ids_from-low a i zero m = absurd (not-mem-nil m)
ids_from-low a i (suc n) m =
    Or.elim le_prop (mem-cons.0 m) (λ e. omega arith)
      (λ later. omega (arith, ids_from-low a (i + 1) n later))

ids_from-high : (a i n : ℕ) → Mem a (ids_from i n) → a ≤ i + n
unfolding ids_from
ids_from-high a i zero m = absurd (not-mem-nil m)
ids_from-high a i (suc n) m =
    Or.elim le_prop (mem-cons.0 m) (λ e. omega arith)
      (λ later. omega (arith, ids_from-high a (i + 1) n later))

ids_from-mem : (a i n : ℕ) → i < a → a ≤ i + n → Mem a (ids_from i n)
unfolding ids_from
ids_from-mem a i zero low high = absurd (omega arith)
ids_from-mem a i (suc n) low high = elim (ℕ_discrete a (i + 1)) [
  | yes same ↦ subst (λ b. Mem b ((i + 1) ∷ ids_from (i + 1) n)) (sym same) mem-cons_self
  | no other ↦ mem-cons_of_mem (i + 1) (ids_from-mem a (i + 1) n (omega arith) (omega arith))
]

ids_from-Nodup : (i n : ℕ) → Nodup (ids_from i n)
unfolding ids_from
ids_from-Nodup i zero = Nodup-nil
ids_from-Nodup i (suc n) =
    Nodup-cons.1
      ((λ m. absurd (omega (arith, ids_from-low (i + 1) (i + 1) n m))), ids_from-Nodup (i + 1) n)

length-ids_from : (i n : ℕ) → length (ids_from i n) ≡ n
unfolding ids_from
length-ids_from i zero = refl
length-ids_from i (suc n) = ap suc (length-ids_from (i + 1) n)

-- They are the numbers from 1 on, one for each router, and none of them twice.
pub forked-InRange : (a n : ℕ) → Mem a (forked (pos n)) → (0 < a) × (a ≤ n)
unfolding forked
forked-InRange a n m = (ids_from-low a 0 n m, omega (arith, ids_from-high a 0 n m))

pub forked-mem : (a n : ℕ) → 0 < a → a ≤ n → Mem a (forked (pos n))
unfolding forked
forked-mem a n low high = ids_from-mem a 0 n low (omega arith)

pub forked-Nodup : (n : ℕ) → Nodup (forked (pos n))
unfolding forked
forked-Nodup n = ids_from-Nodup 0 n

pub length-forked : (n : ℕ) → length (forked (pos n)) ≡ n
unfolding forked
length-forked n = length-ids_from 0 n
