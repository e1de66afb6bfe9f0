-- ===== src/Checksum/Reference.antt =====
-- `csum` of MyDEBUG.cc against the definition of the Internet checksum.
-- The word at an offset as the network orders its two bytes.
use torupload.Checksum.{csum, fold}
use torupload.Checksum.Verify.{IsBytes, total, total-le, csum-total}
use torupload.Message.{Buffer, htons}
use torupload.Base.{
  leb, if◌then◌else◌, ℕ, zero, suc, ◌+◌, ◌-◌, ◌*◌, ◌/◌, ◌%◌, ◌^◌, ◌≤◌, ◌<◌, ◌≡◌, refl, ◌∙◌, ◌⊎◌,
  inr, arith, inl, ap,
}

abbrev pub network_word : Buffer → ℕ → ℕ
network_word f o = f o * 256 + f (o + 1)

-- Addition of 16-bit words with the carry added at the low end.
abbrev pub add_around : ℕ → ℕ → ℕ
add_around a b = if leb 65536 (a + b) then a + b - 65535 else a + b

abbrev pub sum_around : Buffer → ℕ → ℕ → ℕ
sum_around f o zero = 0
sum_around f o (suc n) = add_around (network_word f o) (sum_around f (suc (suc o)) n)

-- The complement of the sum of the range's words, all in network order.
abbrev pub internet_checksum : Buffer → ℕ → ℕ → ℕ
internet_checksum f o n = 65535 - sum_around f o n

-- The plain sum of the words in network order.
abbrev total_network : Buffer → ℕ → ℕ → ℕ
total_network f o zero = 0
total_network f o (suc n) = network_word f o + total_network f (suc (suc o)) n

-- The sums in the two orders differ by a factor of 256, up to multiples of 65535.
total-total_network :
    (f : Buffer) (o n : ℕ)
    → (q : ℕ) × (256 * total f o n ≡ total_network f o n + 65535 * q)
      × (total f o n ≤ 256 * total_network f o n)
total-total_network f o zero = (0, omega arith, omega arith)
total-total_network f o (suc n) =
    let (q, differ, bound) = total-total_network f (suc (suc o)) n in
    (q + f (o + 1), omega arith, omega arith)

add_around-le : (a b : ℕ) → a ≤ 65535 → b ≤ 65535 → add_around a b ≤ 65535
add_around-le a b ha hb = ground arith

add_around_lem :
    (a b : ℕ) → (add_around a b ≡ a + b) ⊎ ((add_around a b + 65535 ≡ a + b) × (0 < add_around a b))
add_around_lem a b = ground arith

-- So do the plain sum and the one with the carries added.
sum_around_lem :
    (f : Buffer) (o n : ℕ)
    → IsBytes f
    → (q : ℕ) × (total_network f o n ≡ sum_around f o n + 65535 * q)
      × (sum_around f o n ≤ 65535)
      × (sum_around f o n ≡ 0 → total_network f o n ≡ 0)
sum_around_lem f o zero b = (0, omega arith, omega arith, λ _. refl)
sum_around_lem f o (suc n) b =
    let (q, differ, small, empty) = sum_around_lem f (suc (suc o)) n b in
    let word = network_word f o in
    let rest = sum_around f (suc (suc o)) n in
    let bound = add_around-le word rest (omega (arith, b o, b (o + 1))) small in
    elim (add_around_lem word rest) [
      | inl plain ↦ (
        q,
        omega (arith, plain),
        bound,
        λ nothing. omega (arith, plain, empty (omega (arith, plain, nothing))),
      )
      | inr (carried, pos) ↦ (q + 1, omega (arith, carried), bound, λ nothing. absurd (omega arith))
    ]

fold_lem :
    (t : ℕ)
    → t < 2 ^ 32
    → (q : ℕ) × (t ≡ fold t % 65536 + 65535 * q)
      × (fold t % 65536 ≤ 65535)
      × (fold t % 65536 ≡ 0 → t ≡ 0)
unfolding fold
fold_lem t small =
    (t / 65536 + (t / 65536 + t % 65536) / 65536, omega arith, omega arith, λ nothing. omega arith)

zero-or-pos : (n : ℕ) → (n ≡ 0) ⊎ (0 < n)
zero-or-pos n = ground arith

-- Two 16-bit words, one of which differs from 256 times the other by a multiple of 65535, are one
-- word in the two orders of its bytes.
swapped_word :
    (x y q p : ℕ)
    → x ≤ 65535
    → y ≤ 65535
    → 256 * x + 65535 * q ≡ y + 65535 * p
    → (x ≡ 0 → y ≡ 0)
    → (y ≡ 0 → x ≡ 0)
    → htons (65535 - x) ≡ 65535 - y
swapped_word x y q p hx hy differ zx zy = elim (zero-or-pos x) [
  | inl none_x ↦ omega (arith, none_x, zx none_x)
  | inr pos_x ↦ elim (zero-or-pos y) [
    | inl none_y ↦ absurd (omega (arith, zy none_y, pos_x))
    | inr pos_y ↦ omega (arith, pos_x, pos_y)
  ]
]

-- Of a range of at most 32768 words of bytes, `csum` gives, its two bytes exchanged, the Internet
-- checksum as it is defined: the complement of the sum of the words in network order, with every
-- carry added at the low end. The program sums up in host order and folds the carries in at the
-- end.
pub csum-internet_checksum :
    (f : Buffer) (o n : ℕ) → IsBytes f → n ≤ 32768 → htons (csum f o n) ≡ internet_checksum f o n
csum-internet_checksum f o n b few =
    let (q, swapped, bound) = total-total_network f o n in
    let (q1, around, small, empty) = sum_around_lem f o n b in
    let (q2, folded, small2, empty2) = fold_lem (total f o n) (omega (arith, total-le f o n b)) in
    ap htons (csum-total f o n b few)
    ∙ swapped_word (fold (total f o n) % 65536) (sum_around f o n) (256 * q2) (q1 + q) small2 small
        (omega arith) (λ nothing. omega (arith, empty2 nothing))
        (λ nothing. omega (arith, empty nothing))
