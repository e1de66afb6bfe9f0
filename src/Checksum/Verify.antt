-- ===== src/Checksum/Verify.antt =====
-- A checksum that was stored in its own range makes the range sum up to nothing.
use torupload.Base.{
  ℕ, zero, suc, ◌+◌, ◌-◌, ◌*◌, ◌%◌, ◌^◌, ◌≤◌, ◌<◌, ◌≡◌, refl, ap, subst, fun_ext, ◌∙◌, sym, arith,
  ◌⊎◌, inl, inr, ap₂,
}
use torupload.Message.{Buffer, load16, store16}
use torupload.Checksum.{sum_words, fold, csum}

abbrev pub IsBytes : Buffer → Type 0
IsBytes f = (i : ℕ) → f i < 256

-- The plain sum of the words.
abbrev pub total : Buffer → ℕ → ℕ → ℕ
total f o zero = 0
total f o (suc n) = load16 f o + total f (suc (suc o)) n

pub total-le : (f : Buffer) (o n : ℕ) → IsBytes f → total f o n ≤ n * 65535
total-le f o zero b = omega arith
total-le f o (suc n) b = omega (arith, b o, b (o + 1), total-le f (suc (suc o)) n b)

sum_words-total :
    (f : Buffer) (o n sum : ℕ)
    → IsBytes f
    → sum + n * 65535 < 2 ^ 64
    → sum_words f o n sum ≡ sum + total f o n
unfolding sum_words
sum_words-total f o zero sum b h = omega arith
sum_words-total f o (suc n) sum b h = rw small (
    sum_words-total f (suc (suc o)) n (sum + load16 f o) b (omega (arith, b o, b (o + 1)))
    ∙ omega arith)
  where
    small : (sum + load16 f o) % 2 ^ 64 ≡ sum + load16 f o
    small = omega (arith, b o, b (o + 1))

-- Two ranges that agree byte by byte have one sum.
total_ext :
    (f g : Buffer) (o n : ℕ)
    → ((i : ℕ) → o ≤ i → i < o + n * 2 → f i ≡ g i)
    → total f o n ≡ total g o n
total_ext f g o zero h = refl
total_ext f g o (suc n) h = omega (
  arith,
  h o (omega arith) (omega arith),
  h (o + 1) (omega arith) (omega arith),
  total_ext f g (suc (suc o)) n (λ i lo hi. h i (omega arith) (omega arith)),
)

pub load16-store16 : (f : Buffer) (o c : ℕ) → c < 65536 → load16 (store16 f o c) o ≡ c
load16-store16 f o c h = ground arith

pub store16-outside : (f : Buffer) (o c i : ℕ) → (i < o) ⊎ (o + 2 ≤ i) → store16 f o c i ≡ f i
store16-outside f o c i h = ground arith

-- Raising one word of the range raises the sum by as much.
total_raise :
    (g h : Buffer) (o n k p c : ℕ)
    → k < n
    → p ≡ o + k * 2
    → load16 g p ≡ load16 h p + c
    → ((i : ℕ) → (i < p) ⊎ (p + 2 ≤ i) → g i ≡ h i)
    → total g o n ≡ total h o n + c
total_raise g h o zero k p c lt e word rest = elim lt [ ]
total_raise g h o (suc n) zero p c lt e word rest = omega (
  arith,
  subst (λ q. load16 g q ≡ load16 h q + c) at word,
  total_ext g h (suc (suc o)) n (λ i lo hi. rest i (inr (omega arith))),
)
  where
    at : p ≡ o
    at = omega arith
total_raise g h o (suc n) (suc k) p c lt e word rest = omega (
  arith,
  total_raise g h (suc (suc o)) n k p c (omega arith) (omega arith) word rest,
  rest o (inl (omega arith)),
  rest (o + 1) (inl (omega arith)),
)

total-store16 :
    (f : Buffer) (o n k p c : ℕ)
    → k < n
    → p ≡ o + k * 2
    → c < 65536
    → total (store16 f p c) o n ≡ total (store16 f p 0) o n + c
total-store16 f o n k p c lt e small =
    total_raise (store16 f p c) (store16 f p 0) o n k p c lt e
      (omega (arith, load16-store16 f p c small, load16-store16 f p 0 (omega arith)))
      (λ i out. store16-outside f p c i out ∙ sym (store16-outside f p 0 i out))

fold_complement : (t : ℕ) → t < 2 ^ 32 → 65535 - fold (t + (65535 - fold t % 65536)) % 65536 ≡ 0
unfolding fold
fold_complement t h = omega arith

pub csum-total :
    (f : Buffer) (o n : ℕ) → IsBytes f → n ≤ 32768 → csum f o n ≡ 65535 - fold (total f o n) % 65536
unfolding csum
csum-total f o n b h =
    rw (sum_words-total f o n 0 b (omega arith)) (ap (λ t. 65535 - fold t % 65536) (omega arith))

pub store16-IsBytes : (f : Buffer) (p c : ℕ) → IsBytes f → IsBytes (store16 f p c)
store16-IsBytes f p c b i = ground (arith, b i)

-- The way the program sets a checksum: the field is cleared, the sum is taken, and stored.
abbrev pub put_checksum : Buffer → ℕ → ℕ → ℕ → Buffer
put_checksum f o n p = store16 (store16 f p 0) p (csum (store16 f p 0) o n)

-- Storing twice is storing once.
store16_twice : (f : Buffer) (p c d : ℕ) → store16 (store16 f p c) p d ≡ store16 f p d
store16_twice f p c d = fun_ext (λ i. ground arith)

-- In a range of `n <= 32768` words of bytes, let the word number `k < n` be cleared and then set to
-- the checksum of the range. The checksum of the range is 0 after that.
pub csum-put_checksum :
    (f : Buffer) (o n k p : ℕ)
    → IsBytes f
    → n ≤ 32768
    → k < n
    → p ≡ o + k * 2
    → csum (put_checksum f o n p) o n ≡ 0
csum-put_checksum f o n k p b small h e =
    rw (store16_twice f p 0 c, csum-total (store16 f p c) o n (store16-IsBytes f p c b) small)
      (rw (total-store16 f o n k p c h e c_small, csum-total (store16 f p 0) o n cleared small)
        (fold_complement (total (store16 f p 0) o n)
          (omega (arith, total-le (store16 f p 0) o n cleared))))
  where
    cleared : IsBytes (store16 f p 0)
    cleared = store16-IsBytes f p 0 b

    c : ℕ
    c = csum (store16 f p 0) o n

    c_small : c < 65536
    c_small = omega (arith, csum-total (store16 f p 0) o n cleared small)

sum_words_ext :
    (f g : Buffer) (o n sum : ℕ)
    → ((i : ℕ) → o ≤ i → i < o + n * 2 → f i ≡ g i)
    → sum_words f o n sum ≡ sum_words g o n sum
unfolding sum_words
sum_words_ext f g o zero sum h = refl
sum_words_ext f g o (suc n) sum h =
    sum_words_ext f g (suc (suc o)) n ((sum + load16 f o) % 2 ^ 64)
      (λ i lo hi. h i (omega arith) (omega arith))
    ∙ ap (λ w. sum_words g (suc (suc o)) n ((sum + w) % 2 ^ 64))
        (ap₂ (λ a b. a + 256 * b) (h o (omega arith) (omega arith))
          (h (o + 1) (omega arith) (omega arith)))

-- The checksum depends on the bytes of its range only.
pub csum_ext :
    (f g : Buffer) (o n : ℕ)
    → ((i : ℕ) → o ≤ i → i < o + n * 2 → f i ≡ g i)
    → csum f o n ≡ csum g o n
unfolding csum
csum_ext f g o n h = ap (λ s. 65535 - fold s % 65536) (sum_words_ext f g o n 0 h)

sum_words_shift :
    (f g : Buffer) (o p n sum : ℕ)
    → ((i : ℕ) → i < n * 2 → f (o + i) ≡ g (p + i))
    → sum_words f o n sum ≡ sum_words g p n sum
unfolding sum_words
sum_words_shift f g o p zero sum h = refl
sum_words_shift f g o p (suc n) sum h =
    sum_words_shift f g (suc (suc o)) (suc (suc p)) n ((sum + load16 f o) % 2 ^ 64) (λ i hi.
      ap f {x = suc (suc o) + i} {y = o + suc (suc i)} (omega arith)
      ∙ h (suc (suc i)) (omega arith)
      ∙ ap g {x = p + suc (suc i)} {y = suc (suc p) + i} (omega arith))
    ∙ ap (λ w. sum_words g (suc (suc p)) n ((sum + w) % 2 ^ 64))
        (ap₂ (λ a b. a + 256 * b)
          (ap f {x = o} {y = o + 0} (omega arith)
            ∙ h 0 (omega arith)
            ∙ ap g {x = p + 0} {y = p} (omega arith))
          (h 1 (omega arith)))

-- Nor on where the range stands.
pub csum_shift :
    (f g : Buffer) (o p n : ℕ)
    → ((i : ℕ) → i < n * 2 → f (o + i) ≡ g (p + i))
    → csum f o n ≡ csum g p n
unfolding csum
csum_shift f g o p n h = ap (λ s. 65535 - fold s % 65536) (sum_words_shift f g o p n 0 h)
