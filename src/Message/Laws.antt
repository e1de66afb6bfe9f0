-- ===== src/Message/Laws.antt =====
-- Laws of the reads and writes of a message's bytes.
use torupload.Base.Outcome.{ok}
use torupload.Base.{
  ℕ, zero, suc, ◌+◌, ◌-◌, ◌≤◌, ◌<◌, ◌≡◌, refl, ap, ap₂, ◌∙◌, List, [], ◌∷◌, ◌++◌, arith, length,
  get_or, get_or-beyond, ltb, le→leb, get_or-append_right,
}
use torupload.Message.{Buffer, slice, place, memcpy, fill}

pub length-slice : (f : Buffer) (o n : ℕ) → length (slice f o n) ≡ n
length-slice f o zero = refl
length-slice f o (suc n) = ap suc (length-slice f (suc o) n)

-- Slices agree where their bytes do.
pub slice_ext :
    (f g : Buffer) (o p n : ℕ)
    → ((i : ℕ) → i < n → f (o + i) ≡ g (p + i))
    → slice f o n ≡ slice g p n
slice_ext f g o p zero h = refl
slice_ext f g o p (suc n) h =
    ap₂ ◌∷◌ first (slice_ext f g (suc o) (suc p) n (λ i lt. later i (h (suc i) (omega arith))))
  where
    first : f o ≡ g p
    first = ap f (omega arith) ∙ h 0 (omega arith) ∙ ap g (omega arith)

    later : (i : ℕ) → f (o + suc i) ≡ g (p + suc i) → f (suc o + i) ≡ g (suc p + i)
    later i e = ap f (omega arith) ∙ e ∙ ap g (omega arith)

pub slice-add : (f : Buffer) (o n k : ℕ) → slice f o (n + k) ≡ slice f o n ++ slice f (o + n) k
slice-add f o zero k = ap₂ (slice f) {x = o} (omega arith) (omega arith)
slice-add f o (suc n) k =
    ap (slice f o) step
    ∙ ap (λ r. f o ∷ r)
        (slice-add f (suc o) n k ∙ ap (λ p. slice f (suc o) n ++ slice f p k) (omega arith))
  where
    step : suc n + k ≡ suc (n + k)
    step = omega arith

pub slice-list :
    (f : Buffer) (o : ℕ) (xs : List ℕ) (d : ℕ → ℕ)
    → ((i : ℕ) → i < length xs → f (o + i) ≡ get_or xs i (d i))
    → slice f o (length xs) ≡ xs
slice-list f o [] d h = refl
slice-list f o (x ∷ xs) d h = ap₂ ◌∷◌ (ap f (omega arith) ∙ h 0 (omega arith)) (
    slice-list f (suc o) xs (λ i. d (suc i)) (λ i lt. ap f (omega arith) ∙ h (suc i) (omega arith)))

pub place-below : (f : Buffer) (o : ℕ) (xs : List ℕ) (i : ℕ) → i < o → place f o xs i ≡ f i
place-below f o xs i h = ground arith

pub place-inside :
    (f : Buffer) (o : ℕ) (xs : List ℕ) (i : ℕ) → place f o xs (o + i) ≡ get_or xs i (f (o + i))
place-inside f o xs i = rw (same, open_end)
  where
    same : ltb (o + i) o ≡ ltb 1 0
    same = ground arith

    open_end : o + i - o ≡ i
    open_end = omega arith

pub place-above :
    (f : Buffer) (o : ℕ) (xs : List ℕ) (i : ℕ) → o + length xs ≤ i → place f o xs i ≡ f i
place-above f o xs i h = ground (arith, get_or-beyond xs (i - o) (f i))

-- What was written is read back.
pub slice-place : (f : Buffer) (o : ℕ) (xs : List ℕ) → slice (place f o xs) o (length xs) ≡ xs
slice-place f o xs = slice-list (place f o xs) o xs (λ i. f (o + i)) (λ i lt. place-inside f o xs i)

-- Written bytes are read back from the middle, with whatever stands behind them.
pub slice-place_more :
    (f : Buffer) (pre xs : List ℕ) (n : ℕ)
    → length xs ≤ n
    → (rest : List ℕ) × (slice (place f 0 (pre ++ xs)) (length pre) n ≡ xs ++ rest)
slice-place_more f pre xs n fits = (
  slice g (length pre + length xs) (n - length xs),
  ap (slice g (length pre)) (omega (arith, fits))
      ∙ slice-add g (length pre) (length xs) (n - length xs)
      ∙ ap (λ ys. ys ++ slice g (length pre + length xs) (n - length xs)) middle,
)
  where
    g : Buffer
    g = place f 0 (pre ++ xs)

    middle : slice g (length pre) (length xs) ≡ xs
    middle =
        slice-list g (length pre) xs (λ i. f (0 + (length pre + i)))
          (λ i lt.
            ap g {x = length pre + i} {y = 0 + (length pre + i)} (omega arith)
            ∙ place-inside f 0 (pre ++ xs) (length pre + i)
            ∙ get_or-append_right pre xs i (f (0 + (length pre + i))))

pub slice-place_below :
    (f : Buffer) (o : ℕ) (xs : List ℕ) (p n : ℕ)
    → p + n ≤ o
    → slice (place f o xs) p n ≡ slice f p n
slice-place_below f o xs p n h =
    slice_ext (place f o xs) f p p n (λ i lt. place-below f o xs (p + i) (omega arith))

pub memcpy_lem :
    (dst : Buffer) (o : ℕ) (src : Buffer) (p n : ℕ)
    → o + n ≤ 500
    → p + n ≤ 500
    → memcpy dst o src p n ≡ ok (place dst o (slice src p n))
unfolding memcpy
memcpy_lem dst o src p n h k = rw (le→leb (o + n) 500 h, le→leb (p + n) 500 k)

pub fill_lem :
    (dst : Buffer) (o : ℕ) (xs : List ℕ) → o + length xs ≤ 500 → fill dst o xs ≡ ok (place dst o xs)
unfolding fill
fill_lem dst o xs h = rw (le→leb (o + length xs) 500 h)
