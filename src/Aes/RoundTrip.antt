-- ===== src/Aes/RoundTrip.antt =====
-- Padding and encryption, undone by decryption and the removal of the padding.
use torupload.Base.{
  ℕ, ◌+◌, ◌-◌, ◌%◌, ◌≤◌, ◌<◌, ◌≡◌, refl, ap, ap₂, ◌∙◌, List, [], ◌∷◌, ◌++◌, arith, length,
  replicate, take, get_or, length-append, length-replicate, take-append, get_or-append_right,
  lt→ltb, le→leb,
}
use torupload.Base.Outcome.{ok}
use torupload.Aes.{
  Aes, IsAes, AesKey, ivec, padding_required, pad, unpad, encrypt_with_padding,
  decrypt_with_padding,
}

-- The length of the padded input: the next multiple of 16 above `n`.
abbrev pub padded : ℕ → ℕ
padded n = n + (16 - n % 16)

padding_required_lem : (n : ℕ) → padding_required n ≡ 16 - n % 16
unfolding padding_required
padding_required_lem n = ground arith

abbrev padding : ℕ → List ℕ
padding n = replicate (padding_required n - 1) 0 ++ (padding_required n ∷ [])

pad-padding : (xs : List ℕ) → pad xs ≡ xs ++ padding (length xs)
unfolding pad
pad-padding xs = refl

length-padding : (n : ℕ) → length (padding n) ≡ 16 - n % 16
length-padding n = omega (
  arith,
  padding_required_lem n,
  length-append (replicate (padding_required n - 1) 0) (padding_required n ∷ []),
  length-replicate {A = ℕ} (padding_required n - 1) 0,
)

pub length-pad : (xs : List ℕ) → length (pad xs) ≡ padded (length xs)
length-pad xs =
    ap length (pad-padding xs)
    ∙ length-append xs (padding (length xs))
    ∙ ap (λ k. length xs + k) (length-padding (length xs))

-- The last byte written tells how many there are.
last-pad : (xs : List ℕ) → get_or (pad xs) (length (pad xs) - 1) 0 ≡ padding_required (length xs)
last-pad xs =
    ap₂ (λ l k. get_or l k 0) (pad-padding xs) place_of_last
    ∙ get_or-append_right xs (padding (length xs)) (p - 1) 0
    ∙ ap (λ k. get_or (padding (length xs)) k 0) (omega (arith, length-replicate {A = ℕ} (p - 1) 0))
    ∙ get_or-append_right (replicate (p - 1) 0) (p ∷ []) 0 0
  where
    p : ℕ
    p = padding_required (length xs)

    place_of_last : length (pad xs) - 1 ≡ length xs + (p - 1)
    place_of_last = omega (arith, length-pad xs, padding_required_lem (length xs))

take-pad : (xs : List ℕ) → take (length xs) (pad xs) ≡ xs
take-pad xs = rw (pad-padding xs) (take-append xs (padding (length xs)))

-- Encryption succeeds on every input.
pub encrypt_with_padding_lem :
    (a : Aes) (key : AesKey) (xs : List ℕ)
    → encrypt_with_padding a key xs ≡ ok (a.cbc_encrypt key ivec (pad xs))
unfolding encrypt_with_padding
encrypt_with_padding_lem a key xs = ground (arith, padding_required_lem (length xs))

-- Where the last byte counts a padding that fits, that many bytes are taken off.
unpad_lem :
    (out : List ℕ) (len n p : ℕ)
    → get_or out (len - 1) 0 ≡ p
    → 0 < p
    → p ≤ 16
    → len ≡ n + p
    → unpad out len ≡ ok (take n out)
unfolding unpad
unpad_lem out len n p last pos small e = rw last (
    rw (lt→ltb 0 len (omega arith), lt→ltb 0 p pos, le→leb p 16 small, le→leb p len (omega arith))
      (ap (λ k. ok (take k out)) (omega arith)))

unpad-pad : (xs : List ℕ) → unpad (pad xs) (length (pad xs)) ≡ ok xs
unpad-pad xs =
    unpad_lem (pad xs) (length (pad xs)) (length xs) (padding_required (length xs)) (last-pad xs)
      (omega (arith, padding_required_lem (length xs)))
      (omega (arith, padding_required_lem (length xs)))
      (omega (arith, padding_required_lem (length xs), length-pad xs))
    ∙ ap ok (take-pad xs)

module _ {a : Aes} (laws : IsAes a) where
  -- The output is longer by 1 to 16 bytes and fills whole blocks.
  pub length-encrypt :
      (key : AesKey) (xs : List ℕ) → length (a.cbc_encrypt key ivec (pad xs)) ≡ padded (length xs)
  length-encrypt key xs =
      laws.length-cbc_encrypt key ivec (pad xs) (omega (arith, length-pad xs)) ∙ length-pad xs

  -- Under schedules of one key decryption gives the input back, whatever it was.
  pub decrypt-encrypt_with_padding :
      (text xs : List ℕ)
      → length text ≡ 16
      → decrypt_with_padding a
          (a.set_decrypt_key text)
          (a.cbc_encrypt (a.set_encrypt_key text) ivec (pad xs))
        ≡ ok xs
  unfolding decrypt_with_padding
  decrypt-encrypt_with_padding text xs key =
      ap₂ unpad (laws.decrypt-encrypt text ivec (pad xs) key (omega (arith, length-pad xs))) (
        laws.length-cbc_encrypt (a.set_encrypt_key text) ivec (pad xs)
          (omega (arith, length-pad xs)))
      ∙ unpad-pad xs

  -- `encrypt_with_padding` succeeds on every input; what it gives is as long as the input padded to
  -- whole blocks, by 1 to 16 bytes; and `decrypt_with_padding` under the schedules of the same key
  -- of 16 bytes gives the input back.
  pub decrypt_with_padding-encrypt_with_padding :
      (text xs : List ℕ)
      → length text ≡ 16
      → (out : List ℕ) × (encrypt_with_padding a (a.set_encrypt_key text) xs ≡ ok out)
        × (length out ≡ padded (length xs))
        × (decrypt_with_padding a (a.set_decrypt_key text) out ≡ ok xs)
  decrypt_with_padding-encrypt_with_padding text xs key = (
    a.cbc_encrypt (a.set_encrypt_key text) ivec (pad xs),
    encrypt_with_padding_lem a (a.set_encrypt_key text) xs,
    length-encrypt (a.set_encrypt_key text) xs,
    decrypt-encrypt_with_padding text xs key,
  )
