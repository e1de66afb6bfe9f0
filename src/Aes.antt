-- ===== src/Aes.antt =====
-- aes_jh.c: encryption and decryption with padding, over the AES functions of OpenSSL, which are
-- the parameter `Aes`. An `AES_KEY` is the words of its key schedule.
pub mod RoundTrip
use torupload.Base.{
  ℕ, ◌+◌, ◌-◌, ◌%◌, ◌≡◌, ◌&&◌, List, [], ◌∷◌, ◌++◌, ltb, leb, ◌==◌, if◌then◌else◌, length,
  replicate, take, get_or,
}
use torupload.Base.Outcome.{Outcome, ok, assertion, out_of_bounds, guard, ◌>>=◌, ◌>>◌}

abbrev pub AesKey : Type 0
AesKey = List ℕ

-- `AES_set_encrypt_key(text, 128, …)`, `AES_set_decrypt_key(text, 128, …)`, and `AES_cbc_encrypt`
-- in its two directions: key schedule, initialization vector, input.
pub record Aes : Type 0 where
  pub set_encrypt_key : List ℕ → AesKey
  pub set_decrypt_key : List ℕ → AesKey
  pub cbc_encrypt : AesKey → List ℕ → List ℕ → List ℕ
  pub cbc_decrypt : AesKey → List ℕ → List ℕ → List ℕ

-- What is documented of AES in CBC mode: on whole blocks of 16 bytes both directions keep the
-- length, and with schedules of one key of 16 bytes they undo one another.
pub record IsAes (a : Aes) : Type 0 where
  pub length-cbc_encrypt :
      (key iv xs : List ℕ) → length xs % 16 ≡ 0 → length (a.cbc_encrypt key iv xs) ≡ length xs
  pub length-cbc_decrypt :
      (key iv xs : List ℕ) → length xs % 16 ≡ 0 → length (a.cbc_decrypt key iv xs) ≡ length xs
  pub decrypt-encrypt :
      (text iv xs : List ℕ)
      → length text ≡ 16
      → length xs % 16 ≡ 0
      → a.cbc_decrypt (a.set_decrypt_key text) iv (a.cbc_encrypt (a.set_encrypt_key text) iv xs)
        ≡ xs

abbrev pub aes_key_length_in_chars : ℕ
aes_key_length_in_chars = 16

abbrev pub ivec : List ℕ
ivec = replicate 16 0

-- The bytes that pad an input of `len` bytes: zeros, and the count of padding bytes last.
padding_required : ℕ → ℕ
padding_required len =
    let r = aes_key_length_in_chars - len % aes_key_length_in_chars in
    if r == 0 then r + aes_key_length_in_chars else r

pub pad : List ℕ → List ℕ
unfolding padding_required
pad xs = let p = padding_required (length xs) in xs ++ (replicate (p - 1) 0 ++ (p ∷ []))

unfoldable pub encrypt_with_padding : Aes → AesKey → List ℕ → Outcome (List ℕ)
unfolding pad padding_required
encrypt_with_padding a key xs = do
  let p = padding_required (length xs)
  guard (ltb 0 p && leb p aes_key_length_in_chars) assertion
  ok (a.cbc_encrypt key ivec (pad xs))

-- The removal of the padding from the `len` bytes decrypted. The last byte is `(*out)[len - 1]`;
-- an empty input reads before the buffer. A negative `*out_len` makes the copy that every caller
-- goes on with run away.
pub unpad : List ℕ → ℕ → Outcome (List ℕ)
unpad out len = do
  guard (ltb 0 len) out_of_bounds
  let padding_used = get_or out (len - 1) 0
  guard (ltb 0 padding_used && leb padding_used aes_key_length_in_chars) assertion
  guard (leb padding_used len) out_of_bounds
  ok (take (len - padding_used) out)

unfoldable pub decrypt_with_padding : Aes → AesKey → List ℕ → Outcome (List ℕ)
unfolding unpad
decrypt_with_padding a key xs = unpad (a.cbc_decrypt key ivec xs) (length xs)
