-- ===== src/Key/RoundTrip.antt =====
-- Messages under one key.
use Prim.Native.Nat.{bit_xor}
use torupload.Base.{◌∙◌, length-map}
use torupload.Base.{◌≡◌, List, ◌+◌, ℕ, ◌≤◌, length, le→leb, arith, ap, refl}
use torupload.Base.Outcome.{ok, ◌>>=◌}
use torupload.Message.{Message, place, fill, u16, wire}
use torupload.Message.Laws.{slice-place, length-slice}
use torupload.Aes.{IsAes, pad, ivec}
use torupload.Aes.RoundTrip.{
  padded, encrypt_with_padding_lem, length-encrypt, decrypt-encrypt_with_padding,
}
use torupload.Machine.{Machine}
use torupload.Key.{MyKey, encrypt_this_message, decrypt_this_message, key_of_router, key_from_proxy}

-- A text of 16 bytes, and schedules made from it, as both constructors do.
pub record IsKey (e : Machine) (k : MyKey) : Type 0 where
  pub size : length k.key_text ≡ 16
  pub enc : k.aes_key_enc ≡ e.aes.set_encrypt_key k.key_text
  pub dec : k.aes_key_dec ≡ e.aes.set_decrypt_key k.key_text

pub key_of_router-IsKey :
    (e : Machine) (random : List ℕ) (id : ℕ)
    → length random ≡ 16
    → IsKey e (key_of_router e random id)
unfolding key_of_router
key_of_router-IsKey e random id size = record {
  size = length-map (λ b. bit_xor b id) random ∙ size;
  enc = refl;
  dec = refl;
}

pub key_from_proxy-IsKey :
    (e : Machine) (text : List ℕ) → length text ≡ 16 → IsKey e (key_from_proxy e text)
unfolding key_from_proxy
key_from_proxy-IsKey e text size = record { size = size; enc = refl; dec = refl }

module _ (e : Machine) where
  -- A message in a fresh object that holds these bytes.
  abbrev pub packed : List ℕ → Message
  packed xs = record { msg = place e.indeterminate 0 xs; actual_length = length xs }

  pub wire-packed : (xs : List ℕ) → wire (packed xs) ≡ xs
  wire-packed xs = slice-place e.indeterminate 0 xs

  -- One layer of encryption.
  abbrev pub seal : MyKey → List ℕ → List ℕ
  seal k xs = e.aes.cbc_encrypt k.aes_key_enc ivec (pad xs)

  pack_bytes :
      (xs : List ℕ)
      → length xs ≤ 500
      → (fill e.indeterminate 0 xs >>= λ b.
          ok (record { msg = b; actual_length = u16 (length xs) }))
        ≡ ok (packed xs)
  unfolding fill
  pack_bytes xs h =
      rw (le→leb (0 + length xs) 500 (omega arith)) (
        ap (λ n. ok (record { msg = place e.indeterminate 0 xs; actual_length = n })) (omega arith))

  module _ (laws : IsAes e.aes) (k : MyKey) where
    pub length-seal : (xs : List ℕ) → length (seal k xs) ≡ padded (length xs)
    length-seal xs = length-encrypt laws k.aes_key_enc xs

    -- Encryption succeeds where the padded message fits.
    pub encrypt_this_message_lem :
        (m : Message)
        → m.actual_length + 16 ≤ 500
        → encrypt_this_message e k m ≡ ok (packed (seal k (wire m)))
    unfolding encrypt_this_message
    encrypt_this_message_lem m h =
        rw
          (
            le→leb m.actual_length 500 (omega arith),
            encrypt_with_padding_lem e.aes k.aes_key_enc (wire m),
          )
          (pack_bytes (seal k (wire m))
            (omega (arith, length-seal (wire m), length-slice m.msg 0 m.actual_length)))

    -- Decryption takes the layer off again.
    pub decrypt_this_message_lem :
        (m : Message) (xs : List ℕ)
        → IsKey e k
        → wire m ≡ seal k xs
        → m.actual_length ≤ 500
        → decrypt_this_message e k m ≡ ok (packed xs)
    unfolding decrypt_this_message
    decrypt_this_message_lem m xs key layer h =
        rw
          (
            le→leb m.actual_length 500 h,
            layer,
            key.enc,
            key.dec,
            decrypt-encrypt_with_padding laws k.key_text xs key.size,
          )
          (pack_bytes xs
            (omega (arith, length-seal xs, ap length layer, length-slice m.msg 0 m.actual_length)))
