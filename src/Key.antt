-- ===== src/Key.antt =====
-- `MyKEY` of SocketAPI.cc: a key of 16 bytes with its two schedules, and the encryption and
-- decryption of a whole message.
pub mod RoundTrip
use Prim.Native.Nat.{bit_xor}
use torupload.Base.{ℕ, List, map, length, leb}
use torupload.Base.Outcome.{Outcome, ok, out_of_bounds, guard, ◌>>=◌, ◌>>◌}
use torupload.Message.{Message, max_message_length, fill, u16, wire}
use torupload.Aes.{AesKey, encrypt_with_padding, decrypt_with_padding}
use torupload.Machine.{Machine}

pub record MyKey : Type 0 where
  pub key_text : List ℕ
  pub aes_key_enc : AesKey
  pub aes_key_dec : AesKey

-- The bytes that a function is handed with a message; the array ends at `max_message_length`.
pub contents : Message → Outcome (List ℕ)
contents m = do guard (leb m.actual_length max_message_length) out_of_bounds; ok (wire m)

module _ (e : Machine) where
  -- The key that the proxy makes: `random` is the 16 bytes of four calls of `rand`.
  unfoldable pub key_of_router : List ℕ → ℕ → MyKey
  key_of_router random router_id =
      let text = map (λ b. bit_xor b router_id) random in
      record {
        key_text = text;
        aes_key_enc = e.aes.set_encrypt_key text;
        aes_key_dec = e.aes.set_decrypt_key text;
      }

  -- The key that a router takes from a message.
  unfoldable pub key_from_proxy : List ℕ → MyKey
  key_from_proxy text = record {
    key_text = text;
    aes_key_enc = e.aes.set_encrypt_key text;
    aes_key_dec = e.aes.set_decrypt_key text;
  }

  unfoldable pub encrypt_this_message : MyKey → Message → Outcome Message
  unfolding contents
  encrypt_this_message k clear = do
    input ← contents clear
    out ← encrypt_with_padding e.aes k.aes_key_enc input
    buffer ← fill e.indeterminate 0 out
    ok (record { msg = buffer; actual_length = u16 (length out) })

  unfoldable pub decrypt_this_message : MyKey → Message → Outcome Message
  unfolding contents
  decrypt_this_message k encrypted = do
    input ← contents encrypted
    out ← decrypt_with_padding e.aes k.aes_key_dec input
    buffer ← fill e.indeterminate 0 out
    ok (record { msg = buffer; actual_length = u16 (length out) })
