-- ===== src/Onion.antt =====
-- The onion functions of proxy.cc: a layer of encryption for each hop of the circuit.
pub mod Peel
use torupload.Base.{ℕ, zero, suc, List, [], ◌∷◌, Option, none, some}
use torupload.Base.Outcome.{Outcome, ok, fault, out_of_bounds, null_pointer, ◌>>=◌}
use torupload.Message.{Message}
use torupload.Key.{MyKey, encrypt_this_message, decrypt_this_message}
use torupload.Machine.{Machine}

-- `TOR_HOP`; the last entry of the array has no key.
pub record TorHop : Type 0 where
  pub router_id : ℕ
  pub router_key : Option MyKey

pub key_of_hop : Option MyKey → Outcome MyKey
key_of_hop none = fault null_pointer
key_of_hop (some k) = ok k

-- `TOR_CCt_HOPs[i]`.
unfoldable pub hop_at : List TorHop → ℕ → Outcome TorHop
hop_at [] i = fault out_of_bounds
hop_at (h ∷ hs) zero = ok h
hop_at (h ∷ hs) (suc i) = hop_at hs i

-- `TOR_CCt_HOPs[i].routerKEY`.
unfoldable pub hop_key : List TorHop → ℕ → Outcome MyKey
unfolding key_of_hop hop_at
hop_key hs i = do h ← hop_at hs i; key_of_hop h.router_key

module _ (e : Machine) where
  -- `OnionEncrypt(PlainText, nthHopOfCCt)`, from hop `nthHopOfCCt` down to hop 0: the argument
  -- here is the number of rounds, `nthHopOfCCt + 1`.
  unfoldable pub onion_encrypt : List TorHop → Message → ℕ → Outcome Message
  unfolding hop_key
  onion_encrypt hops plain zero = ok plain
  onion_encrypt hops plain (suc nth_hop) = do
    k ← hop_key hops nth_hop
    encrypted ← encrypt_this_message e k plain
    onion_encrypt hops encrypted nth_hop

  -- The loop of `OnionDecrypt`, with `rounds` left.
  pub decrypt_hops : List TorHop → Message → ℕ → ℕ → Outcome Message
  unfolding hop_key
  decrypt_hops hops encrypted i zero = ok encrypted
  decrypt_hops hops encrypted i (suc rounds) = do
    k ← hop_key hops i
    plain ← decrypt_this_message e k encrypted
    decrypt_hops hops plain (suc i) rounds

  unfoldable pub onion_decrypt : List TorHop → ℕ → Message → Outcome Message
  unfolding decrypt_hops
  onion_decrypt hops no_of_hops encrypted = decrypt_hops hops encrypted 0 no_of_hops
