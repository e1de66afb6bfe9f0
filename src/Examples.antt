-- ===== src/Examples.antt =====
-- A small overlay of stage 6 to try the model on: two routers, a proxy, an echo request, and a
-- cipher that is simple enough to compute with.
pub mod Trips
pub mod Parts
pub mod Builds
pub mod Starts
pub mod Sessions
pub mod Plain
use torupload.Circuit.{Node}
use torupload.Proxy.State.{Proxy}
use torupload.Onion.{TorHop}
use torupload.Circuit.Forward.{HoldsKey}
use torupload.Machine.{Machine}
use torupload.Onion.Peel.{AllKeys}
use torupload.Key.{MyKey}
use torupload.Router.State.{Router}
use torupload.Socket.{SockAddr, UdpSocket, new_socket, no_address}
use torupload.Base.{
  ◌==◌, if◌then◌else◌, length, replicate, ℕ, zero, suc, ◌%◌, ◌≡◌, refl, sym, ap₂, ◌∙◌, true, false,
  none, some, List, [], ◌∷◌, ◌++◌, ap, ltb, get_or, ◌<◌, Bool, ◌&&◌, arith,
}
use torupload.Aes.{Aes, IsAes}
use torupload.Message.{Message}

abbrev toggle : ℕ → ℕ
toggle zero = 1
toggle (suc zero) = 0
toggle (suc (suc n)) = suc (suc (toggle n))

toggle_twice : (n : ℕ) → toggle (toggle n) ≡ n
toggle_twice zero = refl
toggle_twice (suc zero) = refl
toggle_twice (suc (suc n)) = ap (λ k. suc (suc k)) (toggle_twice n)

-- The lowest bit of every byte is turned over, once more for each byte of the key schedule.
abbrev toggle_all : List ℕ → List ℕ
toggle_all [] = []
toggle_all (x ∷ xs) = toggle x ∷ toggle_all xs

abbrev toggled : List ℕ → List ℕ → List ℕ
toggled [] xs = xs
toggled (k ∷ ks) xs = toggle_all (toggled ks xs)

toggle_all_twice : (xs : List ℕ) → toggle_all (toggle_all xs) ≡ xs
toggle_all_twice [] = refl
toggle_all_twice (x ∷ xs) = ap₂ (λ y ys. y ∷ ys) (toggle_twice x) (toggle_all_twice xs)

toggle_all-toggled : (ks xs : List ℕ) → toggle_all (toggled ks xs) ≡ toggled ks (toggle_all xs)
toggle_all-toggled [] xs = refl
toggle_all-toggled (k ∷ ks) xs = ap toggle_all (toggle_all-toggled ks xs)

toggled_twice : (ks xs : List ℕ) → toggled ks (toggled ks xs) ≡ xs
toggled_twice [] xs = refl
toggled_twice (k ∷ ks) xs =
    ap toggle_all (sym (toggle_all-toggled ks (toggled ks xs)))
    ∙ toggle_all_twice (toggled ks (toggled ks xs))
    ∙ toggled_twice ks xs

length-toggle_all : (xs : List ℕ) → length (toggle_all xs) ≡ length xs
length-toggle_all [] = refl
length-toggle_all (x ∷ xs) = ap suc (length-toggle_all xs)

length-toggled : (ks xs : List ℕ) → length (toggled ks xs) ≡ length xs
length-toggled [] xs = refl
length-toggled (k ∷ ks) xs = length-toggle_all (toggled ks xs) ∙ length-toggled ks xs

-- The schedule of a key is one byte for an odd first byte, and empty for an even one.
abbrev schedule : List ℕ → List ℕ
schedule [] = []
schedule (k ∷ ks) = if k % 2 == 0 then [] else 1 ∷ []

abbrev pub toy_aes : Aes
toy_aes = record {
  set_encrypt_key = schedule;
  set_decrypt_key = schedule;
  cbc_encrypt = λ key iv xs. toggled key xs;
  cbc_decrypt = λ key iv xs. toggled key xs;
}

pub toy_aes-IsAes : IsAes toy_aes
toy_aes-IsAes = record {
  length-cbc_encrypt = λ key iv xs whole. length-toggled key xs;
  length-cbc_decrypt = λ key iv xs whole. length-toggled key xs;
  decrypt-encrypt = λ text iv xs size whole. toggled_twice (schedule text) xs;
}

abbrev pub toy : Machine
toy = record { aes = toy_aes; indeterminate = λ i. 0xcc; nic = λ n. 0x0100a8c0 }

abbrev pub text1 : List ℕ
text1 = replicate 16 7

abbrev pub text2 : List ℕ
text2 = replicate 16 8

abbrev pub key1 : MyKey
key1 = record { key_text = text1; aes_key_enc = schedule text1; aes_key_dec = schedule text1 }

abbrev pub key2 : MyKey
key2 = record { key_text = text2; aes_key_enc = schedule text2; aes_key_dec = schedule text2 }

abbrev pub keys : List MyKey
keys = key1 ∷ key2 ∷ []

pub keys-AllKeys : AllKeys toy keys
keys-AllKeys = (
  record { size = refl; enc = refl; dec = refl },
  (record { size = refl; enc = refl; dec = refl }, tt),
)

abbrev pub hops : List TorHop
hops =
    record { router_id = 1; router_key = some key1 }
    ∷ record { router_id = 2; router_key = some key2 }
    ∷ record { router_id = 0xff; router_key = none }
    ∷ []

abbrev pub address1 : SockAddr
address1 = record { sin_addr = 0x0100007f; sin_port = 1001 }

abbrev pub address2 : SockAddr
address2 = record { sin_addr = 0x0100007f; sin_port = 1002 }

abbrev pub proxy_address : SockAddr
proxy_address = record { sin_addr = 0x0100007f; sin_port = 1000 }

-- The proxy's socket has heard of router 1 and router 2.
abbrev pub parent_socket : UdpSocket
parent_socket = record {
  last_sender = address2;
  send_to_address = address2;
  who_have_send_me = some address1 ∷ some address2 ∷ replicate 8 none;
  sender_count = 2;
}

abbrev pub proxy : Proxy
proxy = record {
  stage = 6;
  no_of_routers = 2;
  no_of_hops = 2;
  sock_parent = parent_socket;
  next_circuit = 2;
  my_cct_hops = 1 ∷ 2 ∷ [];
  tor_cct_hops = hops;
  trace = [];
}

abbrev pub blank_message : Message
blank_message = record { msg = λ i. 0; actual_length = 0 }

abbrev pub fresh_router : ℕ → Router
fresh_router id = record {
  stage = 6;
  my_router_id = id;
  my_raw_ip = 0;
  port_no_of_proxy = 1000;
  sock_child = new_socket;
  entry = record {
    circuit_requester_addr = no_address;
    prev_hop_real_ip = 0;
    given_circuit_id = 0;
    my_circuit_id = 0;
    next_hop_rtr_for_circuit = no_address;
    ptr_to_key_for_cct = none;
  };
  to_forward = false;
  to_forward_fdh = false;
  to_forward_ece = false;
  r_message = blank_message;
  trace = [];
}

abbrev pub router_on : ℕ → SockAddr → ℕ → ℕ → SockAddr → MyKey → Router
router_on id requester given own next k = record (fresh_router id) {
  entry = record {
    circuit_requester_addr = requester;
    prev_hop_real_ip = 0;
    given_circuit_id = given;
    my_circuit_id = own;
    next_hop_rtr_for_circuit = next;
    ptr_to_key_for_cct = some k;
  };
  to_forward_fdh = true;
  to_forward_ece = true;
}

abbrev pub router1 : Router
router1 = router_on 1 proxy_address 1 258 address2 key1

abbrev pub router2 : Router
router2 = router_on 2 address1 258 771 (record { sin_addr = 0; sin_port = 0xffff }) key2

abbrev pub node1 : Node
node1 = record { address = address1; router = router1 }

abbrev pub node2 : Node
node2 = record { address = address2; router = router2 }

-- An echo request of 84 bytes from 10.0.2.15 to 8.8.4.4, its checksums left out.
abbrev pub echo_request : List ℕ
echo_request =
    (69 ∷ 0 ∷ 0 ∷ 84 ∷ 0 ∷ 0 ∷ 64 ∷ 0 ∷ 64 ∷ 1 ∷ 0 ∷ 0 ∷ 10 ∷ 0 ∷ 2 ∷ 15 ∷ 8 ∷ 8 ∷ 4 ∷ 4 ∷ [])
    ++ (8 ∷ 0 ∷ replicate 62 42)

abbrev pub request : Message
request = record { msg = λ i. if i == 20 then 8 else 42; actual_length = 84 }

-- A packet as it travels in an onion, its source blank.
abbrev pub packet : List ℕ
packet =
    (69 ∷ 0 ∷ 0 ∷ 84 ∷ 0 ∷ 0 ∷ 64 ∷ 0 ∷ 64 ∷ 1 ∷ 0 ∷ 0 ∷ 0 ∷ 0 ∷ 0 ∷ 0 ∷ 8 ∷ 8 ∷ 4 ∷ 4 ∷ [])
    ++ (8 ∷ 0 ∷ replicate 62 42)

pub holds1 : HoldsKey toy router1 key1
holds1 = record { stage = refl; key = refl; schedules = keys-AllKeys.0 }

pub holds2 : HoldsKey toy router2 key2
holds2 = record { stage = refl; key = refl; schedules = keys-AllKeys.1.0 }

abbrev all_bytes : List ℕ → Bool
all_bytes [] = true
all_bytes (x ∷ xs) = ltb x 256 && all_bytes xs

bytes_of : (xs : List ℕ) → all_bytes xs ≡ true → (i : ℕ) → get_or xs i 0 < 256
bytes_of [] h i = omega arith
bytes_of (x ∷ xs) h zero = ground (arith, h)
bytes_of (x ∷ xs) h (suc i) = bytes_of xs (ground (arith, h)) i

pub echo_request-IsBytes : (i : ℕ) → get_or echo_request i 0 < 256
echo_request-IsBytes = bytes_of echo_request refl
