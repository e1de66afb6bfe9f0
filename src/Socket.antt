-- ===== src/Socket.antt =====
-- `UDPSocket` and `RawSockets` of SocketAPI.cc: the addresses that a socket keeps, and what a
-- receive leaves in a message.
pub mod Senders
pub mod Receive
pub mod Open
use torupload.Base.{
  ltb, leb, ◌==◌, length, take, replicate, ℕ, zero, suc, ◌+◌, ◌-◌, ◌%◌, Bool, true, false, not,
  Option, none, some, List, [], ◌∷◌,
}
use torupload.Base.Outcome.{
  Outcome, ok, fault, assertion, out_of_bounds, null_pointer, exit, guard, ◌>>=◌, ◌>>◌,
}
use torupload.Message.{Message, place, max_message_length, u16, wire, htons}

-- Address and port lie in network order, as `struct sockaddr_in` holds them.
pub record SockAddr : Type 0 where
  pub sin_addr : ℕ
  pub sin_port : ℕ

abbrev pub max_senders : ℕ
max_senders = 10

-- `who_have_send_me` has `max_senders` pointers; `none` is the null pointer.
pub record UdpSocket : Type 0 where
  pub last_sender : SockAddr
  pub send_to_address : SockAddr
  pub who_have_send_me : List (Option SockAddr)
  pub sender_count : ℕ

abbrev pub no_address : SockAddr
no_address = record { sin_addr = 0; sin_port = 0 }

-- The constructor.
unfoldable pub new_socket : UdpSocket
new_socket = record {
  last_sender = no_address;
  send_to_address = no_address;
  who_have_send_me = replicate 10 none;
  sender_count = 0;
}

-- `whoHaveSendMe[i]`.
unfoldable pub slot : List (Option SockAddr) → ℕ → Outcome (Option SockAddr)
slot [] i = fault out_of_bounds
slot (a ∷ s) zero = ok a
slot (a ∷ s) (suc i) = slot s i

unfoldable pub set_slot : List (Option SockAddr) → ℕ → SockAddr → List (Option SockAddr)
set_slot [] i v = []
set_slot (a ∷ s) zero v = some v ∷ s
set_slot (a ∷ s) (suc i) v = a ∷ set_slot s i v

abbrev pub is_null : Option SockAddr → Bool
is_null none = true
is_null (some a) = false

-- `whoHaveSendMe[routerID - 1]`; an identifier of 0 reads before the array.
unfoldable pub slot_of : UdpSocket → ℕ → Outcome (Option SockAddr)
unfolding slot
slot_of s router_id = do
  guard (ltb 0 router_id) out_of_bounds
  slot s.who_have_send_me (router_id - 1)

unfoldable pub save_last_sender_info : UdpSocket → ℕ → Outcome UdpSocket
unfolding slot_of set_slot
save_last_sender_info s router_id = do
  guard (ltb s.sender_count max_senders) assertion
  old ← slot_of s router_id
  guard (is_null old) assertion
  ok (record s {
    who_have_send_me = set_slot s.who_have_send_me (router_id - 1) s.last_sender;
    sender_count = s.sender_count + 1;
  })

-- `*whoHaveSendMe[routerID - 1]`.
unfoldable pub address_of_router : UdpSocket → ℕ → Outcome SockAddr
unfolding slot_of
address_of_router s router_id = do
  a ← slot_of s router_id
  elim a [ none ↦ fault null_pointer | some b ↦ ok b ]

unfoldable pub set_this_router_as_sender : UdpSocket → ℕ → Outcome UdpSocket
unfolding address_of_router
set_this_router_as_sender s router_id = do
  a ← address_of_router s router_id
  ok (record s { send_to_address = a })

-- The draws of `SetRandomReceiver`: the values of `rand()` one after the other, until one hits a
-- router that has sent. `none`: the values at hand are used up.
unfoldable pub draw : List (Option SockAddr) → List ℕ → Outcome (Option SockAddr)
unfolding slot
draw table [] = ok none
draw table (r ∷ rands) =
    let rest = draw table rands in
    slot table (r % max_senders) >>= λ a. elim a [ none ↦ rest | some b ↦ ok (some b) ]

unfoldable pub set_random_receiver : UdpSocket → List ℕ → Outcome (Option UdpSocket)
unfolding draw
set_random_receiver s rands = do
  guard (ltb 0 s.sender_count) assertion
  a ← draw s.who_have_send_me rands
  ok (elim a [ none ↦ none | some b ↦ some (record s { send_to_address = b }) ])

abbrev pub set_receiver_as_last_sender : UdpSocket → UdpSocket
set_receiver_as_last_sender s = record s { send_to_address = s.last_sender }

abbrev pub set_reciver_sock_address : UdpSocket → SockAddr → UdpSocket
set_reciver_sock_address s a = record s { send_to_address = a }

-- 127.0.0.1 in network order.
abbrev pub loopback : ℕ
loopback = 0x0100007f

-- The variant for a numeric host name and port, which `getaddrinfo` resolves.
abbrev pub set_reciver_by_name : UdpSocket → ℕ → ℕ → UdpSocket
set_reciver_by_name s ip port = record s {
  send_to_address = record { sin_addr = ip; sin_port = htons port };
}

-- The bytes that `SendMessage` hands to `sendto`.
unfoldable pub datagram : Message → Outcome (List ℕ)
datagram m = do guard (leb m.actual_length max_message_length) out_of_bounds; ok (wire m)

-- The result of `recvfrom`: a datagram, of which at most `max_message_length` bytes are kept, or -1.
pub data Received : Type 0 where
  arrived : SockAddr → List ℕ → Received
  failed : Received

-- An `int`, as far as the program looks at one; `negsuc n` is -(n + 1).
pub data ℤ : Type 0 where
  pos : ℕ → ℤ
  negsuc : ℕ → ℤ

abbrev pub eq_ℤ : ℤ → ℤ → Bool
eq_ℤ (pos a) (pos b) = a == b
eq_ℤ (negsuc a) (negsuc b) = a == b
eq_ℤ (pos a) (negsuc b) = false
eq_ℤ (negsuc a) (pos b) = false

-- The cast of an `int` to `unsigned short`.
abbrev pub to_u16 : ℤ → ℕ
to_u16 (pos n) = u16 n
to_u16 (negsuc n) = 65535 - n % 65536

kept : List ℕ → List ℕ
kept xs = take max_message_length xs

result_of : Received → ℤ
unfolding kept
result_of (arrived from xs) = pos (length (kept xs))
result_of failed = negsuc 0

-- What the call writes to the message and the address; a failed call writes nothing.
message_after : Received → Message → Message
unfolding kept result_of
message_after (arrived from xs) m = record {
  msg = place m.msg 0 (kept xs);
  actual_length = to_u16 (result_of (arrived from xs));
}
message_after failed m = record m { actual_length = to_u16 (result_of failed) }

sender_after : Received → SockAddr → SockAddr
sender_after (arrived from xs) last = from
sender_after failed last = last

unfoldable pub receive_message : UdpSocket → Message → Received → Outcome (UdpSocket × Message)
unfolding message_after sender_after
receive_message s m got = do
  let m' = message_after got m
  guard (not (eq_ℤ (pos m'.actual_length) (negsuc 0))) (exit 1)
  ok (record s { last_sender = sender_after got s.last_sender }, m')

-- `RawSockets::ReceiveMessage`; nothing reads the sender that it records.
unfoldable pub raw_receive_message : Message → Received → Outcome Message
unfolding message_after
raw_receive_message m got = do
  let m' = message_after got m
  guard (m'.actual_length == 84) assertion
  guard (not (eq_ℤ (pos m'.actual_length) (negsuc 0))) (exit 1)
  ok m'
