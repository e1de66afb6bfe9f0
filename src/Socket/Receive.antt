-- ===== src/Socket/Receive.antt =====
-- What a receive leaves, and what becomes of a failed one.
use torupload.Base.{
  length, take, ℕ, zero, suc, ◌≤◌, ◌≡◌, refl, ap, List, [], ◌∷◌, arith, ◌∙◌, eq→==,
}
use torupload.Base.Outcome.{ok}
use torupload.Message.{Message, place, u16}
use torupload.Socket.{UdpSocket, SockAddr, Received, arrived, receive_message, raw_receive_message}

pub kept_all : (n : ℕ) (xs : List ℕ) → length xs ≤ n → take n xs ≡ xs
kept_all zero [] h = refl
kept_all zero (x ∷ xs) h = absurd (omega arith)
kept_all (suc n) [] h = refl
kept_all (suc n) (x ∷ xs) h = ap (λ r. x ∷ r) (kept_all n xs (omega arith))

-- A datagram that fits arrives whole, and its sender is kept as the last one.
pub receive_message_lem :
    (s : UdpSocket) (m : Message) (from : SockAddr) (xs : List ℕ)
    → length xs ≤ 500
    → receive_message s m (arrived from xs)
      ≡ ok (
        record s { last_sender = from },
        record { msg = place m.msg 0 xs; actual_length = length xs },
      )
unfolding receive_message
receive_message_lem s m from xs h =
    ap
      (λ ys. ok (
        record s { last_sender = from },
        record { msg = place m.msg 0 ys; actual_length = u16 (length ys) },
      ))
      (kept_all 500 xs h)
    ∙ ap
        (λ n.
          ok
            (record s { last_sender = from }, record { msg = place m.msg 0 xs; actual_length = n }))
        (omega arith)

-- A reply of 84 bytes on the raw socket.
pub raw_receive_message_lem :
    (m : Message) (from : SockAddr) (xs : List ℕ)
    → length xs ≡ 84
    → raw_receive_message m (arrived from xs)
      ≡ ok (record { msg = place m.msg 0 xs; actual_length = length xs })
unfolding raw_receive_message
raw_receive_message_lem m from xs size =
    rw (kept_all 500 xs (omega arith), eq→== (u16 (length xs)) 84 (omega arith))
      (ap (λ n. ok (record { msg = place m.msg 0 xs; actual_length = n })) (omega arith))

-- A receive never stops the process: of the socket it changes the last sender only.
pub receive_message-total :
    (s : UdpSocket) (m : Message) (got : Received)
    → (last : SockAddr) × (m' : Message) × (receive_message s m got
        ≡ ok (record s { last_sender = last }, m'))
unfolding receive_message
receive_message-total s m got = (_, _, refl)
