-- ===== src/Router/Handler/Lost.antt =====
-- A receive that failed, at a router whose buffer has held a message before.
use torupload.Router.Handler.{
  handle, udp_readable, dispatch, stage5_message, stage6_message, from_udp,
}
use torupload.Router.State.{
  Router, proto_mini_tor, relay_this_data_fwd, relay_this_data_backwd, circuit_extend, send_message,
}
use torupload.Router.Create.{log_pkt, circuit_message, accept_extend, forward_extend}
use torupload.Router.Wrap.{hex_dump}
use torupload.Socket.{failed, receive_message}
use torupload.Message.{Message}
use torupload.Machine.{Machine}
use torupload.Base.Outcome.{fault, out_of_bounds, >>=-fault}
use torupload.Base.{◌≡◌, ◌⊎◌, inl, inr, refl, arith, eq→==, ne→==}

log_pkt-lost :
    (r : Router) (m : Message) → m.actual_length ≡ 65535 → log_pkt r m ≡ fault out_of_bounds
unfolding log_pkt hex_dump
log_pkt-lost r m size = rw size refl

circuit_message-lost :
    (r : Router) (m : Message)
    → m.actual_length ≡ 65535
    → m.msg 20 ≡ circuit_extend
    → circuit_message r m ≡ fault out_of_bounds
unfolding circuit_message accept_extend forward_extend log_pkt hex_dump send_message
circuit_message-lost r m size is = ground arith

module _ (e : Machine) where
  dispatch-lost :
      (r : Router) (m : Message)
      → m.actual_length ≡ 65535
      → m.msg 9 ≡ proto_mini_tor
      → (r.stage ≡ 6)
        ⊎ ((r.stage ≡ 5)
            × ((m.msg 20 ≡ circuit_extend)
                ⊎ ((m.msg 20 ≡ relay_this_data_fwd) ⊎ (m.msg 20 ≡ relay_this_data_backwd))))
      → dispatch e r m ≡ fault out_of_bounds
  unfolding dispatch stage6_message stage5_message
  dispatch-lost r m size tor (inl six) =
      rw
        (
          eq→== (m.msg 9) 253 tor,
          ne→== r.stage 5 (λ five. absurd (omega (arith, five, six))),
          eq→== r.stage 6 six,
        )
        (>>=-fault _ _ (log_pkt-lost r m size))
  dispatch-lost r m size tor (inr (five, inl extend)) =
      rw (eq→== (m.msg 9) 253 tor, eq→== r.stage 5 five, extend)
        (circuit_message-lost r m size extend)
  dispatch-lost r m size tor (inr (five, inr (inl fwd))) =
      rw (eq→== (m.msg 9) 253 tor, eq→== r.stage 5 five, fwd)
        (>>=-fault _ _ (log_pkt-lost r m size))
  dispatch-lost r m size tor (inr (five, inr (inr bwd))) =
      rw (eq→== (m.msg 9) 253 tor, eq→== r.stage 5 five, bwd)
        (>>=-fault _ _ (log_pkt-lost r m size))

  -- A failed receive ends a router's process where the buffer still holds a Mini-Tor message, in
  -- stage 6 any, in stage 5 a CIRCUIT_EXTEND or a data message: `ReceiveMessage` does not notice
  -- the failure, `Handler` takes the old bytes for a new message, of length 65535, and dumping or
  -- sending it reads out of bounds.
  pub handle-lost :
      (r : Router)
      → r.r_message.msg 9 ≡ proto_mini_tor
      → (r.stage ≡ 6)
        ⊎ ((r.stage ≡ 5)
            × ((r.r_message.msg 20 ≡ circuit_extend)
                ⊎ ((r.r_message.msg 20 ≡ relay_this_data_fwd)
                    ⊎ (r.r_message.msg 20 ≡ relay_this_data_backwd))))
      → handle e r (from_udp failed) ≡ fault out_of_bounds
  unfolding handle udp_readable receive_message
  handle-lost r tor where_it_is =
      >>=-fault
        (dispatch e (record r { r_message = record r.r_message { actual_length = 65535 } })
          (record r.r_message { actual_length = 65535 }))
        _
        (dispatch-lost (record r { r_message = record r.r_message { actual_length = 65535 } })
          (record r.r_message { actual_length = 65535 }) refl tor where_it_is)
