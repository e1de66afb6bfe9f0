-- ===== src/Router/Handler/Stage5.antt =====
-- A circuit message of stage 5, from `recvfrom` to the branch that deals with it.
use torupload.Socket.Receive.{receive_message_lem}
use torupload.Base.Outcome.{ok, >>=-ok}
use torupload.Router.Wrap.Bytes.{tor_bytes, IsTor, IsTor-protocol}
use torupload.Message.{Message}
use torupload.Machine.{Machine}
use torupload.Socket.{SockAddr, arrived}
use torupload.Base.{eq→==, length, ℕ, ◌+◌, ◌≤◌, ◌≡◌, refl, ◌∙◌, ◌⊎◌, inl, inr, List, arith, ne→==}
use torupload.Router.Handler.{handle, from_udp, dispatch, stage5_message, udp_readable}
use torupload.Router.Handler.Stage6.{arrival, arrival-IsTor}
use torupload.Router.Create.{circuit_message}
use torupload.Router.State.{Router, circuit_extend, circuit_extend_done}

-- The router with the message that has come in, its sender noted.
abbrev pub reached : Router → SockAddr → List ℕ → Router
reached r from bytes = record r {
  sock_child = record r.sock_child { last_sender = from };
  r_message = arrival r bytes;
}

module _ (e : Machine) where
  dispatch-stage5 :
      (r : Router) (m : Message) {c l h : ℕ} {xs : List ℕ}
      → r.stage ≡ 5
      → IsTor m c l h xs
      → (c ≡ circuit_extend) ⊎ (c ≡ circuit_extend_done)
      → dispatch e r m ≡ circuit_message r m
  unfolding dispatch stage5_message
  dispatch-stage5 r m stage t (inl extend) =
      rw
        (
          eq→== r.stage 5 stage,
          eq→== (m.msg 9) 253 (IsTor-protocol t),
          ne→== (m.msg 20) 0x54 (λ q. absurd (omega (arith, q, t.command_byte, extend))),
          ne→== (m.msg 20) 0x51 (λ q. absurd (omega (arith, q, t.command_byte, extend))),
        )
        refl
  dispatch-stage5 r m stage t (inr done) =
      rw
        (
          eq→== r.stage 5 stage,
          eq→== (m.msg 9) 253 (IsTor-protocol t),
          ne→== (m.msg 20) 0x54 (λ q. absurd (omega (arith, q, t.command_byte, done))),
          ne→== (m.msg 20) 0x51 (λ q. absurd (omega (arith, q, t.command_byte, done))),
        )
        refl

  pub handle-circuit5 :
      (r : Router) (from : SockAddr) (c l h : ℕ) (xs : List ℕ) {r' : Router} {m' : Message}
      → r.stage ≡ 5
      → 23 + length xs ≤ 500
      → (c ≡ circuit_extend) ⊎ (c ≡ circuit_extend_done)
      → circuit_message (reached r from (tor_bytes c l h xs)) (arrival r (tor_bytes c l h xs))
        ≡ ok (r', m')
      → handle e r (from_udp (arrived from (tor_bytes c l h xs)))
        ≡ ok (record r' { r_message = m' })
  unfolding handle udp_readable
  handle-circuit5 r from c l h xs stage room command run =
      >>=-ok _ _
        (receive_message_lem r.sock_child r.r_message from (tor_bytes c l h xs) (omega arith))
        (>>=-ok _ _
          (dispatch-stage5 (reached r from (tor_bytes c l h xs)) (arrival r (tor_bytes c l h xs))
              stage (arrival-IsTor r c l h xs) command
            ∙ run)
          refl)
