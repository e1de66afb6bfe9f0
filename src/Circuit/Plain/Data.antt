-- ===== src/Circuit/Plain/Data.antt =====
-- A packet out over a circuit of stage 5: from the proxy's tunnel to the world.
use torupload.Circuit.Extend.Plan.{nodes_at}
use torupload.Circuit.Extend.Route.{first_port}
use torupload.Circuit.Plain.{IsChain, IsJoint}
use torupload.Message.Laws.{memcpy_lem, length-slice, place-inside}
use torupload.Router.Packet.{send_to_world}
use torupload.Circuit.Plain.Relay.{resourced, forwarded-IsTor, ping_ext, ping_of-resourced}
use torupload.Circuit.Forward.{ping_of}
use torupload.Router.Handler.Stage6.{arrival, log_pkt_lem, arrival-IsTor}
use torupload.Circuit.{newest, newest_of, travel}
use torupload.Trace.{pkt, udp_sent, raw_sent, LogLine, logged, relay_packet, outgoing_packet}
use torupload.Base.Outcome.{ok, >>=-ok}
use torupload.Router.Handler.Stage5.{reached}
use torupload.Router.Wrap.Bytes.{IsTor, tor_bytes, IsTor-protocol, wire-IsTor}
use torupload.Message.{Message, htons, place, slice, store32, wire, Buffer, load32}
use torupload.Socket.{SockAddr, arrived}
use torupload.Router.State.{Router, log_it, relay_this_data_fwd, set_receiver}
use torupload.Router.Relay.{relay_this_stuff, relay_to_world, relay_to_next_hop, forwarded}
use torupload.Router.Handler.{dispatch, handle, udp_readable, stage5_message, from_udp}
use torupload.Machine.{Machine}
use torupload.Base.Outcome.{◌>>=◌}
use torupload.Socket.Receive.{receive_message_lem}
use torupload.Router.Relay6.Layers.{send_message_lem}
use torupload.Base.{
  get_or_inside, ℕ, ◌+◌, ◌/◌, ◌%◌, ◌≤◌, ◌≡◌, ◌≢◌, refl, ap, ◌∙◌, length, some, List, ◌∷◌, arith,
  eq→==, ne→==, get_or, All, ◌<◌, sym, [],
}

module _ (e : Machine) where
  dispatch-data5 :
      (r : Router) {m : Message} {l h : ℕ} (xs : List ℕ)
      → r.stage ≡ 5
      → IsTor m relay_this_data_fwd l h xs
      → m.actual_length ≤ 500
      → dispatch e r m
        ≡ relay_this_stuff e
            (log_it r (
              pkt
                (htons r.sock_child.last_sender.sin_port)
                (3 + length xs)
                (relay_this_data_fwd ∷ l ∷ h ∷ xs)))
            m
  unfolding dispatch stage5_message
  dispatch-data5 r {m} xs stage t room =
      rw
        (
          eq→== r.stage 5 stage,
          eq→== (m.msg 9) 253 (IsTor-protocol t),
          eq→== (m.msg 20) 0x51 t.command_byte,
          ne→== (m.msg 20) 0x54 (λ q. absurd (omega (arith, q, t.command_byte))),
        )
        (>>=-ok _ _ (log_pkt_lem r xs t room) refl)

  abbrev heard : Router → SockAddr → ℕ → ℕ → List ℕ → Router
  heard r from l h xs =
      log_it (reached r from (tor_bytes relay_this_data_fwd l h xs))
        (pkt (htons from.sin_port) (3 + length xs) (relay_this_data_fwd ∷ l ∷ h ∷ xs))

  -- What a router of the chain sends when this data message reaches it: to the next router, or,
  -- at the end of the chain, to the world.
  handle-data5 :
      (r : Router) (from : SockAddr) (l h : ℕ) (xs : List ℕ) {r' : Router} {m' : Message}
      → r.stage ≡ 5
      → 23 + length xs ≤ 500
      → relay_this_stuff e
          (log_it
            (reached r from (tor_bytes relay_this_data_fwd l h xs))
            (pkt (htons from.sin_port) (3 + length xs) (relay_this_data_fwd ∷ l ∷ h ∷ xs)))
          (arrival r (tor_bytes relay_this_data_fwd l h xs))
        ≡ ok (r', m')
      → newest_of (handle e r (from_udp (arrived from (tor_bytes relay_this_data_fwd l h xs))))
        ≡ newest r'.trace
  unfolding handle udp_readable
  handle-data5 r from l h xs {r'} {m'} stage room relayed = ap newest_of (
      >>=-ok _ _
        (receive_message_lem r.sock_child r.r_message from (tor_bytes relay_this_data_fwd l h xs)
          (omega arith))
        (>>=-ok _ _
          (dispatch-data5 (reached r from (tor_bytes relay_this_data_fwd l h xs)) xs stage
              (arrival-IsTor r relay_this_data_fwd l h xs) (omega arith)
            ∙ relayed)
          refl))

  -- The router that passes a message on, the line that it logs, and the packet that the last one
  -- takes out.
  abbrev sees : Router → Message → Router
  sees r m = record (set_receiver r r.entry.next_hop_rtr_for_circuit) {
    entry = record r.entry { prev_hop_real_ip = load32 m.msg 35 };
  }

  abbrev line : Router → Message → LogLine
  line r m =
      relay_packet r.entry.given_circuit_id r.entry.my_circuit_id (load32 m.msg 35)
        (load32 (forwarded e r m).msg 35) (load32 (forwarded e r m).msg 39)

  abbrev taken : Message → Buffer
  taken m = place e.indeterminate 0 (slice m.msg 23 84)

  relays_on :
      (r : Router) {m : Message} {l h : ℕ} (xs : List ℕ)
      → r.entry.next_hop_rtr_for_circuit.sin_port ≢ 0xffff
      → IsTor m relay_this_data_fwd l h xs
      → m.actual_length ≤ 500
      → (r' : Router) × (m' : Message) × (relay_this_stuff e r m ≡ ok (r', m'))
        × (newest r'.trace
            ≡ some (
                udp_sent r.entry.next_hop_rtr_for_circuit (
                  tor_bytes relay_this_data_fwd
                    (htons r.entry.my_circuit_id % 256)
                    (htons r.entry.my_circuit_id / 256 % 256)
                    (resourced (e.nic r.my_router_id) xs))))
  unfolding relay_this_stuff relay_to_next_hop
  relays_on r {m} xs other t room = (
    record (log_it (sees r m) (line r m)) {
      trace =
          udp_sent r.entry.next_hop_rtr_for_circuit (wire (forwarded e r m))
          ∷ logged (line r m)
          ∷ r.trace;
    },
    forwarded e r m,
    rw (t.command_byte, ne→== r.entry.next_hop_rtr_for_circuit.sin_port 0xffff other)
        (>>=-ok _ _ (send_message_lem (log_it (sees r m) (line r m)) (forwarded e r m) room) refl),
    ap (λ bytes. some (udp_sent r.entry.next_hop_rtr_for_circuit bytes))
        (wire-IsTor (forwarded-IsTor e r t)),
  )

  releases :
      (r : Router) {m : Message} {l h : ℕ} (xs : List ℕ)
      → r.entry.next_hop_rtr_for_circuit.sin_port ≡ 0xffff
      → IsTor m relay_this_data_fwd l h xs
      → length xs ≡ 84
      → (r' : Router) × (m' : Message) × (relay_this_stuff e r m ≡ ok (r', m'))
        × (newest r'.trace ≡ some (ping_of xs))
  unfolding relay_this_stuff relay_to_world send_to_world
  releases r {m} xs last t size = (
    log_it (record r { trace = raw_sent (load32 (taken m) 16) (slice (taken m) 20 64) ∷ r.trace })
        (outgoing_packet r.entry.my_circuit_id (load32 m.msg 35) r.my_raw_ip (load32 m.msg 39)),
    m,
    rw
        (
          t.command_byte,
          eq→== r.entry.next_hop_rtr_for_circuit.sin_port 0xffff last,
          eq→== m.actual_length 107 (omega (arith, t.len)),
        )
        (ap
          (λ o. o >>= λ buffer. ok (
            log_it (send_to_world r (record { msg = buffer; actual_length = 84 })) (
                outgoing_packet r.entry.my_circuit_id (load32 m.msg 35) r.my_raw_ip
                  (load32 m.msg 39)),
            m,
          ))
          (memcpy_lem e.indeterminate 0 m.msg 23 84 (omega arith) (omega arith))),
    ap some (
        ping_ext (place e.indeterminate 0 (slice m.msg 23 84)) xs (λ i far lt.
          ap (λ ys. place e.indeterminate 0 ys i) (ap (slice m.msg 23) (sym size) ∙ t.body)
          ∙ ap (place e.indeterminate 0 xs) {x = i} {y = 0 + i} (omega arith)
          ∙ place-inside e.indeterminate 0 xs i
          ∙ get_or_inside xs i (e.indeterminate (0 + i)) 0 (omega arith))),
  )

  -- Along a finished chain to the world.
  pub travel-plain :
      (hops : List SockAddr) (rs : List Router) (prev to : SockAddr) (id l h : ℕ) (xs : List ℕ)
      → IsChain (IsJoint 0xffff) prev id hops rs
      → All (λ a. a.sin_port < 0xffff) hops
      → length xs ≡ 84
      → to.sin_port ≡ first_port hops
      → travel e (nodes_at hops rs) prev (udp_sent to (tor_bytes relay_this_data_fwd l h xs))
        ≡ some (ping_of xs)
  unfolding travel
  travel-plain [] rs prev to id l h xs chain low size port = absurd chain
  travel-plain (a ∷ hops) [] prev to id l h xs chain low size port = absurd chain
  travel-plain (a ∷ []) (r ∷ []) prev to id l h xs joint low size port =
      let (r', m', runs, out) =
        releases (heard r prev l h xs) xs joint.next (arrival-IsTor r relay_this_data_fwd l h xs)
          size in
      rw
        (
          eq→== to.sin_port a.sin_port port,
          handle-data5 r prev l h xs joint.stage (omega arith) runs ∙ out,
        )
        refl
  travel-plain (a ∷ []) (r ∷ r2 ∷ rs) prev to id l h xs chain low size port = absurd chain
  travel-plain (a ∷ a2 ∷ hops) (r ∷ rs) prev to id l h xs (joint, chain) (here, low) size port =
      let (r', m', runs, out) =
        relays_on (heard r prev l h xs) xs (λ same. absurd (omega (arith, same, joint.next, low.0)))
          (arrival-IsTor r relay_this_data_fwd l h xs) (omega arith) in
      rw
        (
          eq→== to.sin_port a.sin_port port,
          handle-data5 r prev l h xs joint.stage (omega arith) runs ∙ out,
        )
        (travel-plain (a2 ∷ hops) rs a r.entry.next_hop_rtr_for_circuit r.entry.my_circuit_id
            (htons r.entry.my_circuit_id % 256) (htons r.entry.my_circuit_id / 256 % 256)
            (resourced (e.nic r.my_router_id) xs) chain low
            (length-slice (store32 (λ i. get_or xs i 0) 12 (e.nic r.my_router_id)) 0 (length xs)
              ∙ size)
            joint.next
          ∙ ap some (ping_of-resourced (e.nic r.my_router_id) xs size))
