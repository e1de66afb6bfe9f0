-- ===== src/Circuit/Plain/Pong.antt =====
-- A packet from outside, over the routers of a circuit of stage 5, to the proxy's tunnel.
use torupload.Router.Handler.{handle, from_raw}
use torupload.Router.Handler.Stage6.{hex_dump-IsTor}
use torupload.Socket.Receive.{receive_message_lem}
use torupload.Circuit.Plain.Back.{readdressed, readdressed-Agree, readdressed-IsBytes, Agree}
use torupload.Circuit.Plain.Reply.{handle-reply5, handle_plain_reply}
use torupload.Circuit.Home.{addressed-IsDelivered, IsDelivered, addressed, received}
use torupload.Router.State.{Router, relay_this_data_backwd}
use torupload.Circuit.{Node, newest, travel, newest_of}
use torupload.Message.{store32, htons, Message, place, load16, load32, slice, Buffer}
use torupload.Machine.{Machine}
use torupload.Router.Wrap.Bytes.{tor_bytes, IsTor}
use torupload.Message.Laws.{length-slice}
use torupload.Trace.{udp_sent, tun_written, logged, incoming_relayed, pkt, Event}
use torupload.Base.Outcome.{ok, >>=-ok}
use torupload.Proxy.State.{Proxy}
use torupload.Proxy.Tunnel.{router_readable, relayed_from_router}
use torupload.Socket.{SockAddr, arrived}
use torupload.Router.Packet.{put_header_checksum}
use torupload.Checksum.Verify.{IsBytes}
use native.Mathlib.Decide.{dec_lt}
use torupload.Base.{
  ℕ, ◌^◌, ◌≡◌, ◌<◌, ◌≤◌, ◌⊎◌, inl, inr, refl, sym, ap, ◌∙◌, length, get_or, List, ◌∷◌, [], arith,
  some, eq→==, get_or-beyond, le→leb, ◌-◌,
}

-- The routers from the last one to the first hop: each is in stage 5 and has the next one for its
-- requester, and the first hop the proxy, by the port that it knows.
abbrev pub IsPlainWay : Router → List Node → SockAddr → Type 0
IsPlainWay r [] home =
    (r.stage ≡ 5)
    × (r.entry.circuit_requester_addr ≡ home)
    × (home.sin_port ≡ htons r.port_no_of_proxy)
IsPlainWay r (n ∷ nodes) home =
    (r.stage ≡ 5)
    × (r.entry.circuit_requester_addr.sin_port ≡ n.address.sin_port)
    × IsPlainWay n.router nodes home

IsPlainWay-stage :
    (r : Router) (nodes : List Node) (home : SockAddr) → IsPlainWay r nodes home → r.stage ≡ 5
IsPlainWay-stage r [] home way = way.0
IsPlainWay-stage r (n ∷ nodes) home way = way.0

module _ (e : Machine) where
  length-readdressed : (ip : ℕ) (xs : List ℕ) → length (readdressed ip xs) ≡ 84
  length-readdressed ip xs =
      length-slice (put_header_checksum (store32 (λ i. get_or xs i 0) 16 ip) 0) 0 84

  travels_home :
      (nodes : List Node) (r : Router) (own home : SockAddr) (l h ip : ℕ) (xs : List ℕ)
      → IsPlainWay r nodes home
      → (r.entry.circuit_requester_addr.sin_port ≡ htons r.port_no_of_proxy → ip ≡ e.nic 0)
      → length xs ≡ 84
      → IsBytes (λ i. get_or xs i 0)
      → (l' h' : ℕ) × (ys : List ℕ) × (travel e nodes own (
            udp_sent r.entry.circuit_requester_addr
              (tor_bytes relay_this_data_backwd l h (readdressed ip xs)))
          ≡ some
              (udp_sent home (tor_bytes relay_this_data_backwd l' h' (readdressed (e.nic 0) ys))))
        × Agree xs ys
        × (length ys ≡ 84)
        × IsBytes (λ i. get_or ys i 0)
  unfolding travel
  travels_home [] r own home l h ip xs (stage, requester, port) last size b = (
    l,
    h,
    xs,
    ap (λ a. some (udp_sent a (tor_bytes relay_this_data_backwd l h (readdressed ip xs)))) requester
        ∙ ap (λ to. some (udp_sent home (tor_bytes relay_this_data_backwd l h (readdressed to xs))))
            (last (ap (λ a. a.sin_port) requester ∙ port)),
    (λ i out. refl),
    size,
    b,
  )
  travels_home (n ∷ nodes) r own home l h ip xs (stage, port, way) last size b =
      let (l1, h1, ip1, out, last1) =
        handle-reply5 e n.router own l h (readdressed ip xs)
          (IsPlainWay-stage n.router nodes home way) (length-readdressed ip xs) in
      let (l', h', ys, goes, agree, size', b') =
        travels_home nodes n.router n.address home l1 h1 ip1 (readdressed ip xs) way last1
          (length-readdressed ip xs) (readdressed-IsBytes ip xs b) in
      (
        l',
        h',
        ys,
        rw (eq→== r.entry.circuit_requester_addr.sin_port n.address.sin_port port, out) goes,
        (λ i away. agree i away ∙ readdressed-Agree ip xs i away),
        size',
        b',
      )

  router_readable-stage5 :
      (p : Proxy) (from : SockAddr) (bytes : List ℕ)
      → p.stage ≡ 5
      → length bytes ≤ 500
      → router_readable e p (arrived from bytes)
        ≡ relayed_from_router
            (record p { sock_parent = record p.sock_parent { last_sender = from } })
            (record { msg = place e.indeterminate 0 bytes; actual_length = length bytes })
  unfolding router_readable
  router_readable-stage5 p from bytes stage room = rw (
    stage,
    receive_message_lem p.sock_parent (record { msg = e.indeterminate; actual_length = 0 }) from
        bytes room,
  )

  -- The proxy in stage 5 writes the payload to the tunnel.
  relayed_from_router_lem :
      (p : Proxy) {m : Message} {l h : ℕ} (xs : List ℕ)
      → IsTor m relay_this_data_backwd l h xs
      → m.actual_length ≤ 500
      → (p' : Proxy) × (relayed_from_router p m ≡ ok p') × (newest p'.trace ≡ some (tun_written xs))
  unfolding relayed_from_router
  relayed_from_router_lem p {m} {l} {h} xs t room = (
    record p {
      trace =
          tun_written (slice m.msg 23 (m.actual_length - 23))
          ∷ logged (incoming_relayed (load16 m.msg 21) (load32 m.msg 472) (load32 m.msg 476))
          ∷ logged (
              pkt (htons p.sock_parent.last_sender.sin_port) (m.actual_length - 20)
                (relay_this_data_backwd ∷ l ∷ h ∷ xs))
          ∷ p.trace;
    },
    >>=-ok _ _ (hex_dump-IsTor xs t room)
        (rw (le→leb 23 m.actual_length (omega (arith, t.len))) refl),
    ap (λ n. some (tun_written (slice m.msg 23 n))) (omega (arith, t.len))
        ∙ ap (λ ys. some (tun_written ys)) t.body,
  )

  relayed_home :
      (p : Proxy) (from : SockAddr) (l h : ℕ) (xs : List ℕ)
      → p.stage ≡ 5
      → length xs ≡ 84
      → (p' : Proxy) × (router_readable e p (arrived from (tor_bytes relay_this_data_backwd l h xs))
          ≡ ok p')
        × (newest p'.trace ≡ some (tun_written xs))
  relayed_home p from l h xs stage size =
      let (p', runs, out) =
        relayed_from_router_lem
          (record p { sock_parent = record p.sock_parent { last_sender = from } }) xs
          (received e relay_this_data_backwd l h xs) (omega (arith, size)) in
      (
        p',
        router_readable-stage5 p from (tor_bytes relay_this_data_backwd l h xs) stage
              (omega (arith, size))
            ∙ runs,
        out,
      )

  delivered :
      (xs ys : List ℕ)
      → Agree xs ys
      → length xs ≡ 84
      → length ys ≡ 84
      → IsBytes (λ i. get_or ys i 0)
      → e.nic 0 < 2 ^ 32
      → IsDelivered e (λ i. get_or xs i 0) (addressed e (λ i. get_or ys i 0))
  delivered xs ys agree size size' b small =
      let d = addressed-IsDelivered e (λ i. get_or ys i 0) b small in
      record {
        header_sum = d.header_sum;
        destination = d.destination;
        elsewhere = λ i out. d.elsewhere i out ∙ same i out;
      }
    where
      same : (i : ℕ) → (i < 10) ⊎ (((12 ≤ i) × (i < 16)) ⊎ (20 ≤ i)) → get_or ys i 0 ≡ get_or xs i 0
      same i (inl low) = agree i (inl low)
      same i (inr (inl mid)) = agree i (inr (inl mid))
      same i (inr (inr high)) = elim (dec_lt i 84) [
        | yes inside ↦ agree i (inr (inr (high, inside)))
        | no outside ↦
            get_or-beyond ys i 0 (omega (arith, size'))
            ∙ sym (get_or-beyond xs i 0 (omega (arith, size)))
      ]

  -- A reply of stage 5, to its end. A packet of 84 bytes arrives on the raw socket of a router of
  -- stage 5; `nodes` are the routers from there to the first hop: all are in stage 5, each has the
  -- next for its requester, by its port, and the first hop the proxy, whose port it knows for the
  -- proxy's. The proxy is in stage 5, and the address of eth0 has 32 bits. Then a datagram reaches
  -- the proxy, the proxy reads it without a fault, and the last thing it does is to write 84 bytes
  -- to its tunnel: the header's checksum verifies, the destination is the address of eth0, and at
  -- the offsets from 0 to 9, from 12 to 15 and from 20 on the bytes are those that arrived.
  pub plain_ping_comes_back :
      (p : Proxy) (r : Router) (nodes : List Node) (from own home last : SockAddr) (packet : List ℕ)
      → IsPlainWay r nodes home
      → p.stage ≡ 5
      → length packet ≡ 84
      → IsBytes (λ i. get_or packet i 0)
      → e.nic 0 < 2 ^ 32
      → (event : Event) × (bytes : List ℕ) × (p' : Proxy) × (g : Buffer) × (newest_of
            (handle e r (from_raw (arrived from packet)))
          ≡ some event)
        × (travel e nodes own event ≡ some (udp_sent home bytes))
        × (router_readable e p (arrived last bytes) ≡ ok p')
        × (newest p'.trace ≡ some (tun_written (slice g 0 84)))
        × IsDelivered e (λ i. get_or packet i 0) g
  plain_ping_comes_back p r nodes from own home last packet way stage size b small =
      let (l, h, ip, out, own_ip) =
        handle_plain_reply e r from packet (IsPlainWay-stage r nodes home way) size in
      let (l', h', ys, arrives, agree, size', b') =
        travels_home nodes r own home l h ip packet way own_ip size b in
      let (p', done, written) =
        relayed_home p last l' h' (readdressed (e.nic 0) ys) stage
          (length-readdressed (e.nic 0) ys) in
      (
        udp_sent r.entry.circuit_requester_addr
            (tor_bytes relay_this_data_backwd l h (readdressed ip packet)),
        tor_bytes relay_this_data_backwd l' h' (readdressed (e.nic 0) ys),
        p',
        addressed e (λ i. get_or ys i 0),
        out,
        arrives,
        done,
        written,
        delivered packet ys agree size size' b' small,
      )
