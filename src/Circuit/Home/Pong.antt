-- ===== src/Circuit/Home/Pong.antt =====
-- A packet from outside, over the routers of a circuit of stage 6, to the proxy's tunnel.
use torupload.Trace.{Event}
use torupload.Onion.Peel.{HasKeys, AllKeys}
use torupload.Circuit.Backward.{IsWayBack}
use torupload.Circuit.Forward.{HoldsKey}
use torupload.Key.{MyKey}
use torupload.Circuit.{Node, newest, newest_of, travel}
use torupload.Router.Handler.{handle, from_raw}
use torupload.Router.State.{relay_data_bwd_enc}
use torupload.Circuit.Home.{router_readable_home}
use torupload.Proxy.Tunnel.{router_readable}
use torupload.Router.Wrap.Bytes.{tor_bytes}
use torupload.Onion.Peel.{wrap}
use torupload.Message.Laws.{length-slice, slice_ext}
use torupload.Message.{slice}
use torupload.Base.Outcome.{ok}
use torupload.Trace.{udp_sent, tun_written}
use torupload.Message.Laws.{place-inside}
use torupload.Proxy.State.{Proxy}
use torupload.Aes.{IsAes}
use torupload.Socket.{arrived, SockAddr}
use torupload.Checksum.Verify.{IsBytes, store16-IsBytes}
use torupload.Router.Handler.Stage6.{arrival}
use torupload.Router.State.{Router}
use torupload.Machine.{Machine}
use torupload.Message.{Buffer, store32, wire, store16}
use torupload.Base.{
  length, get_or, get_or_inside, ℕ, ◌+◌, ◌*◌, ◌^◌, ◌≤◌, ◌<◌, ◌≡◌, ◌∙◌, ◌⊎◌, some, List, ◌∷◌, arith,
  ap,
}
use mathlib.Core.List.{reverse, reverse-cons}
use torupload.Base.{length-append, refl, []}
use torupload.Circuit.Reply.{unaddressed, travel_reply}
use torupload.Circuit.Home.{
  store32_ext, slice-byte, addressed_ext, addressed-IsDelivered, IsDelivered, addressed,
}

-- The packet as it travels: its destination is 0.
abbrev unaddressed_bytes : List ℕ → Buffer
unaddressed_bytes packet = store32 (λ i. get_or packet i 0) 16 0

arrived-byte :
    (r : Router) (packet : List ℕ) (i : ℕ)
    → i < length packet
    → (arrival r packet).msg i ≡ get_or packet i 0
arrived-byte r packet i h =
    ap (arrival r packet).msg {x = i} {y = 0 + i} (omega arith)
    ∙ place-inside r.r_message.msg 0 packet i
    ∙ get_or_inside packet i (r.r_message.msg (0 + i)) 0 h

sent-byte :
    (r : Router) (packet : List ℕ) (i : ℕ)
    → length packet ≡ 84
    → i < 84
    → get_or (wire (unaddressed (arrival r packet))) i 0 ≡ unaddressed_bytes packet i
sent-byte r packet i size h =
    slice-byte (unaddressed (arrival r packet)).msg 0 (length packet) i (omega (arith, size))
    ∙ ap (unaddressed (arrival r packet)).msg {x = 0 + i} {y = i} (omega arith)
    ∙ store32_ext (arrival r packet).msg (λ j. get_or packet j 0) 16 0 i
        (arrived-byte r packet i (omega (arith, size)))

delivered :
    (e : Machine) (packet : List ℕ)
    → IsBytes (λ i. get_or packet i 0)
    → e.nic 0 < 2 ^ 32
    → IsDelivered e (λ i. get_or packet i 0) (addressed e (unaddressed_bytes packet))
delivered e packet b small =
    let d =
      addressed-IsDelivered e (unaddressed_bytes packet)
        (store16-IsBytes (store16 f 16 0) 18 0 (store16-IsBytes f 16 0 b)) small in
    record {
      header_sum = d.header_sum;
      destination = d.destination;
      elsewhere = λ i out. d.elsewhere i out ∙ outside i out;
    }
  where
    f : Buffer
    f i = get_or packet i 0

    outside :
        (i : ℕ)
        → (i < 10) ⊎ (((12 ≤ i) × (i < 16)) ⊎ (20 ≤ i))
        → unaddressed_bytes packet i ≡ get_or packet i 0
    outside i out = ground arith

pub length-reverse : (ks : List MyKey) → length (reverse ks) ≡ length ks
length-reverse [] = refl
length-reverse (k ∷ ks) =
    ap length (reverse-cons k ks)
    ∙ omega (arith, length-append (reverse ks) (k ∷ []), length-reverse ks)

module _ (e : Machine) (laws : IsAes e.aes) where
  -- A trip back, to its end. A packet of 84 bytes arrives on the raw socket of a router of stage 6
  -- with key `k`; each of `nodes` holds its key of `ks` and is the requester of the node before it,
  -- the proxy of the last. The proxy is in stage 6, and its circuit has these hops: their keys, of
  -- 16 bytes and with the schedules of their texts, are the routers' in the opposite order, and
  -- `no_of_hops` counts them. The address of eth0 has 32 bits, and the layers fit (`123 + 16 *
  -- length ks <= 500`). Then a datagram reaches the proxy, the proxy reads it without a fault, and
  -- the last thing it does is to write 84 bytes to its tunnel: the header's checksum verifies, the
  -- destination is the address of eth0, and at the offsets from 0 to 9, from 12 to 15 and from 20
  -- on the bytes are those that arrived.
  pub ping_comes_back :
      (p : Proxy) (r : Router) (nodes : List Node) (k : MyKey) (ks : List MyKey)
      (from own home last : SockAddr) (packet : List ℕ)
      → HoldsKey e r k
      → IsWayBack e r.entry.circuit_requester_addr nodes ks home
      → p.stage ≡ 6
      → HasKeys p.tor_cct_hops (reverse (k ∷ ks))
      → AllKeys e (reverse (k ∷ ks))
      → length ks + 1 ≡ p.no_of_hops
      → length packet ≡ 84
      → IsBytes (λ i. get_or packet i 0)
      → e.nic 0 < 2 ^ 32
      → 123 + 16 * length ks ≤ 500
      → (event : Event) × (bytes : List ℕ) × (p' : Proxy) × (g : Buffer) × (newest_of
            (handle e r (from_raw (arrived from packet)))
          ≡ some event)
        × (travel e nodes own event ≡ some (udp_sent home bytes))
        × (router_readable e p (arrived last bytes) ≡ ok p')
        × (newest p'.trace ≡ some (tun_written (slice g 0 84)))
        × IsDelivered e (λ i. get_or packet i 0) g
  ping_comes_back p r nodes k ks from own home last packet holds way stage has keys count size b
        small room =
      let xs = wire (unaddressed (arrival r packet)) in
      let len : length xs ≡ 84 =
        length-slice (unaddressed (arrival r packet)).msg 0 (length packet) ∙ size in
      let hops = length-reverse (k ∷ ks) in
      let (event, l, h, out, arrives) =
        travel_reply e laws r nodes k ks from own home packet holds way size room in
      let (p', done, written) =
        router_readable_home e laws p last l h (reverse (k ∷ ks)) xs stage has keys
          (omega (arith, hops, count)) len (omega (arith, hops)) in
      (
        event,
        tor_bytes relay_data_bwd_enc l h (wrap e (reverse (k ∷ ks)) xs),
        p',
        addressed e (unaddressed_bytes packet),
        out,
        arrives,
        done,
        written
            ∙ ap (λ bytes. some (tun_written bytes))
                (slice_ext (addressed e (λ i. get_or xs i 0))
                  (addressed e (unaddressed_bytes packet)) 0 0 84
                  (λ i lt.
                    addressed_ext e (λ j. get_or xs j 0) (unaddressed_bytes packet)
                      (λ j below. sent-byte r packet j size below) (0 + i) (omega arith))),
        delivered e packet b small,
      )
